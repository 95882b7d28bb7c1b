-- ===== src/App/RetryLines.antt =====
-- What the program prints while it retries.
use qnatter.Common.{
  ◌*◌, ◌≡◌, ◌⊎◌, inl, inr, ◌∙◌, ap, arith, Bool, true, false, ◌&&◌, ◌||◌, Option, none, some, List,
  [], ◌∷◌, Bytes, ℤ, pos, Bool-cases,
}
use mathlib.Core.Path.{subst}
use qnatter.App.{
  still_running, Line, interface_unavailable, address_unavailable, retrying, ended, log_retry,
  retry_lines, run_engine_with_log,
}
use qnatter.App.ExitCodes.{Serves, served, served-ended}
use qnatter.Config.{Config}
use qnatter.Engine.Retry.{Round, retryable, retry_delay}
use qnatter.Engine.Retry.Delay.{delay_seconds, retry_delay_range}
use qnatter.Engine.Retry.Persistence.{AllTransient, reports, run_with_retry_persists}
use qnatter.Errors.{
  Error, Cause, errors_is, mapping_changed, keep_alive_failed, target_closed, local_address_changed,
  no_server_available, addr_not_avail, no_dev,
}

-- The seven causes that pass.
abbrev pub IsTemporary : Cause → Type 0
IsTemporary mapping_changed = Unit
IsTemporary keep_alive_failed = Unit
IsTemporary target_closed = Unit
IsTemporary local_address_changed = Unit
IsTemporary no_server_available = Unit
IsTemporary addr_not_avail = Unit
IsTemporary no_dev = Unit
IsTemporary _ = ⊥

-- A run that fails with an error of such a cause, while nothing stops the program; with `-q` the
-- error is no change of an address.
pub record Fails (cfg : Config) (r : Round) (e : Error) : Type 0 where
  pub result : r.result ≡ some e
  pub not_cancelled : r.cancelled ≡ false
  pub not_interrupted : r.interrupted ≡ false
  pub cause : Cause
  pub has_cause : errors_is e cause ≡ true
  pub temporary : IsTemporary cause
  pub tolerated :
      (cfg.exit_when_changed ≡ false)
      ⊎ ((errors_is e mapping_changed ≡ false) × (errors_is e local_address_changed ≡ false))

abbrev pub AllFail : Config → List Round → List Error → Type 0
AllFail cfg [] [] = Unit {0}
AllFail cfg (r ∷ rounds) (e ∷ errs) = Fails cfg r e × AllFail cfg rounds errs
AllFail cfg _ _ = ⊥

-- The line for an error, with the delay in nanoseconds: a missing interface comes first, then a
-- missing address, and any other error is printed itself.
pub data IsLine (delay : ℤ) (e : Error) : Line → Type 0 where
  for_device : errors_is e no_dev ≡ true → IsLine delay e (interface_unavailable delay)
  for_address :
      errors_is e no_dev ≡ false
      → errors_is e addr_not_avail ≡ true
      → IsLine delay e (address_unavailable delay)
  for_other :
      errors_is e no_dev ≡ false
      → errors_is e addr_not_avail ≡ false
      → IsLine delay e (retrying e delay)

-- One line for each error, in order.
abbrev pub AreLines : ℤ → List Error → List Line → Type 0
AreLines delay [] [] = Unit {0}
AreLines delay (e ∷ errs) (line ∷ lines) = IsLine delay e line × AreLines delay errs lines
AreLines delay _ _ = ⊥

retryable_cause :
    (e : Error) (c : Cause) → IsTemporary c → errors_is e c ≡ true → retryable e none ≡ true
unfolding retryable
retryable_cause e mapping_changed t h = ground (arith, h)
retryable_cause e keep_alive_failed t h = ground (arith, h)
retryable_cause e target_closed t h = ground (arith, h)
retryable_cause e local_address_changed t h = ground (arith, h)
retryable_cause e no_server_available t h = ground (arith, h)
retryable_cause e addr_not_avail t h = ground (arith, h)
retryable_cause e no_dev t h = ground (arith, h)
retryable_cause e _ t h = elim t [ ]

not_quiet : (q a b : Bool) → (q ≡ false) ⊎ ((a ≡ false) × (b ≡ false)) → (q && (a || b)) ≡ false
not_quiet q a b h = ground (arith, h)

AllFail-AllTransient :
    (cfg : Config) (rounds : List Round) (errs : List Error)
    → AllFail cfg rounds errs
    → AllTransient cfg rounds errs
AllFail-AllTransient cfg [] [] h = tt
AllFail-AllTransient cfg [] (e ∷ errs) h = elim h [ ]
AllFail-AllTransient cfg (r ∷ rounds) [] h = elim h [ ]
AllFail-AllTransient cfg (r ∷ rounds) (e ∷ errs) h =
    let f = h.0 in
    (
      (
        f.result,
        f.not_cancelled,
        f.not_interrupted,
        retryable_cause e f.cause f.temporary f.has_cause,
        not_quiet cfg.exit_when_changed (errors_is e mapping_changed)
            (errors_is e local_address_changed) f.tolerated,
      ),
      AllFail-AllTransient cfg rounds errs h.1,
    )

log_retry-IsLine : (e : Error) (delay : ℤ) → IsLine delay e (log_retry e delay)
unfolding log_retry
log_retry-IsLine e delay = elim (Bool-cases (errors_is e no_dev)) [
  | inl d ↦ rw d (for_device d)
  | inr d ↦ elim (Bool-cases (errors_is e addr_not_avail)) [
    | inl a ↦ rw (d, a) (for_address d a)
    | inr a ↦ rw (d, a) (for_other d a)
  ]
]

retry_lines-AreLines :
    (cfg : Config) (errs : List Error)
    → AreLines (retry_delay cfg.keep_alive_interval) errs (retry_lines (reports cfg errs))
retry_lines-AreLines cfg [] = tt
retry_lines-AreLines cfg (e ∷ errs) =
    (log_retry-IsLine e (retry_delay cfg.keep_alive_interval), retry_lines-AreLines cfg errs)

-- However many runs fail with errors of one of the seven causes that pass, a program that was started
-- to keep a mapping is still running, and it has printed one line for each failure, in order: of the
-- missing interface, of the missing address, or with the error itself, and with the delay, which is
-- the interval of `-k` in seconds, cut to an hour, or fifteen seconds if that is not positive. With
-- `-q` no error is a change of an address.
pub served_persists :
    (args : List Bytes) (cfg : Config) (check_run : Config → Option Error) (rounds : List Round)
    (errs : List Error)
    → Serves args cfg
    → AllFail cfg rounds errs
    → (served args cfg check_run rounds ≡ still_running)
      × AreLines
          (pos (delay_seconds cfg.keep_alive_interval * 1000000000))
          errs
          (run_engine_with_log cfg rounds).1
unfolding run_engine_with_log
served_persists args cfg check_run rounds errs h f =
    let kept = run_with_retry_persists cfg rounds errs (AllFail-AllTransient cfg rounds errs f) in
    let delay = (retry_delay_range cfg.keep_alive_interval).0 in
    (
      served-ended args cfg check_run rounds h ∙ ap (λ r. (ended cfg r.0).0) kept,
      rw kept (
          subst (λ d. AreLines d errs (retry_lines (reports cfg errs))) delay
            (retry_lines-AreLines cfg errs)),
    )
