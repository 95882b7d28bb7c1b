-- ===== src/App/ExitCodes.antt =====
-- The exit codes of the program.
use qnatter.Common.{
  arith, ap, sym, ◌∙◌, ℕ, ◌≡◌, ◌⊎◌, inl, inr, refl, Bool, true, false, ◌&&◌, Option, none, some,
  List, [], ◌∷◌, if◌then◌else◌, ok, Bytes, Bool-cases,
}
use qnatter.App.{
  start_lines, fatal, log_exit_reason, if_check, unless_informed, with_config, checked, ExitStatus,
  exited, Line, informed, ended, behind, run_with_context, run_engine_with_log,
}
use qnatter.Config.{Config}
use qnatter.Engine.Retry.{RetryResult, running, returned, Round, run_with_retry, retryable}
use qnatter.Engine.Retry.Persistence.{is_change, run_with_retry_error}
use qnatter.Errors.{Error}

-- The program is started to keep a mapping, on a configuration that was read.
abbrev pub Serves : List Bytes → Config → Type 0
Serves args cfg = (informed args ≡ none) × (cfg.check ≡ false)

abbrev pub served : List Bytes → Config → (Config → Option Error) → List Round → ExitStatus
served args cfg check_run rounds =
    (run_with_context args (ok cfg) check_run (λ c. (run_engine_with_log c rounds).0)).0

status-behind : (lines : List Line) (r : ExitStatus × List Line) → (behind lines r).0 ≡ r.0
status-behind lines (status, later) = refl

uninformed :
    (o : Option Line) (later : ExitStatus × List Line) → o ≡ none → unless_informed o later ≡ later
uninformed none later h = refl
uninformed (some line) later h = cc

unchecked :
    (args : List Bytes) (cfg : Config) (check_run : Config → Option Error)
    (run : Config → RetryResult)
    → cfg.check ≡ false
    → (with_config args cfg check_run run).0 ≡ (ended cfg (run cfg)).0
unchecked args cfg check_run run h =
    ap
      (λ c.
        (if_check c (checked (check_run cfg))
          (behind (start_lines args cfg) (ended cfg (run cfg)))).0)
      h
    ∙ status-behind (start_lines args cfg) (ended cfg (run cfg))

pub served-ended :
    (args : List Bytes) (cfg : Config) (check_run : Config → Option Error) (rounds : List Round)
    → Serves args cfg
    → served args cfg check_run rounds ≡ (ended cfg (run_with_retry cfg none rounds).0).0
unfolding run_with_context run_engine_with_log
served-ended args cfg check_run rounds h =
    let run : Config → RetryResult = (λ c. (run_engine_with_log c rounds).0) in
    ap (λ r. r.0) (uninformed (informed args) (with_config args cfg check_run run) h.0)
    ∙ unchecked args cfg check_run run h.1

-- Changes are among the errors to retry.
unchanged : (e : Error) → retryable e none ≡ false → is_change e ≡ false
unfolding retryable
unchanged e h = ground arith

-- An error that is not to be retried, so neither a changed mapping nor a changed local address.
abbrev pub IsFatal : Error → Type 0
IsFatal e = (retryable e none ≡ false) × (is_change e ≡ false)

exited-injective : {m n : ℕ} → exited m ≡ exited n → m ≡ n
exited-injective h = cc

-- What an exit of the program means, by the result of the retries.
abbrev pub Justified : ℕ → RetryResult → Type 0
Justified n result =
    ((n ≡ 0) ⊎ ((n ≡ 1) × ((e : Error) × (result ≡ returned (some e)) × IsFatal e)))

unfounded :
    (q c : Bool) (x y : List Line)
    → c ≡ false
    → (if◌then◌else◌ {A = ExitStatus × List Line} (q && c) (exited 0, x) (exited 1, y)).0 ≡ exited 1
unfounded q c x y h = elim (Bool-cases q) [ inl e ↦ rw (e, h) refl | inr e ↦ rw e refl ]

ended-Justified :
    (cfg : Config) (result : RetryResult) (n : ℕ)
    → ((e : Error)
        → result ≡ returned (some e)
        → ((cfg.exit_when_changed ≡ true) × (is_change e ≡ true)) ⊎ (retryable e none ≡ false))
    → (ended cfg result).0 ≡ exited n
    → Justified n result
ended-Justified cfg running n errors h = cc
ended-Justified cfg (returned none) n errors h = inl (sym (exited-injective h))
ended-Justified cfg (returned (some e)) n errors h = elim (errors e refl) [
  | inl (quiet, change) ↦ inl (sym (exited-injective (rw (quiet, change) at h)))
  | inr final ↦ inr (
    sym (
        exited-injective (
          sym (
            unfounded cfg.exit_when_changed (is_change e) (log_exit_reason e) (fatal e ∷ [])
              (unchanged e final))
          ∙ h)),
    (e, refl, (final, unchanged e final)),
  )
]

-- A program that was started to keep a mapping exits with 0 or 1. It exits with 1 only if a run
-- failed with an error that is not to be retried, which a changed mapping or a changed local address
-- never is, with `-q` or without.
pub served-Justified :
    (args : List Bytes) (cfg : Config) (check_run : Config → Option Error) (rounds : List Round)
    (n : ℕ)
    → Serves args cfg
    → served args cfg check_run rounds ≡ exited n
    → Justified n (run_with_retry cfg none rounds).0
served-Justified args cfg check_run rounds n h e =
    ended-Justified cfg (run_with_retry cfg none rounds).0 n (run_with_retry_error cfg none rounds)
      (sym (served-ended args cfg check_run rounds h) ∙ e)
