-- ===== src/Engine/Retry/Persistence.antt =====
-- Which errors end the program, and which it outlives.
use qnatter.Common.{
  ◌≡◌, ◌⊎◌, inl, inr, refl, Bool, true, false, ◌||◌, ◌&&◌, not, Option, none, some, List, [], ◌∷◌,
  ℤ, if◌then◌else◌,
}
use qnatter.Config.{Config}
use qnatter.Errors.{Error, errors_is, mapping_changed, local_address_changed}
use qnatter.Engine.Retry.{
  retryable, retry_delay, Round, RetryResult, running, returned, RoundEnd, retry, stop, woken,
  one_round, Reports, after_round, run_with_retry, on_result,
}

abbrev pub is_change : Error → Bool
is_change err = errors_is err mapping_changed || errors_is err local_address_changed

-- The run failed with `err`, nothing interrupts the retry, and the error is one to retry.
abbrev pub IsTransient : Config → Round → Error → Type 0
IsTransient cfg r err =
    (r.result ≡ some err)
    × (r.cancelled ≡ false)
    × (r.interrupted ≡ false)
    × (retryable err none ≡ true)
    × ((cfg.exit_when_changed && is_change err) ≡ false)

-- Every round fails with the error that stands beside it in the reports.
abbrev pub AllTransient : Config → List Round → List Error → Type 0
AllTransient cfg [] [] = Unit {0}
AllTransient cfg (r ∷ rounds) (err ∷ errs) = IsTransient cfg r err × AllTransient cfg rounds errs
AllTransient cfg _ _ = ⊥

abbrev pub reports : Config → List Error → Reports
reports cfg [] = []
reports cfg (err ∷ errs) = (err, retry_delay cfg.keep_alive_interval) ∷ reports cfg errs

transient_round :
    (cfg : Config) (r : Round) (err : Error)
    → IsTransient cfg r err
    → one_round cfg none r ≡ retry err (retry_delay cfg.keep_alive_interval)
unfolding one_round
transient_round cfg r err h = rw (h.0, h.1, h.4, h.3, h.2)

-- However many runs fail with errors to retry, the program goes on, and reports each failure with
-- the delay behind it.
pub run_with_retry_persists :
    (cfg : Config) (rounds : List Round) (errs : List Error)
    → AllTransient cfg rounds errs
    → run_with_retry cfg none rounds ≡ (running, reports cfg errs)
unfolding run_with_retry
run_with_retry_persists cfg [] [] h = refl
run_with_retry_persists cfg [] (err ∷ errs) h = elim h [ ]
run_with_retry_persists cfg (r ∷ rounds) [] h = elim h [ ]
run_with_retry_persists cfg (r ∷ rounds) (err ∷ errs) h =
    rw (transient_round cfg r err h.0, run_with_retry_persists cfg rounds errs h.1)

-- What a round may stop with.
abbrev IsFinal : Config → Option (Error → Bool) → Error → Type 0
IsFinal cfg fn err =
    ((cfg.exit_when_changed ≡ true) × (is_change err ≡ true)) ⊎ (retryable err fn ≡ false)

stop-injective : {x y : Option Error} → stop x ≡ stop y → x ≡ y
stop-injective h = cc

retry_stop :
    (i : Bool) (x err : Error) (d : ℤ) → (if i then woken x d else retry x d) ≡ stop (some err) → ⊥
retry_stop true h = cc
retry_stop false h = cc

-- The tests of `on_error` one behind the other.
final_branch :
    (cancelled q c r i : Bool) (x err : Error) (d : ℤ)
    → (if cancelled
        then stop none
        else if q && c
        then stop (some x)
        else if not r
        then stop (some x)
        else if i
        then woken x d
        else retry x d)
      ≡ stop (some err)
    → (x ≡ err) × (((q ≡ true) × (c ≡ true)) ⊎ (r ≡ false))
final_branch true q c r i x err d h = elim (no h) [ ]
  where
    no : stop none ≡ stop (some err) → ⊥
    no h = cc
final_branch false true true r i x err d h = (cc, inl (refl, refl))
final_branch false true false false i x err d h = (cc, inr refl)
final_branch false false c false i x err d h = (cc, inr refl)
final_branch false true false true i x err d h = elim (retry_stop i x err d h) [ ]
final_branch false false c true i x err d h = elim (retry_stop i x err d h) [ ]

round-IsFinal :
    (cfg : Config) (fn : Option (Error → Bool)) (r : Round) (err : Error)
    → one_round cfg fn r ≡ stop (some err)
    → IsFinal cfg fn err
unfolding one_round
round-IsFinal cfg fn r err h = by_result r.result h
  where
    by_result : (o : Option Error) → on_result cfg fn r o ≡ stop (some err) → IsFinal cfg fn err
    by_result none h = elim (no h) [ ]
      where
        no : stop none ≡ stop (some err) → ⊥
        no h = cc
    by_result (some x) h =
        let b =
          final_branch r.cancelled cfg.exit_when_changed (is_change x) (retryable x fn)
            r.interrupted x err (retry_delay cfg.keep_alive_interval) h in
        rw b.0 at b.1

round_error :
    (cfg : Config) (fn : Option (Error → Bool)) (e : RoundEnd) (err : Error)
    (later : RetryResult × Reports)
    → (e ≡ stop (some err) → IsFinal cfg fn err)
    → (later.0 ≡ returned (some err) → IsFinal cfg fn err)
    → (after_round e later).0 ≡ returned (some err)
    → IsFinal cfg fn err
round_error cfg fn (stop o) err later now rest h = now (cc)
round_error cfg fn (woken x d) err later now rest h = elim (no h) [ ]
  where
    no : returned none ≡ returned (some err) → ⊥
    no h = cc
round_error cfg fn (retry x d) err later now rest h = rest h

-- The program ends with an error only on an error that is not to be retried, or, under `-q`, on a
-- changed mapping or a changed local address.
pub run_with_retry_error :
    (cfg : Config) (fn : Option (Error → Bool)) (rounds : List Round) (err : Error)
    → (run_with_retry cfg fn rounds).0 ≡ returned (some err)
    → ((cfg.exit_when_changed ≡ true) × (is_change err ≡ true)) ⊎ (retryable err fn ≡ false)
unfolding run_with_retry
run_with_retry_error cfg fn [] err h = elim (no h) [ ]
  where
    no : running ≡ returned (some err) → ⊥
    no h = cc
run_with_retry_error cfg fn (r ∷ rounds) err h =
    round_error cfg fn (one_round cfg fn r) err (run_with_retry cfg fn rounds)
      (round-IsFinal cfg fn r err) (run_with_retry_error cfg fn rounds err) h
