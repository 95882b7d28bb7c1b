-- ===== src/Engine/Retry.antt =====
-- go-qnatter/internal/engine/retry.go: `RunWithRetry`, over the outcomes of its attempts.
pub mod Delay
pub mod Persistence
use qnatter.Common.{
  ℕ, suc, ◌*◌, ◌-◌, ◌%◌, ◌^◌, Bool, true, false, ◌&&◌, ◌||◌, not, Option, none, some, List, [], ◌∷◌,
  ltb, leb, if◌then◌else◌, ℤ, pos, negsuc,
}
use qnatter.Config.{Config}
use qnatter.Errors.{
  Error, errors_is, mapping_changed, keep_alive_failed, target_closed, local_address_changed,
  no_server_available, addr_not_avail, no_dev,
}

-- Durations are nanoseconds in an `int64`: the product is taken modulo 2^64 and read as signed.
abbrev signed64 : ℕ → ℤ
signed64 w = if ltb w (2 ^ 63) then pos w else negsuc (2 ^ 64 - w - 1)

abbrev pub second : ℕ
second = 1000000000

abbrev pub max_seconds : ℕ
max_seconds = 3600

unfoldable pub mul_int64 : ℕ → ℕ → ℤ
mul_int64 a b = signed64 (a * b % 2 ^ 64)

abbrev less_than_second : ℤ → Bool
less_than_second (pos n) = ltb n second
less_than_second (negsuc n) = true

-- The delay for a positive interval: seconds are cut at an hour, then multiplied.
abbrev interval_delay : ℤ → ℤ
interval_delay (pos (suc n)) =
    let seconds = if ltb max_seconds (suc n) then max_seconds else suc n in mul_int64 seconds second
interval_delay _ = mul_int64 15 second

-- `retryDelay`, of the interval `-k`
unfoldable pub retry_delay : ℤ → ℤ
retry_delay interval =
    let delay = interval_delay interval in
    if less_than_second delay then mul_int64 1 second else delay

-- `retryable`, with an optional test of the caller's
unfoldable pub retryable : Error → Option (Error → Bool) → Bool
unfolding errors_is
retryable err (some fn) = fn err
retryable err none =
    errors_is err mapping_changed
    || errors_is err keep_alive_failed
    || errors_is err target_closed
    || errors_is err local_address_changed
    || errors_is err no_server_available
    || errors_is err addr_not_avail
    || errors_is err no_dev

-- One round of the loop, with what its surroundings answer: the result of the run, whether the
-- context is done behind it, and whether the sleep is interrupted.
pub record Round : Type 0 where
  pub result : Option Error
  pub cancelled : Bool
  pub interrupted : Bool

-- The loop is still running, or it returned.
pub data RetryResult : Type 0 where
  running : RetryResult
  returned : Option Error → RetryResult

-- What a round comes to: a retry after a delay, or a return.
pub data RoundEnd : Type 0 where
  retry : Error → ℤ → RoundEnd
  stop : Option Error → RoundEnd
  -- The sleep behind the report of a retry was interrupted.
  woken : Error → ℤ → RoundEnd

abbrev on_error : Config → Option (Error → Bool) → Round → Error → RoundEnd
on_error cfg fn r err =
    if r.cancelled
    then stop none
    else if cfg.exit_when_changed
        && (errors_is err mapping_changed || errors_is err local_address_changed)
    then stop (some err)
    else if not (retryable err fn)
    then stop (some err)
    else if r.interrupted
    then woken err (retry_delay cfg.keep_alive_interval)
    else retry err (retry_delay cfg.keep_alive_interval)

abbrev on_result : Config → Option (Error → Bool) → Round → Option Error → RoundEnd
on_result cfg fn r none = stop none
on_result cfg fn r (some err) = on_error cfg fn r err

unfoldable pub one_round : Config → Option (Error → Bool) → Round → RoundEnd
one_round cfg fn r = on_result cfg fn r r.result

-- The reports made to `OnRetry`.
abbrev pub Reports : Type 0
Reports = List (Error × ℤ)

abbrev pub after_round : RoundEnd → RetryResult × Reports → RetryResult × Reports
after_round (stop r) later = (returned r, [])
after_round (woken err delay) later = (returned none, (err, delay) ∷ [])
after_round (retry err delay) (r, reports) = (r, (err, delay) ∷ reports)

-- `RunWithRetry`
unfoldable pub run_with_retry : Config → Option (Error → Bool) → List Round → RetryResult × Reports
run_with_retry cfg fn [] = (running, [])
run_with_retry cfg fn (r ∷ rounds) =
    let later = run_with_retry cfg fn rounds in after_round (one_round cfg fn r) later
