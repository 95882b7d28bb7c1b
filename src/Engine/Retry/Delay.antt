-- ===== src/Engine/Retry/Delay.antt =====
-- The delay between two runs.
use qnatter.Common.{
  ℕ, zero, suc, ◌*◌, ◌≤◌, ◌≡◌, refl, arith, ltb, if◌then◌else◌, ℤ, pos, negsuc, Bool-cases, inl,
  inr, ◌%◌, ◌^◌, lt→ltb, le→ltb, ap, ◌∙◌,
}
use Prim.Native.Nat.{min}
use qnatter.Engine.Retry.{second, max_seconds, retry_delay, mul_int64}

-- Products of up to an hour's seconds do not wrap.
mul_int64-pos : (n : ℕ) → n ≤ max_seconds → mul_int64 n second ≡ pos (n * second)
unfolding mul_int64
mul_int64-pos n h = rw (wraps, lt→ltb (n * second) (2 ^ 63) (omega arith))
  where
    wraps : n * second % 2 ^ 64 ≡ n * second
    wraps = omega arith

-- The seconds that are meant: the interval cut to an hour, or fifteen if it is not positive.
abbrev pub delay_seconds : ℤ → ℕ
delay_seconds (pos (suc n)) = min max_seconds (suc n)
delay_seconds _ = 15

positive_delay :
    (n k : ℕ)
    → (if ltb max_seconds (suc n) then max_seconds else suc n) ≡ suc k
    → suc k ≤ max_seconds
    → retry_delay (pos (suc n)) ≡ pos (suc k * second)
unfolding retry_delay
positive_delay n k e h =
    rw (e, mul_int64-pos (suc k) h, le→ltb (suc k * second) second (omega arith))

-- For every interval, negative and very large ones included, the delay is the interval in seconds
-- cut to an hour, or fifteen seconds if it is not positive: no product wraps, and the delay lies
-- between a second and an hour.
pub retry_delay_range :
    (interval : ℤ)
    → (retry_delay interval ≡ pos (delay_seconds interval * second))
      × (1 ≤ delay_seconds interval)
      × (delay_seconds interval ≤ max_seconds)
unfolding retry_delay
retry_delay_range (pos zero) = (unfold mul_int64 in refl, omega arith, omega arith)
retry_delay_range (negsuc n) = (unfold mul_int64 in refl, omega arith, omega arith)
retry_delay_range (pos (suc n)) = (
  elim (Bool-cases (ltb max_seconds (suc n))) [
    | inl big ↦ positive_delay n 3599 (rw big) (omega arith) ∙ ap pos (ground arith)
    | inr small ↦ positive_delay n n (rw small) (ground arith) ∙ ap pos (ground arith)
  ],
  omega arith,
  omega arith,
)
