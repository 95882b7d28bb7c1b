-- ===== src/Engine/Loop/History.antt =====
-- The loop against a specification that looks at the history of ticks and has no counters.
use qnatter.Common.{
  ℕ, zero, suc, ◌+◌, ◌%◌, ◌<◌, ◌≡◌, refl, arith, Bool, true, false, not, ◌&&◌, Option, none, some,
  List, [], ◌∷◌, leb, ◌==◌, if◌then◌else◌, is_some, ap, Bool-cases, sym, ℤ, pos, negsuc, inl, inr,
  ◌++◌,
}
use native.Mathlib.Nat.{mod-add-mod, mod-eq_of_lt, mod-eq-sub-mod, le_refl}
use native.Mathlib.Numerals.{add-one}
use qnatter.Errors.{Error, mapping_changed, keep_alive_failed, local_address_changed}
use qnatter.Net.{AddrPort, addr_port_eq}
use qnatter.Engine.Loop.{
  Answer, answered, failed, Tick, Setting, Counters, start, Effect, get_mapping, Verdict, continue,
  return, local_address_unavailable, on_keep_alive_error, on_recheck, renewal, on_keep_alive,
  on_tick, dispatch, LoopOptions, setting, recheck_interval, transient_failure_limit, Event, done,
  tick, LoopResult, waiting, returned, proceed, run_loop,
}

-- A history is the list of the ticks so far, the newest first.
abbrev pub History : Type 0
History = List Tick

-- How many elements at the front pass a test: at the newest end of a history.
abbrev pub leading {ℓ} : {A : Type ℓ} → (A → Bool) → List A → ℕ
leading p [] = 0
leading p (x ∷ xs) = if p x then suc (leading p xs) else 0

abbrev pub keep_alive_fails : Tick → Bool
keep_alive_fails t = is_some t.keep_alive

-- The ticks whose keep-alive succeeded.
abbrev pub successes : History → ℕ
successes [] = 0
successes (t ∷ h) = if keep_alive_fails t then successes h else suc (successes h)

-- A recheck is due at each success whose number is a multiple of the interval.
abbrev pub is_due : ℕ → Tick → History → Bool
is_due every t h = not (keep_alive_fails t) && (successes (t ∷ h) % every == 0)

abbrev pub recheck_fails : Answer → Bool
recheck_fails (failed _) = true
recheck_fails (answered _) = false

-- The answers of the rechecks so far, the newest first.
abbrev pub rechecks : ℕ → History → List Answer
rechecks every [] = []
rechecks every (t ∷ h) = if is_due every t h then t.recheck ∷ rechecks every h else rechecks every h

-- The error with which the loop stops at tick `t` behind the history `h`, if it does.
abbrev pub recheck_decision : Setting → List Answer → Answer → Option Error
recheck_decision c before (failed err) =
    if local_address_unavailable err
    then some (local_address_changed ∷ err)
    else if leading recheck_fails (failed err ∷ before) == c.stun_limit
    then some err
    else none
recheck_decision c before (answered m) =
    if addr_port_eq m.outer c.outer then none else some (mapping_changed ∷ [])

abbrev pub keep_alive_decision : Setting → Tick → History → Option Error → Option Error
keep_alive_decision c t h (some err) =
    if local_address_unavailable err
    then some (local_address_changed ∷ err)
    else if leading keep_alive_fails (t ∷ h) == c.keep_alive_limit
    then some (keep_alive_failed ∷ err)
    else none
keep_alive_decision c t h none =
    if is_due c.recheck_every t h
    then recheck_decision c (rechecks c.recheck_every h) t.recheck
    else none

abbrev pub decision : Setting → Tick → History → Option Error
decision c t h = keep_alive_decision c t h t.keep_alive

-- The loop waits with these counters after these ticks.
pub data Runs (c : Setting) : History → Counters → Type 0 where
  begin : Runs c [] start
  more :
      {h : History} {s : Counters} (t : Tick) (s' : Counters) (log : List Effect)
      → Runs c h s
      → on_tick c s t ≡ continue s' log
      → Runs c (t ∷ h) s'

-- What the counters say of the history.
pub record Counts (c : Setting) (h : History) (s : Counters) : Type 0 where
  pub count_is : s.count ≡ successes h % c.recheck_every
  pub keep_alive_is : s.keep_alive_failures ≡ leading keep_alive_fails h
  pub stun_is : s.stun_failures ≡ leading recheck_fails (rechecks c.recheck_every h)
  pub keep_alive_low : s.keep_alive_failures < c.keep_alive_limit
  pub stun_low : s.stun_failures < c.stun_limit

-- The limits of the options are positive.
pub record IsSetting (c : Setting) : Type 0 where
  pub every_pos : 0 < c.recheck_every
  pub keep_alive_pos : 0 < c.keep_alive_limit
  pub stun_pos : 0 < c.stun_limit

abbrev pub stops : Verdict → Option Error
stops (continue s log) = none
stops (return err log) = some err

abbrev pub CountsNext : Setting → History → Verdict → Type 0
CountsNext c h (continue s log) = Counts c h s
CountsNext c h (return err log) = Unit

mod_suc_step : (n m : ℕ) → n % m + 1 < m → suc n % m ≡ n % m + 1
mod_suc_step n m h = omega (arith, mod-add-mod n m 1, ap (λ k. k % m) (add-one n), mod-eq_of_lt h)

mod_suc_wrap : (n m : ℕ) → n % m + 1 ≡ m → suc n % m ≡ 0
mod_suc_wrap n m h = omega (
  arith,
  mod-add-mod n m 1,
  ap (λ k. k % m) (add-one n),
  ap (λ k. k % m) h,
  mod_self m (omega arith),
)
  where
    mod_self : (k : ℕ) → 0 < k → k % k ≡ 0
    mod_self k p =
        omega (arith, mod-eq-sub-mod {n = k} {m = k} (le_refl k), mod-eq_of_lt {n = 0} {m = k} p)

-- The two outcomes of one tick: what the loop does next, and what its counters then count.
abbrev Follows : Setting → Tick → History → Verdict → Type 0
Follows c t h v = (stops v ≡ decision c t h) × CountsNext c (t ∷ h) v

module _ (c : Setting) (v : IsSetting c) (t : Tick) (h : History) (s : Counters)
    (k : Counts c h s) where
  error-Follows :
      (err : Error) → t.keep_alive ≡ some err → Follows c t h (on_keep_alive_error c s err)
  unfolding on_keep_alive_error
  error-Follows err e = ground arith

  recheck-Follows :
      (log : List Effect) (a : Answer)
      → t.keep_alive ≡ none
      → t.recheck ≡ a
      → suc (successes h) % c.recheck_every ≡ 0
      → Follows c t h (on_recheck c (record s { count = 0; keep_alive_failures = 0 }) log a)
  unfolding on_recheck
  recheck-Follows log (failed err) e r due = ground arith
  recheck-Follows log (answered m) e r due = ground arith

  success-Follows : t.keep_alive ≡ none → Follows c t h (on_keep_alive c s t)
  unfolding on_keep_alive
  success-Follows e = elim (Bool-cases (leb c.recheck_every (s.count + 1))) [
    | inl reached ↦ rw reached (
        recheck-Follows (renewal c.has_upnp t.renew ++ (get_mapping ∷ [])) t.recheck e refl
          (mod_suc_wrap (successes h) c.recheck_every (ground arith)))
    | inr before ↦ rw before (ground (arith, mod_suc_step (successes h) c.recheck_every))
  ]

dispatch-Follows :
    (c : Setting) (v : IsSetting c) (t : Tick) (h : History) (s : Counters)
    → Counts c h s
    → (o : Option Error) → t.keep_alive ≡ o
    → Follows c t h (dispatch c s t o)
unfolding dispatch
dispatch-Follows c v t h s k none e = success-Follows c v t h s k e
dispatch-Follows c v t h s k (some err) e = error-Follows c v t h s k err e

on_tick-Follows :
    (c : Setting) (v : IsSetting c) (t : Tick) (h : History) (s : Counters)
    → Counts c h s
    → Follows c t h (on_tick c s t)
unfolding on_tick
on_tick-Follows c v t h s k = dispatch-Follows c v t h s k t.keep_alive refl

start-Counts : (c : Setting) → IsSetting c → Counts c [] start
start-Counts c v = record {
  count_is = sym (mod-eq_of_lt v.every_pos);
  keep_alive_is = refl;
  stun_is = refl;
  keep_alive_low = v.keep_alive_pos;
  stun_low = v.stun_pos;
}

-- However the loop came to wait, its counters are: the successes since the last recheck, the
-- keep-alive failures in a row, the recheck failures in a row. Both failure counters are below
-- their limits.
pub Runs-Counts :
    (c : Setting) {h : History} {s : Counters} → IsSetting c → Runs c h s → Counts c h s
Runs-Counts c v begin = start-Counts c v
Runs-Counts c v (more {h} {s} t s' log r e) =
    rw e at (on_tick-Follows c v t h s (Runs-Counts c v r)).1

pub setting-IsSetting : (o : LoopOptions) (u : Bool) (a : AddrPort) → IsSetting (setting o u a)
unfolding setting
setting-IsSetting o u a = record {
  every_pos = interval o.recheck_every;
  keep_alive_pos = limit o.keep_alive_failure_limit;
  stun_pos = limit o.stun_failure_limit;
}
  where
    interval : (z : ℤ) → 0 < recheck_interval z
    interval (pos zero) = omega arith
    interval (pos (suc n)) = omega arith
    interval (negsuc n) = omega arith

    limit : (z : ℤ) → 0 < transient_failure_limit z
    limit (pos zero) = omega arith
    limit (pos (suc n)) = omega arith
    limit (negsuc n) = omega arith

-- Stop with the error that is decided, or go on.
abbrev pub stop_or : Option Error → Option (Option Error) → Option (Option Error)
stop_or (some err) rest = some (some err)
stop_or none rest = rest

-- What the loop comes to on the events that `select` picks, by the specification: nothing yet, an
-- orderly end, or an error.
unfoldable pub expected : Setting → History → List Event → Option (Option Error)
expected c h [] = none
expected c h (done ∷ events) = some none
expected c h (tick t ∷ events) = stop_or (decision c t h) (expected c (t ∷ h) events)

abbrev pub result_of : LoopResult → Option (Option Error)
result_of (waiting s) = none
result_of (returned r) = some r

advance :
    (c : Setting) (t : Tick) (h : History) (vd : Verdict)
    (rest : Counters → LoopResult × List Effect) (later : Option (Option Error))
    → Follows c t h vd
    → ((s : Counters) → Counts c (t ∷ h) s → result_of (rest s).0 ≡ later)
    → result_of (proceed vd rest).0 ≡ stop_or (decision c t h) later
advance c t h (continue s log) rest later f k = rw (← f.0) (k s f.1)
advance c t h (return err log) rest later f k = rw (← f.0)

run_loop-expected :
    (c : Setting) (v : IsSetting c) (events : List Event) (h : History) (s : Counters)
    → Counts c h s
    → result_of (run_loop c s events).0 ≡ expected c h events
unfolding run_loop expected
run_loop-expected c v [] h s k = refl
run_loop-expected c v (done ∷ events) h s k = refl
run_loop-expected c v (tick t ∷ events) h s k =
    advance c t h (on_tick c s t) (λ s'. run_loop c s' events) (expected c (t ∷ h) events)
      (on_tick-Follows c v t h s k) (run_loop-expected c v events (t ∷ h))

-- For all options and all events the loop ends as the specification says, which knows the ticks
-- and no counter: at the first tick that completes `limit` keep-alive failures or recheck failures
-- in a row, that meets a lost local address, or whose recheck shows another outer address.
pub run_loop_meets_history :
    (o : LoopOptions) (u : Bool) (a : AddrPort) (events : List Event)
    → result_of (run_loop (setting o u a) start events).0 ≡ expected (setting o u a) [] events
run_loop_meets_history o u a events =
    run_loop-expected (setting o u a) (setting-IsSetting o u a) events [] start
      (start-Counts _ (setting-IsSetting o u a))
