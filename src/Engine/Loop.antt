-- ===== src/Engine/Loop.antt =====
-- go-qnatter/internal/engine/loop.go: the loop of `RunLoop`, from the started session on.
-- What the program calls gives its answer in the tick; the calls and reports are a list of effects.
pub mod History
use qnatter.Common.{
  ℕ, suc, ◌+◌, Bool, true, false, not, ◌||◌, Option, none, some, List, [], ◌∷◌, ◌++◌, leb,
  if◌then◌else◌, ℤ, pos,
}
use qnatter.Errors.{
  Error, errors_is, mapping_changed, keep_alive_failed, local_address_changed, addr_not_avail,
  no_dev,
}
use qnatter.Net.{AddrPort, addr_port_eq}
use qnatter.Stun.Mapping.{Mapping}

-- What `GetMapping` gives.
pub data Answer : Type 0 where
  answered : Mapping → Answer
  failed : Error → Answer

-- One firing of the ticker, with what the keep-alive, the renewal of the UPnP mapping and the STUN
-- client would answer.
pub record Tick : Type 0 where
  pub keep_alive : Option Error
  pub renew : Option Error
  pub recheck : Answer

-- What the loop holds fixed: the resolved options, whether the session has a UPnP mapping, and the
-- outer address that the session was started with.
pub record Setting : Type 0 where
  pub recheck_every : ℕ
  pub keep_alive_limit : ℕ
  pub stun_limit : ℕ
  pub has_upnp : Bool
  pub outer : AddrPort

pub record LoopOptions : Type 0 where
  pub recheck_every : ℤ
  pub keep_alive_failure_limit : ℤ
  pub stun_failure_limit : ℤ

-- `transientFailureLimit`
unfoldable pub transient_failure_limit : ℤ → ℕ
transient_failure_limit (pos (suc n)) = suc n
transient_failure_limit _ = 3

-- `recheckEvery`, 20 if the option is not positive
unfoldable pub recheck_interval : ℤ → ℕ
recheck_interval (pos (suc n)) = suc n
recheck_interval _ = 20

unfoldable pub setting : LoopOptions → Bool → AddrPort → Setting
unfolding transient_failure_limit recheck_interval
setting options has_upnp outer = record {
  recheck_every = recheck_interval options.recheck_every;
  keep_alive_limit = transient_failure_limit options.keep_alive_failure_limit;
  stun_limit = transient_failure_limit options.stun_failure_limit;
  has_upnp = has_upnp;
  outer = outer;
}

pub record Counters : Type 0 where
  pub count : ℕ
  pub keep_alive_failures : ℕ
  pub stun_failures : ℕ

abbrev pub start : Counters
start = record { count = 0; keep_alive_failures = 0; stun_failures = 0 }

pub data Operation : Type 0 where
  keep_alive_operation stun_recheck : Operation

pub data Effect : Type 0 where
  renewed : Effect
  upnp_error : Error → Effect
  get_mapping : Effect
  transient_failure : Operation → Error → ℕ → ℕ → Effect

-- A tick is over and the loop waits for the next, or it returns an error.
pub data Verdict : Type 0 where
  continue : Counters → List Effect → Verdict
  return : Error → List Effect → Verdict

-- `localAddressUnavailable`
unfoldable pub local_address_unavailable : Error → Bool
unfolding errors_is
local_address_unavailable err = errors_is err addr_not_avail || errors_is err no_dev

-- The branch where `KeepAlive` fails.
unfoldable pub on_keep_alive_error : Setting → Counters → Error → Verdict
on_keep_alive_error c s err =
    let failures = s.keep_alive_failures + 1 in
    if local_address_unavailable err
    then return (local_address_changed ∷ err) []
    else if leb c.keep_alive_limit failures
    then return (keep_alive_failed ∷ err) []
    else continue (record s { keep_alive_failures = failures })
        (transient_failure keep_alive_operation err failures c.keep_alive_limit ∷ [])

-- The STUN recheck, with the counter `count` reset.
unfoldable pub on_recheck : Setting → Counters → List Effect → Answer → Verdict
on_recheck c s log (failed err) =
    let failures = s.stun_failures + 1 in
    if local_address_unavailable err
    then return (local_address_changed ∷ err) log
    else if leb c.stun_limit failures
    then return err log
    else continue (record s { stun_failures = failures })
        (log ++ (transient_failure stun_recheck err failures c.stun_limit ∷ []))
on_recheck c s log (answered m) =
    if not (addr_port_eq m.outer c.outer)
    then return (mapping_changed ∷ []) log
    else continue (record s { stun_failures = 0 }) log

-- `if session.UPnP != nil`, the renewal and its report
unfoldable pub renewal : Bool → Option Error → List Effect
renewal false _ = []
renewal true none = renewed ∷ []
renewal true (some err) = renewed ∷ upnp_error err ∷ []

-- The rest of a tick whose keep-alive succeeded.
unfoldable pub on_keep_alive : Setting → Counters → Tick → Verdict
on_keep_alive c s t =
    let log = renewal c.has_upnp t.renew in
    let count = s.count + 1 in
    if leb c.recheck_every count
    then on_recheck c (record s { count = 0; keep_alive_failures = 0 }) (log ++ (get_mapping ∷ []))
        t.recheck
    else continue (record s { count = count; keep_alive_failures = 0 }) log

dispatch : Setting → Counters → Tick → Option Error → Verdict
dispatch c s t (some err) = on_keep_alive_error c s err
dispatch c s t none = on_keep_alive c s t

-- `case <-ticks`
unfoldable pub on_tick : Setting → Counters → Tick → Verdict
unfolding dispatch
on_tick c s t = dispatch c s t t.keep_alive

-- What `select` receives.
pub data Event : Type 0 where
  done : Event
  tick : Tick → Event

pub data LoopResult : Type 0 where
  waiting : Counters → LoopResult
  returned : Option Error → LoopResult

-- What follows a tick: the rest of the loop behind its effects, or nothing more.
abbrev pub proceed : Verdict → (Counters → LoopResult × List Effect) → LoopResult × List Effect
proceed (continue s log) rest = let (r, later) = rest s in (r, log ++ later)
proceed (return err log) rest = (returned (some err), log)

-- The `for` loop over the events that `select` picks, with everything that it did.
unfoldable pub run_loop : Setting → Counters → List Event → LoopResult × List Effect
run_loop c s [] = (waiting s, [])
run_loop c s (done ∷ events) = (returned none, [])
run_loop c s (tick t ∷ events) = proceed (on_tick c s t) (λ s'. run_loop c s' events)
