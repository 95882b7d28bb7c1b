-- ===== src/Engine/Tests.antt =====
-- Runs that the theorems on the engine are tried on.
use qnatter.Common.{◌≡◌, ◌≤◌, ◌*◌, refl, arith, true, false, none, some, [], ◌∷◌, pos}
use qnatter.Config.{Config}
use qnatter.Errors.{Error, errors_is, other, keep_alive_failed, mapping_changed}
use qnatter.Net.{no_addr_port}
use qnatter.Engine.Loop.{
  on_keep_alive_error, local_address_unavailable, LoopResult, Tick, Setting, LoopOptions, setting,
  start, Counters, tick, failed, run_loop, on_tick, transient_failure, keep_alive_operation,
}
use qnatter.Engine.Loop.History.{
  begin, more, Counts, Runs-Counts, expected, result_of, run_loop_meets_history,
}
use qnatter.Engine.Retry.{Round, retry_delay, second, max_seconds, retryable}
use qnatter.Engine.Retry.Delay.{retry_delay_range}

abbrev options : LoopOptions
options = record {
  recheck_every = pos 2;
  keep_alive_failure_limit = pos 2;
  stun_failure_limit = pos 0;
}

abbrev lost : Tick
lost = record { keep_alive = some (other ∷ []); renew = none; recheck = failed (other ∷ []) }

abbrev limits : Setting
limits = record {
  recheck_every = 2;
  keep_alive_limit = 2;
  stun_limit = 3;
  has_upnp = false;
  outer = no_addr_port;
}

abbrev once_lost : Counters
once_lost = record { count = 0; keep_alive_failures = 1; stun_failures = 0 }

check_two_losses :
    (run_loop limits start (tick lost ∷ tick lost ∷ [])).0
    ≡ LoopResult.returned (some (keep_alive_failed ∷ other ∷ []))
unfolding run_loop on_tick on_keep_alive_error local_address_unavailable errors_is
check_two_losses = refl

Runs-Counts_example : Counts limits (lost ∷ []) once_lost
unfolding on_tick on_keep_alive_error local_address_unavailable errors_is
Runs-Counts_example =
    Runs-Counts limits
      (record { every_pos = omega arith; keep_alive_pos = omega arith; stun_pos = omega arith })
      (more lost once_lost (transient_failure keep_alive_operation (other ∷ []) 1 2 ∷ []) begin
        refl)

run_loop_meets_history_example :
    result_of (run_loop (setting options false no_addr_port) start (tick lost ∷ tick lost ∷ [])).0
    ≡ expected (setting options false no_addr_port) [] (tick lost ∷ tick lost ∷ [])
run_loop_meets_history_example =
    run_loop_meets_history options false no_addr_port (tick lost ∷ tick lost ∷ [])

retry_delay_range_example :
    (retry_delay (pos 7200) ≡ pos (max_seconds * second))
    × (1 ≤ max_seconds)
    × (max_seconds ≤ max_seconds)
retry_delay_range_example = retry_delay_range (pos 7200)

abbrev config : Config
config = record {
  instance_id = [];
  route_mark = [];
  route_table = [];
  route_priority = [];
  udp = true;
  verbose = false;
  exit_when_changed = false;
  upnp = false;
  keep_alive_interval = pos 15;
  stun_servers = [];
  keep_alive_server = [];
  bind_value = [];
  bind_port = pos 0;
  forward_method = [];
  target_ip = [];
  target_port = pos 0;
  retry_target = false;
  notify_path = [];
  check = false;
}

abbrev changed : Error
changed = mapping_changed ∷ []

abbrev failing : Error → Round
failing err = record { result = some err; cancelled = false; interrupted = false }

changed-retryable : retryable changed none ≡ true
unfolding retryable
changed-retryable = refl
