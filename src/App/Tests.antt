-- ===== src/App/Tests.antt =====
-- Tests of the program.
use qnatter.Common.{
  inl, ◌≡◌, refl, true, false, Option, none, some, [], ◌∷◌, ok, bytes_eq, text, pos,
}
use qnatter.App.{
  exited, still_running, help_text, behind_firewall, hole_punching_failed, informed,
  run_with_context, run_engine_with_log, port_warning,
}
use qnatter.App.ExitCodes.{Serves, served, Justified, served-Justified}
use qnatter.App.RetryLines.{AllFail, AreLines, served_persists}
use qnatter.Config.{Config}
use qnatter.Engine.Retry.{Round, run_with_retry, one_round, retryable}
use qnatter.Engine.Session.Flow.{port_open, port_closed, port_unknown}
use qnatter.Errors.{no_server_available, no_dev, Error, errors_is, mapping_changed, other}

abbrev cfg : Config
cfg = record {
  instance_id = [];
  route_mark = [];
  route_table = [];
  route_priority = [];
  udp = false;
  verbose = false;
  exit_when_changed = false;
  upnp = false;
  keep_alive_interval = pos 15;
  stun_servers = [];
  keep_alive_server = [];
  bind_value = [];
  bind_port = pos 0;
  forward_method = [];
  target_ip = [];
  target_port = pos 0;
  retry_target = false;
  notify_path = [];
  check = false;
}

abbrev failing : Error → Round
failing e = record { result = some e; cancelled = false; interrupted = false }

abbrev no_check : Config → Option Error
no_check _ = none

serves : Serves (text "-v" ∷ []) cfg
unfolding informed bytes_eq
serves = (refl, refl)

exits :
    served
      (text "-v" ∷ [])
      cfg
      no_check
      (failing (mapping_changed ∷ []) ∷ failing (other ∷ []) ∷ [])
    ≡ exited 1
unfolding run_with_context run_engine_with_log run_with_retry one_round retryable errors_is informed
    bytes_eq
exits = refl

served-Justified_example :
    Justified 1
      (run_with_retry cfg none (failing (mapping_changed ∷ []) ∷ failing (other ∷ []) ∷ [])).0
served-Justified_example =
    served-Justified (text "-v" ∷ []) cfg no_check
      (failing (mapping_changed ∷ []) ∷ failing (other ∷ []) ∷ []) 1 serves exits

abbrev gone_device : Error
gone_device = no_server_available ∷ no_dev ∷ []

fails :
    AllFail cfg
      (failing (mapping_changed ∷ []) ∷ failing gone_device ∷ [])
      ((mapping_changed ∷ []) ∷ gone_device ∷ [])
unfolding errors_is
fails = (
  record {
    result = refl;
    not_cancelled = refl;
    not_interrupted = refl;
    cause = mapping_changed;
    has_cause = refl;
    temporary = tt;
    tolerated = inl refl;
  },
  (
    record {
      result = refl;
      not_cancelled = refl;
      not_interrupted = refl;
      cause = no_dev;
      has_cause = refl;
      temporary = tt;
      tolerated = inl refl;
    },
    tt,
  ),
)

served_persists_example :
    (served
        (text "-v" ∷ [])
        cfg
        no_check
        (failing (mapping_changed ∷ []) ∷ failing gone_device ∷ [])
      ≡ still_running)
    × AreLines
        (pos 15000000000)
        ((mapping_changed ∷ []) ∷ gone_device ∷ [])
        (run_engine_with_log cfg (failing (mapping_changed ∷ []) ∷ failing gone_device ∷ [])).1
served_persists_example =
    served_persists (text "-v" ∷ []) cfg no_check
      (failing (mapping_changed ∷ []) ∷ failing gone_device ∷ [])
      ((mapping_changed ∷ []) ∷ gone_device ∷ []) serves fails

asks_for_help :
    (run_with_context
      (text "-u" ∷ text "--help" ∷ [])
      (ok cfg)
      no_check
      (λ c. (run_engine_with_log c []).0))
    ≡ (exited 0, help_text ∷ [])
unfolding run_with_context informed bytes_eq
asks_for_help = refl

warnings :
    (port_warning (record {
      checked = true;
      target_lan = port_open;
      qnatter_lan = port_open;
      outer_lan = port_closed;
      outer_wan = port_closed;
    })
      ≡ hole_punching_failed ∷ [])
    × (port_warning (record {
      checked = true;
      target_lan = port_unknown;
      qnatter_lan = port_open;
      outer_lan = port_open;
      outer_wan = port_closed;
    })
        ≡ behind_firewall ∷ [])
unfolding port_warning
warnings = (refl, refl)
