-- ===== src/App.antt =====
-- go-qnatter/internal/app/app.go: the program from its arguments to its exit code.
pub mod ExitCodes
pub mod RetryLines
mod Tests
use qnatter.Common.{
  ℕ, Bool, true, false, not, ◌&&◌, ◌||◌, Option, none, some, List, [], ◌∷◌, ◌++◌, if◌then◌else◌,
  Outcome, ok, err, panic, stuck, Bytes, bytes_eq, text, ℤ, length, ◌==◌,
}
use qnatter.Config.{Config}
use qnatter.Config.Servers.{ArgsError}
use qnatter.Engine.Retry.{RetryResult, running, returned, Round, Reports, run_with_retry}
use qnatter.Engine.Session.Flow.{PortResult, port_closed, port_open, PortReport, Result}
use qnatter.Errors.{
  Error, Cause, errors_is, mapping_changed, local_address_changed, no_dev, addr_not_avail,
  no_server_available,
}
use qnatter.Net.{AddrPort}

-- What is printed: the version and the help on the output, the others on the error output. The
-- lines of a mapping have the protocol as a flag for UDP.
pub data Line : Type 0 where
  version_line help_text startup_line tip_line config_line : Line
  args_failure : ArgsError → Line
  check_failure fatal : Error → Line
  exit_reason : Cause → Line
  interface_unavailable address_unavailable : ℤ → Line
  retrying : Error → ℤ → Line
  unstable_network : Line
  forwarded : Bool → AddrPort → Bytes → AddrPort → AddrPort → Line
  direct : Bool → AddrPort → AddrPort → Line
  test_mode : Line
  please_check : Bool → AddrPort → Line
  target_port_closed hole_punching_failed behind_firewall : Line

-- The program exits with a code, is still running, or panicked.
pub data ExitStatus : Type 0 where
  exited : ℕ → ExitStatus
  still_running crashed : ExitStatus

abbrev argument_line : Bytes → Option Line
argument_line arg =
    if bytes_eq arg (text "--version") || bytes_eq arg (text "-V")
    then some version_line
    else if bytes_eq arg (text "--help")
    then some help_text
    else none

abbrev or_next : Option Line → Option Line → Option Line
or_next (some line) _ = some line
or_next none later = later

-- The first argument that asks for the version or the help.
unfoldable pub informed : List Bytes → Option Line
unfolding bytes_eq
informed [] = none
informed (arg ∷ args) = or_next (argument_line arg) (informed args)

-- `printStartup`
unfoldable pub print_startup : Bool → List Line
print_startup show_tip = if show_tip then startup_line ∷ tip_line ∷ [] else startup_line ∷ []

-- `logExitReason`
unfoldable pub log_exit_reason : Error → List Line
unfolding errors_is
log_exit_reason e =
    if errors_is e mapping_changed
    then exit_reason mapping_changed ∷ []
    else if errors_is e local_address_changed
    then exit_reason local_address_changed ∷ []
    else []

-- What the engine's error comes to.
abbrev pub ended : Config → RetryResult → ExitStatus × List Line
ended cfg running = (still_running, [])
ended cfg (returned none) = (exited 0, [])
ended cfg (returned (some e)) =
    if cfg.exit_when_changed && (errors_is e mapping_changed || errors_is e local_address_changed)
    then (exited 0, log_exit_reason e)
    else (exited 1, fatal e ∷ [])

abbrev pub checked : Option Error → ExitStatus × List Line
checked none = (exited 0, [])
checked (some e) = (exited 1, check_failure e ∷ [])

abbrev pub behind : List Line → ExitStatus × List Line → ExitStatus × List Line
behind lines (status, later) = (status, lines ++ later)

abbrev pub start_lines : List Bytes → Config → List Line
start_lines args cfg =
    print_startup (length args == 0) ++ (if cfg.verbose then config_line ∷ [] else [])

abbrev pub if_check :
    Bool → ExitStatus × List Line → ExitStatus × List Line → ExitStatus × List Line
if_check true check _ = check
if_check false _ engine = engine

abbrev pub with_config :
    List Bytes → Config → (Config → Option Error) → (Config → RetryResult) → ExitStatus × List Line
with_config args cfg check_run run =
    if_check cfg.check (checked (check_run cfg))
      (behind (start_lines args cfg) (ended cfg (run cfg)))

abbrev parsed_args :
    List Bytes
    → Outcome ArgsError Config
    → (Config → Option Error)
    → (Config → RetryResult)
    → ExitStatus × List Line
parsed_args args (ok cfg) check_run run = with_config args cfg check_run run
parsed_args args (err e) check_run run = (exited 2, args_failure e ∷ [])
parsed_args args panic check_run run = (crashed, [])
parsed_args args stuck check_run run = (crashed, [])

abbrev pub unless_informed : Option Line → ExitStatus × List Line → ExitStatus × List Line
unless_informed (some line) _ = (exited 0, line ∷ [])
unless_informed none later = later

-- `runWithContext`, with what `ParseArgs` gives for the arguments, and the check and the engine as
-- functions of the configuration
unfoldable pub run_with_context :
    List Bytes
    → Outcome ArgsError Config
    → (Config → Option Error)
    → (Config → RetryResult)
    → ExitStatus × List Line
unfolding informed print_startup log_exit_reason errors_is
run_with_context args parsed check_run run =
    unless_informed (informed args) (parsed_args args parsed check_run run)

-- `logRetry`
unfoldable pub log_retry : Error → ℤ → Line
unfolding errors_is
log_retry e delay =
    if errors_is e no_dev
    then interface_unavailable delay
    else if errors_is e addr_not_avail
    then address_unavailable delay
    else retrying e delay

abbrev pub retry_lines : Reports → List Line
retry_lines [] = []
retry_lines ((e, delay) ∷ reports) = log_retry e delay ∷ retry_lines reports

-- `runEngineWithLog`, over the outcomes of `RunLoop`; nothing before it fails, since
-- `BindFromConfig` does not. The lines are those of the retries.
unfoldable pub run_engine_with_log : Config → List Round → RetryResult × List Line
unfolding run_with_retry log_retry
run_engine_with_log cfg rounds = let r = run_with_retry cfg none rounds in (r.0, retry_lines r.1)

abbrev is_closed : PortResult → Bool
is_closed port_closed = true
is_closed _ = false

abbrev is_open : PortResult → Bool
is_open port_open = true
is_open _ = false

-- The last `switch` of `logMapping`
unfoldable pub port_warning : PortReport → List Line
port_warning r =
    if not r.checked
    then []
    else if is_closed r.target_lan
    then target_port_closed ∷ []
    else if is_open r.target_lan && is_closed r.outer_lan && is_closed r.outer_wan
    then hole_punching_failed ∷ []
    else if is_open r.outer_lan && is_closed r.outer_wan
    then behind_firewall ∷ []
    else []

-- `logMapping`
unfoldable pub log_mapping : Config → Result → List Line
unfolding port_warning bytes_eq
log_mapping cfg r =
    (if r.unstable then unstable_network ∷ [] else [])
    ++ (((if not (bytes_eq r.method (text "none")) && not (bytes_eq r.method (text "test"))
            then forwarded cfg.udp r.target r.method r.mapping.inner r.mapping.outer
            else direct cfg.udp r.mapping.inner r.mapping.outer)
          ∷ [])
        ++ ((if bytes_eq r.method (text "test")
              then test_mode ∷ please_check cfg.udp r.mapping.outer ∷ []
              else [])
            ++ port_warning r.ports))
