-- ===== src/Forward/External.antt =====
-- go-qnatter/internal/forward/external.go: the forwarders that are programs of their own. What the
-- system answers is a parameter; arguments are texts.
pub mod Versions
mod Tests
use qnatter.Common.{
  ℕ, zero, suc, ◌+◌, Bool, true, false, not, ◌&&◌, Option, none, some, List, [], ◌∷◌, ◌++◌, ltb,
  leb, ◌==◌, if◌then◌else◌, Bytes, bytes_eq, text, ℤ, pos,
}
use qnatter.Config.Numbers.{atoi}
use qnatter.Config.Servers.{strip}
use qnatter.Errors.{Error, other}
use qnatter.Forward.Factory.{is_zero}
use qnatter.Forward.Nftables.{decimal, leading_digits}
use qnatter.Forward.Options.{StartOptions, same_address}

-- What `compareVersion` gives: -1, 0 and 1
pub data Ordering : Type 0 where
  older same newer : Ordering

abbrev pub compared : ℕ → ℕ → Ordering → Ordering
compared got want rest = if ltb got want then older else if ltb want got then newer else rest

-- `compareVersion`, where a part that is missing counts as zero
unfoldable pub compare_version : List ℕ → List ℕ → Ordering
compare_version [] [] = same
compare_version (got ∷ version) [] = compared got 0 (compare_version version [])
compare_version [] (want ∷ minimum) = compared 0 want (compare_version [] minimum)
compare_version (got ∷ version) (want ∷ minimum) =
    compared got want (compare_version version minimum)

-- The patterns: a text, a letter `v` that may be there, and numbers with points between them.
pub record Pattern : Type 0 where
  pub front : Bytes
  pub optional_v : Bool
  pub more_parts : ℕ

abbrev without_v : Bool → Bytes → Bytes
without_v true (c ∷ s) = if c == b'v' then s else c ∷ s
without_v _ s = s

-- What is left behind a number.
unfoldable pub behind_digits : Bytes → Bytes → Bytes
behind_digits [] s = s
behind_digits (_ ∷ ds) [] = []
behind_digits (_ ∷ ds) (_ ∷ s) = behind_digits ds s

abbrev one_number : Bytes → Option (Bytes × Bytes)
one_number s = elim (leading_digits s) [
  | [] ↦ none
  | d ∷ ds ↦ some (d ∷ ds, behind_digits (d ∷ ds) s)
]

abbrev with_number : Option (Bytes × Bytes) → (Bytes → Option (List Bytes)) → Option (List Bytes)
with_number none k = none
with_number (some (digits, s)) k = elim (k s) [ none ↦ none | some parts ↦ some (digits ∷ parts) ]

abbrev behind_point : Bytes → (Bytes → Option (List Bytes)) → Option (List Bytes)
behind_point [] k = none
behind_point (c ∷ s) k = if c == b'.' then k s else none

unfoldable pub match_parts : ℕ → Bytes → Option (List Bytes)
unfolding leading_digits behind_digits
match_parts zero s = with_number (one_number s) (λ _. some [])
match_parts (suc more) s = with_number (one_number s) (λ rest. behind_point rest (match_parts more))

abbrev match_here : Pattern → Option Bytes → Option (List Bytes)
match_here p none = none
match_here p (some s) = match_parts p.more_parts (without_v p.optional_v s)

abbrev or_later : Option (List Bytes) → Option (List Bytes) → Option (List Bytes)
or_later (some parts) _ = some parts
or_later none o = o

-- `FindStringSubmatch` of such a pattern, the first match
unfoldable pub find_version : Pattern → Bytes → Option (List Bytes)
unfolding match_parts strip
find_version p [] = none
find_version p (c ∷ s) =
    let rest = find_version p s in or_later (match_here p (strip p.front (c ∷ s))) rest

abbrev add_part : Option ℤ → Option (List ℕ) → Option (List ℕ)
add_part (some (pos n)) (some parts) = some (n ∷ parts)
add_part _ _ = none

-- The loop over the parts that were matched.
unfoldable pub version_of : List Bytes → Option (List ℕ)
unfolding atoi
version_of [] = some []
version_of (part ∷ parts) = add_part (atoi part) (version_of parts)

abbrev recent : List ℕ → Option (List ℕ) → Bool
recent minimum none = false
recent minimum (some version) = elim (compare_version version minimum) [ older ↦ false | _ ↦ true ]

abbrev matched : List ℕ → Option (List Bytes) → Bool
matched minimum none = false
matched minimum (some parts) = recent minimum (version_of parts)

-- `check`, on the output of the program if it ran; true if the version will do
unfoldable pub check_output : Pattern → List ℕ → Option Bytes → Bool
unfolding find_version version_of compare_version
check_output p minimum none = false
check_output p minimum (some output) = matched minimum (find_version p output)

abbrev socat_pattern : Pattern
socat_pattern = record { front = text "socat version "; optional_v = false; more_parts = 2 }

abbrev gost_pattern : Pattern
gost_pattern = record { front = text "gost "; optional_v = true; more_parts = 1 }

abbrev nftables_pattern : Pattern
nftables_pattern = record { front = text "nftables v"; optional_v = false; more_parts = 2 }

-- `DefaultVersionChecker.Check`, and the one of nftables
unfoldable pub check_external : Bytes → Option Bytes → Bool
unfolding check_output bytes_eq
check_external command output =
    if bytes_eq command (text "socat")
    then check_output socat_pattern (1 ∷ 7 ∷ 2 ∷ []) output
    else if bytes_eq command (text "gost")
    then check_output gost_pattern (2 ∷ 3 ∷ []) output
    else true

unfoldable pub check_nftables : Option Bytes → Bool
unfolding check_output
check_nftables output = check_output nftables_pattern (0 ∷ 9 ∷ 6 ∷ []) output

-- An option that is zero is the default.
abbrev or_default : ℤ → ℕ → ℤ
or_default n default = if is_zero n then pos default else n

-- The arguments of `SocatForwarder.Start`, by the options `UDPTimeout` and `MaxChildren`
abbrev protocol_text : Bytes → Bytes → Bool → Bytes
protocol_text udp tcp is_udp = if is_udp then udp else tcp

unfoldable pub socat_arguments : ℤ → ℤ → StartOptions → List Bytes
unfolding decimal bytes_eq
socat_arguments udp_timeout max_children o =
    let proto = protocol_text (text "UDP") (text "TCP") o.udp in
    let bind = if bytes_eq o.ip [] then [] else text ",bind=" ++ o.ip in
    let listen = proto ++ (text "4-LISTEN:" ++ (decimal o.port ++ bind)) in
    (if o.udp then (text "-T" ++ decimal (or_default udp_timeout 60)) ∷ [] else [])
    ++ ((listen ++ (text ",reuseaddr,fork,max-children=" ++ decimal (or_default max_children 128)))
        ∷ (proto ++ (text "4:" ++ (o.target_ip ++ (text ":" ++ decimal o.target_port))))
        ∷ [])

-- The argument of `GostForwarder.Start`
unfoldable pub gost_argument : ℤ → StartOptions → Bytes
unfolding decimal
gost_argument udp_timeout o =
    text "-L="
    ++ (protocol_text (text "udp") (text "tcp") o.udp
        ++ (text "://"
            ++ (o.ip
                ++ (text ":"
                    ++ (decimal o.port
                        ++ (text "/"
                            ++ (o.target_ip
                                ++ (text ":"
                                    ++ (decimal o.target_port
                                        ++ (if o.udp
                                            then text "?ttl="
                                              ++ (decimal (or_default udp_timeout 60) ++ text "s")
                                            else []))))))))))

-- The calls on a process.
pub data ProcessCall : Type 0 where
  start_process terminate kill wait : ProcessCall

-- What they answer: the error of the start, whether the process has exited after the delay.
pub record StartAnswers : Type 0 where
  pub version_ok : Bool
  pub start_error : Option Error
  pub exited : Bool

-- Whether the forwarder remembers a process, the error, and the calls in order.
pub record ProcessOutcome : Type 0 where
  pub process : Bool
  pub error : Option Error
  pub calls : List ProcessCall

abbrev failed : Bool → Error → List ProcessCall → ProcessOutcome
failed process e calls = record { process = process; error = some e; calls = calls }

abbrev started : Bool → Bool → Option Error → ProcessOutcome
started process exited (some e) = failed process e (start_process ∷ [])
started process exited none =
    if exited
    then failed process (other ∷ []) (start_process ∷ kill ∷ wait ∷ [])
    else record { process = true; error = none; calls = start_process ∷ [] }

-- `Start` of both forwarders, and `startExternal`; `process` is what is remembered before.
unfoldable pub start_external : Bool → StartOptions → StartAnswers → ProcessOutcome
unfolding same_address
start_external process o a =
    if same_address o
    then failed process (other ∷ []) []
    else if not a.version_ok
    then failed process (other ∷ []) []
    else started process a.exited a.start_error

-- What a process answers to `stopExternal`: whether it has exited, the error of `Terminate`, whether
-- it ends within the grace, and what `Wait` gives; `by_signal` says that the error is a signal.
pub record StopAnswers : Type 0 where
  pub exited : Bool
  pub terminate_error : Option Error
  pub ends_in_time : Bool
  pub wait_error : Option Error
  pub by_signal : Bool

-- `ignoreTerminationSignal`
unfoldable pub ignore_termination_signal : Bool → Option Error → Option Error
ignore_termination_signal by_signal none = none
ignore_termination_signal by_signal (some e) = if by_signal then none else some e

abbrev terminated : StopAnswers → Option Error → Option Error × List ProcessCall
terminated a (some e) = (some e, terminate ∷ [])
terminated a none =
    let error = ignore_termination_signal a.by_signal a.wait_error in
    if a.ends_in_time then (error, terminate ∷ wait ∷ []) else (error, terminate ∷ wait ∷ kill ∷ [])

-- `stopExternal`, which forgets the process at once
unfoldable pub stop_external : Bool → StopAnswers → ProcessOutcome
unfolding ignore_termination_signal
stop_external false a = record { process = false; error = none; calls = [] }
stop_external true a =
    if a.exited
    then record {
      process = false;
      error = ignore_termination_signal a.by_signal a.wait_error;
      calls = wait ∷ [];
    }
    else let r = terminated a a.terminate_error in
      record { process = false; error = r.0; calls = r.1 }
