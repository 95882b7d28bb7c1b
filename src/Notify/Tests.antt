-- ===== src/Notify/Tests.antt =====
-- Tests of notifications and status files.
use qnatter.Common.{
  ap, sym, ◌∙◌, ◌≢◌, ◌⊎◌, ℕ, ◌≡◌, refl, arith, true, false, Option, none, some, List, [], ◌∷◌,
  Bytes, bytes_eq, text,
}
use qnatter.Engine.Wire.{AddrText}
use qnatter.Errors.{other}
use qnatter.Net.{no_addr_port}
use qnatter.Notify.{Options, ScriptAnswers, run, notify_args, instance_file, with_defaults}
use qnatter.Notify.Isolation.{Keeps, instance_of, run-Keeps}
use qnatter.Status.File.{
  FilePath, Files, WriteAnswers, Mapping, MappingJson, write_file_atomic, write_mapping, put,
  same_path, default_string, give_up, payload,
}
use qnatter.Status.File.Atomic.{IsAtomic, IsGone, IsLasting, write_file_atomic-IsAtomic}
use qnatter.Status.Slug.{codes}
use qnatter.Status.Slug.Decode.{IsBasic}

-- A write that succeeds, and one that is cut short.
abbrev writes : WriteAnswers
writes = record {
  random = some (codes "17");
  written = 0;
  write_error = none;
  chmod_error = none;
  close_error = none;
  rename_error = none;
  removed = true;
}

abbrev cut_short : WriteAnswers
cut_short = record writes { written = 1; write_error = some (other ∷ []) }

abbrev no_files : Files
no_files _ = none

abbrev path : FilePath
path = (codes "run", codes "a.json")

write_file_atomic-IsAtomic_example :
    IsAtomic path (text "new") no_files (write_file_atomic cut_short path (text "new") no_files)
    × ((true ≡ false)
        ⊎ IsGone path
            (write_file_atomic cut_short path (text "new") no_files).files
            (some (codes "17")))
    × IsLasting path path
write_file_atomic-IsAtomic_example = write_file_atomic-IsAtomic cut_short path (text "new") no_files

abbrev one_file : Files
one_file = (write_file_atomic writes path (text "old") no_files).files

replaced : one_file path ≡ some (text "old")
unfolding write_file_atomic put same_path bytes_eq give_up
replaced = refl

kept : (write_file_atomic cut_short path (text "new") one_file).files path ≡ some (text "old")
unfolding write_file_atomic put same_path bytes_eq give_up
kept = refl

abbrev texts : AddrText
texts = record { string = λ a. text "10.0.0.2"; parse_addr = λ s. none }

abbrev mapping : Mapping
mapping = record {
  instance_id = codes "lan";
  protocol = text "tcp";
  inner = no_addr_port;
  outer = no_addr_port;
  message = [];
  now = text "12:00";
}

abbrev options : Options
options = record {
  instance_id = [];
  status_file = none;
  run_dir = [];
  user_script = text "/bin/script";
}

abbrev script : ScriptAnswers
script = record { stat = some (false, 0x1ed); run_error = none }

abbrev encode : MappingJson → Option Bytes
encode json = some json.message

named : instance_of options mapping ≡ codes "lan"
unfolding with_defaults default_string
named = refl

basic : IsBasic (instance_of options mapping)
unfolding with_defaults default_string
basic = (omega arith, (omega arith, (omega arith, tt)))

abbrev first : List ℕ → ℕ
first [] = 0
first (c ∷ s) = c

other_name : instance_of options mapping ≢ codes "wan"
other_name e =
    let front : first (codes "lan") ≡ first (codes "wan") = ap first (sym named ∙ e) in
    omega (arith, front)

run-Keeps_example :
    Keeps
      (instance_file [] (codes "wan"))
      one_file
      (run texts encode none writes script options mapping one_file).saved
run-Keeps_example =
    run-Keeps texts encode none writes script options mapping one_file (codes "wan") refl (λ e. cc)
      basic (omega arith, (omega arith, (omega arith, tt))) other_name

called :
    (run texts encode none writes script options mapping one_file).script
    ≡ some (text "tcp" ∷ text "10.0.0.2" ∷ text "0" ∷ text "10.0.0.2" ∷ text "0" ∷ [])
unfolding run notify_args write_mapping write_file_atomic bytes_eq payload with_defaults
called = refl
