-- ===== src/Notify.antt =====
-- go-qnatter/internal/notify/notify.go: `Run`, which writes the status file of an instance and calls
-- the script of the user. What the system answers is a parameter, and so is time.
pub mod Isolation
mod Tests
use qnatter.Common.{
  ℕ, ◌+◌, ◌/◌, ◌%◌, Bool, true, false, ◌||◌, Option, none, some, List, [], ◌∷◌, ◌++◌, if◌then◌else◌,
  ◌==◌, Bytes, text, pos, bytes_eq,
}
use qnatter.Engine.Wire.{AddrText}
use qnatter.Errors.{Error}
use qnatter.Forward.Nftables.{decimal}
use qnatter.Net.{AddrPort}
use qnatter.Status.File.{
  FilePath, Files, WriteAnswers, Saved, Mapping, MappingJson, default_string, write_mapping,
}
use qnatter.Status.Slug.{Runes, codes, runtime_slug}

-- `Options`: a status file if one is named, and a directory, whose path is clean.
pub record Options : Type 0 where
  pub instance_id : Runes
  pub status_file : Option FilePath
  pub run_dir : Runes
  pub user_script : Bytes

-- Why a script has not run, or has failed.
pub data UserError : Type 0 where
  not_executable : UserError
  script_failed : Error → UserError

-- What the system answers on the script: whether it is a directory, and its mode, if it is there; the
-- error of running it.
pub record ScriptAnswers : Type 0 where
  pub stat : Option (Bool × ℕ)
  pub run_error : Option Error

-- The error, the `Result`, what became of the files, and the arguments of the script if it was run.
pub record Notified : Type 0 where
  pub error : Option Error
  pub user_error : Option UserError
  pub saved : Saved
  pub script : Option (List Bytes)

-- `requireExecutable`; the bits of `0o111` are the first, the fourth and the seventh.
abbrev pub executable : Option (Bool × ℕ) → Bool
executable none = false
executable (some (is_dir, mode)) =
    if is_dir || (mode % 2 + mode / 8 % 2 + mode / 64 % 2 == 0) then false else true

-- `notifyArgs`
unfoldable pub notify_args : AddrText → Bytes → AddrPort → AddrPort → List Bytes
unfolding decimal
notify_args n protocol inner outer =
    protocol
    ∷ n.string inner.addr
    ∷ decimal (pos inner.port)
    ∷ n.string outer.addr
    ∷ decimal (pos outer.port)
    ∷ []

-- The mapping with the defaults of `Run`.
unfoldable pub with_defaults : Options → Mapping → Mapping
unfolding default_string
with_defaults o m = record m {
  instance_id = default_string m.instance_id (default_string o.instance_id (codes "default"));
  message = default_string m.message (codes "mapped");
}

-- The status file of an instance in a directory.
unfoldable pub instance_file : Runes → Runes → FilePath
unfolding runtime_slug default_string
instance_file run_dir name =
    (default_string run_dir (codes "/var/run/qnatter"), runtime_slug name ++ codes ".json")

abbrev status_path : Options → Runes → Option FilePath → FilePath
status_path o name (some path) = path
status_path o name none = instance_file o.run_dir name

abbrev pub run_script : List Bytes → ScriptAnswers → Saved → Notified
run_script args s saved =
    if executable s.stat
    then record {
      error = none;
      user_error = elim s.run_error [ none ↦ none | some e ↦ some (script_failed e) ];
      saved = saved;
      script = some args;
    }
    else record { error = none; user_error = some not_executable; saved = saved; script = none }

-- What follows the status file.
abbrev pub call_script : Bytes → List Bytes → ScriptAnswers → Saved → Option Error → Notified
call_script user_script args s saved (some e) = record {
  error = some e;
  user_error = none;
  saved = saved;
  script = none;
}
call_script user_script args s saved none =
    if bytes_eq user_script []
    then record { error = none; user_error = none; saved = saved; script = none }
    else run_script args s saved

abbrev saved_then : AddrText → Options → Mapping → ScriptAnswers → Saved → Notified
saved_then n o m s saved =
    call_script o.user_script (notify_args n m.protocol m.inner m.outer) s saved saved.error

-- `Run`
unfoldable pub run :
    AddrText
    → (MappingJson → Option Bytes)
    → Option Error
    → WriteAnswers
    → ScriptAnswers
    → Options
    → Mapping
    → Files
    → Notified
unfolding write_mapping with_defaults instance_file notify_args bytes_eq
run n encode mkdir_error a s o m fs =
    let named = with_defaults o m in
    saved_then n o named s (
      write_mapping n encode mkdir_error a (status_path o named.instance_id o.status_file) named fs)
