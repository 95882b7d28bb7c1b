-- ===== src/Status/File.antt =====
-- go-qnatter/internal/status/status.go: `WriteMapping`, and the replacement of a file as a whole. A
-- path is a directory and a name; the content of the files is a function of the path.
pub mod Atomic
use qnatter.Common.{
  ℕ, Bool, true, false, ◌&&◌, Option, none, some, List, [], ◌∷◌, ◌++◌, if◌then◌else◌, take, Bytes,
  bytes_eq,
}
use qnatter.Engine.Wire.{AddrText}
use qnatter.Errors.{Error, other}
use qnatter.Net.{AddrPort}
use qnatter.Status.Slug.{Runes, codes}

abbrev pub FilePath : Type 0
FilePath = Runes × Runes

unfoldable pub same_path : FilePath → FilePath → Bool
unfolding bytes_eq
same_path p q = bytes_eq p.0 q.0 && bytes_eq p.1 q.1

-- The content of each file, if it is there.
abbrev pub Files : Type 0
Files = FilePath → Option Bytes

unfoldable pub put : FilePath → Option Bytes → Files → Files
unfolding same_path
put p content fs q = if same_path q p then content else fs q

-- What the system answers: the random part of the temporary name, unless no file can be made; how
-- much a failed write has written; the errors of the calls; whether the temporary file is removed.
pub record WriteAnswers : Type 0 where
  pub random : Option Runes
  pub written : ℕ
  pub write_error : Option Error
  pub chmod_error : Option Error
  pub close_error : Option Error
  pub rename_error : Option Error
  pub removed : Bool

-- The error, the files at the end, and the files behind each call that changes one.
pub record Saved : Type 0 where
  pub error : Option Error
  pub files : Files
  pub visited : List Files

abbrev pub visit : Files → Saved → Saved
visit fs w = record w { visited = fs ∷ w.visited }

abbrev pub ends_with : Option Error → Files → Saved
ends_with e fs = record { error = e; files = fs; visited = fs ∷ [] }

-- The name of the temporary file.
abbrev pub temp_path : FilePath → Runes → FilePath
temp_path path random = (path.0, codes "." ++ (path.1 ++ (codes ".tmp-" ++ random)))

module _ (a : WriteAnswers) (path : FilePath) (data_bytes : Bytes) where
  -- The deferred removal of the temporary file.
  unfoldable pub give_up : FilePath → Error → Files → Saved
  give_up tmp e fs = ends_with (some e) (if a.removed then put tmp none fs else fs)

  -- A call that may fail.
  abbrev pub unless_error : FilePath → Files → Option Error → Saved → Saved
  unless_error tmp fs (some e) _ = give_up tmp e fs
  unless_error tmp fs none w = w

  abbrev pub renamed : FilePath → Files → Saved
  renamed tmp fs = ends_with none (put tmp none (put path (some data_bytes) fs))

  -- The calls behind a write that succeeded.
  abbrev pub finish : FilePath → Files → Saved
  finish tmp fs =
      unless_error tmp fs a.chmod_error
        (unless_error tmp fs a.close_error (unless_error tmp fs a.rename_error (renamed tmp fs)))

  abbrev pub after_write : FilePath → Files → Option Error → Saved
  after_write tmp created (some e) =
      let partial = put tmp (some (take a.written data_bytes)) created in
      visit partial (give_up tmp e partial)
  after_write tmp created none =
      let full = put tmp (some data_bytes) created in visit full (finish tmp full)

  abbrev pub with_temp : Files → Option Runes → Saved
  with_temp fs none = record { error = some (other ∷ []); files = fs; visited = [] }
  with_temp fs (some random) =
      let tmp = temp_path path random in
      let created = put tmp (some []) fs in visit created (after_write tmp created a.write_error)

  -- `writeFileAtomic`
  unfoldable pub write_file_atomic : Files → Saved
  write_file_atomic fs = with_temp fs a.random

-- `Mapping`, with the time that `Now` gives
pub record Mapping : Type 0 where
  pub instance_id : Runes
  pub protocol : Bytes
  pub inner : AddrPort
  pub outer : AddrPort
  pub message : Bytes
  pub now : Bytes

-- `mappingJSON`
pub record MappingJson : Type 0 where
  pub instance_id : Runes
  pub protocol : Bytes
  pub inner_ip : Bytes
  pub inner_port : ℕ
  pub outer_ip : Bytes
  pub outer_port : ℕ
  pub updated_at : Bytes
  pub message : Bytes

-- `defaultString`
unfoldable pub default_string : List ℕ → List ℕ → List ℕ
default_string [] fallback = fallback
default_string (c ∷ value) fallback = c ∷ value

unfoldable pub payload : AddrText → Mapping → MappingJson
unfolding default_string
payload n m = record {
  instance_id = default_string m.instance_id (codes "default");
  protocol = m.protocol;
  inner_ip = n.string m.inner.addr;
  inner_port = m.inner.port;
  outer_ip = n.string m.outer.addr;
  outer_port = m.outer.port;
  updated_at = m.now;
  message = default_string m.message (codes "mapped");
}

abbrev unsaved : Error → Files → Saved
unsaved e fs = record { error = some e; files = fs; visited = [] }

abbrev pub made : WriteAnswers → FilePath → Bytes → Files → Option Error → Saved
made a path json fs (some e) = unsaved e fs
made a path json fs none = write_file_atomic a path json fs

abbrev pub encoded : WriteAnswers → FilePath → Files → Option Error → Option Bytes → Saved
encoded a path fs mkdir_error none = unsaved (other ∷ []) fs
encoded a path fs mkdir_error (some json) = made a path json fs mkdir_error

-- `WriteMapping`, with the encoder of JSON and the error of `MkdirAll`
unfoldable pub write_mapping :
    AddrText
    → (MappingJson → Option Bytes)
    → Option Error
    → WriteAnswers
    → FilePath
    → Mapping
    → Files
    → Saved
unfolding write_file_atomic payload
write_mapping n encode mkdir_error a path m fs =
    encoded a path fs mkdir_error (encode (payload n m))
