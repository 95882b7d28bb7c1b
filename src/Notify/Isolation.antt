-- ===== src/Notify/Isolation.antt =====
-- The status files of instances are apart.
use qnatter.Common.{
  ◌≡◌, ◌≢◌, inl, inr, refl, sym, ◌∙◌, arith, true, false, Option, none, some, List, [], ◌∷◌, ◌++◌,
  Bytes, bytes_eq, bytes_eq_iff, All, All-map, ap, Bool-cases, length, length-append, take,
  take-append,
}
use qnatter.Engine.Wire.{AddrText}
use qnatter.Errors.{Error}
use qnatter.Status.File.{
  default_string, encoded, made, FilePath, same_path, Files, WriteAnswers, Saved, Mapping,
  MappingJson, write_file_atomic, write_mapping, temp_path, payload,
}
use qnatter.Status.File.Atomic.{Ends, IsLasting, IsWhole, put-other, write_file_atomic-IsAtomic}
use qnatter.Status.Slug.{Runes, codes, runtime_slug, is_plain}
use qnatter.Status.Slug.Decode.{IsBasic}
use qnatter.Status.Slug.Distinct.{AllPlain, runtime_slug-AllPlain, runtime_slug_injective}
use qnatter.Notify.{
  call_script, run_script, executable, notify_args, instance_file, with_defaults, Options,
  ScriptAnswers, run,
}

-- What stands behind the names of both can be taken away.
same_front : (s t end : Runes) → s ++ end ≡ t ++ end → s ≡ t
same_front s t end e =
    let long : length s ≡ length t =
      omega (arith, ap length e, length-append s end, length-append t end) in
    sym (take-append (length s) s end refl)
    ∙ ap (take (length s)) e
    ∙ take-append (length s) t end long

different : (p q : FilePath) → p.1 ≢ q.1 → same_path p q ≡ false
unfolding same_path
different p q h = elim (Bool-cases (bytes_eq p.1 q.1)) [
  | inl same ↦ elim (h ((bytes_eq_iff p.1 q.1).0 same)) [ ]
  | inr e ↦ rw e (ground arith)
]

-- A file name of an instance does not begin with a point, and a temporary one does.
plain_front : (w end tail : Runes) → AllPlain w × (w ≢ []) → w ++ end ≢ codes "." ++ tail
unfolding is_plain
plain_front [] end tail h e = h.1 refl
plain_front (c ∷ w) end tail h e =
    let point : c ≡ b'.' = ap (λ s. elim s [ [] ↦ 0 | x ∷ _ ↦ x ]) e in
    let plain : is_plain c ≡ true = h.0.0 in cc (rw point at plain)

instance_file-IsLasting :
    (run_dir name : Runes) (path : FilePath) → IsLasting path (instance_file run_dir name)
unfolding instance_file
instance_file-IsLasting run_dir name path random =
    different (instance_file run_dir name) (temp_path path random) (
      plain_front (runtime_slug name) (codes ".json") (path.1 ++ (codes ".tmp-" ++ random))
        (runtime_slug-AllPlain name))

apart :
    (run_dir s t : Runes)
    → s ≢ []
    → t ≢ []
    → IsBasic s
    → IsBasic t
    → s ≢ t
    → same_path (instance_file run_dir t) (instance_file run_dir s) ≡ false
unfolding instance_file
apart run_dir s t hs ht bs bt h = different (instance_file run_dir t) (instance_file run_dir s) λ e.
    h (
      runtime_slug_injective s t hs ht bs bt
        (sym (same_front (runtime_slug t) (runtime_slug s) (codes ".json") e)))

-- A file that is neither written nor temporary stays as it is.
abbrev pub Keeps : FilePath → Files → Saved → Type 0
Keeps q before w = All (λ now. now q ≡ before q) w.visited × (w.files q ≡ before q)

module _ (path q : FilePath) (lasting : IsLasting path q) (other : same_path q path ≡ false) where
  IsWhole-Keeps :
      (data_bytes : Bytes) (before now : Files)
      → IsWhole path data_bytes before now
      → now q ≡ before q
  IsWhole-Keeps data_bytes before now (inl h) = h q lasting
  IsWhole-Keeps data_bytes before now (inr h) =
      h q lasting ∙ put-other path q (some data_bytes) before other

  Ends-Keeps :
      (data_bytes : Bytes) (before now : Files) (o : Option Error)
      → Ends path data_bytes before o now
      → now q ≡ before q
  Ends-Keeps data_bytes before now none h = IsWhole-Keeps data_bytes before now (inr h)
  Ends-Keeps data_bytes before now (some e) h = IsWhole-Keeps data_bytes before now (inl h)

  write_mapping-Keeps :
      (n : AddrText) (encode : MappingJson → Option Bytes) (mkdir_error : Option Error)
      (a : WriteAnswers) (m : Mapping) (before : Files)
      → Keeps q before (write_mapping n encode mkdir_error a path m before)
  unfolding write_mapping
  write_mapping-Keeps n encode mkdir_error a m before = by_json (encode (payload n m))
    where
      by_json : (o : Option Bytes) → Keeps q before (encoded a path before mkdir_error o)
      by_json none = (tt, refl)
      by_json (some json) = by_error mkdir_error
        where
          by_error : (o : Option Error) → Keeps q before (made a path json before o)
          by_error (some e) = (tt, refl)
          by_error none =
              let h = (write_file_atomic-IsAtomic a path json before).0 in
              let w = write_file_atomic a path json before in
              (
                All-map _ _ (IsWhole-Keeps json before) w.visited h.0,
                Ends-Keeps json before w.files w.error h.1,
              )

saved-call_script :
    (user_script : Bytes) (args : List Bytes) (s : ScriptAnswers) (saved : Saved) (o : Option Error)
    → (call_script user_script args s saved o).saved ≡ saved
saved-call_script user_script args s saved (some e) = refl
saved-call_script user_script args s saved none = elim (Bool-cases (bytes_eq user_script [])) [
  | inl e ↦ rw e refl
  | inr e ↦ rw e (saved-run_script args s saved)
]
  where
    saved-run_script :
        (args : List Bytes) (s : ScriptAnswers) (saved : Saved)
        → (run_script args s saved).saved ≡ saved
    saved-run_script args s saved = elim (Bool-cases (executable s.stat)) [
      | inl e ↦ rw e refl
      | inr e ↦ rw e refl
    ]

-- The instance that a notification is for.
abbrev pub instance_of : Options → Mapping → Runes
instance_of o m = (with_defaults o m).instance_id

default_string_ne : (value fallback : Runes) → fallback ≢ [] → default_string value fallback ≢ []
unfolding default_string
default_string_ne [] fallback h = h
default_string_ne (c ∷ value) fallback h = λ e. cc

instance_of_ne : (o : Options) (m : Mapping) → instance_of o m ≢ []
unfolding with_defaults
instance_of_ne o m =
    default_string_ne m.instance_id (default_string o.instance_id (codes "default"))
      (default_string_ne o.instance_id (codes "default") (λ e. cc))

-- A notification without a status file of its own leaves the status file of every instance of another
-- name as it is, behind each call of the system and at the end, whatever fails. The other name is not
-- empty, and both have code points of the basic plane.
pub run-Keeps :
    (n : AddrText) (encode : MappingJson → Option Bytes) (mkdir_error : Option Error)
    (a : WriteAnswers) (s : ScriptAnswers) (o : Options) (m : Mapping) (fs : Files) (name : Runes)
    → o.status_file ≡ none
    → name ≢ []
    → IsBasic (instance_of o m)
    → IsBasic name
    → instance_of o m ≢ name
    → Keeps (instance_file o.run_dir name) fs (run n encode mkdir_error a s o m fs).saved
unfolding run
run-Keeps n encode mkdir_error a s o m fs name default_file ht bs bt h =
    let path = instance_file o.run_dir (instance_of o m) in
    let named = with_defaults o m in
    let w = write_mapping n encode mkdir_error a path named fs in
    let kept =
      write_mapping-Keeps path (instance_file o.run_dir name)
        (instance_file-IsLasting o.run_dir name path)
        (apart o.run_dir (instance_of o m) name (instance_of_ne o m) ht bs bt h) n encode
        mkdir_error a named fs in
    rw default_file (
      rw
        (saved-call_script o.user_script (notify_args n named.protocol named.inner named.outer) s w
          w.error)
        kept)
