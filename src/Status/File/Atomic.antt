-- ===== src/Status/File/Atomic.antt =====
-- A status file is replaced as a whole.
use qnatter.Common.{
  ◌≡◌, ◌⊎◌, inl, inr, refl, ◌∙◌, arith, true, false, Option, none, some, [], ◌++◌, if◌then◌else◌,
  take, Bytes, bytes_eq, bytes_eq_iff, All, length, length-append, ap, Bool-cases,
}
use qnatter.Errors.{Error}
use qnatter.Status.Slug.{Runes, codes}
use qnatter.Status.File.{
  FilePath, same_path, Files, put, WriteAnswers, Saved, visit, temp_path, give_up, unless_error,
  renamed, finish, after_write, with_temp, write_file_atomic,
}

pub put-other :
    (p q : FilePath) (c : Option Bytes) (fs : Files) → same_path q p ≡ false → put p c fs q ≡ fs q
unfolding put
put-other p q c fs h = rw h

-- No temporary file of `path`.
abbrev pub IsLasting : FilePath → FilePath → Type 0
IsLasting path q = (random : Runes) → same_path q (temp_path path random) ≡ false

-- All files but the temporary ones are as in `before`.
abbrev pub IsLike : FilePath → Files → Files → Type 0
IsLike path before now = (q : FilePath) → IsLasting path q → now q ≡ before q

module _ (path : FilePath) (data_bytes : Bytes) (before : Files) where
  abbrev pub after : Files
  after = put path (some data_bytes) before

  -- As before, or with the whole data in place.
  abbrev pub IsWhole : Files → Type 0
  IsWhole now = IsLike path before now ⊎ IsLike path after now

  abbrev pub Ends : Option Error → Files → Type 0
  Ends none now = IsLike path after now
  Ends (some e) now = IsLike path before now

  abbrev pub IsAtomic : Saved → Type 0
  IsAtomic w = All IsWhole w.visited × Ends w.error w.files

  temp-IsLike :
      (random : Runes) (c : Option Bytes) (now : Files)
      → IsLike path before now
      → IsLike path before (put (temp_path path random) c now)
  temp-IsLike random c now h q lasting =
      put-other (temp_path path random) q c now (lasting random) ∙ h q lasting

  module _ (a : WriteAnswers) (random : Runes) where
    abbrev tmp : FilePath
    tmp = temp_path path random

    give_up-IsAtomic :
        (e : Error) (fs : Files)
        → IsLike path before fs
        → IsAtomic (give_up a path data_bytes tmp e fs)
    unfolding give_up
    give_up-IsAtomic e fs h = elim (Bool-cases a.removed) [
      | inl r ↦ rw r ((inl (temp-IsLike random none fs h), tt), temp-IsLike random none fs h)
      | inr r ↦ rw r ((inl h, tt), h)
    ]

    replaced-IsLike :
        (fs : Files)
        → IsLike path before fs
        → IsLike path after (put tmp none (put path (some data_bytes) fs))
    replaced-IsLike fs h q lasting =
        put-other tmp q none (put path (some data_bytes) fs) (lasting random)
        ∙ (unfold put in ap (λ c. if same_path q path then some data_bytes else c) (h q lasting))

    unless_error-IsAtomic :
        (fs : Files) (o : Option Error) (w : Saved)
        → IsLike path before fs
        → IsAtomic w
        → IsAtomic (unless_error a path data_bytes tmp fs o w)
    unless_error-IsAtomic fs (some e) w h k = give_up-IsAtomic e fs h
    unless_error-IsAtomic fs none w h k = k

    renamed-IsAtomic :
        (fs : Files) → IsLike path before fs → IsAtomic (renamed a path data_bytes tmp fs)
    renamed-IsAtomic fs h = ((inr (replaced-IsLike fs h), tt), replaced-IsLike fs h)

    finish-IsAtomic :
        (fs : Files) → IsLike path before fs → IsAtomic (finish a path data_bytes tmp fs)
    finish-IsAtomic fs h = unless_error-IsAtomic fs a.chmod_error _ h (
        unless_error-IsAtomic fs a.close_error _ h (
          unless_error-IsAtomic fs a.rename_error (renamed a path data_bytes tmp fs) h
            (renamed-IsAtomic fs h)))

    visit-IsAtomic :
        (fs : Files) (w : Saved) → IsLike path before fs → IsAtomic w → IsAtomic (visit fs w)
    visit-IsAtomic fs w h k = ((inl h, k.0), k.1)

    after_write-IsAtomic :
        (fs : Files) (o : Option Error)
        → IsLike path before fs
        → IsAtomic (after_write a path data_bytes tmp fs o)
    after_write-IsAtomic fs (some e) h =
        let partial = put tmp (some (take a.written data_bytes)) fs in
        let same = temp-IsLike random (some (take a.written data_bytes)) fs h in
        visit-IsAtomic partial _ same (give_up-IsAtomic e partial same)
    after_write-IsAtomic fs none h =
        let full = put tmp (some data_bytes) fs in
        let same = temp-IsLike random (some data_bytes) fs h in
        visit-IsAtomic full _ same (finish-IsAtomic full same)

  with_temp-IsAtomic :
      (a : WriteAnswers) (o : Option Runes) → IsAtomic (with_temp a path data_bytes before o)
  with_temp-IsAtomic a none = (tt, (λ q h. refl))
  with_temp-IsAtomic a (some random) =
      let created = put (temp_path path random) (some []) before in
      let same = temp-IsLike random (some []) before (λ q h. refl) in
      visit-IsAtomic a random created _ same
        (after_write-IsAtomic a random created a.write_error same)

-- Different lengths are different names.
longer_name :
    (name random : Runes) → bytes_eq name (codes "." ++ (name ++ (codes ".tmp-" ++ random))) ≡ false
longer_name name random =
    elim (Bool-cases (bytes_eq name (codes "." ++ (name ++ (codes ".tmp-" ++ random))))) [
      | inl same ↦
          let e =
            ap length
              ((bytes_eq_iff name (codes "." ++ (name ++ (codes ".tmp-" ++ random)))).0 same) in
          let no : ⊥ = omega (arith, e, length-append name (codes ".tmp-" ++ random)) in elim no [ ]
      | inr e ↦ e
    ]

path-IsLasting : (path : FilePath) → IsLasting path path
unfolding same_path
path-IsLasting path random = rw (longer_name path.1 random) (ground arith)

put-same : (p : FilePath) (c : Option Bytes) (fs : Files) → put p c fs p ≡ c
unfolding put same_path
put-same p c fs = rw ((bytes_eq_iff p.0 p.0).1 refl, (bytes_eq_iff p.1 p.1).1 refl) refl

module _ (path : FilePath) (data_bytes : Bytes) (a : WriteAnswers) (removed : a.removed ≡ true)
    (tmp : FilePath) where
  -- The temporary file is not there.
  abbrev IsClean : Saved → Type 0
  IsClean w = w.files tmp ≡ none

  give_up-IsClean : (e : Error) (fs : Files) → IsClean (give_up a path data_bytes tmp e fs)
  unfolding give_up
  give_up-IsClean e fs = rw removed (put-same tmp none fs)

  unless_error-IsClean :
      (fs : Files) (o : Option Error) (w : Saved)
      → IsClean w
      → IsClean (unless_error a path data_bytes tmp fs o w)
  unless_error-IsClean fs (some e) w h = give_up-IsClean e fs
  unless_error-IsClean fs none w h = h

  after_write-IsClean :
      (fs : Files) (o : Option Error) → IsClean (after_write a path data_bytes tmp fs o)
  after_write-IsClean fs (some e) =
      give_up-IsClean e (put tmp (some (take a.written data_bytes)) fs)
  after_write-IsClean fs none =
      let full = put tmp (some data_bytes) fs in
      unless_error-IsClean full a.chmod_error _ (
        unless_error-IsClean full a.close_error _ (
          unless_error-IsClean full a.rename_error (renamed a path data_bytes tmp full)
            (put-same tmp none (put path (some data_bytes) full))))

-- The temporary file, if one was made, is not there.
abbrev pub IsGone : FilePath → Files → Option Runes → Type 0
IsGone path now none = Unit {0}
IsGone path now (some random) = now (temp_path path random) ≡ none

with_temp-IsGone :
    (path : FilePath) (data_bytes : Bytes) (before : Files) (a : WriteAnswers)
    → a.removed ≡ true
    → (o : Option Runes) → IsGone path (with_temp a path data_bytes before o).files o
with_temp-IsGone path data_bytes before a removed none = tt
with_temp-IsGone path data_bytes before a removed (some random) =
    after_write-IsClean path data_bytes a removed (temp_path path random)
      (put (temp_path path random) (some []) before) a.write_error

-- Behind every call of `writeFileAtomic`, whatever fails, the files other than its temporary one are
-- all as before, or the target has the whole data and the others are as before. At the end the target
-- has the data if no error is returned, and nothing has changed if there is an error; if files can be
-- removed, the temporary one is gone. The target itself is never taken for the temporary file.
pub write_file_atomic-IsAtomic :
    (a : WriteAnswers) (path : FilePath) (data_bytes : Bytes) (before : Files)
    → IsAtomic path data_bytes before (write_file_atomic a path data_bytes before)
      × ((a.removed ≡ false)
          ⊎ IsGone path (write_file_atomic a path data_bytes before).files a.random)
      × IsLasting path path
unfolding write_file_atomic
write_file_atomic-IsAtomic a path data_bytes before = (
  with_temp-IsAtomic path data_bytes before a a.random,
  elim (Bool-cases a.removed) [
    | inl removed ↦ inr (with_temp-IsGone path data_bytes before a removed a.random)
    | inr kept ↦ inl kept
  ],
  path-IsLasting path,
)
