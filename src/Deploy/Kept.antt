-- ===== src/Deploy/Kept.antt =====
-- Unpacking replaces no file, and a repair leaves the files as they were built in.
use zapret_gui.Base.{
  ◌≡◌, refl, ◌∙◌, ap, Bool, true, false, Option, none, some, List, [], ◌∷◌, ◌==◌, contains, text_eq,
  ==_refl, All, Bool-cases, Option-cases, inl, inr, arith,
}
use zapret_gui.Base.Dict.{Dict, lookup, insert, NodupKeys, lookup-insert}
use zapret_gui.Result.{ok}
use zapret_gui.Text.{Text}
use zapret_gui.Paths.{Layout}
use zapret_gui.Disk.{Bytes, World, Fault, fine, locked, broken, access, read_file, exists}
use zapret_gui.Deploy.{
  Bundle, Targets, integrity_subdirs, of_dirs, runtime_targets, succeeded, copy_in, copy_if_absent,
  noted, copy_absent, ensure_runtime, fix_changed, fix_file, fix_files, verify_runtime,
}

-- A step that keeps every file, and copies to a path only where there was none
abbrev pub Adds : World → World → Type 0
Adds w v = (q : Text) (b : Bytes) → lookup q w.disk ≡ some b → lookup q v.disk ≡ some b

not_here :
    (q path : Text) (b c : Bytes) (d : Dict Text Bytes)
    → lookup path d ≡ none
    → lookup q d ≡ some b
    → lookup q (insert path c d) ≡ some b
not_here q path b c d n h = elim (Bool-cases (q == path)) [
  | inl e ↦ absurd (ground (arith, e, n, h))
  | inr e ↦ lookup-insert q path c d ∙ (rw e h)
]

copy_in-Adds :
    (path : Text) (c : Bytes) (w : World) → lookup path w.disk ≡ none → Adds w (copy_in path c w).1
unfolding copy_in
copy_in-Adds path c w n = go w.faults
  where
    go :
        (fs : List Fault)
        → Adds w
            (succeeded (access (λ v. (ok tt, record v { disk = insert path c v.disk })) fs w)).1
    go [] = λ q b h. not_here q path b c w.disk n h
    go (fine ∷ fs) = λ q b h. not_here q path b c w.disk n h
    go (locked ∷ fs) = λ q b h. h
    go (broken ∷ fs) = λ q b h. h

exists-lookup : (path : Text) (w : World) → exists path w ≡ false → lookup path w.disk ≡ none
unfolding exists
exists-lookup path w h = elim (Option-cases (lookup path w.disk)) [
  | inl e ↦ e
  | inr (b, e) ↦ absurd (ground (arith, e, h))
]

-- What a copy that was made shows of the file before it
abbrev Fresh : Text → World → Bool → Type 0
Fresh q w true = lookup q w.disk ≡ none
Fresh q w false = Unit

Fresh-of : (q : Text) (w : World) (b : Bool) → lookup q w.disk ≡ none → Fresh q w b
Fresh-of q w true h = h
Fresh-of q w false h = tt

absent-Adds :
    (path : Text) (c : Bytes) (w : World)
    → Adds w (copy_if_absent path c w).1 × Fresh path w (copy_if_absent path c w).0
unfolding copy_if_absent
absent-Adds path c w = elim (Bool-cases (exists path w)) [
  | inl e ↦ rw e ((λ q b h. h), tt)
  | inr e ↦
      let n : lookup path w.disk ≡ none = exists-lookup path w e in
      rw e (copy_in-Adds path c w n, Fresh-of path w (copy_in path c w).0 n)
]

absent_before :
    (q : Text) (w v : World) → Adds w v → lookup q v.disk ≡ none → lookup q w.disk ≡ none
absent_before q w v a h = elim (Option-cases (lookup q w.disk)) [
  | inl e ↦ e
  | inr (b, e) ↦ absurd (ground (arith, a q b e, h))
]

noted-absent :
    (q path : Text) (done : Bool) (paths : List Text) (w v : World)
    → Adds w v
    → Fresh path w done
    → (contains paths q ≡ true → lookup q v.disk ≡ none)
    → contains (noted path done paths) q ≡ true
    → lookup q w.disk ≡ none
noted-absent q path false paths w v a f k h = absent_before q w v a (k h)
noted-absent q path true paths w v a f k h = elim (Bool-cases (q == path)) [
  | inl e ↦ ground (arith, e, f)
  | inr e ↦ absent_before q w v a (k (rw e at h))
]

copy_absent-Adds :
    (targets : Targets) (w : World)
    → Adds w (copy_absent targets w).1
      × ((q : Text) → contains (copy_absent targets w).0 q ≡ true → lookup q w.disk ≡ none)
unfolding copy_absent
copy_absent-Adds [] w = ((λ q b h. h), λ q h. cc)
copy_absent-Adds ((path, c) ∷ targets) w =
    let v : World = (copy_if_absent path c w).1 in
    let done : Bool = (copy_if_absent path c w).0 in
    let first = absent-Adds path c w in
    let rest = copy_absent-Adds targets v in
    (
      (λ q b h. rest.0 q b (first.0 q b h)),
      λ q h. noted-absent q path done (copy_absent targets v).0 w v first.0 first.1 (rest.1 q) h,
    )

-- Unpacking the built-in files changes no file that was there, whatever faults the file system
-- has, and reports only paths at which there was no file.
pub ensure_runtime_lem :
    (l : Layout) (src : Option Bundle) (w : World)
    → Adds w (ensure_runtime l src w).1
      × ((q : Text) → contains (ensure_runtime l src w).0 q ≡ true → lookup q w.disk ≡ none)
unfolding ensure_runtime
ensure_runtime_lem l none w = ((λ q b h. h), λ q h. cc)
ensure_runtime_lem l (some src) w = copy_absent-Adds (runtime_targets l src) w

module _ (sha256 : Bytes → Text) where
  abbrev pub still : Dict Text Bytes → Option Bytes → World
  still d t = record { disk = d; temp = t; faults = [] }

  -- On this disk the file has the digest of the contents that were built in.
  abbrev pub IsIntact : Dict Text Bytes → Text × Bytes → Type 0
  IsIntact d (path, b) = (x : Bytes) × (lookup path d ≡ some x) × (sha256 x ≡ sha256 b)

  abbrev Fixes : Text → Bytes → Dict Text Bytes → Option Bytes → World → Type 0
  Fixes path b d t v =
      (d' : Dict Text Bytes) × (v ≡ still d' t)
      × IsIntact d' (path, b)
      × ((q : Text) → (q == path) ≡ false → lookup q d' ≡ lookup q d)

  copied-Fixes :
      (path : Text) (b : Bytes) (d : Dict Text Bytes) (t : Option Bytes)
      → Fixes path b d t (copy_in path b (still d t)).1
  unfolding copy_in
  copied-Fixes path b d t = (
    insert path b d,
    refl,
    (b, lookup-insert path path b d ∙ (rw (==_refl path) refl), refl),
    λ q n. lookup-insert q path b d ∙ (rw n refl),
  )

  changed-Fixes :
      (path : Text) (b old : Bytes) (d : Dict Text Bytes) (t : Option Bytes)
      → lookup path d ≡ some old
      → Fixes path b d t (fix_changed sha256 path b (ok old, still d t)).1
  changed-Fixes path b old d t h = elim (Bool-cases (sha256 b == sha256 old)) [
    | inl e ↦ rw e (d, refl, (old, h, ground (arith, e)), λ q n. refl)
    | inr e ↦ rw e (copied-Fixes path b d t)
  ]

  fix_file-Fixes :
      (path : Text) (b : Bytes) (d : Dict Text Bytes) (t : Option Bytes)
      → Fixes path b d t (fix_file sha256 path b (still d t)).1
  unfolding fix_file exists read_file
  fix_file-Fixes path b d t = elim (Option-cases (lookup path d)) [
    | inl e ↦ rw e (copied-Fixes path b d t)
    | inr (old, e) ↦ rw e (changed-Fixes path b old d t e)
  ]

  IsIntact-fix_files :
      (path : Text) (b : Bytes) (targets : Targets) (d d' : Dict Text Bytes)
      → lookup path targets ≡ none
      → ((q : Text) → lookup q targets ≡ none → lookup q d' ≡ lookup q d)
      → IsIntact d (path, b)
      → IsIntact d' (path, b)
  IsIntact-fix_files path b targets d d' n k (x, e, s) = (x, k path n ∙ e, s)

  other_path :
      (q path : Text) (b : Bytes) (targets : Targets)
      → lookup q ((path, b) ∷ targets) ≡ none
      → ((q == path) ≡ false) × (lookup q targets ≡ none)
  unfolding lookup
  other_path q path b targets h = elim (Bool-cases (q == path)) [
    | inl e ↦ absurd (ground (arith, e, h))
    | inr e ↦ (e, rw e at h)
  ]

  abbrev pub AllFixed : Targets → Dict Text Bytes → Option Bytes → World → Type 0
  AllFixed targets d t v =
      (d' : Dict Text Bytes) × (v ≡ still d' t)
      × All (IsIntact d') targets
      × ((q : Text) → lookup q targets ≡ none → lookup q d' ≡ lookup q d)

  fix_files-AllFixed :
      (targets : Targets) (d : Dict Text Bytes) (t : Option Bytes)
      → NodupKeys targets
      → AllFixed targets d t (fix_files sha256 targets (still d t)).1
  unfolding fix_files
  fix_files-AllFixed [] d t h = (d, refl, tt, λ q n. refl)
  fix_files-AllFixed ((path, b) ∷ targets) d t (n, h) =
      after (λ d'. fix_files-AllFixed targets d' t h) (fix_file sha256 path b (still d t)).1
        (fix_file-Fixes path b d t)
    where
      after :
          ((d' : Dict Text Bytes) → AllFixed targets d' t (fix_files sha256 targets (still d' t)).1)
          → (v : World) → Fixes path b d t v
          → AllFixed ((path, b) ∷ targets) d t (fix_files sha256 targets v).1
      after rest v (d', e, intact, same) =
          let (d'', e', all_intact, same') = rest d' in
          (
            d'',
            ap (λ u. (fix_files sha256 targets u).1) e ∙ e',
            (IsIntact-fix_files path b targets d' d'' n same' intact, all_intact),
            λ q m.
                same' q (other_path q path b targets m).1
                ∙ same q (other_path q path b targets m).0,
          )

  -- With no fault of the file system, and different paths for the built-in files, every
  -- critical file has the digest of the built-in one behind verify_runtime, and no other file
  -- has changed.
  pub verify_runtime-AllFixed :
      (l : Layout) (src : Bundle) (d : Dict Text Bytes) (t : Option Bytes)
      → NodupKeys (of_dirs l src integrity_subdirs)
      → AllFixed
          (of_dirs l src integrity_subdirs)
          d
          t
          (verify_runtime sha256 l (some src) (still d t)).1
  unfolding verify_runtime
  verify_runtime-AllFixed l src d t h = fix_files-AllFixed (of_dirs l src integrity_subdirs) d t h
