-- ===== src/Update/Archive.antt =====
-- What an archive that is accepted can do to the file system.
use zapret_gui.Base.{
  ◌≡◌, refl, sym, ◌∙◌, ap, Bool, true, false, not, ◌||◌, Option, none, some, List, [], ◌∷◌, ◌++◌,
  append_assoc, ◌==◌, contains, text_eq, nat_eq, if◌then◌else◌, drop, All, Bool-cases, inl, inr,
  arith,
}
use zapret_gui.Result.{ok, raise_if, >>=-eq-ok, raise_if-eq-ok}
use zapret_gui.Text.{Text, codes, lower}
use zapret_gui.Update.{
  Info, Bytes, parts_of, is_safe_parts, check_entry, check_entries, is_sha256, checked_archive,
}

abbrev pub root : Text
root = codes "ZapretControl"

abbrev parent : List Text → List Text
parent [] = []
parent (q ∷ stack) = stack

abbrev is_top : List Text → Bool
is_top [] = true
is_top (q ∷ stack) = false

-- Where a path leads from a directory, the innermost name first; none where it leaves it.
unfoldable pub resolve : List Text → List Text → Option (List Text)
resolve stack [] = some stack
resolve stack (p ∷ ps) =
    let up = resolve (parent stack) ps in
    let same = resolve stack ps in
    let down = resolve (p ∷ stack) ps in
    if codes ".." == p
    then (if is_top stack then none else up)
    else if p == [] || p == codes "."
    then same
    else down

-- The path leads to the directory or below it.
abbrev pub LeadsBelow : List Text → List Text → Type 0
LeadsBelow stack ps = (l : List Text) × (resolve stack ps ≡ some (l ++ stack))

or-false : (b c : Bool) → (b || c) ≡ false → (b ≡ false) × (c ≡ false)
or-false true c h = cc
or-false false c h = (refl, h)

conflict : (b : Bool) → b ≡ true → ¬ (b ≡ false)
conflict b h k = cc

resolve-no_parent : (stack ps : List Text) → contains ps (codes "..") ≡ false → LeadsBelow stack ps
unfolding resolve
resolve-no_parent stack [] h = ([], refl)
resolve-no_parent stack (p ∷ ps) h = elim (Bool-cases (codes ".." == p)) [
  | inl e ↦
      absurd
        (conflict (codes ".." == p) e (or-false (codes ".." == p) (contains ps (codes "..")) h).0)
  | inr e ↦ elim (Bool-cases (p == [] || p == codes ".")) [
    | inl s ↦
        rw (e, s)
          (resolve-no_parent stack ps (or-false (codes ".." == p) (contains ps (codes "..")) h).1)
    | inr s ↦
        let (l, q) =
          resolve-no_parent (p ∷ stack) ps
            (or-false (codes ".." == p) (contains ps (codes "..")) h).1 in
        rw (e, s) ((l ++ p ∷ [], q ∙ ap some (sym (append_assoc l (p ∷ []) stack))))
  ]
]

-- The path of the entry leads to the directory of the program or below it, and is no link.
abbrev pub IsSafe : Info → Type 0
IsSafe i =
    (l : List Text) × (resolve [] (parts_of i.filename) ≡ some (l ++ root ∷ []))
    × (i.is_link ≡ false)

resolve-root : (ps : List Text) → resolve [] (root ∷ ps) ≡ resolve (root ∷ []) ps
unfolding resolve text_eq
resolve-root ps = refl

resolve-is_safe_parts :
    (ps : List Text)
    → is_safe_parts ps ≡ true
    → (l : List Text) × (resolve [] ps ≡ some (l ++ root ∷ []))
unfolding is_safe_parts
resolve-is_safe_parts [] h = cc
resolve-is_safe_parts (p ∷ ps) h =
    let e : p ≡ root = ground (arith, h) in
    let (l, q) = resolve-no_parent (root ∷ []) ps (ground (arith, h)) in
    (l, ap (λ x. resolve [] (x ∷ ps)) e ∙ (resolve-root ps ∙ q))

not-or : (x y : Bool) → (not x || y) ≡ false → (x ≡ true) × (y ≡ false)
not-or true true h = cc
not-or true false h = (refl, refl)
not-or false y h = cc

check_entry-IsSafe : (i : Info) (u : Unit {0}) → check_entry i ≡ ok u → IsSafe i
unfolding check_entry
check_entry-IsSafe i u h =
    let (v, first, rest) =
      >>=-eq-ok (raise_if (not (is_safe_parts (parts_of i.filename)) || i.is_link) _) _ h in
    let (safe, link) =
      not-or (is_safe_parts (parts_of i.filename)) i.is_link (raise_if-eq-ok _ _ v first) in
    let (l, q) = resolve-is_safe_parts (parts_of i.filename) safe in (l, q, link)

check_entries-IsSafe : (is : List Info) (u : Unit {0}) → check_entries is ≡ ok u → All IsSafe is
unfolding check_entries
check_entries-IsSafe [] u h = tt
check_entries-IsSafe (i ∷ is) u h =
    let (v, first, rest) = >>=-eq-ok (check_entry i) (λ _. check_entries is) h in
    (check_entry-IsSafe i v first, check_entries-IsSafe is u rest)

not-eq-false : (x : Bool) → not x ≡ false → x ≡ true
not-eq-false true h = refl
not-eq-false false h = cc

digest_eq : (s t : Text) → not (s == t) ≡ false → s ≡ t
digest_eq s t h = ground (arith, h)

module _ (sha256 : Bytes → Text) where
  -- The bytes of an archive that apply_update accepts have the expected SHA-256, and every
  -- entry of it is no link and has a path that leads from the extraction directory to the
  -- directory ZapretControl or below it.
  pub checked_archive-IsSafe :
      (entries : Bytes → List Info) (frozen : Bool) (content : Bytes) (expected_digest : Text)
      (infos : List Info)
      → checked_archive sha256 entries frozen content expected_digest ≡ ok infos
      → (sha256 content ≡ lower (drop 7 expected_digest))
        × (infos ≡ entries content)
        × All IsSafe infos
  unfolding checked_archive
  checked_archive-IsSafe entries frozen content expected infos h =
      let (a, h1, r1) = >>=-eq-ok (raise_if (not frozen) _) _ h in
      let (b, h2, r2) = >>=-eq-ok (raise_if (not (is_sha256 expected)) _) _ r1 in
      let (c, h3, r3) =
        >>=-eq-ok (raise_if (not (sha256 content == lower (drop 7 expected))) _) _ r2 in
      let (d, h4, r4) = >>=-eq-ok (check_entries (entries content)) _ r3 in
      let e : infos ≡ entries content = cc in
      (
        digest_eq (sha256 content) (lower (drop 7 expected)) (raise_if-eq-ok _ _ c h3),
        e,
        rw e (check_entries-IsSafe (entries content) d h4),
      )
