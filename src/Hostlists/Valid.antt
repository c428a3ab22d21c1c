-- ===== src/Hostlists/Valid.antt =====
-- What `validate_hostlist` accepts.
use zapret_gui.Base.{
  ℕ, ◌≡◌, ◌≤◌, refl, Bool, true, false, not, Option, none, some, List, [], ◌∷◌, length, ltb, All,
  arith,
}
use zapret_gui.Result.{ok, raise_if, >>=-eq-ok, raise_if-eq-ok}
use zapret_gui.Text.{Text}
use zapret_gui.Text.Split.{splitlines}
use zapret_gui.Disk.{Bytes}
use zapret_gui.Hostlists.{
  is_list_line, list_lines, check_lines, is_nil, max_bytes, decoded, validate_hostlist,
}

not-eq-false : (b : Bool) → not b ≡ false → b ≡ true
not-eq-false true h = refl
not-eq-false false h = cc

check_lines-All :
    (lines : List Text) (u : Unit {0})
    → check_lines lines ≡ ok u
    → All (λ ln. is_list_line ln ≡ true) lines
unfolding check_lines
check_lines-All [] u h = tt
check_lines-All (ln ∷ lines) u h =
    let (v, first, rest) =
      >>=-eq-ok (raise_if (not (is_list_line ln)) _) (λ _. check_lines lines) h in
    (not-eq-false (is_list_line ln) (raise_if-eq-ok _ _ v first), check_lines-All lines u rest)

decoded-eq-ok : (o : Option Text) (t : Text) → decoded o ≡ ok t → o ≡ some t
decoded-eq-ok none t h = cc
decoded-eq-ok (some s) t h = cc

length-positive : (lines : List Text) → is_nil lines ≡ false → 1 ≤ length lines
length-positive [] h = cc
length-positive (x ∷ lines) h = omega arith

-- An accepted list: how its bytes decode, and what its lines are
abbrev pub IsList : (Bytes → Option Text) → Bytes → ℕ → Type 0
IsList decode content n =
    (text : Text) × (decode content ≡ some text)
    × (length (list_lines (splitlines text)) ≡ n)
    × All (λ ln. is_list_line ln ≡ true) (list_lines (splitlines text))

-- An accepted list has at most 8 MiB, decodes, and has as many lines that are neither blank nor
-- comments as the result says, at least one, each of them a valid pattern.
pub validate_hostlist-IsList :
    (decode : Bytes → Option Text) (content : Bytes) (n : ℕ)
    → validate_hostlist decode content ≡ ok n
    → (length content ≤ max_bytes) × (1 ≤ n) × IsList decode content n
unfolding validate_hostlist
validate_hostlist-IsList decode content n h =
    let (a, h1, r1) = >>=-eq-ok (raise_if (ltb max_bytes (length content)) _) _ h in
    let (text, h2, r2) = >>=-eq-ok (decoded (decode content)) _ r1 in
    let lines = list_lines (splitlines text) in
    let (b, h3, r3) = >>=-eq-ok (raise_if (is_nil lines) _) _ r2 in
    let (c, h4, r4) = >>=-eq-ok (check_lines lines) _ r3 in
    let e : length lines ≡ n = cc in
    (
      small (length content) (raise_if-eq-ok _ _ a h1),
      omega (arith, e, length-positive lines (raise_if-eq-ok _ _ b h3)),
      (text, decoded-eq-ok (decode content) text h2, e, check_lines-All lines c h4),
    )
  where
    small : (m : ℕ) → ltb max_bytes m ≡ false → m ≤ max_bytes
    small m k = ground (arith, k)
