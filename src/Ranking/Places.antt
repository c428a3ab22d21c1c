-- ===== src/Ranking/Places.antt =====
-- `index_of` and `overlap`, said without their recursion.
use zapret_gui.Base.{
  suc, ◌≤◌, ◌≡◌, refl, ap, true, false, List, [], ◌∷◌, nat_eq, text_eq, ◌==◌, length, keep, ◌++◌,
  arith, inl, inr, ==_sound, contains, Bool-cases, sym,
}
use zapret_gui.Text.{Text}
use zapret_gui.Ranking.{index_of, overlap}

-- The name stands in the list, and the other one nowhere in front of its first place.
abbrev pub Leads : Text → Text → List Text → Type 0
Leads a b names =
    (front : List Text) × (back : List Text) × (names ≡ front ++ a ∷ back)
    × (contains front b ≡ false)

==_comm : (a b : Text) → (a == b) ≡ false → (b == a) ≡ false
==_comm a b h = ground (arith, h)

pub index_of-Leads :
    (a b : Text) (names : List Text)
    → contains names a ≡ true
    → index_of a names ≤ index_of b names
    → Leads a b names
unfolding index_of
index_of-Leads a b [] h k = cc
index_of-Leads a b (x ∷ xs) h k = elim (Bool-cases (x == a)) [
  | inl e ↦ ([], xs, ap (λ y. y ∷ xs) (==_sound x a e), refl)
  | inr e ↦ elim (Bool-cases (x == b)) [
    | inl f ↦ let bad = rw (e, f) at k in absurd (omega (arith, bad))
    | inr f ↦
        let (front, back, p, q) =
          index_of-Leads a b xs (rw (==_comm x a e) at h) (omega (arith, rw (e, f) at k)) in
        (x ∷ front, back, ap (λ ys. x ∷ ys) p, rw (==_comm x b f) q)
  ]
]

pub contains-Leads :
    (a b : Text) (names : List Text)
    → contains names a ≡ true
    → contains names b ≡ false
    → Leads a b names
contains-Leads a b [] h k = cc
contains-Leads a b (x ∷ xs) h k = elim (Bool-cases (a == x)) [
  | inl e ↦ ([], xs, ap (λ y. y ∷ xs) (sym (==_sound a x e)), refl)
  | inr e ↦
      let (front, back, p, q) = contains-Leads a b xs (ground (arith, e, h)) (ground (arith, k)) in
      (x ∷ front, back, ap (λ ys. x ∷ ys) p, ground (arith, q, k))
]

pub overlap_lem : (xs ys : List Text) → overlap xs ys ≡ length (keep (λ x. contains ys x) xs)
unfolding overlap
overlap_lem [] ys = refl
overlap_lem (x ∷ xs) ys = elim (Bool-cases (contains ys x)) [
  | inl e ↦ rw e (ap suc (overlap_lem xs ys))
  | inr e ↦ rw e (overlap_lem xs ys)
]
