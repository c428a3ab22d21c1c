-- ===== src/Base/Sort.antt =====
-- What the stable sort by a test returns: the same elements, in order.
use zapret_gui.Base.Equality.{Eq, ◌==◌, contains}
use zapret_gui.Base.Tests.{Bool-cases}
use zapret_gui.Base.Lists.{insert_sorted, sort_by, All}
use mathlib.Core.Path.{◌≡◌, refl}
use mathlib.Core.Logic.{inl, inr}
use mathlib.Core.List.{List, [], ◌∷◌, Perm}
use mathlib.Core.List.Perm
use mathlib.Core.Bool.{Bool, true, false, ◌||◌}
use native.Mathlib.Omega.{arith}

module _ {ℓ} {A : Type ℓ} (before : A → A → Bool) where
  insert_sorted-Perm : (x : A) (xs : List A) → Perm (insert_sorted before x xs) (x ∷ xs)
  unfolding insert_sorted
  insert_sorted-Perm x [] = Perm.refl (x ∷ [])
  insert_sorted-Perm x (y ∷ ys) = elim (Bool-cases (before y x)) [
    | inl e ↦ rw e (Perm.trans (Perm.cons y (insert_sorted-Perm x ys)) (Perm.swap x y ys))
    | inr e ↦ rw e (Perm.refl (x ∷ y ∷ ys))
  ]

  -- The sort returns a permutation of what it is given.
  pub sort_by-Perm : (xs : List A) → Perm (sort_by before xs) xs
  unfolding sort_by
  sort_by-Perm [] = Perm.refl []
  sort_by-Perm (x ∷ xs) =
      Perm.trans (insert_sorted-Perm x (sort_by before xs)) (Perm.cons x (sort_by-Perm xs))

  -- Each element is not behind one that must stand behind it.
  abbrev pub NotBefore : A → List A → Type 0
  NotBefore x = All (λ y. before y x ≡ false)

  abbrev pub IsSorted : List A → Type 0
  IsSorted [] = Unit
  IsSorted (x ∷ xs) = NotBefore x xs × IsSorted xs

  module _ (asym : (x y : A) → before x y ≡ true → before y x ≡ false)
      (trans : (x y z : A) → before y x ≡ false → before z y ≡ false → before z x ≡ false) where
    NotBefore-insert :
        (z x : A) (xs : List A)
        → before x z ≡ false
        → NotBefore z xs
        → NotBefore z (insert_sorted before x xs)
    unfolding insert_sorted
    NotBefore-insert z x [] h hs = (h, tt)
    NotBefore-insert z x (y ∷ ys) h hs = elim (Bool-cases (before y x)) [
      | inl e ↦ rw e (hs.0, NotBefore-insert z x ys h hs.1)
      | inr e ↦ rw e (h, hs)
    ]

    NotBefore-weaken :
        (x y : A) (ys : List A) → before y x ≡ false → NotBefore y ys → NotBefore x ys
    NotBefore-weaken x y [] h hs = tt
    NotBefore-weaken x y (z ∷ ys) h hs = (trans x y z h hs.0, NotBefore-weaken x y ys h hs.1)

    insert_sorted-IsSorted :
        (x : A) (xs : List A) → IsSorted xs → IsSorted (insert_sorted before x xs)
    unfolding insert_sorted
    insert_sorted-IsSorted x [] h = (tt, tt)
    insert_sorted-IsSorted x (y ∷ ys) h = elim (Bool-cases (before y x)) [
      | inl e ↦ rw e (NotBefore-insert y x ys (asym y x e) h.0, insert_sorted-IsSorted x ys h.1)
      | inr e ↦ rw e ((e, NotBefore-weaken x y ys e h.0), h)
    ]

    -- With a strict order whose negation is transitive the result is sorted.
    pub sort_by-IsSorted : (xs : List A) → IsSorted (sort_by before xs)
    unfolding sort_by
    sort_by-IsSorted [] = tt
    sort_by-IsSorted (x ∷ xs) = insert_sorted-IsSorted x (sort_by before xs) (sort_by-IsSorted xs)

-- Each element may stand in front of every one behind it.
abbrev pub IsOrdered {ℓ κ} : {A : Type ℓ} → (A → A → Type κ) → List A → Type κ
IsOrdered R [] = Unit
IsOrdered R (x ∷ xs) = All (R x) xs × IsOrdered R xs

module _ {ℓ κ} {A : Type ℓ} (before : A → A → Bool) (R : A → A → Type κ)
    (h : (x y : A) → before y x ≡ false → R x y) where
  All-NotBefore : (x : A) (xs : List A) → NotBefore before x xs → All (R x) xs
  All-NotBefore x [] n = tt
  All-NotBefore x (y ∷ ys) n = (h x y n.0, All-NotBefore x ys n.1)

  -- A list that is sorted by a test is ordered by what the test means.
  pub IsOrdered-IsSorted : (xs : List A) → IsSorted before xs → IsOrdered R xs
  IsOrdered-IsSorted [] s = tt
  IsOrdered-IsSorted (x ∷ xs) s = (All-NotBefore x xs s.0, IsOrdered-IsSorted xs s.1)

module _ {ℓ κ} {A : Type ℓ} (before : A → A → Bool) (P : A → Type κ) where
  All-insert_sorted : (x : A) (xs : List A) → P x → All P xs → All P (insert_sorted before x xs)
  unfolding insert_sorted
  All-insert_sorted x [] p h = (p, tt)
  All-insert_sorted x (y ∷ ys) p h = elim (Bool-cases (before y x)) [
    | inl e ↦ rw e (h.0, All-insert_sorted x ys p h.1)
    | inr e ↦ rw e (p, h)
  ]

  pub All-sort_by : (xs : List A) → All P xs → All P (sort_by before xs)
  unfolding sort_by
  All-sort_by [] h = tt
  All-sort_by (x ∷ xs) h = All-insert_sorted x (sort_by before xs) h.0 (All-sort_by xs h.1)

module _ {ℓ} {A : Type ℓ} ⦃e : Eq A⦄ (before : A → A → Bool) where
  contains-insert_sorted :
      (x a : A) (xs : List A) → contains (insert_sorted before x xs) a ≡ (a == x || contains xs a)
  unfolding insert_sorted
  contains-insert_sorted x a [] = refl
  contains-insert_sorted x a (y ∷ ys) = ground (arith, contains-insert_sorted x a ys)

  pub contains-sort_by : (a : A) (xs : List A) → contains (sort_by before xs) a ≡ contains xs a
  unfolding sort_by
  contains-sort_by a [] = refl
  contains-sort_by a (x ∷ xs) =
      ground (arith, contains-insert_sorted x a (sort_by before xs), contains-sort_by a xs)
