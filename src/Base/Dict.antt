-- ===== src/Base/Dict.antt =====
-- Python's `dict`, in insertion order.
use zapret_gui.Base.Equality.{Eq, ◌==◌, contains}
use zapret_gui.Base.Tests.{if◌then◌else◌, Bool-cases}
use mathlib.Core.Path.{◌≡◌, refl, ap, ◌∙◌}
use mathlib.Core.Logic.{inl, inr}
use mathlib.Core.Option.{Option, none, some}
use mathlib.Core.List.{List, [], ◌∷◌}
use native.Mathlib.Omega.{arith}

abbrev pub Dict {ℓ κ} : Type ℓ → Type κ → Type (ℓ ⊔ κ)
Dict K V = List (K × V)

abbrev pub keys {ℓ κ} : {K : Type ℓ} {V : Type κ} → Dict K V → List K
keys [] = []
keys ((k, v) ∷ d) = k ∷ keys d

abbrev pub or_else {κ} : {V : Type κ} → Option V → Option V → Option V
or_else none o = o
or_else (some v) o = some v

module _ {ℓ κ} {K : Type ℓ} {V : Type κ} ⦃e : Eq K⦄ where
  -- `d.get(k)`
  unfoldable pub lookup : K → Dict K V → Option V
  lookup k [] = none
  lookup k ((j, v) ∷ d) = let rest = lookup k d in if k == j then some v else rest

  -- `d[k] = v`
  unfoldable pub insert : K → V → Dict K V → Dict K V
  insert k v [] = (k, v) ∷ []
  insert k v ((j, w) ∷ d) = let rest = insert k v d in if k == j then (k, v) ∷ d else (j, w) ∷ rest

  -- `d.pop(k, None)`
  unfoldable pub erase : K → Dict K V → Dict K V
  erase k [] = []
  erase k ((j, w) ∷ d) = let rest = erase k d in if k == j then rest else (j, w) ∷ rest

  pub lookup-insert :
      (j k : K) (v : V) (d : Dict K V)
      → lookup j (insert k v d) ≡ (if j == k then some v else lookup j d)
  unfolding insert lookup
  lookup-insert j k v [] = ground arith
  lookup-insert j k v (_ ∷ d) = ground (arith, lookup-insert j k v d)

  pub lookup-erase :
      (j k : K) (d : Dict K V) → lookup j (erase k d) ≡ (if j == k then none else lookup j d)
  unfolding erase lookup
  lookup-erase j k [] = ground arith
  lookup-erase j k (_ ∷ d) = ground (arith, lookup-erase j k d)

  -- `d.update(changes)`
  unfoldable pub update : Dict K V → Dict K V → Dict K V
  unfolding insert
  update [] d = d
  update ((k, v) ∷ changes) d = update changes (insert k v d)

  -- `for k in ks: d.pop(k, None)`
  unfoldable pub erase_all : List K → Dict K V → Dict K V
  unfolding erase
  erase_all [] d = d
  erase_all (k ∷ ks) d = erase_all ks (erase k d)

  -- No key stands twice.
  abbrev pub NodupKeys : Dict K V → Type κ
  NodupKeys [] = Unit
  NodupKeys ((k, _) ∷ d) = (lookup k d ≡ none) × NodupKeys d

  pub lookup-update_of_absent :
      (changes d : Dict K V) (k : K)
      → lookup k changes ≡ none
      → lookup k (update changes d) ≡ lookup k d
  unfolding update
  lookup-update_of_absent [] d k h = refl
  lookup-update_of_absent ((j, v) ∷ changes) d k h = elim (Bool-cases (k == j)) [
    | inl e ↦ absurd (unfold lookup in ground arith)
    | inr n ↦
        lookup-update_of_absent changes (insert j v d) k (unfold lookup in ground arith)
        ∙ (lookup-insert k j v d ∙ (rw n))
  ]

  -- The changes win; a key that they lack keeps its value.
  pub lookup-update :
      (changes d : Dict K V) (k : K)
      → NodupKeys changes
      → lookup k (update changes d) ≡ or_else (lookup k changes) (lookup k d)
  unfolding update lookup
  lookup-update [] d k h = refl
  lookup-update ((j, v) ∷ changes) d k (fresh, h) = elim (Bool-cases (k == j)) [
    | inl e ↦ rw e (
        lookup-update_of_absent changes (insert j v d) k (ground arith)
        ∙ (lookup-insert k j v d ∙ (rw e)))
    | inr n ↦ rw n (
        lookup-update changes (insert j v d) k h
        ∙ ap (or_else (lookup k changes)) (lookup-insert k j v d ∙ (rw n)))
  ]

  pub lookup-erase_all :
      (ks : List K) (d : Dict K V) (k : K)
      → lookup k (erase_all ks d) ≡ (if contains ks k then none else lookup k d)
  unfolding erase_all
  lookup-erase_all [] d k = refl
  lookup-erase_all (j ∷ ks) d k =
      ground (arith, lookup-erase_all ks (erase j d) k, lookup-erase k j d)
