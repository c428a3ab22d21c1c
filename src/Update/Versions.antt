-- ===== src/Update/Versions.antt =====
-- The order of the versions.
use zapret_gui.Base.{ℕ, ◌≡◌, refl, ◌⊎◌, inl, inr, true, false, List, [], ◌∷◌, nat_eq, arith}
use zapret_gui.Text.{Text}
use zapret_gui.Update.{tuple_ltb, version_tuple, is_available}

tuple_ltb_irrefl : (a : List ℕ) → tuple_ltb a a ≡ false
unfolding tuple_ltb
tuple_ltb_irrefl [] = refl
tuple_ltb_irrefl (x ∷ a) = ground (arith, tuple_ltb_irrefl a)

tuple_ltb_trans :
    (a b c : List ℕ) → tuple_ltb a b ≡ true → tuple_ltb b c ≡ true → tuple_ltb a c ≡ true
unfolding tuple_ltb
tuple_ltb_trans [] b [] h k = tuple_ltb-nil b k
  where
    tuple_ltb-nil : (b : List ℕ) → tuple_ltb b [] ≡ true → tuple_ltb [] [] ≡ true
    tuple_ltb-nil [] k = k
    tuple_ltb-nil (x ∷ b) k = cc
tuple_ltb_trans [] b (z ∷ c) h k = refl
tuple_ltb_trans (x ∷ a) [] c h k = cc
tuple_ltb_trans (x ∷ a) (y ∷ b) [] h k = cc
tuple_ltb_trans (x ∷ a) (y ∷ b) (z ∷ c) h k = ground (arith, tuple_ltb_trans a b c)

tuple_ltb_total : (a b : List ℕ) → (a ≡ b) ⊎ ((tuple_ltb a b ≡ true) ⊎ (tuple_ltb b a ≡ true))
unfolding tuple_ltb
tuple_ltb_total [] [] = inl refl
tuple_ltb_total [] (y ∷ b) = inr (inl refl)
tuple_ltb_total (x ∷ a) [] = inr (inr refl)
tuple_ltb_total (x ∷ a) (y ∷ b) = ground (arith, tuple_ltb_total a b)

-- For a release with a name, a release that is offered does not see the current version as
-- newer, and a release that is not offered has the same version or an older one.
pub is_available_lem :
    (current latest : Text)
    → latest ≡ []
      ⊎ ((is_available current latest ≡ true → is_available latest current ≡ false)
          × (is_available current latest ≡ false
              → (version_tuple current ≡ version_tuple latest)
                ⊎ (tuple_ltb (version_tuple latest) (version_tuple current) ≡ true)))
unfolding is_available
is_available_lem current [] = inl refl
is_available_lem [] (c ∷ latest) = inr (
  (λ h. refl),
  λ h. ground (arith, tuple_ltb_total (version_tuple []) (version_tuple (c ∷ latest))),
)
is_available_lem (d ∷ current) (c ∷ latest) = inr (
  (λ h. ground (
    arith,
    tuple_ltb_trans (version_tuple (d ∷ current)) (version_tuple (c ∷ latest))
        (version_tuple (d ∷ current)),
    tuple_ltb_irrefl (version_tuple (d ∷ current)),
  )),
  λ h. ground (arith, tuple_ltb_total (version_tuple (d ∷ current)) (version_tuple (c ∷ latest))),
)
