-- ===== src/Text/Strip/Laws.antt =====
-- Stripping takes nothing from a text with none of the characters.
use zapret_gui.Base.{ℕ, ◌≡◌, refl, Bool, false, List, [], ◌∷◌, arith, All}
use zapret_gui.Text.Strip.{strip, lstrip, rstrip}

module _ (p : ℕ → Bool) where
  abbrev pub Free : List ℕ → Type 0
  Free = All (λ c. p c ≡ false)

  pub lstrip-Free : (s : List ℕ) → Free s → lstrip p s ≡ s
  unfolding lstrip
  lstrip-Free [] h = refl
  lstrip-Free (c ∷ s) h = rw (h.0)

  pub rstrip-Free : (s : List ℕ) → Free s → rstrip p s ≡ s
  unfolding rstrip
  rstrip-Free [] h = refl
  rstrip-Free (c ∷ s) h = ground (arith, h.0, rstrip-Free s h.1)

  pub strip-Free : (s : List ℕ) → Free s → strip p s ≡ s
  unfolding strip
  strip-Free s h = rw (lstrip-Free s h) (rstrip-Free s h)

  Free-lstrip : (s : List ℕ) → Free s → Free (lstrip p s)
  Free-lstrip s h = rw (lstrip-Free s h) h
