-- ===== src/Text/Strip.antt =====
-- `str.strip`, `lstrip` and `rstrip`, with a test for the characters that go.
pub mod Laws
use zapret_gui.Base.{ℕ, ◌≡◌, refl, Bool, true, false, ◌&&◌, List, [], ◌∷◌, arith, if◌then◌else◌}

abbrev is_nil : List ℕ → Bool
is_nil [] = true
is_nil (c ∷ s) = false

module _ (p : ℕ → Bool) where
  unfoldable pub lstrip : List ℕ → List ℕ
  lstrip [] = []
  lstrip (c ∷ s) = let rest = lstrip s in if p c then rest else c ∷ s

  unfoldable pub rstrip : List ℕ → List ℕ
  rstrip [] = []
  rstrip (c ∷ s) = let rest = rstrip s in if is_nil rest && p c then [] else c ∷ rest

  unfoldable pub strip : List ℕ → List ℕ
  unfolding lstrip rstrip
  strip s = rstrip (lstrip s)
