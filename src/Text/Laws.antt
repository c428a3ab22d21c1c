-- ===== src/Text/Laws.antt =====
-- Removing a character that a text does not hold changes nothing, and lower case of plain text.
use zapret_gui.Base.{
  ℕ, ◌≡◌, refl, ap, Bool, true, false, ◌||◌, [], ◌∷◌, arith, ◌==◌, nat_eq, all, All,
}
use zapret_gui.Text.{Text, replace, replace_go, starts_with, lower, lower_char, between}

replace_go-free :
    (d : ℕ) (s : Text) → All (λ c. (c == d) ≡ false) s → replace_go (d ∷ []) [] 0 s ≡ s
unfolding replace_go starts_with
replace_go-free d [] h = refl
replace_go-free d (c ∷ s) h = ground (arith, h.0, replace_go-free d s h.1)

pub replace-free : (d : ℕ) (s : Text) → All (λ c. (c == d) ≡ false) s → replace (d ∷ []) [] s ≡ s
unfolding replace
replace-free d s h = replace_go-free d s h

-- An ASCII character that is no capital letter
abbrev pub is_small : ℕ → Bool
is_small c = between 0 64 c || between 91 127 c

lower_char-small : (c : ℕ) → is_small c ≡ true → lower_char c ≡ c ∷ []
unfolding lower_char
lower_char-small c h = ground arith

pub lower-small : (s : Text) → All (λ c. is_small c ≡ true) s → lower s ≡ s
unfolding lower
lower-small [] h = refl
lower-small (c ∷ s) h = rw (lower_char-small c h.0) (ap (λ t. c ∷ t) (lower-small s h.1))

-- From a test of all characters to a predicate of all of them
pub All-of-all {κ} :
    (p : ℕ → Bool) (P : ℕ → Type κ) (s : Text)
    → ((c : ℕ) → p c ≡ true → P c)
    → all p s ≡ true
    → All P s
All-of-all p P [] f h = tt
All-of-all p P (c ∷ s) f h = (f c (ground arith), All-of-all p P s f (ground arith))
