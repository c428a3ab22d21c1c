-- ===== src/Domains/Labels.antt =====
-- What `normalize_domain` returns.
use zapret_gui.Base.{
  ℕ, ◌≡◌, refl, Bool, true, false, not, ◌||◌, Option, none, some, List, [], ◌∷◌, arith, ◌==◌,
  nat_eq, text_eq, if◌then◌else◌, all, inl, inr, ◌⊎◌, Bool-cases, and_split, length, last_or, All,
  leb, ◌≤◌, ◌&&◌, suc,
}
use zapret_gui.Text.{Text, codes, is_space, is_lower_alnum, is_lower, is_digit, has, lower}
use zapret_gui.Text.Strip.{strip}
use zapret_gui.Text.Split.{split}
use zapret_gui.Text.Split.Laws.{split-all}
use zapret_gui.Domains.{
  is_label, is_domain, accepted, encode_host, normalize_domain, is_nil, first_in, without_www,
  host_of, without_scheme,
}

-- What a label is made of, in numbers: a small letter, a digit or a hyphen
abbrev pub IsLetterOrDigit : ℕ → Type 0
IsLetterOrDigit c = ((97 ≤ c) × (c ≤ 122)) ⊎ ((48 ≤ c) × (c ≤ 57))

abbrev pub IsLabelChar : ℕ → Type 0
IsLabelChar c = IsLetterOrDigit c ⊎ (c ≡ 45)

-- At least one and at most 63 of them, with no hyphen at either end
abbrev pub IsLabel : Text → Type 0
IsLabel [] = ⊥
IsLabel (c ∷ s) =
    (length (c ∷ s) ≤ 63)
    × All IsLabelChar (c ∷ s)
    × IsLetterOrDigit c
    × IsLetterOrDigit (last_or c s)

abbrev pub IsHostName : Text → Type 0
IsHostName s = (length s ≤ 253) × All IsLabel (split (codes ".") s)

abbrev pub IsDomainOrEmpty : Text → Type 0
IsDomainOrEmpty s = (s ≡ []) ⊎ IsHostName s

is_lower_alnum-IsLetterOrDigit : (c : ℕ) → is_lower_alnum c ≡ true → IsLetterOrDigit c
unfolding is_lower_alnum is_lower is_digit
is_lower_alnum-IsLetterOrDigit c h = elim (Bool-cases (leb 97 c && leb c 122)) [
  | inl e ↦ inl (ground (arith, e))
  | inr e ↦ inr (ground (arith, e, h))
]

IsLabelChar-of : (c : ℕ) → (is_lower_alnum c || c == 45) ≡ true → IsLabelChar c
unfolding nat_eq
IsLabelChar-of c h = elim (Bool-cases (is_lower_alnum c)) [
  | inl e ↦ inl (is_lower_alnum-IsLetterOrDigit c e)
  | inr e ↦ inr (ground (arith, e, h))
]

all-IsLabelChar : (s : Text) → all (λ c. is_lower_alnum c || c == 45) s ≡ true → All IsLabelChar s
all-IsLabelChar [] h = tt
all-IsLabelChar (c ∷ s) h =
    let (e, r) = and_split (is_lower_alnum c || c == 45) _ h in
    (IsLabelChar-of c e, all-IsLabelChar s r)

is_label-IsLabel : (s : Text) → is_label s ≡ true → IsLabel s
unfolding is_label
is_label-IsLabel [] h = cc
is_label-IsLabel (c ∷ s) h =
    let (h1, bound) = and_split (is_lower_alnum c && inner && is_lower_alnum (last_or c s)) _ h in
    let (h2, ends) = and_split (is_lower_alnum c && inner) _ h1 in
    let (first, chars) = and_split (is_lower_alnum c) _ h2 in
    let start = is_lower_alnum-IsLetterOrDigit c first in
    (
      at_most (length s) bound,
      (inl start, all-IsLabelChar s chars),
      start,
      is_lower_alnum-IsLetterOrDigit (last_or c s) ends,
    )
  where
    inner : Bool
    inner = all (λ x. is_lower_alnum x || x == 45) s

    at_most : (n : ℕ) → leb n 62 ≡ true → suc n ≤ 63
    at_most n k = ground (arith, k)

all-IsLabel : (ls : List Text) → all is_label ls ≡ true → All IsLabel ls
all-IsLabel [] h = tt
all-IsLabel (l ∷ ls) h =
    let (e, r) = and_split (is_label l) _ h in (is_label-IsLabel l e, all-IsLabel ls r)

is_domain-IsHostName : (s : Text) → is_domain s ≡ true → IsHostName s
unfolding is_domain
is_domain-IsHostName s h =
    let (e, r) = and_split (leb (length s) 253) _ h in
    (at_most (length s) e, all-IsLabel (split (codes ".") s) r)
  where
    at_most : (n : ℕ) → leb n 253 ≡ true → n ≤ 253
    at_most n k = ground (arith, k)

-- What the test of the code accepts
abbrev pub IsAccepted : Text → Type 0
IsAccepted s = (s ≡ []) ⊎ (is_domain s ≡ true)

accepted-IsAccepted : (o : Option Text) → IsAccepted (accepted o)
unfolding accepted
accepted-IsAccepted none = inl refl
accepted-IsAccepted (some s) = ground arith

IsAccepted-if : (b : Bool) (s : Text) → IsAccepted s → IsAccepted (if b then [] else s)
IsAccepted-if true s h = inl refl
IsAccepted-if false s h = h

encode_host-IsAccepted : (idna : Text → Option Text) (s : Text) → IsAccepted (encode_host idna s)
unfolding encode_host
encode_host-IsAccepted idna s =
    IsAccepted-if (is_nil s || not (has (codes ".") s) || has (codes " ") s) (accepted (idna s))
      (accepted-IsAccepted (idna s))

pub normalize_domain-IsAccepted :
    (idna : Text → Option Text) (raw : Text) → IsAccepted (normalize_domain idna raw)
unfolding normalize_domain
normalize_domain-IsAccepted idna raw =
    let s = lower (strip is_space raw) in
    IsAccepted-if (is_nil s || first_in s (35 ∷ 59 ∷ []))
      (encode_host idna (without_www (host_of (without_scheme s))))
      (encode_host-IsAccepted idna (without_www (host_of (without_scheme s))))

IsAccepted-IsDomainOrEmpty : (s : Text) → IsAccepted s → IsDomainOrEmpty s
IsAccepted-IsDomainOrEmpty s (inl e) = inl e
IsAccepted-IsDomainOrEmpty s (inr e) = inr (is_domain-IsHostName s e)

-- normalize_domain returns the empty text, or a text of at most 253 characters of which every
-- part between dots has from 1 to 63 characters, all of them a-z, 0-9 or a hyphen, with no
-- hyphen at either end, whatever is entered and whatever the IDNA codec answers.
pub normalize_domain-IsDomainOrEmpty :
    (idna : Text → Option Text) (raw : Text) → IsDomainOrEmpty (normalize_domain idna raw)
normalize_domain-IsDomainOrEmpty idna raw =
    IsAccepted-IsDomainOrEmpty (normalize_domain idna raw) (normalize_domain-IsAccepted idna raw)

abbrev pub is_domain_char : ℕ → Bool
is_domain_char c = (is_lower_alnum c || c == 45) || c == 46

is_label-chars : (s : Text) → is_label s ≡ true → all (λ c. is_lower_alnum c || c == 45) s ≡ true
unfolding is_label
is_label-chars [] h = cc
is_label-chars (c ∷ s) h = ground arith

all-is_label-chars :
    (ls : List Text)
    → all is_label ls ≡ true
    → all (all (λ c. is_lower_alnum c || c == 45)) ls ≡ true
all-is_label-chars [] h = refl
all-is_label-chars (l ∷ ls) h = ground (arith, is_label-chars l, all-is_label-chars ls)

pub is_domain-chars : (s : Text) → is_domain s ≡ true → all is_domain_char s ≡ true
unfolding is_domain
is_domain-chars s h =
    split-all (λ c. is_lower_alnum c || c == 45) 46 s
      (all-is_label-chars (split (codes ".") s) (ground arith))
