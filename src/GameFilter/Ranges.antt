-- ===== src/GameFilter/Ranges.antt =====
-- What `normalize_port_ranges` accepts.
use mathlib.Core.Path.{subst}
use mathlib.Core.Option.{some-injective}
use zapret_gui.Base.{
  ℕ, ◌≡◌, refl, Bool, true, false, ◌||◌, Option, none, some, List, [], ◌∷◌, arith, ◌==◌, nat_eq,
  all, All, Bool-cases, inl, inr, ◌≤◌, ◌+◌, ◌*◌, ◌-◌,
}
use zapret_gui.Text.{Text, codes, replace, is_digit, to_int, value_from}
use zapret_gui.Text.Laws.{replace-free, All-of-all}
use zapret_gui.Text.Split.{split}
use zapret_gui.Text.Split.Laws.{split-all}
use zapret_gui.GameFilter.{
  is_port, is_range, is_range_parts, in_order, check_ranges, normalize_port_ranges,
}

-- The characters of a list of ranges: digits, dashes and commas
abbrev pub is_range_char : ℕ → Bool
is_range_char c = (is_digit c || c == 45) || c == 44

is_port-digits : (s : Text) → is_port s ≡ true → all is_digit s ≡ true
unfolding is_port
is_port-digits [] h = refl
is_port-digits (c ∷ s) h = ground arith

is_range_parts-digits :
    (parts : List Text) → is_range_parts parts ≡ true → all (all is_digit) parts ≡ true
unfolding is_range_parts
is_range_parts-digits [] h = refl
is_range_parts-digits (a ∷ []) h = ground (arith, is_port-digits a)
is_range_parts-digits (a ∷ b ∷ []) h = ground (arith, is_port-digits a, is_port-digits b)
is_range_parts-digits (a ∷ b ∷ c ∷ r) h = cc

is_range-chars : (item : Text) → is_range item ≡ true → all (λ c. is_digit c || c == 45) item ≡ true
unfolding is_range
is_range-chars item h =
    split-all is_digit 45 item (is_range_parts-digits (split (codes "-") item) h)

all-is_range-chars :
    (items : List Text)
    → all is_range items ≡ true
    → all (all (λ c. is_digit c || c == 45)) items ≡ true
all-is_range-chars [] h = refl
all-is_range-chars (item ∷ items) h = ground (arith, is_range-chars item, all-is_range-chars items)

check_ranges-chars : (s t : Text) → check_ranges s ≡ some t → all is_range_char t ≡ true
unfolding check_ranges
check_ranges-chars [] t h = cc
check_ranges-chars (c ∷ s) t h = ground (
  arith,
  split-all (λ x. is_digit x || x == 45) 44 (c ∷ s),
  all-is_range-chars (split (codes ",") (c ∷ s)),
)

-- An accepted text holds digits, dashes and commas only.
pub normalize-chars :
    (raw : Option Text) (t : Text) → normalize_port_ranges raw ≡ some t → all is_range_char t ≡ true
unfolding normalize_port_ranges
normalize-chars none t h = cc
normalize-chars (some raw) t h = check_ranges-chars (replace (codes " ") [] raw) t h

is_range_char-ne-space : (c : ℕ) → is_range_char c ≡ true → (c == 32) ≡ false
unfolding is_digit
is_range_char-ne-space c h = ground arith

check_ranges_self : (s t : Text) → check_ranges s ≡ some t → check_ranges t ≡ some t
unfolding check_ranges
check_ranges_self [] t h = cc
check_ranges_self (c ∷ s) t h = elim (Bool-cases (all is_range (split (codes ",") (c ∷ s)))) [
  | inl good ↦
      let e : some (c ∷ s) ≡ some t = rw good at h in
      subst (λ x. check_ranges x ≡ some x) (some-injective (c ∷ s) t e) (rw good)
  | inr bad ↦ absurd (ground arith)
]

-- Normalising an accepted list of port ranges again changes nothing.
pub normalize_idem :
    (raw : Option Text) (t : Text)
    → normalize_port_ranges raw ≡ some t
    → normalize_port_ranges (some t) ≡ some t
unfolding normalize_port_ranges
normalize_idem none t h = cc
normalize_idem (some raw) t h =
    rw
      (replace-free 32 t (
        All-of-all is_range_char (λ c. (c == 32) ≡ false) t is_range_char-ne-space
          (check_ranges-chars (replace (codes " ") [] raw) t h)))
      (check_ranges_self (replace (codes " ") [] raw) t h)

value_from-ge : (acc : ℕ) (s : Text) → acc ≤ value_from acc s
unfolding value_from
value_from-ge acc [] = omega arith
value_from-ge acc (c ∷ s) = omega (arith, value_from-ge (10 * acc + (c - 48)) s)

is_port-pos : (s : Text) → is_port s ≡ true → 1 ≤ to_int s
unfolding is_port to_int value_from is_digit
is_port-pos [] h = absurd (ground arith)
is_port-pos (c ∷ s) h = ground (arith, value_from-ge (10 * 0 + (c - 48)) s)

-- The first and the last port of an item that is cut at its dashes
abbrev pub ports : List Text → ℕ × ℕ
ports [] = (0, 0)
ports (a ∷ []) = (to_int a, to_int a)
ports (a ∷ b ∷ rest) = (to_int a, to_int b)

abbrev pub IsPortRange : ℕ × ℕ → Type 0
IsPortRange (start, end_port) = (1 ≤ start) × (start ≤ end_port) × (end_port ≤ 65535)

in_order-bounds : (a b : ℕ) → 1 ≤ a → in_order a b ≡ true → IsPortRange (a, b)
unfolding in_order
in_order-bounds a b p h = (p, ground arith, ground arith)

is_range_parts-bounds :
    (parts : List Text) → is_range_parts parts ≡ true → IsPortRange (ports parts)
unfolding is_range_parts
is_range_parts-bounds [] h = cc
is_range_parts-bounds (a ∷ []) h =
    in_order-bounds (to_int a) (to_int a) (is_port-pos a (ground arith)) (ground arith)
is_range_parts-bounds (a ∷ b ∷ []) h =
    in_order-bounds (to_int a) (to_int b) (is_port-pos a (ground arith)) (ground arith)
is_range_parts-bounds (a ∷ b ∷ c ∷ r) h = cc

all-is_range-bounds :
    (items : List Text)
    → all is_range items ≡ true
    → All (λ item. IsPortRange (ports (split (codes "-") item))) items
unfolding is_range
all-is_range-bounds [] h = tt
all-is_range-bounds (item ∷ items) h = (
  is_range_parts-bounds (split (codes "-") item) (ground arith),
  all-is_range-bounds items (ground arith),
)

check_ranges-bounds :
    (s t : Text)
    → check_ranges s ≡ some t
    → All (λ item. IsPortRange (ports (split (codes "-") item))) (split (codes ",") t)
unfolding check_ranges
check_ranges-bounds [] t h = cc
check_ranges-bounds (c ∷ s) t h = elim (Bool-cases (all is_range (split (codes ",") (c ∷ s)))) [
  | inl good ↦
      let e : some (c ∷ s) ≡ some t = rw good at h in
      subst (λ x. All (λ item. IsPortRange (ports (split (codes "-") item))) (split (codes ",") x))
        (some-injective (c ∷ s) t e) (all-is_range-bounds (split (codes ",") (c ∷ s)) good)
  | inr bad ↦ absurd (ground arith)
]

-- Every item of an accepted list of port ranges is a range from 1 to 65535 whose start is not
-- above its end.
normalize-bounds :
    (raw : Option Text) (t : Text)
    → normalize_port_ranges raw ≡ some t
    → All (λ item. IsPortRange (ports (split (codes "-") item))) (split (codes ",") t)
unfolding normalize_port_ranges
normalize-bounds none t h = cc
normalize-bounds (some raw) t h = check_ranges-bounds (replace (codes " ") [] raw) t h

-- Every item of an accepted list of port ranges is a range from 1 to 65535 whose start is not
-- above its end, and normalising the list again changes nothing.
pub normalize_port_ranges_lem :
    (raw : Option Text) (t : Text)
    → normalize_port_ranges raw ≡ some t
    → All (λ item. IsPortRange (ports (split (codes "-") item))) (split (codes ",") t)
      × (normalize_port_ranges (some t) ≡ some t)
normalize_port_ranges_lem raw t h = (normalize-bounds raw t h, normalize_idem raw t h)
