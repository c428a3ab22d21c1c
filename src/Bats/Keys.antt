-- ===== src/Bats/Keys.antt =====
-- The keys and the names of the strategies.
use zapret_gui.Base.{
  ◌≤◌, ◌≢◌, ◌⊎◌, arith, leb, ℕ, ◌≡◌, refl, Bool, true, false, ◌&&◌, Option, none, some, List, [],
  ◌∷◌, ◌==◌, nat_eq, text_eq, if◌then◌else◌, All, Bool-cases, inl, inr, map, sort_by,
}
use zapret_gui.Base.Sort.{All-sort_by}
use zapret_gui.Text.{is_lower, is_digit, Text, lower, is_lower_alnum}
use zapret_gui.Result.{Result, ok, err, >>=-eq-ok}
use zapret_gui.Domains.{is_nil}
use zapret_gui.Text.Strip.{strip, lstrip, rstrip}
use zapret_gui.Bats.Split.{IsKeyOf}
use zapret_gui.Bats.{
  Part, keyed, name_of, key_before, is_id_char, id_from, or_preset, preset_id, Entries, BatPreset,
  base_of, add_bat, extract, collect_bats, list_strategies, preset_before, presets_from_bats,
}

abbrev pub IsDecided : Option Bool → Type 0
IsDecided o = (r : Bool) × (o ≡ some r)

-- Both keys are made, are those of the names, and their comparison is decided.
abbrev pub AreCompared : Text → Text → Result (List Part) → Result (List Part) → Type 0
AreCompared a b (ok ps) (ok qs) =
    IsKeyOf false ps a × IsKeyOf false qs b × IsDecided (key_before ps qs)
AreCompared a b (ok ps) (err e) = ⊥
AreCompared a b (err e) k = ⊥

abbrev pub IsIdText : Text → Type 0
IsIdText [] = Unit
IsIdText (c ∷ s) = (is_id_char c ≡ true) × IsIdText s

IsIdText-if :
    (b : Bool) (s t : Text)
    → (b ≡ true → IsIdText s)
    → (b ≡ false → IsIdText t)
    → IsIdText (if b then s else t)
IsIdText-if true s t h k = h refl
IsIdText-if false s t h k = k refl

id_from-IsIdText : (run : Bool) (s : Text) → IsIdText (id_from run s)
unfolding id_from is_lower_alnum
id_from-IsIdText run [] = tt
id_from-IsIdText run (c ∷ s) =
    IsIdText-if (is_id_char c) (c ∷ id_from false s)
      (if run then id_from true s else 95 ∷ id_from true s) (λ e. (e, id_from-IsIdText false s))
      (λ _.
        IsIdText-if run (id_from true s) (95 ∷ id_from true s) (λ _. id_from-IsIdText true s)
          (λ _. (refl, id_from-IsIdText true s)))

abbrev is_line : ℕ → Bool
is_line c = c == 95

lstrip-IsIdText : (s : Text) → IsIdText s → IsIdText (lstrip is_line s)
unfolding lstrip
lstrip-IsIdText [] h = tt
lstrip-IsIdText (c ∷ s) h =
    IsIdText-if (is_line c) (lstrip is_line s) (c ∷ s) (λ _. lstrip-IsIdText s h.1) (λ _. h)

rstrip-IsIdText : (s : Text) → IsIdText s → IsIdText (rstrip is_line s)
unfolding rstrip
rstrip-IsIdText [] h = tt
rstrip-IsIdText (c ∷ s) h = elim (Bool-cases (is_nil (rstrip is_line s) && is_line c)) [
  | inl e ↦ rw e tt
  | inr e ↦ rw e (h.0, rstrip-IsIdText s h.1)
]

or_preset-IsIdText : (s : Text) → IsIdText s → IsIdText (or_preset s)
unfolding is_lower_alnum
or_preset-IsIdText [] h = (refl, (refl, (refl, (refl, (refl, (refl, tt))))))
or_preset-IsIdText (c ∷ s) h = h

preset_id-IsIdText : (name : Text) → IsIdText (preset_id name)
unfolding preset_id strip
preset_id-IsIdText name = or_preset-IsIdText (strip is_line (id_from false (lower name))) (
    rstrip-IsIdText (lstrip is_line (id_from false (lower name)))
      (lstrip-IsIdText (id_from false (lower name)) (id_from-IsIdText false (lower name))))

or_preset-is_nil : (s : Text) → is_nil (or_preset s) ≡ false
or_preset-is_nil [] = refl
or_preset-is_nil (c ∷ s) = refl

preset_id-is_nil : (name : Text) → is_nil (preset_id name) ≡ false
unfolding preset_id
preset_id-is_nil name = or_preset-is_nil (strip is_line (id_from false (lower name)))

-- a-z, 0-9 or _, by the codes
abbrev pub IsIdChar : ℕ → Type 0
IsIdChar c = ((97 ≤ c) × (c ≤ 122)) ⊎ (((48 ≤ c) × (c ≤ 57)) ⊎ (c ≡ 95))

is_id_char-IsIdChar : (c : ℕ) → is_id_char c ≡ true → IsIdChar c
unfolding is_lower_alnum is_lower is_digit nat_eq
is_id_char-IsIdChar c h = elim (Bool-cases (leb 97 c && leb c 122)) [
  | inl e ↦ inl (ground (arith, e))
  | inr e ↦ inr (elim (Bool-cases (leb 48 c && leb c 57)) [
    | inl f ↦ inl (ground (arith, f))
    | inr f ↦ inr (ground (arith, e, f, h))
  ])
]

All-IsIdText : (s : Text) → IsIdText s → All IsIdChar s
All-IsIdText [] h = tt
All-IsIdText (c ∷ s) (e, h) = (is_id_char-IsIdChar c e, All-IsIdText s h)

-- The preset has arguments, and an id of the characters that an id may have.
abbrev pub IsBat : BatPreset → Type 0
IsBat p = (p.args ≢ []) × (p.id ≢ []) × All IsIdChar p.id

add_bat-IsBat :
    (fname : Text) (o : Option Text) (rest : List BatPreset)
    → All IsBat rest
    → All IsBat (add_bat fname o rest)
add_bat-IsBat fname none rest h = h
add_bat-IsBat fname (some []) rest h = h
add_bat-IsBat fname (some (c ∷ s)) rest h = (
  (
    (λ e. cc),
    (λ e. cc (preset_id-is_nil (base_of fname), e)),
    All-IsIdText (preset_id (base_of fname)) (preset_id-IsIdText (base_of fname)),
  ),
  h,
)

collect_bats-IsBat : (files : Entries) → All IsBat (collect_bats files)
unfolding collect_bats
collect_bats-IsBat [] = tt
collect_bats-IsBat ((fname, content) ∷ files) =
    add_bat-IsBat fname (extract content) (collect_bats files) (collect_bats-IsBat files)

-- Where the presets of the .bat files are made without an exception, every one of them has
-- arguments that are not empty, and an id that is not empty and has only the characters a-z,
-- 0-9 and _, whatever the files are named and hold.
pub presets_from_bats-IsBat :
    (files : Entries) (presets : List BatPreset)
    → presets_from_bats files ≡ ok presets
    → All IsBat presets
unfolding presets_from_bats
presets_from_bats-IsBat files presets h =
    let (found, e, h1) = >>=-eq-ok (list_strategies files) _ h in
    let (u, f, h2) = >>=-eq-ok (keyed (map name_of (collect_bats found))) _ h1 in
    let same : sort_by preset_before (collect_bats found) ≡ presets = cc in
    rw same at (All-sort_by preset_before IsBat (collect_bats found) (collect_bats-IsBat found))
