-- ===== src/GameFilter/Flag.antt =====
-- The flag file is read back as it was written.
use mathlib.Core.Path.{subst}
use mathlib.Core.Option.{some-injective}
use zapret_gui.Base.{
  ◌≡◌, refl, ◌∙◌, ap, true, false, Option, none, some, List, [], ◌∷◌, arith, ◌==◌, nat_eq, text_eq,
  if◌then◌else◌, Bool-cases, Option-cases, inl, inr, ◌⊎◌,
}
use zapret_gui.Text.{Text, codes}
use zapret_gui.Text.Split.{splitlines}
use zapret_gui.Args.{game_default_range}
use zapret_gui.Result.{ok}
use zapret_gui.GameFilter.{
  Filter, defaults, key_value, read_line, read_range, read_lines, check_mode, is_mode, flag_text,
  read_game_filter, normalize_port_ranges, set_game_mode, store_mode, chosen_range,
}
use zapret_gui.GameFilter.Ranges.{normalize_idem}
use zapret_gui.GameFilter.Reading.{
  IsRanges, read_lines-cons, read_lines-nil, IsWritten, all_mode, tcp_mode, udp_mode, disabled,
  read-flag_text,
}

-- Both ranges can be normalised again with no change.
abbrev pub HasRanges : Filter → Type 0
HasRanges f = IsRanges f.tcp × IsRanges f.udp

defaults-HasRanges : HasRanges defaults
unfolding normalize_port_ranges nat_eq
defaults-HasRanges = (refl, refl)

read_range-HasRanges :
    (key value : Text) (f : Filter) → HasRanges f → HasRanges (read_range key value f)
unfolding read_range
read_range-HasRanges key [] f h = h
read_range-HasRanges key (c ∷ v) f h = elim (Option-cases (normalize_port_ranges (some (c ∷ v)))) [
  | inl bad ↦ rw (bad, read_range) h
  | inr (t, good) ↦ rw (good, read_range) (store (normalize_idem (some (c ∷ v)) t good))
]
  where
    store :
        {t : Text}
        → IsRanges t
        → HasRanges (if key == codes "tcp" then record f { tcp = t } else record f { udp = t })
    store {t} r = elim (Bool-cases (key == codes "tcp")) [
      | inl e ↦ rw e (r, h.1)
      | inr e ↦ rw e (h.0, r)
    ]

read_line-HasRanges : (kv : Text × Text) (f : Filter) → HasRanges f → HasRanges (read_line kv f)
unfolding read_line
read_line-HasRanges (key, value) f h = ground (arith, h, read_range-HasRanges key value f h)

read_lines-HasRanges :
    (lines : List Text) (f : Filter) → HasRanges f → HasRanges (read_lines lines f)
read_lines-HasRanges [] f h = rw read_lines-nil h
read_lines-HasRanges (line ∷ lines) f h = rw read_lines-cons (
    read_lines-HasRanges lines (read_line (key_value line) f)
      (read_line-HasRanges (key_value line) f h))

check_mode-HasRanges : (f : Filter) → HasRanges f → HasRanges (check_mode f)
unfolding check_mode
check_mode-HasRanges f h = ground (arith, h)

-- Whatever the flag file holds, the ranges read from it are texts that normalize_port_ranges
-- accepts and leaves as they are.
pub read_game_filter-HasRanges : (flag : Option Text) → HasRanges (read_game_filter flag)
unfolding read_game_filter
read_game_filter-HasRanges none = defaults-HasRanges
read_game_filter-HasRanges (some content) =
    check_mode-HasRanges (read_lines (splitlines content) defaults)
      (read_lines-HasRanges (splitlines content) defaults defaults-HasRanges)

chosen_range-IsRanges :
    (r : Option Text) (current t : Text)
    → IsRanges current
    → chosen_range r current ≡ some t
    → IsRanges t
unfolding chosen_range
chosen_range-IsRanges none current t h e = subst IsRanges (some-injective current t e) h
chosen_range-IsRanges (some r) current t h e = normalize_idem (some r) t e

abbrev mode_or_off : Text → Text
mode_or_off mode = if is_mode mode then mode else codes "off"

is_mode-IsWritten : (mode : Text) → is_mode mode ≡ true → IsWritten mode
unfolding is_mode text_eq
is_mode-IsWritten mode h = elim (Bool-cases (mode == codes "all")) [
  | inl e ↦ all_mode mode (ground arith)
  | inr n ↦ elim (Bool-cases (mode == codes "tcp")) [
    | inl e ↦ tcp_mode mode (ground arith)
    | inr m ↦ udp_mode mode (ground arith)
  ]
]

check_mode-mode :
    (mode t u : Text)
    → is_mode mode ≡ true
    → check_mode (record { mode = mode; tcp = t; udp = u })
      ≡ record { mode = mode; tcp = t; udp = u }
unfolding check_mode
check_mode-mode mode t u h = rw h

check_mode-disabled :
    (t u : Text)
    → check_mode (record { mode = codes "disabled"; tcp = t; udp = u })
      ≡ record { mode = codes "off"; tcp = t; udp = u }
unfolding check_mode text_eq
check_mode-disabled t u = refl

is_mode-defaults : check_mode defaults ≡ defaults
unfolding check_mode text_eq
is_mode-defaults = refl

read-absent : read_game_filter none ≡ defaults
unfolding read_game_filter
read-absent = refl

store_mode-mode :
    (mode t u : Text) → is_mode mode ≡ true → store_mode mode t u ≡ some (flag_text mode t u)
unfolding store_mode
store_mode-mode mode t u h = rw h

store_mode-off :
    (mode t u : Text)
    → is_mode mode ≡ false
    → ((store_mode mode t u ≡ none) × ((t ≡ game_default_range) × (u ≡ game_default_range)))
      ⊎ (store_mode mode t u ≡ some (flag_text (codes "disabled") t u))
unfolding store_mode
store_mode-off mode t u h = ground arith

read-store_mode :
    (mode t u : Text)
    → IsRanges t
    → IsRanges u
    → read_game_filter (store_mode mode t u) ≡ record { mode = mode_or_off mode; tcp = t; udp = u }
read-store_mode mode t u ht hu = elim (Bool-cases (is_mode mode)) [
  | inl e ↦ rw e (
      ap read_game_filter (store_mode-mode mode t u e)
      ∙ read-flag_text mode t u (is_mode-IsWritten mode e) ht hu
      ∙ check_mode-mode mode t u e)
  | inr e ↦ rw e (elim (store_mode-off mode t u e) [
    | inl (s, (et, eu)) ↦ ap read_game_filter s ∙ read-absent ∙ (cc)
    | inr s ↦
        ap read_game_filter s
        ∙ read-flag_text (codes "disabled") t u (disabled (codes "disabled") refl) ht hu
        ∙ check_mode-disabled t u
  ])
]

-- What set_game_mode leaves in the flag file is read back as the mode (or off) and the two
-- chosen ranges, whatever the file held before.
pub read-set_game_mode :
    (flag : Option Text) (mode : Text) (tcp_range udp_range : Option Text) (t u : Text)
    → chosen_range tcp_range (read_game_filter flag).tcp ≡ some t
    → chosen_range udp_range (read_game_filter flag).udp ≡ some u
    → (content : Option Text) × (set_game_mode flag mode tcp_range udp_range ≡ ok content)
      × (read_game_filter content ≡ record { mode = mode_or_off mode; tcp = t; udp = u })
unfolding set_game_mode
read-set_game_mode flag mode tr ur t u ct cu = (
  store_mode mode t u,
  rw (ct, cu),
  read-store_mode mode t u
      (chosen_range-IsRanges tr (read_game_filter flag).tcp t (read_game_filter-HasRanges flag).0
        ct)
      (chosen_range-IsRanges ur (read_game_filter flag).udp u (read_game_filter-HasRanges flag).1
        cu),
)
