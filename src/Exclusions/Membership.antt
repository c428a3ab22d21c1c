-- ===== src/Exclusions/Membership.antt =====
-- Which lines stand in the lists of the user behind the operations.
use mathlib.Core.Option.{some-injective}
use zapret_gui.Base.{
  ◌≤◌, ◌≡◌, refl, sym, ◌∙◌, ap, Bool, true, false, not, ◌&&◌, ◌||◌, Option, none, some, List, [],
  ◌∷◌, ◌++◌, ◌==◌, contains, text_eq, nat_eq, if◌then◌else◌, length, keep, Bool-cases, inl, inr,
  arith,
}
use zapret_gui.Text.{Text}
use zapret_gui.Exclusions.{
  telegram_ip_ranges, game_exclude_domains, is_nil, missing, without, add_missing, add_ranges,
  or_placeholder, is_entry, written_lines, set_lines,
}

contains-append :
    (xs ys : List Text) (d : Text) → contains (xs ++ ys) d ≡ (contains xs d || contains ys d)
contains-append [] ys d = refl
contains-append (x ∷ xs) ys d = ground (arith, contains-append xs ys d)

contains-missing :
    (have wanted : List Text) (d : Text)
    → contains (missing have wanted) d ≡ (contains wanted d && not (contains have d))
unfolding missing
contains-missing have [] d = refl
contains-missing have (x ∷ wanted) d = ground (arith, contains-missing have wanted d)

contains-without :
    (names lines : List Text) (d : Text)
    → contains (without names lines) d ≡ (contains lines d && not (contains names d))
unfolding without
contains-without names [] d = refl
contains-without names (x ∷ lines) d = ground (arith, contains-without names lines d)

length-without : (names lines : List Text) → length (without names lines) ≤ length lines
unfolding without
length-without names [] = omega arith
length-without names (x ∷ lines) = ground (arith, length-without names lines)

without-full :
    (names lines : List Text) (d : Text)
    → length (without names lines) ≡ length lines
    → (contains lines d && contains names d) ≡ false
unfolding without
without-full names [] d h = refl
without-full names (x ∷ lines) d h =
    ground (arith, length-without names lines, without-full names lines d)

contains-keep :
    (lines : List Text) (d : Text)
    → contains (keep is_entry lines) d ≡ (contains lines d && is_entry d)
contains-keep [] d = refl
contains-keep (x ∷ lines) d = ground (arith, contains-keep lines d)

contains-or_placeholder :
    (lines : List Text) (d : Text)
    → is_entry d ≡ true
    → contains (or_placeholder lines) d ≡ contains lines d
contains-or_placeholder [] d h = ground (arith, h)
contains-or_placeholder (x ∷ lines) d h = refl

contains-written_lines :
    (lines : List Text) (d : Text)
    → is_entry d ≡ true
    → contains (written_lines lines) d ≡ contains lines d
unfolding written_lines
contains-written_lines lines d h =
    contains-or_placeholder (keep is_entry lines) d h
    ∙ (contains-keep lines d ∙ (rw h (and-true (contains lines d))))
  where
    and-true : (b : Bool) → (b && true) ≡ b
    and-true true = refl
    and-true false = refl

-- The lines that the file holds behind the operation
abbrev pub lines_after : Option (List Text) → List Text → List Text
lines_after none existing = existing
lines_after (some lines) existing = lines

is_nil-eq : (xs : List Text) → is_nil xs ≡ true → (d : Text) → contains xs d ≡ false
is_nil-eq [] h d = refl
is_nil-eq (x ∷ xs) h d = cc

added-membership :
    (existing : List Text) (d : Text)
    → is_entry d ≡ true
    → contains (lines_after (set_lines true existing) existing) d
      ≡ (contains existing d || contains game_exclude_domains d)
unfolding set_lines
added-membership existing d h = elim (Bool-cases (is_nil (missing existing game_exclude_domains))) [
  | inl e ↦ rw e (
      covered (contains existing d) (contains game_exclude_domains d) (
        sym (contains-missing existing game_exclude_domains d)
        ∙ is_nil-eq (missing existing game_exclude_domains) e d))
  | inr e ↦ rw e (
      contains-written_lines (existing ++ missing existing game_exclude_domains) d h
      ∙ (contains-append existing (missing existing game_exclude_domains) d
          ∙ (rw contains-missing (joined (contains existing d) (contains game_exclude_domains d)))))
]
  where
    covered : (x g : Bool) → (g && not x) ≡ false → x ≡ (x || g)
    covered true g e = refl
    covered false true e = cc
    covered false false e = refl

    joined : (x g : Bool) → (x || (g && not x)) ≡ (x || g)
    joined true g = refl
    joined false true = refl
    joined false false = refl

removed-membership :
    (existing : List Text) (d : Text)
    → is_entry d ≡ true
    → contains (lines_after (set_lines false existing) existing) d
      ≡ (contains existing d && not (contains game_exclude_domains d))
unfolding set_lines
removed-membership existing d h =
    let kept = without game_exclude_domains existing in
    elim (Bool-cases (length kept == length existing)) [
      | inl e ↦ rw e (
          covered (contains existing d) (contains game_exclude_domains d)
            (without-full game_exclude_domains existing d (ground arith)))
      | inr e ↦
          rw e (contains-written_lines kept d h ∙ contains-without game_exclude_domains existing d)
    ]
  where
    covered : (x g : Bool) → (x && g) ≡ false → x ≡ (x && not g)
    covered true true e = cc
    covered true false e = refl
    covered false g e = refl

abbrev pub as_asked : Bool → Bool → Bool → Bool
as_asked on game present = if game then on else present

-- Behind set_game_exclusions the list holds a game domain exactly when that was asked for, and
-- any other entry exactly when it held it before (an entry is a line that is neither empty nor
-- the placeholder).
pub set_lines-membership :
    (on : Bool) (existing : List Text) (d : Text)
    → is_entry d ≡ true
    → contains (lines_after (set_lines on existing) existing) d
      ≡ as_asked on (contains game_exclude_domains d) (contains existing d)
set_lines-membership true existing d h =
    added-membership existing d h ∙ merged (contains existing d) (contains game_exclude_domains d)
  where
    merged : (x g : Bool) → (x || g) ≡ as_asked true g x
    merged true true = refl
    merged true false = refl
    merged false true = refl
    merged false false = refl
set_lines-membership false existing d h =
    removed-membership existing d h ∙ merged (contains existing d) (contains game_exclude_domains d)
  where
    merged : (x g : Bool) → (x && not g) ≡ as_asked false g x
    merged true true = refl
    merged true false = refl
    merged false true = refl
    merged false false = refl

missing-nil :
    (have wanted : List Text)
    → ((d : Text) → contains wanted d ≡ true → contains have d ≡ true)
    → missing have wanted ≡ []
unfolding missing
missing-nil have [] h = refl
missing-nil have (x ∷ wanted) h =
    rw (h x (ground arith)) (missing-nil have wanted (λ d m. h d (ground (arith, m))))

joined : (x g : Bool) → (x || (g && not x)) ≡ (x || g)
joined true g = refl
joined false true = refl
joined false false = refl

or-right : (x : Bool) {g : Bool} → g ≡ true → (x || g) ≡ true
or-right true m = refl
or-right false m = m

module _ (wanted existing : List Text) where
  contains-added :
      (d : Text)
      → contains (existing ++ missing existing wanted) d
        ≡ (contains existing d || contains wanted d)
  contains-added d =
      contains-append existing (missing existing wanted) d
      ∙ (rw contains-missing (joined (contains existing d) (contains wanted d)))

  add_missing-none :
      (lines : List Text)
      → ((d : Text) → contains lines d ≡ (contains existing d || contains wanted d))
      → add_missing wanted lines ≡ none
  unfolding add_missing
  add_missing-none lines h =
      rw (missing-nil lines wanted (λ d m. h d ∙ or-right (contains existing d) m)) refl

  add_missing-eq-some :
      (lines : List Text)
      → add_missing wanted existing ≡ some lines
      → existing ++ missing existing wanted ≡ lines
  unfolding add_missing
  add_missing-eq-some lines h = elim (Bool-cases (is_nil (missing existing wanted))) [
    | inl e ↦ absurd (ground arith)
    | inr e ↦ some-injective (existing ++ missing existing wanted) lines (rw e at h)
  ]

-- Where ensure_telegram_bypass_exclude writes, the lines are those of the file and the ranges
-- of Telegram, and the operation on the new lines writes nothing.
pub add_ranges_lem :
    (existing lines : List Text)
    → add_ranges existing ≡ some lines
    → (add_ranges lines ≡ none)
      × ((d : Text) → contains lines d ≡ (contains existing d || contains telegram_ip_ranges d))
unfolding add_ranges
add_ranges_lem existing lines h =
    let member : (d : Text)
        → contains lines d ≡ (contains existing d || contains telegram_ip_ranges d) =
      λ d.
        ap (λ l. contains l d) (sym (add_missing-eq-some telegram_ip_ranges existing lines h))
        ∙ contains-added telegram_ip_ranges existing d in
    (add_missing-none telegram_ip_ranges existing lines member, member)
