-- ===== src/Ranking/Order.antt =====
-- The orders of `Ranking`, said without its comparisons; sorting loses no preset.
use zapret_gui.Base.{
  ℕ, suc, ◌≤◌, ◌≡◌, refl, ap, Bool, true, false, Option, none, some, List, [], ◌∷◌, nat_eq, text_eq,
  length, keep, take, map, sort_by, arith, length-take, ◌<◌, ◌≢◌, ◌⊎◌, inl, inr, ==_sound, ==_refl,
  ltb, ltb→lt, contains, Bool-cases, sym,
}
use mathlib.Core.List.{Perm}
use zapret_gui.Base.Sort.{sort_by-Perm, sort_by-IsSorted, IsOrdered, IsOrdered-IsSorted}
use zapret_gui.Text.{Text}
use zapret_gui.Ranking.Places.{Leads, index_of-Leads, contains-Leads, overlap_lem}
use zapret_gui.Ranking.{
  Preset, Rank, rank, rank_ltb, ranked_before, prioritize_presets, Row, candidate_before,
  select_candidates, result_is_better, row_name, signature_of, find_last, is_last, last_working,
  in_pool, similar, index_of, overlap, strategy_signature, latency_or,
}

rank_ltb_asym : (a b : Rank) → rank_ltb a b ≡ true → rank_ltb b a ≡ false
unfolding rank_ltb
rank_ltb_asym a b h = ground arith

rank_ltb_trans : (a b c : Rank) → rank_ltb b a ≡ false → rank_ltb c b ≡ false → rank_ltb c a ≡ false
unfolding rank_ltb
rank_ltb_trans a b c h k = ground arith

-- Where a preset stands, said without the ranks: the last one that worked, the pool by its index,
-- and the others by how much their signature has in common with the last one's.
module _ (last_name : Option Text) (pool last_sig : List Text) where
  abbrev pub IsLast : Preset → Type 0
  IsLast p = (last_name ≡ some p.name) × (p.name ≢ [])

  abbrev pub likeness : Preset → ℕ
  likeness p = length (keep (λ x. contains last_sig x) (strategy_signature p.args))

  -- `a` may stand in front of `b`
  pub data StandsBefore (a b : Preset) : Type 0 where
    worked_last : IsLast a → StandsBefore a b
    in_the_pool :
        contains pool a.name ≡ true → ¬ IsLast b → Leads a.name b.name pool → StandsBefore a b
    more_alike :
        ¬ IsLast b → contains pool b.name ≡ false → likeness b ≤ likeness a → StandsBefore a b

is_last-IsLast : (o : Option Text) (s : Text) → is_last o s ≡ true → (o ≡ some s) × (s ≢ [])
is_last-IsLast none s h = cc
is_last-IsLast (some []) s h = cc
is_last-IsLast (some (c ∷ t)) s h =
    let e = ==_sound s (c ∷ t) h in (ap (λ x. some x) (sym e), λ n. cc)

is_last_refl : (s : Text) → s ≢ [] → is_last (some s) s ≡ true
is_last_refl [] k = elim (k refl) [ ]
is_last_refl (c ∷ s) k = ==_refl (c ∷ s)

module _ (last_name : Option Text) (pool last_sig : List Text) where
  IsLast-is_last :
      (p : Preset) → is_last last_name p.name ≡ false → ¬ IsLast last_name pool last_sig p
  IsLast-is_last p h (e, n) = cc (is_last_refl p.name n, ap (λ o. is_last o p.name) e, h)

  -- What a preset of each rank is
  pub data Placed (p : Preset) : Rank → Type 0 where
    as_last : IsLast last_name pool last_sig p → Placed p last_working
    as_pool :
        ¬ IsLast last_name pool last_sig p
        → contains pool p.name ≡ true
        → Placed p (in_pool (index_of p.name pool))
    as_other :
        ¬ IsLast last_name pool last_sig p
        → contains pool p.name ≡ false
        → Placed p (similar (overlap (strategy_signature p.args) last_sig))

  rank-Placed : (p : Preset) → Placed p (rank last_name pool last_sig p)
  unfolding rank
  rank-Placed p = elim (Bool-cases (is_last last_name p.name)) [
    | inl e ↦ rw e (as_last (is_last-IsLast last_name p.name e))
    | inr e ↦ rw e (elim (Bool-cases (contains pool p.name)) [
      | inl k ↦ rw k (as_pool (IsLast-is_last p e) k)
      | inr k ↦ rw k (as_other (IsLast-is_last p e) k)
    ])
  ]

  Placed-StandsBefore :
      (a b : Preset) (r s : Rank)
      → Placed a r
      → Placed b s
      → rank_ltb s r ≡ false
      → StandsBefore last_name pool last_sig a b
  unfolding rank_ltb
  Placed-StandsBefore a b _ _ (as_last x) q h = worked_last x
  Placed-StandsBefore a b _ _ (as_pool n k) (as_last y) h = cc
  Placed-StandsBefore a b _ _ (as_pool n k) (as_pool m l) h =
      in_the_pool k m (index_of-Leads a.name b.name pool k (ground (arith, h)))
  Placed-StandsBefore a b _ _ (as_pool n k) (as_other m l) h =
      in_the_pool k m (contains-Leads a.name b.name pool k l)
  Placed-StandsBefore a b _ _ (as_other n k) (as_last y) h = cc
  Placed-StandsBefore a b _ _ (as_other n k) (as_pool m l) h = cc
  Placed-StandsBefore a b _ _ (as_other n k) (as_other m l) h = more_alike m l (
      rw
        (
          ← overlap_lem (strategy_signature a.args) last_sig,
          ← overlap_lem (strategy_signature b.args) last_sig,
        )
        (ground (arith, h)))

module _ (presets : List Preset) (last_name : Option Text) (pool : List Text) where
  prioritize-Perm : Perm (prioritize_presets presets last_name pool) presets
  unfolding prioritize_presets
  prioritize-Perm =
      sort_by-Perm (ranked_before last_name pool (signature_of (find_last last_name presets)))
        presets

  abbrev pub last_signature : List Text
  last_signature = signature_of (find_last last_name presets)

  prioritize-IsOrdered :
      IsOrdered
        (StandsBefore last_name pool last_signature)
        (prioritize_presets presets last_name pool)
  unfolding prioritize_presets
  prioritize-IsOrdered =
      IsOrdered-IsSorted order (StandsBefore last_name pool last_signature)
        (λ p q.
          Placed-StandsBefore last_name pool last_signature p q (rank_of p) (rank_of q)
            (rank-Placed last_name pool last_signature p)
            (rank-Placed last_name pool last_signature q))
        (sort_by order presets)
        (sort_by-IsSorted order (λ p q. rank_ltb_asym (rank_of p) (rank_of q))
          (λ p q r. rank_ltb_trans (rank_of p) (rank_of q) (rank_of r)) presets)
    where
      rank_of : Preset → Rank
      rank_of = rank last_name pool last_signature

      order : Preset → Preset → Bool
      order = ranked_before last_name pool last_signature

  -- prioritize_presets loses no preset and doubles none, and of any two presets the one in
  -- front is the last one that worked; or it has a place in the pool in front of which the
  -- other, which is not the last one that worked, does not stand; or the other is neither the
  -- last one that worked nor in the pool, and no more elements of its signature are in that
  -- of the last one.
  pub prioritize_presets_lem :
      Perm (prioritize_presets presets last_name pool) presets
      × IsOrdered
          (StandsBefore last_name pool last_signature)
          (prioritize_presets presets last_name pool)
  prioritize_presets_lem = (prioritize-Perm, prioritize-IsOrdered)

-- A latency that is not known counts as 9e9 milliseconds.
abbrev pub IsAsFast : Option ℕ → Option ℕ → Type 0
IsAsFast (some l) (some m) = l ≤ m
IsAsFast (some l) none = l ≤ 9_000_000_000_000
IsAsFast none (some m) = 9_000_000_000_000 ≤ m
IsAsFast none none = Unit

-- A row that may stand in front of the other: it reached more, or as much and as fast
abbrev pub IsAsGood : Row → Row → Type 0
IsAsGood a b = (b.score < a.score) ⊎ ((a.score ≡ b.score) × IsAsFast a.latency b.latency)

not_before-IsAsFast :
    (l m : Option ℕ)
    → ltb (latency_or 9_000_000_000_000 m) (latency_or 9_000_000_000_000 l) ≡ false
    → IsAsFast l m
not_before-IsAsFast (some l) (some m) h = ground (arith, h)
not_before-IsAsFast (some l) none h = ground (arith, h)
not_before-IsAsFast none (some m) h = ground (arith, h)
not_before-IsAsFast none none h = tt

not_before-IsAsGood : (a b : Row) → candidate_before b a ≡ false → IsAsGood a b
unfolding candidate_before
not_before-IsAsGood a b h = elim (Bool-cases (ltb b.score a.score)) [
  | inl e ↦ inl (ltb→lt b.score a.score e)
  | inr e ↦
      let same : a.score ≡ b.score = ground (arith, e, h) in
      inr (same, not_before-IsAsFast a.latency b.latency (ground (arith, same, h)))
]

candidate_asym : (a b : Row) → candidate_before a b ≡ true → candidate_before b a ≡ false
unfolding candidate_before
candidate_asym a b h = ground arith

candidate_trans :
    (a b c : Row)
    → candidate_before b a ≡ false
    → candidate_before c b ≡ false
    → candidate_before c a ≡ false
unfolding candidate_before
candidate_trans a b c h k = ground arith

length-map : (f : Row → Text) (rows : List Row) → length (map f rows) ≡ length rows
length-map f [] = refl
length-map f (r ∷ rows) = ap suc (length-map f rows)

-- select_candidates returns the names of the first rows of a permutation of the rows, at most
-- as many as were asked for, in which of any two rows the one in front has the higher score, or
-- the same score and no higher latency, where a latency that is not known counts as 9e9
-- milliseconds.
pub select_candidates_lem :
    (rows : List Row) (n : ℕ)
    → (sorted : List Row) × Perm sorted rows
      × IsOrdered IsAsGood sorted
      × (select_candidates rows n ≡ map row_name (take n sorted))
      × (length (select_candidates rows n) ≤ n)
unfolding select_candidates
select_candidates_lem rows n =
    let sorted = sort_by candidate_before rows in
    (
      sorted,
      sort_by-Perm candidate_before rows,
      IsOrdered-IsSorted candidate_before IsAsGood not_before-IsAsGood sorted
          (sort_by-IsSorted candidate_before candidate_asym candidate_trans rows),
      refl,
      omega (arith, length-map row_name (take n sorted), length-take n sorted),
    )

-- Replacing a result only by a better one never cycles: better is irreflexive and transitive.
pub better_irrefl : (a : Option Row) → result_is_better a a ≡ false
unfolding result_is_better
better_irrefl none = refl
better_irrefl (some a) = ground arith

-- To be the better result is transitive, unknown latencies and missing results included.
pub better_trans :
    (a b c : Option Row)
    → result_is_better a b ≡ true
    → result_is_better b c ≡ true
    → result_is_better a c ≡ true
unfolding result_is_better
better_trans a b c h k = ground arith
