-- ===== src/Supervisor/Recovery/Candidates.antt =====
-- Which presets a recovery tries.
use zapret_gui.Base.{
  ◌≡◌, refl, Bool, true, false, not, ◌&&◌, List, [], ◌∷◌, ◌++◌, ◌==◌, contains, text_eq,
  if◌then◌else◌, Bool-cases, inl, inr, All, All-append, arith,
}
use zapret_gui.Base.Dict.{Dict, lookup, keys}
use zapret_gui.Text.{Text}
use zapret_gui.Supervisor.{Setup}
use zapret_gui.Supervisor.Recovery.{is_some, pool_from, added_from, candidates_of}

-- A known preset, other than the original one, that has not failed before
abbrev pub IsChoice : Dict Text Text → Text → List Text → Text → Type 0
IsChoice presets original failed n =
    (is_some (lookup n presets) ≡ true) × ((n == original) ≡ false) × (contains failed n ≡ false)

All-if :
    (P : Text → Type 0) (b : Bool) (n : Text) (rest : List Text)
    → (b ≡ true → P n)
    → All P rest
    → All P (if b then n ∷ rest else rest)
All-if P true n rest h k = (h refl, k)
All-if P false n rest h k = k

and_not : (a b c : Bool) → (a && not b && not c) ≡ true → (a ≡ true) × (b ≡ false) × (c ≡ false)
and_not true false false h = (refl, refl, refl)
and_not true false true h = cc
and_not true true c h = cc
and_not false b c h = cc

pool_from-IsChoice :
    (presets : Dict Text Text) (original : Text) (failed pool : List Text)
    → All (IsChoice presets original failed) (pool_from presets original failed pool)
unfolding pool_from
pool_from-IsChoice presets original failed [] = tt
pool_from-IsChoice presets original failed (n ∷ pool) =
    All-if (IsChoice presets original failed)
      (is_some (lookup n presets) && not (n == original) && not (contains failed n)) n
      (pool_from presets original failed pool)
      (λ h. and_not (is_some (lookup n presets)) (n == original) (contains failed n) h)
      (pool_from-IsChoice presets original failed pool)

lookup_cons :
    (j n v : Text) (d : Dict Text Text)
    → is_some (lookup n d) ≡ true
    → is_some (lookup n ((j, v) ∷ d)) ≡ true
unfolding lookup
lookup_cons j n v d h = elim (Bool-cases (n == j)) [ inl e ↦ rw e refl | inr e ↦ rw e h ]

lookup_here : (j v : Text) (d : Dict Text Text) → is_some (lookup j ((j, v) ∷ d)) ≡ true
unfolding lookup
lookup_here j v d = elim (Bool-cases (j == j)) [ inl e ↦ rw e refl | inr e ↦ ground arith ]

Known_cons :
    (j v : Text) (d : Dict Text Text) (ns : List Text)
    → All (λ n. is_some (lookup n d) ≡ true) ns
    → All (λ n. is_some (lookup n ((j, v) ∷ d)) ≡ true) ns
Known_cons j v d [] h = tt
Known_cons j v d (n ∷ ns) (h, k) = (lookup_cons j n v d h, Known_cons j v d ns k)

keys-Known : (d : Dict Text Text) → All (λ n. is_some (lookup n d) ≡ true) (keys d)
keys-Known [] = tt
keys-Known ((j, v) ∷ d) = (lookup_here j v d, Known_cons j v d (keys d) (keys-Known d))

added_from-IsChoice :
    (presets : Dict Text Text) (chosen : List Text) (original : Text) (failed names : List Text)
    → All (λ n. is_some (lookup n presets) ≡ true) names
    → All (IsChoice presets original failed) (added_from chosen original failed names)
unfolding added_from
added_from-IsChoice presets chosen original failed [] h = tt
added_from-IsChoice presets chosen original failed (n ∷ names) (h, k) =
    All-if (IsChoice presets original failed)
      (not (contains chosen n) && not (n == original) && not (contains failed n)) n
      (added_from chosen original failed names)
      (λ e.
        let k = and_not (not (contains chosen n)) (n == original) (contains failed n) e in
        (h, k.1, k.2))
      (added_from-IsChoice presets chosen original failed names k)

All-either :
    (P : Text → Type 0) (b : Bool) (xs ys : List Text)
    → All P xs
    → All P ys
    → All P (if b then xs ++ ys else xs)
All-either P true xs ys h k = All-append P xs ys h k
All-either P false xs ys h k = h

pub candidates_of-IsChoice :
    (S : Setup) (original : Text) (failed : List Text)
    → All (IsChoice S.presets original failed) (candidates_of S original failed)
unfolding candidates_of
candidates_of-IsChoice S original failed =
    let chosen : List Text = pool_from S.presets original failed S.pool in
    All-either (IsChoice S.presets original failed) S.research chosen
      (added_from chosen original failed (keys S.presets))
      (pool_from-IsChoice S.presets original failed S.pool)
      (added_from-IsChoice S.presets chosen original failed (keys S.presets) (keys-Known S.presets))
