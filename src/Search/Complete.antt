-- ===== src/Search/Complete.antt =====
-- The search tries every candidate unless it is cancelled or may stop early.
use zapret_gui.Base.{
  ℕ, suc, ◌+◌, ◌≡◌, refl, sym, ◌∙◌, ap, Bool, false, ◌&&◌, ◌||◌, some, List, [], ◌∷◌, ◌++◌, nat_eq,
  text_eq, leb, length, take, map, sort_by, arith, append-nil, append_assoc, Bool-cases, inl, inr,
}
use mathlib.Core.Path.{subst}
use mathlib.Core.Option.{some-injective}
use mathlib.Core.List.{Perm}
use mathlib.Core.List.Perm
use zapret_gui.Base.Dict.{Dict}
use zapret_gui.Base.Sort.{sort_by-Perm}
use zapret_gui.Text.{Text}
use zapret_gui.Ranking.{Preset}
use zapret_gui.Search.{
  SearchResult, Candidate, Trial, quick_phase, exact_phase, result_of, ranked, exact_of, run_search,
  quick_before, better_first, ask, full_results, quick_score,
}

abbrev pub preset_of : Candidate → Preset
preset_of c = c.preset

module _ (trial : Trial) (targets : Dict Text Text) (quick_hosts : List Text) (fast : Bool) where
  -- With no cancellation the quick phase keeps every preset, in order.
  quick_phase-all :
      (index : ℕ) (ps : List Preset)
      → (rows : List Candidate) × (quick_phase trial targets quick_hosts fast index ps []
          ≡ some (rows, []))
        × (map preset_of rows ≡ ps)
  unfolding quick_phase
  quick_phase-all index [] = ([], refl, refl)
  quick_phase-all index (p ∷ ps) =
      let (rows, e, m) = quick_phase-all (index + 1) ps in
      (
        record { score = quick_score (trial p quick_hosts 1); index = index; preset = p } ∷ rows,
        rw e,
        ap (λ l. p ∷ l) m,
      )

module _ (trial : Trial) (targets : Dict Text Text) (quick_hosts : List Text) where
  exact_phase-all :
      (cs : List Candidate) (results : List SearchResult)
      → exact_phase trial targets quick_hosts false cs results []
        ≡ some (results ++ map (result_of trial targets quick_hosts false) (map preset_of cs))
  unfolding exact_phase
  exact_phase-all [] results = rw append-nil
  exact_phase-all (c ∷ cs) results =
      let r = result_of trial targets quick_hosts false c.preset in
      exact_phase-all cs (results ++ r ∷ [])
      ∙ rw (
          append_assoc results (r ∷ [])
            (map (result_of trial targets quick_hosts false) (map preset_of cs)))

  -- A full search that nobody cancels returns a permutation of the summaries of the own
  -- trials of all presets.
  pub run_search-Perm :
      (presets : List Preset)
      → (results : List SearchResult) × (run_search trial targets quick_hosts false presets []
          ≡ some results)
        × Perm results (map (result_of trial targets quick_hosts false) presets)
  unfolding run_search
  run_search-Perm presets =
      let (rows, e, m) = quick_phase-all trial targets quick_hosts false 0 presets in
      let results =
        map (result_of trial targets quick_hosts false)
          (map preset_of (sort_by quick_before rows)) in
      (
        sort_by better_first results,
        ap (exact_of trial targets quick_hosts false) e
            ∙ ap ranked (exact_phase-all (sort_by quick_before rows) []),
        Perm.trans (sort_by-Perm better_first results) (
            Perm.map (result_of trial targets quick_hosts false) (
              subst (λ ps. Perm (map preset_of (sort_by quick_before rows)) ps) m
                (Perm.map preset_of (sort_by-Perm quick_before rows)))),
      )

module _ (trial : Trial) (targets : Dict Text Text) (quick_hosts : List Text) where
  -- The exact phase, when it is not cancelled, has the results of a prefix of the candidates,
  -- in order, and stops before the last one only if the search is fast and three results are
  -- full.
  pub exact_phase-results :
      (fast : Bool) (cs : List Candidate) (results : List SearchResult) (answers : List Bool)
      (out : List SearchResult)
      → exact_phase trial targets quick_hosts fast cs results answers ≡ some out
      → (n : ℕ) × (out
          ≡ results ++ map (result_of trial targets quick_hosts fast) (map preset_of (take n cs)))
        × ((fast && leb 3 (full_results (length targets) out)) ≡ false → n ≡ length cs)
  unfolding exact_phase
  exact_phase-results fast [] results answers out h =
      (0, sym (some-injective results out h) ∙ sym (append-nil results), λ x. refl)
  exact_phase-results fast (c ∷ cs) results answers out h =
      elim (Bool-cases ((ask answers).0 || (ask (ask answers).1).0)) [
        | inl stop ↦ absurd (ground arith)
        | inr on ↦
            let results' = results ++ result_of trial targets quick_hosts fast c.preset ∷ [] in
            elim (Bool-cases (fast && leb 3 (full_results (length targets) results'))) [
              | inl full ↦
                  let e : results' ≡ out = some-injective results' out (rw (on, full) at h) in
                  (1, sym e, λ x. absurd (ground (arith, ap (full_results (length targets)) e)))
              | inr more ↦
                  let (n, e, f) =
                    exact_phase-results fast cs results' (ask (ask answers).1).1 out
                      (rw (on, more) at h) in
                  (
                    suc n,
                    e
                        ∙ append_assoc results
                            (result_of trial targets quick_hosts fast c.preset ∷ [])
                            (map (result_of trial targets quick_hosts fast)
                              (map preset_of (take n cs))),
                    λ x. ap suc (f x),
                  )
            ]
      ]
