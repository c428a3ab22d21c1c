-- ===== src/Search.antt =====
-- zapret_search.py: `SearchResult`, `summarize` and `run_search`. A trial of a strategy is a
-- parameter: it answers a preset, a list of hosts and a number of samples with a result for each
-- host. What `cancelled()` answers, call by call, is a list (false where it has ended).
pub mod Complete
use zapret_gui.Base.{
  ℕ, zero, suc, ◌+◌, ◌*◌, Bool, true, false, not, ◌&&◌, ◌||◌, Option, none, some, List, [], ◌∷◌,
  ◌++◌, ◌==◌, contains, nat_eq, text_eq, if◌then◌else◌, ltb, leb, length, map, sort_by,
}
use zapret_gui.Base.Dict
use zapret_gui.Base.Dict.{Dict}
use zapret_gui.Text.{Text, codes}
use zapret_gui.Ranking.{Preset}
use zapret_gui.Measure.{ProbeResult, reliable, median}

pub record SearchResult : Type 0 where
  pub name : Text
  pub per_service : Dict Text ℕ
  pub total : ℕ
  pub successes : ℕ
  pub attempts : ℕ
  pub latency : Option ℕ

abbrev pub Probes : Type 0
Probes = Dict Text ProbeResult

-- `self.successes / self.attempts if self.attempts else 0`, as a fraction
abbrev rate : SearchResult → ℕ × ℕ
rate r = if r.attempts == 0 then (0, 1) else (r.successes, r.attempts)

abbrev rate_ltb : ℕ × ℕ → ℕ × ℕ → Bool
rate_ltb (a, b) (c, d) = ltb (a * d) (c * b)

-- `-(latency)` is smaller; a latency that is not known is minus infinity.
abbrev slower : Option ℕ → Option ℕ → Bool
slower none none = false
slower none (some b) = true
slower (some a) none = false
slower (some a) (some b) = ltb b a

-- `a.rank < b.rank`
unfoldable pub rank_ltb : SearchResult → SearchResult → Bool
unfolding nat_eq
rank_ltb a b =
    ltb a.total b.total
    || a.total == b.total
      && (rate_ltb (rate a) (rate b)
          || not (rate_ltb (rate b) (rate a)) && slower a.latency b.latency)

-- `int(probes[host].reliable)`; every host of the targets has a result.
abbrev pub score_of : Option ProbeResult → ℕ
score_of none = 0
score_of (some p) = if reliable p then 1 else 0

abbrev or_zero : Option ℕ → ℕ
or_zero none = 0
or_zero (some n) = n

-- `per = {s: 0 for s, _ in targets}`
unfoldable pub zero_services : Dict Text Text → Dict Text ℕ → Dict Text ℕ
zero_services [] per = per
zero_services ((s, h) ∷ targets) per = zero_services targets (Dict.insert s 0 per)

unfoldable pub add_scores : Probes → Dict Text Text → Dict Text ℕ → Dict Text ℕ
add_scores probes [] per = per
add_scores probes ((s, h) ∷ targets) per =
    add_scores probes targets
      (Dict.insert s (or_zero (Dict.lookup s per) + score_of (Dict.lookup h probes)) per)

abbrev pub values : Dict Text ℕ → List ℕ
values [] = []
values ((k, v) ∷ d) = v ∷ values d

abbrev pub sum : List ℕ → ℕ
sum [] = 0
sum (x ∷ xs) = x + sum xs

abbrev known : Option ℕ → List ℕ → List ℕ
known none ls = ls
known (some l) ls = l ∷ ls

abbrev latencies : Probes → List ℕ
latencies [] = []
latencies ((h, p) ∷ ps) = known p.latency (latencies ps)

abbrev pub all_successes : Probes → ℕ
all_successes [] = 0
all_successes ((h, p) ∷ ps) = p.successes + all_successes ps

abbrev pub all_attempts : Probes → ℕ
all_attempts [] = 0
all_attempts ((h, p) ∷ ps) = p.attempts + all_attempts ps

unfoldable pub summarize : Text → Dict Text Text → Probes → SearchResult
unfolding zero_services add_scores median reliable Dict.insert Dict.lookup text_eq
summarize name targets probes =
    let per = add_scores probes targets (zero_services targets []) in
    record {
      name = name;
      per_service = per;
      total = sum (values per);
      successes = all_successes probes;
      attempts = all_attempts probes;
      latency = median (latencies probes);
    }

abbrev pub quick_score : Probes → ℕ
quick_score [] = 0
quick_score ((h, p) ∷ ps) = (if reliable p then 1 else 0) + quick_score ps

-- A row `(-score, index, preset)` of the first phase
pub record Candidate : Type 0 where
  pub score : ℕ
  pub index : ℕ
  pub preset : Preset

unfoldable pub quick_before : Candidate → Candidate → Bool
unfolding nat_eq
quick_before a b = ltb b.score a.score || a.score == b.score && ltb a.index b.index

abbrev pub Trial : Type 0
Trial = Preset → List Text → ℕ → Probes

-- The next answer of `cancelled()` and the ones behind it
abbrev pub ask : List Bool → Bool × List Bool
ask [] = (false, [])
ask (b ∷ bs) = (b, bs)

abbrev pub hosts_of : Dict Text Text → List Text
hosts_of [] = []
hosts_of ((s, h) ∷ targets) = h ∷ hosts_of targets

-- `sum(r.total == len(targets) for r in results)`
abbrev pub full_results : ℕ → List SearchResult → ℕ
full_results n [] = 0
full_results n (r ∷ rs) = (if r.total == n then 1 else 0) + full_results n rs

abbrev pub better_first : SearchResult → SearchResult → Bool
better_first a b = rank_ltb b a

abbrev pub ranked : Option (List SearchResult) → Option (List SearchResult)
ranked none = none
ranked (some results) = some (sort_by better_first results)

module _ (trial : Trial) (targets : Dict Text Text) (quick_hosts : List Text) (fast : Bool) where
  -- The first loop; none where it was cancelled, else the rows and the answers that are left.
  unfoldable pub quick_phase : ℕ → List Preset → List Bool → Option (List Candidate × List Bool)
  quick_phase index [] answers = some ([], answers)
  quick_phase index (p ∷ ps) answers =
      let (stop, answers') = ask answers in
      let rest = quick_phase (index + 1) ps answers' in
      if stop then none else elim rest [
        | none ↦ none
        | some (rows, left) ↦ some (
          record { score = quick_score (trial p quick_hosts 1); index = index; preset = p } ∷ rows,
          left,
        )
      ]

  -- The result of a candidate in the exact phase
  unfoldable pub result_of : Preset → SearchResult
  result_of p = summarize p.name targets (trial p (hosts_of targets) 3)

  -- The second loop: the results so far are also what was published.
  unfoldable pub exact_phase :
      List Candidate → List SearchResult → List Bool → Option (List SearchResult)
  exact_phase [] results answers = some results
  exact_phase (c ∷ cs) results answers =
      let (stop, answers') = ask answers in
      let (stop', answers'') = ask answers' in
      let results' = results ++ result_of c.preset ∷ [] in
      let rest = exact_phase cs results' answers'' in
      if stop || stop'
      then none
      else if fast && leb 3 (full_results (length targets) results')
      then some results'
      else rest

  -- Behind the first loop
  abbrev pub exact_of : Option (List Candidate × List Bool) → Option (List SearchResult)
  exact_of none = none
  exact_of (some (ordered, left)) = ranked (exact_phase (sort_by quick_before ordered) [] left)

  unfoldable pub run_search : List Preset → List Bool → Option (List SearchResult)
  run_search presets answers = exact_of (quick_phase 0 presets answers)
