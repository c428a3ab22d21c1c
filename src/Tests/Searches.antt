-- ===== src/Tests/Searches.antt =====
-- The controller, the measurements and the search at concrete data.
use mathlib.Core.List.{Perm}
use zapret_gui.Base.{
  ◌≡◌, ◌≤◌, refl, Bool, false, ◌&&◌, none, some, List, [], ◌∷◌, map, text_eq, nat_eq, all, ltb,
  length,
}
use zapret_gui.Base.Dict.{Dict}
use zapret_gui.Result.{Result, ok}
use zapret_gui.Text.{Text, codes}
use zapret_gui.Runtime.{Controller, init, request, valid, close}
use zapret_gui.Runtime.Tokens.{here, then, closes, request-supersedes}
use zapret_gui.Measure.{Sample, latency, failed, probe, reliable}
use zapret_gui.Measure.Counts.{is_latency, probe_lem}
use zapret_gui.Ranking.{Preset}
use zapret_gui.Search.{SearchResult, Probes, Trial, result_of, run_search}
use zapret_gui.Search.Complete.{run_search-Perm}

abbrev start : Controller
start = init (codes "off")

abbrev asked : Controller
asked = (request (some (codes "on")) none start).1

request-supersedes_example : valid start.token (close asked) ≡ false
request-supersedes_example =
    request-supersedes (some (codes "on")) start (close asked) (then here (closes asked))

abbrev switch_off : Controller → Result Bool × Controller
switch_off s = (ok s.busy, record s { desired = codes "off" })

abbrev samples : List Sample
samples = latency 30 ∷ failed (codes "TimeoutError") ∷ latency 10 ∷ []

probed : (probe samples).successes ≡ 2
unfolding probe
probed = refl

abbrev trial : Trial
trial p hosts n = answer hosts
  where
    answer : List Text → Probes
    answer [] = []
    answer (h ∷ hs) = (h, probe (latency 20 ∷ [])) ∷ answer hs

abbrev targets : Dict Text Text
targets = (codes "s", codes "h") ∷ []

abbrev presets : List Preset
presets = record { name = codes "A"; args = [] } ∷ record { name = codes "B"; args = [] } ∷ []

run_search-Perm_example :
    (results : List SearchResult) × (run_search trial targets [] false presets [] ≡ some results)
    × Perm results (map (result_of trial targets [] false) presets)
run_search-Perm_example = run_search-Perm trial targets [] presets

probe_lem_example :
    ((probe samples).successes ≤ (probe samples).attempts)
    × ((probe samples).attempts ≤ length samples)
    × (reliable (probe samples) ≡ (all is_latency samples && ltb 0 (length samples)))
probe_lem_example = probe_lem samples
