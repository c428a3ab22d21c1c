-- ===== src/Measure.antt =====
-- zapret_measurements.py: `ProbeResult`, `probe` and `measure_hosts`. Latencies are numbers of
-- microseconds. What the network and the caller's `cancelled` answer is given for each sample.
pub mod Counts
use zapret_gui.Base.{
  ℕ, zero, suc, ◌+◌, ◌-◌, ◌/◌, ◌%◌, Bool, true, false, not, ◌&&◌, ◌||◌, Option, none, some, List,
  [], ◌∷◌, ◌++◌, ◌==◌, contains, nat_eq, text_eq, if◌then◌else◌, ltb, length, drop, sort_by,
}
use zapret_gui.Base.Dict
use zapret_gui.Base.Dict.{Dict}
use zapret_gui.Text.{Text, codes}

pub record ProbeResult : Type 0 where
  pub attempts : ℕ
  pub successes : ℕ
  pub latency : Option ℕ
  pub error : Option Text

abbrev is_cancelled : Option Text → Bool
is_cancelled none = false
is_cancelled (some e) = e == codes "cancelled"

unfoldable pub reliable : ProbeResult → Bool
unfolding nat_eq text_eq
reliable r = r.successes == r.attempts && ltb 0 r.attempts && not (is_cancelled r.error)

-- One sample: `cancelled()` is true, or the handshake took a time, or it raised an error of this
-- class
pub data Sample : Type 0 where
  cancelled : Sample
  latency : ℕ → Sample
  failed : Text → Sample

abbrev ltb_before : ℕ → ℕ → Bool
ltb_before a b = ltb a b

abbrev nth : ℕ → List ℕ → ℕ
nth n [] = 0
nth zero (x ∷ xs) = x
nth (suc n) (x ∷ xs) = nth n xs

-- `statistics.median`, of an even number of values rounded down to a microsecond
unfoldable pub median : List ℕ → Option ℕ
unfolding sort_by nat_eq
median [] = none
median (x ∷ xs) =
    let s = sort_by ltb_before (x ∷ xs) in
    let n = length (x ∷ xs) in
    some (if n % 2 == 1 then nth (n / 2) s else (nth (n / 2 - 1) s + nth (n / 2) s) / 2)

-- The loop: the latencies so far, the last error, the samples that were attempted
unfoldable pub probe_from : ℕ → List ℕ → Option Text → List Sample → ProbeResult
unfolding median
probe_from attempted latencies error [] = record {
  attempts = attempted;
  successes = length latencies;
  latency = median latencies;
  error = error;
}
probe_from attempted latencies error (cancelled ∷ rest) = record {
  attempts = attempted;
  successes = length latencies;
  latency = median latencies;
  error = some (codes "cancelled");
}
probe_from attempted latencies error (latency l ∷ rest) =
    probe_from (attempted + 1) (latencies ++ l ∷ []) error rest
probe_from attempted latencies error (failed e ∷ rest) =
    probe_from (attempted + 1) latencies (some e) rest

unfoldable pub probe : List Sample → ProbeResult
unfolding probe_from
probe samples = probe_from 0 [] none samples

-- `list(dict.fromkeys(hosts))`
unfoldable pub distinct_from : List Text → List Text → List Text
unfolding text_eq
distinct_from seen [] = []
distinct_from seen (h ∷ hs) =
    let skip = distinct_from seen hs in
    let more = h ∷ distinct_from (h ∷ seen) hs in if contains seen h then skip else more

probe_all : (Text → List Sample) → List Text → Dict Text ProbeResult
probe_all network [] = []
probe_all network (h ∷ hs) = (h, probe (network h)) ∷ probe_all network hs

abbrev measure_distinct : (Text → List Sample) → ℕ → List Text → Option (Dict Text ProbeResult)
measure_distinct network samples [] = some []
measure_distinct network samples (h ∷ hs) =
    if samples == 0 then none else some (probe_all network (h ∷ hs))

-- `measure_hosts`, none for the ValueError; the network answers each host with its samples.
unfoldable pub measure_hosts : (Text → List Sample) → List Text → ℕ → Option (Dict Text ProbeResult)
unfolding distinct_from probe_all probe nat_eq
measure_hosts network hosts samples = measure_distinct network samples (distinct_from [] hosts)
