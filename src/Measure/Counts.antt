-- ===== src/Measure/Counts.antt =====
-- What the numbers of a `ProbeResult` say about the samples.
use zapret_gui.Base.{
  ℕ, suc, ◌+◌, ◌≤◌, ◌≡◌, ◌∙◌, ap, Bool, true, false, ◌&&◌, Option, none, some, List, [], ◌∷◌, ◌++◌,
  nat_eq, text_eq, ltb, length, arith, length-append, all,
}
use zapret_gui.Text.{Text, codes}
use zapret_gui.Measure.{
  ProbeResult, Sample, cancelled, latency, failed, median, probe, probe_from, reliable,
}

abbrev pub is_latency : Sample → Bool
is_latency (latency l) = true
is_latency cancelled = false
is_latency (failed e) = false

probe_from-bounds :
    (a : ℕ) (ls : List ℕ) (e : Option Text) (ss : List Sample)
    → length ls ≤ a
    → ((probe_from a ls e ss).successes ≤ (probe_from a ls e ss).attempts)
      × ((probe_from a ls e ss).attempts ≤ a + length ss)
unfolding probe_from
probe_from-bounds a ls e [] h = (h, omega arith)
probe_from-bounds a ls e (cancelled ∷ ss) h = (h, omega arith)
probe_from-bounds a ls e (latency l ∷ ss) h =
    let (p, q) =
      probe_from-bounds (a + 1) (ls ++ l ∷ []) e ss (omega (arith, length-append ls (l ∷ []))) in
    (p, omega (arith, q))
probe_from-bounds a ls e (failed x ∷ ss) h =
    let (p, q) = probe_from-bounds (a + 1) ls (some x) ss (omega arith) in (p, omega (arith, q))

-- No more samples succeed than were attempted, and no more are attempted than were asked for.
probe_bounds :
    (ss : List Sample)
    → ((probe ss).successes ≤ (probe ss).attempts) × ((probe ss).attempts ≤ length ss)
unfolding probe
probe_bounds ss = let (p, q) = probe_from-bounds 0 [] none ss (omega arith) in (p, omega (arith, q))

-- Behind a failure the samples can no longer all succeed.
probe_from-behind :
    (a : ℕ) (ls : List ℕ) (e : Option Text) (ss : List Sample)
    → suc (length ls) ≤ a
    → suc (probe_from a ls e ss).successes ≤ (probe_from a ls e ss).attempts
unfolding probe_from
probe_from-behind a ls e [] h = h
probe_from-behind a ls e (cancelled ∷ ss) h = h
probe_from-behind a ls e (latency l ∷ ss) h =
    probe_from-behind (a + 1) (ls ++ l ∷ []) e ss (omega (arith, length-append ls (l ∷ [])))
probe_from-behind a ls e (failed x ∷ ss) h = probe_from-behind (a + 1) ls (some x) ss (omega arith)

reliable_of_less : (r : ProbeResult) → suc r.successes ≤ r.attempts → reliable r ≡ false
unfolding reliable
reliable_of_less r h = ground arith

reliable_end :
    (n : ℕ) (m : Option ℕ)
    → reliable (record { attempts = n; successes = n; latency = m; error = none })
      ≡ (true && ltb 0 (n + 0))
unfolding reliable
reliable_end n m = ground arith

reliable_cancelled :
    (n k : ℕ) (m : Option ℕ)
    → reliable
        (record { attempts = n; successes = k; latency = m; error = some (codes "cancelled") })
      ≡ false
unfolding reliable
reliable_cancelled n k m = ground arith

reliable_from :
    (ls : List ℕ) (ss : List Sample)
    → reliable (probe_from (length ls) ls none ss)
      ≡ (all is_latency ss && ltb 0 (length ls + length ss))
unfolding probe_from
reliable_from ls [] = reliable_end (length ls) (median ls)
reliable_from ls (cancelled ∷ ss) = reliable_cancelled (length ls) (length ls) (median ls)
reliable_from ls (latency l ∷ ss) =
    let e : length ls + 1 ≡ length (ls ++ l ∷ []) = omega (arith, length-append ls (l ∷ [])) in
    rw e (
      reliable_from (ls ++ l ∷ []) ss
      ∙ ap (λ n. all is_latency ss && ltb 0 n) (omega (arith, length-append ls (l ∷ []))))
reliable_from ls (failed x ∷ ss) =
    reliable_of_less (probe_from (length ls + 1) ls (some x) ss)
      (probe_from-behind (length ls + 1) ls (some x) ss (omega arith))

-- A host is reliable exactly when there was a sample and each was a handshake in time.
reliable-probe : (ss : List Sample) → reliable (probe ss) ≡ (all is_latency ss && ltb 0 (length ss))
unfolding probe
reliable-probe ss = reliable_from [] ss ∙ ap (λ n. all is_latency ss && ltb 0 n) (omega arith)

-- No more samples succeed than were attempted, no more are attempted than were asked for, and a
-- host is reliable exactly when there was a sample and each was a handshake in time.
pub probe_lem :
    (ss : List Sample)
    → ((probe ss).successes ≤ (probe ss).attempts)
      × ((probe ss).attempts ≤ length ss)
      × (reliable (probe ss) ≡ (all is_latency ss && ltb 0 (length ss)))
probe_lem ss = ((probe_bounds ss).0, (probe_bounds ss).1, reliable-probe ss)
