-- ===== src/Supervisor/Watchdog/Failures.antt =====
-- When the watchdog takes a service for failing.
use zapret_gui.Base.{
  ℕ, ◌+◌, ◌≡◌, refl, ◌∙◌, ap, Bool, true, false, not, ◌&&◌, none, some, List, [], ◌∷◌, ◌==◌,
  text_eq, if◌then◌else◌, leb, any, All, Bool-cases, inl, inr, arith,
}
use zapret_gui.Base.Dict.{Dict, lookup, NodupKeys}
use zapret_gui.Text.{Text}
use zapret_gui.Supervisor.Watchdog.{fail_threshold, or_zero, count_failures, any_failing, values}

-- The counts after these checks of the same services, the last one first
abbrev pub counts : Dict Text Text → List (Text → Bool) → Dict Text ℕ
counts hosts [] = []
counts hosts (is_up ∷ earlier) = count_failures (counts hosts earlier) is_up hosts

-- How many of the last checks of this host failed in a row
abbrev pub failed_row : Text → List (Text → Bool) → ℕ
failed_row host [] = 0
failed_row host (is_up ∷ earlier) = if is_up host then 0 else failed_row host earlier + 1

lookup-count_failures :
    (failures : Dict Text ℕ) (is_up : Text → Bool) (hosts : Dict Text Text) (key host : Text)
    → lookup key hosts ≡ some host
    → or_zero (lookup key (count_failures failures is_up hosts))
      ≡ (if is_up host then 0 else or_zero (lookup key failures) + 1)
unfolding count_failures lookup
lookup-count_failures failures is_up [] key host h = cc
lookup-count_failures failures is_up ((k, x) ∷ hosts) key host h = elim (Bool-cases (key == k)) [
  | inl e ↦ ground (arith, h)
  | inr e ↦ rw e (lookup-count_failures failures is_up hosts key host (rw e at h))
]

lookup-counts :
    (hosts : Dict Text Text) (checks : List (Text → Bool)) (key host : Text)
    → lookup key hosts ≡ some host
    → or_zero (lookup key (counts hosts checks)) ≡ failed_row host checks
unfolding lookup
lookup-counts hosts [] key host h = refl
lookup-counts hosts (is_up ∷ earlier) key host h =
    lookup-count_failures (counts hosts earlier) is_up hosts key host h
    ∙ ap (λ n. if is_up host then 0 else n + 1) (lookup-counts hosts earlier key host h)

abbrev Fits : Dict Text Text → Text × Text → Type 0
Fits hosts (key, host) = lookup key hosts ≡ some host

Fits_cons :
    (k x key host : Text) (d : Dict Text Text)
    → lookup k d ≡ none
    → lookup key d ≡ some host
    → lookup key ((k, x) ∷ d) ≡ some host
unfolding lookup
Fits_cons k x key host d n h = elim (Bool-cases (key == k)) [
  | inl e ↦ absurd (ground (arith, e, n, h))
  | inr e ↦ rw e h
]

All-Fits_cons :
    (k x : Text) (d es : Dict Text Text)
    → lookup k d ≡ none
    → All (Fits d) es
    → All (Fits ((k, x) ∷ d)) es
All-Fits_cons k x d [] n h = tt
All-Fits_cons k x d ((key, host) ∷ es) n (h, hs) =
    (Fits_cons k x key host d n h, All-Fits_cons k x d es n hs)

Fits_here : (k x : Text) (d : Dict Text Text) → lookup k ((k, x) ∷ d) ≡ some x
unfolding lookup
Fits_here k x d = elim (Bool-cases (k == k)) [ inl e ↦ rw e refl | inr e ↦ ground arith ]

All-Fits : (d : Dict Text Text) → NodupKeys d → All (Fits d) d
All-Fits [] h = tt
All-Fits ((k, x) ∷ d) (n, h) = (Fits_here k x d, All-Fits_cons k x d d n (All-Fits d h))

abbrev pub both_failed : (Text → Bool) → (Text → Bool) → Text → Bool
both_failed now before host = not (now host) && not (before host)

reaches :
    (a b : Bool) (m n : ℕ)
    → m ≡ (if b then 0 else n + 1)
    → leb fail_threshold (if a then 0 else m + 1) ≡ (not a && not b)
reaches true b m n h = refl
reaches false true m n h = rw h refl
reaches false false m n h = ground (arith, h)

failing_row :
    (now before : Text → Bool) (failures : Dict Text ℕ) (hosts es : Dict Text Text)
    → All (Fits hosts) es
    → any_failing (count_failures (count_failures failures before hosts) now es)
      ≡ any (both_failed now before) (values es)
unfolding any_failing count_failures
failing_row now before failures hosts [] h = refl
failing_row now before failures hosts ((key, host) ∷ es) (h, hs) =
    rw
      (reaches (now host) (before host)
        (or_zero (lookup key (count_failures failures before hosts)))
        (or_zero (lookup key failures)) (lookup-count_failures failures before hosts key host h))
      (rw (failing_row now before failures hosts es hs) refl)

-- For services with different keys, after two checks or more, the watchdog takes the services
-- for failing exactly when one of the hosts failed both of the last two checks.
pub any_failing-counts :
    (hosts : Dict Text Text) (now before : Text → Bool) (earlier : List (Text → Bool))
    → NodupKeys hosts
    → any_failing (counts hosts (now ∷ before ∷ earlier))
      ≡ any (both_failed now before) (values hosts)
any_failing-counts hosts now before earlier n =
    failing_row now before (counts hosts earlier) hosts hosts (All-Fits hosts n)
