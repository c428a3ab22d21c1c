-- ===== src/Supervisor/Recovery/Outcome.antt =====
-- How the trial of a candidate ends.
use zapret_gui.Base.{
  ℕ, ◌≡◌, refl, Bool, true, false, Option, none, some, [], nat_eq, text_eq, inl, inr, ◌⊎◌,
}
use zapret_gui.Base.Dict.{lookup}
use zapret_gui.Result.{Result, ok, err}
use zapret_gui.Text.{Text}
use zapret_gui.Runtime.{valid}
use zapret_gui.Windows.{Windows, World, is_valid}
use zapret_gui.Supervisor.{Setup, switch_to}
use zapret_gui.Supervisor.Switch.{Switched, switch_to-Switched}
use zapret_gui.Supervisor.Recovery.Attempt.{IsKept, Tried, Proof, attempt-Tried, caught-Tried}
use zapret_gui.Supervisor.Recovery.{
  Trial, committed, paused, rejected, attempt, caught, must_restore, if_still, finish, trial,
}

module _ (W : Windows) (S : Setup) (token : ℕ) where
  -- The original strategy is active again, or the operation was superseded.
  abbrev pub IsBack : Text → World W → Type 0
  IsBack original w = (w.app.active_name ≡ some original) ⊎ (valid token w.controller ≡ false)

  abbrev pub Finished : Option Text → Text → Text → Result Trial × World W → Type 0
  Finished s original name (ok committed, w) = IsKept W S token name w
  Finished s original name (ok paused, w) = (w.app.saved ≡ s) × IsBack original w
  Finished s original name (ok rejected, w) = (w.app.saved ≡ s) × IsBack original w
  Finished s original name (err e, w) = w.app.saved ≡ s

  -- A trial that keeps nothing
  abbrev Fails : Result Trial → Type 0
  Fails (ok committed) = ⊥
  Fails (ok paused) = Unit
  Fails (ok rejected) = Unit
  Fails (err e) = Unit

  module _ (s : Option Text) (original name : Text) (n : lookup [] S.presets ≡ none) where
    back-Finished :
        (r : Result Trial) (w : World W)
        → Fails r
        → w.app.saved ≡ s
        → IsBack original w
        → Finished s original name (r, w)
    back-Finished (ok committed) w f h b = absurd f
    back-Finished (ok paused) w f h b = (h, b)
    back-Finished (ok rejected) w f h b = (h, b)
    back-Finished (err e) w f h b = h

    restored-Finished :
        (r : Result Trial) (m : Result Bool × World W)
        → Fails r
        → Switched W S s original m
        → Finished s original name (must_restore W S token r m)
    restored-Finished r (ok true, w) f h = back-Finished r w f h.1 (inl h.0)
    restored-Finished r (ok false, w) f h = h
    restored-Finished r (err e, w) f h = h

    still-Finished :
        (r : Result Trial) (b : Bool) (w : World W)
        → Fails r
        → valid token w.controller ≡ b
        → w.app.saved ≡ s
        → Finished s original name (if_still W S token original r (b, w))
    still-Finished r true w f e h =
        restored-Finished r (switch_to W S original token false w) f
          (switch_to-Switched W S s original token w n h)
    still-Finished r false w f e h = back-Finished r w f h (inr e)

    finish-Finished :
        (m : Result Trial × World W)
        → Tried W S token (Proof W S token s name) s name m
        → Finished s original name (finish W S token original m)
    finish-Finished (ok committed, w) h = h
    finish-Finished (ok paused, w) h =
        still-Finished (ok paused) (is_valid W token w).0 (is_valid W token w).1 tt refl h
    finish-Finished (ok rejected, w) h =
        still-Finished (ok rejected) (is_valid W token w).0 (is_valid W token w).1 tt refl h
    finish-Finished (err e, w) h =
        still-Finished (err e) (is_valid W token w).0 (is_valid W token w).1 tt refl h

    pub trial-Finished :
        (w : World W) → w.app.saved ≡ s → Finished s original name (trial W S token original name w)
    unfolding trial
    trial-Finished w h =
        let m : Result Trial × World W = attempt W S token name w in
        finish-Finished (caught W S token m.0, m.1)
          (caught-Tried W S token s name m (attempt-Tried W S token s name w n h))
