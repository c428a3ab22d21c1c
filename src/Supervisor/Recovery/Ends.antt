-- ===== src/Supervisor/Recovery/Ends.antt =====
-- How `_recover_impl` ends, whatever Windows, the network and the other threads do.
use zapret_gui.Base.{
  ℕ, ◌≡◌, refl, ap, Bool, true, false, Option, none, some, List, [], ◌∷◌, ◌==◌, nat_eq, text_eq,
  if◌then◌else◌, inl, inr, ◌⊎◌, All,
}
use zapret_gui.Base.Dict.{lookup}
use zapret_gui.Result.{Result, ok, err, superseded}
use zapret_gui.Text.{Text, codes}
use zapret_gui.Windows.{Windows, App, World, Exec, continue, bind, is_valid}
use zapret_gui.Supervisor.{Setup, checked, desired}
use zapret_gui.Supervisor.Recovery.{
  Trial, committed, paused, rejected, is_some, original_of, candidates_of, trial, add_failed, next,
  try_all, switch_away, recover_started, recover,
}
use zapret_gui.Supervisor.Recovery.Candidates.{IsChoice, candidates_of-IsChoice}
use zapret_gui.Supervisor.Recovery.Attempt.{IsKept}
use zapret_gui.Supervisor.Recovery.Outcome.{IsBack, Finished, trial-Finished}

module _ (W : Windows) (S : Setup) (token : ℕ) where
  -- The preset that is kept was one of the choices.
  abbrev Replaced : (Text → Type 0) → World W → Type 0
  Replaced Choice w = (name : Text) × Choice name × IsKept W S token name w

  -- The file of settings is as it was. Where nothing was raised, the preset is the one that was
  -- active before the first trial, or the original one, or the operation was superseded.
  abbrev Settled : App → Text → Result (Unit {0}) × World W → Type 0
  Settled a original (ok u, w) =
      (w.app.saved ≡ a.saved) × ((w.app.active_name ≡ a.active_name) ⊎ IsBack W S token original w)
  Settled a original (err e, w) = w.app.saved ≡ a.saved

  abbrev pub Ends : (Text → Type 0) → App → Text → Result (Unit {0}) × World W → Type 0
  Ends Choice a original m = Replaced Choice m.1 ⊎ Settled a original m

  abbrev Stands : App → Text → World W → Type 0
  Stands a original w =
      (w.app.saved ≡ a.saved) × ((w.app.active_name ≡ a.active_name) ⊎ IsBack W S token original w)

  module _ (Choice : Text → Type 0) (a : App) (original : Text)
      (n : lookup [] S.presets ≡ none) where
    IsBack-add_failed :
        (name : Text) (w : World W)
        → IsBack W S token original w
        → IsBack W S token original (add_failed W S token name w)
    IsBack-add_failed name w (inl h) = inl h
    IsBack-add_failed name w (inr h) = inr h

    next-Ends :
        (name : Text) (rest : Exec W (Unit {0})) (m : Result Trial × World W)
        → Choice name
        → Finished W S token a.saved original name m
        → ((w : World W) → Stands a original w → Ends Choice a original (rest w))
        → Ends Choice a original (continue W m.0 (λ t. next W S token name t rest) m.1)
    next-Ends name rest (ok committed, w) c h k = inl (name, c, h)
    next-Ends name rest (ok paused, w) c h k = inr (h.0, inr h.1)
    next-Ends name rest (ok rejected, w) c h k =
        k (add_failed W S token name w) (h.0, inr (IsBack-add_failed name w h.1))
    next-Ends name rest (err e, w) c h k = inr h

    tried-Ends :
        (name : Text) (rest : Exec W (Unit {0})) (m : Bool × World W)
        → Choice name
        → m.1.app.saved ≡ a.saved
        → ((w : World W) → Stands a original w → Ends Choice a original (rest w))
        → let u = checked W S m in
          Ends Choice a original (
            continue W u.0
              (λ _. bind W (trial W S token original name) λ t. next W S token name t rest)
              u.1)
    tried-Ends name rest (false, w) c h k = inr h
    tried-Ends name rest (true, w) c h k =
        next-Ends name rest (trial W S token original name w) c
          (trial-Finished W S token a.saved original name n w h) k

    try_all-Ends :
        (names : List Text) (w : World W)
        → All Choice names
        → Stands a original w
        → Ends Choice a original (try_all W S token original names w)
    unfolding try_all
    try_all-Ends [] w c h = inr h
    try_all-Ends (name ∷ names) w (c, cs) h =
        tried-Ends name (try_all W S token original names) (is_valid W token w) c h.0
          (λ v k. try_all-Ends names v cs k)

  -- A known preset, other than the original one, that has not failed before
  abbrev Choices : App → Text → Text → Type 0
  Choices a original = IsChoice S.presets original a.failed

  abbrev pub Recovered : App → Option Text → Result (Unit {0}) × World W → Type 0
  Recovered a none m = m.1.app ≡ a
  Recovered a (some original) m = Ends (Choices a original) a original m

  if-Ends :
      (a : App) (original : Text) (b : Bool) (m : Result (Unit {0}) × World W) (w : World W)
      → w.app ≡ a
      → Ends (Choices a original) a original m
      → Ends (Choices a original) a original (if b then m else (ok tt, w))
  if-Ends a original true m w e h = h
  if-Ends a original false m w e h = inr (ap (λ x. x.saved) e, inl (ap (λ x. x.active_name) e))

  module _ (n : lookup [] S.presets ≡ none) where
    away-Ends : (o : Option Text) (w : World W) → Recovered w.app o (switch_away W S token o w)
    away-Ends none w = refl
    away-Ends (some original) w =
        if-Ends w.app original (is_some (lookup original S.presets))
          (try_all W S token original (candidates_of S original w.app.failed) w) w refl
          (try_all-Ends (Choices w.app original) w.app original n
            (candidates_of S original w.app.failed) w
            (candidates_of-IsChoice S original w.app.failed) (refl, inl refl))

    kept-Ends :
        (a : App) (o : Option Text) (r : Result (Unit {0})) (w : World W)
        → w.app ≡ a
        → Recovered a o (r, w)
    kept-Ends a none r w e = e
    kept-Ends a (some original) (ok u) w e =
        inr (ap (λ x. x.saved) e, inl (ap (λ x. x.active_name) e))
    kept-Ends a (some original) (err x) w e = inr (ap (λ x. x.saved) e)

    started-Ends :
        (m : Bool × World W)
        → let u = checked W S m in
          Recovered m.1.app
            (original_of m.1.app)
            (continue W u.0 (λ _ v. switch_away W S token (original_of v.app) v) u.1)
    started-Ends (true, w) = away-Ends (original_of w.app) w
    started-Ends (false, w) = kept-Ends w.app (original_of w.app) (err superseded) w refl

    if-Recovered :
        (a : App) (o : Option Text) (b : Bool) (x y : Result (Unit {0}) × World W)
        → Recovered a o x
        → Recovered a o y
        → Recovered a o (if b then x else y)
    if-Recovered a o true x y h k = h
    if-Recovered a o false x y h k = k

    -- However a recovery ends that may change the strategy, whatever Windows, the network
    -- and the requests of other threads do, where no preset has an empty name and no other
    -- thread writes the fields of the application: without an original strategy these
    -- fields are as they were; otherwise either a strategy is active, chosen and stored
    -- that is a known preset, not the original one, that had not failed before, and to
    -- which a switch in this run answered that it runs, behind which, while it was active,
    -- every host answered all three probes, and from these answers on the trial ended in
    -- the world that the recovery leaves; or the stored strategy is as it was, and, where
    -- nothing was raised, the active strategy is the one from before the first trial or the
    -- original one, or the operation was superseded.
    pub recover-Ends :
        (w : World W) → Recovered w.app (original_of w.app) (recover W S token true w)
    unfolding recover
    recover-Ends w =
        let v : World W = (desired W S w).1 in
        if-Recovered w.app (original_of w.app) ((desired W S w).0 == codes "stopped") (ok tt, v)
          (recover_started W S token true v) (kept-Ends w.app (original_of w.app) (ok tt) v refl)
          (started-Ends (is_valid W token v))
