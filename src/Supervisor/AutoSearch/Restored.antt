-- ===== src/Supervisor/AutoSearch/Restored.antt =====
-- What the search gives back.
use zapret_gui.Base.{ℕ, ◌≡◌, Bool, true, false, ◌&&◌, Option, none, some, List, [], ◌∷◌, ◌⊎◌}
use zapret_gui.Result.{Result, ok, err}
use zapret_gui.Text.{Text}
use zapret_gui.Runtime.{valid}
use zapret_gui.Windows.{Windows, World, Exec}
use zapret_gui.Service.{service_running}
use zapret_gui.Supervisor.{Setup, set_busy}
use zapret_gui.Supervisor.AutoSearch.{Progress, own_running}

module _ (W : Windows) (S : Setup) (asked : W.State → Bool) (context : Exec W Text)
    (token : ℕ) where
  -- The service is no longer noted as stopped, and the last thing that was done with Windows is a
  -- query of the service, which answered that it runs.
  abbrev pub IsServiceBack : World W → Type 0
  IsServiceBack w =
      (w.app.svc_stopped ≡ false)
      × (w.app.saved_svc_stopped ≡ false)
      × (v : World W) × (u : World W) × (service_running W v ≡ (true, u))
      × (w.state ≡ u.state)
      × (w.commands ≡ u.commands)

  -- The last thing that was done with Windows is to start the process of the application, with the
  -- original arguments.
  abbrev pub IsProcessBack : List Text → World W → Type 0
  IsProcessBack args w =
      (w.app.active_args ≡ some args)
      × (p : ℕ) × (s : W.State) × (w.app.proc ≡ some p)
      × (W.spawn (S.winws ∷ args) s ≡ (ok p, w.state))

  -- What must be back: the service, or the process of the application, or nothing
  abbrev pub IsBack : Bool → Bool → Option (List Text) → World W → Type 0
  IsBack true own args w = IsServiceBack w
  IsBack false true none w = Unit
  IsBack false true (some []) w = Unit
  IsBack false true (some (x ∷ args)) w = IsProcessBack (x ∷ args) w
  IsBack false false args w = Unit

  -- No trial is left, and what ran before is back, or the search was superseded.
  abbrev pub Restores : Progress → Option (List Text) → Result (Unit {0}) × World W → Type 0
  Restores p args (ok u, w) =
      (w.app.trial ≡ none)
      × ((valid token w.controller ≡ false)
          ⊎ IsBack p.svc_was_running (p.interrupted && p.own_running) args w)
  Restores p args (err e, w) = Unit

  abbrev Back : Bool → Bool → Option (List Text) → Result (Unit {0}) × World W → Type 0
  Back svc own args (ok u, w) = (w.app.trial ≡ none) × IsBack svc own args w
  Back svc own args (err e, w) = Unit

  -- Whether the service was found running, in a search that was begun
  abbrev pub found_service : Bool × World W → Bool
  found_service (b, w) = b && (service_running W (set_busy W S true w)).0
