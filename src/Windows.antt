-- ===== src/Windows.antt =====
-- What zapret_core.py and zapret_app.pyw do to Windows: hidden commands (`run_hidden`), the process
-- winws.exe (`start_winws_logged`), the probes of hosts, and what other threads do to the
-- controller and to Windows between two steps. All of it is a parameter, of which nothing is
-- assumed. The state of the application that these act on is `World`. Not modelled is that the
-- workers of zapret_app.pyw, which run in other threads, write fields of the application too
-- (`active_preset_name`, the strategy in the settings and in their file): a run here is one in
-- which no other thread writes these fields.
use zapret_gui.Base.{ℕ, Bool, Option, List, ◌∷◌}
use zapret_gui.Result.{Result, ok, err, Error}
use zapret_gui.Text.{Text}
use zapret_gui.Runtime.{Controller, valid}
use zapret_gui.Measure.{Sample}

-- `subprocess.CompletedProcess`
pub record Answer : Type 0 where
  pub code : ℕ
  pub output : Text
  pub errors : Text

pub record Windows : Type 1 where
  pub State : Type 0
  pub run : List Text → State → Result Answer × State
  -- `subprocess.Popen` of winws.exe: the process it starts
  pub spawn : List Text → State → Result ℕ × State
  -- `proc.poll() is not None`
  pub exited : ℕ → State → Bool × State
  pub terminate : ℕ → State → Result (Unit {0}) × State
  pub kill : ℕ → State → Result (Unit {0}) × State
  pub wait_exit : ℕ → State → Result (Unit {0}) × State
  -- What the hosts answer to this number of samples
  pub observe : ℕ → State → (Text → List Sample) × State
  -- What the other threads do before the next step of this one
  pub others : State → Controller → Controller × State

-- The fields of the application: `proc`, `active_args`, `active_preset_name`, `cfg["strategy"]`,
-- the strategy in the file of settings, `_recovery_failed`, `_restart_exhausted`, `runtime.trial`,
-- and whether the settings and their file have `svc_stopped_for_search`; `faults` says which of the
-- writes of the settings fail.
pub record App : Type 0 where
  pub proc : Option ℕ
  pub active_args : Option (List Text)
  pub active_name : Option Text
  pub strategy : Option Text
  pub saved : Option Text
  pub failed : List Text
  pub exhausted : Option ℕ
  pub trial : Option ℕ
  pub svc_stopped : Bool
  pub saved_svc_stopped : Bool
  pub faults : List Bool

module _ (W : Windows) where
  -- The commands are those that were run, the last one first.
  pub record World : Type 0 where
    pub state : W.State
    pub commands : List (List Text)
    pub controller : Controller
    pub app : App

  abbrev pub Exec : Type 0 → Type 0
  Exec A = World → Result A × World

  abbrev pub continue : {A B : Type 0} → Result A → (A → Exec B) → Exec B
  continue (ok x) f w = f x w
  continue (err e) f w = (err e, w)

  abbrev pub bind : {A B : Type 0} → Exec A → (A → Exec B) → Exec B
  bind m f w = let (r, w') = m w in continue r f w'

  abbrev pub raise : {A : Type 0} → Error → Exec A
  raise e w = (err e, w)

  abbrev pub return : {A : Type 0} → A → Exec A
  return x w = (ok x, w)

  -- An action of Windows
  abbrev pub act : {A : Type 0} → (W.State → A × W.State) → World → A × World
  act m w = let (x, s) = m w.state in (x, record w { state = s })

  abbrev pub run_hidden : List Text → Exec Answer
  run_hidden cmd w =
      let (r, s) = W.run cmd w.state in (r, record w { state = s; commands = cmd ∷ w.commands })

  -- What other threads do between two steps
  abbrev pub meanwhile : World → World
  meanwhile w = let (c, s) = W.others w.state w.controller in record w { state = s; controller = c }

  -- `self.runtime.valid(token)`
  abbrev pub is_valid : ℕ → World → Bool × World
  is_valid token w = let v = meanwhile w in (valid token v.controller, v)
