-- ===== src/Supervisor/Steps.antt =====
-- Single steps of the supervisor and the fields that they keep.
use zapret_gui.Base.{
  ℕ, ◌≡◌, refl, ◌∙◌, ap, Bool, true, false, Option, none, some, List, nat_eq, text_eq,
}
use zapret_gui.Base.Dict.{Dict}
use zapret_gui.Result.{Result, ok, err, Error}
use zapret_gui.Text.{Text}
use zapret_gui.Measure.{ProbeResult, measure_hosts}
use zapret_gui.Windows.{Windows, App, World, Exec, continue, return, act, is_valid}
use zapret_gui.Service.{stop_process}
use zapret_gui.Supervisor.{
  Setup, forget_proc, stop_local_winws, or_service, or_managed, managed_bypass_running, checked,
  check, measured, measure,
}
use zapret_gui.Supervisor.Frame.{app-service_running, app-stop_process}

module _ (W : Windows) (S : Setup) where
  -- A step that keeps a property of the fields, and what follows it
  pub continue_lem :
      {A B : Type 0} (I : App → Type 0) (P : Result B × World W → Type 0) (m : Result A × World W)
      (f : A → Exec W B)
      → I m.1.app
      → ((e : Error) (v : World W) → I v.app → P (err e, v))
      → ((x : A) (v : World W) → I v.app → P (f x v))
      → P (continue W m.0 f m.1)
  continue_lem I P (ok x, v) f h k l = l x v h
  continue_lem I P (err e, v) f h k l = k e v h

  abbrev pub Saved : Option Text → App → Type 0
  Saved s a = a.saved ≡ s

  pub app-measured :
      (r : Option (Dict Text ProbeResult)) (w : World W) → (measured W S r w).1.app ≡ w.app
  app-measured none w = refl
  app-measured (some d) w = refl

  pub app-measure :
      (hosts : List Text) (n : ℕ) (w : World W) → (measure W S hosts n w).1.app ≡ w.app
  unfolding measure
  app-measure hosts n w =
      app-measured (measure_hosts (act W (W.observe n) w).0 hosts n) (act W (W.observe n) w).1

  app-or_service : (m : Bool × World W) → (or_service W S m).1.app ≡ m.1.app
  app-or_service (true, w) = app-service_running W w
  app-or_service (false, w) = refl

  app-or_managed : (p : Option ℕ) (w : World W) → (or_managed W S p w).1.app ≡ w.app
  app-or_managed none w = app-service_running W w
  app-or_managed (some p) w = app-or_service (act W (W.exited p) w)

  pub app-managed_bypass_running : (w : World W) → (managed_bypass_running W S w).1.app ≡ w.app
  unfolding managed_bypass_running
  app-managed_bypass_running w = app-or_managed w.app.proc w

  app-checked : (m : Bool × World W) → (checked W S m).1.app ≡ m.1.app
  app-checked (true, w) = refl
  app-checked (false, w) = refl

  pub app-check : (token : ℕ) (w : World W) → (check W S token w).1.app ≡ w.app
  app-check token w = app-checked (is_valid W token w)

  saved-stop :
      (s : Option Text) (m : Result Bool × World W)
      → m.1.app.saved ≡ s
      → (continue W m.0
          (λ _ v. return W tt (record v { app = forget_proc W S false v.app }))
          m.1).1.app.saved
        ≡ s
  saved-stop s (ok b, v) h = h
  saved-stop s (err e, v) h = h

  pub saved-stop_local_winws :
      (s : Option Text) (w : World W)
      → w.app.saved ≡ s
      → (stop_local_winws W S false w).1.app.saved ≡ s
  unfolding stop_local_winws
  saved-stop_local_winws s w h =
      saved-stop s (stop_process W w.app.proc w)
        (ap (λ a. a.saved) (app-stop_process W w.app.proc w) ∙ h)
