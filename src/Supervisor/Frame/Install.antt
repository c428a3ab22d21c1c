-- ===== src/Supervisor/Frame/Install.antt =====
-- An installation of the service leaves the fields of the application as they are.
use zapret_gui.Base.{
  ◌≡◌, refl, ◌∙◌, Bool, true, false, Option, none, some, List, [], ◌∷◌, ◌==◌, bool_eq, nat_eq,
  Bool-cases, inl, inr,
}
use zapret_gui.Result.{
  Result, ok, err, runtime_error, value_error, os_error, permission_error, file_not_found,
  superseded, type_error, timeout_expired,
}
use zapret_gui.Text.{Text}
use zapret_gui.Windows.{Answer, Windows, World, Exec, continue, bind, run_hidden}
use zapret_gui.Service.{
  service_running, service_installed, set_service_running, enable_tcp_timestamps,
}
use zapret_gui.Service.Install.{
  Installed, start_command, describe_command, register_command, create_command, unless_cancelled,
  started, verify, start_stage, describe_stage, created, create_as, create_stage, prepared, stopped,
  stop_stage, install_service,
}
use zapret_gui.Supervisor.Frame.{
  app-service_running, app-service_installed, app-set_service_running, app-enable_tcp_timestamps,
}

module _ (W : Windows) (quote : List Text → Text) (winws : Text)
    (is_cancelled : World W → Bool × World W)
    (kept : (w : World W) → (is_cancelled w).1.app ≡ w.app) where
  app-unless_cancelled :
      (rest : Exec W Installed) (w : World W) (m : Bool × World W)
      → is_cancelled w ≡ m
      → ((v : World W) → (rest v).1.app ≡ v.app)
      → (unless_cancelled W quote winws is_cancelled rest w).1.app ≡ w.app
  app-unless_cancelled rest w (true, v) e k = rw e (rw e at (kept w))
  app-unless_cancelled rest w (false, v) e k = rw e (k v ∙ (rw e at (kept w)))

  app-started : (m : Bool × World W) → (started W quote winws is_cancelled m).1.app ≡ m.1.app
  app-started (true, w) = refl
  app-started (false, w) = refl

  app-verify :
      (sres : Answer) (w : World W) → (verify W quote winws is_cancelled sres w).1.app ≡ w.app
  app-verify sres w = elim (Bool-cases (sres.code == 0)) [
    | inl e ↦ rw e (app-started (service_running W w) ∙ app-service_running W w)
    | inr e ↦ rw e refl
  ]

  app-registered :
      (sres : Answer) (m : Result Answer × World W)
      → (continue W m.0 (λ _. verify W quote winws is_cancelled sres) m.1).1.app ≡ m.1.app
  app-registered sres (ok a, w) = app-verify sres w
  app-registered sres (err e, w) = refl

  app-start :
      (name : Text) (m : Result Answer × World W)
      → (continue W m.0
          (λ sres.
            bind W
              (run_hidden W (register_command name))
              (λ _. verify W quote winws is_cancelled sres))
          m.1).1.app
        ≡ m.1.app
  app-start name (ok a, w) = app-registered a (run_hidden W (register_command name) w)
  app-start name (err e, w) = refl

  app-start_stage :
      (name : Text) (w : World W) → (start_stage W quote winws is_cancelled name w).1.app ≡ w.app
  unfolding start_stage
  app-start_stage name w = app-start name (run_hidden W start_command w)

  app-describe :
      (name : Text) (m : Result Answer × World W)
      → (continue W m.0
          (λ _.
            unless_cancelled W quote winws is_cancelled
              (start_stage W quote winws is_cancelled name))
          m.1).1.app
        ≡ m.1.app
  app-describe name (ok a, w) =
      app-unless_cancelled (start_stage W quote winws is_cancelled name) w (is_cancelled w) refl
        (app-start_stage name)
  app-describe name (err e, w) = refl

  app-describe_stage :
      (name : Text) (w : World W) → (describe_stage W quote winws is_cancelled name w).1.app ≡ w.app
  unfolding describe_stage
  app-describe_stage name w = app-describe name (run_hidden W describe_command w)

  app-created :
      (name : Text) (m : Result Answer × World W)
      → (continue W m.0 (created W quote winws is_cancelled name) m.1).1.app ≡ m.1.app
  app-created name (err e, w) = refl
  app-created name (ok res, w) = elim (Bool-cases (res.code == 0)) [
    | inl e ↦ rw e (app-describe_stage name w)
    | inr e ↦ rw e refl
  ]

  app-create_as :
      (name path : Text) (m : Bool × World W)
      → (create_as W quote winws is_cancelled name path m).1.app ≡ m.1.app
  app-create_as name path (b, w) = app-created name (run_hidden W (create_command b path) w)

  app-create_stage :
      (name : Text) (args : List Text) (w : World W)
      → (create_stage W quote winws is_cancelled name args w).1.app ≡ w.app
  unfolding create_stage
  app-create_stage name args w =
      app-create_as name (quote (winws ∷ args)) (service_installed W w) ∙ app-service_installed W w

  app-prepared :
      (name : Text) (args : List Text) (w : World W)
      → (prepared W quote winws is_cancelled name args w).1.app ≡ w.app
  app-prepared name args w =
      let v : World W = enable_tcp_timestamps W w in
      app-unless_cancelled (create_stage W quote winws is_cancelled name args) v (is_cancelled v)
        refl (app-create_stage name args)
      ∙ app-enable_tcp_timestamps W w

  app-stopped :
      (name : Text) (args : List Text) (m : Result (Unit {0}) × World W)
      → (stopped W quote winws is_cancelled name args m).1.app ≡ m.1.app
  app-stopped name args (ok x, w) = app-prepared name args w
  app-stopped name args (err (runtime_error x), w) = refl
  app-stopped name args (err (value_error x), w) = refl
  app-stopped name args (err os_error, w) = refl
  app-stopped name args (err permission_error, w) = refl
  app-stopped name args (err file_not_found, w) = refl
  app-stopped name args (err superseded, w) = refl
  app-stopped name args (err type_error, w) = refl
  app-stopped name args (err timeout_expired, w) = refl

  app-stop_stage :
      (name : Text) (args : List Text) (m : Bool × World W)
      → (stop_stage W quote winws is_cancelled name args m).1.app ≡ m.1.app
  app-stop_stage name args (false, w) = app-prepared name args w
  app-stop_stage name args (true, w) =
      app-stopped name args (set_service_running W false w) ∙ app-set_service_running W false w

  pub app-install_service :
      (name : Text) (args : Option (List Text)) (w : World W)
      → (install_service W quote winws is_cancelled name args w).1.app ≡ w.app
  unfolding install_service
  app-install_service name none w = refl
  app-install_service name (some []) w = refl
  app-install_service name (some (x ∷ args)) w =
      app-unless_cancelled
        (λ v. stop_stage W quote winws is_cancelled name (x ∷ args) (service_installed W v)) w
        (is_cancelled w) refl
        (λ v. app-stop_stage name (x ∷ args) (service_installed W v) ∙ app-service_installed W v)
