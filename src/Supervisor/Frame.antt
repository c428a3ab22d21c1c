-- ===== src/Supervisor/Frame.antt =====
-- The commands of the service and of the processes leave the fields of the application as they are.
pub mod Install
use zapret_gui.Base.{
  ℕ, zero, suc, ◌≡◌, refl, ◌∙◌, Bool, true, false, Option, none, some, List, [], ◌∷◌, ◌==◌, bool_eq,
  nat_eq, if◌then◌else◌, Bool-cases, inl, inr,
}
use zapret_gui.Result.{
  Result, ok, err, Error, runtime_error, value_error, os_error, permission_error, file_not_found,
  superseded, type_error, timeout_expired, is_os_error,
}
use zapret_gui.Text.{Text, codes}
use zapret_gui.Windows.{Answer, Windows, World, Exec, continue, bind, act, run_hidden}
use zapret_gui.Service.{
  service_running, service_installed, poll, or_raise, unless_running, not_changed,
  set_service_running, net_verb, service_name, enable_tcp_timestamps, tcp_timestamps_enabled,
  set_timestamps, show_timestamps, is_yes, read_timestamps, after_wait, end_process, ended,
  not_stopped, stop_alive, stop_process,
}
use zapret_gui.Service.Install.{
  Installed, start_command, describe_command, register_command, create_command, unless_cancelled,
  started, verify, start_stage, describe_stage, created, create_as, create_stage, prepared, stopped,
  stop_stage, install_service,
}

module _ (W : Windows) where
  app-if :
      (b : Bool) (w v v' : World W)
      → v.app ≡ w.app
      → v'.app ≡ w.app
      → (if b then v else v').app ≡ w.app
  app-if true w v v' h k = h
  app-if false w v v' h k = k

  pub app-service_running : (w : World W) → (service_running W w).1.app ≡ w.app
  unfolding service_running
  app-service_running w = refl

  pub app-service_installed : (w : World W) → (service_installed W w).1.app ≡ w.app
  unfolding service_installed
  app-service_installed w = refl

  app-poll :
      (n : ℕ) (wanted : Bool) (w : World W) → (poll W n (service_running W) wanted w).1.app ≡ w.app
  unfolding poll
  app-poll zero wanted w = refl
  app-poll (suc n) wanted w = elim (Bool-cases ((service_running W w).0 == wanted)) [
    | inl e ↦ rw e (app-service_running w)
    | inr e ↦ rw e (app-poll n wanted (service_running W w).1 ∙ app-service_running w)
  ]

  app-or_raise : (e : Error) (m : Bool × World W) → (or_raise W e m).1.app ≡ m.1.app
  app-or_raise e (true, w) = refl
  app-or_raise e (false, w) = refl

  app-changed :
      (b : Bool) (m : Result Answer × World W)
      → (continue W m.0
          (λ result v. or_raise W not_changed (poll W 20 (service_running W) b v))
          m.1).1.app
        ≡ m.1.app
  app-changed b (ok a, v) =
      app-or_raise not_changed (poll W 20 (service_running W) b v) ∙ app-poll 20 b v
  app-changed b (err e, v) = refl

  app-unless : (b : Bool) (m : Bool × World W) → (unless_running W b m).1.app ≡ m.1.app
  app-unless b (x, v) = elim (Bool-cases (x == b)) [
    | inl e ↦ rw e refl
    | inr e ↦ rw e (app-changed b (run_hidden W (codes "net" ∷ net_verb b ∷ service_name ∷ []) v))
  ]

  pub app-set_service_running : (b : Bool) (w : World W) → (set_service_running W b w).1.app ≡ w.app
  unfolding set_service_running
  app-set_service_running b w = app-unless b (service_running W w) ∙ app-service_running w

  pub app-enable_tcp_timestamps : (w : World W) → (enable_tcp_timestamps W w).app ≡ w.app
  unfolding enable_tcp_timestamps tcp_timestamps_enabled
  app-enable_tcp_timestamps w =
      let v : World W = (run_hidden W show_timestamps w).1 in
      app-if (is_yes (read_timestamps (run_hidden W show_timestamps w).0)) w v (set_timestamps W v)
        refl refl

  app-killed :
      (p : ℕ) (m : Result (Unit {0}) × World W)
      → (continue W m.0 (λ _. act W (W.wait_exit p)) m.1).1.app ≡ m.1.app
  app-killed p (ok u, v) = refl
  app-killed p (err e, v) = refl

  app-after_wait : (p : ℕ) (m : Result (Unit {0}) × World W) → (after_wait W p m).1.app ≡ m.1.app
  app-after_wait p (ok u, v) = refl
  app-after_wait p (err timeout_expired, v) = app-killed p (act W (W.kill p) v)
  app-after_wait p (err (runtime_error s), v) = refl
  app-after_wait p (err (value_error s), v) = refl
  app-after_wait p (err os_error, v) = refl
  app-after_wait p (err permission_error, v) = refl
  app-after_wait p (err file_not_found, v) = refl
  app-after_wait p (err superseded, v) = refl
  app-after_wait p (err type_error, v) = refl

  app-terminated :
      (p : ℕ) (m : Result (Unit {0}) × World W)
      → (continue W m.0 (λ _ v. after_wait W p (act W (W.wait_exit p) v)) m.1).1.app ≡ m.1.app
  app-terminated p (ok u, v) = app-after_wait p (act W (W.wait_exit p) v)
  app-terminated p (err e, v) = refl

  app-end_process : (p : ℕ) (w : World W) → (end_process W p w).1.app ≡ w.app
  app-end_process p w = app-terminated p (act W (W.terminate p) w)

  app-not_stopped : (p : ℕ) (m : Bool × World W) → (not_stopped W p m).1.app ≡ m.1.app
  app-not_stopped p (true, w) = refl
  app-not_stopped p (false, w) = refl

  app-ended : (p : ℕ) (m : Result (Unit {0}) × World W) → (ended W p m).1.app ≡ m.1.app
  app-ended p (ok u, w) = refl
  app-ended p (err e, w) = elim (Bool-cases (is_os_error e)) [
    | inl y ↦ rw y (app-not_stopped p (act W (W.exited p) w))
    | inr n ↦ rw n refl
  ]

  app-stop_alive : (p : ℕ) (m : Bool × World W) → (stop_alive W p m).1.app ≡ m.1.app
  app-stop_alive p (true, w) = refl
  app-stop_alive p (false, w) = app-ended p (end_process W p w) ∙ app-end_process p w

  pub app-stop_process : (p : Option ℕ) (w : World W) → (stop_process W p w).1.app ≡ w.app
  unfolding stop_process
  app-stop_process none w = refl
  app-stop_process (some p) w = app-stop_alive p (act W (W.exited p) w)
