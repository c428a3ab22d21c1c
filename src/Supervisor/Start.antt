-- ===== src/Supervisor/Start.antt =====
-- zapret_app.pyw: the workers of `on_start`, `on_stop` and `on_install_service`, each in its
-- transition; what they report to the log and to the windows behind it is left out.
pub mod Stopped
use zapret_gui.Base.{
  ℕ, Bool, true, false, not, ◌||◌, Option, none, some, List, [], ◌∷◌, ◌==◌, text_eq, if◌then◌else◌,
}
use zapret_gui.Result.{Result, ok, err, Error, runtime_error, os_error}
use zapret_gui.Text.{Text, codes}
use zapret_gui.Runtime.{set_desired}
use zapret_gui.Windows.{Windows, App, World, Exec, continue, bind, return, meanwhile}
use zapret_gui.Service.{
  service_running, winws_running, set_service_running, stop_process, enable_tcp_timestamps,
}
use zapret_gui.Service.Install.{Installed, install_service}
use zapret_gui.Supervisor.{
  Setup, spawn_winws, stop_local_winws, check, transition, keep_strategy, is_invalid,
}

module _ (W : Windows) (S : Setup) where
  -- `zc.service_running() or zc.winws_running()`
  abbrev pub or_winws : Bool × World W → Bool × World W
  or_winws (true, w) = (true, w)
  or_winws (false, w) = winws_running W w

  unfoldable pub bypass_running : World W → Bool × World W
  bypass_running w = or_winws (service_running W w)

  abbrev pub set_active : List Text → Text → World W → World W
  set_active args name w = record w {
    app = record w.app { active_args = some args; active_name = some name };
  }

  -- `self.runtime.set_desired(token, "service" if zc.service_running() else "stopped")`
  abbrev pub desire_found : ℕ → Bool × World W → World W
  desire_found token (b, w) =
      let v = meanwhile W w in
      record v {
        controller =
            set_desired token (if b then codes "service" else codes "stopped") v.controller;
      }

  abbrev pub start_winws : List Text → Text → ℕ → Exec W (Unit {0})
  start_winws args name token = bind W (check W S token) λ _ w.
      bind W (check W S token)
        (λ _. bind W (spawn_winws W S args (some name)) λ _. keep_strategy W S name)
        (enable_tcp_timestamps W (set_active args name w))

  abbrev pub unless_found : List Text → Text → ℕ → Bool × World W → Result (Unit {0}) × World W
  unless_found args name token (true, w) = (
    err (runtime_error "Обход уже запущен службой или другой программой."),
    desire_found token (service_running W w),
  )
  unless_found args name token (false, w) = start_winws args name token w

  unfoldable pub start_worker : List Text → Text → ℕ → Exec W (Unit {0})
  start_worker args name token =
      transition W S token λ w. unless_found args name token (bypass_running w)

  -- `finally: self._stop_local_winws()`: an exception of its own takes the place of the first.
  abbrev pub finally_stop : Result (Unit {0}) × World W → Result (Unit {0}) × World W
  finally_stop (r, w) = bind W (stop_local_winws W S true) (λ _ v. (r, v)) w

  abbrev pub stop_if : Bool × World W → Result (Unit {0}) × World W
  stop_if (true, w) = set_service_running W false w
  stop_if (false, w) = (ok tt, w)

  -- `update_config({}, remove=("svc_stopped_for_search",))`, then the settings in memory
  abbrev pub forget_svc : List Bool → App → Result (Unit {0}) × App
  forget_svc [] a = (ok tt, record a { svc_stopped = false; saved_svc_stopped = false })
  forget_svc (false ∷ fs) a =
      (ok tt, record a { svc_stopped = false; saved_svc_stopped = false; faults = fs })
  forget_svc (true ∷ fs) a = (err os_error, record a { faults = fs })

  abbrev pub forget_stopped : Exec W (Unit {0})
  forget_stopped w = let (r, a) = forget_svc w.app.faults w.app in (r, record w { app = a })

  abbrev pub forget_trial : World W → World W
  forget_trial w = record w { app = record w.app { trial = none } }

  abbrev pub stop_service : Exec W (Unit {0})
  stop_service w = finally_stop (stop_if (service_running W w))

  unfoldable pub stop_worker : ℕ → Exec W (Unit {0})
  stop_worker token = transition W S token λ w.
      bind W (stop_process W w.app.trial)
        (λ _ v. bind W stop_service (λ _. forget_stopped) (forget_trial v)) w

  unfoldable pub install_worker : Option (List Text) → Text → ℕ → Exec W Installed
  install_worker args name token = transition W S token (
      bind W (stop_local_winws W S true) λ _. bind W (check W S token) λ _.
        bind W (install_service W S.quote S.winws (is_invalid W S token) name args)
          λ r. bind W (check W S token) λ _. return W r)
