-- ===== src/Supervisor/Recovery/Restart.antt =====
-- A restart of what is active never changes the choice of the strategy.
use zapret_gui.Base.{
  ℕ, ◌≡◌, refl, Bool, true, false, Option, none, some, List, [], ◌∷◌, ◌==◌, nat_eq, text_eq,
  if◌then◌else◌,
}
use zapret_gui.Result.{
  Result, ok, err, runtime_error, value_error, os_error, permission_error, file_not_found,
  superseded, type_error, timeout_expired,
}
use zapret_gui.Text.{Text, codes}
use zapret_gui.Windows.{Windows, App, World, Exec, continue, bind, return, act, is_valid}
use zapret_gui.Service.{set_service_running, stop_process}
use zapret_gui.Supervisor.{
  Setup, recovery_hosts, spawned, spawn_winws, forget_proc, stop_local_winws,
  managed_bypass_running, checked, check, set_busy, entered, released, transition, desired, measure,
}
use zapret_gui.Supervisor.Frame.{app-set_service_running, app-stop_process}
use zapret_gui.Supervisor.Steps.{app-check, app-measure, app-managed_bypass_running}
use zapret_gui.Supervisor.Recovery.{
  restart_service, restart_process, restart_body, confirm, examine_restart, if_restarted,
  watchdog_restart, attempted, after_delay, restarts, exhaust, restart, is_token, delays,
  recover_started, recover,
}

-- The choice in the settings and in their file, and what was found failing
abbrev pub SameChoice : App → App → Type 0
SameChoice a b = (b.strategy ≡ a.strategy) × (b.saved ≡ a.saved) × (b.failed ≡ a.failed)

module _ (W : Windows) (S : Setup) (token : ℕ) (a : App) where
  abbrev I : App → Type 0
  I = SameChoice a

  abbrev P : {A : Type 0} → Result A × World W → Type 0
  P (r, w) = SameChoice a w.app

  if-P : {A : Type 0} (b : Bool) (m n : Result A × World W) → P m → P n → P (if b then m else n)
  if-P true m n h k = h
  if-P false m n h k = k

  bind-P :
      {A B : Type 0} (m : Result A × World W) (f : A → Exec W B)
      → P m
      → ((x : A) (v : World W) → I v.app → P (f x v))
      → P (continue W m.0 f m.1)
  bind-P (ok x, v) f h k = k x v h
  bind-P (err e, v) f h k = h

  stop_local-P : (w : World W) → I w.app → P (stop_local_winws W S false w)
  unfolding stop_local_winws
  stop_local-P w h =
      bind-P (stop_process W w.app.proc w)
        (λ _ v. return W tt (record v { app = forget_proc W S false v.app }))
        (rw (app-stop_process W w.app.proc w) h) (λ b v k. k)

  check-P : (w : World W) → I w.app → P (check W S token w)
  check-P w h = rw (app-check W S token w) h

  spawned-P :
      (args : List Text) (name : Option Text) (m : Result ℕ × World W)
      → P m
      → P (spawned W S args name m)
  spawned-P args name (ok p, w) h = h
  spawned-P args name (err e, w) h = h

  spawn-P :
      (args : List Text) (name : Option Text) (w : World W)
      → I w.app
      → P (spawn_winws W S args name w)
  unfolding spawn_winws
  spawn-P args name w h = spawned-P args name (act W (W.spawn (S.winws ∷ args)) w) h

  service-P : (b : Bool) (w : World W) → I w.app → P (set_service_running W b w)
  service-P b w h = rw (app-set_service_running W b w) h

  restart_service-P : (w : World W) → I w.app → P (restart_service W S token w)
  restart_service-P w h =
      bind-P (set_service_running W false w)
        (λ _. bind W (check W S token) λ _. bind W (set_service_running W true) λ _. return W true)
        (service-P false w h)
        (λ _ v k.
          bind-P (check W S token v) (λ _. bind W (set_service_running W true) λ _. return W true)
            (check-P v k)
            (λ _ u l.
              bind-P (set_service_running W true u) (λ _. return W true) (service-P true u l)
                (λ _ x o. o)))

  restart_process-P :
      (o : Option (List Text)) (w : World W) → I w.app → P (restart_process W S token o w)
  restart_process-P none w h = h
  restart_process-P (some []) w h = h
  restart_process-P (some (y ∷ args)) w h =
      bind-P (stop_local_winws W S false w)
        (λ _.
          bind W (check W S token)
            λ _ v. bind W (spawn_winws W S (y ∷ args) v.app.active_name) (λ _. return W true) v)
        (stop_local-P w h)
        (λ _ v k.
          bind-P (check W S token v)
            (λ _ u. bind W (spawn_winws W S (y ∷ args) u.app.active_name) (λ _. return W true) u)
            (check-P v k)
            (λ _ u l.
              bind-P (spawn_winws W S (y ∷ args) u.app.active_name u) (λ _. return W true)
                (spawn-P (y ∷ args) u.app.active_name u l) (λ _ x o. o)))

  restart_body-P : (w : World W) → I w.app → P (restart_body W S token w)
  restart_body-P w h =
      let v : World W = (desired W S w).1 in
      let d : Text = (desired W S w).0 in
      let m : Result Bool × World W = restart_service W S token v in
      let n : Result Bool × World W = restart_process W S token v.app.active_args v in
      if-P (d == codes "stopped") (ok false, v) (if d == codes "service" then m else n) h
        (if-P (d == codes "service") m n (restart_service-P v h)
          (restart_process-P v.app.active_args v h))

  released-P : (m : Result Bool × World W) → P m → P (released W S m)
  released-P (r, w) h = h

  entered-P :
      (m : Bool × World W) → I m.1.app → P (entered W S (restart_body W S token) (checked W S m))
  entered-P (true, w) h =
      released-P (restart_body W S token (set_busy W S true w))
        (restart_body-P (set_busy W S true w) h)
  entered-P (false, w) h = h

  examine-P : (m : Bool × World W) → I m.1.app → P (examine_restart W S token m)
  examine-P (false, w) h = h
  examine-P (true, w) h =
      bind-P (measure W S (recovery_hosts S.services) 1 w)
        (λ results.
          bind W (check W S token) λ _ v. confirm W S token results (managed_bypass_running W S v))
        (rw (app-measure W S (recovery_hosts S.services) 1 w) h)
        (λ results v k.
          bind-P (check W S token v)
            (λ _ u. confirm W S token results (managed_bypass_running W S u)) (check-P v k)
            (λ _ u l. rw (app-managed_bypass_running W S u) l))

  watchdog_restart-P : (w : World W) → I w.app → P (watchdog_restart W S token w)
  unfolding watchdog_restart
  watchdog_restart-P w h =
      bind-P (transition W S token (restart_body W S token) w) (if_restarted W S token)
        (entered-P (is_valid W token w) h) done
    where
      done : (b : Bool) (v : World W) → I v.app → P (if_restarted W S token b v)
      done false v k = k
      done true v k = examine-P (is_valid W token v) k

  attempted-P :
      (rest : Exec W Bool) (m : Result Bool × World W)
      → P m
      → ((v : World W) → I v.app → P (rest v))
      → P (attempted W S token rest m)
  attempted-P rest (ok true, w) h k = h
  attempted-P rest (ok false, w) h k = k w h
  attempted-P rest (err superseded, w) h k = h
  attempted-P rest (err (runtime_error x), w) h k = k w h
  attempted-P rest (err (value_error x), w) h k = k w h
  attempted-P rest (err os_error, w) h k = k w h
  attempted-P rest (err permission_error, w) h k = k w h
  attempted-P rest (err file_not_found, w) h k = k w h
  attempted-P rest (err timeout_expired, w) h k = k w h
  attempted-P rest (err type_error, w) h k = k w h

  delayed-P :
      (rest : Exec W Bool) (m : Bool × World W)
      → I m.1.app
      → ((v : World W) → I v.app → P (rest v))
      → P (after_delay W S token rest m)
  delayed-P rest (false, w) h k = h
  delayed-P rest (true, w) h k =
      attempted-P rest (watchdog_restart W S token w) (watchdog_restart-P w h) k

  restarts-P : (ds : List ℕ) (w : World W) → I w.app → P (restarts W S token ds w)
  unfolding restarts
  restarts-P [] w h = h
  restarts-P (d ∷ ds) w h = delayed-P (restarts W S token ds) (is_valid W token w) h (restarts-P ds)

  exhaust-P : (b : Bool) (w : World W) → I w.app → P (exhaust W S token b w)
  exhaust-P true w h = h
  exhaust-P false w h = h

  restart-P : (w : World W) → I w.app → P (restart W S token w)
  restart-P w h =
      if-P (is_token W S token w.app.exhausted) (ok tt, w)
        (bind W (restarts W S token (delays W S token)) (exhaust W S token) w) h
        (bind-P (restarts W S token (delays W S token) w) (exhaust W S token)
          (restarts-P (delays W S token) w h) exhaust-P)

  started-P :
      (m : Bool × World W)
      → I m.1.app
      → let u = checked W S m in P (continue W u.0 (λ _. restart W S token) u.1)
  started-P (true, w) h = restart-P w h
  started-P (false, w) h = h

  recover-P : (w : World W) → I w.app → P (recover W S token false w)
  unfolding recover
  recover-P w h =
      let v : World W = (desired W S w).1 in
      if-P ((desired W S w).0 == codes "stopped") (ok tt, v) (recover_started W S token false v) h
        (started-P (is_valid W token v) h)

pub recover-SameChoice :
    (W : Windows) (S : Setup) (token : ℕ) (w : World W)
    → SameChoice w.app (recover W S token false w).1.app
recover-SameChoice W S token w = recover-P W S token w.app w (refl, refl, refl)
