-- ===== src/Supervisor/Start/Stopped.antt =====
-- What a stop guarantees, and what a start does beside a bypass that is found running.
use zapret_gui.Base.{ℕ, ◌≡◌, refl, sym, ◌∙◌, ap, Bool, true, false, none, List, [], ◌∷◌, text_eq}
use zapret_gui.Result.{Result, ok, err}
use zapret_gui.Windows.{Windows, App, World, continue, bind, return, is_valid}
use zapret_gui.Service.{service_running, set_service_running, stop_process}
use zapret_gui.Service.Ended.{IsEnded, stop_process-IsEnded}
use zapret_gui.Service.Stops.{Answered, set_service_running-Answered}
use zapret_gui.Supervisor.{
  Setup, forget_proc, stop_local_winws, checked, set_busy, entered, released,
}
use zapret_gui.Supervisor.Frame.{app-service_running, app-set_service_running, app-stop_process}
use zapret_gui.Supervisor.Start.{
  finally_stop, stop_if, forget_svc, forget_stopped, forget_trial, stop_service, stop_worker,
}

module _ (W : Windows) (S : Setup) where
  -- This application runs nothing, and forgot what it ran.
  abbrev pub IsIdle : App → Type 0
  IsIdle a =
      (a.proc ≡ none)
      × (a.active_args ≡ none)
      × (a.active_name ≡ none)
      × (a.trial ≡ none)
      × (a.svc_stopped ≡ false)
      × (a.saved_svc_stopped ≡ false)

  -- What was ended in a stop that began in `u`: the trial, up to `v`; then the service, if it ran, up
  -- to `y`, which is just behind a query that said it does not run; then the own process.
  pub record Ended (u w' : World W) : Type 0 where
    pub v : World W
    pub y : World W
    pub trial : IsEnded W u.app.trial u.state v.state
    pub service : stop_if W S (service_running W (forget_trial W S v)) ≡ (ok tt, y)
    pub down : Answered W (service_running W) false y
    pub own : IsEnded W u.app.proc y.state w'.state

  stop_if-Answered :
      (w y : World W) (m : Bool × World W)
      → service_running W w ≡ m
      → stop_if W S m ≡ (ok tt, y)
      → Answered W (service_running W) false y
  stop_if-Answered w y (false, x) e h = (w, e ∙ ap (λ n. (false, n.1)) h)
  stop_if-Answered w y (true, x) e h =
      let a : Answered W (service_running W) false (set_service_running W false x).1 =
        set_service_running-Answered W false x (ap (λ n. n.0) h) in
      (a.0, a.1 ∙ ap (λ n. (false, n.1)) h)

  app-stop_if : (m : Bool × World W) → (stop_if W S m).1.app ≡ m.1.app
  app-stop_if (true, w) = app-set_service_running W false w
  app-stop_if (false, w) = refl

  abbrev pub Stops : World W → Result (Unit {0}) × World W → Type 0
  Stops u (ok x, w) = IsIdle w.app × Ended u w
  Stops u (err e, w) = Unit

  abbrev Emptied : App → Type 0
  Emptied a = (a.proc ≡ none) × (a.active_args ≡ none) × (a.active_name ≡ none) × (a.trial ≡ none)

  abbrev Cleared : World W → Result (Unit {0}) × World W → Type 0
  Cleared u (ok x, w) = Emptied w.app × Ended u w
  Cleared u (err e, w) = Unit

  local-Cleared :
      (u v y : World W) (m : Result Bool × World W)
      → stop_process W y.app.proc y ≡ m
      → m.1.app.trial ≡ none
      → y.app.proc ≡ u.app.proc
      → IsEnded W u.app.trial u.state v.state
      → stop_if W S (service_running W (forget_trial W S v)) ≡ (ok tt, y)
      → let n =
          continue W m.0 (λ _ v. return W tt (record v { app = forget_proc W S true v.app })) m.1 in
        Cleared u (continue W n.0 (λ _ v. (ok tt, v)) n.1)
  local-Cleared u v y (ok b, w) e h p t s = (
    (refl, refl, refl, h),
    record {
      v = v;
      y = y;
      trial = t;
      service = s;
      down =
          stop_if-Answered (forget_trial W S v) y (service_running W (forget_trial W S v)) refl s;
      own = rw p at (rw e at (stop_process-IsEnded W y.app.proc b y (ap (λ n. n.0) e)));
    },
  )
  local-Cleared u v y (err x, w) e h p t s = tt

  finally-Cleared :
      (u v : World W) (m : Result (Unit {0}) × World W)
      → stop_if W S (service_running W (forget_trial W S v)) ≡ m
      → m.1.app ≡ (forget_trial W S v).app
      → v.app ≡ u.app
      → IsEnded W u.app.trial u.state v.state
      → Cleared u (finally_stop W S m)
  unfolding stop_local_winws
  finally-Cleared u v (ok tt, y) e a b t =
      local-Cleared u v y (stop_process W y.app.proc y) refl
        (ap (λ a. a.trial) (app-stop_process W y.app.proc y) ∙ ap (λ a. a.trial) a)
        (ap (λ a. a.proc) a ∙ ap (λ a. a.proc) b) t e
  finally-Cleared u v (err x, y) e a b t = failed (stop_process W y.app.proc y)
    where
      failed :
          (m : Result Bool × World W)
          → let n =
              continue W m.0
                (λ _ v. return W tt (record v { app = forget_proc W S true v.app }))
                m.1 in
            Cleared u (continue W n.0 (λ _ v. (err x, v)) n.1)
      failed (ok b, w) = tt
      failed (err z, w) = tt

  service-Cleared :
      (u v : World W)
      → v.app ≡ u.app
      → IsEnded W u.app.trial u.state v.state
      → Cleared u (stop_service W S (forget_trial W S v))
  service-Cleared u v b t =
      let m = service_running W (forget_trial W S v) in
      finally-Cleared u v (stop_if W S m) refl
        (app-stop_if m ∙ app-service_running W (forget_trial W S v)) b t

  forget-Stops :
      (u : World W) (m : Result (Unit {0}) × World W)
      → Cleared u m
      → Stops u (continue W m.0 (λ _. forget_stopped W S) m.1)
  forget-Stops u (err e, w) h = tt
  forget-Stops u (ok x, w) h = go w.app.faults
    where
      again : (a : App) → Ended u (record w { app = a })
      again a = record {
        v = h.1.v;
        y = h.1.y;
        trial = h.1.trial;
        service = h.1.service;
        down = h.1.down;
        own = h.1.own;
      }

      go :
          (fs : List Bool)
          → let n = forget_svc W S fs w.app in Stops u (n.0, record w { app = n.1 })
      go [] = ((h.0.0, h.0.1, h.0.2, h.0.3, refl, refl), again _)
      go (false ∷ fs) = ((h.0.0, h.0.1, h.0.2, h.0.3, refl, refl), again _)
      go (true ∷ fs) = tt

  trial-Stops :
      (u : World W) (m : Result Bool × World W)
      → stop_process W u.app.trial u ≡ m
      → Stops u (
          continue W m.0
            (λ _ v. bind W (stop_service W S) (λ _. forget_stopped W S) (forget_trial W S v))
            m.1)
  trial-Stops u (ok b, v) e = forget-Stops u (stop_service W S (forget_trial W S v)) (
      service-Cleared u v (ap (λ n. n.1.app) (sym e) ∙ app-stop_process W u.app.trial u)
        (rw e at (stop_process-IsEnded W u.app.trial b u (ap (λ n. n.0) e))))
  trial-Stops u (err e, w) f = tt

  released-Stops :
      (u : World W) (m : Result (Unit {0}) × World W) → Stops u m → Stops u (released W S m)
  released-Stops u (ok x, w) h = (
    h.0,
    record {
      v = h.1.v;
      y = h.1.y;
      trial = h.1.trial;
      service = h.1.service;
      down = h.1.down;
      own = h.1.own;
    },
  )
  released-Stops u (err e, w) h = tt

  -- A stop that raises nothing leaves the application with no process, no trial and no active
  -- strategy, and forgets the service that was stopped for a search. In its run the trial had
  -- ended, by the last answer of Windows about it; then the service was stopped where it ran,
  -- up to a query which said that it does not run; and right behind that query the own
  -- process had ended, where there was one, by the answer that left Windows in its final
  -- state.
  pub stop_worker-Stops :
      (token : ℕ) (w : World W)
      → Stops (set_busy W S true (is_valid W token w).1) (stop_worker W S token w)
  unfolding stop_worker
  stop_worker-Stops token w = enter (is_valid W token w)
    where
      enter :
          (m : Bool × World W)
          → Stops (set_busy W S true m.1) (
              entered W S
                (λ v.
                  bind W
                    (stop_process W v.app.trial)
                    (λ _ u.
                      bind W (stop_service W S) (λ _. forget_stopped W S) (forget_trial W S u))
                    v)
                (checked W S m))
      enter (false, v) = tt
      enter (true, v) =
          let u : World W = set_busy W S true v in
          released-Stops u
            (bind W (stop_process W u.app.trial)
              (λ _ x. bind W (stop_service W S) (λ _. forget_stopped W S) (forget_trial W S x)) u)
            (trial-Stops u (stop_process W u.app.trial u) refl)
