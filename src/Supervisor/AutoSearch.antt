-- ===== src/Supervisor/AutoSearch.antt =====
-- zapret_app.pyw: `_auto_worker`, the automatic search in the background, and `_search_cancelled`.
-- The trials that run_search makes are any sequence of requests; `recovery_context`, which only
-- reads, and the flags `auto_cancel` and `_closing` are parameters.
pub mod Restored
use zapret_gui.Base.{
  ℕ, Bool, true, false, not, ◌&&◌, ◌||◌, Option, none, some, List, [], ◌∷◌, ◌==◌, text_eq,
  if◌then◌else◌,
}
use zapret_gui.Base.Dict.{Dict}
use zapret_gui.Result.{
  Result, ok, err, Error, runtime_error, value_error, os_error, permission_error, file_not_found,
  superseded, type_error, timeout_expired,
}
use zapret_gui.Text.{Text, codes}
use zapret_gui.Measure.{ProbeResult}
use zapret_gui.Runtime.{valid}
use zapret_gui.Windows.{
  Windows, App, World, Exec, continue, bind, return, raise, act, meanwhile, is_valid,
}
use zapret_gui.Service.{service_running, winws_running, set_service_running, stop_process}
use zapret_gui.Supervisor.{
  Setup, built, or_nil, spawn_winws, stop_local_winws, check, set_busy, measure,
}
use zapret_gui.Supervisor.Start.{forget_trial, forget_stopped}

-- One call of `trial`: the arguments of the preset, the hosts, the samples
pub record Request : Type 0 where
  pub argstr : Text
  pub hosts : List Text
  pub samples : ℕ

-- `svc_was_running`, `own_running`, `interrupted`, `_auto_completed`
pub record Progress : Type 0 where
  pub svc_was_running : Bool
  pub own_running : Bool
  pub interrupted : Bool
  pub completed : Bool

-- `{h: ProbeResult(samples, 0, None, …) for h in hosts}`
abbrev pub failed_probes : ℕ → List Text → Dict Text ProbeResult
failed_probes samples [] = []
failed_probes samples (h ∷ hosts) =
    (h, record { attempts = samples; successes = 0; latency = none; error = some (codes "error") })
    ∷ failed_probes samples hosts

module _ (W : Windows) (S : Setup) (asked : W.State → Bool) (context : Exec W Text)
    (token : ℕ) where
  unfoldable pub search_cancelled : World W → Bool × World W
  search_cancelled w = let v = meanwhile W w in (asked v.state || not (valid token v.controller), v)

  abbrev pub unless_cancelled : {A : Type 0} → Exec W A → Bool × World W → Result A × World W
  unless_cancelled rest (true, w) = (err superseded, w)
  unless_cancelled rest (false, w) = rest w

  -- `if self.runtime.trial.poll() is not None: raise`
  abbrev pub unless_exited : {A : Type 0} → Exec W A → Bool × World W → Result A × World W
  unless_exited rest (true, w) = (err (runtime_error "winws завершился"), w)
  unless_exited rest (false, w) = rest w

  abbrev pub started : Result ℕ × World W → Result ℕ × World W
  started (ok p, w) = (ok p, record w { app = record w.app { trial = some p } })
  started (err e, w) = (err e, w)

  -- The `try` block of `trial`
  abbrev pub probe_trial : Request → ℕ → Exec W (Dict Text ProbeResult)
  probe_trial q p w =
      unless_cancelled
        (λ v.
          unless_exited
            (bind W (measure W S q.hosts q.samples)
              λ probes u. unless_exited (return W probes) (act W (W.exited p) u))
            (act W (W.exited p) v))
        (search_cancelled w)

  abbrev pub start_trial : Request → Exec W (Dict Text ProbeResult)
  start_trial q =
      bind W (λ w. started (act W (W.spawn (S.winws ∷ or_nil (built W S q.argstr))) w))
        λ p. probe_trial q p

  -- `except (OSError, RuntimeError)`
  abbrev pub caught : Request → Result (Dict Text ProbeResult) → Result (Dict Text ProbeResult)
  caught q (ok d) = ok d
  caught q (err (runtime_error s)) = ok (failed_probes q.samples q.hosts)
  caught q (err os_error) = ok (failed_probes q.samples q.hosts)
  caught q (err permission_error) = ok (failed_probes q.samples q.hosts)
  caught q (err file_not_found) = ok (failed_probes q.samples q.hosts)
  caught q (err superseded) = err superseded
  caught q (err (value_error s)) = err (value_error s)
  caught q (err type_error) = err type_error
  caught q (err timeout_expired) = err timeout_expired

  -- `finally: zc.stop_process(self.runtime.trial); self.runtime.trial = None`
  abbrev pub ended :
      Result (Dict Text ProbeResult) × World W → Result (Dict Text ProbeResult) × World W
  ended (r, w) = bind W (stop_process W w.app.trial) (λ _ v. (r, forget_trial W S v)) w

  unfoldable pub trial : Request → Exec W (Dict Text ProbeResult)
  trial q = bind W (check W S token) λ _ w.
      unless_cancelled (λ v. let (r, u) = start_trial q v in ended (caught q r, u))
        (search_cancelled w)

  unfoldable pub trials : List Request → Exec W (Unit {0})
  trials [] w = (ok tt, w)
  trials (q ∷ qs) w = bind W (trial q) (λ _. trials qs) w

  -- `update_config({"svc_stopped_for_search": True})`, then the settings in memory
  abbrev pub mark_svc : List Bool → App → Result (Unit {0}) × App
  mark_svc [] a = (ok tt, record a { svc_stopped = true; saved_svc_stopped = true })
  mark_svc (false ∷ fs) a =
      (ok tt, record a { svc_stopped = true; saved_svc_stopped = true; faults = fs })
  mark_svc (true ∷ fs) a = (err os_error, record a { faults = fs })

  abbrev pub mark_stopped : Exec W (Unit {0})
  mark_stopped w = let (r, a) = mark_svc w.app.faults w.app in (r, record w { app = a })

  -- Up to `interrupted = True`; `found` is what winws_running answered.
  abbrev pub take_over : Bool → Bool → Bool → Exec W (Unit {0})
  take_over svc own found w =
      if found && not (own || svc)
      then (err (runtime_error "Найден winws.exe другой программы; поиск отменён."), w)
      else if svc
      then bind W mark_stopped (λ _. set_service_running W false) w
      else (ok tt, w)

  -- The search was not cancelled, and its conditions are the same as before it.
  abbrev pub confirm : Text → Bool × World W → Result Bool × World W
  confirm before (true, w) = (ok false, w)
  confirm before (false, w) =
      bind W context
        (λ now v.
          if now == before
          then (ok true, v)
          else (err (runtime_error "Условия проверки изменились."), v))
        w

  -- Behind `interrupted = True`: whether the search was completed
  abbrev pub search : List Request → Exec W Bool
  search qs = bind W context λ before.
      bind W (stop_local_winws W S false)
        λ _. bind W (trials qs) λ _ w. confirm before (search_cancelled w)

  abbrev pub is_completed : Result Bool → Bool
  is_completed (ok b) = b
  is_completed (err e) = false

  abbrev pub searched : Bool → Bool → Result Bool × World W → Progress × World W
  searched svc own (r, w) = (
    record {
      svc_was_running = svc;
      own_running = own;
      interrupted = true;
      completed = is_completed r;
    },
    w,
  )

  abbrev pub taken : Bool → Bool → List Request → Result (Unit {0}) × World W → Progress × World W
  taken svc own qs (ok u, w) = searched svc own (search qs w)
  taken svc own qs (err e, w) = (
    record { svc_was_running = svc; own_running = own; interrupted = false; completed = false },
    w,
  )

  -- `bool(self.proc and self.proc.poll() is None)`
  abbrev pub own_running : Option ℕ → World W → Bool × World W
  own_running none w = (false, w)
  own_running (some p) w = let (b, v) = act W (W.exited p) w in (not b, v)

  abbrev pub run_body : List Request → World W → Progress × World W
  run_body qs w =
      let (svc, v) = service_running W w in
      let (own, u) = own_running v.app.proc v in
      let (found, x) = winws_running W u in taken svc own qs (take_over svc own found x)

  abbrev pub not_begun : Progress
  not_begun = record {
    svc_was_running = false;
    own_running = false;
    interrupted = false;
    completed = false;
  }

  abbrev pub release : Progress × World W → Progress × World W
  release (p, w) = (p, set_busy W S false w)

  abbrev pub run_if : List Request → Bool × World W → Progress × World W
  run_if qs (true, w) = release (run_body qs (set_busy W S true w))
  run_if qs (false, w) = (not_begun, w)

  -- `_spawn_winws` of the original arguments, where there are any
  abbrev pub spawn_original : Bool → Option (List Text) → Option Text → Exec W (Unit {0})
  spawn_original b none name w = (ok tt, w)
  spawn_original b (some []) name w = (ok tt, w)
  spawn_original b (some (x ∷ args)) name w =
      if b then spawn_winws W S (x ∷ args) name w else (ok tt, w)

  abbrev pub give_back : Progress → Option (List Text) → Option Text → Exec W (Unit {0})
  give_back p args name w =
      if p.svc_was_running
      then bind W (set_service_running W true) (λ _. forget_stopped W S) w
      else spawn_original (p.interrupted && p.own_running) args name w

  abbrev pub give_back_if :
      Progress → Option (List Text) → Option Text → Bool × World W → Result (Unit {0}) × World W
  give_back_if p args name (true, w) = give_back p args name w
  give_back_if p args name (false, w) = (ok tt, w)

  -- The outer `finally`
  unfoldable pub restore : Progress → Option (List Text) → Option Text → Exec W (Unit {0})
  restore p args name w =
      bind W (stop_process W w.app.trial)
        (λ _ v. give_back_if p args name (is_valid W token (forget_trial W S v))) w

  -- Whether the search is completed in the end, how far it came, and how the restoration ended
  unfoldable pub auto_worker : List Request → World W → Progress × (Result (Unit {0}) × World W)
  auto_worker qs w =
      let (p, v) = run_if qs (is_valid W token w) in
      (p, restore p w.app.active_args w.app.active_name v)
