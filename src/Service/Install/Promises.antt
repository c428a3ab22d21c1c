-- ===== src/Service/Install/Promises.antt =====
-- How an installation of the service ends.
use zapret_gui.Base.{
  ◌≡◌, refl, Bool, true, false, Option, none, some, List, [], ◌∷◌, ◌==◌, bool_eq, nat_eq, text_eq,
  Bool-cases, inl, inr,
}
use zapret_gui.Result.{
  Result, ok, err, runtime_error, value_error, os_error, permission_error, file_not_found,
  superseded, type_error, timeout_expired,
}
use zapret_gui.Text.{Text}
use zapret_gui.Windows.{Answer, Windows, World, Exec, continue, bind, run_hidden}
use zapret_gui.Service.{
  service_installed, service_running, set_service_running, enable_tcp_timestamps,
}
use zapret_gui.Service.Stops.{Answered}
use zapret_gui.Service.Install.{
  Installed, installed, not_parsed, cancelled, not_stopped, not_created, not_started, start_command,
  describe_command, register_command, create_command, unless_cancelled, started, verify,
  start_stage, describe_stage, created, create_as, create_stage, prepared, stopped, stop_stage,
  install_service,
}
use zapret_gui.Service.Install.Quiet.{
  is_start, IsQuiet, IsQuiet-refl, IsQuiet-trans, IsQuiet-run, IsQuiet-service_installed,
  IsQuiet-set_service_running, IsQuiet-enable_tcp_timestamps,
}

module _ (W : Windows) (quote : List Text → Text) (winws : Text)
    (is_cancelled : World W → Bool × World W)
    (quiet : (w : World W) → IsQuiet W w (is_cancelled w).1) where
  -- What each end of the installation promises of the world before it and behind it
  abbrev pub Promises : World W → Result Installed → World W → Type 0
  Promises w (err e) w' = Unit
  Promises w (ok installed) w' = Answered W (service_running W) true w'
  Promises w (ok not_started) w' = Unit
  Promises w (ok not_parsed) w' = IsQuiet W w w'
  Promises w (ok cancelled) w' = IsQuiet W w w'
  Promises w (ok not_stopped) w' = IsQuiet W w w'
  Promises w (ok not_created) w' = IsQuiet W w w'

  cancelled-Promises :
      (u : World W) (rest : Exec W Installed) (m : Bool × World W) (w : World W)
      → is_cancelled w ≡ m
      → IsQuiet W u w
      → ((v : World W) → IsQuiet W u v → Promises u (rest v).0 (rest v).1)
      → let n = unless_cancelled W quote winws is_cancelled rest w in Promises u n.0 n.1
  cancelled-Promises u rest (true, v) w e q k = rw e (IsQuiet-trans W u w v q (rw e at (quiet w)))
  cancelled-Promises u rest (false, v) w e q k =
      rw e (k v (IsQuiet-trans W u w v q (rw e at (quiet w))))

  started-Promises :
      (u v : World W) (m : Bool × World W)
      → service_running W v ≡ m
      → let n = started W quote winws is_cancelled m in Promises u n.0 n.1
  started-Promises u v (true, w) e = (v, e)
  started-Promises u v (false, w) e = tt

  verify-Promises :
      (u : World W) (sres : Answer) (w : World W)
      → let n = verify W quote winws is_cancelled sres w in Promises u n.0 n.1
  verify-Promises u sres w = elim (Bool-cases (sres.code == 0)) [
    | inl e ↦ rw e (started-Promises u w (service_running W w) refl)
    | inr e ↦ rw e tt
  ]

  registered-Promises :
      (u : World W) (sres : Answer) (m : Result Answer × World W)
      → let n = continue W m.0 (λ _. verify W quote winws is_cancelled sres) m.1 in
        Promises u n.0 n.1
  registered-Promises u sres (ok a, w) = verify-Promises u sres w
  registered-Promises u sres (err e, w) = tt

  start-Promises :
      (u : World W) (name : Text) (m : Result Answer × World W)
      → let n =
          continue W m.0
            (λ sres.
              bind W
                (run_hidden W (register_command name))
                (λ _. verify W quote winws is_cancelled sres))
            m.1 in
        Promises u n.0 n.1
  start-Promises u name (ok a, w) = registered-Promises u a (run_hidden W (register_command name) w)
  start-Promises u name (err e, w) = tt

  start_stage-Promises :
      (u : World W) (name : Text) (w : World W)
      → let n = start_stage W quote winws is_cancelled name w in Promises u n.0 n.1
  unfolding start_stage
  start_stage-Promises u name w = start-Promises u name (run_hidden W start_command w)

  describe-Promises :
      (u : World W) (name : Text) (m : Result Answer × World W)
      → IsQuiet W u m.1
      → let n =
          continue W m.0
            (λ _.
              unless_cancelled W quote winws is_cancelled
                (start_stage W quote winws is_cancelled name))
            m.1 in
        Promises u n.0 n.1
  describe-Promises u name (ok a, w) q =
      cancelled-Promises u (start_stage W quote winws is_cancelled name) (is_cancelled w) w refl q
        (λ v k. start_stage-Promises u name v)
  describe-Promises u name (err e, w) q = tt

  describe-ne : is_start describe_command ≡ false
  unfolding is_start
  describe-ne = refl

  describe_stage-Promises :
      (u : World W) (name : Text) (w : World W)
      → IsQuiet W u w
      → let n = describe_stage W quote winws is_cancelled name w in Promises u n.0 n.1
  unfolding describe_stage
  describe_stage-Promises u name w q = describe-Promises u name (run_hidden W describe_command w) (
      IsQuiet-trans W u w (run_hidden W describe_command w).1 q
        (IsQuiet-run W describe_command w describe-ne))

  created-Promises :
      (u : World W) (name : Text) (m : Result Answer × World W)
      → IsQuiet W u m.1
      → let n = continue W m.0 (created W quote winws is_cancelled name) m.1 in Promises u n.0 n.1
  created-Promises u name (err e, w) q = tt
  created-Promises u name (ok res, w) q = elim (Bool-cases (res.code == 0)) [
    | inl e ↦ rw e (describe_stage-Promises u name w q)
    | inr e ↦ rw e q
  ]

  create-ne : (b : Bool) (path : Text) → is_start (create_command b path) ≡ false
  unfolding is_start
  create-ne true path = refl
  create-ne false path = refl

  create_as-Promises :
      (u : World W) (name path : Text) (m : Bool × World W)
      → IsQuiet W u m.1
      → let n = create_as W quote winws is_cancelled name path m in Promises u n.0 n.1
  create_as-Promises u name path (b, w) q =
      created-Promises u name (run_hidden W (create_command b path) w) (
        IsQuiet-trans W u w (run_hidden W (create_command b path) w).1 q
          (IsQuiet-run W (create_command b path) w (create-ne b path)))

  create_stage-Promises :
      (u : World W) (name : Text) (args : List Text) (w : World W)
      → IsQuiet W u w
      → let n = create_stage W quote winws is_cancelled name args w in Promises u n.0 n.1
  unfolding create_stage
  create_stage-Promises u name args w q =
      create_as-Promises u name (quote (winws ∷ args)) (service_installed W w)
        (IsQuiet-trans W u w (service_installed W w).1 q (IsQuiet-service_installed W w))

  prepared-Promises :
      (u : World W) (name : Text) (args : List Text) (w : World W)
      → IsQuiet W u w
      → let n = prepared W quote winws is_cancelled name args w in Promises u n.0 n.1
  prepared-Promises u name args w q =
      let v : World W = enable_tcp_timestamps W w in
      cancelled-Promises u (create_stage W quote winws is_cancelled name args) (is_cancelled v) v
        refl (IsQuiet-trans W u w v q (IsQuiet-enable_tcp_timestamps W w))
        (create_stage-Promises u name args)

  stopped-Promises :
      (u : World W) (name : Text) (args : List Text) (m : Result (Unit {0}) × World W)
      → IsQuiet W u m.1
      → let n = stopped W quote winws is_cancelled name args m in Promises u n.0 n.1
  stopped-Promises u name args (ok x, w) q = prepared-Promises u name args w q
  stopped-Promises u name args (err (runtime_error x), w) q = q
  stopped-Promises u name args (err (value_error x), w) q = tt
  stopped-Promises u name args (err os_error, w) q = tt
  stopped-Promises u name args (err permission_error, w) q = tt
  stopped-Promises u name args (err file_not_found, w) q = tt
  stopped-Promises u name args (err superseded, w) q = tt
  stopped-Promises u name args (err type_error, w) q = tt
  stopped-Promises u name args (err timeout_expired, w) q = tt

  stop_stage-Promises :
      (u : World W) (name : Text) (args : List Text) (m : Bool × World W)
      → IsQuiet W u m.1
      → let n = stop_stage W quote winws is_cancelled name args m in Promises u n.0 n.1
  stop_stage-Promises u name args (false, w) q = prepared-Promises u name args w q
  stop_stage-Promises u name args (true, w) q =
      stopped-Promises u name args (set_service_running W false w)
        (IsQuiet-trans W u w (set_service_running W false w).1 q (IsQuiet-set_service_running W w))

  -- Where asking for cancellation starts no service: an installation of the service that is
  -- cancelled, or that finds no arguments, or that cannot stop or write the service, has run
  -- no command sc start or net start; one that reports success made a query as its last step,
  -- which said that the service runs.
  pub install_service-Promises :
      (name : Text) (args : Option (List Text)) (w : World W)
      → let n = install_service W quote winws is_cancelled name args w in Promises w n.0 n.1
  unfolding install_service
  install_service-Promises name none w = IsQuiet-refl W w w refl
  install_service-Promises name (some []) w = IsQuiet-refl W w w refl
  install_service-Promises name (some (x ∷ args)) w =
      cancelled-Promises w
        (λ v. stop_stage W quote winws is_cancelled name (x ∷ args) (service_installed W v))
        (is_cancelled w) w refl (IsQuiet-refl W w w refl)
        (λ v q.
          stop_stage-Promises w name (x ∷ args) (service_installed W v)
            (IsQuiet-trans W w v (service_installed W v).1 q (IsQuiet-service_installed W v)))
