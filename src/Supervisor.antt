-- ===== src/Supervisor.antt =====
-- zapret_app.pyw: what the application does with winws.exe and with the service, `_spawn_winws`,
-- `_stop_local_winws`, `_managed_bypass_running`, `_switch_to`, `_watchdog_restart`, and the workers
-- of `on_start` and `on_stop`. The settings, the presets and the game filter are those at the start;
-- messages to the windows and to the log are left out.
pub mod Frame
pub mod Steps
pub mod Switch
pub mod Start
pub mod Recovery
pub mod Watchdog
pub mod AutoSearch
use zapret_gui.Base.{
  ℕ, Bool, true, false, not, ◌&&◌, ◌||◌, Option, none, some, List, [], ◌∷◌, ◌++◌, map, ◌==◌, nat_eq,
  text_eq, all, any, if◌then◌else◌,
}
use zapret_gui.Base.Dict.{Dict, lookup}
use zapret_gui.Result.{
  Result, ok, err, Error, runtime_error, value_error, os_error, superseded, type_error,
}
use zapret_gui.Text.{Text, codes}
use zapret_gui.Paths.{Layout}
use zapret_gui.Args.{build_args_str}
use zapret_gui.Runtime.{Controller, set_desired}
use zapret_gui.Measure.{ProbeResult, Sample, measure_hosts, reliable}
use zapret_gui.Windows.{
  Answer, Windows, App, World, Exec, continue, bind, raise, return, act, meanwhile, is_valid,
}
use zapret_gui.Service.{service_running, set_service_running, stop_process}
use zapret_gui.Service.Install.{
  Installed, installed, not_parsed, cancelled, not_stopped, not_created, not_started,
  install_service,
}

-- `AUTO_TARGETS`
abbrev pub auto_targets : Dict Text (List Text)
auto_targets =
    (
      codes "discord",
      codes "discord.com" ∷ codes "gateway.discord.gg" ∷ codes "cdn.discordapp.com" ∷ [],
    )
    ∷ (
      codes "youtube",
      codes "www.youtube.com" ∷ codes "i.ytimg.com" ∷ codes "redirector.googlevideo.com" ∷ [],
    )
    ∷ (codes "google", codes "www.google.com" ∷ codes "www.gstatic.com" ∷ [])
    ∷ []

-- The settings that a recovery reads; `quote` is `subprocess.list2cmdline`, `winws` the path of
-- winws.exe, `presets` the arguments of each preset by its name, in their order.
pub record Setup : Type 0 where
  pub layout : Layout
  pub ranges : Text × Text
  pub mode : Text
  pub quote : List Text → Text
  pub winws : Text
  pub presets : Dict Text Text
  pub services : List Text
  pub pool : List Text
  pub research : Bool

-- `[h for key in services if key in zc.AUTO_TARGETS for h in zc.AUTO_TARGETS[key]]`
unfoldable pub hosts_of : List Text → List Text
unfolding lookup text_eq
hosts_of [] = []
hosts_of (key ∷ keys) = from_list (lookup key auto_targets) ++ hosts_of keys
  where
    from_list : Option (List Text) → List Text
    from_list none = []
    from_list (some hosts) = hosts

-- `self.cfg.get("recovery_services") or ["discord", "youtube"]`
unfoldable pub recovery_hosts : List Text → List Text
unfolding hosts_of
recovery_hosts [] = hosts_of (codes "discord" ∷ codes "youtube" ∷ [])
recovery_hosts (s ∷ services) = hosts_of (s ∷ services)

-- `all(r.reliable for r in results.values())`
unfoldable pub all_reliable : Dict Text ProbeResult → Bool
unfolding reliable
all_reliable [] = true
all_reliable ((h, r) ∷ results) = reliable r && all_reliable results

-- `any(r.successes for r in results.values())`
unfoldable pub any_success : Dict Text ProbeResult → Bool
unfolding nat_eq
any_success [] = false
any_success ((h, r) ∷ results) = not (r.successes == 0) || any_success results

-- `any(ok for ok, _ in check_hosts(…).values())`
unfoldable pub any_reliable : Dict Text ProbeResult → Bool
unfolding reliable
any_reliable [] = false
any_reliable ((h, r) ∷ results) = reliable r || any_reliable results

-- `build_args_str` of no arguments is None, which stands here for the empty list.
abbrev pub or_nil : Option (List Text) → List Text
or_nil none = []
or_nil (some args) = args

-- `if name: self.active_preset_name = name`
abbrev pub or_name : Option Text → Option Text → Option Text
or_name none old = old
or_name (some []) old = old
or_name (some (c ∷ name)) old = some (c ∷ name)

abbrev pub all_controls : List Text
all_controls = codes "www.microsoft.com" ∷ codes "www.cloudflare.com" ∷ []

module _ (W : Windows) (S : Setup) where
  abbrev pub built : Text → Option (List Text)
  built argstr = build_args_str S.layout S.ranges (some argstr) S.mode none

  abbrev pub spawned : List Text → Option Text → Result ℕ × World W → Result (Unit {0}) × World W
  spawned args name (ok p, w) = (
    ok tt,
    record w {
      app = record w.app {
        proc = some p;
        active_args = some args;
        active_name = or_name name w.app.active_name;
      };
    },
  )
  spawned args name (err e, w) = (err e, w)

  unfoldable pub spawn_winws : List Text → Option Text → Exec W (Unit {0})
  spawn_winws args name w = spawned args name (act W (W.spawn (S.winws ∷ args)) w)

  -- Behind `stop_process`, with `clear` or without
  abbrev pub forget_proc : Bool → App → App
  forget_proc clear a =
      if clear
      then record a { proc = none; active_args = none; active_name = none }
      else record a { proc = none }

  unfoldable pub stop_local_winws : Bool → Exec W (Unit {0})
  stop_local_winws clear w =
      bind W (stop_process W w.app.proc)
        (λ _ v. return W tt (record v { app = forget_proc clear v.app })) w

  abbrev pub or_service : Bool × World W → Bool × World W
  or_service (true, w) = service_running W w
  or_service (false, w) = (true, w)

  abbrev pub or_managed : Option ℕ → World W → Bool × World W
  or_managed none w = service_running W w
  or_managed (some p) w = or_service (act W (W.exited p) w)

  unfoldable pub managed_bypass_running : World W → Bool × World W
  managed_bypass_running w = or_managed w.app.proc w

  -- `self.runtime.check(token)`
  abbrev pub checked : Bool × World W → Result (Unit {0}) × World W
  checked (true, w) = (ok tt, w)
  checked (false, w) = (err superseded, w)

  abbrev pub check : ℕ → Exec W (Unit {0})
  check token w = checked (is_valid W token w)

  abbrev pub set_busy : Bool → World W → World W
  set_busy b w = record w { controller = record w.controller { busy = b } }

  -- `with self.runtime.transition(token):`
  abbrev pub released : {A : Type 0} → Result A × World W → Result A × World W
  released (r, w) = (r, set_busy false w)

  abbrev pub entered : {A : Type 0} → Exec W A → Result (Unit {0}) × World W → Result A × World W
  entered body (ok u, w) = released (body (set_busy true w))
  entered body (err e, w) = (err e, w)

  abbrev pub transition : {A : Type 0} → ℕ → Exec W A → Exec W A
  transition token body w = entered body (check token w)

  -- `self.runtime.desired`
  abbrev pub desired : World W → Text × World W
  desired w = let v = meanwhile W w in (v.controller.desired, v)

  -- `measure_hosts` of some hosts
  abbrev pub measured :
      Option (Dict Text ProbeResult) → World W → Result (Dict Text ProbeResult) × World W
  measured none w = (err (value_error "samples"), w)
  measured (some results) w = (ok results, w)

  unfoldable pub measure : List Text → ℕ → Exec W (Dict Text ProbeResult)
  measure hosts samples w =
      let (network, v) = act W (W.observe samples) w in
      measured (measure_hosts network hosts samples) v

  -- `update_config({"strategy": name})`: the file of settings is replaced whole or not at all.
  abbrev pub write_strategy : Text → List Bool → App → Result (Unit {0}) × App
  write_strategy name [] a = (ok tt, record a { saved = some name })
  write_strategy name (false ∷ fs) a = (ok tt, record a { saved = some name; faults = fs })
  write_strategy name (true ∷ fs) a = (err os_error, record a { faults = fs })

  -- `self.cfg["strategy"] = name; zc.update_config({"strategy": name})`
  unfoldable pub keep_strategy : Text → Exec W (Unit {0})
  keep_strategy name w =
      let (r, a) = write_strategy name w.app.faults (record w.app { strategy = some name }) in
      (r, record w { app = a })

  -- The body of `_switch_to` in the transition
  abbrev pub switched_service :
      List Text → Text → Result Installed × World W → Result (Unit {0}) × World W
  switched_service args name (ok installed, w) =
      (ok tt, record w { app = record w.app { active_args = some args; active_name = some name } })
  switched_service args name (ok not_parsed, w) = (err (runtime_error "log"), w)
  switched_service args name (ok cancelled, w) = (err (runtime_error "log"), w)
  switched_service args name (ok not_stopped, w) = (err (runtime_error "log"), w)
  switched_service args name (ok not_created, w) = (err (runtime_error "log"), w)
  switched_service args name (ok not_started, w) = (err (runtime_error "log"), w)
  switched_service args name (err e, w) = (err e, w)

  -- `lambda: not self.runtime.valid(token)`
  abbrev pub is_invalid : ℕ → World W → Bool × World W
  is_invalid token w = let (b, v) = is_valid W token w in (not b, v)

  abbrev pub switch_service : Option (List Text) → Text → ℕ → Exec W (Unit {0})
  switch_service args name token w =
      switched_service (or_nil args) name
        (install_service W S.quote S.winws (is_invalid token) name args w)

  abbrev pub switch_process : List Text → Text → ℕ → Exec W (Unit {0})
  switch_process args name token =
      bind W (stop_local_winws false) λ _. bind W (check token) λ _. spawn_winws args (some name)

  abbrev pub switch_body : Text → Text → ℕ → Bool → Exec W (Unit {0})
  switch_body argstr name token persist =
      bind W
        (λ w.
          let (d, v) = desired w in
          if d == codes "service"
          then switch_service (built argstr) name token v
          else switch_process (or_nil (built argstr)) name token v)
        λ _. bind W (check token) λ _ w. if persist then keep_strategy name w else (ok tt, w)

  -- Behind the transition: `runtime.wait`, and what runs then
  abbrev pub if_waited : (World W → Bool × World W) → Bool × World W → Bool × World W
  if_waited rest (true, w) = rest w
  if_waited rest (false, w) = (false, w)

  abbrev pub returned : Bool × World W → Result Bool × World W
  returned (b, w) = (ok b, w)

  abbrev pub switch_preset : Text → ℕ → Bool → Text → Exec W Bool
  switch_preset name token persist argstr =
      bind W (transition token (switch_body argstr name token persist))
        λ _ w. returned (if_waited managed_bypass_running (is_valid W token w))

  abbrev pub switch_known : Text → ℕ → Bool → Option Text → Exec W Bool
  switch_known name token persist none w = (ok false, w)
  switch_known name token persist (some argstr) w =
      let (d, v) = desired w in
      if d == codes "stopped" then (ok false, v) else switch_preset name token persist argstr v

  unfoldable pub switch_to : Text → ℕ → Bool → Exec W Bool
  switch_to name token persist = switch_known name token persist (lookup name S.presets)
