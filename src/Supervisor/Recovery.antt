-- ===== src/Supervisor/Recovery.antt =====
-- zapret_app.pyw: `_watchdog_restart` and `_recover_impl`.
pub mod Candidates
pub mod Attempt
pub mod Outcome
pub mod Restart
pub mod Ends
use zapret_gui.Base.{
  ℕ, Bool, true, false, not, ◌&&◌, ◌||◌, Option, none, some, List, [], ◌∷◌, ◌++◌, ◌==◌, contains,
  nat_eq, text_eq, if◌then◌else◌,
}
use zapret_gui.Base.Dict.{Dict, lookup, keys}
use zapret_gui.Result.{
  Result, ok, err, Error, runtime_error, value_error, os_error, permission_error, file_not_found,
  superseded, type_error, timeout_expired,
}
use zapret_gui.Text.{Text, codes}
use zapret_gui.Measure.{ProbeResult}
use zapret_gui.Windows.{Windows, App, World, Exec, continue, bind, return, is_valid}
use zapret_gui.Service.{set_service_running}
use zapret_gui.Supervisor.{
  Setup, recovery_hosts, all_reliable, any_success, any_reliable, all_controls, spawn_winws,
  stop_local_winws, managed_bypass_running, check, transition, desired, measure, keep_strategy,
  if_waited, returned, switch_to,
}

-- How the trial of a candidate ends: it is kept, the recovery pauses, or it is no replacement.
pub data Trial : Type 0 where
  committed paused rejected : Trial

abbrev pub is_some : {A : Type 0} → Option A → Bool
is_some none = false
is_some (some x) = true

-- `self.active_preset_name or self.cfg.get("strategy")`
abbrev pub original_of : App → Option Text
original_of a = first_of a.active_name a.strategy
  where
    first_of : Option Text → Option Text → Option Text
    first_of none o = o
    first_of (some []) o = o
    first_of (some (c ∷ name)) o = some (c ∷ name)

-- The candidates of `pool` and those that a search among all presets adds
unfoldable pub pool_from : Dict Text Text → Text → List Text → List Text → List Text
unfolding lookup text_eq
pool_from presets original failed [] = []
pool_from presets original failed (n ∷ pool) =
    let rest = pool_from presets original failed pool in
    if is_some (lookup n presets) && not (n == original) && not (contains failed n)
    then n ∷ rest
    else rest

unfoldable pub added_from : List Text → Text → List Text → List Text → List Text
unfolding text_eq
added_from chosen original failed [] = []
added_from chosen original failed (n ∷ names) =
    let rest = added_from chosen original failed names in
    if not (contains chosen n) && not (n == original) && not (contains failed n)
    then n ∷ rest
    else rest

unfoldable pub candidates_of : Setup → Text → List Text → List Text
unfolding pool_from added_from
candidates_of S original failed =
    let chosen = pool_from S.presets original failed S.pool in
    if S.research then chosen ++ added_from chosen original failed (keys S.presets) else chosen

module _ (W : Windows) (S : Setup) (token : ℕ) where
  abbrev pub commit : Text → Exec W Trial
  commit name = bind W (keep_strategy W S name) λ _ w. (ok committed, w)

  -- `if self._managed_bypass_running() and all(…)`
  abbrev pub if_managed : Text → Dict Text ProbeResult → Bool × World W → Result Trial × World W
  if_managed name results (true, w) =
      if all_reliable results then commit name w else (ok rejected, w)
  if_managed name results (false, w) = (ok rejected, w)

  abbrev pub judge : Text → Dict Text ProbeResult → Exec W Trial
  judge name results w = if_managed name results (managed_bypass_running W S w)

  -- None of the hosts answered: is there a connection at all?
  abbrev pub ask_controls : Text → Dict Text ProbeResult → Exec W Trial
  ask_controls name results = bind W (measure W S all_controls 1) λ controls.
      bind W (check W S token)
        λ _ w. if any_reliable controls then judge name results w else (ok paused, w)

  abbrev pub is_silent : Dict Text ProbeResult → Bool
  is_silent [] = false
  is_silent (r ∷ results) = not (any_success (r ∷ results))

  abbrev pub weigh : Text → Dict Text ProbeResult → Exec W Trial
  weigh name results w =
      if is_silent results then ask_controls name results w else judge name results w

  abbrev pub examine : Text → Exec W Trial
  examine name =
      bind W (measure W S (recovery_hosts S.services) 3)
        λ results. bind W (check W S token) λ _. weigh name results

  abbrev pub if_switched : Text → Bool → Exec W Trial
  if_switched name true w = examine name w
  if_switched name false w = (ok rejected, w)

  -- The `try` block
  unfoldable pub attempt : Text → Exec W Trial
  attempt name = bind W (switch_to W S name token false) (if_switched name)

  -- The two `except` clauses
  abbrev pub caught : Result Trial → Result Trial
  caught (ok t) = ok t
  caught (err superseded) = err superseded
  caught (err (runtime_error s)) = ok rejected
  caught (err (value_error s)) = ok rejected
  caught (err os_error) = ok rejected
  caught (err permission_error) = ok rejected
  caught (err file_not_found) = ok rejected
  caught (err timeout_expired) = ok rejected
  caught (err type_error) = ok rejected

  -- `if not self._switch_to(original, …): raise`
  abbrev pub must_restore : Result Trial → Result Bool × World W → Result Trial × World W
  must_restore r (ok true, w) = (r, w)
  must_restore r (ok false, w) =
      (err (runtime_error "Не удалось восстановить исходную стратегию"), w)
  must_restore r (err e, w) = (err e, w)

  -- The `finally` block
  abbrev pub if_still : Text → Result Trial → Bool × World W → Result Trial × World W
  if_still original r (true, w) = must_restore r (switch_to W S original token false w)
  if_still original r (false, w) = (r, w)

  abbrev pub finish : Text → Result Trial × World W → Result Trial × World W
  finish original (ok committed, w) = (ok committed, (is_valid W token w).1)
  finish original (ok paused, w) = if_still original (ok paused) (is_valid W token w)
  finish original (ok rejected, w) = if_still original (ok rejected) (is_valid W token w)
  finish original (err e, w) = if_still original (err e) (is_valid W token w)

  unfoldable pub trial : Text → Text → Exec W Trial
  trial original name w = let (r, v) = attempt name w in finish original (caught r, v)

  abbrev pub add_failed : Text → World W → World W
  add_failed name w = record w { app = record w.app { failed = name ∷ w.app.failed } }

  -- Behind a trial; a candidate that was rejected is remembered.
  abbrev pub next : Text → Trial → Exec W (Unit {0}) → Exec W (Unit {0})
  next name committed rest v = (ok tt, v)
  next name paused rest v = (ok tt, v)
  next name rejected rest v = rest (add_failed name v)

  unfoldable pub try_all : Text → List Text → Exec W (Unit {0})
  try_all original [] w = (ok tt, w)
  try_all original (name ∷ names) w =
      bind W (check W S token)
        (λ _. bind W (trial original name) λ t. next name t (try_all original names)) w

  abbrev pub switch_from : Text → Exec W (Unit {0})
  switch_from original w =
      if is_some (lookup original S.presets)
      then try_all original (candidates_of S original w.app.failed) w
      else (ok tt, w)

  abbrev pub switch_away : Option Text → Exec W (Unit {0})
  switch_away none w = (ok tt, w)
  switch_away (some original) w = switch_from original w

  -- `_watchdog_restart`: in the transition
  abbrev pub restart_service : Exec W Bool
  restart_service =
      bind W (set_service_running W false)
        λ _. bind W (check W S token) λ _. bind W (set_service_running W true) λ _. return W true

  abbrev pub restart_process : Option (List Text) → Exec W Bool
  restart_process none w = (ok false, w)
  restart_process (some []) w = (ok false, w)
  restart_process (some (x ∷ args)) w =
      bind W (stop_local_winws W S false)
        (λ _.
          bind W (check W S token)
            λ _ v. bind W (spawn_winws W S (x ∷ args) v.app.active_name) (λ _. return W true) v)
        w

  abbrev pub restart_body : Exec W Bool
  restart_body w =
      let (d, v) = desired W S w in
      if d == codes "stopped"
      then (ok false, v)
      else if d == codes "service"
      then restart_service v
      else restart_process v.app.active_args v

  abbrev pub confirm : Dict Text ProbeResult → Bool × World W → Result Bool × World W
  confirm results (b, w) = (ok (b && all_reliable results), w)

  abbrev pub examine_restart : Bool × World W → Result Bool × World W
  examine_restart (false, w) = (ok false, w)
  examine_restart (true, w) =
      bind W (measure W S (recovery_hosts S.services) 1)
        (λ results. bind W (check W S token) λ _ v. confirm results (managed_bypass_running W S v))
        w

  abbrev pub if_restarted : Bool → Exec W Bool
  if_restarted false w = (ok false, w)
  if_restarted true w = examine_restart (is_valid W token w)

  unfoldable pub watchdog_restart : Exec W Bool
  watchdog_restart = bind W (transition W S token restart_body) if_restarted

  -- The loop over the delays: true for its `return`, false where it ends
  abbrev pub attempted : Exec W Bool → Result Bool × World W → Result Bool × World W
  attempted rest (ok true, w) = (ok true, w)
  attempted rest (ok false, w) = rest w
  attempted rest (err superseded, w) = (ok true, w)
  attempted rest (err (runtime_error s), w) = rest w
  attempted rest (err (value_error s), w) = rest w
  attempted rest (err os_error, w) = rest w
  attempted rest (err permission_error, w) = rest w
  attempted rest (err file_not_found, w) = rest w
  attempted rest (err timeout_expired, w) = rest w
  attempted rest (err type_error, w) = rest w

  abbrev pub after_delay : Exec W Bool → Bool × World W → Result Bool × World W
  after_delay rest (false, w) = (ok true, w)
  after_delay rest (true, w) = attempted rest (watchdog_restart w)

  unfoldable pub restarts : List ℕ → Exec W Bool
  restarts [] w = (ok false, w)
  restarts (delay ∷ delays) w = after_delay (restarts delays) (is_valid W token w)

  abbrev pub exhaust : Bool → Exec W (Unit {0})
  exhaust true w = (ok tt, w)
  exhaust false w = (ok tt, record w { app = record w.app { exhausted = some token } })

  abbrev pub is_token : Option ℕ → Bool
  is_token none = false
  is_token (some t) = t == token

  abbrev pub delays : List ℕ
  delays = 5 ∷ 15 ∷ 45 ∷ []

  abbrev pub restart : Exec W (Unit {0})
  restart w = if is_token w.app.exhausted then (ok tt, w) else bind W (restarts delays) exhaust w

  -- `_recover_impl`
  abbrev pub recover_started : Bool → Exec W (Unit {0})
  recover_started switch =
      bind W (check W S token)
        λ _ w. if switch then switch_away (original_of w.app) w else restart w

  unfoldable pub recover : Bool → Exec W (Unit {0})
  recover switch w =
      let (d, v) = desired W S w in
      if d == codes "stopped" then (ok tt, v) else recover_started switch v
