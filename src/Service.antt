-- ===== src/Service.antt =====
-- zapret_core.py, "Процесс / служба": the queries and commands of the service and of the processes
-- winws.exe. A query of Windows may change its state, as time passes.
pub mod Stops
pub mod Ended
pub mod Install
use zapret_gui.Base.{
  ℕ, zero, suc, Bool, true, false, not, ◌&&◌, ◌||◌, Option, none, some, List, [], ◌∷◌, ◌++◌, ◌==◌,
  bool_eq, nat_eq, text_eq, if◌then◌else◌,
}
use zapret_gui.Result.{
  Result, ok, err, Error, runtime_error, value_error, os_error, permission_error, file_not_found,
  superseded, type_error, timeout_expired, is_os_error,
}
use zapret_gui.Text.{Text, codes, lower, upper, has}
use zapret_gui.Text.Split.{splitlines, after}
use zapret_gui.Windows.{
  Answer, Windows, World, Exec, continue, bind, raise, return, act, run_hidden,
}

abbrev pub service_name : Text
service_name = codes "zapret"

-- What the output of a query says; where `run_hidden` raises, the answer is no.
unfoldable pub lists_winws : Result Answer → Bool
unfolding has lower
lists_winws (ok a) = has (codes "winws.exe") (lower a.output)
lists_winws (err e) = false

unfoldable pub says_running : Result Answer → Bool
unfolding has upper
says_running (ok a) = has (codes "RUNNING") (upper a.output)
says_running (err e) = false

unfoldable pub succeeded : Result Answer → Bool
unfolding nat_eq
succeeded (ok a) = a.code == 0
succeeded (err e) = false

-- The lines of `netsh` in which the number 1323 and a colon stand
unfoldable pub timestamps_in : List Text → Option Bool
unfolding has lower after
timestamps_in [] = none
timestamps_in (ln ∷ lines) =
    let rest = timestamps_in lines in
    if has (codes "1323") (lower ln) && has (codes ":") (lower ln)
    then some (has (codes "enabled") (after (codes ":") (lower ln)))
    else rest

unfoldable pub read_timestamps : Result Answer → Option Bool
unfolding timestamps_in splitlines
read_timestamps (ok a) = timestamps_in (splitlines a.output)
read_timestamps (err e) = none

abbrev pub is_yes : Option Bool → Bool
is_yes none = false
is_yes (some b) = b

abbrev pub query : List Text
query = codes "sc" ∷ codes "query" ∷ service_name ∷ []

abbrev pub net_verb : Bool → Text
net_verb running = if running then codes "start" else codes "stop"

-- `(result.stderr or result.stdout or "…")`, whatever it is
abbrev pub not_changed : Error
not_changed = runtime_error "Состояние службы не изменилось"

abbrev pub still_running : Error
still_running = runtime_error "Процессы winws.exe продолжают работать."

abbrev pub show_timestamps : List Text
show_timestamps =
    codes "netsh" ∷ codes "interface" ∷ codes "tcp" ∷ codes "show" ∷ codes "global" ∷ []

abbrev pub set_timestamps_command : List Text
set_timestamps_command =
    codes "netsh"
    ∷ codes "interface"
    ∷ codes "tcp"
    ∷ codes "set"
    ∷ codes "global"
    ∷ codes "timestamps=enabled"
    ∷ []

module _ (W : Windows) where
  abbrev pub ask : List Text → (Result Answer → Bool) → World W → Bool × World W
  ask cmd read w = let (r, w') = run_hidden W cmd w in (read r, w')

  unfoldable pub winws_running : World W → Bool × World W
  winws_running =
      ask (codes "tasklist" ∷ codes "/FI" ∷ codes "IMAGENAME eq winws.exe" ∷ []) lists_winws

  unfoldable pub service_installed : World W → Bool × World W
  service_installed = ask query succeeded

  unfoldable pub service_running : World W → Bool × World W
  service_running = ask query says_running

  -- `for _ in range(n): if test() == wanted: return …`; it sleeps in between.
  unfoldable pub poll : ℕ → (World W → Bool × World W) → Bool → World W → Bool × World W
  poll zero test wanted w = (false, w)
  poll (suc n) test wanted w =
      let (b, w') = test w in
      let more = poll n test wanted w' in if b == wanted then (true, w') else more

  abbrev pub or_raise : Error → Bool × World W → Result (Unit {0}) × World W
  or_raise e (true, w) = (ok tt, w)
  or_raise e (false, w) = (err e, w)

  abbrev pub change_service : Bool → Exec W (Unit {0})
  change_service running =
      bind W (run_hidden W (codes "net" ∷ net_verb running ∷ service_name ∷ []))
        λ result w. or_raise not_changed (poll 20 service_running running w)

  abbrev pub unless_running : Bool → Bool × World W → Result (Unit {0}) × World W
  unless_running running (b, w) = if b == running then (ok tt, w) else change_service running w

  unfoldable pub set_service_running : Bool → Exec W (Unit {0})
  set_service_running running w = unless_running running (service_running w)

  unfoldable pub tcp_timestamps_enabled : World W → Option Bool × World W
  tcp_timestamps_enabled w = let (r, w') = run_hidden W show_timestamps w in (read_timestamps r, w')

  abbrev pub set_timestamps : World W → World W
  set_timestamps w = (run_hidden W set_timestamps_command w).1

  -- It raises nothing.
  unfoldable pub enable_tcp_timestamps : World W → World W
  enable_tcp_timestamps w =
      let (b, w') = tcp_timestamps_enabled w in if is_yes b then w' else set_timestamps w'

  unfoldable pub remove_windivert : Exec W (Unit {0})
  remove_windivert =
      bind W (run_hidden W (codes "net" ∷ codes "stop" ∷ codes "WinDivert" ∷ [])) λ _.
        bind W (run_hidden W (codes "sc" ∷ codes "delete" ∷ codes "WinDivert" ∷ [])) λ _.
          bind W (run_hidden W (codes "net" ∷ codes "stop" ∷ codes "WinDivert14" ∷ [])) λ _.
            bind W (run_hidden W (codes "sc" ∷ codes "delete" ∷ codes "WinDivert14" ∷ []))
              λ _. return W tt

  -- It returns whether `taskkill` found a process.
  abbrev pub or_still : Answer → Bool × World W → Result Bool × World W
  or_still result (true, w) = (ok (succeeded (ok result)), w)
  or_still result (false, w) = (err still_running, w)

  unfoldable pub stop_all_winws : Exec W Bool
  stop_all_winws =
      bind W (run_hidden W (codes "taskkill" ∷ codes "/IM" ∷ codes "winws.exe" ∷ codes "/F" ∷ []))
        λ result w. or_still result (poll 20 winws_running false w)

  -- `proc.terminate()`, and `proc.kill()` where it does not exit in time
  abbrev pub after_wait : ℕ → Result (Unit {0}) × World W → Result (Unit {0}) × World W
  after_wait p (ok u, w) = (ok u, w)
  after_wait p (err timeout_expired, w) = bind W (act W (W.kill p)) (λ _. act W (W.wait_exit p)) w
  after_wait p (err (runtime_error s), w) = (err (runtime_error s), w)
  after_wait p (err (value_error s), w) = (err (value_error s), w)
  after_wait p (err os_error, w) = (err os_error, w)
  after_wait p (err permission_error, w) = (err permission_error, w)
  after_wait p (err file_not_found, w) = (err file_not_found, w)
  after_wait p (err superseded, w) = (err superseded, w)
  after_wait p (err type_error, w) = (err type_error, w)

  abbrev pub end_process : ℕ → Exec W (Unit {0})
  end_process p = bind W (act W (W.terminate p)) λ _ w. after_wait p (act W (W.wait_exit p) w)

  -- `except OSError`: no fault where the process has exited
  abbrev pub not_stopped : ℕ → Bool × World W → Result Bool × World W
  not_stopped p (true, w) = (ok false, w)
  not_stopped p (false, w) = (err (runtime_error "Не удалось остановить процесс"), w)

  abbrev pub ended : ℕ → Result (Unit {0}) × World W → Result Bool × World W
  ended p (ok u, w) = (ok true, w)
  ended p (err e, w) = if is_os_error e then not_stopped p (act W (W.exited p) w) else (err e, w)

  abbrev pub stop_alive : ℕ → Bool × World W → Result Bool × World W
  stop_alive p (true, w) = (ok false, w)
  stop_alive p (false, w) = ended p (end_process p w)

  -- `stop_process`
  unfoldable pub stop_process : Option ℕ → Exec W Bool
  stop_process none w = (ok false, w)
  stop_process (some p) w = stop_alive p (act W (W.exited p) w)

  abbrev pub delete_service : Result Answer × World W → Result (Unit {0}) × World W
  delete_service (ok a, w) =
      if a.code == 0 then (ok tt, w) else (err (runtime_error "Не удалось удалить службу"), w)
  delete_service (err e, w) = (err e, w)

  unfoldable pub remove_service : Exec W (Unit {0})
  remove_service =
      bind W (set_service_running false)
        λ _ w. delete_service (run_hidden W (codes "sc" ∷ codes "delete" ∷ service_name ∷ []) w)
