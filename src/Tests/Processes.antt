-- ===== src/Tests/Processes.antt =====
-- The service, the processes and the supervisor at a concrete Windows, whose service starts and stops
-- as it is told, and whose hosts all answer.
use zapret_gui.Base.{
  ◌≡◌, ◌≤◌, ◌+◌, refl, Bool, true, false, none, some, List, [], ◌∷◌, contains, text_eq, nat_eq,
  length, any, if◌then◌else◌,
}
use zapret_gui.Base.Dict.{lookup, NodupKeys}
use zapret_gui.Result.{Result, ok}
use zapret_gui.Text.{Text, codes}
use zapret_gui.Measure.{latency}
use zapret_gui.Runtime.{init}
use zapret_gui.Windows.{Answer, Windows, App, World, is_valid}
use zapret_gui.Supervisor.AutoSearch.{Request}
use zapret_gui.Service.{set_service_running}
use zapret_gui.Service.Stops.{IsAnswered, set_service_running_lem}
use zapret_gui.Service.Install.{install_service}
use zapret_gui.Service.Install.Quiet.{IsQuiet, IsQuiet-refl}
use zapret_gui.Service.Install.Promises.{Promises, install_service-Promises}
use zapret_gui.Supervisor.{Setup, set_busy}
use zapret_gui.Supervisor.Start.{stop_worker}
use zapret_gui.Supervisor.Start.Stopped.{Stops, stop_worker-Stops}
use zapret_gui.Supervisor.Recovery.{recover, original_of}
use zapret_gui.Supervisor.Recovery.Ends.{Recovered, recover-Ends}
use zapret_gui.Supervisor.Watchdog.{Watch, in_episode, turn, any_failing, values, auto_quick_host}
use zapret_gui.Supervisor.Watchdog.Caution.{IsCautious, turn-IsCautious}
use zapret_gui.Supervisor.Watchdog.Failures.{counts, both_failed, any_failing-counts}

abbrev next_state : List Text → Bool → Bool
next_state cmd b =
    if contains cmd (codes "start") then true else if contains cmd (codes "stop") then false else b

abbrev output_of : Bool → Text
output_of true = codes "STATE : 4 RUNNING"
output_of false = codes "STATE : 1 STOPPED"

abbrev answer_of : Bool → Answer
answer_of b = record { code = 0; output = output_of b; errors = [] }

abbrev windows : Windows
windows = record {
  State = Bool;
  run = λ cmd b. (ok (answer_of (next_state cmd b)), next_state cmd b);
  spawn = λ cmd b. (ok 7, b);
  exited = λ p b. (false, b);
  terminate = λ p b. (ok tt, b);
  kill = λ p b. (ok tt, b);
  wait_exit = λ p b. (ok tt, b);
  observe = λ n b. ((λ host. latency 10 ∷ []), b);
  others = λ b c. (c, b);
}

abbrev app : App
app = record {
  proc = some 7;
  active_args = some (codes "--x" ∷ []);
  active_name = some (codes "A");
  strategy = some (codes "A");
  saved = some (codes "A");
  failed = [];
  exhausted = none;
  trial = none;
  svc_stopped = false;
  saved_svc_stopped = false;
  faults = [];
}

abbrev world : Bool → World windows
world b = record { state = b; commands = []; controller = init (codes "manual"); app = app }

abbrev quote : List Text → Text
quote args = codes "winws"

abbrev setup : Setup
setup = record {
  layout = record { base = codes "C:\\z" };
  ranges = (codes "1-2", codes "3-4");
  mode = codes "off";
  quote = quote;
  winws = codes "winws.exe";
  presets = (codes "A", codes "--x") ∷ (codes "B", codes "--y") ∷ [];
  services = codes "discord" ∷ [];
  pool = codes "B" ∷ [];
  research = false;
}

set_service_running_lem_example :
    (length (set_service_running windows true (world false)).1.commands
      ≤ length (world false).commands + 22)
    × IsAnswered windows true (set_service_running windows true (world false))
set_service_running_lem_example = set_service_running_lem windows true (world false)

abbrev is_cancelled : World windows → Bool × World windows
is_cancelled w = (false, w)

never_cancelled : (w : World windows) → IsQuiet windows w (is_cancelled w).1
never_cancelled w = IsQuiet-refl windows w w refl

install_service-Promises_example :
    let n =
      install_service windows quote
        (codes "winws.exe")
        is_cancelled
        (codes "A")
        (some (codes "--x" ∷ []))
        (world true) in
    Promises windows quote (codes "winws.exe") is_cancelled never_cancelled (world true) n.0 n.1
install_service-Promises_example =
    install_service-Promises windows quote (codes "winws.exe") is_cancelled never_cancelled
      (codes "A") (some (codes "--x" ∷ [])) (world true)

stop_worker-Stops_example :
    Stops windows setup
      (set_busy windows setup true (is_valid windows 0 (world true)).1)
      (stop_worker windows setup 0 (world true))
stop_worker-Stops_example = stop_worker-Stops windows setup 0 (world true)

no_empty_name : lookup [] setup.presets ≡ none
unfolding lookup text_eq
no_empty_name = refl

recover-Ends_example :
    Recovered windows setup 0 app (original_of app) (recover windows setup 0 true (world false))
recover-Ends_example = recover-Ends windows setup 0 no_empty_name (world false)

abbrev digest : Text → Text
digest s = s

abbrev watch : Watch
watch = record { failures = (codes "discord", 1) ∷ []; healthy = 0; network = none; episode = 0 }

turn-IsCautious_example :
    IsCautious windows setup digest is_cancelled
      (λ w. refl)
      (in_episode 0 watch).failures
      (some (codes "A"))
      (turn windows setup digest is_cancelled 0 watch (world true))
turn-IsCautious_example =
    turn-IsCautious windows setup digest is_cancelled (λ w. refl) 0 watch (world true)

abbrev none_up : Text → Bool
none_up host = false

distinct_services : NodupKeys auto_quick_host
unfolding lookup text_eq
distinct_services = (refl, (refl, (refl, tt)))

any_failing-counts_example :
    any_failing (counts auto_quick_host (none_up ∷ none_up ∷ []))
    ≡ any (both_failed none_up none_up) (values auto_quick_host)
any_failing-counts_example = any_failing-counts auto_quick_host none_up none_up [] distinct_services

abbrev asked : Bool → Bool
asked b = false

abbrev context : World windows → Result Text × World windows
context w = (ok (codes "c"), w)

abbrev requests : List Request
requests = record { argstr = codes "--x"; hosts = codes "discord.com" ∷ []; samples = 1 } ∷ []
