-- ===== src/Service/Install.antt =====
-- zapret_core.py: `install_service`. `cancelled` may look at anything and let time pass; the quoting
-- of `subprocess.list2cmdline` is a parameter.
pub mod Quiet
pub mod Promises
use zapret_gui.Base.{
  ℕ, Bool, true, false, Option, none, some, List, [], ◌∷◌, ◌++◌, ◌==◌, nat_eq, if◌then◌else◌,
}
use zapret_gui.Result.{Result, ok, err, Error, runtime_error}
use zapret_gui.Text.{Text, codes}
use zapret_gui.Windows.{Answer, Windows, World, Exec, continue, bind, return, run_hidden}
use zapret_gui.Service.{
  service_name, service_installed, service_running, set_service_running, enable_tcp_timestamps,
}

-- `(True, log)`, or why it is `(False, …)`
pub data Installed : Type 0 where
  installed not_parsed cancelled not_stopped not_created not_started : Installed

abbrev pub start_command : List Text
start_command = codes "sc" ∷ codes "start" ∷ service_name ∷ []

abbrev pub create_verb : Bool → Text
create_verb b = if b then codes "config" else codes "create"

abbrev pub describe_command : List Text
describe_command =
    codes "sc" ∷ codes "description" ∷ service_name ∷ codes "Zapret DPI bypass software" ∷ []

abbrev pub register_command : Text → List Text
register_command display_name =
    codes "reg"
    ∷ codes "add"
    ∷ codes "HKLM\\System\\CurrentControlSet\\Services\\zapret"
    ∷ codes "/v"
    ∷ codes "zapret-discord-youtube"
    ∷ codes "/t"
    ∷ codes "REG_SZ"
    ∷ codes "/d"
    ∷ display_name
    ∷ codes "/f"
    ∷ []

abbrev pub create_command : Bool → Text → List Text
create_command b binpath =
    codes "sc"
    ∷ create_verb b
    ∷ service_name
    ∷ codes "binPath="
    ∷ binpath
    ∷ codes "DisplayName="
    ∷ codes "zapret"
    ∷ codes "start="
    ∷ codes "auto"
    ∷ []

module _ (W : Windows) (quote : List Text → Text) (winws : Text)
    (is_cancelled : World W → Bool × World W) where
  -- `if cancelled(): return False, "…"`
  abbrev pub unless_cancelled : Exec W Installed → Exec W Installed
  unless_cancelled rest w = go (is_cancelled w)
    where
      go : Bool × World W → Result Installed × World W
      go (true, v) = (ok cancelled, v)
      go (false, v) = rest v

  abbrev pub started : Bool × World W → Result Installed × World W
  started (true, w) = (ok installed, w)
  started (false, w) = (ok not_started, w)

  -- `sres.returncode == 0 and service_running()`
  abbrev pub verify : Answer → Exec W Installed
  verify sres w = if sres.code == 0 then started (service_running W w) else (ok not_started, w)

  unfoldable pub start_stage : Text → Exec W Installed
  start_stage display_name =
      bind W (run_hidden W start_command)
        λ sres. bind W (run_hidden W (register_command display_name)) λ _. verify sres

  unfoldable pub describe_stage : Text → Exec W Installed
  describe_stage display_name =
      bind W (run_hidden W describe_command) λ _. unless_cancelled (start_stage display_name)

  abbrev pub created : Text → Answer → Exec W Installed
  created display_name res w =
      if res.code == 0 then describe_stage display_name w else (ok not_created, w)

  abbrev pub create_as : Text → Text → Bool × World W → Result Installed × World W
  create_as display_name binpath (b, w) =
      bind W (run_hidden W (create_command b binpath)) (created display_name) w

  unfoldable pub create_stage : Text → List Text → Exec W Installed
  create_stage display_name args w =
      create_as display_name (quote (winws ∷ args)) (service_installed W w)

  abbrev pub prepared : Text → List Text → Exec W Installed
  prepared display_name args w =
      unless_cancelled (create_stage display_name args) (enable_tcp_timestamps W w)

  -- `except RuntimeError`
  abbrev pub stopped : Text → List Text → Result (Unit {0}) × World W → Result Installed × World W
  stopped display_name args (ok u, w) = prepared display_name args w
  stopped display_name args (err (runtime_error e), w) = (ok not_stopped, w)
  stopped display_name args (err e, w) = (err e, w)

  abbrev pub stop_stage : Text → List Text → Bool × World W → Result Installed × World W
  stop_stage display_name args (true, w) = stopped display_name args (set_service_running W false w)
  stop_stage display_name args (false, w) = prepared display_name args w

  -- Of the argument list that `build_args_str` makes; an empty one is none to `not args`.
  unfoldable pub install_service : Text → Option (List Text) → Exec W Installed
  install_service display_name none w = (ok not_parsed, w)
  install_service display_name (some []) w = (ok not_parsed, w)
  install_service display_name (some (x ∷ args)) w =
      unless_cancelled (λ v. stop_stage display_name (x ∷ args) (service_installed W v)) w
