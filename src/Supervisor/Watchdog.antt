-- ===== src/Supervisor/Watchdog.antt =====
-- zapret_app.pyw: `_watchdog_loop`, one turn of it behind its pause, and `network_identity` of
-- zapret_core.py. An operation is in progress where `auto_recovery` is off or the application
-- searches or stops.
pub mod Failures
pub mod Caution
use zapret_gui.Base.{
  ℕ, suc, ◌+◌, Bool, true, false, not, ◌&&◌, ◌||◌, Option, none, some, List, [], ◌∷◌, ◌++◌, map,
  ◌==◌, contains, nat_eq, text_eq, if◌then◌else◌, leb,
}
use zapret_gui.Base.Dict.{Dict, lookup}
use zapret_gui.Result.{Result, ok, err, Error, superseded}
use zapret_gui.Text.{Text, codes, is_space}
use zapret_gui.Text.Strip.{strip}
use zapret_gui.Measure.{ProbeResult, reliable}
use zapret_gui.Runtime.{Controller, request}
use zapret_gui.Windows.{
  Answer, Windows, App, run_hidden, World, Exec, continue, bind, return, meanwhile, is_valid,
}
use zapret_gui.Supervisor.{
  Setup, measure, managed_bypass_running, any_reliable, all_controls, desired,
}
use zapret_gui.Supervisor.Recovery.{recover}

-- `AUTO_QUICK_HOST`
abbrev pub auto_quick_host : Dict Text Text
auto_quick_host =
    (codes "discord", codes "discord.com")
    ∷ (codes "youtube", codes "www.youtube.com")
    ∷ (codes "google", codes "www.google.com")
    ∷ []

abbrev pub fail_threshold : ℕ
fail_threshold = 2

-- `failures`, `healthy`, `network` (none where it is not known yet; it may be None itself), and
-- `episode_token`
pub record Watch : Type 0 where
  pub failures : Dict Text ℕ
  pub healthy : ℕ
  pub network : Option (Option Text)
  pub episode : ℕ

-- `{key: AUTO_QUICK_HOST[key] for key in services if …}`
unfoldable pub quick_hosts : List Text → Dict Text Text
unfolding lookup text_eq
quick_hosts [] = []
quick_hosts (key ∷ keys) = put (lookup key auto_quick_host) (quick_hosts keys)
  where
    put : Option Text → Dict Text Text → Dict Text Text
    put none d = d
    put (some host) d = (key, host) ∷ d

abbrev pub services_of : List Text → List Text
services_of [] = codes "discord" ∷ codes "youtube" ∷ []
services_of (s ∷ services) = s ∷ services

-- `results[host][0]`
unfoldable pub answered : Dict Text ProbeResult → Text → Bool
unfolding lookup text_eq reliable
answered results host = is_reliable (lookup host results)
  where
    is_reliable : Option ProbeResult → Bool
    is_reliable none = false
    is_reliable (some r) = reliable r

-- `failures.get(key, 0)`
abbrev pub or_zero : Option ℕ → ℕ
or_zero none = 0
or_zero (some n) = n

-- `{key: 0 if results[host][0] else failures.get(key, 0) + 1 for key, host in hosts.items()}`; the
-- results are given as a test of the hosts
unfoldable pub count_failures : Dict Text ℕ → (Text → Bool) → Dict Text Text → Dict Text ℕ
unfolding lookup text_eq
count_failures failures is_up [] = []
count_failures failures is_up ((key, host) ∷ hosts) =
    (key, if is_up host then 0 else or_zero (lookup key failures) + 1)
    ∷ count_failures failures is_up hosts

-- `any(n >= WATCHDOG_FAIL_THRESHOLD for n in failures.values())`
unfoldable pub any_failing : Dict Text ℕ → Bool
any_failing [] = false
any_failing ((key, n) ∷ failures) = leb fail_threshold n || any_failing failures

-- `all(results[h][0] for h in hosts.values())` and `any(…)`
unfoldable pub all_up : (Text → Bool) → Dict Text Text → Bool
all_up is_up [] = true
all_up is_up ((key, host) ∷ hosts) = is_up host && all_up is_up hosts

unfoldable pub any_up : (Text → Bool) → Dict Text Text → Bool
any_up is_up [] = false
any_up is_up ((key, host) ∷ hosts) = is_up host || any_up is_up hosts

abbrev pub values : Dict Text Text → List Text
values [] = []
values ((key, host) ∷ hosts) = host ∷ values hosts

unfoldable pub same_network : Option Text → Option Text → Bool
unfolding text_eq
same_network none none = true
same_network none (some b) = false
same_network (some a) none = false
same_network (some a) (some b) = a == b

-- A new episode where the token is another one
unfoldable pub in_episode : ℕ → Watch → Watch
unfolding nat_eq
in_episode token s =
    if token == s.episode then s else record s { failures = []; healthy = 0; episode = token }

abbrev pub rest_counts : Watch → Watch
rest_counts s = record s { failures = []; healthy = 0 }

abbrev pub identity_script : Text
identity_script =
    codes "Get-NetRoute -DestinationPrefix '0.0.0.0/0' -ErrorAction Stop | "
    ++ codes
        "Sort-Object InterfaceIndex,NextHop | Select-Object InterfaceIndex,NextHop | ConvertTo-Json -Compress"

-- `_ps`
abbrev pub powershell : Text → List Text
powershell script =
    codes "powershell"
    ∷ codes "-NoProfile"
    ∷ codes "-ExecutionPolicy"
    ∷ codes "Bypass"
    ∷ codes "-Command"
    ∷ script
    ∷ []

abbrev pub digest_of : (Text → Text) → Answer → Option Text
digest_of digest a = if a.code == 0 then some (digest (strip is_space a.output)) else none

module _ (W : Windows) (S : Setup) (digest : Text → Text)
    (is_paused : World W → Bool × World W) where
  -- The digest is SHA-256.
  unfoldable pub network_identity : Exec W (Option Text)
  network_identity =
      bind W (run_hidden W (powershell identity_script)) λ a. return W (digest_of digest a)

  abbrev pub Turn : Type 0
  Turn = Watch × World W

  abbrev pub clear_failed : World W → World W
  clear_failed w = record w { app = record w.app { failed = [] } }

  -- `self._recover(True, token)`; where it raises, the counts stay.
  abbrev pub switched : Watch → Result (Unit {0}) × World W → Turn
  switched s (ok u, w) = (record s { failures = [] }, w)
  switched s (err e, w) = (s, w)

  abbrev pub if_online : ℕ → Watch → Result (Dict Text ProbeResult) × World W → Turn
  if_online token s (ok controls, w) =
      if any_reliable controls then switched s (recover W S token true w) else (s, w)
  if_online token s (err e, w) = (s, w)

  abbrev pub act_on : ℕ → Watch → Bool → World W → Turn
  act_on token s up w =
      if any_failing s.failures
      then if up
        then switched s (recover W S token true w)
        else if_online token s (measure W S all_controls 1 w)
      else (s, w)

  -- `if healthy >= 2: self._recovery_failed.clear()`
  abbrev pub after_health : ℕ → World W → World W
  after_health healthy w = if leb 2 healthy then clear_failed w else w

  abbrev pub counted : ℕ → Watch → Dict Text Text → (Text → Bool) → World W → Turn
  counted token s hosts is_up w =
      let healthy = if all_up is_up hosts then s.healthy + 1 else 0 in
      act_on token
        (record s { failures = count_failures s.failures is_up hosts; healthy = healthy })
        (any_up is_up hosts) (after_health healthy w)

  abbrev pub if_valid : ℕ → Watch → Dict Text Text → Dict Text ProbeResult → Bool × World W → Turn
  if_valid token s hosts results (true, w) = counted token s hosts (answered results) w
  if_valid token s hosts results (false, w) = (s, w)

  abbrev pub probed : ℕ → Watch → Dict Text Text → Result (Dict Text ProbeResult) × World W → Turn
  probed token s hosts (ok results, w) = if_valid token s hosts results (is_valid W token w)
  probed token s hosts (err e, w) = (s, w)

  abbrev pub if_managed : ℕ → Watch → Bool × World W → Turn
  if_managed token s (true, w) =
      let hosts = quick_hosts (services_of S.services) in
      probed token s hosts (measure W S (values hosts) 1 w)
  if_managed token s (false, w) = (s, (recover W S token false w).1)

  abbrev pub watch : ℕ → Watch → World W → Turn
  watch token s w = if_managed token s (managed_bypass_running W S w)

  -- `token = self.runtime.request(expected=token)`
  abbrev pub if_requested : Watch → Option Text → Option ℕ × Controller → World W → Turn
  if_requested s network (none, c) w = (s, record w { controller = c })
  if_requested s network (some t, c) w =
      watch t (record s { failures = []; healthy = 0; network = some network; episode = t })
        (clear_failed (record w { controller = c }))

  abbrev pub in_network : ℕ → Watch → Option (Option Text) → Option Text → World W → Turn
  in_network token s none network w = watch token (record s { network = some network }) w
  in_network token s (some known) network w =
      if same_network known network
      then watch token s w
      else (let v = meanwhile W w in
          if_requested s network (request none (some token) v.controller) v)

  abbrev pub identified : ℕ → Watch → Result (Option Text) × World W → Turn
  identified token s (ok network, w) = in_network token s s.network network w
  identified token s (err e, w) = (s, w)

  abbrev pub if_wanted : ℕ → Watch → Text × World W → Turn
  if_wanted token s (d, w) =
      if d == codes "stopped" then (s, w) else identified token s (network_identity w)

  abbrev pub if_free : ℕ → Watch → Bool × World W → Turn
  if_free token s (true, w) = (rest_counts s, w)
  if_free token s (false, w) = if_wanted token s (desired W S w)

  abbrev pub if_waited : ℕ → Watch → Bool × World W → Turn
  if_waited token s (true, w) = if_free token s (is_paused w)
  if_waited token s (false, w) = (s, w)

  unfoldable pub turn : ℕ → Watch → World W → Turn
  turn token s w = if_waited token (in_episode token s) (is_valid W token w)
