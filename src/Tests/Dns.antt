-- ===== src/Tests/Dns.antt =====
-- The encrypted DNS and the exclusion lists at concrete data.
use zapret_gui.Base.{
  ◌≡◌, refl, true, false, Option, none, some, List, [], ◌∷◌, contains, text_eq, nat_eq, bool_eq,
}
use zapret_gui.Result.{ok}
use zapret_gui.Text.{Text, codes}
use zapret_gui.Doh.{Snapshot, Addresses, Config, System}
use zapret_gui.Doh.Ops.{World, doh_enable, doh_disable}
use zapret_gui.Doh.Enable.{Enabled, doh_enable-Enabled}
use zapret_gui.Doh.Disable.{Disabled, doh_disable-Disabled}
use zapret_gui.Exclusions.{set_lines, game_exclude_domains, is_entry}
use zapret_gui.Exclusions.Membership.{lines_after, as_asked, set_lines-membership}

-- Every text is an address and an identifier.
abbrev addresses : Addresses
addresses = record { ipv4 = λ s. some s; is_uuid = λ s. true }

-- The state of the adapters is the last snapshot and addresses that were applied.
abbrev system : System
system = record {
  State = Snapshot × Option (List Text);
  read_dns = λ s. ok s.0;
  register = λ ips template s. (ok tt, s);
  apply = λ d ips s. (ok 0, (d, ips));
}

abbrev adapters : Snapshot
adapters = (codes "7", record { guid = codes "g"; automatic = true; servers = [] }) ∷ []

abbrev fresh : Config
fresh = record { enabled = false; pending = false; provider = []; snapshot = none; prev = none }

-- The second write of the settings fails.
abbrev start : World addresses system
start = record { config = fresh; faults = false ∷ true ∷ []; state = (adapters, none) }

abbrev google : Text
google = codes "google"

doh_enable-Enabled_example :
    Enabled addresses system google start
      (doh_enable addresses system google start).0
      (doh_enable addresses system google start).1
doh_enable-Enabled_example = doh_enable-Enabled addresses system google start

doh_disable-Disabled_example :
    Disabled addresses system start
      (doh_disable addresses system none start).0
      (doh_disable addresses system none start).1
doh_disable-Disabled_example = doh_disable-Disabled addresses system none start

abbrev user_lines : List Text
user_lines = codes "a.org" ∷ codes "dota2.com" ∷ []

is_entry-dota : is_entry (codes "dota2.com") ≡ true
unfolding text_eq
is_entry-dota = refl

set_lines-membership_example :
    contains (lines_after (set_lines false user_lines) user_lines) (codes "dota2.com")
    ≡ as_asked false
        (contains game_exclude_domains (codes "dota2.com"))
        (contains user_lines (codes "dota2.com"))
set_lines-membership_example =
    set_lines-membership false user_lines (codes "dota2.com") is_entry-dota
