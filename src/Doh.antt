-- ===== src/Doh.antt =====
-- zapret_core.py, "Шифрованный DNS (DoH)": `_doh_previous`, `_validate_dns_snapshot`, and in the
-- children `doh_enable` and `doh_disable`. What PowerShell does to the adapters is a parameter, `System`;
-- the fields of the settings that the two operations use are a record, and `faults` says of each
-- `update_config` whether it raises an OSError.
pub mod Ops
pub mod Merge
pub mod Steps
pub mod Enable
pub mod Disable
use zapret_gui.Base.{
  ℕ, Bool, true, false, not, ◌&&◌, ◌||◌, Option, none, some, List, [], ◌∷◌, ◌==◌, nat_eq, text_eq,
  if◌then◌else◌, leb, all,
}
use zapret_gui.Base.Dict
use zapret_gui.Base.Dict.{Dict}
use zapret_gui.Result.{Result, Error, value_error, raise_if}
use zapret_gui.Text.{Text, codes, is_digits, to_int, is_space}
use zapret_gui.Text.Strip.{strip}
use zapret_gui.Text.Split.{split}
use zapret_gui.Json
use zapret_gui.Json.{Json, as_dict, as_str, as_list, entries}

-- An adapter in a snapshot of the DNS settings
pub record Entry : Type 0 where
  pub guid : Text
  pub automatic : Bool
  pub servers : List Text

abbrev pub Snapshot : Type 0
Snapshot = Dict Text Entry

-- `ipaddress.ip_address(s)` of version 4, printed; and whether `uuid.UUID(s)` accepts a text
pub record Addresses : Type 0 where
  pub ipv4 : Text → Option Text
  pub is_uuid : Text → Bool

-- `str(index).isdigit() and int(index) >= 1`
unfoldable pub is_index : Text → Bool
unfolding is_digits to_int
is_index i = is_digits i && leb 1 (to_int i)

-- `str(int(index))` of such a text
unfoldable pub canonical : Text → Text
unfolding nat_eq
canonical [] = []
canonical (c ∷ s) = let rest = canonical s in if c == 48 then rest else c ∷ s

abbrev is_nil {ℓ} : {A : Type ℓ} → List A → Bool
is_nil [] = true
is_nil (x ∷ xs) = false

abbrev valid_server : (Text → Option Text) → Text → Bool
valid_server ipv4 s = elim (ipv4 s) [ none ↦ false | some t ↦ true ]

-- The checks of one adapter, behind those of its types
unfoldable pub is_valid_entry : Addresses → Text → Entry → Bool
is_valid_entry a index e =
    is_index index
    && a.is_uuid e.guid
    && all (valid_server a.ipv4) e.servers
    && not (not e.automatic && is_nil e.servers)

unfoldable pub all_valid : Addresses → Snapshot → Bool
all_valid a [] = true
all_valid a ((index, e) ∷ d) = is_valid_entry a index e && all_valid a d

abbrev pub bad_snapshot : Error
bad_snapshot = value_error "Неверный адаптер DNS"

-- `_validate_dns_snapshot`
unfoldable pub validate_dns_snapshot : Addresses → Snapshot → Result (Unit {0})
validate_dns_snapshot a d = raise_if (is_nil d || not (all_valid a d)) bad_snapshot

abbrev strs : List Text → List Json
strs [] = []
strs (x ∷ xs) = Json.str x ∷ strs xs

-- `servers.split(",") if isinstance(servers, str) else servers`
abbrev raw_servers : Json → Option (List Json)
raw_servers (Json.str t) = some (strs (split (codes ",") t))
raw_servers (Json.arr xs) = some (Json.items xs)
raw_servers _ = none

-- The valid addresses; `str(server)` of a value that is no text is no address.
keep_servers : (Text → Option Text) → List Json → List Text
keep_servers ipv4 [] = []
keep_servers ipv4 (Json.str t ∷ rest) =
    let more = keep_servers ipv4 rest in
    elim (ipv4 (strip is_space t)) [ none ↦ more | some ip ↦ ip ∷ more ]
keep_servers ipv4 (_ ∷ rest) = keep_servers ipv4 rest

previous_from :
    (Text → Option Text) → Dict Text Json → Dict Text (List Text) → Dict Text (List Text)
previous_from ipv4 [] result = result
previous_from ipv4 ((index, servers) ∷ d) result = previous_from ipv4 d (
    if is_index index
    then elim (raw_servers servers) [
      | none ↦ result
      | some raw ↦ Dict.insert (canonical index) (keep_servers ipv4 raw) result
    ]
    else result)

-- `_doh_previous`
unfoldable pub doh_previous : Addresses → Option Json → Dict Text (List Text)
unfolding previous_from keep_servers canonical is_index split strip is_space as_dict Dict.insert
    text_eq
doh_previous a none = []
doh_previous a (some j) = elim (as_dict j) [ none ↦ [] | some d ↦ previous_from a.ipv4 d [] ]

-- The DNS fields of the settings; `snapshot` is none where it is absent.
pub record Config : Type 0 where
  pub enabled : Bool
  pub pending : Bool
  pub provider : Text
  pub snapshot : Option Snapshot
  pub prev : Option Json

-- PowerShell: the adapters as `_dns_snapshot` reads them, the registration of the DoH servers, and
-- `_dns_apply`, which returns the number of adapters that it skipped. A failure may leave any state.
pub record System : Type 1 where
  pub State : Type 0
  pub read_dns : State → Result Snapshot
  pub register : List Text → Text → State → Result (Unit {0}) × State
  pub apply : Snapshot → Option (List Text) → State → Result ℕ × State
