-- ===== src/Doh/Ops.antt =====
-- `doh_enable` and `doh_disable` as steps on the settings, the adapters and the faults.
use zapret_gui.Base.{
  ℕ, Bool, true, false, ◌&&◌, ◌||◌, Option, none, some, List, [], ◌∷◌, ◌==◌, contains, text_eq,
  if◌then◌else◌,
}
use zapret_gui.Base.Dict
use zapret_gui.Base.Dict.{Dict}
use zapret_gui.Result.{Result, ok, err, Error, value_error, runtime_error, os_error}
use zapret_gui.Text.{Text, codes, lower}
use zapret_gui.Doh.{Snapshot, Addresses, Config, System, validate_dns_snapshot, doh_previous}

-- `DOH_PROVIDERS`
unfoldable pub provider_of : Text → Option (List Text × Text)
unfolding text_eq
provider_of p =
    if p == codes "cloudflare"
    then some (codes "1.1.1.1" ∷ codes "1.0.0.1" ∷ [], codes "https://cloudflare-dns.com/dns-query")
    else if p == codes "google"
    then some (codes "8.8.8.8" ∷ codes "8.8.4.4" ∷ [], codes "https://dns.google/dns-query")
    else none

abbrev pub guids : Snapshot → List Text
guids [] = []
guids ((i, e) ∷ d) = lower e.guid ∷ guids d

abbrev pub is_none {ℓ} : {A : Type ℓ} → Option A → Bool
is_none none = true
is_none (some e) = false

abbrev pub is_nil {ℓ} : {A : Type ℓ} → List A → Bool
is_nil [] = true
is_nil (x ∷ xs) = false

-- The loop that adds the adapters that are new; `known` are the identifiers before it.
unfoldable pub merge : List Text → Snapshot → Snapshot → Result Snapshot
merge known [] saved = ok saved
merge known ((index, e) ∷ current) saved =
    let skip = merge known current saved in
    let more = merge known current (Dict.insert index e saved) in
    if contains known (lower e.guid)
    then skip
    else if is_none (Dict.lookup index saved)
    then more
    else err (runtime_error "Индекс адаптера изменился")

-- `dict(cfg.get("doh_snapshot") or {})`
abbrev pub or_empty : Option Snapshot → Snapshot
or_empty none = []
or_empty (some d) = d

abbrev pub incomplete : Error
incomplete = runtime_error "Откат DNS не завершён. Снимок сохранён."

-- `{**current[index], "servers": servers, "automatic": automatic or not servers}`, none where an
-- index of the old snapshot is not among the current ones
unfoldable pub legacy_snapshot : Bool → Snapshot → Dict Text (List Text) → Option Snapshot
legacy_snapshot automatic current [] = some []
legacy_snapshot automatic current ((index, servers) ∷ previous) =
    let rest = legacy_snapshot automatic current previous in
    elim (Dict.lookup index current) [
      | none ↦ none
      | some e ↦ elim rest [
        | none ↦ none
        | some d ↦
            some
              ((index, record e { automatic = automatic || is_nil servers; servers = servers }) ∷ d)
      ]
    ]

-- `_dns_snapshot` behind the reading
abbrev pub checked : Result (Unit {0}) → Snapshot → Result Snapshot
checked (ok u) d = ok d
checked (err e) d = err (runtime_error "Неверный снимок DNS; настройки не изменены")

abbrev pub checked_snapshot : Addresses → Result Snapshot → Result Snapshot
checked_snapshot a (ok d) = checked (validate_dns_snapshot a d) d
checked_snapshot a (err e) = err e

module _ (a : Addresses) (S : System) where
  -- The settings, the faults of the next writes of them, and the adapters
  pub record World : Type 0 where
    pub config : Config
    pub faults : List Bool
    pub state : S.State

  abbrev pub Exec : Type 0 → Type 0
  Exec A = World → Result A × World

  abbrev pub continue : {A B : Type 0} → Result A → (A → Exec B) → Exec B
  continue (ok x) f w = f x w
  continue (err e) f w = (err e, w)

  abbrev pub bind : {A B : Type 0} → Exec A → (A → Exec B) → Exec B
  bind m f w = let (r, w') = m w in continue r f w'

  abbrev pub raise : {A : Type 0} → Error → Exec A
  raise e w = (err e, w)

  -- A run of PowerShell
  abbrev pub run : {A : Type 0} → (S.State → Result A × S.State) → Exec A
  run m w = let (r, s) = m w.state in (r, record w { state = s })

  -- `update_config`: the settings are stored, or an OSError leaves them.
  unfoldable pub store : (Config → Config) → List Bool → Exec (Unit {0})
  store f [] w = (ok tt, record w { config = f w.config })
  store f (false ∷ fs) w = (ok tt, record w { config = f w.config; faults = fs })
  store f (true ∷ fs) w = (err os_error, record w { faults = fs })

  abbrev pub update_config : (Config → Config) → Exec (Unit {0})
  update_config f w = store f w.faults w

  abbrev pub dns_snapshot : Exec Snapshot
  dns_snapshot w = (checked_snapshot a (S.read_dns w.state), w)

  abbrev pub apply_checked : Result (Unit {0}) → Snapshot → Option (List Text) → Exec ℕ
  apply_checked (ok u) d ips = run (S.apply d ips)
  apply_checked (err e) d ips = raise e

  -- `_dns_apply`
  abbrev pub dns_apply : Snapshot → Option (List Text) → Exec ℕ
  dns_apply d ips = apply_checked (validate_dns_snapshot a d) d ips

  -- The body of the `try`
  unfoldable pub attempt : List Text × Text → Text → Snapshot → Exec (Unit {0})
  attempt (ips, template) provider current = bind (run (S.register ips template)) λ _.
      bind (dns_apply current (some ips))
        λ _. update_config λ c. record c { enabled = true; provider = provider; pending = false }

  abbrev pub forget : Bool → Config → Config
  forget enabled c = record c { pending = false; snapshot = if enabled then c.snapshot else none }

  abbrev pub roll_back : Bool → Snapshot → Exec (Unit {0})
  roll_back enabled current = bind (dns_apply current none) λ _. update_config (forget enabled)

  abbrev pub report : Error → Result (Unit {0}) × World → Result Bool × World
  report exc (ok u, w) = (err exc, w)
  report exc (err e, w) = (err incomplete, w)

  -- `except Exception as exc`
  abbrev pub handle : Bool → Snapshot → Result (Unit {0}) × World → Result Bool × World
  handle enabled current (ok u, w) = (ok true, w)
  handle enabled current (err exc, w) = report exc (roll_back enabled current w)

  -- From the durable snapshot on
  abbrev pub enable_saved : List Text × Text → Text → Bool → Snapshot → Snapshot → Exec Bool
  enable_saved p provider enabled current saved =
      bind (update_config λ c. record c { snapshot = some saved; pending = true })
        λ _ w. handle enabled current (attempt p provider current w)

  abbrev pub enable_merged : List Text × Text → Text → Bool → Snapshot → Result Snapshot → Exec Bool
  enable_merged p provider enabled current (err e) = raise e
  enable_merged p provider enabled current (ok saved) =
      continue (validate_dns_snapshot a saved) λ _. enable_saved p provider enabled current saved

  -- Behind the reading of the adapters
  unfoldable pub enable_on : List Text × Text → Text → Config → Snapshot → Exec Bool
  enable_on p provider cfg current =
      let saved = or_empty cfg.snapshot in
      if cfg.enabled && is_nil saved
      then raise (runtime_error "Сначала отключите прежний DoH: отсутствует снимок режима DNS")
      else enable_merged p provider cfg.enabled current (merge (guids saved) current saved)

  abbrev pub restore_first : Error
  restore_first = runtime_error "Сначала восстановите DNS после незавершённой операции"

  abbrev pub enable_from : Option (List Text × Text) → Text → Exec Bool
  enable_from none provider w = (err (value_error "Неизвестный DoH-провайдер"), w)
  enable_from (some p) provider w =
      if w.config.pending
      then (err restore_first, w)
      else bind dns_snapshot (enable_on p provider w.config) w

  unfoldable pub doh_enable : Text → Exec Bool
  doh_enable provider = enable_from (provider_of provider) provider

  abbrev pub cleared : Config → Config
  cleared c = record c { enabled = false; pending = false; snapshot = none; prev = none }

  -- `if saved`; it returns the number of adapters that were skipped, and 0 for True.
  unfoldable pub disable_saved : Snapshot → Exec ℕ
  disable_saved [] = raise (runtime_error "Нет полного снимка исходного DNS")
  disable_saved (e ∷ saved) =
      bind (λ w. (validate_dns_snapshot a (e ∷ saved), w))
        λ _. bind (update_config λ c. record c { pending = true }) λ _.
          bind (dns_apply (e ∷ saved) none)
            λ skipped. bind (update_config cleared) λ _ w. (ok skipped, w)

  abbrev pub disable_legacy : Option Snapshot → Exec ℕ
  disable_legacy none =
      raise (runtime_error "Адаптеры старого снимка отсутствуют; восстановите DNS в Windows")
  disable_legacy (some []) =
      raise (runtime_error "Адаптеры старого снимка отсутствуют; восстановите DNS в Windows")
  disable_legacy (some (e ∷ saved)) =
      bind (update_config λ c. record c { snapshot = some (e ∷ saved) })
        λ _. disable_saved (e ∷ saved)

  -- The legacy mode: true for "automatic", false for "static", none for the others
  abbrev pub disable_from : Option Bool → Snapshot → Exec ℕ
  disable_from legacy (e ∷ saved) w = disable_saved (e ∷ saved) w
  disable_from none [] w = disable_saved [] w
  disable_from (some automatic) [] w =
      bind dns_snapshot
        (λ current.
          disable_legacy (legacy_snapshot automatic current (doh_previous a w.config.prev)))
        w

  unfoldable pub doh_disable : Option Bool → Exec ℕ
  doh_disable legacy w = disable_from legacy (or_empty w.config.snapshot) w
