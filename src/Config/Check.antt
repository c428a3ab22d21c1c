-- ===== src/Config/Check.antt =====
-- zapret_core.py: `_validate_config`, the checks of imported settings, in their order.
use zapret_gui.Base.{
  Bool, true, false, not, ◌&&◌, Option, none, some, List, [], ◌∷◌, contains, text_eq, if◌then◌else◌,
  leb, any,
}
use zapret_gui.Base.Dict
use zapret_gui.Base.Dict.{Dict}
use zapret_gui.Result.{Result, ok, err, Error, value_error, type_error, ◌>>◌, raise_if}
use zapret_gui.Text.{Text, codes}
use zapret_gui.Json
use zapret_gui.Json.{Json, Kind, kind, same_type, as_str, as_dict, as_list, items}
use zapret_gui.Config.{Settings}

abbrev pub bad_type : Error
bad_type = value_error "Неверный тип настройки"

-- `expected is not None and type(value) is not type(expected)`
abbrev pub differs : Json → Option Json → Bool
differs v none = false
differs v (some Json.null) = false
differs v (some e) = not (same_type v e)

-- The first loop, over the new settings, against the stored ones
unfoldable pub check_types : Settings → Settings → Result (Unit {0})
unfolding same_type Dict.lookup
check_types current [] = ok tt
check_types current ((k, v) ∷ cfg) = do
  raise_if (differs v (Dict.lookup k current)) bad_type
  check_types current cfg

-- `key in cfg and <bad>`
abbrev pub bad_field : (Json → Bool) → Option Json → Bool
bad_field bad none = false
bad_field bad (some v) = bad v

-- `for key in keys: if key in cfg and <bad>: raise`
unfoldable pub check_keys : (Json → Bool) → Error → Settings → List Text → Result (Unit {0})
unfolding Dict.lookup
check_keys bad e cfg [] = ok tt
check_keys bad e cfg (k ∷ ks) = do
  raise_if (bad_field bad (Dict.lookup k cfg)) e
  check_keys bad e cfg ks

abbrev pub not_str : Json → Bool
not_str (Json.str t) = false
not_str _ = true

abbrev pub not_bool : Json → Bool
not_bool (Json.bool b) = false
not_bool _ = true

-- `cfg[key] not in choices`
abbrev pub not_in : List Text → Json → Bool
not_in choices (Json.str t) = not (contains choices t)
not_in choices _ = true

abbrev pub bad_port : Json → Bool
bad_port (Json.int n) = not (leb 1 n && leb n 65535)
bad_port _ = true

abbrev pub text_keys : List Text
text_keys =
    codes "strategy"
    ∷ codes "appearance"
    ∷ codes "ui_mode"
    ∷ codes "tg_secret"
    ∷ codes "doh_provider"
    ∷ []

abbrev pub bool_keys : List Text
bool_keys =
    codes "auto_fast"
    ∷ codes "auto_recovery"
    ∷ codes "auto_research_on_fail"
    ∷ codes "autostart_bypass"
    ∷ codes "first_run_done"
    ∷ codes "minimize_to_tray"
    ∷ codes "notifications"
    ∷ codes "svc_stopped_for_search"
    ∷ codes "doh_enabled"
    ∷ codes "doh_pending"
    ∷ codes "lists_auto_update"
    ∷ codes "tg_cfproxy"
    ∷ codes "autostart_proxy"
    ∷ []

abbrev pub more_text_keys : List Text
more_text_keys =
    codes "accent_name"
    ∷ codes "last_working_strategy"
    ∷ codes "defaults_version"
    ∷ codes "resume_after_update"
    ∷ []

abbrev pub services : List Text
services = codes "discord" ∷ codes "youtube" ∷ codes "google" ∷ []

abbrev pub bad_services : Error
bad_services = value_error "Неверные сервисы восстановления"

-- `any(s not in AUTO_TARGETS for s in xs)`: a list or an object has no hash.
unfoldable pub check_services : List Json → Result (Unit {0})
unfolding text_eq
check_services [] = ok tt
check_services (Json.arr xs ∷ rest) = err type_error
check_services (Json.obj fs ∷ rest) = err type_error
check_services (Json.str t ∷ rest) =
    let more = check_services rest in if contains services t then more else err bad_services
check_services (_ ∷ rest) = err bad_services

abbrev pub check_service_list : Option Json → Result (Unit {0})
check_service_list none = ok tt
check_service_list (some (Json.arr Json.nil)) = err bad_services
check_service_list (some (Json.arr (Json.cons x xs))) = check_services (x ∷ items xs)
check_service_list (some _) = err bad_services

abbrev pub bad_pool : Json → Bool
bad_pool (Json.arr xs) = any not_str (items xs)
bad_pool _ = true

-- Behind the load of the stored settings
unfoldable pub check_settings : Settings → Settings → Result (Unit {0})
unfolding check_types check_keys check_services Dict.lookup text_eq
check_settings current cfg = do
  check_types current cfg
  check_keys not_str bad_type cfg text_keys
  check_keys not_bool (value_error "Настройка должна быть логической") cfg bool_keys
  check_keys not_str bad_type cfg more_text_keys
  check_keys (not_in (codes "light" ∷ codes "dark" ∷ codes "system" ∷ []))
      (value_error "Неизвестное значение настройки") cfg (codes "appearance" ∷ [])
  check_keys (not_in (codes "simple" ∷ codes "advanced" ∷ []))
      (value_error "Неизвестное значение настройки") cfg (codes "ui_mode" ∷ [])
  check_keys bad_port (value_error "Недопустимый порт Telegram") cfg (codes "tg_port" ∷ [])
  check_service_list (Dict.lookup (codes "recovery_services") cfg)
  check_keys bad_pool (value_error "Неверный пул восстановления") cfg (codes "recovery_pool" ∷ [])
