-- ===== src/Import.antt =====
-- zapret_core.py: `export_settings` and `import_settings`, over the codec of `Json`, the settings
-- of `Config`, the presets of `Presets` and the transaction of `Transaction`.
pub mod Refused
use zapret_gui.Base.{Option, none, some, [], ◌∷◌, text_eq}
use zapret_gui.Base.Dict
use zapret_gui.Base.Dict.{Dict}
use zapret_gui.Result.{Result, ok, err, Error, value_error, type_error}
use zapret_gui.Text.{Text, codes}
use zapret_gui.Json.{Json, Codec, obj, of_entries, as_dict, str}
use zapret_gui.Disk.{Bytes, World, Exec, pure, raise, read_file, ◌>>=◌, ◌>>◌}
use zapret_gui.Presets.{validate_presets}
use zapret_gui.Config.{Settings, load_config}
use zapret_gui.Config.Check.{check_settings}
use zapret_gui.Transaction.{write_transaction}

-- `(True, …)`, or `(False, str(exc))` and the two other refusals
pub data Reply : Type 0 where
  imported : Reply
  refused : Error → Reply
  wrong_format nothing_in_file : Reply

-- A pure check among the actions
abbrev pub lift : {A : Type 0} → Result A → Exec A
lift r w = (r, w)

module _ (c : Codec) (config_file presets_file stamp : Text) where
  -- `_validate_config`
  abbrev pub validate_dict : Option Settings → Exec (Unit {0})
  validate_dict none = raise (value_error "Настройки должны быть объектом")
  validate_dict (some cfg) =
      load_config c config_file stamp >>= λ current. lift (check_settings current cfg)

  abbrev pub validate_config : Json → Exec (Unit {0})
  validate_config j = validate_dict (as_dict j)

  -- `if "config" in data`
  abbrev pub config_part : Option Json → Exec (Dict Text Bytes)
  config_part none = pure []
  config_part (some j) = validate_config j >> pure ((config_file, c.dumps j) ∷ [])

  -- `if "presets" in data`
  abbrev pub presets_part : Option Json → Dict Text Bytes → Exec (Dict Text Bytes)
  presets_part none files = pure files
  presets_part (some j) files =
      lift (validate_presets j) >>= λ _. pure (Dict.insert presets_file (c.dumps j) files)

  abbrev pub write_parts : Dict Text Bytes → Exec Reply
  write_parts [] = pure nothing_in_file
  write_parts (f ∷ files) = write_transaction (f ∷ files) >> pure imported

  -- The body of the `try`
  unfoldable pub import_parts : Settings → Exec Reply
  unfolding Dict.lookup Dict.insert validate_presets check_settings load_config write_transaction
  import_parts d = do
    files ← config_part (Dict.lookup (codes "config") d)
    files' ← presets_part (Dict.lookup (codes "presets") d) files
    write_parts files'

  -- `except (ValueError, OSError, RuntimeError) as exc`
  abbrev pub caught : Result Reply × World → Result Reply × World
  caught (ok r, w) = (ok r, w)
  caught (err type_error, w) = (err type_error, w)
  caught (err e, w) = (ok (refused e), w)

  abbrev pub import_dict : Option Settings → Exec Reply
  import_dict none w = (ok wrong_format, w)
  import_dict (some d) w = caught (import_parts d w)

  abbrev pub import_json : Option Json → Exec Reply
  import_json none = raise (value_error "json")
  import_json (some j) = import_dict (as_dict j)

  unfoldable pub import_settings : Text → Exec Reply
  unfolding import_parts as_dict read_file
  import_settings path = do b ← read_file path; import_json (c.parse b)

  -- What `json.load` of the presets gives `export_settings`, none where it raises
  abbrev presets_field : Option Json → Settings
  presets_field none = []
  presets_field (some j) = (codes "presets", j) ∷ []

  -- The object that `export_settings` writes
  abbrev pub exported : Text → Settings → Option Json → Json
  exported version cfg presets = obj (
      of_entries (
        (codes "app", str (codes "ZapretGUI"))
        ∷ (codes "version", str version)
        ∷ (codes "config", obj (of_entries cfg))
        ∷ presets_field presets))
