-- ===== src/Config.antt =====
-- zapret_core.py: the settings file (`load_config`, `save_config`, `update_config`) and the
-- checks of an imported one (`_validate_config`).
pub mod Fields
pub mod Check
use zapret_gui.Base.{
  ℕ, Bool, true, false, not, ◌&&◌, ◌||◌, Option, none, some, List, [], ◌∷◌, ◌++◌, ◌==◌, contains,
  nat_eq, text_eq, if◌then◌else◌, leb,
}
use zapret_gui.Base.Dict
use zapret_gui.Base.Dict.{Dict}
use zapret_gui.Result.{Result, ok, err, Error, value_error, file_not_found}
use zapret_gui.Text.{Text, codes}
use zapret_gui.Json.{Json, Codec, obj, of_entries, as_dict}
use zapret_gui.Disk.{
  Bytes, World, Exec, pure, raise, read_file, copy_file, retry_locked, atomic_write, ◌>>=◌, ◌>>◌,
}

abbrev pub Settings : Type 0
Settings = Dict Text Json

-- The name of the copy of a damaged file; the stamp is `time.time_ns()` in digits.
abbrev pub broken_name : Text → Text → Text
broken_name config_file stamp = config_file ++ 46 ∷ (stamp ++ codes ".broken")

abbrev pub settings_of : Option Json → Option Settings
settings_of none = none
settings_of (some j) = as_dict j

module _ (c : Codec) (config_file : Text) where
  -- What the contents of the file stand for: none for a ValueError
  unfoldable pub read_settings : Bytes → Option Settings
  read_settings b = settings_of (c.parse b)

  abbrev pub or_backup : Text → Option Settings → Exec Settings
  or_backup stamp (some d) = pure d
  or_backup stamp none = do copy_file config_file (broken_name config_file stamp); pure []

  -- The two `except` clauses
  abbrev pub handle_load : Text → Result Bytes × World → Result Settings × World
  handle_load stamp (ok b, w) = or_backup stamp (read_settings b) w
  handle_load stamp (err file_not_found, w) = (ok [], w)
  handle_load stamp (err e, w) = (err e, w)

  unfoldable pub load_config : Text → Exec Settings
  load_config stamp w = handle_load stamp (retry_locked (read_file config_file) w)

  unfoldable pub save_config : Settings → Exec (Unit {0})
  save_config cfg = atomic_write config_file (c.dumps (obj (of_entries cfg)))

  -- The rest of `update_config` behind the load
  unfoldable pub store_updated : Settings → List Text → Settings → Exec Settings
  store_updated changes remove cfg = do
    let cfg' = Dict.erase_all remove (Dict.update changes cfg)
    save_config cfg'
    pure cfg'

  unfoldable pub update_config : Text → Settings → List Text → Exec Settings
  update_config stamp changes remove = load_config stamp >>= store_updated changes remove
