-- ===== src/Tests/Files.antt =====
-- The file helpers, the transaction and the settings at concrete data.
use zapret_gui.Base.{◌≡◌, refl, true, Option, none, some, List, [], ◌∷◌, arith, text_eq, nat_eq}
use zapret_gui.Base.Dict
use zapret_gui.Base.Dict.{Dict, lookup, insert, NodupKeys}
use zapret_gui.Result.{ok}
use zapret_gui.Text.{Text, codes}
use zapret_gui.Disk.{Bytes, World, Fault, fine, broken, atomic_write, retry_locked, read_file}
use zapret_gui.Disk.Atomic.{Written, atomic_write-Written, locks, atomic_write-locks}
use zapret_gui.Transaction.{write_transaction}
use zapret_gui.Transaction.Outcome.{Outcome, write_transaction-Outcome}
use zapret_gui.Json.{Json, Codec, obj, of_entries, bool, str, arr, cons, nil, as_dict}
use zapret_gui.Config.{
  Settings, load_config, update_config, store_updated, save_config, read_settings,
}
use zapret_gui.Config.Fields.{Updated, update_config-Updated}
use zapret_gui.Presets.{validate_presets}
use zapret_gui.Presets.Valid.{IsValid, validate_presets-IsValid}

abbrev path : Text
path = codes "a"

abbrev world : Dict Text Bytes → List Fault → World
world d fs = record { disk = d; temp = none; faults = fs }

abbrev two_files : Dict Text Bytes
two_files = (codes "a", 1 ∷ []) ∷ (codes "b", 2 ∷ []) ∷ []

abbrev old_disk : Dict Text Bytes
old_disk = (codes "a", 7 ∷ []) ∷ []

-- The write of the second file fails: two reads, two accesses for each write.
abbrev failing : World
failing = world old_disk (fine ∷ fine ∷ fine ∷ fine ∷ fine ∷ fine ∷ broken ∷ [])

rolled_back : lookup (codes "a") (write_transaction two_files failing).1.disk ≡ some (7 ∷ [])
unfolding write_transaction atomic_write lookup text_eq
rolled_back = refl

atomic_write-Written_example :
    Written path
      (5 ∷ [])
      failing
      (atomic_write path (5 ∷ []) failing).0
      (atomic_write path (5 ∷ []) failing).1
atomic_write-Written_example = atomic_write-Written path (5 ∷ []) failing

atomic_write-locks_example :
    atomic_write path (5 ∷ []) (record { disk = old_disk; temp = none; faults = fine ∷ locks 3 [] })
    ≡ (ok tt, record { disk = insert path (5 ∷ []) old_disk; temp = none; faults = [] })
atomic_write-locks_example = atomic_write-locks path (5 ∷ []) 3 [] old_disk none (omega arith)

write_transaction-Outcome_example :
    Outcome two_files failing
      (write_transaction two_files failing).0
      (write_transaction two_files failing).1
write_transaction-Outcome_example = write_transaction-Outcome two_files failing

abbrev settings : Settings
settings = (codes "ui_mode", str (codes "simple")) ∷ []

-- A codec of one value
abbrev codec : Codec
codec = record { parse = read; dumps = λ j. 9 ∷ [] }
  where
    read : Bytes → Option Json
    read [] = none
    read (b ∷ bs) = some (obj (of_entries settings))

abbrev stored : Dict Text Bytes
stored = (codes "cfg", 9 ∷ []) ∷ []

abbrev change : Settings
change = (codes "doh_enabled", bool true) ∷ []

change_result :
    (update_config codec (codes "cfg") [] change [] (world stored [])).0
    ≡ ok ((codes "ui_mode", str (codes "simple")) ∷ (codes "doh_enabled", bool true) ∷ [])
unfolding update_config load_config retry_locked read_file read_settings lookup insert text_eq
    atomic_write Dict.update as_dict store_updated save_config Dict.erase_all
change_result = refl

update_config-Updated_example :
    Updated codec
      (codes "cfg")
      change
      []
      (load_config codec (codes "cfg") [] (world stored []))
      ((codes "ui_mode", str (codes "simple")) ∷ (codes "doh_enabled", bool true) ∷ [])
      (update_config codec (codes "cfg") [] change [] (world stored [])).1
update_config-Updated_example =
    update_config-Updated codec (codes "cfg") [] change [] (world stored [])
      ((codes "ui_mode", str (codes "simple")) ∷ (codes "doh_enabled", bool true) ∷ [])
      change_result

abbrev preset : Json
preset = obj (
    of_entries
      ((codes "name", str (codes "ALT")) ∷ (codes "args", str (codes "--wf-tcp=443")) ∷ []))

abbrev preset_file : Json
preset_file = obj (of_entries ((codes "presets", arr (cons preset nil)) ∷ []))

preset_file_valid : validate_presets preset_file ≡ ok (preset ∷ [])
unfolding validate_presets nat_eq
preset_file_valid = refl

validate_presets-IsValid_example : IsValid (preset ∷ [])
validate_presets-IsValid_example =
    validate_presets-IsValid preset_file (preset ∷ []) preset_file_valid
