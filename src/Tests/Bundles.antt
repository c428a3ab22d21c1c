-- ===== src/Tests/Bundles.antt =====
-- The .bat files, the built-in files, the Telegram settings and the tickets at concrete data.
use zapret_gui.Base.{
  ℕ, ◌≡◌, refl, ◌==◌, Bool, Option, true, false, none, some, List, [], ◌∷◌, ◌++◌, map, contains,
  text_eq, nat_eq, All,
}
use zapret_gui.Base.Dict.{Dict, lookup, NodupKeys}
use zapret_gui.Text.{Text, codes, lower, has, ends_with, is_space, join}
use zapret_gui.Text.Strip.{rstrip}
use zapret_gui.Paths.{Layout}
use zapret_gui.Json.{Codec, obj, of_entries}
use zapret_gui.Disk.{Bytes, World}
use zapret_gui.Runtime.{init, valid}
use zapret_gui.Runtime.Tickets.{
  Call, asks, wants, shuts, perform_all, issue_all, first, honours, controller_lem,
}
use zapret_gui.Bats.{
  Entries, BatPreset, presets_from_bats, winws_exe, natural_key, natural_before, is_superscript,
  args_behind, extract_winws_lines, preset_id,
}
use zapret_gui.Bats.Command.{continued, Lacks, extract_winws_lines_lem}
use zapret_gui.Result.{ok, err, value_error}
use zapret_gui.Bats.Keys.{IsBat, presets_from_bats-IsBat}
use zapret_gui.Deploy.{Bundle, integrity_subdirs, of_dirs, ensure_runtime, verify_runtime}
use zapret_gui.Deploy.Kept.{Adds, ensure_runtime_lem, still, AllFixed, verify_runtime-AllFixed}
use zapret_gui.Hostlists.Ipset.{update_ipset}
use zapret_gui.Hostlists.Ipset.Stored.{IsUpdate, update_ipset-IsUpdate}
use zapret_gui.Config.{broken_name}
use zapret_gui.Transaction.{backup}
use zapret_gui.Import.{import_settings}
use zapret_gui.Import.Refused.{IsRefusal, import_settings-IsRefusal}
use zapret_gui.Telegram.{is_secret_text, tg_get_port, tg_get_secret}
use zapret_gui.Telegram.Ranges.{IsPort, IsSecret, tg_settings_lem}

number_order : natural_before (codes "a2") (codes "a10") ≡ true
unfolding natural_before nat_eq
number_order = refl

superscript_raises : natural_key (49 ∷ 0xb2 ∷ 50 ∷ []) ≡ err (value_error "int")
unfolding natural_key is_superscript nat_eq
superscript_raises = refl

abbrev bat_files : Entries
bat_files =
    (codes "General 2.bat", some (codes "start winws.exe --x"))
    ∷ (codes "service.bat", some (codes "winws.exe"))
    ∷ []

abbrev bat_preset : BatPreset
bat_preset = record {
  id = codes "general_2";
  name = codes "General 2";
  source_bat = codes "General 2.bat";
  recommended = false;
  args = codes "--x";
}

bats_found : presets_from_bats bat_files ≡ ok (bat_preset ∷ [])
unfolding presets_from_bats nat_eq text_eq
bats_found = refl

presets_from_bats-IsBat_example : All IsBat (bat_preset ∷ [])
presets_from_bats-IsBat_example = presets_from_bats-IsBat bat_files (bat_preset ∷ []) bats_found

spaces_become_lines : preset_id (codes "general (ALT)") ≡ codes "general_alt"
unfolding preset_id
spaces_become_lines = refl

abbrev heads : List Text
heads = codes "@echo off" ∷ []

abbrev first_line : Text
first_line = codes "start winws.exe --x"

abbrev last_line : Text
last_line = codes "--y"

no_command : All Lacks heads
unfolding has lower
no_command = (refl, tt)

has_command : has winws_exe (lower (continued first_line)) ≡ true
unfolding has lower
has_command = refl

goes_on : ends_with (codes "^") (rstrip is_space last_line) ≡ false
unfolding ends_with rstrip is_space nat_eq
goes_on = refl

extract_winws_lines_lem_example :
    extract_winws_lines (heads ++ (map continued (first_line ∷ []) ++ last_line ∷ []))
    ≡ some (args_behind (join (codes " ") (first_line ∷ [] ++ rstrip is_space last_line ∷ [])))
extract_winws_lines_lem_example =
    extract_winws_lines_lem heads first_line [] last_line [] no_command has_command goes_on

abbrev layout : Layout
layout = record { base = codes "C:\\z" }

abbrev bundle : Bundle
bundle = record {
  dirs = (codes "bin", (codes "winws.exe", 1 ∷ []) ∷ []) ∷ [];
  root = (codes "general.bat", 2 ∷ []) ∷ [];
}

abbrev old_disk : Dict Text Bytes
old_disk = (codes "C:\\z\\bin\\winws.exe", 7 ∷ []) ∷ []

abbrev world : World
world = record { disk = old_disk; temp = none; faults = [] }

ensure_runtime_lem_example :
    Adds world (ensure_runtime layout (some bundle) world).1
    × ((q : Text)
        → contains (ensure_runtime layout (some bundle) world).0 q ≡ true
        → lookup q world.disk ≡ none)
ensure_runtime_lem_example = ensure_runtime_lem layout (some bundle) world

abbrev sha256 : Bytes → Text
sha256 b = b

distinct_targets : NodupKeys (of_dirs layout bundle integrity_subdirs)
unfolding of_dirs lookup text_eq
distinct_targets = (refl, tt)

verify_runtime-AllFixed_example :
    AllFixed sha256
      (of_dirs layout bundle integrity_subdirs)
      old_disk
      none
      (verify_runtime sha256 layout (some bundle) (still sha256 old_disk none)).1
verify_runtime-AllFixed_example =
    verify_runtime-AllFixed sha256 layout bundle old_disk none distinct_targets

abbrev codec : Codec
codec = record { parse = λ b. some (obj (of_entries [])); dumps = λ j. 9 ∷ [] }

abbrev hex : Text
hex = codes "0123456789abcdef0123456789abcdef"

hex_is_secret : is_secret_text hex ≡ true
unfolding is_secret_text
hex_is_secret = refl

tg_settings_lem_example :
    IsPort (tg_get_port codec (codes "cfg") [] world).0
    × IsSecret codec (codes "cfg") [] (tg_get_secret codec (codes "cfg") [] hex world)
tg_settings_lem_example = tg_settings_lem codec (codes "cfg") [] hex world hex_is_secret

abbrev calls : List Call
calls = asks (some (codes "on")) none ∷ wants 1 (codes "service") ∷ asks none (some 0) ∷ shuts ∷ []

controller_lem_example :
    let s = perform_all calls (init (codes "off")) in
    let a = issue_all calls (first (codes "off")) in
    ((t : ℕ) → valid t s ≡ honours t a) × (s.token ≡ a.newest) × (s.desired ≡ a.wanted)
controller_lem_example = controller_lem (codes "off") calls

abbrev decode : Bytes → Option Text
decode b = some b

abbrev is_network : Text → Bool
is_network t = true

update_ipset-IsUpdate_example :
    IsUpdate is_network
      (codes "C:\\z\\ipset")
      decode
      (some (codes "10.0.0.0/8"))
      world
      (update_ipset is_network (codes "C:\\z\\ipset") decode (some (codes "10.0.0.0/8")) world)
update_ipset-IsUpdate_example =
    update_ipset-IsUpdate is_network (codes "C:\\z\\ipset") decode (some (codes "10.0.0.0/8")) world

abbrev settings_path : Text
settings_path = codes "config.json"

abbrev presets_path : Text
presets_path = codes "presets.json"

no_broken_copy : (settings_path == broken_name settings_path (codes "1")) ≡ false
unfolding text_eq
no_broken_copy = refl

no_settings_backup : (settings_path == backup settings_path) ≡ false
unfolding text_eq
no_settings_backup = refl

no_presets_backup : (settings_path == backup presets_path) ≡ false
unfolding text_eq
no_presets_backup = refl

import_settings-IsRefusal_example :
    IsRefusal codec settings_path presets_path
      (codes "1")
      settings_path
      (lookup settings_path world.disk)
      no_broken_copy
      no_settings_backup
      no_presets_backup
      (import_settings codec settings_path presets_path
        (codes "1")
        (codes "C:\\z\\bin\\winws.exe")
        world)
import_settings-IsRefusal_example =
    import_settings-IsRefusal codec settings_path presets_path (codes "1") settings_path
      no_broken_copy no_settings_backup no_presets_backup (codes "C:\\z\\bin\\winws.exe") world
