-- ===== src/Tests/Hosts.antt =====
-- The update of the default lists at concrete data. Every byte decodes to the character of its code.
use zapret_gui.Base.{◌≡◌, ◌≤◌, refl, true, Option, none, some, [], ◌∷◌, length, text_eq, nat_eq}
use zapret_gui.Base.Dict.{lookup, insert}
use zapret_gui.Result.{ok}
use zapret_gui.Text.{Text, codes, is_space}
use zapret_gui.Text.Strip.{strip}
use zapret_gui.Text.Split.{splitlines}
use zapret_gui.Json.{Codec, obj, of_entries}
use zapret_gui.Disk.{Bytes, World, read_file, retry_locked, atomic_write}
use zapret_gui.Transaction.{write_transaction}
use zapret_gui.Config.{load_config}
use zapret_gui.Hostlists.{
  validate_hostlist, list_lines, check_lines, is_list_line, labels_of, without_caret, is_list_label,
  max_bytes, collect, list_update_files, update_lists,
}
use zapret_gui.Hostlists.Valid.{IsList, validate_hostlist-IsList}
use zapret_gui.Hostlists.Update.{Listed, update_lists-Listed}

abbrev decode : Bytes → Option Text
decode content = some content

abbrev content : Bytes
content = codes "# list\na.org\n^b.c-d.net\n"

accepted : validate_hostlist decode content ≡ ok 2
unfolding validate_hostlist list_lines check_lines is_list_line labels_of without_caret
    is_list_label nat_eq splitlines strip is_space
accepted = refl

validate_hostlist-IsList_example : (length content ≤ max_bytes) × (1 ≤ 2) × IsList decode content 2
validate_hostlist-IsList_example = validate_hostlist-IsList decode content 2 accepted

abbrev codec : Codec
codec = record { parse = λ b. some (obj (of_entries [])); dumps = λ j. 9 ∷ [] }

abbrev fetch : Text → Option Bytes
fetch name = some content

abbrev start : World
start = record { disk = []; temp = none; faults = [] }

updated : (update_lists codec (codes "cfg") [] decode fetch (codes "lists\\") 5 start).0 ≡ true
unfolding update_lists collect validate_hostlist list_lines check_lines is_list_line labels_of
    without_caret is_list_label nat_eq load_config write_transaction atomic_write read_file
    retry_locked lookup insert text_eq splitlines strip is_space
updated = refl

update_lists-Listed_example :
    Listed codec
      (codes "cfg")
      []
      decode
      fetch
      (codes "lists\\")
      5
      list_update_files
      start
      (update_lists codec (codes "cfg") [] decode fetch (codes "lists\\") 5 start).1
update_lists-Listed_example =
    update_lists-Listed codec (codes "cfg") [] decode fetch (codes "lists\\") 5 start updated
