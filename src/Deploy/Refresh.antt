-- ===== src/Deploy/Refresh.antt =====
-- zapret_core.py: `refresh_defaults`. The presets on the disk are those that load_presets returns;
-- `.bat` files are given with their contents.
use zapret_gui.Base.{
  Bool, true, false, ◌&&◌, Option, none, some, List, [], ◌∷◌, ◌++◌, ◌==◌, contains, text_eq,
  if◌then◌else◌,
}
use zapret_gui.Base.Dict
use zapret_gui.Base.Dict.{Dict}
use zapret_gui.Result.{Result, ok, err, Error, value_error, type_error}
use zapret_gui.Text.{Text, codes}
use zapret_gui.Paths.{Layout, below, presets_json, config_file}
use zapret_gui.Json.{
  Json, Items, nil, cons, str, arr, obj, of_entries, as_dict, as_list, as_str, Codec,
}
use zapret_gui.Disk.{Bytes, World, Exec, pure, raise, read_file, exists, atomic_write, ◌>>=◌, ◌>>◌}
use zapret_gui.Config.{load_config, update_config}
use zapret_gui.Bats.{Entries, load_presets}
use zapret_gui.Hostlists.Ipset.{back_up}
use zapret_gui.Deploy.{copy_in}

abbrev pub refresh_default_files : List Text
refresh_default_files =
    codes "lists\\list-general.txt"
    ∷ codes "lists\\list-google.txt"
    ∷ codes "lists\\list-exclude.txt"
    ∷ codes "lists\\ipset-exclude.txt"
    ∷ []

-- `p["name"]`
abbrev pub name_in : Option (Dict Text Json) → Option Text
name_in none = none
name_in (some d) = text_in (Dict.lookup (codes "name") d)
  where
    text_in : Option Json → Option Text
    text_in none = none
    text_in (some j) = as_str j

unfoldable pub preset_name : Json → Option Text
unfolding as_dict as_str Dict.lookup text_eq
preset_name j = name_in (as_dict j)

-- `{p["name"] for p in incoming["presets"]}`, none for the KeyError or TypeError
unfoldable pub names_of : List Json → Option (List Text)
unfolding preset_name
names_of [] = some []
names_of (j ∷ js) = add (preset_name j) (names_of js)
  where
    add : Option Text → Option (List Text) → Option (List Text)
    add none rest = none
    add (some n) none = none
    add (some n) (some ns) = some (n ∷ ns)

abbrev pub is_known : List Text → Option Text → Bool
is_known names none = false
is_known names (some n) = contains names n

-- The presets of the user that are not among the new ones
unfoldable pub own_presets : List Text → List Json → List Json
unfolding preset_name text_eq
own_presets names [] = []
own_presets names (p ∷ presets) =
    let rest = own_presets names presets in
    if is_known names (preset_name p) then rest else p ∷ rest

abbrev pub of_items : List Json → Items
of_items [] = nil
of_items (j ∷ js) = cons j (of_items js)

-- `incoming` with its presets extended
abbrev pub extended : Dict Text Json → List Json → Option (List Text) → List Json → Option Json
extended incoming new none own = none
extended incoming new (some names) own = some (
    obj (
      of_entries
        (Dict.insert (codes "presets") (arr (of_items (new ++ own_presets names own))) incoming)))

abbrev pub listed : Option Json → Option (List Json)
listed none = none
listed (some j) = as_list j

abbrev pub merge_list : Dict Text Json → List Json → Option (List Json) → Option Json
merge_list incoming own none = none
merge_list incoming own (some new) = extended incoming new (names_of new) own

abbrev pub merge_dict : List Json → Option (Dict Text Json) → Option Json
merge_dict own none = none
merge_dict own (some incoming) =
    merge_list incoming own (listed (Dict.lookup (codes "presets") incoming))

unfoldable pub merge_presets : Json → List Json → Option Json
unfolding as_dict as_list Dict.lookup Dict.insert text_eq names_of own_presets
merge_presets incoming own = merge_dict own (as_dict incoming)

abbrev pub bytes_in : Result Bytes × World → Option Bytes × World
bytes_in (ok b, w) = (some b, w)
bytes_in (err e, w) = (none, w)

-- What the copies returned, and whether none failed
abbrev pub Refreshed : Type 0
Refreshed = List Text × Bool

module _ (c : Codec) (sha256 : Bytes → Text) (l : Layout) (stamp version : Text)
    (bats : Entries) where
  -- `load_presets()`
  abbrev pub own_from : Exec (List Json)
  own_from w = let (o, v) = bytes_in (read_file (presets_json l) w) in (load_presets c o bats, v)

  abbrev pub write_merged : Option Json → Exec (List Text)
  write_merged none = raise type_error
  write_merged (some j) =
      back_up (presets_json l)
      >> (atomic_write (presets_json l) (c.dumps j) >>= λ _. pure (presets_json l ∷ []))

  -- The names of `incoming` are read before the presets that are there.
  abbrev pub raise_behind : Option Json → Error → Exec (List Text)
  raise_behind none e = raise type_error
  raise_behind (some j) e = raise e

  abbrev pub with_own : Json → Result (List Json) × World → Result (List Text) × World
  with_own incoming (ok own, w) = write_merged (merge_presets incoming own) w
  with_own incoming (err e, w) = raise_behind (merge_presets incoming []) e w

  abbrev pub merge_with : Option Json → Exec (List Text)
  merge_with none w = (err (value_error "json"), w)
  merge_with (some incoming) w = with_own incoming (own_from w)

  abbrev pub refresh_presets : Option Bytes → Exec (List Text)
  refresh_presets none w = (ok [], w)
  refresh_presets (some b) w = merge_with (c.parse b) w

  -- One default file: the path where it was copied, and whether nothing failed
  abbrev pub copied_as : Text → Bool × World → Refreshed × World
  copied_as path (true, w) = ((path ∷ [], true), w)
  copied_as path (false, w) = (([], false), w)

  abbrev pub if_changed : Text → Bytes → Result Bytes × World → Refreshed × World
  if_changed path b (ok old, w) =
      if sha256 b == sha256 old then (([], true), w) else copied_as path (copy_in path b w)
  if_changed path b (err e, w) = (([], false), w)

  abbrev pub refresh_file : Text → Option Bytes → World → Refreshed × World
  refresh_file path none w = (([], true), w)
  refresh_file path (some b) w =
      if exists path w
      then if_changed path b (read_file path w)
      else copied_as path (copy_in path b w)

  -- The loop; the files are those of the bundle by their relative paths.
  unfoldable pub refresh_files : Dict Text Bytes → List Text → World → Refreshed × World
  unfolding copy_in exists read_file Dict.lookup text_eq
  refresh_files files [] w = (([], true), w)
  refresh_files files (rel ∷ rels) w =
      let ((paths, fine), v) = refresh_file (below l.base rel) (Dict.lookup rel files) w in
      let ((more, all_fine), u) = refresh_files files rels v in
      ((paths ++ more, fine && all_fine), u)

  abbrev pub note_version : List Text → Refreshed × World → Result (List Text) × World
  note_version first ((paths, complete), w) =
      if complete
      then (update_config c (config_file l) stamp ((codes "defaults_version", str version) ∷ []) []
            >>= λ _. pure (first ++ paths))
          w
      else (ok (first ++ paths), w)

  abbrev pub is_version : Option Json → Bool
  is_version none = false
  is_version (some j) = is_text (as_str j)
    where
      is_text : Option Text → Bool
      is_text none = false
      is_text (some t) = t == version

  abbrev pub refresh_all : Dict Text Bytes → Option Bytes → Exec (List Text)
  refresh_all files presets = refresh_presets presets >>= λ first w.
      note_version first (refresh_files files refresh_default_files w)

  -- Of the files of the bundle by their relative paths, and its presets.json
  unfoldable pub refresh_defaults : Dict Text Bytes → Option Bytes → Exec (List Text)
  unfolding load_config update_config load_presets merge_presets refresh_files back_up atomic_write
      as_str Dict.lookup text_eq read_file
  refresh_defaults files presets = load_config c (config_file l) stamp >>= λ cfg w.
      if is_version (Dict.lookup (codes "defaults_version") cfg)
      then (ok [], w)
      else refresh_all files presets w
