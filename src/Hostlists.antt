-- ===== src/Hostlists.antt =====
-- zapret_core.py: the update of the default lists (`validate_hostlist`, `update_lists`,
-- `lists_update_due`). The network and the UTF-8 decoder are parameters.
pub mod Valid
pub mod Update
pub mod Ipset
use zapret_gui.Base.{
  ℕ, ◌+◌, ◌*◌, ◌-◌, Bool, true, false, not, ◌&&◌, ◌||◌, Option, none, some, List, [], ◌∷◌, ◌++◌,
  ◌==◌, text_eq, nat_eq, if◌then◌else◌, length, all, drop, ltb, leb, last_or,
}
use zapret_gui.Base.Dict
use zapret_gui.Base.Dict.{Dict}
use zapret_gui.Result.{Result, ok, err, Error, value_error, raise_if, ◌>>=◌, ◌>>◌}
use zapret_gui.Text.{Text, codes, is_space, is_alnum, starts_with}
use zapret_gui.Text.Strip.{strip, rstrip}
use zapret_gui.Text.Split.{split, splitlines}
use zapret_gui.Json.{Json, Codec, obj, of_entries, int, truthy}
use zapret_gui.Disk.{Bytes, World, Exec}
use zapret_gui.Transaction.{write_transaction}
use zapret_gui.Config.{Settings, load_config}

-- `[A-Za-z0-9](?:[A-Za-z0-9_-]{0,61}[A-Za-z0-9])?`, the whole text
unfoldable pub is_list_label : Text → Bool
unfolding is_alnum nat_eq
is_list_label [] = false
is_list_label (c ∷ s) =
    is_alnum c
    && all (λ x. is_alnum x || x == 95 || x == 45) s
    && is_alnum (last_or c s)
    && leb (length s) 62

-- `line.removeprefix("^")`
unfoldable pub without_caret : Text → Text
unfolding nat_eq
without_caret [] = []
without_caret (c ∷ s) = if c == 94 then s else c ∷ s

unfoldable pub labels_of : Text → List Text
unfolding split rstrip
labels_of domain = split (codes ".") (rstrip (λ c. c == 46) domain)

unfoldable pub is_list_line : Text → Bool
is_list_line line =
    let domain = without_caret line in
    leb 2 (length (labels_of domain))
    && leb (length domain) 253
    && all is_list_label (labels_of domain)

abbrev pub is_comment : Text → Bool
is_comment [] = true
is_comment (c ∷ s) = c == 35

-- The lines that are neither blank nor comments
unfoldable pub list_lines : List Text → List Text
list_lines [] = []
list_lines (ln ∷ lines) =
    let rest = list_lines lines in
    if is_comment (strip is_space ln) then rest else strip is_space ln ∷ rest

unfoldable pub check_lines : List Text → Result (Unit {0})
check_lines [] = ok tt
check_lines (ln ∷ lines) =
    raise_if (not (is_list_line ln)) (value_error "Недопустимая строка списка") >> check_lines lines

abbrev pub is_nil {ℓ} : {A : Type ℓ} → List A → Bool
is_nil [] = true
is_nil (x ∷ xs) = false

abbrev pub max_bytes : ℕ
max_bytes = 8 * 1024 * 1024

abbrev pub decoded : Option Text → Result Text
decoded none = err (value_error "utf-8")
decoded (some text) = ok text

unfoldable pub validate_hostlist : (Bytes → Option Text) → Bytes → Result ℕ
validate_hostlist decode content = do
  raise_if (ltb max_bytes (length content)) (value_error "Слишком большой список")
  text ← decoded (decode content)
  let lines = list_lines (splitlines text)
  raise_if (is_nil lines) (value_error "Пустой список")
  check_lines lines
  ok (length lines)

-- LIST_UPDATE_FILES
abbrev pub list_update_files : List Text
list_update_files =
    codes "list-general.txt" ∷ codes "list-exclude.txt" ∷ codes "list-google.txt" ∷ []

-- The first loop: the files to write, none where a download or a check fails
abbrev pub add_file : Text → Bytes → Option (Dict Text Bytes) → Option (Dict Text Bytes)
add_file path content none = none
add_file path content (some files) = some ((path, content) ∷ files)

abbrev pub add_valid : Text → Bytes → Result ℕ → Option (Dict Text Bytes) → Option (Dict Text Bytes)
add_valid path content (err e) rest = none
add_valid path content (ok n) rest = add_file path content rest

abbrev pub add_fetched :
    (Bytes → Option Text)
    → Text
    → Option Bytes
    → Option (Dict Text Bytes)
    → Option (Dict Text Bytes)
add_fetched decode path none rest = none
add_fetched decode path (some content) rest =
    add_valid path content (validate_hostlist decode content) rest

unfoldable pub collect :
    (Bytes → Option Text) → (Text → Option Bytes) → Text → List Text → Option (Dict Text Bytes)
collect decode fetch lists [] = some []
collect decode fetch lists (name ∷ names) =
    add_fetched decode (lists ++ name) (fetch name) (collect decode fetch lists names)

abbrev succeeded : Result (Unit {0}) × World → Bool × World
succeeded (ok u, w) = (true, w)
succeeded (err e, w) = (false, w)

module _ (c : Codec) (config_file stamp : Text) where
  abbrev pub stamped : ℕ → Settings → Dict Text Bytes → Dict Text Bytes
  stamped now cfg files =
      Dict.insert config_file
        (c.dumps (obj (of_entries (Dict.insert (codes "lists_last_update") (int now) cfg)))) files

  abbrev pub write_lists : ℕ → Dict Text Bytes → Result Settings × World → Bool × World
  write_lists now files (ok cfg, w) = succeeded (write_transaction (stamped now cfg files) w)
  write_lists now files (err e, w) = (false, w)

  abbrev pub update_from : ℕ → Option (Dict Text Bytes) → World → Bool × World
  update_from now none w = (false, w)
  update_from now (some files) w = write_lists now files (load_config c config_file stamp w)

  -- `update_lists`: whether it succeeded
  unfoldable pub update_lists :
      (Bytes → Option Text) → (Text → Option Bytes) → Text → ℕ → World → Bool × World
  update_lists decode fetch lists now =
      update_from now (collect decode fetch lists list_update_files)

-- `lists_update_due`, of the two fields of the settings
unfoldable pub lists_update_due : Json → ℕ → ℕ → Bool
unfolding truthy
lists_update_due lists_auto_update last now =
    truthy lists_auto_update && leb (7 * 86400) (now - last)
