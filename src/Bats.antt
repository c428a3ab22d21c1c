-- ===== src/Bats.antt =====
-- zapret_core.py: the strategies in .bat files, `natural_key`, `list_strategies`,
-- `extract_winws_argstring`, `_preset_id`, `_presets_from_bats` and `load_presets`. The digits are
-- those of ASCII, and isdigit() holds of them and of the superscripts of Latin-1; what a file holds is what `open(…, errors="replace").read()` returns.
pub mod Command
pub mod Split
pub mod Keys
use zapret_gui.Base.{
  ℕ, zero, suc, ◌+◌, ◌-◌, Bool, true, false, not, ◌&&◌, ◌||◌, Option, none, some, List, [], ◌∷◌,
  ◌++◌, map, ◌==◌, nat_eq, text_eq, if◌then◌else◌, ltb, length, take, drop, all, sort_by,
}
use zapret_gui.Base.Dict.{Dict, keys}
use zapret_gui.Result.{Result, ok, err, value_error, ◌>>=◌, ◌>>◌}
use zapret_gui.Text.{
  Text, codes, lower, has, find, starts_with, ends_with, is_space, is_digit, is_digits,
  is_lower_alnum, to_int, join,
}
use zapret_gui.Text.Strip.{strip, lstrip, rstrip}
use zapret_gui.Text.Split.{splitlines}
use zapret_gui.Domains.{text_ltb}
use zapret_gui.Json.{Json, Codec, str, null, obj, of_entries}
use zapret_gui.Presets.{validate_presets}

abbrev pub winws_exe : Text
winws_exe = codes "winws.exe"

-- An element of a key: `int(t)` or `t.lower()`
pub data Part : Type 0 where
  number : ℕ → Part
  word : Text → Part

-- `re.split(r"(\d+)", name)` from the run that is being read, of digits where the flag is set
unfoldable pub split_digits : Bool → Text → Text → List Text
unfolding is_digit
split_digits true cur [] = cur ∷ [] ∷ []
split_digits false cur [] = cur ∷ []
split_digits true cur (c ∷ s) =
    let more = split_digits true (cur ++ c ∷ []) s in
    let next = cur ∷ split_digits false (c ∷ []) s in if is_digit c then more else next
split_digits false cur (c ∷ s) =
    let more = split_digits false (cur ++ c ∷ []) s in
    let next = cur ∷ split_digits true (c ∷ []) s in if is_digit c then next else more

-- The superscript digits of Latin-1: `isdigit()` holds of them, `\d` does not, and `int` raises.
unfoldable pub is_superscript : ℕ → Bool
unfolding nat_eq
is_superscript c = c == 0xb2 || c == 0xb3 || c == 0xb9

-- `t.isdigit()`
unfoldable pub is_digit_text : Text → Bool
unfolding is_digit is_superscript
is_digit_text [] = false
is_digit_text (c ∷ s) = all (λ x. is_digit x || is_superscript x) (c ∷ s)

-- `int(t) if t.isdigit() else t.lower()`
unfoldable pub part_of : Text → Result Part
unfolding is_digit_text is_digits to_int lower
part_of t =
    if is_digit_text t
    then (if is_digits t then ok (number (to_int t)) else err (value_error "int"))
    else ok (word (lower t))

unfoldable pub parts_of : List Text → Result (List Part)
unfolding part_of
parts_of [] = ok []
parts_of (t ∷ ts) = part_of t >>= λ p. parts_of ts >>= λ ps. ok (p ∷ ps)

unfoldable pub natural_key : Text → Result (List Part)
unfolding split_digits parts_of
natural_key name = parts_of (split_digits false [] name)

-- `x < y` of two elements, none for the TypeError, and the rest where they are equal
abbrev pub part_before : Part → Part → Option Bool → Option Bool
part_before (number m) (number n) rest = if m == n then rest else some (ltb m n)
part_before (word s) (word t) rest = if s == t then rest else some (text_ltb s t)
part_before (number m) (word t) rest = none
part_before (word s) (number n) rest = none

-- `x < y` of two keys
unfoldable pub key_before : List Part → List Part → Option Bool
unfolding nat_eq text_eq text_ltb
key_before [] [] = some false
key_before [] (y ∷ ys) = some true
key_before (x ∷ xs) [] = some false
key_before (x ∷ xs) (y ∷ ys) = part_before x y (key_before xs ys)

abbrev pub is_yes : Option Bool → Bool
is_yes none = false
is_yes (some b) = b

abbrev pub key_or_nil : Result (List Part) → List Part
key_or_nil (ok ps) = ps
key_or_nil (err e) = []

unfoldable pub natural_before : Text → Text → Bool
unfolding natural_key key_before
natural_before a b = is_yes (key_before (key_or_nil (natural_key a)) (key_or_nil (natural_key b)))

-- A sort computes all the keys first, and raises where one of them does.
unfoldable pub keyed : List Text → Result (Unit {0})
unfolding natural_key
keyed [] = ok tt
keyed (name ∷ names) = natural_key name >>= λ _. keyed names

-- A directory entry and what it holds, none where it cannot be read
abbrev pub Entries : Type 0
Entries = Dict Text (Option Text)

abbrev pub names_winws : Option Text → Bool
names_winws none = false
names_winws (some content) = has winws_exe (lower content)

-- The tests of `list_strategies`
unfoldable pub is_strategy : Text → Option Text → Bool
unfolding ends_with starts_with has lower
is_strategy name content =
    ends_with (codes ".bat") (lower name)
    && not (starts_with (codes "service") (lower name))
    && names_winws content

unfoldable pub strategies_in : Entries → Entries
unfolding is_strategy
strategies_in [] = []
strategies_in ((name, content) ∷ files) =
    let rest = strategies_in files in
    if is_strategy name content then (name, content) ∷ rest else rest

abbrev pub entry_before : Text × Option Text → Text × Option Text → Bool
entry_before (a, _) (b, _) = natural_before a b

-- `list_strategies`, with the contents of the files
unfoldable pub list_strategies : Entries → Result Entries
unfolding strategies_in sort_by natural_before keyed
list_strategies files =
    keyed (keys (strategies_in files)) >> ok (sort_by entry_before (strategies_in files))

-- The lines from the one with winws.exe on
unfoldable pub from_start : List Text → Option (List Text)
unfolding has lower
from_start [] = none
from_start (ln ∷ lines) =
    let rest = from_start lines in if has winws_exe (lower ln) then some (ln ∷ lines) else rest

-- `ln[:-1]`
abbrev pub without_last : Text → Text
without_last s = take (length s - 1) s

-- The loop over the lines that end with a caret
unfoldable pub parts_from : List Text → List Text
unfolding rstrip is_space ends_with
parts_from [] = []
parts_from (line ∷ lines) =
    let ln = rstrip is_space line in
    let rest = parts_from lines in
    if ends_with (codes "^") ln then without_last ln ∷ rest else ln ∷ []

-- `full[idx + len("winws.exe"):]`, where -1 stands for a text that is not found
abbrev pub behind : Option ℕ → Text → Text
behind none full = drop 8 full
behind (some i) full = drop (i + 9) full

-- `if after.startswith('"'): after = after[1:]`
abbrev pub unquoted : Text → Text
unquoted [] = []
unquoted (c ∷ s) = if c == 34 then s else c ∷ s

unfoldable pub args_behind : Text → Text
unfolding find lower strip lstrip is_space nat_eq
args_behind full =
    strip is_space (unquoted (lstrip is_space (behind (find winws_exe (lower full)) full)))

abbrev pub command_of : Option (List Text) → Option Text
command_of none = none
command_of (some lines) = some (args_behind (join (codes " ") (parts_from lines)))

unfoldable pub extract_winws_lines : List Text → Option Text
unfolding from_start parts_from args_behind join
extract_winws_lines lines = command_of (from_start lines)

unfoldable pub extract_winws_argstring : Text → Option Text
unfolding extract_winws_lines splitlines
extract_winws_argstring content = extract_winws_lines (splitlines content)

abbrev pub is_id_char : ℕ → Bool
is_id_char c = is_lower_alnum c || c == 95

-- `re.sub(r"[^a-z0-9_]+", "_", s)`; the flag is set in a run of other characters.
unfoldable pub id_from : Bool → Text → Text
unfolding is_lower_alnum nat_eq
id_from run [] = []
id_from run (c ∷ s) =
    let kept = c ∷ id_from false s in
    let skip = id_from true s in if is_id_char c then kept else if run then skip else 95 ∷ skip

abbrev pub or_preset : Text → Text
or_preset [] = codes "preset"
or_preset (c ∷ s) = c ∷ s

unfoldable pub preset_id : Text → Text
unfolding id_from strip lower nat_eq
preset_id name = or_preset (strip (λ c. c == 95) (id_from false (lower name)))

-- `os.path.splitext(fname)[0]` for a name that ends with .bat: dots in front make no extension.
abbrev pub base_of : Text → Text
base_of fname =
    let base = take (length fname - 4) fname in if all (λ c. c == 46) base then fname else base

-- The fields of a preset that vary; `recommended` is its label, or None.
pub record BatPreset : Type 0 where
  pub id : Text
  pub name : Text
  pub source_bat : Text
  pub recommended : Bool
  pub args : Text

abbrev pub preset_of : Text → Text → BatPreset
preset_of fname argstr = record {
  id = preset_id (base_of fname);
  name = base_of fname;
  source_bat = fname;
  recommended = fname == codes "general.bat";
  args = argstr;
}

-- `if not argstr: continue`
abbrev pub add_bat : Text → Option Text → List BatPreset → List BatPreset
add_bat fname none rest = rest
add_bat fname (some []) rest = rest
add_bat fname (some (c ∷ s)) rest = preset_of fname (c ∷ s) ∷ rest

-- A file of `list_strategies` was read before; one that raises now is left out here.
abbrev pub extract : Option Text → Option Text
extract none = none
extract (some content) = extract_winws_argstring content

unfoldable pub collect_bats : Entries → List BatPreset
unfolding extract_winws_argstring preset_id nat_eq text_eq
collect_bats [] = []
collect_bats ((fname, content) ∷ files) = add_bat fname (extract content) (collect_bats files)

-- `(p["name"] != "general", natural_key(p["name"]))`
abbrev pub preset_before : BatPreset → BatPreset → Bool
preset_before p q =
    let g = p.name == codes "general" in
    let h = q.name == codes "general" in
    if g
    then (if h then natural_before p.name q.name else true)
    else if h
    then false
    else natural_before p.name q.name

abbrev pub name_of : BatPreset → Text
name_of p = p.name

unfoldable pub presets_from_bats : Entries → Result (List BatPreset)
unfolding list_strategies collect_bats sort_by natural_before keyed text_eq
presets_from_bats files = list_strategies files >>= λ found.
    let presets = collect_bats found in
    keyed (map name_of presets) >> ok (sort_by preset_before presets)

abbrev pub label_of : Bool → Json
label_of b = if b then str (codes "recommended") else null

abbrev pub json_of : BatPreset → Json
json_of p = obj (
    of_entries (
      (codes "id", str p.id)
      ∷ (codes "name", str p.name)
      ∷ (codes "source_bat", str p.source_bat)
      ∷ (codes "description", str [])
      ∷ (codes "label", label_of p.recommended)
      ∷ (codes "engine", str (codes "winws1"))
      ∷ (codes "args", str p.args)
      ∷ []))

abbrev pub json_presets : Entries → Result (List Json)
json_presets files = presets_from_bats files >>= λ presets. ok (map json_of presets)

-- `if presets: return presets`, and `except Exception: pass`
abbrev pub or_bats : Entries → Result (List Json) → Result (List Json)
or_bats files (err e) = json_presets files
or_bats files (ok []) = json_presets files
or_bats files (ok (p ∷ presets)) = ok (p ∷ presets)

abbrev pub parsed_or_bats : Entries → Option Json → Result (List Json)
parsed_or_bats files none = json_presets files
parsed_or_bats files (some j) = or_bats files (validate_presets j)

-- `load_presets`, of the contents of presets.json, where it can be read
unfoldable pub load_presets : Codec → Option (List ℕ) → Entries → Result (List Json)
unfolding presets_from_bats validate_presets
load_presets c none files = json_presets files
load_presets c (some content) files = parsed_or_bats files (c.parse content)
