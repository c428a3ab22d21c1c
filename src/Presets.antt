-- ===== src/Presets.antt =====
-- zapret_core.py: `validate_presets`.
pub mod Valid
use zapret_gui.Base.{
  ℕ, Bool, true, false, not, ◌&&◌, ◌||◌, Option, none, some, List, [], ◌∷◌, ◌++◌, ◌==◌, contains,
  nat_eq, text_eq, if◌then◌else◌,
}
use zapret_gui.Base.Dict
use zapret_gui.Base.Dict.{Dict}
use zapret_gui.Result.{Result, ok, err, Error, value_error, ◌>>=◌, ◌>>◌, raise_if}
use zapret_gui.Text.{Text, codes, is_space}
use zapret_gui.Text.Strip.{strip}
use zapret_gui.Json.{Json, as_str, as_dict, as_list, is_one, int}

abbrev pub is_empty : Text → Bool
is_empty [] = true
is_empty (c ∷ s) = false

-- `not isinstance(v, str) or not v.strip()`
unfoldable pub is_blank : Option Json → Bool
unfolding as_str strip is_space
is_blank none = true
is_blank (some v) = elim (as_str v) [ none ↦ true | some s ↦ is_empty (strip is_space s) ]

abbrev pub need_fields : Error
need_fields = value_error "Пресету необходимы имя и строка аргументов"

abbrev bad_id : Error
bad_id = value_error "Неверный или повторяющийся id пресета"

-- The names and the ids that were seen
abbrev pub Seen : Type 0
Seen = List Text × List Text

-- `if "id" in p`
unfoldable pub check_id : Option Json → Seen → Result Seen
check_id none seen = ok seen
check_id (some v) (names, ids) = elim (as_str v) [
  | none ↦ err bad_id
  | some i ↦ if is_empty i || contains ids i then err bad_id else ok (names, i ∷ ids)
]

-- Behind the test of the two fields: the name is a text.
unfoldable pub check_name : Option Text → Dict Text Json → Seen → Result Seen
check_name none p seen = err need_fields
check_name (some name) p (names, ids) =
    if contains names name
    then err (value_error "Повторяющееся имя пресета")
    else check_id (Dict.lookup (codes "id") p) (name ∷ names, ids)

abbrev pub text_of : Option Json → Option Text
text_of none = none
text_of (some v) = as_str v

-- The body of the loop for a preset that is an object
unfoldable pub check_fields : Dict Text Json → Seen → Result Seen
check_fields p seen =
    if is_blank (Dict.lookup (codes "name") p) || is_blank (Dict.lookup (codes "args") p)
    then err need_fields
    else check_name (text_of (Dict.lookup (codes "name") p)) p seen

unfoldable pub check_preset : Json → Seen → Result Seen
check_preset j seen = elim (as_dict j) [ none ↦ err need_fields | some p ↦ check_fields p seen ]

unfoldable pub check_presets : List Json → Seen → Result Seen
check_presets [] seen = ok seen
check_presets (p ∷ ps) seen = check_preset p seen >>= check_presets ps

abbrev bad_list : Error
bad_list = value_error "Пустой или неверный список пресетов"

unfoldable pub check_list : Option (List Json) → Result (List Json)
check_list none = err bad_list
check_list (some []) = err bad_list
check_list (some (p ∷ ps)) = check_presets (p ∷ ps) ([], []) >>= λ _. ok (p ∷ ps)

abbrev pub list_of : Option Json → Option (List Json)
list_of none = none
list_of (some v) = as_list v

abbrev pub or_one : Option Json → Json
or_one none = int 1
or_one (some v) = v

unfoldable pub validate_dict : Dict Text Json → Result (List Json)
validate_dict d =
    if is_one (or_one (Dict.lookup (codes "version") d))
    then check_list (list_of (Dict.lookup (codes "presets") d))
    else err (value_error "Неподдерживаемый формат пресетов")

unfoldable pub validate_presets : Json → Result (List Json)
unfolding validate_dict check_list check_presets check_preset check_fields check_name check_id
    is_blank as_dict as_list as_str is_one Dict.lookup text_eq
validate_presets j = elim (as_dict j) [
  | none ↦ err (value_error "Неподдерживаемый формат пресетов")
  | some d ↦ validate_dict d
]
