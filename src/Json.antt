-- ===== src/Json.antt =====
-- The values that `json.load` returns, and what the program asks of them. The parser and the
-- printer are the standard library's: they are a parameter, `Codec`. A theorem that relies on a
-- value being read back as it was printed says so of that value.
use zapret_gui.Base.{
  ℕ, ◌^◌, ◌≡◌, Bool, true, false, Option, none, some, List, [], ◌∷◌, ◌==◌, nat_eq, text_eq,
  if◌then◌else◌,
}
use zapret_gui.Base.Dict.{Dict}
use zapret_gui.Text.{Text}

-- `negative n` is -(n + 1), and `real s n k` is n / 10 ^ k, below zero where s is true.
mutual
  pub data Json : Type 0 where
    null : Json
    bool : Bool → Json
    int : ℕ → Json
    negative : ℕ → Json
    real : Bool → ℕ → ℕ → Json
    str : Text → Json
    arr : Items → Json
    obj : Fields → Json

  pub data Items : Type 0 where
    nil : Items
    cons : Json → Items → Items

  pub data Fields : Type 0 where
    end : Fields
    field : Text → Json → Fields → Fields

abbrev pub items : Items → List Json
items nil = []
items (cons x xs) = x ∷ items xs

abbrev pub entries : Fields → Dict Text Json
entries end = []
entries (field k v fs) = (k, v) ∷ entries fs

abbrev pub of_entries : Dict Text Json → Fields
of_entries [] = end
of_entries ((k, v) ∷ d) = field k v (of_entries d)

pub entries-of_entries : (d : Dict Text Json) → entries (of_entries d) ≡ d
entries-of_entries [] i = []
entries-of_entries ((k, v) ∷ d) i = (k, v) ∷ entries-of_entries d i

-- `type(value)`
pub data Kind : Type 0 where
  none_type bool_type int_type float_type str_type list_type dict_type : Kind

unfoldable pub kind : Json → Kind
kind null = none_type
kind (bool b) = bool_type
kind (int n) = int_type
kind (negative n) = int_type
kind (real s n k) = float_type
kind (str t) = str_type
kind (arr xs) = list_type
kind (obj fs) = dict_type

abbrev same_kind : Kind → Kind → Bool
same_kind none_type none_type = true
same_kind bool_type bool_type = true
same_kind int_type int_type = true
same_kind float_type float_type = true
same_kind str_type str_type = true
same_kind list_type list_type = true
same_kind dict_type dict_type = true
same_kind _ _ = false

-- `type(a) is type(b)`
unfoldable pub same_type : Json → Json → Bool
unfolding kind
same_type a b = same_kind (kind a) (kind b)

-- `isinstance(value, str)` with the value
unfoldable pub as_str : Json → Option Text
as_str (str t) = some t
as_str _ = none

unfoldable pub as_dict : Json → Option (Dict Text Json)
as_dict (obj fs) = some (entries fs)
as_dict _ = none

unfoldable pub as_list : Json → Option (List Json)
as_list (arr xs) = some (items xs)
as_list _ = none

-- `value == 1`, which holds of 1, 1.0 and True
unfoldable pub is_one : Json → Bool
unfolding nat_eq
is_one (bool b) = b
is_one (int n) = n == 1
is_one (real false n k) = n == 10 ^ k
is_one _ = false

-- `bool(value)`
unfoldable pub truthy : Json → Bool
unfolding nat_eq
truthy null = false
truthy (bool b) = b
truthy (int n) = if n == 0 then false else true
truthy (negative n) = true
truthy (real s n k) = if n == 0 then false else true
truthy (str []) = false
truthy (str (c ∷ t)) = true
truthy (arr nil) = false
truthy (arr (cons x xs)) = true
truthy (obj end) = false
truthy (obj (field k v fs)) = true

-- `json.load` of a file's bytes (none for a ValueError or a UnicodeError), and
-- `json.dumps(...).encode("utf-8")`
pub record Codec : Type 0 where
  pub parse : List ℕ → Option Json
  pub dumps : Json → List ℕ

-- A printed value is read back.
abbrev pub IsReadBack : Codec → Json → Type 0
IsReadBack c j = c.parse (c.dumps j) ≡ some j
