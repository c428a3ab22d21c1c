-- ===== src/GameFilter.antt =====
-- zapret_core.py: the game filter's port ranges and its flag file (`normalize_port_ranges`,
-- `_read_game_filter`, `get_game_mode`, `get_game_ranges`, `set_game_mode`). The file is its text,
-- none where it does not exist or cannot be read.
pub mod Ranges
pub mod Reading
pub mod Flag
use zapret_gui.Base.{
  ℕ, suc, Bool, true, false, ◌&&◌, ◌||◌, Option, none, some, List, [], ◌∷◌, ◌++◌, ltb, leb, ◌==◌,
  text_eq, nat_eq, if◌then◌else◌, length, all,
}
use zapret_gui.Result.{Result, ok, err, Error, value_error}
use zapret_gui.Text.{Text, codes, is_space, is_digit, is_digits, lower, replace, to_int}
use zapret_gui.Text.Strip.{strip}
use zapret_gui.Text.Split.{split, cut, splitlines}
use zapret_gui.Args.{game_default_range}

-- `[1-9][0-9]{0,4}`, the whole text
unfoldable pub is_port : Text → Bool
unfolding is_digit nat_eq
is_port [] = false
is_port (c ∷ s) =
    is_digit c && (if c == 48 then false else true) && all is_digit s && leb (length s) 4

unfoldable pub in_order : ℕ → ℕ → Bool
in_order start end_port = leb end_port 65535 && leb start end_port

-- One item of the list; it matches the expression with one dash or none in it.
unfoldable pub is_range_parts : List Text → Bool
unfolding is_port to_int in_order
is_range_parts [] = false
is_range_parts (a ∷ []) = is_port a && in_order (to_int a) (to_int a)
is_range_parts (a ∷ b ∷ []) = is_port a && is_port b && in_order (to_int a) (to_int b)
is_range_parts (a ∷ b ∷ c ∷ rest) = false

unfoldable pub is_range : Text → Bool
unfolding is_range_parts split
is_range item = is_range_parts (split (codes "-") item)

-- Behind the removal of the spaces
unfoldable pub check_ranges : Text → Option Text
unfolding is_range split
check_ranges [] = none
check_ranges (c ∷ s) = if all is_range (split (codes ",") (c ∷ s)) then some (c ∷ s) else none

unfoldable pub normalize_port_ranges : Option Text → Option Text
unfolding check_ranges replace
normalize_port_ranges none = none
normalize_port_ranges (some raw) = check_ranges (replace (codes " ") [] raw)

pub record Filter : Type 0 where
  pub mode : Text
  pub tcp : Text
  pub udp : Text

abbrev pub defaults : Filter
defaults = record { mode = codes "off"; tcp = game_default_range; udp = game_default_range }

-- `key, _, value = line.strip().partition("=")`, both stripped, the key in lower case
unfoldable pub pair_of : Text → Text × Text
unfolding strip cut lower is_space
pair_of s = elim (cut (codes "=") s) [
  | none ↦ (lower (strip is_space s), [])
  | some (k, v) ↦ (lower (strip is_space k), strip is_space v)
]

unfoldable pub key_value : Text → Text × Text
unfolding pair_of
key_value line = pair_of (strip is_space line)

-- The branch for the keys `tcp` and `udp`
unfoldable pub read_range : Text → Text → Filter → Filter
unfolding normalize_port_ranges text_eq
read_range key [] f = record f { mode = key }
read_range key (c ∷ value) f = elim (normalize_port_ranges (some (c ∷ value))) [
  | none ↦ f
  | some ports ↦ if key == codes "tcp" then record f { tcp = ports } else record f { udp = ports }
]

unfoldable pub read_line : Text × Text → Filter → Filter
unfolding text_eq
read_line (key, value) f =
    if key == codes "mode"
    then record f { mode = lower value }
    else if key == codes "all"
    then record f { mode = codes "all" }
    else if key == codes "tcp" || key == codes "udp"
    then read_range key value f
    else f

unfoldable pub read_lines : List Text → Filter → Filter
unfolding read_line read_range key_value
read_lines [] f = f
read_lines (line ∷ lines) f = read_lines lines (read_line (key_value line) f)

unfoldable pub is_mode : Text → Bool
unfolding text_eq
is_mode mode = mode == codes "all" || mode == codes "tcp" || mode == codes "udp"

unfoldable pub check_mode : Filter → Filter
unfolding is_mode
check_mode f = if is_mode f.mode then f else record f { mode = codes "off" }

unfoldable pub read_game_filter : Option Text → Filter
unfolding read_lines check_mode splitlines
read_game_filter none = defaults
read_game_filter (some content) = check_mode (read_lines (splitlines content) defaults)

unfoldable pub get_game_mode : Option Text → Text
unfolding read_game_filter
get_game_mode flag = (read_game_filter flag).mode

unfoldable pub get_game_ranges : Option Text → Text × Text
unfolding read_game_filter
get_game_ranges flag = let f = read_game_filter flag in (f.tcp, f.udp)

-- `f"mode={mode}\ntcp={tcp}\nudp={udp}\n"`
unfoldable pub flag_text : Text → Text → Text → Text
flag_text mode tcp udp =
    codes "mode="
    ++ (mode ++ 10 ∷ (codes "tcp=" ++ (tcp ++ 10 ∷ (codes "udp=" ++ (udp ++ 10 ∷ [])))))

-- `normalize_port_ranges(r) if r is not None else current`
unfoldable pub chosen_range : Option Text → Text → Option Text
unfolding normalize_port_ranges
chosen_range none current = some current
chosen_range (some r) current = normalize_port_ranges (some r)

-- What the flag file holds behind the write or the removal
unfoldable pub store_mode : Text → Text → Text → Option Text
unfolding is_mode flag_text text_eq
store_mode mode tcp udp =
    if is_mode mode
    then some (flag_text mode tcp udp)
    else if tcp == game_default_range && udp == game_default_range
    then none
    else some (flag_text (codes "disabled") tcp udp)

abbrev bad_ports : Error
bad_ports = value_error "Неверные порты: нужны числа или диапазоны 1-65535 через запятую"

store_ranges : Text → Option Text → Option Text → Result (Option Text)
unfolding store_mode
store_ranges mode (some tcp) (some udp) = ok (store_mode mode tcp udp)
store_ranges mode (some tcp) none = err bad_ports
store_ranges mode none udp = err bad_ports

-- It takes the text of the flag file and returns the text that it leaves there.
unfoldable pub set_game_mode : Option Text → Text → Option Text → Option Text → Result (Option Text)
unfolding read_game_filter chosen_range store_ranges
set_game_mode flag mode tcp_range udp_range =
    let f = read_game_filter flag in
    store_ranges mode (chosen_range tcp_range f.tcp) (chosen_range udp_range f.udp)
