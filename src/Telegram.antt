-- ===== src/Telegram.antt =====
-- zapret_core.py: the settings of the Telegram proxy (`tg_get_secret`, `tg_get_port`, `set_tg_port`,
-- `tg_get_cfproxy`, `tg_set_cfproxy`, `tg_regenerate_secret`) and `tg_proxy_stats`.
-- `os.urandom(16).hex()` is an argument; `int` reads the digits of ASCII.
pub mod Ranges
use zapret_gui.Base.{
  ℕ, suc, ◌+◌, ◌/◌, ◌^◌, Bool, true, false, not, ◌&&◌, ◌||◌, Option, none, some, List, [], ◌∷◌,
  ◌++◌, ◌==◌, nat_eq, text_eq, if◌then◌else◌, leb, length, all,
}
use zapret_gui.Base.Dict
use zapret_gui.Base.Dict.{Dict}
use zapret_gui.Result.{Result, ok, err, Error, value_error, type_error}
use zapret_gui.Text.{
  Text, codes, is_space, is_digit, is_digits, between, to_int, has, replace, join,
}
use zapret_gui.Text.Strip.{strip}
use zapret_gui.Text.Split.{split, after, cut, words}
use zapret_gui.Json.{Json, null, bool, int, negative, real, str, arr, obj, Codec, truthy}
use zapret_gui.Disk.{Bytes, World, Exec, pure, raise, ◌>>=◌}
use zapret_gui.Config.{Settings, load_config, update_config}

abbrev pub tg_default_host : Text
tg_default_host = codes "127.0.0.1"

abbrev pub tg_default_port : ℕ
tg_default_port = 1443

-- A number and its sign
abbrev pub Signed : Type 0
Signed = Bool × ℕ

-- Runs of digits with single underscores between them
unfoldable pub digits_value : Text → Option ℕ
unfolding split is_digits to_int replace
digits_value s =
    if all is_digits (split (codes "_") s) then some (to_int (replace (codes "_") [] s)) else none

abbrev pub with_sign : Bool → Option ℕ → Option Signed
with_sign b none = none
with_sign b (some n) = some (b, n)

abbrev pub signed_value : Text → Option Signed
signed_value [] = none
signed_value (c ∷ s) =
    if c == 45
    then with_sign true (digits_value s)
    else if c == 43
    then with_sign false (digits_value s)
    else with_sign false (digits_value (c ∷ s))

-- `int(value)`, none where it raises ValueError or TypeError
unfoldable pub int_of : Json → Option Signed
unfolding digits_value strip is_space nat_eq
int_of null = none
int_of (bool true) = some (false, 1)
int_of (bool false) = some (false, 0)
int_of (int n) = some (false, n)
int_of (negative n) = some (true, n + 1)
int_of (real s n k) = some (s, n / 10 ^ k)
int_of (str s) = signed_value (strip is_space s)
int_of (arr xs) = none
int_of (obj fs) = none

-- `1 <= port <= 65535`
unfoldable pub is_port : Signed → Bool
is_port (is_below, n) = not is_below && leb 1 n && leb n 65535

abbrev pub checked_port : Option Signed → ℕ
checked_port none = tg_default_port
checked_port (some (s, n)) = if is_port (s, n) then n else tg_default_port

-- `load_config().get("tg_port", TG_DEFAULT_PORT)`, and what `tg_get_port` makes of it
unfoldable pub port_of : Option Json → ℕ
unfolding int_of is_port
port_of none = tg_default_port
port_of (some j) = checked_port (int_of j)

-- `[0-9a-fA-F]`
unfoldable pub is_hex : ℕ → Bool
unfolding is_digit
is_hex c = is_digit c || between 97 102 c || between 65 70 c

unfoldable pub is_secret_text : Text → Bool
unfolding is_hex nat_eq
is_secret_text s = length s == 32 && all is_hex s

unfoldable pub is_secret : Json → Bool
unfolding is_secret_text
is_secret null = false
is_secret (bool b) = false
is_secret (int n) = false
is_secret (negative n) = false
is_secret (real s n k) = false
is_secret (str s) = is_secret_text s
is_secret (arr xs) = false
is_secret (obj fs) = false

-- `cfg["tg_secret"]`, and the KeyError where it is missing
abbrev pub item : Option Json → Exec Json
item none = raise (value_error "KeyError")
item (some j) = pure j

abbrev pub or_true : Option Json → Bool
or_true none = true
or_true (some j) = truthy j

module _ (c : Codec) (config_file : Text) (stamp : Text) where
  abbrev pub port_read : Result Settings × World → ℕ × World
  port_read (ok cfg, w) = (port_of (Dict.lookup (codes "tg_port") cfg), w)
  port_read (err e, w) = (tg_default_port, w)

  -- It raises nothing.
  unfoldable pub tg_get_port : World → ℕ × World
  unfolding port_of load_config Dict.lookup text_eq
  tg_get_port w = port_read (load_config c config_file stamp w)

  abbrev pub store_port : Option Signed → Exec (Unit {0})
  store_port none = raise (value_error "int")
  store_port (some (s, n)) =
      if is_port (s, n)
      then (update_config c config_file stamp ((codes "tg_port", int n) ∷ []) [] >>= λ _. pure tt)
      else raise (value_error "Порт должен быть числом 1–65535")

  unfoldable pub set_tg_port : Json → Exec (Unit {0})
  unfolding int_of is_port update_config
  set_tg_port port = store_port (int_of port)

  unfoldable pub tg_regenerate_secret : Text → Exec Json
  unfolding update_config Dict.lookup text_eq
  tg_regenerate_secret hex =
      update_config c config_file stamp ((codes "tg_secret", str hex) ∷ []) [] >>= λ cfg.
      item (Dict.lookup (codes "tg_secret") cfg)

  abbrev pub secret_or_new : Text → Option Json → Exec Json
  secret_or_new hex none w = tg_regenerate_secret hex w
  secret_or_new hex (some j) w = if is_secret j then pure j w else tg_regenerate_secret hex w

  unfoldable pub tg_get_secret : Text → Exec Json
  unfolding tg_regenerate_secret is_secret load_config Dict.lookup text_eq
  tg_get_secret hex = load_config c config_file stamp >>= λ cfg.
      secret_or_new hex (Dict.lookup (codes "tg_secret") cfg)

  unfoldable pub tg_get_cfproxy : Exec Bool
  unfolding load_config Dict.lookup text_eq truthy
  tg_get_cfproxy = load_config c config_file stamp >>= λ cfg.
      pure (or_true (Dict.lookup (codes "tg_cfproxy") cfg))

  unfoldable pub tg_set_cfproxy : Bool → Exec (Unit {0})
  unfolding update_config
  tg_set_cfproxy on =
      update_config c config_file stamp ((codes "tg_cfproxy", bool on) ∷ []) [] >>= λ _. pure tt

-- The last line with `stats:`
unfoldable pub last_stats : List Text → Option Text
unfolding has
last_stats [] = none
last_stats (ln ∷ lines) = later (last_stats lines)
  where
    later : Option Text → Option Text
    later (some l) = some l
    later none = if has (codes "stats:") ln then some ln else none

abbrev pub add_stat : Option (Text × Text) → Dict Text Text → Dict Text Text
add_stat none out = out
add_stat (some (k, v)) out = Dict.insert k v out

unfoldable pub stats_from : List Text → Dict Text Text → Dict Text Text
unfolding cut Dict.insert text_eq
stats_from [] out = out
stats_from (tok ∷ toks) out = stats_from toks (add_stat (cut (codes "=") tok) out)

abbrev pub or_no_stats : Dict Text Text → Option (Dict Text Text)
or_no_stats [] = none
or_no_stats (e ∷ out) = some (e ∷ out)

abbrev pub parse_stats : Option Text → Option (Dict Text Text)
parse_stats none = none
parse_stats (some ln) =
    or_no_stats
      (stats_from (words (replace (codes "|") (codes " ") (after (codes "stats:") ln))) [])

-- Of the text of the log, none where it does not exist or cannot be read
unfoldable pub tg_proxy_stats : Option Text → Option (Dict Text Text)
unfolding last_stats stats_from words replace after split
tg_proxy_stats none = none
tg_proxy_stats (some log) = parse_stats (last_stats (split (codes "\n") log))
