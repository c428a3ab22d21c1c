-- ===== src/Args.antt =====
-- zapret_core.py: from the argument string of a preset to the argument list of winws.exe
-- (`game_filter_values`, `substitute`, `tokenize`, `build_args_str`, `build_args`).
pub mod Tokens
pub mod Blocks
use zapret_gui.Base.{
  ℕ, suc, Bool, true, false, not, ◌&&◌, ◌||◌, Option, none, some, List, [], ◌∷◌, ◌++◌, map, ◌==◌,
  contains, nat_eq, text_eq, if◌then◌else◌, any,
}
use zapret_gui.Text.{Text, codes, is_space, starts_with, replace}
use zapret_gui.Paths.{Layout, bin, lists, exclude_user}

abbrev pub game_default_range : Text
game_default_range = codes "1024-65535"

unfoldable pub game_filter_values : Text → Text → Text → Text × Text
unfolding text_eq
game_filter_values mode tcp_range udp_range =
    if mode == codes "off"
    then (codes "12", codes "12")
    else if mode == codes "all"
    then (tcp_range, udp_range)
    else if mode == codes "tcp"
    then (tcp_range, codes "12")
    else if mode == codes "udp"
    then (codes "12", udp_range)
    else (codes "12", codes "12")

unfoldable pub substitute : Layout → Text → Text → Text → Text
unfolding replace bin lists
substitute l argstr gf_tcp gf_udp =
    let s1 = replace (codes "%LISTS%") (lists l) (replace (codes "%BIN%") (bin l) argstr) in
    let s2 =
      replace (codes "%GameFilterUDP%") gf_udp (replace (codes "%GameFilterTCP%") gf_tcp s1) in
    replace (codes "%GameFilter%") gf_tcp s2

-- `if cur: tokens.append(cur)`
abbrev flush : Text → List Text → List Text
flush [] rest = rest
flush (c ∷ cur) rest = (c ∷ cur) ∷ rest

-- The loop of `tokenize`, at `cur` and `in_q`; it returns the tokens from here on.
tokens_from : Text → Bool → Text → List Text
tokens_from cur in_q [] = flush cur []
tokens_from cur in_q (ch ∷ s) =
    let toggled = tokens_from cur (not in_q) s in
    let ended = flush cur (tokens_from [] in_q s) in
    let more = tokens_from (cur ++ ch ∷ []) in_q s in
    if ch == 34 then toggled else if is_space ch && not in_q then ended else more

unfoldable pub tokenize : Text → List Text
unfolding tokens_from nat_eq is_space
tokenize s = tokens_from [] false s

abbrev pub new_arg : Text
new_arg = codes "--new"

-- The blocks between the `--new` arguments; the block that is being read comes first.
blocks_from : List Text → List Text → List (List Text)
blocks_from cur [] = cur ∷ []
blocks_from cur (arg ∷ args) =
    let next = cur ∷ blocks_from [] args in
    let more = blocks_from (cur ++ arg ∷ []) args in if arg == new_arg then next else more

unfoldable pub blocks_of : List Text → List (List Text)
unfolding blocks_from
blocks_of args = blocks_from [] args

unfoldable pub is_hostlist : Text → Bool
unfolding starts_with
is_hostlist x = starts_with (codes "--hostlist=") x || starts_with (codes "--hostlist-auto=") x

unfoldable pub exclude_arg : Layout → Text
unfolding exclude_user
exclude_arg l = codes "--hostlist-exclude=" ++ exclude_user l

-- The body of `for block in blocks`
unfoldable pub add_exclude : Text → List Text → List Text
unfolding is_hostlist
add_exclude exclude block =
    if any is_hostlist block
    then (if contains block exclude then block else block ++ exclude ∷ [])
    else block

-- `--new` stands in front of every block but the first
unfoldable pub behind_new : List (List Text) → List Text
behind_new [] = []
behind_new (block ∷ blocks) = new_arg ∷ (block ++ behind_new blocks)

unfoldable pub flat_blocks : List (List Text) → List Text
unfolding behind_new
flat_blocks [] = []
flat_blocks (block ∷ blocks) = block ++ behind_new blocks

-- `ranges or get_game_ranges()`; the second pair is what `get_game_ranges` reads.
abbrev or_ranges : Option (Text × Text) → Text × Text → Text × Text
or_ranges none settings = settings
or_ranges (some ranges) settings = ranges

-- The tokens of the argument string with its placeholders filled in
unfoldable pub raw_args : Layout → Text → Text → Text × Text → List Text
unfolding game_filter_values substitute tokenize
raw_args l argstr mode (tcp, udp) =
    let (gf_tcp, gf_udp) = game_filter_values mode tcp udp in
    tokenize (substitute l argstr gf_tcp gf_udp)

-- The argument list behind the test for an empty string
unfoldable pub args_of : Layout → Text → Text → Text × Text → List Text
unfolding raw_args blocks_of add_exclude flat_blocks exclude_arg
args_of l argstr mode ranges =
    flat_blocks (map (add_exclude (exclude_arg l)) (blocks_of (raw_args l argstr mode ranges)))

unfoldable pub build_args_str :
    Layout → Text × Text → Option Text → Text → Option (Text × Text) → Option (List Text)
unfolding args_of
build_args_str l settings none mode ranges = none
build_args_str l settings (some []) mode ranges = none
build_args_str l settings (some (c ∷ s)) mode ranges =
    some (args_of l (c ∷ s) mode (or_ranges ranges settings))
