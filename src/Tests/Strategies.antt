-- ===== src/Tests/Strategies.antt =====
-- The argument lists, the game filter and the order of the presets at concrete data.
use mathlib.Core.List.{Perm}
use zapret_gui.Base.{
  ℕ, ◌≡◌, refl, ◌≤◌, Option, none, some, List, [], ◌∷◌, map, text_eq, nat_eq, All, length, take,
}
use zapret_gui.Base.Sort.{IsOrdered}
use zapret_gui.Result.{ok}
use zapret_gui.Text.{Text, codes, join}
use zapret_gui.Text.Split.{split}
use zapret_gui.Paths.{Layout}
use zapret_gui.Args.{tokenize, blocks_of, add_exclude, exclude_arg, raw_args, args_of}
use zapret_gui.Args.Tokens.{IsToken, quote, tokenize-IsToken, tokenize-join}
use zapret_gui.Args.Blocks.{IsGuarded, args_of_lem, add_exclude_idem}
use zapret_gui.GameFilter.{
  normalize_port_ranges, read_game_filter, set_game_mode, chosen_range, is_mode,
}
use zapret_gui.GameFilter.Ranges.{normalize_port_ranges_lem, IsPortRange, ports}
use zapret_gui.GameFilter.Flag.{HasRanges, read_game_filter-HasRanges, read-set_game_mode}
use zapret_gui.Ranking.{Preset, prioritize_presets, Row, select_candidates, row_name}
use zapret_gui.Ranking.Order.{
  prioritize_presets_lem, StandsBefore, last_signature, IsAsGood, select_candidates_lem,
}

abbrev layout : Layout
layout = record { base = codes "C:\\z" }

abbrev argstr : Text
argstr = codes "--wf-tcp=%GameFilter% --hostlist=\"%LISTS%a.txt\" --new --dpi-desync=fake"

abbrev port_pair : Text × Text
port_pair = (codes "80", codes "443")

built :
    args_of layout argstr (codes "all") port_pair
    ≡ codes "--wf-tcp=80"
      ∷ codes "--hostlist=C:\\z\\lists\\a.txt"
      ∷ codes "--hostlist-exclude=C:\\z\\lists\\list-exclude-user.txt"
      ∷ codes "--new"
      ∷ codes "--dpi-desync=fake"
      ∷ []
unfolding args_of text_eq
built = refl

tokenize-IsToken_example : All IsToken (tokenize argstr)
tokenize-IsToken_example = tokenize-IsToken argstr

abbrev words : List Text
words = codes "a b" ∷ codes "c" ∷ []

tokens_ok : All IsToken words
tokens_ok =
    (((λ e. cc), ((λ e. cc), ((λ e. cc), ((λ e. cc), tt)))), (((λ e. cc), ((λ e. cc), tt)), tt))

tokenize-join_example : tokenize (join (32 ∷ []) (map quote words)) ≡ words
tokenize-join_example = tokenize-join words tokens_ok

add_exclude_idem_example :
    add_exclude (codes "x") (add_exclude (codes "x") (codes "--hostlist=a" ∷ []))
    ≡ add_exclude (codes "x") (codes "--hostlist=a" ∷ [])
add_exclude_idem_example = add_exclude_idem (codes "x") (codes "--hostlist=a" ∷ [])

abbrev raw_ports : Option Text
raw_ports = some (codes "80, 443-500")

abbrev clean_ports : Text
clean_ports = codes "80,443-500"

normalized : normalize_port_ranges raw_ports ≡ some clean_ports
unfolding normalize_port_ranges nat_eq
normalized = refl

not_normalized : normalize_port_ranges (some (codes "80,500-443")) ≡ none
unfolding normalize_port_ranges nat_eq
not_normalized = refl

abbrev flag : Option Text
flag = some (codes "mode=ALL\ntcp=1-5\nudp=0\n")

read_game_filter-HasRanges_example : HasRanges (read_game_filter flag)
read_game_filter-HasRanges_example = read_game_filter-HasRanges flag

chosen_tcp : chosen_range raw_ports (read_game_filter flag).tcp ≡ some clean_ports
unfolding chosen_range nat_eq
chosen_tcp = refl

chosen_udp : chosen_range none (read_game_filter flag).udp ≡ some (codes "1024-65535")
unfolding chosen_range read_game_filter nat_eq text_eq
chosen_udp = refl

read-set_game_mode_example :
    (content : Option Text) × (set_game_mode flag (codes "tcp") raw_ports none ≡ ok content)
    × (read_game_filter content
        ≡ record { mode = codes "tcp"; tcp = clean_ports; udp = codes "1024-65535" })
unfolding text_eq is_mode
read-set_game_mode_example =
    read-set_game_mode flag (codes "tcp") raw_ports none clean_ports (codes "1024-65535") chosen_tcp
      chosen_udp

abbrev presets : List Preset
presets =
    record { name = codes "A"; args = codes "--dpi-desync=fake" }
    ∷ record { name = codes "B"; args = codes "--dpi-desync=split" }
    ∷ []

last_first :
    map (λ p. p.name) (prioritize_presets presets (some (codes "B")) [])
    ≡ codes "B" ∷ codes "A" ∷ []
unfolding prioritize_presets nat_eq
last_first = refl

abbrev row : ℕ → Row
row n = record { name = codes "r"; score = n; latency = none }

select_candidates_lem_example :
    (sorted : List Row) × Perm sorted (row 1 ∷ row 2 ∷ [])
    × IsOrdered IsAsGood sorted
    × (select_candidates (row 1 ∷ row 2 ∷ []) 1 ≡ map row_name (take 1 sorted))
    × (length (select_candidates (row 1 ∷ row 2 ∷ []) 1) ≤ 1)
select_candidates_lem_example = select_candidates_lem (row 1 ∷ row 2 ∷ []) 1

args_of_lem_example :
    (blocks_of (args_of layout argstr (codes "all") port_pair)
      ≡ map
          (add_exclude (exclude_arg layout))
          (blocks_of (raw_args layout argstr (codes "all") port_pair)))
    × All
        (IsGuarded (exclude_arg layout))
        (blocks_of (args_of layout argstr (codes "all") port_pair))
args_of_lem_example = args_of_lem layout argstr (codes "all") port_pair

normalize_port_ranges_lem_example :
    All (λ item. IsPortRange (ports (split (codes "-") item))) (split (codes ",") clean_ports)
    × (normalize_port_ranges (some clean_ports) ≡ some clean_ports)
normalize_port_ranges_lem_example = normalize_port_ranges_lem raw_ports clean_ports normalized

prioritize_presets_lem_example :
    Perm (prioritize_presets presets (some (codes "B")) []) presets
    × IsOrdered
        (StandsBefore (some (codes "B")) [] (last_signature presets (some (codes "B")) []))
        (prioritize_presets presets (some (codes "B")) [])
prioritize_presets_lem_example = prioritize_presets_lem presets (some (codes "B")) []
