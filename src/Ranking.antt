-- ===== src/Ranking.antt =====
-- zapret_core.py: the order of strategies for the search (`strategy_signature`, `preset_tags`,
-- `prioritize_presets`, `select_candidates`, `result_is_better`). Latencies are numbers of
-- microseconds.
pub mod Places
pub mod Order
use zapret_gui.Base.{
  ℕ, zero, suc, ◌+◌, ◌-◌, ◌*◌, Bool, true, false, not, ◌&&◌, ◌||◌, Option, none, some, List, [],
  ◌∷◌, ◌++◌, ◌==◌, contains, nat_eq, text_eq, if◌then◌else◌, ltb, length, take, drop, map, sort_by,
}
use zapret_gui.Text.{Text, codes, is_lower_alnum, starts_with, has, lower}
use zapret_gui.Text.Split.{split}

pub record Preset : Type 0 where
  pub name : Text
  pub args : Text

-- `[a-z0-9,]*` at the front of the text
unfoldable pub feature_run : Text → Text
unfolding is_lower_alnum nat_eq
feature_run [] = []
feature_run (c ∷ s) =
    let rest = feature_run s in if is_lower_alnum c || c == 44 then c ∷ rest else []

abbrev pub is_nil : Text → Bool
is_nil [] = true
is_nil (c ∷ s) = false

-- `re.findall(prefix + "([a-z0-9,]+)", s)`; the number counts the characters of a match that are
-- still to be passed over.
find_features : Text → ℕ → Text → List Text
find_features prefix k [] = []
find_features prefix (suc k) (c ∷ s) = find_features prefix k s
find_features prefix zero (c ∷ s) =
    let run = feature_run (drop (length prefix) (c ∷ s)) in
    let hit = run ∷ find_features prefix (length prefix + length run - 1) s in
    let miss = find_features prefix zero s in
    if starts_with prefix (c ∷ s) && not (is_nil run) then hit else miss

-- `feats.add(x)`
abbrev pub add : Text → List Text → List Text
add x feats = if contains feats x then feats else x ∷ feats

add_parts : List Text → List Text → List Text
add_parts [] feats = feats
add_parts (p ∷ ps) feats = add_parts ps (if is_nil p then feats else add (codes "d:" ++ p) feats)

add_desync : List Text → List Text → List Text
add_desync [] feats = feats
add_desync (m ∷ ms) feats = add_desync ms (add_parts (split (codes ",") m) feats)

add_fooling : List Text → List Text → List Text
add_fooling [] feats = feats
add_fooling (m ∷ ms) feats = add_fooling ms (add (codes "f:" ++ m) feats)

abbrev add_if : Bool → Text → List Text → List Text
add_if b x feats = if b then add x feats else feats

unfoldable pub strategy_signature : Text → List Text
unfolding lower find_features add_desync add_parts add_fooling feature_run has split starts_with
    text_eq
strategy_signature argstr =
    let s = lower argstr in
    let f1 = add_desync (find_features (codes "--dpi-desync=") 0 s) [] in
    let f2 = add_fooling (find_features (codes "--dpi-desync-fooling=") 0 s) f1 in
    let f3 = add_if (has (codes "--dpi-desync-split-seqovl") s) (codes "seqovl") f2 in
    let f4 =
      add_if (has (codes "--dpi-desync-fake-quic") s || has (codes "quic") s) (codes "quic") f3 in
    add_if (has (codes "--ip-id=") s) (codes "ipid") f4

abbrev tag_if : Bool → Text → List Text
tag_if b tag = if b then tag ∷ [] else []

abbrev or_universal : List Text → List Text
or_universal [] = codes "универсальный" ∷ []
or_universal (t ∷ ts) = t ∷ ts

unfoldable pub preset_tags : Preset → List Text
unfolding lower has
preset_tags p =
    let args = lower p.args in
    or_universal (
      tag_if (has (codes "--filter-tcp") args) (codes "TCP")
      ++ (tag_if (has (codes "--filter-udp") args) (codes "UDP")
          ++ (tag_if (has (codes "quic") args) (codes "QUIC")
              ++ (tag_if (has (codes "--dpi-desync") args) (codes "desync")
                  ++ tag_if (has (codes "(exp)") (lower p.name)) (codes "экспериментальный")))))

-- `{p["name"]: p for p in presets}.get(name)`: the last preset of the name
unfoldable pub by_name : Text → List Preset → Option Preset
by_name name [] = none
by_name name (p ∷ ps) =
    let rest = by_name name ps in
    elim rest [ some q ↦ some q | none ↦ if p.name == name then some p else none ]

-- `pool.index(name)` of a name that is there
unfoldable pub index_of : Text → List Text → ℕ
index_of name [] = 0
index_of name (x ∷ xs) = let rest = index_of name xs in if x == name then 0 else suc rest

-- `len(a & b)` of two sets
unfoldable pub overlap : List Text → List Text → ℕ
overlap [] b = 0
overlap (x ∷ a) b = let rest = overlap a b in if contains b x then suc rest else rest

-- The key of a preset: `(0, 0)`, `(1, index)` or `(2, -overlap)`
pub data Rank : Type 0 where
  last_working : Rank
  in_pool : ℕ → Rank
  similar : ℕ → Rank

abbrev signature_of : Option Preset → List Text
signature_of none = []
signature_of (some p) = strategy_signature p.args

-- `last_name and name == last_name`
abbrev pub is_last : Option Text → Text → Bool
is_last none name = false
is_last (some []) name = false
is_last (some (c ∷ s)) name = name == c ∷ s

abbrev find_last : Option Text → List Preset → Option Preset
find_last none ps = none
find_last (some name) ps = by_name name ps

unfoldable pub rank : Option Text → List Text → List Text → Preset → Rank
rank last_name pool last_sig p =
    if is_last last_name p.name
    then last_working
    else if contains pool p.name
    then in_pool (index_of p.name pool)
    else similar (overlap (strategy_signature p.args) last_sig)

unfoldable pub rank_ltb : Rank → Rank → Bool
rank_ltb last_working last_working = false
rank_ltb last_working (in_pool j) = true
rank_ltb last_working (similar j) = true
rank_ltb (in_pool i) last_working = false
rank_ltb (in_pool i) (in_pool j) = ltb i j
rank_ltb (in_pool i) (similar j) = true
rank_ltb (similar i) last_working = false
rank_ltb (similar i) (in_pool j) = false
rank_ltb (similar i) (similar j) = ltb j i

abbrev pub ranked_before : Option Text → List Text → List Text → Preset → Preset → Bool
ranked_before last_name pool sig p q =
    rank_ltb (rank last_name pool sig p) (rank last_name pool sig q)

unfoldable pub prioritize_presets : List Preset → Option Text → List Text → List Preset
unfolding by_name index_of overlap rank rank_ltb strategy_signature sort_by text_eq
prioritize_presets presets last_name pool =
    sort_by (ranked_before last_name pool (signature_of (find_last last_name presets))) presets

-- A row of the quick phase or of the exact one: the name, the score, the average latency
pub record Row : Type 0 where
  pub name : Text
  pub score : ℕ
  pub latency : Option ℕ

abbrev pub latency_or : ℕ → Option ℕ → ℕ
latency_or d none = d
latency_or d (some l) = l

-- `(-x[1], lat(x))`, with 9e9 milliseconds for a latency that is not known
unfoldable pub candidate_before : Row → Row → Bool
unfolding nat_eq
candidate_before a b =
    ltb b.score a.score
    || a.score == b.score
      && ltb (latency_or 9_000_000_000_000 a.latency) (latency_or 9_000_000_000_000 b.latency)

abbrev pub row_name : Row → Text
row_name r = r.name

unfoldable pub select_candidates : List Row → ℕ → List Text
unfolding candidate_before sort_by
select_candidates phase1 max_cand = map row_name (take max_cand (sort_by candidate_before phase1))

-- `(new[1], -new_lat) > (cur[1], -cur_lat)`, with 1e9 milliseconds for a latency that is not known
unfoldable pub row_better : Row → Row → Bool
unfolding nat_eq
row_better new cur =
    ltb cur.score new.score
    || new.score == cur.score
      && ltb (latency_or 1_000_000_000_000 new.latency) (latency_or 1_000_000_000_000 cur.latency)

unfoldable pub result_is_better : Option Row → Option Row → Bool
unfolding row_better nat_eq
result_is_better none cur = false
result_is_better (some new) none = not (new.score == 0)
result_is_better (some new) (some cur) = not (new.score == 0) && row_better new cur
