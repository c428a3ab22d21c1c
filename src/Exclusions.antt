-- ===== src/Exclusions.antt =====
-- zapret_core.py: the lists that the program keeps for the user (`ensure_telegram_bypass_exclude`,
-- `_read_exclude_user`, `_write_exclude_user`, `game_exclusions_present`, `set_game_exclusions`,
-- `cleanup_xbox_legacy`). A file is its text, none where it does not exist or cannot be read; what
-- an operation writes is a text, none where it writes nothing.
pub mod Membership
use zapret_gui.Base.{
  ℕ, zero, suc, Bool, true, false, not, ◌&&◌, ◌||◌, Option, none, some, List, [], ◌∷◌, ◌++◌, ◌==◌,
  contains, text_eq, nat_eq, if◌then◌else◌, length, all, keep, map,
}
use zapret_gui.Text.{Text, codes, is_space, replace, join, has}
use zapret_gui.Text.Strip.{strip}
use zapret_gui.Text.Split.{split, splitlines, cut}

-- TELEGRAM_IP_RANGES
abbrev pub telegram_ip_ranges : List Text
telegram_ip_ranges =
    codes "91.105.192.0/23"
    ∷ codes "91.108.4.0/22"
    ∷ codes "91.108.8.0/22"
    ∷ codes "91.108.12.0/22"
    ∷ codes "91.108.16.0/22"
    ∷ codes "91.108.20.0/22"
    ∷ codes "91.108.56.0/22"
    ∷ codes "95.161.64.0/20"
    ∷ codes "149.154.160.0/20"
    ∷ codes "185.76.151.0/24"
    ∷ []

-- GAME_EXCLUDE_DOMAINS
abbrev pub game_exclude_domains : List Text
game_exclude_domains =
    codes "steampowered.com"
    ∷ codes "steamcommunity.com"
    ∷ codes "steamstatic.com"
    ∷ codes "steamusercontent.com"
    ∷ codes "steamcontent.com"
    ∷ codes "steamserver.net"
    ∷ codes "steamgames.com"
    ∷ codes "dota2.com"
    ∷ codes "valvesoftware.com"
    ∷ []

-- _XBOX_LEGACY_DOMAINS
abbrev pub xbox_legacy_domains : List Text
xbox_legacy_domains =
    codes "microsoft.com"
    ∷ codes "microsoftonline.com"
    ∷ codes "live.com"
    ∷ codes "xboxlive.com"
    ∷ codes "xbox.com"
    ∷ codes "skype.com"
    ∷ codes "minecraft.net"
    ∷ codes "minecraftservices.com"
    ∷ []

abbrev pub exclude_placeholder : Text
exclude_placeholder = codes "domain.example.abc"

abbrev pub is_nil {ℓ} : {A : Type ℓ} → List A → Bool
is_nil [] = true
is_nil (x ∷ xs) = false

abbrev pub not_nil : Text → Bool
not_nil s = not (is_nil s)

-- `[d for d in wanted if d not in have]`
unfoldable pub missing : List Text → List Text → List Text
missing have [] = []
missing have (d ∷ wanted) =
    let rest = missing have wanted in if contains have d then rest else d ∷ rest

-- `[ln for ln in lines if ln not in names]`
unfoldable pub without : List Text → List Text → List Text
without names [] = []
without names (ln ∷ lines) =
    let rest = without names lines in if contains names ln then rest else ln ∷ rest

abbrev pub lines_text : List Text → Text
lines_text lines = join (10 ∷ []) lines ++ 10 ∷ []

-- The lines of a file that is read line by line: line ends are translated first.
unfoldable pub stripped_lines : Option Text → List Text
unfolding replace split strip is_space
stripped_lines none = []
stripped_lines (some text) = keep not_nil (
    map (strip is_space)
      (split (10 ∷ []) (replace (13 ∷ []) (10 ∷ []) (replace (13 ∷ 10 ∷ []) (10 ∷ []) text))))

-- The lines with the ones that are missing, none where nothing is to be added
unfoldable pub add_missing : List Text → List Text → Option (List Text)
add_missing wanted existing =
    let added = missing existing wanted in if is_nil added then none else some (existing ++ added)

unfoldable pub add_ranges : List Text → Option (List Text)
unfolding missing text_eq
add_ranges existing = add_missing telegram_ip_ranges existing

unfoldable pub ensure_telegram_bypass_exclude : Option Text → Option Text
unfolding add_ranges add_missing stripped_lines join
ensure_telegram_bypass_exclude file = elim (add_ranges (stripped_lines file)) [
  | none ↦ none
  | some lines ↦ some (lines_text lines)
]

-- `_read_exclude_user`
unfoldable pub read_exclude_user : Option Text → List Text
unfolding splitlines strip is_space
read_exclude_user none = []
read_exclude_user (some text) = keep not_nil (map (strip is_space) (splitlines text))

-- The lines that `_write_exclude_user` writes: with none left the placeholder takes their place.
abbrev pub or_placeholder : List Text → List Text
or_placeholder [] = exclude_placeholder ∷ []
or_placeholder (ln ∷ lines) = ln ∷ lines

abbrev pub is_entry : Text → Bool
is_entry ln = not_nil ln && not (ln == exclude_placeholder)

unfoldable pub written_lines : List Text → List Text
written_lines lines = or_placeholder (keep is_entry lines)

unfoldable pub write_exclude_user : List Text → Text
unfolding written_lines join text_eq
write_exclude_user lines = lines_text (written_lines lines)

unfoldable pub all_in : List Text → List Text → Bool
all_in have [] = true
all_in have (d ∷ ds) = contains have d && all_in have ds

unfoldable pub game_exclusions_present : Option Text → Bool
unfolding all_in read_exclude_user text_eq
game_exclusions_present file = all_in (read_exclude_user file) game_exclude_domains

-- The lines that `set_game_exclusions` writes, none where it returns False
unfoldable pub set_lines : Bool → List Text → Option (List Text)
set_lines true existing =
    let added = missing existing game_exclude_domains in
    if is_nil added then none else some (written_lines (existing ++ added))
set_lines false existing =
    let kept = without game_exclude_domains existing in
    if length kept == length existing then none else some (written_lines kept)

unfoldable pub set_game_exclusions : Option Text → Bool → Option Text
unfolding set_lines missing without written_lines read_exclude_user join nat_eq text_eq
set_game_exclusions file on = elim (set_lines on (read_exclude_user file)) [
  | none ↦ none
  | some lines ↦ some (lines_text lines)
]

abbrev pub hosts_begin : Text
hosts_begin = codes "# >>> ZapretGUI Xbox fix >>>"

abbrev pub hosts_end : Text
hosts_end = codes "# <<< ZapretGUI Xbox fix <<<"

abbrev pub drop_one : ℕ → Text → Text
drop_one c [] = []
drop_one c (x ∷ s) = if x == c then s else x ∷ s

-- `\r?\n?` at the front
abbrev pub drop_line_end : Text → Text
drop_line_end s = drop_one 10 (drop_one 13 s)

-- The removal of every block; a text of n characters has fewer than n of them.
unfoldable pub remove_blocks : ℕ → Text → Text
remove_blocks zero s = s
remove_blocks (suc n) s = elim (cut hosts_begin s) [
  | none ↦ s
  | some (front, rest) ↦ elim (cut hosts_end rest) [
    | none ↦ s
    | some (block, behind) ↦ front ++ remove_blocks n (drop_line_end behind)
  ]
]

-- What `cleanup_xbox_legacy` leaves in the hosts file
unfoldable pub cleanup_hosts : Text → Text
unfolding remove_blocks cut has
cleanup_hosts text = if has hosts_begin text then remove_blocks (length text) text else text

-- What it writes into the exclusion list, where that exists
unfoldable pub cleanup_exclude_user : Text → Text
unfolding without splitlines strip is_space join text_eq
cleanup_exclude_user text = lines_text (
    or_placeholder
      (without xbox_legacy_domains (keep not_nil (map (strip is_space) (splitlines text)))))
