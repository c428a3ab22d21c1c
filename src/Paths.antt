-- ===== src/Paths.antt =====
-- zapret_core.py, "Базовые пути": the names of the files, below the working directory BASE.
-- BASE has no separator at its end.
use zapret_gui.Base.{◌∷◌, ◌++◌}
use zapret_gui.Text.{Text, codes}

pub record Layout : Type 0 where
  pub base : Text

-- `os.path.join(a, b)` for a directory with no separator at its end
unfoldable pub below : Text → Text → Text
below a b = a ++ 92 ∷ b

-- BIN and LISTS end with the separator.
unfoldable pub bin : Layout → Text
unfolding below
bin l = below l.base (codes "bin\\")

unfoldable pub lists : Layout → Text
unfolding below
lists l = below l.base (codes "lists\\")

unfoldable pub utils : Layout → Text
unfolding below
utils l = below l.base (codes "utils")

unfoldable pub game_flag : Layout → Text
unfolding utils
game_flag l = below (utils l) (codes "game_filter.enabled")

unfoldable pub update_flag : Layout → Text
unfolding utils
update_flag l = below (utils l) (codes "check_updates.enabled")

unfoldable pub config_file : Layout → Text
unfolding utils
config_file l = below (utils l) (codes "app_config.json")

unfoldable pub presets_json : Layout → Text
unfolding below
presets_json l = below l.base (codes "presets.json")

unfoldable pub ipset_file : Layout → Text
unfolding lists
ipset_file l = lists l ++ codes "ipset-all.txt"

unfoldable pub user_list_file : Layout → Text
unfolding lists
user_list_file l = lists l ++ codes "list-general-user.txt"

unfoldable pub ipset_exclude_user : Layout → Text
unfolding lists
ipset_exclude_user l = lists l ++ codes "ipset-exclude-user.txt"

unfoldable pub exclude_user : Layout → Text
unfolding lists
exclude_user l = lists l ++ codes "list-exclude-user.txt"
