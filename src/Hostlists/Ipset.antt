-- ===== src/Hostlists/Ipset.antt =====
-- zapret_core.py: `update_ipset`. The network, the decoder and `ipaddress.ip_network` are
-- parameters; the count of the entries stands for the message.
pub mod Stored
use zapret_gui.Base.{
  ℕ, ◌≡◌, refl, sym, ◌∙◌, ap, Bool, true, false, ◌&&◌, Option, none, some, List, [], ◌∷◌, ◌++◌,
  ◌==◌, text_eq, if◌then◌else◌, length, all, Bool-cases, inl, inr, arith, ltb, ◌<◌, ==_refl,
}
use zapret_gui.Base.Dict.{Dict, lookup, insert, lookup-insert}
use zapret_gui.Result.{Result, ok, err, Error, value_error, raise_if}
use zapret_gui.Text.{Text, codes}
use zapret_gui.Text.Split.{splitlines}
use zapret_gui.Disk.{
  Bytes, World, Exec, Fault, fine, locked, broken, access, copied, continue, pure, copy_file,
  exists, atomic_write,
}
use zapret_gui.Disk.Atomic.{Written, written, refused, atomic_write-Written}
use zapret_gui.Hostlists.{list_lines}

abbrev pub backup_of : Text → Text
backup_of path = path ++ codes ".backup"

-- `if os.path.exists(path): shutil.copy2(path, path + ".backup")`
unfoldable pub back_up : Text → Exec (Unit {0})
unfolding exists copy_file
back_up path w = if exists path w then copy_file path (backup_of path) w else (ok tt, w)

module _ (is_network : Text → Bool) (ipset_file : Text) where
  -- The entries that are accepted
  abbrev pub checked_entries : List Text → Option (List Text)
  checked_entries [] = none
  checked_entries (e ∷ entries) = if all is_network (e ∷ entries) then some (e ∷ entries) else none

  unfoldable pub entries_of : Option Text → Option (List Text)
  unfolding list_lines splitlines
  entries_of none = none
  entries_of (some text) = checked_entries (list_lines (splitlines text))

  abbrev pub counted : ℕ → Result (Unit {0}) × World → Option ℕ × World
  counted n (ok u, w) = (some n, w)
  counted n (err e, w) = (none, w)

  abbrev pub written_behind : Bytes → Result (Unit {0}) × World → Result (Unit {0}) × World
  written_behind bytes (ok u, w) = atomic_write ipset_file bytes w
  written_behind bytes (err e, w) = (err e, w)

  abbrev pub store : Bytes → Option (List Text) → World → Option ℕ × World
  store bytes none w = (none, w)
  store bytes (some entries) w =
      counted (length entries) (written_behind bytes (back_up ipset_file w))

  -- Of the bytes that were downloaded, none where that failed; none stands for `(False, …)`.
  unfoldable pub update_ipset : (Bytes → Option Text) → Option Bytes → World → Option ℕ × World
  unfolding entries_of back_up atomic_write
  update_ipset decode none w = (none, w)
  update_ipset decode (some bytes) w = store bytes (entries_of (decode bytes)) w
