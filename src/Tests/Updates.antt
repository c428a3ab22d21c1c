-- ===== src/Tests/Updates.antt =====
-- The update of the program at concrete data.
use zapret_gui.Base.{◌≡◌, refl, true, false, List, [], ◌∷◌, text_eq, nat_eq, drop, All}
use zapret_gui.Result.{ok}
use zapret_gui.Text.{Text, codes, lower}
use zapret_gui.Update.{
  Info, Bytes, is_available, is_sha256, checked_archive, check_entries, check_entry, parts_of,
  is_safe_parts,
}
use zapret_gui.Update.Archive.{IsSafe, checked_archive-IsSafe}

ten_after_nine : is_available (codes "2.9.0") (codes "v2.10") ≡ true
unfolding is_available nat_eq
ten_after_nine = refl

-- A digest that does not depend on the bytes
abbrev digest : Text
digest = codes "0123456789abcdef0123456789abcdef0123456789abcdef0123456789abcdef"

abbrev sha256 : Bytes → Text
sha256 content = digest

abbrev expected : Text
expected = codes "sha256:0123456789ABCDEF0123456789abcdef0123456789abcdef0123456789abcdef"

abbrev entries : Bytes → List Info
entries content = record { filename = codes "ZapretControl\\_internal/a"; is_link = false } ∷ []

checked : checked_archive sha256 entries true (1 ∷ []) expected ≡ ok (entries (1 ∷ []))
unfolding checked_archive is_sha256 check_entries check_entry parts_of is_safe_parts lower nat_eq
    text_eq
checked = refl

checked_archive-IsSafe_example :
    (sha256 (1 ∷ []) ≡ lower (drop 7 expected))
    × (entries (1 ∷ []) ≡ entries (1 ∷ []))
    × All IsSafe (entries (1 ∷ []))
checked_archive-IsSafe_example =
    checked_archive-IsSafe sha256 entries true (1 ∷ []) expected (entries (1 ∷ [])) checked
