-- ===== src/Update.antt =====
-- zapret_core.py: updates of the program (`_version_tuple`, `check_update`, `download_update`,
-- `apply_update`). What GitHub answers is given; SHA-256 is a parameter, the hexadecimal digest of
-- the bytes in lower case.
pub mod Versions
pub mod Archive
use zapret_gui.Base.{
  ℕ, suc, Bool, true, false, not, ◌&&◌, ◌||◌, Option, none, some, List, [], ◌∷◌, ◌++◌, ◌==◌,
  contains, text_eq, nat_eq, if◌then◌else◌, length, all, any, ltb, drop, take,
}
use zapret_gui.Result.{Result, ok, err, Error, runtime_error, raise_if, ◌>>=◌, ◌>>◌}
use zapret_gui.Text.{
  Text, codes, is_space, is_digit, is_digits, to_int, lower, starts_with, replace, between,
}
use zapret_gui.Text.Strip.{strip, lstrip}
use zapret_gui.Text.Split.{split, splitlines, after}

abbrev pub app_version : Text
app_version = codes "2.45.0"

-- `int(part) if part.isdigit() else 0`
unfoldable pub version_part : Text → ℕ
unfolding is_digits to_int
version_part part = if is_digits part then to_int part else 0

abbrev version_parts : List Text → List ℕ
version_parts [] = []
version_parts (p ∷ ps) = version_part p ∷ version_parts ps

abbrev dotted : Text → Text
dotted s = replace (codes "+") (codes ".") (replace (codes "-") (codes ".") s)

-- `_version_tuple`: the text is cut at each dot, dash and plus.
unfoldable pub version_tuple : Text → List ℕ
unfolding version_part strip lstrip is_space split replace
version_tuple v =
    version_parts
      (split (codes ".") (dotted (lstrip (λ c. c == 118 || c == 86) (strip is_space v))))

-- `a < b` of two tuples
unfoldable pub tuple_ltb : List ℕ → List ℕ → Bool
unfolding nat_eq
tuple_ltb [] [] = false
tuple_ltb [] (y ∷ ys) = true
tuple_ltb (x ∷ xs) [] = false
tuple_ltb (x ∷ xs) (y ∷ ys) = ltb x y || x == y && tuple_ltb xs ys

-- `bool(latest) and _version_tuple(latest) > _version_tuple(current)`
unfoldable pub is_available : Text → Text → Bool
unfolding version_tuple tuple_ltb
is_available current [] = false
is_available current (c ∷ latest) = tuple_ltb (version_tuple current) (version_tuple (c ∷ latest))

unfoldable pub is_hex : ℕ → Bool
unfolding is_digit
is_hex c = is_digit c || between 97 102 c || between 65 70 c

-- `re.fullmatch(r"sha256:[a-fA-F0-9]{64}", digest)`
unfoldable pub is_sha256 : Text → Bool
unfolding starts_with is_hex nat_eq
is_sha256 digest =
    starts_with (codes "sha256:") digest && all is_hex (drop 7 digest) && length digest == 71

-- An asset of a release, with the defaults for its fields
pub record Asset : Type 0 where
  pub name : Text
  pub url : Text
  pub size : ℕ
  pub digest : Text

pub record Release : Type 0 where
  pub tag_name : Text
  pub assets : List Asset
  pub notes : Text

pub record Offer : Type 0 where
  pub available : Bool
  pub latest : Text
  pub url : Text
  pub size : ℕ
  pub digest : Text
  pub notes : Text

-- The first asset with one of the names
unfoldable pub find_asset : List Text → List Asset → Option Asset
unfolding lower text_eq
find_asset names [] = none
find_asset names (a ∷ assets) =
    let rest = find_asset names assets in if contains names (lower a.name) then some a else rest

abbrev no_asset : Asset
no_asset = record { name = []; url = []; size = 0; digest = [] }

abbrev or_no_asset : Option Asset → Asset
or_no_asset none = no_asset
or_no_asset (some a) = a

-- What stands behind the digest of a line: nothing, or spaces and the name of the archive
unfoldable pub is_archive_name : Text → Bool
unfolding lstrip is_space text_eq
is_archive_name [] = true
is_archive_name (c ∷ s) =
    is_space c
    && (lstrip is_space s == codes "ZapretControl.zip"
        || lstrip is_space s == codes "*ZapretControl.zip")

unfoldable pub line_digest : Text → Option Text
unfolding is_hex is_archive_name lower nat_eq
line_digest line =
    if all is_hex (take 64 line) && length (take 64 line) == 64 && is_archive_name (drop 64 line)
    then some (codes "sha256:" ++ lower (take 64 line))
    else none

abbrev or_first : Option Text → Text → Text
or_first none rest = rest
or_first (some digest) rest = digest

unfoldable pub first_digest : List Text → Text
unfolding line_digest strip is_space
first_digest [] = []
first_digest (line ∷ lines) = or_first (line_digest (strip is_space line)) (first_digest lines)

abbrev pub release_url : Text
release_url = codes "https://github.com/Enzowax/Zapret-GUI/releases/download/"

-- The digest from the file of checksums; `fetch` answers none for an OSError or a UnicodeError.
unfoldable pub checksum_digest : (Text → Option Text) → Option Asset → Text
unfolding starts_with first_digest splitlines
checksum_digest fetch none = []
checksum_digest fetch (some a) =
    if starts_with release_url a.url
    then elim (fetch a.url) [ none ↦ [] | some text ↦ first_digest (splitlines text) ]
    else []

abbrev shown : Text → Text
shown [] = codes "?"
shown (c ∷ s) = c ∷ s

-- `check_update`, behind the answer of the network
unfoldable pub check_update : (Text → Option Text) → Release → Offer
unfolding find_asset is_sha256 checksum_digest is_available strip is_space
check_update fetch r =
    let latest = strip is_space r.tag_name in
    let a = or_no_asset (find_asset (codes "zapretcontrol.zip" ∷ []) r.assets) in
    let sums =
      find_asset (codes "zapretcontrol.zip.sha256" ∷ codes "sha256sums.txt" ∷ []) r.assets in
    record {
      available = is_available app_version latest;
      latest = shown latest;
      url = a.url;
      size = a.size;
      digest = if is_sha256 a.digest then a.digest else checksum_digest fetch sums;
      notes = r.notes;
    }

abbrev pub Bytes : Type 0
Bytes = List ℕ

-- An entry of the archive: its name, and whether its mode is that of a symbolic link
pub record Info : Type 0 where
  pub filename : Text
  pub is_link : Bool

-- `info.filename.replace("\\", "/").split("/")`
unfoldable pub parts_of : Text → List Text
unfolding replace split
parts_of filename = split (codes "/") (replace (codes "\\") (codes "/") filename)

abbrev pub has_colon : Text → Bool
has_colon part = contains part 58

abbrev pub second_allowed : List Text → Bool
second_allowed [] = true
second_allowed (p ∷ rest) = contains ([] ∷ codes "ZapretControl.exe" ∷ codes "_internal" ∷ []) p

unfoldable pub is_safe_parts : List Text → Bool
is_safe_parts [] = false
is_safe_parts (p ∷ rest) =
    p == codes "ZapretControl"
    && not (contains (p ∷ rest) (codes ".."))
    && not (any has_colon (p ∷ rest))

abbrev pub below_first : List Text → List Text
below_first [] = []
below_first (p ∷ rest) = rest

-- The checks of one entry
unfoldable pub check_entry : Info → Result (Unit {0})
check_entry i = do
  raise_if (not (is_safe_parts (parts_of i.filename)) || i.is_link)
      (runtime_error "Недопустимый путь в архиве обновления")
  raise_if (not (second_allowed (below_first (parts_of i.filename))))
      (runtime_error "Неожиданная структура архива обновления")

unfoldable pub check_entries : List Info → Result (Unit {0})
check_entries [] = ok tt
check_entries (i ∷ is) = check_entry i >> check_entries is

module _ (sha256 : Bytes → Text) where
  -- `download_update`, of the bytes that were received; they are the file at `dest`.
  unfoldable pub download_update : Bytes → ℕ → Text → Result Bytes
  unfolding is_sha256 after lower nat_eq text_eq
  download_update content expected_size expected_digest = do
    raise_if (not (is_sha256 expected_digest))
        (runtime_error "Нет проверенной SHA-256; скачайте обновление вручную")
    raise_if (not (expected_size == 0) && not (length content == expected_size))
        (runtime_error "Размер загрузки не совпал — повреждённый файл")
    raise_if (not (sha256 content == lower (drop 7 expected_digest)))
        (runtime_error "Контрольная сумма загрузки не совпала")
    ok content

  -- `apply_update` up to the extraction: the entries that are extracted. `entries` reads the
  -- archive from the bytes that were hashed.
  unfoldable pub checked_archive : (Bytes → List Info) → Bool → Bytes → Text → Result (List Info)
  checked_archive entries frozen content expected_digest = do
    raise_if (not frozen) (runtime_error "Самообновление доступно только в собранном приложении")
    raise_if (not (is_sha256 expected_digest))
        (runtime_error "Нет проверенной SHA-256 архива обновления")
    raise_if (not (sha256 content == lower (drop 7 expected_digest)))
        (runtime_error "SHA-256 архива изменилась перед установкой")
    check_entries (entries content)
    ok (entries content)
