-- ===== src/Hostlists/Update.antt =====
-- What a successful `update_lists` leaves on the disk.
use zapret_gui.Base.{
  ℕ, ◌≤◌, List, [], ◌∷◌, ◌++◌, length, ◌≡◌, refl, true, Option, none, some, text_eq,
}
use zapret_gui.Base.Dict.{Dict, lookup, update, keys}
use zapret_gui.Result.{Result, ok, err}
use zapret_gui.Text.{Text}
use zapret_gui.Json.{Codec}
use zapret_gui.Disk.{Bytes, World}
use zapret_gui.Transaction.{write_transaction}
use zapret_gui.Transaction.Parts.{NoBackup}
use zapret_gui.Transaction.Outcome.{
  Outcome, replaced, unchanged, broken_off, write_transaction-Outcome,
}
use zapret_gui.Hostlists.Valid.{IsList, validate_hostlist-IsList}
use mathlib.Core.Option.{some-injective}
use mathlib.Core.Path.{subst}
use zapret_gui.Config.{Settings, load_config}
use zapret_gui.Hostlists.{
  collect, list_update_files, succeeded, stamped, write_lists, update_from, update_lists, add_file,
  add_valid, add_fetched, validate_hostlist, max_bytes,
}

-- At every name that is no backup the disk holds the files over what was there.
abbrev pub Holds : Dict Text Bytes → World → World → Type 0
Holds files v w' =
    (q : Text) → NoBackup (keys files) q → lookup q w'.disk ≡ lookup q (update files v.disk)

succeeded-Holds :
    (files : Dict Text Bytes) (v : World) (m : Result (Unit {0}) × World)
    → Outcome files v m.0 m.1
    → (succeeded m).0 ≡ true
    → Holds files v (succeeded m).1
succeeded-Holds files v (ok u, w) (replaced a d) h = d
succeeded-Holds files v (ok u, w) (unchanged e a o d) h = cc
succeeded-Holds files v (ok u, w) (broken_off a) h = cc
succeeded-Holds files v (err e, w) o h = cc

-- The files that hold the named lists, in their order: each one's content is what was fetched by the
-- name, of at most 8 MiB, and every line of it that is neither blank nor a comment is a valid
-- pattern, of which there is one at least.
module _ (decode : Bytes → Option Text) (fetch : Text → Option Bytes) (lists : Text) where
  abbrev pub IsFetched : Text → Text × Bytes → Type 0
  IsFetched name (file, content) =
      (file ≡ lists ++ name)
      × (fetch name ≡ some content)
      × (n : ℕ) × (length content ≤ max_bytes)
      × (1 ≤ n)
      × IsList decode content n

  abbrev pub AreFetched : List Text → Dict Text Bytes → Type 0
  AreFetched [] [] = Unit
  AreFetched [] (f ∷ files) = ⊥
  AreFetched (name ∷ names) [] = ⊥
  AreFetched (name ∷ names) (f ∷ files) = IsFetched name f × AreFetched names files

  file-AreFetched :
      (name : Text) (names : List Text) (content : Bytes) (rest : Option (Dict Text Bytes))
      (files : Dict Text Bytes)
      → add_file (lists ++ name) content rest ≡ some files
      → IsFetched name (lists ++ name, content)
      → ((fs : Dict Text Bytes) → rest ≡ some fs → AreFetched names fs)
      → AreFetched (name ∷ names) files
  file-AreFetched name names content none files h f k = cc
  file-AreFetched name names content (some fs) [] h f k = cc
  file-AreFetched name names content (some fs) (x ∷ files) h f k =
      let e : (lists ++ name, content) ∷ fs ≡ x ∷ files = some-injective _ _ h in
      subst (AreFetched (name ∷ names)) e (f, k fs refl)

  valid-AreFetched :
      (name : Text) (names : List Text) (content : Bytes) (r : Result ℕ)
      (rest : Option (Dict Text Bytes)) (files : Dict Text Bytes)
      → add_valid (lists ++ name) content r rest ≡ some files
      → validate_hostlist decode content ≡ r
      → fetch name ≡ some content
      → ((fs : Dict Text Bytes) → rest ≡ some fs → AreFetched names fs)
      → AreFetched (name ∷ names) files
  valid-AreFetched name names content (err e) rest files h v f k = cc
  valid-AreFetched name names content (ok n) rest files h v f k =
      file-AreFetched name names content rest files h
        (let (small, one, list) = validate_hostlist-IsList decode content n v in
          (refl, f, n, small, one, list))
        k

  fetched-AreFetched :
      (name : Text) (names : List Text) (o : Option Bytes) (rest : Option (Dict Text Bytes))
      (files : Dict Text Bytes)
      → add_fetched decode (lists ++ name) o rest ≡ some files
      → fetch name ≡ o
      → ((fs : Dict Text Bytes) → rest ≡ some fs → AreFetched names fs)
      → AreFetched (name ∷ names) files
  fetched-AreFetched name names none rest files h f k = cc
  fetched-AreFetched name names (some content) rest files h f k =
      valid-AreFetched name names content (validate_hostlist decode content) rest files h refl f k

  collect-AreFetched :
      (names : List Text) (files : Dict Text Bytes)
      → collect decode fetch lists names ≡ some files
      → AreFetched names files
  unfolding collect
  collect-AreFetched [] [] h = tt
  collect-AreFetched [] (f ∷ files) h = cc
  collect-AreFetched (name ∷ names) files h =
      fetched-AreFetched name names (fetch name) (collect decode fetch lists names) files h refl
        (collect-AreFetched names)

module _ (c : Codec) (config_file stamp : Text) (decode : Bytes → Option Text)
    (fetch : Text → Option Bytes) (lists : Text) where
  -- What a successful update has done
  pub record Listed (now : ℕ) (names : List Text) (w w' : World) : Type 0 where
    pub files : Dict Text Bytes
    pub cfg : Settings
    pub loaded : World
    pub fetched : AreFetched decode fetch lists names files
    pub load : load_config c config_file stamp w ≡ (ok cfg, loaded)
    pub holds : Holds (stamped c config_file stamp now cfg files) loaded w'

  write-Listed :
      (now : ℕ) (names : List Text) (files : Dict Text Bytes) (w : World)
      (m : Result Settings × World)
      → AreFetched decode fetch lists names files
      → load_config c config_file stamp w ≡ m
      → (write_lists c config_file stamp now files m).0 ≡ true
      → Listed now names w (write_lists c config_file stamp now files m).1
  write-Listed now names files w (ok cfg, v) a e h = record {
    files = files;
    cfg = cfg;
    loaded = v;
    fetched = a;
    load = e;
    holds =
        succeeded-Holds (stamped c config_file stamp now cfg files) v
          (write_transaction (stamped c config_file stamp now cfg files) v)
          (write_transaction-Outcome (stamped c config_file stamp now cfg files) v) h;
  }
  write-Listed now names files w (err x, v) a e h = cc

  from-Listed :
      (now : ℕ) (names : List Text) (o : Option (Dict Text Bytes)) (w : World)
      → collect decode fetch lists names ≡ o
      → (update_from c config_file stamp now o w).0 ≡ true
      → Listed now names w (update_from c config_file stamp now o w).1
  from-Listed now names none w e h = cc
  from-Listed now names (some files) w e h =
      write-Listed now names files w (load_config c config_file stamp w)
        (collect-AreFetched decode fetch lists names files e) refl h

  -- Where update_lists reports success, there is a file for each of the three lists, in their
  -- order, whose content is what was downloaded by its name, has at most 8 MiB, decodes, and
  -- has at least one line that is neither blank nor a comment, every such line a valid
  -- pattern; the settings were loaded; and the disk holds, at every name that is no backup,
  -- these files and the stamped settings over what was there.
  pub update_lists-Listed :
      (now : ℕ) (w : World)
      → (update_lists c config_file stamp decode fetch lists now w).0 ≡ true
      → Listed now list_update_files w (update_lists c config_file stamp decode fetch lists now w).1
  unfolding update_lists
  update_lists-Listed now w h =
      from-Listed now list_update_files (collect decode fetch lists list_update_files) w refl h
