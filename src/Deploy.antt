-- ===== src/Deploy.antt =====
-- zapret_core.py: `ensure_runtime` and `verify_runtime`, which unpack the files that are built into
-- the program and repair those that changed. The directories exist; a copy is done whole or fails.
pub mod Kept
pub mod Refresh
use zapret_gui.Base.{
  Bool, true, false, not, ◌&&◌, ◌||◌, Option, none, some, List, [], ◌∷◌, ◌++◌, map, ◌==◌, contains,
  text_eq, if◌then◌else◌,
}
use zapret_gui.Base.Dict
use zapret_gui.Base.Dict.{Dict}
use zapret_gui.Result.{Result, ok, err}
use zapret_gui.Text.{Text, codes, lower, ends_with}
use zapret_gui.Paths.{Layout, below}
use zapret_gui.Disk.{Bytes, World, Exec, access, read_file, exists}

-- What is below `sys._MEIPASS`: the files of its directories, and those beside them, in the order
-- of `os.listdir`
pub record Bundle : Type 0 where
  pub dirs : Dict Text (Dict Text Bytes)
  pub root : Dict Text Bytes

abbrev pub runtime_subdirs : List Text
runtime_subdirs = codes "bin" ∷ codes "lists" ∷ codes "utils" ∷ []

abbrev pub integrity_subdirs : List Text
integrity_subdirs = codes "bin" ∷ []

abbrev pub runtime_root_files : List Text
runtime_root_files = codes "presets.json" ∷ []

-- The contents to copy, by the paths to copy them to
abbrev pub Targets : Type 0
Targets = Dict Text Bytes

unfoldable pub in_dir : Text → Dict Text Bytes → Targets
unfolding below
in_dir dir [] = []
in_dir dir ((name, b) ∷ files) = (below dir name, b) ∷ in_dir dir files

abbrev pub or_none : Option (Dict Text Bytes) → Dict Text Bytes
or_none none = []
or_none (some files) = files

unfoldable pub of_dirs : Layout → Bundle → List Text → Targets
unfolding in_dir below Dict.lookup text_eq
of_dirs l src [] = []
of_dirs l src (sub ∷ subs) =
    in_dir (below l.base sub) (or_none (Dict.lookup sub src.dirs)) ++ of_dirs l src subs

unfoldable pub bats_in : Dict Text Bytes → Dict Text Bytes
unfolding ends_with lower
bats_in [] = []
bats_in ((name, b) ∷ files) =
    let rest = bats_in files in
    if ends_with (codes ".bat") (lower name) then (name, b) ∷ rest else rest

abbrev pub add_file : Text → Option Bytes → Dict Text Bytes → Dict Text Bytes
add_file name none rest = rest
add_file name (some b) rest = (name, b) ∷ rest

unfoldable pub named_in : Dict Text Bytes → List Text → Dict Text Bytes
unfolding Dict.lookup text_eq
named_in root [] = []
named_in root (name ∷ names) = add_file name (Dict.lookup name root) (named_in root names)

unfoldable pub runtime_targets : Layout → Bundle → Targets
unfolding of_dirs in_dir bats_in named_in
runtime_targets l src =
    of_dirs l src runtime_subdirs
    ++ (in_dir l.base (bats_in src.root) ++ in_dir l.base (named_in src.root runtime_root_files))

-- `shutil.copy2`: whether it succeeded
abbrev pub succeeded : Result (Unit {0}) × World → Bool × World
succeeded (ok u, w) = (true, w)
succeeded (err e, w) = (false, w)

unfoldable pub copy_in : Text → Bytes → World → Bool × World
unfolding access Dict.insert
copy_in path b w =
    succeeded (access (λ v. (ok tt, record v { disk = Dict.insert path b v.disk })) w.faults w)

-- `copy_if_absent`
unfoldable pub copy_if_absent : Text → Bytes → World → Bool × World
unfolding copy_in exists
copy_if_absent path b w = if exists path w then (false, w) else copy_in path b w

abbrev pub noted : Text → Bool → List Text → List Text
noted path b paths = if b then path ∷ paths else paths

unfoldable pub copy_absent : Targets → World → List Text × World
unfolding copy_if_absent
copy_absent [] w = ([], w)
copy_absent ((path, b) ∷ targets) w =
    let (done, v) = copy_if_absent path b w in
    let (copied, u) = copy_absent targets v in (noted path done copied, u)

-- No bundle stands for a program that runs from its source.
unfoldable pub ensure_runtime : Layout → Option Bundle → World → List Text × World
unfolding copy_absent runtime_targets
ensure_runtime l none w = ([], w)
ensure_runtime l (some src) w = copy_absent (runtime_targets l src) w

module _ (sha256 : Bytes → Text) where
  abbrev pub fix_changed : Text → Bytes → Result Bytes × World → Bool × World
  fix_changed path b (ok old, w) = if sha256 b == sha256 old then (false, w) else copy_in path b w
  fix_changed path b (err e, w) = (false, w)

  unfoldable pub fix_file : Text → Bytes → World → Bool × World
  unfolding copy_in exists text_eq
  fix_file path b w =
      if exists path w then fix_changed path b (read_file path w) else copy_in path b w

  unfoldable pub fix_files : Targets → World → List Text × World
  unfolding fix_file
  fix_files [] w = ([], w)
  fix_files ((path, b) ∷ targets) w =
      let (done, v) = fix_file path b w in
      let (fixed, u) = fix_files targets v in (noted path done fixed, u)

  unfoldable pub verify_runtime : Layout → Option Bundle → World → List Text × World
  unfolding fix_files of_dirs
  verify_runtime l none w = ([], w)
  verify_runtime l (some src) w = fix_files (of_dirs l src integrity_subdirs) w
