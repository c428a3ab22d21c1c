-- ===== src/Transaction.antt =====
-- zapret_core.py: `_write_transaction`, the replacement of several files with a rollback.
pub mod Parts
pub mod Rollback
pub mod Outcome
use zapret_gui.Base.{
  ℕ, Bool, true, false, Option, none, some, List, [], ◌∷◌, ◌++◌, text_eq, if◌then◌else◌,
}
use zapret_gui.Base.Dict
use zapret_gui.Base.Dict.{Dict}
use zapret_gui.Result.{Result, ok, err, Error, runtime_error, file_not_found, is_os_error}
use zapret_gui.Text.{Text, codes}
use zapret_gui.Disk.{
  Bytes, World, Exec, pure, raise, read_file, remove_file, atomic_write, ◌>>=◌, ◌>>◌,
}

-- The contents that the files had: none where there was no file
abbrev pub Previous : Type 0
Previous = Dict Text (Option Bytes)

abbrev pub backup : Text → Text
backup path = path ++ codes ".backup"

-- `except FileNotFoundError: previous[path] = None`
abbrev pub or_absent : Result Bytes × World → Result (Option Bytes) × World
or_absent (ok b, w) = (ok (some b), w)
or_absent (err file_not_found, w) = (ok none, w)
or_absent (err e, w) = (err e, w)

unfoldable pub read_old : Text → Exec (Option Bytes)
unfolding read_file
read_old path w = or_absent (read_file path w)

-- The first loop
unfoldable pub read_previous : Dict Text Bytes → Exec Previous
unfolding read_old
read_previous [] = pure []
read_previous ((path, content) ∷ files) = do
  old ← read_old path
  rest ← read_previous files
  pure ((path, old) ∷ rest)

abbrev pub write_backup : Text → Option Bytes → Exec (Unit {0})
write_backup path none = pure tt
write_backup path (some b) = atomic_write (backup path) b

-- The second loop
unfoldable pub write_backups : Previous → Exec (Unit {0})
write_backups [] = pure tt
write_backups ((path, old) ∷ previous) = do write_backup path old; write_backups previous

-- The loop over `files`: the names that were written, the last one first, and how it ended
abbrev pub Progress : Type 0
Progress = List Text × Result (Unit {0}) × World

abbrev pub go_on :
    List Text → Text → (List Text → World → Progress) → Result (Unit {0}) × World → Progress
go_on changed path rest (ok u, w) = rest (path ∷ changed) w
go_on changed path rest (err e, w) = (changed, err e, w)

unfoldable pub write_files : Dict Text Bytes → List Text → World → Progress
write_files [] changed w = (changed, ok tt, w)
write_files ((path, content) ∷ files) changed w =
    go_on changed path (write_files files) (atomic_write path content w)

-- `previous[path]`; every name in `changed` is a key of it
unfoldable pub old_of : Text → Previous → Option Bytes
unfolding Dict.lookup
old_of path previous = elim (Dict.lookup path previous) [ none ↦ none | some old ↦ old ]

abbrev pub restore : Text → Option Bytes → Exec (Unit {0})
restore path none = remove_file path
restore path (some b) = atomic_write path b

-- `except OSError as exc: failures.append(str(exc))`; anything else is raised.
abbrev pub note_failure :
    (List Error → World → Result (List Error) × World)
    → List Error
    → Result (Unit {0}) × World
    → Result (List Error) × World
note_failure rest failures (ok u, w) = rest failures w
note_failure rest failures (err e, w) =
    if is_os_error e then rest (failures ++ e ∷ []) w else (err e, w)

unfoldable pub roll_back : List Text → Previous → List Error → Exec (List Error)
roll_back [] previous failures w = (ok failures, w)
roll_back (path ∷ changed) previous failures w =
    note_failure (roll_back changed previous) failures (restore path (old_of path previous) w)

abbrev pub incomplete : Error
incomplete = runtime_error "Неполный откат; сохранены .backup"

-- Behind the rollback: the error of the transaction
abbrev pub report : Error → Result (List Error) × World → Result (Unit {0}) × World
report error (ok [], w) = (err error, w)
report error (ok (f ∷ failures), w) = (err incomplete, w)
report error (err e, w) = (err e, w)

abbrev pub finish : Previous → Progress → Result (Unit {0}) × World
finish previous (changed, ok u, w) = (ok tt, w)
finish previous (changed, err e, w) = report e (roll_back changed previous [] w)

unfoldable pub write_transaction : Dict Text Bytes → Exec (Unit {0})
unfolding read_previous write_backups write_files roll_back old_of
write_transaction files = do
  previous ← read_previous files
  write_backups previous
  λ w. finish previous (write_files files [] w)
