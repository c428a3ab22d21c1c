-- ===== src/Disk.antt =====
-- The files that zapret_core.py reads and writes, and its two file helpers `_retry_locked` and
-- `_atomic_write`. Each access of the file system first takes an entry of `faults`: what the
-- operating system answers to it (`fine` where the list has ended). The temporary file of
-- `_atomic_write` is a field of its own; its removal does not fail.
pub mod Atomic
use zapret_gui.Base.{
  ℕ, zero, suc, Bool, true, false, Option, none, some, List, [], ◌∷◌, ◌++◌, text_eq, if◌then◌else◌,
}
use zapret_gui.Base.Dict
use zapret_gui.Base.Dict.{Dict}
use zapret_gui.Result.{Result, ok, err, Error, os_error, permission_error, file_not_found}
use zapret_gui.Text.{Text, codes}

abbrev pub Bytes : Type 0
Bytes = List ℕ

pub data Fault : Type 0 where
  fine locked broken : Fault

pub record World : Type 0 where
  pub disk : Dict Text Bytes
  pub temp : Option Bytes
  pub faults : List Fault

-- What an operation returns or raises, and the world that it leaves
abbrev pub Exec : Type 0 → Type 0
Exec A = World → Result A × World

abbrev pub continue : {A B : Type 0} → Result A → (A → Exec B) → Exec B
continue (ok a) f w = f a w
continue (err e) f w = (err e, w)

infixl 5 ◌>>=◌ ◌>>◌
abbrev pub ◌>>=◌ : {A B : Type 0} → Exec A → (A → Exec B) → Exec B
◌>>=◌ m f w = let (r, w') = m w in continue r f w'

abbrev pub ◌>>◌ : {B : Type 0} → Exec (Unit {0}) → Exec B → Exec B
m >> k = m >>= λ _. k

abbrev pub pure : {A : Type 0} → A → Exec A
pure a w = (ok a, w)

abbrev pub raise : {A : Type 0} → Error → Exec A
raise e w = (err e, w)

-- One access: it fails as the next fault says, or does its work.
unfoldable pub access : {A : Type 0} → Exec A → List Fault → Exec A
access m [] w = m w
access m (fine ∷ fs) w = m (record w { faults = fs })
access m (locked ∷ fs) w = (err permission_error, record w { faults = fs })
access m (broken ∷ fs) w = (err os_error, record w { faults = fs })

abbrev pub found : Option Bytes → World → Result Bytes × World
found none w = (err file_not_found, w)
found (some b) w = (ok b, w)

-- `open(path, "rb").read()`
unfoldable pub read_file : Text → Exec Bytes
unfolding access Dict.lookup
read_file path w = access (λ v. found (Dict.lookup path v.disk) v) w.faults w

-- `os.path.exists(path)`
unfoldable pub exists : Text → World → Bool
unfolding Dict.lookup
exists path w = elim (Dict.lookup path w.disk) [ none ↦ false | some b ↦ true ]

abbrev pub removed : Text → Option Bytes → World → Result (Unit {0}) × World
removed path none w = (err file_not_found, w)
removed path (some b) w = (ok tt, record w { disk = Dict.erase path w.disk })

-- `os.remove(path)`
unfoldable pub remove_file : Text → Exec (Unit {0})
unfolding access
remove_file path w = access (λ v. removed path (Dict.lookup path v.disk) v) w.faults w

abbrev pub copied : Text → Option Bytes → World → Result (Unit {0}) × World
copied target none w = (err file_not_found, w)
copied target (some b) w = (ok tt, record w { disk = Dict.insert target b w.disk })

-- `shutil.copy2(source, target)`, the contents only
unfoldable pub copy_file : Text → Text → Exec (Unit {0})
unfolding access
copy_file source target w = access (λ v. copied target (Dict.lookup source v.disk) v) w.faults w

abbrev pub is_locked : Error → Bool
is_locked permission_error = true
is_locked _ = false

-- Behind an attempt: the rest of the attempts, if the file was locked
abbrev pub retry_behind : {A : Type 0} → Exec A → Result A × World → Result A × World
retry_behind rest (ok a, w) = (ok a, w)
retry_behind rest (err e, w) = if is_locked e then rest w else (err e, w)

-- `_retry_locked` with the attempts that are left behind the next one; it sleeps in between.
unfoldable pub retry_from : {A : Type 0} → ℕ → Exec A → Exec A
retry_from zero action w = action w
retry_from (suc n) action w = retry_behind (retry_from n action) (action w)

unfoldable pub retry_locked : {A : Type 0} → Exec A → Exec A
unfolding retry_from
retry_locked action = retry_from 19 action

-- `tempfile.mkstemp`, the write, the flush and `os.fsync`
unfoldable pub write_temp : Bytes → Exec (Unit {0})
unfolding access
write_temp content w =
    access (λ v. (ok tt, record v { temp = some content })) w.faults (record w { temp = some [] })

abbrev moved : Text → Option Bytes → World → World
moved path none w = w
moved path (some b) w = record w { disk = Dict.insert path b w.disk; temp = none }

-- `os.replace(tmp, path)`
unfoldable pub replace_temp : Text → Exec (Unit {0})
unfolding access Dict.insert
replace_temp path w = access (λ v. (ok tt, moved path v.temp v)) w.faults w

-- `finally: if os.path.exists(tmp): os.remove(tmp)`
abbrev pub drop_temp : {A : Type 0} → Result A × World → Result A × World
drop_temp (r, w) = (r, record w { temp = none })

unfoldable pub atomic_write : Text → Bytes → Exec (Unit {0})
unfolding write_temp replace_temp retry_locked
atomic_write path content w = drop_temp ((write_temp content >> retry_locked (replace_temp path)) w)
