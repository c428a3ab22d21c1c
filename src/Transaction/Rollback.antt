-- ===== src/Transaction/Rollback.antt =====
-- The rollback of `_write_transaction`: what it restores, and what it reports.
use zapret_gui.Base.{
  ◌≡◌, refl, ◌∙◌, ap, true, Option, none, some, List, [], ◌∷◌, ◌++◌, arith, ◌==◌, contains, text_eq,
  if◌then◌else◌,
}
use zapret_gui.Base.Dict.{Dict, lookup, lookup-erase}
use zapret_gui.Result.{
  Result, ok, err, Error, os_error, permission_error, file_not_found, is_os_error,
}
use zapret_gui.Text.{Text}
use zapret_gui.Disk.{Bytes, World, Fault, fine, locked, broken, removed, remove_file, atomic_write}
use zapret_gui.Disk.Atomic.{Written, written, refused, atomic_write-Written}
use zapret_gui.Transaction.{Previous, old_of, restore, note_failure, roll_back}
use zapret_gui.Transaction.Parts.{lookup-written}

-- The two outcomes of the restoration of one file
data Restored (path : Text) (old : Option Bytes) (w : World) (r : Result (Unit {0})) (w' : World)
    : Type 0 where
  restored :
      r ≡ ok tt
      → ((q : Text) → lookup q w'.disk ≡ (if q == path then old else lookup q w.disk))
      → Restored path old w r w'
  kept : (e : Error) → r ≡ err e → is_os_error e ≡ true → Restored path old w r w'

removed-Restored :
    (path : Text) (o : Option Bytes) (w v : World)
    → v.disk ≡ w.disk
    → Restored path none w (removed path o v).0 (removed path o v).1
removed-Restored path none w v e = kept file_not_found refl refl
removed-Restored path (some b) w v e =
    restored refl
      (λ q. lookup-erase q path v.disk ∙ ap (λ d. if q == path then none else lookup q d) e)

remove_at :
    (path : Text) (d : Dict Text Bytes) (t : Option Bytes) (fs : List Fault)
    → let w : World = record { disk = d; temp = t; faults = fs } in
      Restored path none w (remove_file path w).0 (remove_file path w).1
unfolding remove_file
remove_at path d t [] =
    let w : World = record { disk = d; temp = t; faults = [] } in
    removed-Restored path (lookup path d) w w refl
remove_at path d t (fine ∷ fs) =
    let w : World = record { disk = d; temp = t; faults = fine ∷ fs } in
    let v : World = record { disk = d; temp = t; faults = fs } in
    removed-Restored path (lookup path d) w v refl
remove_at path d t (locked ∷ fs) = kept permission_error refl refl
remove_at path d t (broken ∷ fs) = kept os_error refl refl

Restored-of-Written :
    (path : Text) (b : Bytes) (w : World) (m : Result (Unit {0}) × World)
    → Written path b w m.0 m.1
    → Restored path (some b) w m.0 m.1
Restored-of-Written path b w m (written a e) = restored a (λ q. lookup-written path b w m.1 q e)
Restored-of-Written path b w m (refused x a c e) = kept x a c

restore-Restored :
    (path : Text) (old : Option Bytes) (w : World)
    → Restored path old w (restore path old w).0 (restore path old w).1
restore-Restored path none w = remove_at path w.disk w.temp w.faults
restore-Restored path (some b) w =
    Restored-of-Written path b w (atomic_write path b w) (atomic_write-Written path b w)

-- How a rollback ends: it lists its failures, and with none every file of the list is restored.
pub data RolledBack (changed : List Text) (previous : Previous) (failures : List Error) (w : World)
    (r : Result (List Error)) (w' : World) : Type 0 where
  complete :
      r ≡ ok failures
      → ((q : Text)
          → lookup q w'.disk ≡ (if contains changed q then old_of q previous else lookup q w.disk))
      → RolledBack changed previous failures w r w'
  partial :
      (f : Error) (more : List Error)
      → r ≡ ok (f ∷ more)
      → RolledBack changed previous failures w r w'

-- Failures before the rollback of the rest are kept.
Grown-of-snoc :
    (failures : List Error) (e : Error)
    → (f : Error) × (more : List Error) × (failures ++ e ∷ [] ≡ f ∷ more)
Grown-of-snoc [] e = (e, [], refl)
Grown-of-snoc (f ∷ failures) e = (f, failures ++ e ∷ [], refl)

note_failure-RolledBack :
    (path : Text) (changed : List Text) (previous : Previous) (failures : List Error) (w : World)
    (m : Result (Unit {0}) × World)
    → Restored path (old_of path previous) w m.0 m.1
    → ((fs : List Error) (v : World)
        → RolledBack changed previous fs v
            (roll_back changed previous fs v).0
            (roll_back changed previous fs v).1)
    → let n = note_failure (roll_back changed previous) failures m in
      RolledBack (path ∷ changed) previous failures w n.0 n.1
note_failure-RolledBack path changed previous failures w (ok u, v) (restored a b) ih =
    first (ih failures v)
  where
    first :
        RolledBack changed previous failures v
          (roll_back changed previous failures v).0
          (roll_back changed previous failures v).1
        → RolledBack
            (path ∷ changed)
            previous
            failures
            w
            (roll_back changed previous failures v).0
            (roll_back changed previous failures v).1
    first (complete r d) = complete r (λ q. ground (arith, d q, b q))
    first (partial f more r) = partial f more r
note_failure-RolledBack path changed previous failures w (ok u, v) (kept x a c) ih = cc
note_failure-RolledBack path changed previous failures w (err y, v) (restored a b) ih = cc
note_failure-RolledBack path changed previous failures w (err y, v) (kept x a c) ih =
    let e : y ≡ x = cc in rw (e, c) (second (ih (failures ++ x ∷ []) v))
  where
    second :
        RolledBack changed previous
          (failures ++ x ∷ [])
          v
          (roll_back changed previous (failures ++ x ∷ []) v).0
          (roll_back changed previous (failures ++ x ∷ []) v).1
        → RolledBack
            (path ∷ changed)
            previous
            failures
            w
            (roll_back changed previous (failures ++ x ∷ []) v).0
            (roll_back changed previous (failures ++ x ∷ []) v).1
    second (complete r d) =
        let (f, more, g) = Grown-of-snoc failures x in partial f more (r ∙ ap ok g)
    second (partial f more r) = partial f more r

pub roll_back-RolledBack :
    (changed : List Text) (previous : Previous) (failures : List Error) (w : World)
    → RolledBack changed previous failures w
        (roll_back changed previous failures w).0
        (roll_back changed previous failures w).1
unfolding roll_back
roll_back-RolledBack [] previous failures w = complete refl (λ q. refl)
roll_back-RolledBack (path ∷ changed) previous failures w =
    note_failure-RolledBack path changed previous failures w (restore path (old_of path previous) w)
      (restore-Restored path (old_of path previous) w) (roll_back-RolledBack changed previous)
