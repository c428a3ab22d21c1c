-- ===== src/Transaction/Parts.antt =====
-- The loops of `_write_transaction`, one by one: what each leaves on the disk.
use zapret_gui.Base.{
  ◌≡◌, refl, ◌∙◌, ap, true, false, Option, none, some, List, [], ◌∷◌, arith, ◌==◌, contains,
  text_eq, if◌then◌else◌, All,
}
use zapret_gui.Base.Dict.{Dict, lookup, insert, keys, lookup-insert}
use zapret_gui.Result.{Result, ok, err, Error, os_error, permission_error, is_os_error}
use zapret_gui.Text.{Text}
use zapret_gui.Disk.{
  Bytes, World, Fault, fine, locked, broken, atomic_write, found, continue, pure, ◌>>=◌,
}
use zapret_gui.Disk.Atomic.{Written, written, refused, atomic_write-Written}
use zapret_gui.Transaction.{
  Previous, backup, read_old, read_previous, write_backup, write_backups, go_on, write_files,
  or_absent,
}

-- A read changes no file, and returns what is there.
data Read (path : Text) (w : World) (r : Result (Option Bytes)) (w' : World) : Type 0 where
  got : r ≡ ok (lookup path w.disk) → w'.disk ≡ w.disk → Read path w r w'
  lost : (e : Error) → r ≡ err e → is_os_error e ≡ true → w'.disk ≡ w.disk → Read path w r w'

found-Read :
    (path : Text) (w v : World) (o : Option Bytes)
    → o ≡ lookup path w.disk
    → v.disk ≡ w.disk
    → Read path w (or_absent (found o v)).0 (or_absent (found o v)).1
found-Read path w v none e d = got (ap ok e) d
found-Read path w v (some b) e d = got (ap ok e) d

Read-at :
    (path : Text) (d : Dict Text Bytes) (t : Option Bytes) (fs : List Fault)
    → let w : World = record { disk = d; temp = t; faults = fs } in
      Read path w (read_old path w).0 (read_old path w).1
unfolding read_old
Read-at path d t [] =
    let w : World = record { disk = d; temp = t; faults = [] } in
    found-Read path w w (lookup path d) refl refl
Read-at path d t (fine ∷ fs) =
    let w : World = record { disk = d; temp = t; faults = fine ∷ fs } in
    let v : World = record { disk = d; temp = t; faults = fs } in
    found-Read path w v (lookup path d) refl refl
Read-at path d t (locked ∷ fs) = lost permission_error refl refl refl
Read-at path d t (broken ∷ fs) = lost os_error refl refl refl

read_old-Read : (path : Text) (w : World) → Read path w (read_old path w).0 (read_old path w).1
read_old-Read path w = Read-at path w.disk w.temp w.faults

-- What `previous` says of every name once all files were read
abbrev pub Remembers : Dict Text Bytes → Dict Text Bytes → Previous → Type 0
Remembers files disk previous =
    (q : Text)
    → lookup q previous ≡ (if contains (keys files) q then some (lookup q disk) else none)

pub data ReadAll (files : Dict Text Bytes) (w : World) (r : Result Previous) (w' : World)
    : Type 0 where
  all_read :
      (previous : Previous)
      → r ≡ ok previous
      → keys previous ≡ keys files
      → Remembers files w.disk previous
      → w'.disk ≡ w.disk
      → ReadAll files w r w'
  not_read :
      (e : Error) → r ≡ err e → is_os_error e ≡ true → w'.disk ≡ w.disk → ReadAll files w r w'

Remembers-cons :
    (path : Text) (content : Bytes) (files disk : Dict Text Bytes) (previous : Previous)
    → Remembers files disk previous
    → Remembers ((path, content) ∷ files) disk ((path, lookup path disk) ∷ previous)
unfolding lookup
Remembers-cons path content files disk previous h q = ground (arith, h q)

read_cons :
    (path : Text) (content : Bytes) (files : Dict Text Bytes) (w u : World) (old : Option Bytes)
    (m : Result Previous × World)
    → old ≡ lookup path w.disk
    → u.disk ≡ w.disk
    → ReadAll files u m.0 m.1
    → let n = continue m.0 (λ rest. pure ((path, old) ∷ rest)) m.1 in
      ReadAll ((path, content) ∷ files) w n.0 n.1
read_cons path content files w u old (ok prev, v) eo eu (all_read p a k b c) =
    let e : prev ≡ p = cc in
    let b' : Remembers files w.disk prev = λ q. rw (e, ← eu) (b q) in
    all_read ((path, old) ∷ prev) refl (rw e (ap (λ ks. path ∷ ks) k))
      (rw eo (Remembers-cons path content files w.disk prev b')) (c ∙ eu)
read_cons path content files w u old (err e, v) eo eu (all_read p a k b c) = cc
read_cons path content files w u old (ok prev, v) eo eu (not_read e a o c) = cc
read_cons path content files w u old (err x, v) eo eu (not_read e a o c) = not_read e a o (c ∙ eu)

Read-first :
    (path : Text) (content : Bytes) (files : Dict Text Bytes) (w : World)
    (m : Result (Option Bytes) × World)
    → ((v : World) → ReadAll files v (read_previous files v).0 (read_previous files v).1)
    → Read path w m.0 m.1
    → let n = continue m.0 (λ old. read_previous files >>= λ rest. pure ((path, old) ∷ rest)) m.1 in
      ReadAll ((path, content) ∷ files) w n.0 n.1
Read-first path content files w (ok o, u) ih (got a b) =
    read_cons path content files w u o (read_previous files u) (cc) b (ih u)
Read-first path content files w (ok o, u) ih (lost e a o' b) = cc
Read-first path content files w (err e, u) ih (got a b) = cc
Read-first path content files w (err e, u) ih (lost x a o b) = not_read x (cc) o b

pub read_previous-ReadAll :
    (files : Dict Text Bytes) (w : World)
    → ReadAll files w (read_previous files w).0 (read_previous files w).1
unfolding read_previous
read_previous-ReadAll [] w = all_read [] refl refl (λ q. ground arith) refl
read_previous-ReadAll ((path, content) ∷ files) w =
    Read-first path content files w (read_old path w) (read_previous-ReadAll files)
      (read_old-Read path w)

-- A name that is no backup of a file of the transaction
abbrev pub NoBackup : List Text → Text → Type 0
NoBackup ps q = All (λ p. (q == backup p) ≡ false) ps

write_backup-keeps :
    (path : Text) (old : Option Bytes) (w : World) (q : Text)
    → (q == backup path) ≡ false
    → lookup q (write_backup path old w).1.disk ≡ lookup q w.disk
write_backup-keeps path none w q h = refl
write_backup-keeps path (some b) w q h = go (atomic_write-Written (backup path) b w)
  where
    go :
        Written (backup path) b w (write_backup path (some b) w).0 (write_backup path (some b) w).1
        → lookup q (write_backup path (some b) w).1.disk ≡ lookup q w.disk
    go (written a e) = ap (lookup q) e ∙ (lookup-insert q (backup path) b w.disk ∙ (rw h))
    go (refused x a c e) = ap (lookup q) e

backups_behind :
    (previous : Previous) (w : World) (q : Text) (m : Result (Unit {0}) × World)
    → ((v : World) → lookup q (write_backups previous v).1.disk ≡ lookup q v.disk)
    → lookup q m.1.disk ≡ lookup q w.disk
    → lookup q (continue m.0 (λ _. write_backups previous) m.1).1.disk ≡ lookup q w.disk
backups_behind previous w q (ok u, v) ih e = ih v ∙ e
backups_behind previous w q (err x, v) ih e = e

-- The backups change no other file.
pub write_backups-keeps :
    (previous : Previous) (w : World) (q : Text)
    → NoBackup (keys previous) q
    → lookup q (write_backups previous w).1.disk ≡ lookup q w.disk
unfolding write_backups
write_backups-keeps [] w q h = refl
write_backups-keeps ((path, old) ∷ previous) w q h =
    backups_behind previous w q (write_backup path old w)
      (λ v. write_backups-keeps previous v q h.1) (write_backup-keeps path old w q h.0)

-- The backups are all written, or an OSError stops them.
pub data BackedUp (r : Result (Unit {0})) : Type 0 where
  backed_up : r ≡ ok tt → BackedUp r
  stopped_backup : (e : Error) → r ≡ err e → is_os_error e ≡ true → BackedUp r

write_backup-BackedUp :
    (path : Text) (old : Option Bytes) (w : World) → BackedUp (write_backup path old w).0
write_backup-BackedUp path none w = backed_up refl
write_backup-BackedUp path (some b) w = go (atomic_write-Written (backup path) b w)
  where
    go :
        Written (backup path) b w (write_backup path (some b) w).0 (write_backup path (some b) w).1
        → BackedUp (write_backup path (some b) w).0
    go (written a e) = backed_up a
    go (refused x a c e) = stopped_backup x a c

backups_behind-BackedUp :
    (previous : Previous) (m : Result (Unit {0}) × World)
    → ((v : World) → BackedUp (write_backups previous v).0)
    → BackedUp m.0
    → BackedUp (continue m.0 (λ _. write_backups previous) m.1).0
backups_behind-BackedUp previous (ok u, v) ih h = ih v
backups_behind-BackedUp previous (err x, v) ih (backed_up a) = cc
backups_behind-BackedUp previous (err x, v) ih (stopped_backup e a o) = stopped_backup e a o

pub write_backups-BackedUp :
    (previous : Previous) (w : World) → BackedUp (write_backups previous w).0
unfolding write_backups
write_backups-BackedUp [] w = backed_up refl
write_backups-BackedUp ((path, old) ∷ previous) w =
    backups_behind-BackedUp previous (write_backup path old w) (write_backups-BackedUp previous)
      (write_backup-BackedUp path old w)

pub lookup-written :
    (path : Text) (content : Bytes) (w v : World) (q : Text)
    → v.disk ≡ insert path content w.disk
    → lookup q v.disk ≡ (if q == path then some content else lookup q w.disk)
lookup-written path content w v q e = ap (lookup q) e ∙ lookup-insert q path content w.disk

go_on-keeps :
    (path : Text) (content : Bytes) (files : Dict Text Bytes) (changed : List Text) (w : World)
    (q : Text) (m : Result (Unit {0}) × World)
    → Written path content w m.0 m.1
    → ((v : World)
        → contains (write_files files (path ∷ changed) v).0 q ≡ false
        → (lookup q (write_files files (path ∷ changed) v).2.disk ≡ lookup q v.disk)
          × (contains (path ∷ changed) q ≡ false))
    → contains (go_on changed path (write_files files) m).0 q ≡ false
    → (lookup q (go_on changed path (write_files files) m).2.disk ≡ lookup q w.disk)
      × (contains changed q ≡ false)
go_on-keeps path content files changed w q (ok u, v) (written a b) ih h =
    let (e, n) = ih v h in ground (arith, e, n, lookup-written path content w v q b)
go_on-keeps path content files changed w q (ok u, v) (refused x a b c) ih h = cc
go_on-keeps path content files changed w q (err y, v) (written a b) ih h = cc
go_on-keeps path content files changed w q (err y, v) (refused x a b c) ih h = (ap (lookup q) c, h)

-- A file that is not among the written ones is as it was.
pub write_files-keeps :
    (files : Dict Text Bytes) (changed : List Text) (w : World) (q : Text)
    → contains (write_files files changed w).0 q ≡ false
    → (lookup q (write_files files changed w).2.disk ≡ lookup q w.disk)
      × (contains changed q ≡ false)
unfolding write_files
write_files-keeps [] changed w q h = (refl, h)
write_files-keeps ((path, content) ∷ files) changed w q h =
    go_on-keeps path content files changed w q (atomic_write path content w)
      (atomic_write-Written path content w) (λ v. write_files-keeps files (path ∷ changed) v q) h
