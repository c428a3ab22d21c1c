-- ===== src/Transaction/Outcome.antt =====
-- What a whole transaction does to the disk.
use zapret_gui.Base.{
  ◌≡◌, refl, sym, ◌∙◌, ap, true, false, some, List, [], ◌∷◌, arith, ◌==◌, contains, text_eq,
  if◌then◌else◌, ◌⊎◌, inl,
}
use zapret_gui.Base.Dict.{Dict, lookup, insert, update, keys, lookup-insert}
use zapret_gui.Result.{Result, ok, err, Error, is_os_error}
use zapret_gui.Text.{Text}
use zapret_gui.Disk.{Bytes, World, atomic_write, continue, ◌>>◌}
use zapret_gui.Disk.Atomic.{Written, written, refused, atomic_write-Written}
use zapret_gui.Transaction.{
  Previous, read_previous, write_backups, Progress, go_on, write_files, old_of, roll_back, report,
  finish, incomplete, write_transaction,
}
use zapret_gui.Transaction.Parts.{
  Remembers, ReadAll, all_read, not_read, read_previous-ReadAll, NoBackup, write_backups-keeps,
  BackedUp, backed_up, stopped_backup, write_backups-BackedUp, write_files-keeps,
}
use zapret_gui.Transaction.Rollback.{RolledBack, complete, partial, roll_back-RolledBack}

lookup-update :
    (files d d' : Dict Text Bytes) (q : Text)
    → lookup q d ≡ lookup q d'
    → lookup q (update files d) ≡ lookup q (update files d')
unfolding update
lookup-update [] d d' q h = h
lookup-update ((path, content) ∷ files) d d' q h =
    lookup-update files (insert path content d) (insert path content d') q (
      lookup-insert q path content d
      ∙ ap (λ o. if q == path then some content else o) h
      ∙ sym (lookup-insert q path content d'))

-- How the loop over the files ends
data Looped (files : Dict Text Bytes) (changed : List Text) (w : World) (p : Progress)
    : Type 0 where
  all_done :
      p.1 ≡ ok tt
      → ((q : Text) → lookup q p.2.disk ≡ lookup q (update files w.disk))
      → Looped files changed w p
  stopped :
      (e : Error)
      → p.1 ≡ err e
      → is_os_error e ≡ true
      → ((q : Text)
          → contains p.0 q ≡ true
          → (contains changed q ≡ true) ⊎ (contains (keys files) q ≡ true))
      → Looped files changed w p

go_on-Looped :
    (path : Text) (content : Bytes) (files : Dict Text Bytes) (changed : List Text) (w : World)
    (m : Result (Unit {0}) × World)
    → Written path content w m.0 m.1
    → ((v : World) → Looped files (path ∷ changed) v (write_files files (path ∷ changed) v))
    → Looped ((path, content) ∷ files) changed w (go_on changed path (write_files files) m)
unfolding update
go_on-Looped path content files changed w (ok u, v) (written a b) ih = first (ih v)
  where
    first :
        Looped files (path ∷ changed) v (write_files files (path ∷ changed) v)
        → Looped ((path, content) ∷ files) changed w (write_files files (path ∷ changed) v)
    first (all_done r d) = all_done r (λ q. d q ∙ ap (λ x. lookup q (update files x)) b)
    first (stopped e r o c) = stopped e r o (λ q h. ground (arith, c q h))
go_on-Looped path content files changed w (ok u, v) (refused x a b c) ih = cc
go_on-Looped path content files changed w (err y, v) (written a b) ih = cc
go_on-Looped path content files changed w (err y, v) (refused x a b c) ih =
    stopped x a b (λ q h. inl h)

write_files-Looped :
    (files : Dict Text Bytes) (changed : List Text) (w : World)
    → Looped files changed w (write_files files changed w)
unfolding write_files update
write_files-Looped [] changed w = all_done refl (λ q. refl)
write_files-Looped ((path, content) ∷ files) changed w =
    go_on-Looped path content files changed w (atomic_write path content w)
      (atomic_write-Written path content w) (write_files-Looped files (path ∷ changed))

-- The three outcomes of a transaction, at every name that is no backup: all files were replaced,
-- or an OSError was raised and every file is as it was, or the rollback was incomplete and a
-- RuntimeError says so.
pub data Outcome (files : Dict Text Bytes) (w : World) (r : Result (Unit {0})) (w' : World)
    : Type 0 where
  replaced :
      r ≡ ok tt
      → ((q : Text) → NoBackup (keys files) q → lookup q w'.disk ≡ lookup q (update files w.disk))
      → Outcome files w r w'
  unchanged :
      (e : Error)
      → r ≡ err e
      → is_os_error e ≡ true
      → ((q : Text) → NoBackup (keys files) q → lookup q w'.disk ≡ lookup q w.disk)
      → Outcome files w r w'
  broken_off : r ≡ err incomplete → Outcome files w r w'

same_error : (y e : Error) → ◌≡◌ {A = Result (Unit {0})} (err y) (err e) → y ≡ e
same_error y e h = cc

report-Outcome :
    (files : Dict Text Bytes) (changed : List Text) (previous : Previous) (w v u : World)
    (e : Error) (m : Result (List Error) × World)
    → is_os_error e ≡ true
    → Remembers files w.disk previous
    → ((q : Text) → NoBackup (keys files) q → lookup q v.disk ≡ lookup q w.disk)
    → ((q : Text) → contains changed q ≡ false → lookup q u.disk ≡ lookup q v.disk)
    → ((q : Text) → contains changed q ≡ true → contains (keys files) q ≡ true)
    → RolledBack changed previous [] u m.0 m.1
    → Outcome files w (report e m).0 (report e m).1
unfolding old_of
report-Outcome files changed previous w v u e (ok [], x) o rem bk kept sub (complete a d) =
    unchanged e refl o (λ q n. ground (arith, d q, rem q, bk q n, kept q, sub q))
report-Outcome files changed previous w v u e (ok (f ∷ fs), x) o rem bk kept sub (complete a d) =
    broken_off refl
report-Outcome files changed previous w v u e (err y, x) o rem bk kept sub (complete a d) = cc
report-Outcome files changed previous w v u e (ok [], x) o rem bk kept sub (partial f more a) = cc
report-Outcome files changed previous w v u e (ok (g ∷ fs), x) o rem bk kept sub
      (partial f more a) =
    broken_off refl
report-Outcome files changed previous w v u e (err y, x) o rem bk kept sub (partial f more a) = cc

finish-Outcome :
    (files : Dict Text Bytes) (previous : Previous) (w v : World) (p : Progress)
    → Remembers files w.disk previous
    → ((q : Text) → NoBackup (keys files) q → lookup q v.disk ≡ lookup q w.disk)
    → ((q : Text) → contains p.0 q ≡ false → lookup q p.2.disk ≡ lookup q v.disk)
    → Looped files [] v p
    → Outcome files w (finish previous p).0 (finish previous p).1
finish-Outcome files previous w v (changed, ok t, u) rem bk kept (all_done a d) =
    replaced refl (λ q n. d q ∙ lookup-update files v.disk w.disk q (bk q n))
finish-Outcome files previous w v (changed, ok t, u) rem bk kept (stopped e a o c) = cc
finish-Outcome files previous w v (changed, err y, u) rem bk kept (all_done a d) = cc
finish-Outcome files previous w v (changed, err y, u) rem bk kept (stopped e a o c) =
    report-Outcome files changed previous w v u y (roll_back changed previous [] u)
      (rw (← (same_error y e a)) at o) rem bk kept (λ q h. ground (arith, c q h))
      (roll_back-RolledBack changed previous [] u)

backups-Outcome :
    (files : Dict Text Bytes) (previous : Previous) (w : World) (m : Result (Unit {0}) × World)
    → Remembers files w.disk previous
    → ((q : Text) → NoBackup (keys files) q → lookup q m.1.disk ≡ lookup q w.disk)
    → BackedUp m.0
    → let n = continue m.0 (λ _ v. finish previous (write_files files [] v)) m.1 in
      Outcome files w n.0 n.1
backups-Outcome files previous w (ok t, v) rem bk h =
    finish-Outcome files previous w v (write_files files [] v) rem bk
      (λ q n. (write_files-keeps files [] v q n).0) (write_files-Looped files [] v)
backups-Outcome files previous w (err y, v) rem bk (backed_up a) = cc
backups-Outcome files previous w (err y, v) rem bk (stopped_backup e a o) = unchanged e a o bk

previous-Outcome :
    (files : Dict Text Bytes) (w : World) (m : Result Previous × World)
    → ReadAll files w m.0 m.1
    → let n =
        continue m.0
          (λ previous. write_backups previous >> λ v. finish previous (write_files files [] v))
          m.1 in
      Outcome files w n.0 n.1
previous-Outcome files w (ok previous, v) (all_read p a k b c) =
    let e : previous ≡ p = cc in
    backups-Outcome files previous w (write_backups previous v) (rw e b)
      (λ q n. write_backups-keeps previous v q (rw (e, k) n) ∙ ap (lookup q) c)
      (write_backups-BackedUp previous v)
previous-Outcome files w (ok previous, v) (not_read e a o c) = cc
previous-Outcome files w (err y, v) (all_read p a k b c) = cc
previous-Outcome files w (err y, v) (not_read e a o c) = unchanged e (cc) o (λ q n. ap (lookup q) c)

-- Whatever faults the file system has, a multi-file replacement either replaces every file, or
-- raises an OSError with every file (backups apart) as it was, or raises the RuntimeError of an
-- incomplete rollback.
pub write_transaction-Outcome :
    (files : Dict Text Bytes) (w : World)
    → Outcome files w (write_transaction files w).0 (write_transaction files w).1
unfolding write_transaction
write_transaction-Outcome files w =
    previous-Outcome files w (read_previous files w) (read_previous-ReadAll files w)
