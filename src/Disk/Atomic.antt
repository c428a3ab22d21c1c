-- ===== src/Disk/Atomic.antt =====
-- `_atomic_write` writes the whole file or leaves the disk as it was.
use zapret_gui.Base.{
  ℕ, zero, suc, ◌≡◌, refl, ◌∙◌, ap, true, Option, none, some, List, [], ◌∷◌, arith, text_eq, ◌≤◌,
  ◌<◌, inl, inr, Bool-cases,
}
use zapret_gui.Base.Dict
use zapret_gui.Base.Dict.{Dict}
use zapret_gui.Result.{Result, ok, err, Error, os_error, permission_error, is_os_error}
use zapret_gui.Text.{Text}
use zapret_gui.Disk.{
  Bytes, World, Exec, Fault, fine, locked, broken, access, retry_from, retry_behind, replace_temp,
  atomic_write, drop_temp, moved, is_locked,
}

-- The two outcomes of a write: the file holds the content, or an OSError was raised and the disk
-- is the one before.
pub data Written (path : Text) (content : Bytes) (w : World) (r : Result (Unit {0})) (w' : World)
    : Type 0 where
  written : r ≡ ok tt → w'.disk ≡ Dict.insert path content w.disk → Written path content w r w'
  refused :
      (e : Error)
      → r ≡ err e
      → is_os_error e ≡ true
      → w'.disk ≡ w.disk
      → Written path content w r w'

-- The same of one move of the temporary file, which keeps that file when it fails
data Moved (path : Text) (content : Bytes) (w : World) (r : Result (Unit {0})) (w' : World)
    : Type 0 where
  done : r ≡ ok tt → w'.disk ≡ Dict.insert path content w.disk → Moved path content w r w'
  failed :
      (e : Error)
      → r ≡ err e
      → is_os_error e ≡ true
      → w'.disk ≡ w.disk
      → w'.temp ≡ some content
      → Moved path content w r w'

access-Moved :
    (path : Text) (content : Bytes) (fs : List Fault) (w : World)
    → w.temp ≡ some content
    → let m = access (λ v. (ok tt, moved path v.temp v)) fs w in Moved path content w m.0 m.1
unfolding access
access-Moved path content [] w h = rw h (done refl refl)
access-Moved path content (fine ∷ fs) w h = rw h (done refl refl)
access-Moved path content (locked ∷ fs) w h = failed permission_error refl refl refl h
access-Moved path content (broken ∷ fs) w h = failed os_error refl refl refl h

replace-Moved :
    (path : Text) (content : Bytes) (w : World)
    → w.temp ≡ some content
    → Moved path content w (replace_temp path w).0 (replace_temp path w).1
unfolding replace_temp
replace-Moved path content w h = access-Moved path content w.faults w h

Moved-trans :
    (path : Text) (content : Bytes) (w v : World) {r : Result (Unit {0})} {u : World}
    → v.disk ≡ w.disk
    → Moved path content v r u
    → Moved path content w r u
Moved-trans path content w v e (done a b) = done a (b ∙ ap (Dict.insert path content) e)
Moved-trans path content w v e (failed x a b c d) = failed x a b (c ∙ e) d

retry_behind-Moved :
    (path : Text) (content : Bytes) (w : World) (rest : Exec (Unit {0}))
    (m : Result (Unit {0}) × World)
    → ((v : World) → v.temp ≡ some content → Moved path content v (rest v).0 (rest v).1)
    → Moved path content w m.0 m.1
    → Moved path content w (retry_behind rest m).0 (retry_behind rest m).1
retry_behind-Moved path content w rest (ok a, u) f h = h
retry_behind-Moved path content w rest (err e, u) f h = elim (Bool-cases (is_locked e)) [
  | inl l ↦ rw l (again h)
  | inr n ↦ rw n h
]
  where
    again : Moved path content w (err e) u → Moved path content w (rest u).0 (rest u).1
    again (done a b) = cc
    again (failed x a b c d) = Moved-trans path content w u c (f u d)

retry-Moved :
    (path : Text) (content : Bytes) (n : ℕ) (w : World)
    → w.temp ≡ some content
    → Moved path content w
        (retry_from n (replace_temp path) w).0
        (retry_from n (replace_temp path) w).1
unfolding retry_from
retry-Moved path content zero w h = replace-Moved path content w h
retry-Moved path content (suc n) w h =
    retry_behind-Moved path content w (retry_from n (replace_temp path)) (replace_temp path w)
      (retry-Moved path content n) (replace-Moved path content w h)

Written-of-Moved :
    (path : Text) (content : Bytes) (w v : World) (m : Result (Unit {0}) × World)
    → v.disk ≡ w.disk
    → Moved path content v m.0 m.1
    → Written path content w (drop_temp m).0 (drop_temp m).1
Written-of-Moved path content w v m e (done a b) = written a (b ∙ ap (Dict.insert path content) e)
Written-of-Moved path content w v m e (failed x a b c d) = refused x a b (c ∙ e)

Written-at :
    (path : Text) (content : Bytes) (d : Dict Text Bytes) (t : Option Bytes) (fs : List Fault)
    → let w : World = record { disk = d; temp = t; faults = fs } in
      Written path content w (atomic_write path content w).0 (atomic_write path content w).1
unfolding atomic_write
Written-at path content d t [] =
    let w : World = record { disk = d; temp = t; faults = [] } in
    let v : World = record { disk = d; temp = some content; faults = [] } in
    Written-of-Moved path content w v (retry_from 19 (replace_temp path) v) refl
      (retry-Moved path content 19 v refl)
Written-at path content d t (fine ∷ fs) =
    let w : World = record { disk = d; temp = t; faults = fine ∷ fs } in
    let v : World = record { disk = d; temp = some content; faults = fs } in
    Written-of-Moved path content w v (retry_from 19 (replace_temp path) v) refl
      (retry-Moved path content 19 v refl)
Written-at path content d t (locked ∷ fs) = refused permission_error refl refl refl
Written-at path content d t (broken ∷ fs) = refused os_error refl refl refl

-- A write of a file is done whole, or raises an OSError and leaves the disk as it was, whatever
-- faults come.
pub atomic_write-Written :
    (path : Text) (content : Bytes) (w : World)
    → Written path content w (atomic_write path content w).0 (atomic_write path content w).1
atomic_write-Written path content w = Written-at path content w.disk w.temp w.faults

-- The number of times that a file is found locked, before an access that is answered `fine`
abbrev pub locks : ℕ → List Fault → List Fault
locks zero fs = fine ∷ fs
locks (suc k) fs = locked ∷ locks k fs

retry-locks :
    (path : Text) (content : Bytes) (n k : ℕ) (fs : List Fault) (d : Dict Text Bytes)
    → k ≤ n
    → retry_from n
        (replace_temp path)
        (record { disk = d; temp = some content; faults = locks k fs })
      ≡ (ok tt, record { disk = Dict.insert path content d; temp = none; faults = fs })
unfolding retry_from replace_temp
retry-locks path content zero zero fs d h = refl
retry-locks path content zero (suc k) fs d h = absurd (omega arith)
retry-locks path content (suc n) zero fs d h = refl
retry-locks path content (suc n) (suc k) fs d h = retry-locks path content n k fs d (omega arith)

-- Where the temporary file can be written, a file that is found locked by fewer than twenty
-- attempts in a row, and then is not, is written.
pub atomic_write-locks :
    (path : Text) (content : Bytes) (k : ℕ) (fs : List Fault) (d : Dict Text Bytes)
    (t : Option Bytes)
    → k < 20
    → atomic_write path content (record { disk = d; temp = t; faults = fine ∷ locks k fs })
      ≡ (ok tt, record { disk = Dict.insert path content d; temp = none; faults = fs })
unfolding atomic_write
atomic_write-locks path content k fs d t h = rw (retry-locks path content 19 k fs d (omega arith))

-- No temporary file is left behind.
pub temp-atomic_write :
    (path : Text) (content : Bytes) (w : World) → (atomic_write path content w).1.temp ≡ none
unfolding atomic_write
temp-atomic_write path content w = refl
