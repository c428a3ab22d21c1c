-- ===== src/Hostlists/Ipset/Stored.antt =====
-- What an update of the ipset leaves on the disk.
use zapret_gui.Base.{
  ℕ, ◌≡◌, refl, ◌∙◌, ap, Bool, true, false, Option, none, some, List, [], ◌∷◌, ◌==◌, text_eq,
  if◌then◌else◌, length, all, Bool-cases, inl, inr, arith, ◌<◌, ==_refl,
}
use zapret_gui.Base.Dict.{lookup, lookup-insert}
use zapret_gui.Result.{Result, ok, err}
use zapret_gui.Text.{Text}
use zapret_gui.Text.Split.{splitlines}
use zapret_gui.Disk.{
  Bytes, World, Fault, fine, locked, broken, access, copied, copy_file, exists, atomic_write,
}
use zapret_gui.Disk.Atomic.{Written, written, refused, atomic_write-Written}
use zapret_gui.Hostlists.{list_lines}
use zapret_gui.Hostlists.Ipset.{
  backup_of, back_up, checked_entries, entries_of, counted, written_behind, store, update_ipset,
}

module _ (is_network : Text → Bool) (ipset_file : Text) where
  -- No file but the backup has changed.
  abbrev pub Unchanged : World → World → Type 0
  Unchanged w v =
      (q : Text) → (q == backup_of ipset_file) ≡ false → lookup q v.disk ≡ lookup q w.disk

  back_up-Unchanged : (w : World) → Unchanged w (back_up ipset_file w).1
  unfolding back_up copy_file
  back_up-Unchanged w = elim (Bool-cases (exists ipset_file w)) [
    | inl e ↦ rw e (go w.faults)
    | inr e ↦ rw e (λ q n. refl)
  ]
    where
      done :
          (o : Option Bytes) (fs : List Fault)
          → Unchanged w (copied (backup_of ipset_file) o (record w { faults = fs })).1
      done none fs q n = refl
      done (some b) fs q n = lookup-insert q (backup_of ipset_file) b w.disk ∙ (rw n refl)

      go :
          (fs : List Fault)
          → Unchanged w
              (access (λ v. copied (backup_of ipset_file) (lookup ipset_file v.disk) v) fs w).1
      go [] q n = done (lookup ipset_file w.disk) w.faults q n
      go (fine ∷ fs) q n = done (lookup ipset_file w.disk) fs q n
      go (locked ∷ fs) q n = refl
      go (broken ∷ fs) q n = refl

  -- A refused update has changed no file but the backup; an accepted one has stored the bytes, whose
  -- entries are networks, as many as are returned and at least one.
  abbrev pub IsUpdate : (Bytes → Option Text) → Option Bytes → World → Option ℕ × World → Type 0
  IsUpdate decode o w (none, v) = Unchanged w v
  IsUpdate decode o w (some n, v) =
      (bytes : Bytes) × (text : Text) × (o ≡ some bytes)
      × (decode bytes ≡ some text)
      × (lookup ipset_file v.disk ≡ some bytes)
      × (n ≡ length (list_lines (splitlines text)))
      × (0 < n)
      × (all is_network (list_lines (splitlines text)) ≡ true)

  -- What `entries_of` accepts
  abbrev Accepted : Option Text → Option (List Text) → Type 0
  Accepted o none = Unit
  Accepted o (some es) =
      (text : Text) × (o ≡ some text)
      × (es ≡ list_lines (splitlines text))
      × (0 < length es)
      × (all is_network es ≡ true)

  Accepted-if :
      (b : Bool) (text : Text) (es : List Text)
      → (b ≡ true → all is_network es ≡ true)
      → es ≡ list_lines (splitlines text)
      → 0 < length es
      → Accepted (some text) (if b then some es else none)
  Accepted-if true text es h e l = (text, refl, e, l, h refl)
  Accepted-if false text es h e l = tt

  Accepted-checked :
      (text : Text) (es : List Text)
      → es ≡ list_lines (splitlines text)
      → Accepted (some text) (checked_entries is_network ipset_file es)
  Accepted-checked text [] e = tt
  Accepted-checked text (x ∷ es) e =
      Accepted-if (all is_network (x ∷ es)) text (x ∷ es) (λ h. h) e (omega arith)

  entries_of-Accepted : (o : Option Text) → Accepted o (entries_of is_network ipset_file o)
  unfolding entries_of
  entries_of-Accepted none = tt
  entries_of-Accepted (some text) = Accepted-checked text (list_lines (splitlines text)) refl

  module _ (decode : Bytes → Option Text) (bytes : Bytes) (w : World) where
    counted-IsUpdate :
        (es : List Text) (v : World) (m : Result (Unit {0}) × World)
        → Accepted (decode bytes) (some es)
        → Unchanged w v
        → Written ipset_file bytes v m.0 m.1
        → IsUpdate decode (some bytes) w (counted is_network ipset_file (length es) m)
    counted-IsUpdate es v (ok u, x) (text, d, e, l, k) h (written a b) = (
      bytes,
      text,
      refl,
      d,
      ap (lookup ipset_file) b
          ∙ (lookup-insert ipset_file ipset_file bytes v.disk ∙ (rw (==_refl ipset_file) refl)),
      ap length e,
      l,
      rw e at k,
    )
    counted-IsUpdate es v (ok u, x) a h (refused e b o d) = cc
    counted-IsUpdate es v (err e, x) a h (written b d) = cc
    counted-IsUpdate es v (err e, x) a h (refused e' b o d) = λ q n. ap (lookup q) d ∙ h q n

    behind-IsUpdate :
        (es : List Text) (m : Result (Unit {0}) × World)
        → Accepted (decode bytes) (some es)
        → Unchanged w m.1
        → IsUpdate decode (some bytes) w (
            counted is_network ipset_file
              (length es)
              (written_behind is_network ipset_file bytes m))
    behind-IsUpdate es (ok u, v) a h =
        counted-IsUpdate es v (atomic_write ipset_file bytes v) a h
          (atomic_write-Written ipset_file bytes v)
    behind-IsUpdate es (err e, v) a h = h

    store-IsUpdate :
        (o : Option (List Text))
        → Accepted (decode bytes) o
        → IsUpdate decode (some bytes) w (store is_network ipset_file bytes o w)
    store-IsUpdate none a = λ q n. refl
    store-IsUpdate (some es) a = behind-IsUpdate es (back_up ipset_file w) a (back_up-Unchanged w)

  -- An update of the ipset that is refused has changed no file but the backup, whatever
  -- faults the file system has; one that is accepted has stored the bytes that were
  -- downloaded, whose entries, at least one and as many as it reports, are all networks.
  pub update_ipset-IsUpdate :
      (decode : Bytes → Option Text) (o : Option Bytes) (w : World)
      → IsUpdate decode o w (update_ipset is_network ipset_file decode o w)
  unfolding update_ipset
  update_ipset-IsUpdate decode none w = λ q n. refl
  update_ipset-IsUpdate decode (some bytes) w =
      store-IsUpdate decode bytes w (entries_of is_network ipset_file (decode bytes))
        (entries_of-Accepted (decode bytes))
