-- ===== src/Doh/Enable.antt =====
-- How `doh_enable` ends: the stored snapshot precedes every change of the adapters.
use zapret_gui.Base.{
  ◌≡◌, refl, All, ◌⊎◌, contains, text_eq, Bool, true, false, ◌&&◌, Option, none, some, List, [],
  ◌∷◌, if◌then◌else◌, Bool-cases, inl, inr,
}
use zapret_gui.Result.{Result, ok, err, Error}
use zapret_gui.Base.Dict.{lookup}
use zapret_gui.Text.{Text, lower}
use zapret_gui.Doh.Merge.{merge-kept, merge-added}
use zapret_gui.Doh.Steps.{
  switched_on, saved_as, Ended, finished, broken, Applied, Registered, apply-Ended, attempt-Ended,
}
use zapret_gui.Doh.{Snapshot, Entry, Addresses, Config, System, validate_dns_snapshot}
use zapret_gui.Doh.Ops.{
  provider_of, guids, is_nil, merge, or_empty, incomplete, checked_snapshot, World, continue, store,
  attempt, forget, roll_back, report, handle, enable_saved, enable_merged, enable_on, enable_from,
  restore_first, doh_enable,
}

-- The settings behind a rollback
abbrev undone : Snapshot → Config → Config
undone saved c = record c { pending = false; snapshot = if c.enabled then some saved else none }

module _ (a : Addresses) (S : System) where
  -- What is stored before anything is changed: all that was stored, and each adapter read now whose
  -- identifier was not.
  pub record Snapshots (w : World a S) (current saved : Snapshot) : Type 0 where
    pub read : checked_snapshot a (S.read_dns w.state) ≡ ok current
    pub kept :
        (i : Text) (e : Entry)
        → lookup i (or_empty w.config.snapshot) ≡ some e
        → lookup i saved ≡ some e
    pub added :
        All
          (λ x.
            (contains (guids (or_empty w.config.snapshot)) (lower x.1.guid) ≡ true)
            ⊎ (lookup x.0 saved ≡ some x.1))
          current

  -- The four ends of the operation
  pub data Enabled (provider : Text) (w : World a S) (r : Result Bool) (w' : World a S)
      : Type 0 where
    on :
        (p : List Text × Text) (current saved : Snapshot)
        → r ≡ ok true
        → provider_of provider ≡ some p
        → Snapshots w current saved
        → w'.config ≡ switched_on provider (saved_as saved w.config)
        → Registered a S p current w.state w'.state
        → Enabled provider w r w'
    untouched :
        (e : Error)
        → r ≡ err e
        → w'.config ≡ w.config
        → w'.state ≡ w.state
        → Enabled provider w r w'
    rolled_back :
        (current saved : Snapshot) (e : Error) (s : S.State)
        → r ≡ err e
        → Snapshots w current saved
        → w'.config ≡ undone saved w.config
        → Applied a S current none s w'.state
        → Enabled provider w r w'
    stuck :
        (current saved : Snapshot)
        → r ≡ err incomplete
        → Snapshots w current saved
        → w'.config ≡ saved_as saved w.config
        → Enabled provider w r w'

  report-Enabled :
      (provider : Text) (w : World a S) (current saved : Snapshot) (exc : Error) (s : S.State)
      (m : Result (Unit {0}) × World a S)
      → Snapshots w current saved
      → Ended a S
          (Applied a S current none s)
          (forget a S w.config.enabled (saved_as saved w.config))
          (saved_as saved w.config)
          m.0
          m.1
      → Enabled provider w (report a S exc m).0 (report a S exc m).1
  report-Enabled provider w current saved exc s (ok u, v) q (finished r c p) =
      rolled_back current saved exc s refl q c p
  report-Enabled provider w current saved exc s (ok u, v) q (broken e r c) = cc
  report-Enabled provider w current saved exc s (err y, v) q (finished r c p) = cc
  report-Enabled provider w current saved exc s (err y, v) q (broken e r c) =
      stuck current saved refl q c

  handle-Enabled :
      (provider : Text) (p : List Text × Text) (w : World a S) (current saved : Snapshot)
      (m : Result (Unit {0}) × World a S)
      → provider_of provider ≡ some p
      → Snapshots w current saved
      → Ended a S
          (Registered a S p current w.state)
          (switched_on provider (saved_as saved w.config))
          (saved_as saved w.config)
          m.0
          m.1
      → let n = handle a S w.config.enabled current m in Enabled provider w n.0 n.1
  handle-Enabled provider p w current saved (ok u, v) o q (finished r c g) =
      on p current saved refl o q c g
  handle-Enabled provider p w current saved (ok u, v) o q (broken e r c) = cc
  handle-Enabled provider p w current saved (err y, v) o q (finished r c g) = cc
  handle-Enabled provider p w current saved (err y, v) o q (broken e r c) =
      report-Enabled provider w current saved y v.state (roll_back a S w.config.enabled current v) q
        (apply-Ended a S (Applied a S current none v.state) current none
          (forget a S w.config.enabled) (saved_as saved w.config) v c (λ s g. g))

  saved-Enabled :
      (p : List Text × Text) (provider : Text) (w : World a S) (current saved : Snapshot)
      (fs : List Bool)
      → provider_of provider ≡ some p
      → Snapshots w current saved
      → let m = store a S (saved_as saved) fs w in
        let n =
          continue a S m.0
            (λ _ v. handle a S w.config.enabled current (attempt a S p provider current v))
            m.1 in
        Enabled provider w n.0 n.1
  unfolding store
  saved-Enabled p provider w current saved [] o q =
      let v : World a S = record w { config = saved_as saved w.config } in
      handle-Enabled provider p w current saved (attempt a S p provider current v) o q
        (attempt-Ended a S p provider current (saved_as saved w.config) v refl)
  saved-Enabled p provider w current saved (false ∷ fs) o q =
      let v : World a S = record w { config = saved_as saved w.config; faults = fs } in
      handle-Enabled provider p w current saved (attempt a S p provider current v) o q
        (attempt-Ended a S p provider current (saved_as saved w.config) v refl)
  saved-Enabled p provider w current saved (true ∷ fs) o q = untouched _ refl refl refl

  merged-Enabled :
      (p : List Text × Text) (provider : Text) (w : World a S) (current : Snapshot)
      (m : Result Snapshot)
      → provider_of provider ≡ some p
      → ((saved : Snapshot) → m ≡ ok saved → Snapshots w current saved)
      → let n = enable_merged a S p provider w.config.enabled current m w in
        Enabled provider w n.0 n.1
  merged-Enabled p provider w current (err e) o q = untouched e refl refl refl
  merged-Enabled p provider w current (ok saved) o q = valid (validate_dns_snapshot a saved)
    where
      valid :
          (r : Result (Unit {0}))
          → let n =
              continue a S r (λ _. enable_saved a S p provider w.config.enabled current saved) w in
            Enabled provider w n.0 n.1
      valid (ok u) = saved-Enabled p provider w current saved w.faults o (q saved refl)
      valid (err e) = untouched e refl refl refl

  merge-Snapshots :
      (w : World a S) (current saved : Snapshot)
      → checked_snapshot a (S.read_dns w.state) ≡ ok current
      → let old = or_empty w.config.snapshot in
        merge (guids old) current old ≡ ok saved → Snapshots w current saved
  merge-Snapshots w current saved e m =
      let old = or_empty w.config.snapshot in
      record {
        read = e;
        kept = λ i x. merge-kept (guids old) current old saved i x m;
        added = merge-added (guids old) current old saved m;
      }

  on-Enabled :
      (p : List Text × Text) (provider : Text) (w : World a S) (r : Result Snapshot)
      → provider_of provider ≡ some p
      → checked_snapshot a (S.read_dns w.state) ≡ r
      → let n = continue a S r (enable_on a S p provider w.config) w in Enabled provider w n.0 n.1
  unfolding enable_on
  on-Enabled p provider w (err e) o q = untouched e refl refl refl
  on-Enabled p provider w (ok current) o q =
      elim (Bool-cases (w.config.enabled && is_nil (or_empty w.config.snapshot))) [
        | inl e ↦ rw e (untouched _ refl refl refl)
        | inr e ↦ rw e (
            merged-Enabled p provider w current
              (merge (guids (or_empty w.config.snapshot)) current (or_empty w.config.snapshot)) o
              (λ saved. merge-Snapshots w current saved q))
      ]

  if-Enabled :
      (provider : Text) (w : World a S) (b : Bool) (m n : Result Bool × World a S)
      → Enabled provider w m.0 m.1
      → Enabled provider w n.0 n.1
      → let k = if b then m else n in Enabled provider w k.0 k.1
  if-Enabled provider w true m n h g = h
  if-Enabled provider w false m n h g = g

  from-Enabled :
      (o : Option (List Text × Text)) (provider : Text) (w : World a S)
      → provider_of provider ≡ o
      → Enabled provider w (enable_from a S o provider w).0 (enable_from a S o provider w).1
  from-Enabled none provider w q = untouched _ refl refl refl
  from-Enabled (some p) provider w q =
      if-Enabled provider w w.config.pending (err (restore_first a S), w) _
        (untouched _ refl refl refl)
        (on-Enabled p provider w (checked_snapshot a (S.read_dns w.state)) q refl)

  -- doh_enable ends in one of four ways, whatever PowerShell and the writes of the settings
  -- do: the provider was registered in the state of the start, then its addresses were
  -- applied to the adapters that were read, and the settings say so and hold the snapshot; or
  -- it raises with settings and adapters untouched; or it raises, the last thing that was
  -- done to the adapters is to apply what was read, successfully, and the settings are as
  -- they were but for the flag and the snapshot; or it raises that the rollback is
  -- incomplete, with the operation pending and the snapshot stored. A snapshot that is stored
  -- keeps every adapter that was stored and has every adapter that was read and whose
  -- identifier was not.
  pub doh_enable-Enabled :
      (provider : Text) (w : World a S)
      → Enabled provider w (doh_enable a S provider w).0 (doh_enable a S provider w).1
  unfolding doh_enable
  doh_enable-Enabled provider w = from-Enabled (provider_of provider) provider w refl
