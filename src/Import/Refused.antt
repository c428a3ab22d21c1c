-- ===== src/Import/Refused.antt =====
-- An import that is refused leaves every file as it was, but for backups and the copy of a damaged
-- file of settings.
use zapret_gui.Base.{
  ℕ, zero, suc, ◌≡◌, refl, ◌∙◌, false, Option, none, some, List, [], ◌∷◌, ◌==◌, text_eq, Bool-cases,
  inl, inr, ◌⊎◌,
}
use zapret_gui.Base.Dict.{Dict, lookup, insert, keys, lookup-insert}
use zapret_gui.Result.{
  Result, ok, err, runtime_error, value_error, os_error, permission_error, file_not_found,
  superseded, type_error, timeout_expired,
}
use zapret_gui.Text.{Text, codes}
use zapret_gui.Json.{Json, Codec, as_dict}
use zapret_gui.Disk.{
  Bytes, World, Exec, Fault, fine, locked, broken, access, found, copied, continue, pure, read_file,
  copy_file, is_locked, retry_behind, retry_from, retry_locked,
}
use zapret_gui.Config.{Settings, broken_name, read_settings, or_backup, handle_load, load_config}
use zapret_gui.Config.Check.{check_settings}
use zapret_gui.Presets.{validate_presets}
use zapret_gui.Transaction.{write_transaction, backup, incomplete}
use zapret_gui.Transaction.Parts.{NoBackup}
use zapret_gui.Transaction.Outcome.{
  Outcome, replaced, unchanged, broken_off, write_transaction-Outcome,
}
use zapret_gui.Import.{
  Reply, imported, refused, wrong_format, nothing_in_file, validate_dict, config_part, presets_part,
  write_parts, import_parts, caught, import_dict, import_json, import_settings,
}

module _ (q : Text) (x : Option Bytes) where
  -- The file at this path is as it was.
  abbrev pub Kept : World → Type 0
  Kept w = lookup q w.disk ≡ x

  Kept-found : (o : Option Bytes) (w : World) → Kept w → Kept (found o w).1
  Kept-found none w h = h
  Kept-found (some b) w h = h

  Kept-read_file : (path : Text) (w : World) → Kept w → Kept (read_file path w).1
  unfolding read_file
  Kept-read_file path w h = go w.faults
    where
      go : (fs : List Fault) → Kept (access (λ v. found (lookup path v.disk) v) fs w).1
      go [] = Kept-found (lookup path w.disk) w h
      go (fine ∷ fs) = Kept-found (lookup path w.disk) (record w { faults = fs }) h
      go (locked ∷ fs) = h
      go (broken ∷ fs) = h

  Kept-behind :
      {A : Type 0} (rest : Exec A) (m : Result A × World)
      → ((v : World) → Kept v → Kept (rest v).1)
      → Kept m.1
      → Kept (retry_behind rest m).1
  Kept-behind rest (ok a, w) k h = h
  Kept-behind rest (err e, w) k h = elim (Bool-cases (is_locked e)) [
    | inl y ↦ rw y (k w h)
    | inr n ↦ rw n h
  ]

  Kept-retry_from :
      {A : Type 0} (n : ℕ) (action : Exec A)
      → ((v : World) → Kept v → Kept (action v).1)
      → (w : World) → Kept w
      → Kept (retry_from n action w).1
  unfolding retry_from
  Kept-retry_from zero action k w h = k w h
  Kept-retry_from (suc n) action k w h =
      Kept-behind (retry_from n action) (action w) (Kept-retry_from n action k) (k w h)

  Kept-retry_locked :
      {A : Type 0} (action : Exec A)
      → ((v : World) → Kept v → Kept (action v).1)
      → (w : World) → Kept w
      → Kept (retry_locked action w).1
  unfolding retry_locked
  Kept-retry_locked action k w h = Kept-retry_from 19 action k w h

  Kept-copied :
      (target : Text) (o : Option Bytes) (w : World)
      → (q == target) ≡ false
      → Kept w
      → Kept (copied target o w).1
  Kept-copied target none w n h = h
  Kept-copied target (some b) w n h = lookup-insert q target b w.disk ∙ (rw n h)

  Kept-copy_file :
      (source target : Text) (w : World)
      → (q == target) ≡ false
      → Kept w
      → Kept (copy_file source target w).1
  unfolding copy_file
  Kept-copy_file source target w n h = go w.faults
    where
      go : (fs : List Fault) → Kept (access (λ v. copied target (lookup source v.disk) v) fs w).1
      go [] = Kept-copied target (lookup source w.disk) w n h
      go (fine ∷ fs) = Kept-copied target (lookup source w.disk) (record w { faults = fs }) n h
      go (locked ∷ fs) = h
      go (broken ∷ fs) = h

module _ (c : Codec) (config_file presets_file stamp q : Text) (x : Option Bytes)
    (no_copy : (q == broken_name config_file stamp) ≡ false)
    (no_backup : (q == backup config_file) ≡ false)
    (no_backup_of_presets : (q == backup presets_file) ≡ false) where
  abbrev K : World → Type 0
  K = Kept q x

  copied_then :
      (m : Result (Unit {0}) × World) → K m.1 → K (continue m.0 (λ _. pure {A = Settings} []) m.1).1
  copied_then (ok u, w) h = h
  copied_then (err e, w) h = h

  or_backup-Kept : (o : Option Settings) (w : World) → K w → K (or_backup c config_file stamp o w).1
  or_backup-Kept (some d) w h = h
  or_backup-Kept none w h =
      copied_then (copy_file config_file (broken_name config_file stamp) w)
        (Kept-copy_file q x config_file (broken_name config_file stamp) w no_copy h)

  handle-Kept : (m : Result Bytes × World) → K m.1 → K (handle_load c config_file stamp m).1
  handle-Kept (ok b, w) h = or_backup-Kept (read_settings c config_file b) w h
  handle-Kept (err file_not_found, w) h = h
  handle-Kept (err (value_error s), w) h = h
  handle-Kept (err (runtime_error s), w) h = h
  handle-Kept (err os_error, w) h = h
  handle-Kept (err permission_error, w) h = h
  handle-Kept (err superseded, w) h = h
  handle-Kept (err type_error, w) h = h
  handle-Kept (err timeout_expired, w) h = h

  load-Kept : (w : World) → K w → K (load_config c config_file stamp w).1
  unfolding load_config
  load-Kept w h =
      handle-Kept (retry_locked (read_file config_file) w)
        (Kept-retry_locked q x (read_file config_file) (Kept-read_file q x config_file) w h)

  -- The files that are written are those of the settings and of the presets.
  abbrev pub AreParts : Dict Text Bytes → Type 0
  AreParts files = NoBackup (keys files) q

  abbrev Prepared : Result (Dict Text Bytes) × World → Type 0
  Prepared (ok files, w) = AreParts files × K w
  Prepared (err e, w) = K w

  checked-Prepared :
      (j : Json) (m : Result Settings × World) (cfg : Settings)
      → K m.1
      → let n = continue m.0 (λ current w. (check_settings current cfg, w)) m.1 in
        Prepared (continue n.0 (λ _. pure ((config_file, c.dumps j) ∷ [])) n.1)
  checked-Prepared j (err e, w) cfg h = h
  checked-Prepared j (ok current, w) cfg h = go (check_settings current cfg)
    where
      go :
          (r : Result (Unit {0}))
          → Prepared (continue r (λ _. pure ((config_file, c.dumps j) ∷ [])) w)
      go (ok u) = ((no_backup, tt), h)
      go (err e) = h

  dict-Prepared :
      (j : Json) (o : Option Settings) (w : World)
      → K w
      → let n = validate_dict c config_file presets_file stamp o w in
        Prepared (continue n.0 (λ _. pure ((config_file, c.dumps j) ∷ [])) n.1)
  dict-Prepared j none w h = h
  dict-Prepared j (some cfg) w h =
      checked-Prepared j (load_config c config_file stamp w) cfg (load-Kept w h)

  config-Prepared :
      (o : Option Json) (w : World)
      → K w
      → Prepared (config_part c config_file presets_file stamp o w)
  config-Prepared none w h = (tt, h)
  config-Prepared (some j) w h = dict-Prepared j (as_dict j) w h

  AreParts-insert :
      (b : Bytes) (files : Dict Text Bytes)
      → AreParts files
      → AreParts (insert presets_file b files)
  unfolding insert
  AreParts-insert b [] h = (no_backup_of_presets, tt)
  AreParts-insert b ((k, y) ∷ files) (n, h) = elim (Bool-cases (presets_file == k)) [
    | inl e ↦ rw e (no_backup_of_presets, h)
    | inr e ↦ rw e (n, AreParts-insert b files h)
  ]

  presets-Prepared :
      (o : Option Json) (files : Dict Text Bytes) (w : World)
      → AreParts files
      → K w
      → Prepared (presets_part c config_file presets_file stamp o files w)
  presets-Prepared none files w a h = (a, h)
  presets-Prepared (some j) files w a h = go (validate_presets j)
    where
      go :
          (r : Result (List Json))
          → Prepared (continue r (λ _. pure (insert presets_file (c.dumps j) files)) w)
      go (ok ps) = (AreParts-insert (c.dumps j) files a, h)
      go (err e) = h

  -- Where nothing was imported, the file at the path is as it was, unless the rollback was incomplete.
  abbrev pub IsRefusal : Result Reply × World → Type 0
  IsRefusal (ok imported, w) = Unit
  IsRefusal (ok (refused e), w) = (e ≡ incomplete) ⊎ K w
  IsRefusal (ok wrong_format, w) = K w
  IsRefusal (ok nothing_in_file, w) = K w
  IsRefusal (err e, w) = (e ≡ incomplete) ⊎ K w

  -- Before the `except` clause
  abbrev Raises : Result Reply × World → Type 0
  Raises (ok imported, w) = Unit
  Raises (ok (refused e), w) = K w
  Raises (ok wrong_format, w) = K w
  Raises (ok nothing_in_file, w) = K w
  Raises (err e, w) = (e ≡ incomplete) ⊎ K w

  written-Raises :
      (files : Dict Text Bytes) (w : World) (m : Result (Unit {0}) × World)
      → AreParts files
      → K w
      → Outcome files w m.0 m.1
      → Raises (continue m.0 (λ _. pure imported) m.1)
  written-Raises files w (ok u, v) a h o = tt
  written-Raises files w (err e, v) a h (replaced f d) = cc
  written-Raises files w (err e, v) a h (unchanged y f o d) = inr (d q a ∙ h)
  written-Raises files w (err e, v) a h (broken_off f) = inl cc

  parts-Raises :
      (files : Dict Text Bytes) (w : World)
      → AreParts files
      → K w
      → Raises (write_parts c config_file presets_file stamp files w)
  parts-Raises [] w a h = h
  parts-Raises (f ∷ files) w a h =
      written-Raises (f ∷ files) w (write_transaction (f ∷ files) w) a h
        (write_transaction-Outcome (f ∷ files) w)

  files-Raises :
      (m : Result (Dict Text Bytes) × World)
      → Prepared m
      → Raises (continue m.0 (write_parts c config_file presets_file stamp) m.1)
  files-Raises (ok files, w) h = parts-Raises files w h.0 h.1
  files-Raises (err e, w) h = inr h

  both-Raises :
      (o : Option Json) (m : Result (Dict Text Bytes) × World)
      → Prepared m
      → Raises (
          continue m.0
            (λ files w.
              let n = presets_part c config_file presets_file stamp o files w in
              continue n.0 (write_parts c config_file presets_file stamp) n.1)
            m.1)
  both-Raises o (ok files, w) h =
      files-Raises (presets_part c config_file presets_file stamp o files w)
        (presets-Prepared o files w h.0 h.1)
  both-Raises o (err e, w) h = inr h

  import_parts-Raises :
      (d : Settings) (w : World) → K w → Raises (import_parts c config_file presets_file stamp d w)
  unfolding import_parts
  import_parts-Raises d w h =
      both-Raises (lookup (codes "presets") d)
        (config_part c config_file presets_file stamp (lookup (codes "config") d) w)
        (config-Prepared (lookup (codes "config") d) w h)

  caught-IsRefusal :
      (m : Result Reply × World) → Raises m → IsRefusal (caught c config_file presets_file stamp m)
  caught-IsRefusal (ok imported, w) h = tt
  caught-IsRefusal (ok (refused e), w) h = inr h
  caught-IsRefusal (ok wrong_format, w) h = h
  caught-IsRefusal (ok nothing_in_file, w) h = h
  caught-IsRefusal (err type_error, w) h = h
  caught-IsRefusal (err (value_error s), w) h = h
  caught-IsRefusal (err (runtime_error s), w) h = h
  caught-IsRefusal (err os_error, w) h = h
  caught-IsRefusal (err permission_error, w) h = h
  caught-IsRefusal (err file_not_found, w) h = h
  caught-IsRefusal (err superseded, w) h = h
  caught-IsRefusal (err timeout_expired, w) h = h

  json-IsRefusal :
      (o : Option Json) (w : World)
      → K w
      → IsRefusal (import_json c config_file presets_file stamp o w)
  json-IsRefusal none w h = inr h
  json-IsRefusal (some j) w h = dict (as_dict j)
    where
      dict : (o : Option Settings) → IsRefusal (import_dict c config_file presets_file stamp o w)
      dict none = h
      dict (some d) =
          caught-IsRefusal (import_parts c config_file presets_file stamp d w)
            (import_parts-Raises d w h)

  read-IsRefusal :
      (m : Result Bytes × World)
      → K m.1
      → IsRefusal (continue m.0 (λ b. import_json c config_file presets_file stamp (c.parse b)) m.1)
  read-IsRefusal (ok b, w) h = json-IsRefusal (c.parse b) w h
  read-IsRefusal (err e, w) h = inr h

  import-Kept :
      (path : Text) (w : World)
      → K w
      → IsRefusal (import_settings c config_file presets_file stamp path w)
  unfolding import_settings
  import-Kept path w h = read-IsRefusal (read_file path w) (Kept-read_file q x path w h)

-- An import of settings that is refused or raises, whatever the file holds and whatever faults
-- the file system has, leaves every file as it was, but for the two backups and the copy of a
-- damaged file of settings, unless it reports a rollback that was not complete.
pub import_settings-IsRefusal :
    (c : Codec) (config_file presets_file stamp q : Text)
    → (no_copy : (q == broken_name config_file stamp) ≡ false)
    → (no_backup : (q == backup config_file) ≡ false)
    → (no_backup_of_presets : (q == backup presets_file) ≡ false) → (path : Text) (w : World)
    → IsRefusal c config_file presets_file stamp q
        (lookup q w.disk)
        no_copy
        no_backup
        no_backup_of_presets
        (import_settings c config_file presets_file stamp path w)
import_settings-IsRefusal c config_file presets_file stamp q n k l path w =
    import-Kept c config_file presets_file stamp q (lookup q w.disk) n k l path w refl
