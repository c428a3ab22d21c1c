-- ===== src/Config/Fields.antt =====
-- What an update of the settings keeps, and that a saved file is read back.
use zapret_gui.Base.{
  ◌≡◌, refl, sym, ◌∙◌, ap, false, Option, none, some, List, [], ◌==◌, contains, text_eq,
  if◌then◌else◌, ==_refl,
}
use zapret_gui.Base.Dict.{
  Dict, lookup, insert, update, erase_all, or_else, NodupKeys, lookup-insert, lookup-update,
  lookup-erase_all,
}
use zapret_gui.Result.{Result, ok, err}
use zapret_gui.Text.{Text}
use zapret_gui.Json.{Codec, obj, of_entries, as_dict, entries-of_entries, IsReadBack}
use zapret_gui.Disk.{Bytes, World, pure, continue, read_file, copy_file, retry_locked, atomic_write}
use zapret_gui.Disk.Atomic.{Written, written, refused, atomic_write-Written}
use zapret_gui.Config.{
  Settings, broken_name, settings_of, read_settings, load_config, save_config, store_updated,
  update_config,
}

-- The settings behind an update
abbrev pub updated : Settings → List Text → Settings → Settings
updated changes remove cfg = erase_all remove (update changes cfg)

-- A field of them: gone if it was to be removed, else as changed, else as it was
pub lookup-updated :
    (changes : Settings) (remove : List Text) (cfg : Settings) (k : Text)
    → NodupKeys changes
    → lookup k (updated changes remove cfg)
      ≡ (if contains remove k then none else or_else (lookup k changes) (lookup k cfg))
lookup-updated changes remove cfg k h =
    lookup-erase_all remove (update changes cfg) k
    ∙ ap (λ o. if contains remove k then none else o) (lookup-update changes cfg k h)

module _ (c : Codec) (config_file : Text) where
  read_settings-dumps :
      (cfg : Settings)
      → IsReadBack c (obj (of_entries cfg))
      → read_settings c config_file (c.dumps (obj (of_entries cfg))) ≡ some cfg
  unfolding read_settings as_dict
  read_settings-dumps cfg r = ap settings_of r ∙ ap some (entries-of_entries cfg)

  -- How an update that returns came about, from what the load returned and left
  pub record Updated (changes : Settings) (remove : List Text) (load : Result Settings × World)
      (cfg' : Settings) (w' : World) : Type 0 where
    pub old : Settings
    pub loaded : load.0 ≡ ok old
    pub fields : cfg' ≡ updated changes remove old
    pub stored : lookup config_file w'.disk ≡ some (c.dumps (obj (of_entries cfg')))
    pub others : (q : Text) → (q == config_file) ≡ false → lookup q w'.disk ≡ lookup q load.1.disk

  saved_behind :
      (cfg : Settings) (v : World) (m : Result (Unit {0}) × World) (cfg' : Settings)
      → Written config_file (c.dumps (obj (of_entries cfg))) v m.0 m.1
      → (continue m.0 (λ _. pure cfg) m.1).0 ≡ ok cfg'
      → (cfg ≡ cfg')
        × (lookup config_file (continue m.0 (λ _. pure cfg) m.1).1.disk
            ≡ some (c.dumps (obj (of_entries cfg))))
        × ((q : Text)
            → (q == config_file) ≡ false
            → lookup q (continue m.0 (λ _. pure cfg) m.1).1.disk ≡ lookup q v.disk)
  saved_behind cfg v (ok u, x) cfg' (written a b) h = (
    cc,
    ap (lookup config_file) b ∙ (lookup-insert config_file config_file _ v.disk ∙ (rw ==_refl)),
    λ q n. ap (lookup q) b ∙ (lookup-insert q config_file _ v.disk ∙ (rw n)),
  )
  saved_behind cfg v (ok u, x) cfg' (refused e a o d) h = cc
  saved_behind cfg v (err y, x) cfg' w h = cc

  Updated-behind :
      (changes : Settings) (remove : List Text) (load : Result Settings × World) (cfg' : Settings)
      → (continue load.0 (store_updated c config_file changes remove) load.1).0 ≡ ok cfg'
      → Updated changes remove load cfg'
          (continue load.0 (store_updated c config_file changes remove) load.1).1
  unfolding store_updated save_config
  Updated-behind changes remove (ok old, v) cfg' h =
      let new : Settings = updated changes remove old in
      let (e, stored, others) =
        saved_behind new v (atomic_write config_file (c.dumps (obj (of_entries new))) v) cfg'
          (atomic_write-Written config_file (c.dumps (obj (of_entries new))) v) h in
      record { old = old; loaded = refl; fields = sym e; stored = rw (← e) stored; others = others }
  Updated-behind changes remove (err y, v) cfg' h = cc

  -- An update of the settings that returns has stored exactly the loaded settings with the
  -- changes made and the fields to remove gone, returns them, and changes no other file
  -- behind the load.
  pub update_config-Updated :
      (stamp : Text) (changes : Settings) (remove : List Text) (w : World) (cfg' : Settings)
      → (update_config c config_file stamp changes remove w).0 ≡ ok cfg'
      → Updated changes remove
          (load_config c config_file stamp w)
          cfg'
          (update_config c config_file stamp changes remove w).1
  unfolding update_config
  update_config-Updated stamp changes remove w cfg' h =
      Updated-behind changes remove (load_config c config_file stamp w) cfg' h

  read_found :
      (d : Dict Text Bytes) (t : Option Bytes) (b : Bytes)
      → lookup config_file d ≡ some b
      → let w : World = record { disk = d; temp = t; faults = [] } in
        retry_locked (read_file config_file) w ≡ (ok b, w)
  unfolding retry_locked read_file
  read_found d t b h = rw h

  -- With no fault of the file system, settings that are stored, and read back by the codec,
  -- are loaded as they were, with no file changed.
  pub load-stored :
      (stamp : Text) (cfg : Settings) (d : Dict Text Bytes) (t : Option Bytes)
      → IsReadBack c (obj (of_entries cfg))
      → lookup config_file d ≡ some (c.dumps (obj (of_entries cfg)))
      → let w : World = record { disk = d; temp = t; faults = [] } in
        load_config c config_file stamp w ≡ (ok cfg, w)
  unfolding load_config
  load-stored stamp cfg d t r h =
      rw (read_found d t (c.dumps (obj (of_entries cfg))) h, read_settings-dumps cfg r)

  -- With no fault of the file system, a damaged file of settings is copied under its new name
  -- before the defaults take its place, and is itself not changed.
  pub load-damaged :
      (stamp : Text) (b : Bytes) (d : Dict Text Bytes) (t : Option Bytes)
      → lookup config_file d ≡ some b
      → read_settings c config_file b ≡ none
      → let w : World = record { disk = d; temp = t; faults = [] } in
        load_config c config_file stamp w
        ≡ (ok [], record w { disk = insert (broken_name config_file stamp) b d })
  unfolding load_config copy_file
  load-damaged stamp b d t h n = rw (read_found d t b h, n, h)
