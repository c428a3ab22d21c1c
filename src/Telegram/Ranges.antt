-- ===== src/Telegram/Ranges.antt =====
-- The settings of the Telegram proxy are in their range, whatever the file of settings holds.
use zapret_gui.Base.{
  ℕ, ◌≤◌, ◌≡◌, refl, ◌∙◌, ap, Bool, true, Option, none, some, [], ◌∷◌, text_eq, if◌then◌else◌,
  Bool-cases, inl, inr, arith,
}
use zapret_gui.Base.Dict.{lookup}
use zapret_gui.Result.{Result, ok, err}
use zapret_gui.Text.{Text, codes}
use zapret_gui.Json.{Json, str, Codec}
use zapret_gui.Disk.{World, continue}
use zapret_gui.Config.{Settings, load_config, update_config}
use zapret_gui.Config.Fields.{update_config-Updated, updated, lookup-updated}
use zapret_gui.Telegram.{
  Signed, tg_default_port, int_of, is_port, checked_port, port_of, is_secret_text, is_secret, item,
  port_read, tg_get_port, tg_regenerate_secret, secret_or_new, tg_get_secret,
}

-- A number from 1 to 65535
abbrev pub IsPort : ℕ → Type 0
IsPort n = (1 ≤ n) × (n ≤ 65535)

IsPort-if : (s : Bool) (n : ℕ) → IsPort (if is_port (s, n) then n else tg_default_port)
unfolding is_port
IsPort-if s n = ground arith

IsPort-checked : (o : Option Signed) → IsPort (checked_port o)
IsPort-checked none = (omega arith, omega arith)
IsPort-checked (some (s, n)) = IsPort-if s n

port_of-IsPort : (o : Option Json) → IsPort (port_of o)
unfolding port_of
port_of-IsPort none = (omega arith, omega arith)
port_of-IsPort (some j) = IsPort-checked (int_of j)

module _ (c : Codec) (config_file stamp : Text) where
  read-IsPort : (m : Result Settings × World) → IsPort (port_read c config_file stamp m).0
  read-IsPort (ok cfg, w) = port_of-IsPort (lookup (codes "tg_port") cfg)
  read-IsPort (err e, w) = (omega arith, omega arith)

  pub tg_get_port-IsPort : (w : World) → IsPort (tg_get_port c config_file stamp w).0
  unfolding tg_get_port
  tg_get_port-IsPort w = read-IsPort (load_config c config_file stamp w)

  -- A secret, where one is returned
  abbrev pub IsSecret : Result Json × World → Type 0
  IsSecret (ok j, w) = is_secret j ≡ true
  IsSecret (err e, w) = Unit

  lookup_new :
      (hex : Text) (old : Settings)
      → lookup (codes "tg_secret") (updated ((codes "tg_secret", str hex) ∷ []) [] old)
        ≡ some (str hex)
  unfolding lookup text_eq
  lookup_new hex old =
      lookup-updated ((codes "tg_secret", str hex) ∷ []) [] old (codes "tg_secret") (refl, tt)

  regenerated-IsSecret :
      (hex : Text) (w : World) (m : Result Settings × World)
      → is_secret_text hex ≡ true
      → update_config c config_file stamp ((codes "tg_secret", str hex) ∷ []) [] w ≡ m
      → IsSecret (continue m.0 (λ cfg. item (lookup (codes "tg_secret") cfg)) m.1)
  unfolding is_secret
  regenerated-IsSecret hex w (err e, v) s h = tt
  regenerated-IsSecret hex w (ok cfg, v) s h =
      let u =
        update_config-Updated c config_file stamp ((codes "tg_secret", str hex) ∷ []) [] w cfg
          (ap (λ n. n.0) h) in
      let found : lookup (codes "tg_secret") cfg ≡ some (str hex) =
        ap (lookup (codes "tg_secret")) u.fields ∙ lookup_new hex u.old in
      rw found s

  regenerate-IsSecret :
      (hex : Text) (w : World)
      → is_secret_text hex ≡ true
      → IsSecret (tg_regenerate_secret c config_file stamp hex w)
  unfolding tg_regenerate_secret
  regenerate-IsSecret hex w s =
      regenerated-IsSecret hex w
        (update_config c config_file stamp ((codes "tg_secret", str hex) ∷ []) [] w) s refl

  chosen-IsSecret :
      (hex : Text) (o : Option Json) (w : World)
      → is_secret_text hex ≡ true
      → IsSecret (secret_or_new c config_file stamp hex o w)
  chosen-IsSecret hex none w s = regenerate-IsSecret hex w s
  chosen-IsSecret hex (some j) w s = elim (Bool-cases (is_secret j)) [
    | inl e ↦ rw e e
    | inr e ↦ rw e (regenerate-IsSecret hex w s)
  ]

  loaded-IsSecret :
      (hex : Text) (m : Result Settings × World)
      → is_secret_text hex ≡ true
      → IsSecret (
          continue m.0
            (λ cfg. secret_or_new c config_file stamp hex (lookup (codes "tg_secret") cfg))
            m.1)
  loaded-IsSecret hex (ok cfg, w) s = chosen-IsSecret hex (lookup (codes "tg_secret") cfg) w s
  loaded-IsSecret hex (err e, w) s = tt

  tg_get_secret-IsSecret :
      (hex : Text) (w : World)
      → is_secret_text hex ≡ true
      → IsSecret (tg_get_secret c config_file stamp hex w)
  unfolding tg_get_secret
  tg_get_secret-IsSecret hex w s = loaded-IsSecret hex (load_config c config_file stamp w) s

  -- Where the random secret is 32 hexadecimal digits: whatever the file of settings holds,
  -- the port that is read is from 1 to 65535, and a secret that is returned is a text of 32
  -- hexadecimal digits.
  pub tg_settings_lem :
      (hex : Text) (w : World)
      → is_secret_text hex ≡ true
      → IsPort (tg_get_port c config_file stamp w).0
        × IsSecret (tg_get_secret c config_file stamp hex w)
  tg_settings_lem hex w s = (tg_get_port-IsPort w, tg_get_secret-IsSecret hex w s)
