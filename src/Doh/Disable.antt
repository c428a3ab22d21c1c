-- ===== src/Doh/Disable.antt =====
-- How `doh_disable` ends: the snapshot is removed only behind a restoration of the adapters.
use zapret_gui.Base.{
  ℕ, ◌≡◌, refl, sym, ◌∙◌, ap, Bool, true, false, Option, none, some, List, [], ◌∷◌,
}
use zapret_gui.Result.{Result, ok, err, Error}
use zapret_gui.Text.{Text}
use zapret_gui.Doh.{Snapshot, Entry, Addresses, Config, System, validate_dns_snapshot, doh_previous}
use zapret_gui.Doh.Ops.{
  or_empty, checked_snapshot, World, continue, bind, store, update_config, dns_apply, cleared,
  disable_saved, disable_legacy, disable_from, doh_disable, legacy_snapshot,
}
use zapret_gui.Doh.Steps.{
  config-apply_checked, apply_checked-eq-ok, Tried, done, failed, store-Tried,
}

module _ (a : Addresses) (S : System) where
  -- A failure keeps a snapshot that there was, and whether DoH is on.
  pub record Kept (old new : Config) : Type 0 where
    pub snapshot :
        (e : Text × Entry) (d : Snapshot)
        → old.snapshot ≡ some (e ∷ d)
        → new.snapshot ≡ some (e ∷ d)
    pub enabled : new.enabled ≡ old.enabled

  -- The snapshot is the stored one, where there is one.
  abbrev pub IsSaved : World a S → Snapshot → Type 0
  IsSaved w d = (x : Text × Entry) (l : Snapshot) → w.config.snapshot ≡ some (x ∷ l) → d ≡ x ∷ l

  pub data Disabled (w : World a S) (r : Result ℕ) (w' : World a S) : Type 0 where
    off :
        (skipped : ℕ) (d : Snapshot) (s : S.State)
        → r ≡ ok skipped
        → IsSaved w d
        → S.apply d none s ≡ (ok skipped, w'.state)
        → w'.config.enabled ≡ false
        → w'.config.pending ≡ false
        → w'.config.snapshot ≡ none
        → w'.config.prev ≡ none
        → Disabled w r w'
    refused : (e : Error) → r ≡ err e → Kept w.config w'.config → Disabled w r w'

  Kept-pending : (c : Config) → Kept c (record c { pending = true })
  Kept-pending c = record { snapshot = λ e d h. h; enabled = refl }

  Kept-eq : (old new : Config) → new ≡ old → Kept old new
  Kept-eq old new e = record {
    snapshot = λ x d h. ap (λ c. c.snapshot) e ∙ h;
    enabled = ap (λ c. c.enabled) e;
  }

  Kept-trans : (x y z : Config) → Kept x y → Kept y z → Kept x z
  Kept-trans x y z f g = record {
    snapshot = λ e d h. g.snapshot e d (f.snapshot e d h);
    enabled = g.enabled ∙ f.enabled;
  }

  state-store :
      (f : Config → Config) (fs : List Bool) (v : World a S) → (store a S f fs v).1.state ≡ v.state
  unfolding store
  state-store f [] v = refl
  state-store f (false ∷ fs) v = refl
  state-store f (true ∷ fs) v = refl

  clear-Disabled :
      (w : World a S) (c : Config) (skipped : ℕ) (d : Snapshot) (s : S.State)
      (m : Result (Unit {0}) × World a S)
      → IsSaved w d
      → S.apply d none s ≡ (ok skipped, m.1.state)
      → Kept w.config c
      → Tried a S (cleared a S c) c m.0 m.1
      → let n = continue a S m.0 (λ _ v. (ok skipped, v)) m.1 in Disabled w n.0 n.1
  clear-Disabled w c skipped d s (ok u, v) i q k (done r e) =
      off skipped d s refl i q (ap (λ x. x.enabled) e) (ap (λ x. x.pending) e)
        (ap (λ x. x.snapshot) e) (ap (λ x. x.prev) e)
  clear-Disabled w c skipped d s (ok u, v) i q k (failed y r e) = cc
  clear-Disabled w c skipped d s (err y, v) i q k (done r e) = cc
  clear-Disabled w c skipped d s (err y, v) i q k (failed z r e) =
      refused y refl (Kept-trans w.config c v.config k (Kept-eq c v.config e))

  applied-Disabled :
      (w : World a S) (c : Config) (d : Snapshot) (s : S.State) (m : Result ℕ × World a S)
      → IsSaved w d
      → ((n : ℕ) → m.0 ≡ ok n → S.apply d none s ≡ (ok n, m.1.state))
      → Kept w.config c
      → m.1.config ≡ c
      → let n =
          continue a S m.0
            (λ skipped. bind a S (update_config a S (cleared a S)) (λ _ v. (ok skipped, v)))
            m.1 in
        Disabled w n.0 n.1
  applied-Disabled w c d s (ok skipped, v) i q k e =
      clear-Disabled w c skipped d s (store a S (cleared a S) v.faults v) i
        (q skipped refl ∙ ap (λ t. (ok skipped, t)) (sym (state-store (cleared a S) v.faults v))) k
        (store-Tried a S (cleared a S) v.faults v c e)
  applied-Disabled w c d s (err y, v) i q k e =
      refused y refl (Kept-trans w.config c v.config k (Kept-eq c v.config e))

  marked-Disabled :
      (w : World a S) (c : Config) (d : Snapshot) (m : Result (Unit {0}) × World a S)
      → IsSaved w d
      → Kept w.config c
      → Tried a S (record c { pending = true }) c m.0 m.1
      → let n =
          continue a S m.0
            (λ _.
              bind a S
                (dns_apply a S d none)
                (λ skipped. bind a S (update_config a S (cleared a S)) (λ _ v. (ok skipped, v))))
            m.1 in
        Disabled w n.0 n.1
  marked-Disabled w c d (ok u, v) i k (done r e) =
      applied-Disabled w (record c { pending = true }) d v.state (dns_apply a S d none v) i
        (apply_checked-eq-ok a S (validate_dns_snapshot a d) d none v)
        (Kept-trans w.config c _ k (Kept-pending c))
        (config-apply_checked a S (validate_dns_snapshot a d) d none v ∙ e)
  marked-Disabled w c d (ok u, v) i k (failed y r e) = cc
  marked-Disabled w c d (err y, v) i k (done r e) = cc
  marked-Disabled w c d (err y, v) i k (failed z r e) =
      refused y refl (Kept-trans w.config c v.config k (Kept-eq c v.config e))

  saved-Disabled :
      (w : World a S) (d : Snapshot) (v : World a S)
      → IsSaved w d
      → Kept w.config v.config
      → Disabled w (disable_saved a S d v).0 (disable_saved a S d v).1
  unfolding disable_saved
  saved-Disabled w [] v i k = refused _ refl k
  saved-Disabled w (x ∷ d) v i k = valid (validate_dns_snapshot a (x ∷ d))
    where
      valid :
          (r : Result (Unit {0}))
          → let n =
              continue a S r
                (λ _. bind a S (update_config a S (λ c. record c { pending = true })) (λ _.
                  bind a S (dns_apply a S (x ∷ d) none) (λ skipped.
                    bind a S (update_config a S (cleared a S)) (λ _ u. (ok skipped, u)))))
                v in
            Disabled w n.0 n.1
      valid (ok u) =
          marked-Disabled w v.config (x ∷ d)
            (store a S (λ c. record c { pending = true }) v.faults v) i k
            (store-Tried a S (λ c. record c { pending = true }) v.faults v v.config refl)
      valid (err e) = refused e refl k

  IsSaved-none : (w : World a S) (d : Snapshot) → or_empty w.config.snapshot ≡ [] → IsSaved w d
  IsSaved-none w d h x l s = absurd (no_snapshot (sym (ap or_empty s) ∙ h))
    where
      no_snapshot : ¬ (x ∷ l ≡ [])
      no_snapshot q = cc

  Kept-added :
      (c new : Config) (d : Snapshot)
      → or_empty c.snapshot ≡ []
      → new ≡ record c { snapshot = some d }
      → Kept c new
  Kept-added c new d h e = record {
    snapshot = λ x l s. absurd (no_snapshot x l (sym (ap or_empty s) ∙ h));
    enabled = ap (λ k. k.enabled) e;
  }
    where
      no_snapshot : (x : Text × Entry) (l : Snapshot) → ¬ (x ∷ l ≡ [])
      no_snapshot x l q = cc

  added-Disabled :
      (w : World a S) (d : Snapshot) (m : Result (Unit {0}) × World a S)
      → or_empty w.config.snapshot ≡ []
      → Tried a S (record w.config { snapshot = some d }) w.config m.0 m.1
      → let n = continue a S m.0 (λ _. disable_saved a S d) m.1 in Disabled w n.0 n.1
  added-Disabled w d (ok u, v) h (done r e) =
      saved-Disabled w d v (IsSaved-none w d h) (Kept-added w.config v.config d h e)
  added-Disabled w d (ok u, v) h (failed y r e) = cc
  added-Disabled w d (err y, v) h (done r e) = cc
  added-Disabled w d (err y, v) h (failed z r e) = refused y refl (Kept-eq w.config v.config e)

  legacy-Disabled :
      (w : World a S) (o : Option Snapshot)
      → or_empty w.config.snapshot ≡ []
      → Disabled w (disable_legacy a S o w).0 (disable_legacy a S o w).1
  legacy-Disabled w none h = refused _ refl (Kept-eq w.config w.config refl)
  legacy-Disabled w (some []) h = refused _ refl (Kept-eq w.config w.config refl)
  legacy-Disabled w (some (x ∷ d)) h =
      added-Disabled w (x ∷ d) (store a S (λ c. record c { snapshot = some (x ∷ d) }) w.faults w) h
        (store-Tried a S (λ c. record c { snapshot = some (x ∷ d) }) w.faults w w.config refl)

  read-Disabled :
      (w : World a S) (automatic : Bool) (m : Result Snapshot)
      → or_empty w.config.snapshot ≡ []
      → let n =
          continue a S m
            (λ current.
              disable_legacy a S (legacy_snapshot automatic current (doh_previous a w.config.prev)))
            w in
        Disabled w n.0 n.1
  read-Disabled w automatic (ok current) h =
      legacy-Disabled w (legacy_snapshot automatic current (doh_previous a w.config.prev)) h
  read-Disabled w automatic (err e) h = refused e refl (Kept-eq w.config w.config refl)

  from-Disabled :
      (w : World a S) (legacy : Option Bool) (d : Snapshot)
      → or_empty w.config.snapshot ≡ d
      → Disabled w (disable_from a S legacy d w).0 (disable_from a S legacy d w).1
  from-Disabled w legacy (x ∷ d) h =
      saved-Disabled w (x ∷ d) w (λ y l s. sym h ∙ ap or_empty s) (Kept-eq w.config w.config refl)
  from-Disabled w none [] h =
      saved-Disabled w [] w (λ y l s. sym h ∙ ap or_empty s) (Kept-eq w.config w.config refl)
  from-Disabled w (some automatic) [] h =
      read-Disabled w automatic (checked_snapshot a (S.read_dns w.state)) h

  -- doh_disable either returns behind a successful application of a snapshot, which is the
  -- stored one where there is one, with the DNS fields of the settings cleared; or it raises,
  -- and a stored snapshot and the enabled flag are kept.
  pub doh_disable-Disabled :
      (legacy : Option Bool) (w : World a S)
      → Disabled w (doh_disable a S legacy w).0 (doh_disable a S legacy w).1
  unfolding doh_disable
  doh_disable-Disabled legacy w = from-Disabled w legacy (or_empty w.config.snapshot) refl
