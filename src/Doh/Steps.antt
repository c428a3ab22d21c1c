-- ===== src/Doh/Steps.antt =====
-- How the single steps of `doh_enable` and `doh_disable` end.
use zapret_gui.Base.{ℕ, ◌≡◌, refl, text_eq, ◌∙◌, ap, Bool, true, false, Option, some, List, [], ◌∷◌}
use zapret_gui.Result.{Result, ok, err, Error}
use zapret_gui.Text.{Text}
use zapret_gui.Doh.{Snapshot, Addresses, Config, System, validate_dns_snapshot}
use zapret_gui.Doh.Ops.{
  World, continue, bind, store, update_config, apply_checked, dns_apply, attempt,
}

abbrev pub switched_on : Text → Config → Config
switched_on provider c = record c { enabled = true; provider = provider; pending = false }

abbrev pub saved_as : Snapshot → Config → Config
saved_as saved c = record c { snapshot = some saved; pending = true }

module _ (a : Addresses) (S : System) where
  -- The end of actions whose last one is an update of the settings: updated, or the settings are
  -- the ones before.
  pub data Tried (new old : Config) (r : Result (Unit {0})) (w' : World a S) : Type 0 where
    done : r ≡ ok tt → w'.config ≡ new → Tried new old r w'
    failed : (e : Error) → r ≡ err e → w'.config ≡ old → Tried new old r w'

  pub store-Tried :
      (f : Config → Config) (fs : List Bool) (w : World a S) (old : Config)
      → w.config ≡ old
      → Tried (f old) old (store a S f fs w).0 (store a S f fs w).1
  unfolding store
  store-Tried f [] w old h = done refl (ap f h)
  store-Tried f (false ∷ fs) w old h = done refl (ap f h)
  store-Tried f (true ∷ fs) w old h = failed _ refl h

  pub config-apply_checked :
      (r : Result (Unit {0})) (d : Snapshot) (ips : Option (List Text)) (w : World a S)
      → (apply_checked a S r d ips w).1.config ≡ w.config
  config-apply_checked (ok u) d ips w = refl
  config-apply_checked (err e) d ips w = refl

  pub apply_checked-eq-ok :
      (r : Result (Unit {0})) (d : Snapshot) (ips : Option (List Text)) (u : World a S) (n : ℕ)
      → (apply_checked a S r d ips u).0 ≡ ok n
      → S.apply d ips u.state ≡ (ok n, (apply_checked a S r d ips u).1.state)
  apply_checked-eq-ok (ok t) d ips u n h = ap (λ x. (x, (S.apply d ips u.state).1)) h
  apply_checked-eq-ok (err e) d ips u n h = cc

  -- The same with what the success says of the adapters
  pub data Ended (P : S.State → Type 0) (new old : Config) (r : Result (Unit {0})) (w' : World a S)
      : Type 0 where
    finished : r ≡ ok tt → w'.config ≡ new → P w'.state → Ended P new old r w'
    broken : (e : Error) → r ≡ err e → w'.config ≡ old → Ended P new old r w'

  store-Ended :
      (P : S.State → Type 0) (f : Config → Config) (fs : List Bool) (w : World a S) (old : Config)
      → w.config ≡ old
      → P w.state
      → Ended P (f old) old (store a S f fs w).0 (store a S f fs w).1
  unfolding store
  store-Ended P f [] w old h p = finished refl (ap f h) p
  store-Ended P f (false ∷ fs) w old h p = finished refl (ap f h) p
  store-Ended P f (true ∷ fs) w old h p = broken _ refl h

  continue-Ended :
      {A : Type 0} (P : S.State → Type 0) (new old : Config) (m : Result A × World a S)
      (k : A → World a S → Result (Unit {0}) × World a S)
      → m.1.config ≡ old
      → ((x : A) → m.0 ≡ ok x → Ended P new old (k x m.1).0 (k x m.1).1)
      → Ended P new old (continue a S m.0 k m.1).0 (continue a S m.0 k m.1).1
  continue-Ended P new old (ok x, v) k h t = t x refl
  continue-Ended P new old (err e, v) k h t = broken e refl h

  -- The adapters got the snapshot with these addresses, or their own where there are none.
  abbrev pub Applied : Snapshot → Option (List Text) → S.State → S.State → Type 0
  Applied d ips s s' = (n : ℕ) × (S.apply d ips s ≡ (ok n, s'))

  -- The provider was registered, and then the adapters got its addresses.
  abbrev pub Registered : List Text × Text → Snapshot → S.State → S.State → Type 0
  Registered (ips, template) d s s' =
      (t : S.State) × (S.register ips template s ≡ (ok tt, t)) × Applied d (some ips) t s'

  pub apply-Ended :
      (P : S.State → Type 0) (d : Snapshot) (ips : Option (List Text)) (f : Config → Config)
      (old : Config) (w : World a S)
      → w.config ≡ old
      → ((s : S.State) → Applied d ips w.state s → P s)
      → let m = bind a S (dns_apply a S d ips) (λ _. update_config a S f) w in
        Ended P (f old) old m.0 m.1
  apply-Ended P d ips f old w h k =
      let valid = validate_dns_snapshot a d in
      let c : (dns_apply a S d ips w).1.config ≡ old = config-apply_checked valid d ips w ∙ h in
      continue-Ended P (f old) old (dns_apply a S d ips w) (λ _. update_config a S f) c
        (λ n e.
          store-Ended P f (dns_apply a S d ips w).1.faults (dns_apply a S d ips w).1 old c
            (k (dns_apply a S d ips w).1.state (n, apply_checked-eq-ok valid d ips w n e)))

  pub attempt-Ended :
      (p : List Text × Text) (provider : Text) (current : Snapshot) (old : Config) (w : World a S)
      → w.config ≡ old
      → Ended
          (Registered p current w.state)
          (switched_on provider old)
          old
          (attempt a S p provider current w).0
          (attempt a S p provider current w).1
  unfolding attempt
  attempt-Ended (ips, template) provider current old w h =
      continue-Ended (Registered (ips, template) current w.state) (switched_on provider old) old
        (
          (S.register ips template w.state).0,
          record w { state = (S.register ips template w.state).1 },
        )
        (λ _.
          bind a S (dns_apply a S current (some ips))
            (λ _. update_config a S (switched_on provider)))
        h
        (λ x e.
          apply-Ended (Registered (ips, template) current w.state) current (some ips)
            (switched_on provider) old (record w { state = (S.register ips template w.state).1 }) h
            (λ s q. (
              (S.register ips template w.state).1,
              ap (λ y. (y, (S.register ips template w.state).1)) e,
              q,
            )))
