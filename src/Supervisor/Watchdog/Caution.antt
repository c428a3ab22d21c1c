-- ===== src/Supervisor/Watchdog/Caution.antt =====
-- When a turn of the watchdog may change the strategy.
use zapret_gui.Base.{
  ℕ, ◌+◌, ◌≡◌, refl, ◌∙◌, ap, Bool, true, false, Option, none, some, [], ◌==◌, nat_eq, text_eq,
  if◌then◌else◌, leb, inl, inr, ◌⊎◌,
}
use zapret_gui.Base.Dict.{Dict}
use zapret_gui.Result.{Result, ok, err}
use zapret_gui.Text.{Text, codes}
use zapret_gui.Measure.{ProbeResult}
use zapret_gui.Runtime.{Controller, request}
use zapret_gui.Windows.{Answer, Windows, World, continue, return, run_hidden, meanwhile, is_valid}
use zapret_gui.Supervisor.{
  Setup, measure, managed_bypass_running, any_reliable, all_controls, desired,
}
use zapret_gui.Supervisor.Steps.{app-measure, app-managed_bypass_running}
use zapret_gui.Supervisor.Recovery.{recover}
use zapret_gui.Supervisor.Recovery.Restart.{recover-SameChoice}
use zapret_gui.Supervisor.Watchdog.{
  Watch, quick_hosts, services_of, answered, count_failures, any_failing, all_up, any_up, values,
  same_network, in_episode, identity_script, powershell, digest_of, network_identity, clear_failed,
  switched, if_online, act_on, after_health, if_valid, probed, if_managed, watch, if_requested,
  in_network, identified, if_wanted, if_free, if_waited, turn,
}

module _ (W : Windows) (S : Setup) (digest : Text → Text) (is_paused : World W → Bool × World W)
    (kept : (w : World W) → (is_paused w).1.app ≡ w.app) (before : Dict Text ℕ)
    (saved : Option Text) where
  abbrev hosts : Dict Text Text
  hosts = quick_hosts (services_of S.services)

  -- A control host answered.
  abbrev pub IsOnline : Type 0
  IsOnline =
      (v : World W) × (controls : Dict Text ProbeResult) × ((measure W S all_controls 1 v).0
        ≡ ok controls)
      × (any_reliable controls ≡ true)

  -- The services were checked, one of them is failing with the counts from before or from none, and
  -- a host of a service or a control host answered.
  abbrev pub IsJustified : Type 0
  IsJustified =
      (failures : Dict Text ℕ) × ((failures ≡ before) ⊎ (failures ≡ []))
      × (v : World W) × (results : Dict Text ProbeResult) × ((measure W S (values hosts) 1 v).0
          ≡ ok results)
      × (any_failing (count_failures failures (answered results) hosts) ≡ true)
      × ((any_up (answered results) hosts ≡ true) ⊎ IsOnline)

  abbrev pub IsCautious : Watch × World W → Type 0
  IsCautious (s, w) = (w.app.saved ≡ saved) ⊎ IsJustified

  if-IsCautious :
      (b : Bool) (m n : Watch × World W)
      → (b ≡ true → IsCautious m)
      → (b ≡ false → IsCautious n)
      → IsCautious (if b then m else n)
  if-IsCautious true m n h k = h refl
  if-IsCautious false m n h k = k refl

  switched-IsCautious :
      (s : Watch) (n : Result (Unit {0}) × World W)
      → IsJustified
      → IsCautious (switched W S digest is_paused s n)
  switched-IsCautious s (ok u, x) i = inr i
  switched-IsCautious s (err e, x) i = inr i

  online-IsCautious :
      (token : ℕ) (s : Watch) (v : World W) (m : Result (Dict Text ProbeResult) × World W)
      → measure W S all_controls 1 v ≡ m
      → m.1.app.saved ≡ saved
      → (IsOnline → IsJustified)
      → IsCautious (if_online W S digest is_paused token s m)
  online-IsCautious token s v (err e, w) f h j = inl h
  online-IsCautious token s v (ok controls, w) f h j =
      if-IsCautious (any_reliable controls)
        (switched W S digest is_paused s (recover W S token true w)) (s, w)
        (λ r.
          switched-IsCautious s (recover W S token true w) (j (v, controls, ap (λ n. n.0) f, r)))
        (λ _. inl h)

  act-IsCautious :
      (token : ℕ) (s : Watch) (up : Bool) (w : World W)
      → w.app.saved ≡ saved
      → (any_failing s.failures ≡ true → (up ≡ true) ⊎ IsOnline → IsJustified)
      → IsCautious (act_on W S digest is_paused token s up w)
  act-IsCautious token s up w h j =
      let m : Watch × World W = switched W S digest is_paused s (recover W S token true w) in
      let n : Watch × World W =
        if_online W S digest is_paused token s (measure W S all_controls 1 w) in
      if-IsCautious (any_failing s.failures) (if up then m else n) (s, w)
        (λ f.
          if-IsCautious up m n (λ u. switched-IsCautious s (recover W S token true w) (j f (inl u)))
            (λ _.
              online-IsCautious token s w (measure W S all_controls 1 w) refl
                (ap (λ a. a.saved) (app-measure W S all_controls 1 w) ∙ h) (λ o. j f (inr o))))
        (λ _. inl h)

  saved-after_health :
      (n : ℕ) (w : World W)
      → w.app.saved ≡ saved
      → (after_health W S digest is_paused n w).app.saved ≡ saved
  saved-after_health n w h = go (leb 2 n)
    where
      go : (b : Bool) → (if b then clear_failed W S digest is_paused w else w).app.saved ≡ saved
      go true = h
      go false = h

  valid-IsCautious :
      (token : ℕ) (s : Watch) (v : World W) (results : Dict Text ProbeResult) (m : Bool × World W)
      → (s.failures ≡ before) ⊎ (s.failures ≡ [])
      → (measure W S (values hosts) 1 v).0 ≡ ok results
      → m.1.app.saved ≡ saved
      → IsCautious (if_valid W S digest is_paused token s hosts results m)
  valid-IsCautious token s v results (false, w) o f h = inl h
  valid-IsCautious token s v results (true, w) o f h =
      let healthy : ℕ = if all_up (answered results) hosts then s.healthy + 1 else 0 in
      act-IsCautious token
        (record s {
          failures = count_failures s.failures (answered results) hosts;
          healthy = healthy;
        })
        (any_up (answered results) hosts) (after_health W S digest is_paused healthy w)
        (saved-after_health healthy w h) (λ fails up. (s.failures, o, v, results, f, fails, up))

  probed-IsCautious :
      (token : ℕ) (s : Watch) (v : World W) (m : Result (Dict Text ProbeResult) × World W)
      → (s.failures ≡ before) ⊎ (s.failures ≡ [])
      → measure W S (values hosts) 1 v ≡ m
      → m.1.app.saved ≡ saved
      → IsCautious (probed W S digest is_paused token s hosts m)
  probed-IsCautious token s v (ok results, w) o f h =
      valid-IsCautious token s v results (is_valid W token w) o (ap (λ n. n.0) f) h
  probed-IsCautious token s v (err e, w) o f h = inl h

  managed-IsCautious :
      (token : ℕ) (s : Watch) (m : Bool × World W)
      → (s.failures ≡ before) ⊎ (s.failures ≡ [])
      → m.1.app.saved ≡ saved
      → IsCautious (if_managed W S digest is_paused token s m)
  managed-IsCautious token s (true, w) o h =
      probed-IsCautious token s w (measure W S (values hosts) 1 w) o refl
        (ap (λ a. a.saved) (app-measure W S (values hosts) 1 w) ∙ h)
  managed-IsCautious token s (false, w) o h = inl ((recover-SameChoice W S token w).1 ∙ h)

  watch-IsCautious :
      (token : ℕ) (s : Watch) (w : World W)
      → (s.failures ≡ before) ⊎ (s.failures ≡ [])
      → w.app.saved ≡ saved
      → IsCautious (watch W S digest is_paused token s w)
  watch-IsCautious token s w o h =
      managed-IsCautious token s (managed_bypass_running W S w) o
        (ap (λ a. a.saved) (app-managed_bypass_running W S w) ∙ h)

  requested-IsCautious :
      (s : Watch) (network : Option Text) (m : Option ℕ × Controller) (w : World W)
      → w.app.saved ≡ saved
      → IsCautious (if_requested W S digest is_paused s network m w)
  requested-IsCautious s network (none, c) w h = inl h
  requested-IsCautious s network (some t, c) w h =
      watch-IsCautious t
        (record s { failures = []; healthy = 0; network = some network; episode = t })
        (clear_failed W S digest is_paused (record w { controller = c })) (inr refl) h

  network-IsCautious :
      (token : ℕ) (s : Watch) (known : Option (Option Text)) (network : Option Text) (w : World W)
      → s.failures ≡ before
      → w.app.saved ≡ saved
      → IsCautious (in_network W S digest is_paused token s known network w)
  network-IsCautious token s none network w o h =
      watch-IsCautious token (record s { network = some network }) w (inl o) h
  network-IsCautious token s (some known) network w o h =
      let v : World W = meanwhile W w in
      if-IsCautious (same_network known network) (watch W S digest is_paused token s w)
        (if_requested W S digest is_paused s network (request none (some token) v.controller) v)
        (λ _. watch-IsCautious token s w (inl o) h)
        (λ _. requested-IsCautious s network (request none (some token) v.controller) v h)

  identified-IsCautious :
      (token : ℕ) (s : Watch) (m : Result (Option Text) × World W)
      → s.failures ≡ before
      → m.1.app.saved ≡ saved
      → IsCautious (identified W S digest is_paused token s m)
  identified-IsCautious token s (ok network, w) o h =
      network-IsCautious token s s.network network w o h
  identified-IsCautious token s (err e, w) o h = inl h

  saved-identity :
      (m : Result Answer × World W)
      → m.1.app.saved ≡ saved
      → (continue W m.0 (λ a. return W (digest_of digest a)) m.1).1.app.saved ≡ saved
  saved-identity (ok a, w) h = h
  saved-identity (err e, w) h = h

  wanted-IsCautious :
      (token : ℕ) (s : Watch) (m : Text × World W)
      → s.failures ≡ before
      → m.1.app.saved ≡ saved
      → IsCautious (if_wanted W S digest is_paused token s m)
  unfolding network_identity
  wanted-IsCautious token s (d, w) o h =
      if-IsCautious (d == codes "stopped") (s, w)
        (identified W S digest is_paused token s (network_identity W S digest is_paused w))
        (λ _. inl h)
        (λ _.
          identified-IsCautious token s (network_identity W S digest is_paused w) o
            (saved-identity (run_hidden W (powershell identity_script) w) h))

  free-IsCautious :
      (token : ℕ) (s : Watch) (m : Bool × World W)
      → s.failures ≡ before
      → m.1.app.saved ≡ saved
      → IsCautious (if_free W S digest is_paused token s m)
  free-IsCautious token s (true, w) o h = inl h
  free-IsCautious token s (false, w) o h = wanted-IsCautious token s (desired W S w) o h

  waited-IsCautious :
      (token : ℕ) (s : Watch) (m : Bool × World W)
      → s.failures ≡ before
      → m.1.app.saved ≡ saved
      → IsCautious (if_waited W S digest is_paused token s m)
  waited-IsCautious token s (true, w) o h =
      free-IsCautious token s (is_paused w) o (ap (λ a. a.saved) (kept w) ∙ h)
  waited-IsCautious token s (false, w) o h = inl h

-- Where the test for other work leaves the fields of the application alone, a turn of the
-- watchdog leaves the stored strategy as it was, unless the services were checked in it, one of
-- them failed for the second time in a row by the counts from before or from none, and a host
-- of a service or a control host answered.
pub turn-IsCautious :
    (W : Windows) (S : Setup) (digest : Text → Text) (is_paused : World W → Bool × World W)
    → (kept : (w : World W) → (is_paused w).1.app ≡ w.app) → (token : ℕ) (s : Watch) (w : World W)
    → IsCautious W S digest is_paused kept
        (in_episode token s).failures
        w.app.saved
        (turn W S digest is_paused token s w)
unfolding turn
turn-IsCautious W S digest is_paused kept token s w =
    waited-IsCautious W S digest is_paused kept (in_episode token s).failures w.app.saved token
      (in_episode token s) (is_valid W token w) refl refl
