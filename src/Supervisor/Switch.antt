-- ===== src/Supervisor/Switch.antt =====
-- What a switch to a preset leaves behind, where it answers and where it raises.
use zapret_gui.Base.{
  ℕ, ◌≡◌, refl, ◌∙◌, ap, Bool, true, false, Option, none, some, List, [], ◌∷◌, ◌==◌, nat_eq,
  text_eq, if◌then◌else◌, Bool-cases, inl, inr,
}
use zapret_gui.Base.Dict.{lookup}
use zapret_gui.Result.{Result, ok, err}
use zapret_gui.Text.{Text, codes}
use zapret_gui.Windows.{Windows, World, continue, bind, act, is_valid}
use zapret_gui.Service.Install.{
  Installed, installed, not_parsed, cancelled, not_stopped, not_created, not_started,
  install_service,
}
use zapret_gui.Supervisor.{
  Setup, built, spawned, spawn_winws, stop_local_winws, managed_bypass_running, checked, check,
  set_busy, released, entered, transition, desired, switched_service, is_invalid, switch_service,
  switch_process, switch_body, if_waited, returned, switch_preset, switch_known, switch_to, or_nil,
}
use zapret_gui.Supervisor.Frame.Install.{app-install_service}
use zapret_gui.Supervisor.Steps.{
  continue_lem, Saved, app-managed_bypass_running, app-check, saved-stop_local_winws,
}

module _ (W : Windows) (S : Setup) where
  -- The file of settings holds the strategy `s`; where nothing was raised, the preset is active.
  abbrev pub Land : Option Text → Text → Result (Unit {0}) × World W → Type 0
  Land s name (ok u, w) = (w.app.active_name ≡ some name) × (w.app.saved ≡ s)
  Land s name (err e, w) = w.app.saved ≡ s

  -- The same of an answer, which is true where the preset is active
  abbrev pub Switched : Option Text → Text → Result Bool × World W → Type 0
  Switched s name (ok true, w) = (w.app.active_name ≡ some name) × (w.app.saved ≡ s)
  Switched s name (ok false, w) = w.app.saved ≡ s
  Switched s name (err e, w) = w.app.saved ≡ s

  module _ (s : Option Text) (c : ℕ) (cs : Text) (token : ℕ) where
    spawned-Land :
        (args : List Text) (m : Result ℕ × World W)
        → m.1.app.saved ≡ s
        → Land s (c ∷ cs) (spawned W S args (some (c ∷ cs)) m)
    spawned-Land args (ok p, w) h = (refl, h)
    spawned-Land args (err e, w) h = h

    spawn_winws-Land :
        (args : List Text) (w : World W)
        → w.app.saved ≡ s
        → Land s (c ∷ cs) (spawn_winws W S args (some (c ∷ cs)) w)
    unfolding spawn_winws
    spawn_winws-Land args w h = spawned-Land args (act W (W.spawn (S.winws ∷ args)) w) h

    switch_process-Land :
        (args : List Text) (w : World W)
        → w.app.saved ≡ s
        → Land s (c ∷ cs) (switch_process W S args (c ∷ cs) token w)
    switch_process-Land args w h =
        continue_lem W S (Saved W S s) (Land s (c ∷ cs)) (stop_local_winws W S false w)
          (λ _. bind W (check W S token) λ _. spawn_winws W S args (some (c ∷ cs)))
          (saved-stop_local_winws W S s w h) (λ e v k. k)
          (λ u v k.
            continue_lem W S (Saved W S s) (Land s (c ∷ cs)) (check W S token v)
              (λ _. spawn_winws W S args (some (c ∷ cs)))
              (ap (λ a. a.saved) (app-check W S token v) ∙ k) (λ e x l. l)
              (λ x y l. spawn_winws-Land args y l))

    switched_service-Land :
        (args : List Text) (m : Result Installed × World W)
        → m.1.app.saved ≡ s
        → Land s (c ∷ cs) (switched_service W S args (c ∷ cs) m)
    switched_service-Land args (ok installed, w) h = (refl, h)
    switched_service-Land args (ok not_parsed, w) h = h
    switched_service-Land args (ok cancelled, w) h = h
    switched_service-Land args (ok not_stopped, w) h = h
    switched_service-Land args (ok not_created, w) h = h
    switched_service-Land args (ok not_started, w) h = h
    switched_service-Land args (err e, w) h = h

    switch_service-Land :
        (args : Option (List Text)) (w : World W)
        → w.app.saved ≡ s
        → Land s (c ∷ cs) (switch_service W S args (c ∷ cs) token w)
    switch_service-Land args w h =
        switched_service-Land (or_nil args)
          (install_service W S.quote S.winws (is_invalid W S token) (c ∷ cs) args w)
          (ap (λ a. a.saved)
              (app-install_service W S.quote S.winws (is_invalid W S token) (λ v. refl) (c ∷ cs)
                args w)
            ∙ h)

    if-Land :
        (b : Bool) (m n : Result (Unit {0}) × World W)
        → Land s (c ∷ cs) m
        → Land s (c ∷ cs) n
        → Land s (c ∷ cs) (if b then m else n)
    if-Land true m n h k = h
    if-Land false m n h k = k

    checked-Land :
        (m : Bool × World W) → Land s (c ∷ cs) (ok tt, m.1) → Land s (c ∷ cs) (checked W S m)
    checked-Land (true, w) h = h
    checked-Land (false, w) h = h.1

    -- The last check, and no writing of the settings behind it
    again-Land :
        (m : Result (Unit {0}) × World W)
        → Land s (c ∷ cs) m
        → Land s (c ∷ cs) (continue W m.0 (λ _. bind W (check W S token) λ _ w. (ok tt, w)) m.1)
    again-Land (err e, w) h = h
    again-Land (ok u, w) h = last (check W S token w) (checked-Land (is_valid W token w) h)
      where
        last :
            (n : Result (Unit {0}) × World W)
            → Land s (c ∷ cs) n
            → Land s (c ∷ cs) (continue W n.0 (λ _ v. (ok tt, v)) n.1)
        last (ok u, v) h = h
        last (err e, v) h = h

    switch_body-Land :
        (argstr : Text) (w : World W)
        → w.app.saved ≡ s
        → Land s (c ∷ cs) (switch_body W S argstr (c ∷ cs) token false w)
    switch_body-Land argstr w h =
        let v : World W = (desired W S w).1 in
        let m : Result (Unit {0}) × World W =
          switch_service W S (built W S argstr) (c ∷ cs) token v in
        let n : Result (Unit {0}) × World W =
          switch_process W S (or_nil (built W S argstr)) (c ∷ cs) token v in
        again-Land (if (desired W S w).0 == codes "service" then m else n) (
          if-Land ((desired W S w).0 == codes "service") m n
            (switch_service-Land (built W S argstr) v h)
            (switch_process-Land (or_nil (built W S argstr)) v h))

    released-Land :
        (m : Result (Unit {0}) × World W) → Land s (c ∷ cs) m → Land s (c ∷ cs) (released W S m)
    released-Land (ok u, w) h = h
    released-Land (err e, w) h = h

    transition-Land :
        (argstr : Text) (w : World W)
        → w.app.saved ≡ s
        → Land s (c ∷ cs) (transition W S token (switch_body W S argstr (c ∷ cs) token false) w)
    transition-Land argstr w h = enter (is_valid W token w) h
      where
        enter :
            (m : Bool × World W)
            → m.1.app.saved ≡ s
            → Land s
                (c ∷ cs)
                (entered W S (switch_body W S argstr (c ∷ cs) token false) (checked W S m))
        enter (false, v) h = h
        enter (true, v) h =
            released-Land (switch_body W S argstr (c ∷ cs) token false (set_busy W S true v))
              (switch_body-Land argstr (set_busy W S true v) h)

    returned-Switched :
        (m : Bool × World W)
        → Switched s (c ∷ cs) (ok true, m.1)
        → Switched s (c ∷ cs) (returned W S m)
    returned-Switched (true, w) h = h
    returned-Switched (false, w) h = h.1

    waited-Switched :
        (m : Bool × World W)
        → Switched s (c ∷ cs) (ok true, m.1)
        → Switched s (c ∷ cs) (returned W S (if_waited W S (managed_bypass_running W S) m))
    waited-Switched (false, w) h = h.1
    waited-Switched (true, w) h = returned-Switched (managed_bypass_running W S w) (
      ap (λ a. a.active_name) (app-managed_bypass_running W S w) ∙ h.0,
      ap (λ a. a.saved) (app-managed_bypass_running W S w) ∙ h.1,
    )

    switch_preset-Switched :
        (argstr : Text) (w : World W)
        → w.app.saved ≡ s
        → Switched s (c ∷ cs) (switch_preset W S (c ∷ cs) token false argstr w)
    switch_preset-Switched argstr w h =
        go (transition W S token (switch_body W S argstr (c ∷ cs) token false) w)
          (transition-Land argstr w h)
      where
        go :
            (m : Result (Unit {0}) × World W)
            → Land s (c ∷ cs) m
            → Switched s (c ∷ cs) (
                continue W m.0
                  (λ _ v.
                    returned W S (if_waited W S (managed_bypass_running W S) (is_valid W token v)))
                  m.1)
        go (ok u, v) k = waited-Switched (is_valid W token v) k
        go (err e, v) k = k

    switch_known-Switched :
        (o : Option Text) (w : World W)
        → w.app.saved ≡ s
        → Switched s (c ∷ cs) (switch_known W S (c ∷ cs) token false o w)
    switch_known-Switched none w h = h
    switch_known-Switched (some argstr) w h =
        elim (Bool-cases ((desired W S w).0 == codes "stopped")) [
          | inl e ↦ rw e h
          | inr e ↦ rw e (switch_preset-Switched argstr (desired W S w).1 h)
        ]

  pub switch_to-Switched :
      (s : Option Text) (name : Text) (token : ℕ) (w : World W)
      → lookup [] S.presets ≡ none
      → w.app.saved ≡ s
      → Switched s name (switch_to W S name token false w)
  unfolding switch_to
  switch_to-Switched s [] token w n h = rw n h
  switch_to-Switched s (c ∷ cs) token w n h =
      switch_known-Switched s c cs token (lookup (c ∷ cs) S.presets) w h
