-- ===== src/Supervisor/Recovery/Attempt.antt =====
-- How the attempt with one candidate ends, and how it comes to keep it.
use zapret_gui.Base.{
  ℕ, ◌≡◌, refl, Bool, true, false, Option, none, some, List, [], ◌∷◌, nat_eq, text_eq,
  if◌then◌else◌,
}
use zapret_gui.Base.Dict.{Dict, lookup}
use zapret_gui.Result.{
  Result, ok, err, runtime_error, value_error, os_error, permission_error, file_not_found,
  superseded, type_error, timeout_expired,
}
use zapret_gui.Text.{Text}
use zapret_gui.Measure.{ProbeResult}
use zapret_gui.Windows.{Windows, App, World, Exec, continue, bind, is_valid}
use zapret_gui.Supervisor.{
  Setup, recovery_hosts, all_reliable, any_reliable, all_controls, managed_bypass_running, check,
  measure, write_strategy, keep_strategy, switch_to,
}
use zapret_gui.Supervisor.Steps.{continue_lem, app-measure, app-managed_bypass_running, app-check}
use zapret_gui.Supervisor.Switch.{Switched, switch_to-Switched}
use zapret_gui.Supervisor.Recovery.{
  Trial, committed, paused, rejected, commit, if_managed, judge, ask_controls, is_silent, weigh,
  examine, if_switched, attempt, caught,
}

module _ (W : Windows) (S : Setup) (token : ℕ) where
  -- How the run came to keep a strategy and to end in `w'`: the switch to it, in the world `x`, said
  -- that it runs; then, while it was active, every host answered all three probes; and from there
  -- on the trial ended in `w'`.
  pub record IsProven (name : Text) (w' : World W) : Type 0 where
    pub x : World W
    pub v : World W
    pub u : World W
    pub t : World W
    pub results : Dict Text ProbeResult
    pub switched : switch_to W S name token false x ≡ (ok true, v)
    pub active : v.app.active_name ≡ some name
    pub probed : measure W S (recovery_hosts S.services) 3 v ≡ (ok results, u)
    pub answered : all_reliable results ≡ true
    pub weighed : bind W (check W S token) (λ _. weigh W S token name results) u ≡ (ok committed, t)
    pub last : w' ≡ (is_valid W token t).1

  -- The strategy is active and chosen in the settings and in their file.
  abbrev pub IsChosen : Text → App → Type 0
  IsChosen name a = (a.active_name ≡ some name) × (a.strategy ≡ some name) × (a.saved ≡ some name)

  abbrev pub IsKept : Text → World W → Type 0
  IsKept name w = IsChosen name w.app × IsProven name w

  -- An attempt; `P` holds of a world where it kept the candidate.
  abbrev pub Tried : (World W → Type 0) → Option Text → Text → Result Trial × World W → Type 0
  Tried P s name (ok committed, w) = IsChosen name w.app × P w
  Tried P s name (ok paused, w) = w.app.saved ≡ s
  Tried P s name (ok rejected, w) = w.app.saved ≡ s
  Tried P s name (err e, w) = w.app.saved ≡ s

  -- The candidate runs, and the file of settings is as it was.
  abbrev Running : Option Text → Text → App → Type 0
  Running s name a = (a.active_name ≡ some name) × (a.saved ≡ s)

  module _ (s : Option Text) (name : Text) (results : Dict Text ProbeResult) where
    abbrev Q : World W → Type 0
    Q w = all_reliable results ≡ true

    commit-Tried :
        (w : World W)
        → Running s name w.app
        → all_reliable results ≡ true
        → Tried Q s name (commit W S token name w)
    unfolding keep_strategy
    commit-Tried w h p = go w.app.faults
      where
        go :
            (fs : List Bool)
            → let m = write_strategy W S name fs (record w.app { strategy = some name }) in
              Tried Q s name (continue W m.0 (λ _ v. (ok committed, v)) (record w { app = m.1 }))
        go [] = ((h.0, refl, refl), p)
        go (false ∷ fs) = ((h.0, refl, refl), p)
        go (true ∷ fs) = h.1

    if-Tried :
        (b : Bool) (m n : Result Trial × World W)
        → (b ≡ true → Tried Q s name m)
        → (b ≡ false → Tried Q s name n)
        → Tried Q s name (if b then m else n)
    if-Tried true m n h k = h refl
    if-Tried false m n h k = k refl

    managed-Tried :
        (m : Bool × World W)
        → Running s name m.1.app
        → Tried Q s name (if_managed W S token name results m)
    managed-Tried (false, w) h = h.1
    managed-Tried (true, w) h =
        if-Tried (all_reliable results) (commit W S token name w) (ok rejected, w)
          (λ e. commit-Tried w h e) (λ e. h.1)

    Running-same : (w v : World W) → v.app ≡ w.app → Running s name w.app → Running s name v.app
    Running-same w v e h = rw e h

    judge-Tried :
        (w : World W) → Running s name w.app → Tried Q s name (judge W S token name results w)
    judge-Tried w h =
        managed-Tried (managed_bypass_running W S w)
          (Running-same w (managed_bypass_running W S w).1 (app-managed_bypass_running W S w) h)

    controls-Tried :
        (w : World W)
        → Running s name w.app
        → Tried Q s name (ask_controls W S token name results w)
    controls-Tried w h =
        let I : App → Type 0 = Running s name in
        let asked : Dict Text ProbeResult → Exec W Trial = λ controls v.
          if any_reliable controls then judge W S token name results v else (ok paused, v) in
        continue_lem W S I (Tried Q s name) (measure W S all_controls 1 w)
          (λ controls. bind W (check W S token) (λ _. asked controls))
          (Running-same w (measure W S all_controls 1 w).1 (app-measure W S all_controls 1 w) h)
          (λ e v k. k.1)
          (λ controls v k.
            continue_lem W S I (Tried Q s name) (check W S token v) (λ _. asked controls)
              (Running-same v (check W S token v).1 (app-check W S token v) k) (λ e x l. l.1)
              (λ u x l.
                if-Tried (any_reliable controls) (judge W S token name results x) (ok paused, x)
                  (λ _. judge-Tried x l) (λ _. l.1)))

    weigh-Tried :
        (w : World W) → Running s name w.app → Tried Q s name (weigh W S token name results w)
    weigh-Tried w h =
        if-Tried (is_silent W S token results) (ask_controls W S token name results w)
          (judge W S token name results w) (λ _. controls-Tried w h) (λ _. judge-Tried w h)

    weighed-Tried :
        (u : World W)
        → Running s name u.app
        → Tried Q s name (bind W (check W S token) (λ _. weigh W S token name results) u)
    weighed-Tried u h =
        continue_lem W S (Running s name) (Tried Q s name) (check W S token u)
          (λ _. weigh W S token name results)
          (Running-same u (check W S token u).1 (app-check W S token u) h) (λ e x l. l.1)
          (λ y x l. weigh-Tried x l)

  module _ (s : Option Text) (name : Text) where
    -- How it came about, up to the end of the attempt
    abbrev pub Proof : World W → Type 0
    Proof t = IsProven name (is_valid W token t).1

    committed-Tried :
        (x v u : World W) (results : Dict Text ProbeResult) (m : Result Trial × World W)
        → switch_to W S name token false x ≡ (ok true, v)
        → v.app.active_name ≡ some name
        → measure W S (recovery_hosts S.services) 3 v ≡ (ok results, u)
        → bind W (check W S token) (λ _. weigh W S token name results) u ≡ m
        → Tried (Q s name results) s name m
        → Tried Proof s name m
    committed-Tried x v u results (ok committed, t) f a g e h = (
      h.0,
      record {
        x = x;
        v = v;
        u = u;
        t = t;
        results = results;
        switched = f;
        active = a;
        probed = g;
        answered = h.1;
        weighed = e;
        last = refl;
      },
    )
    committed-Tried x v u results (ok paused, t) f a g e h = h
    committed-Tried x v u results (ok rejected, t) f a g e h = h
    committed-Tried x v u results (err y, t) f a g e h = h

    measured-Tried :
        (x v : World W) (m : Result (Dict Text ProbeResult) × World W)
        → switch_to W S name token false x ≡ (ok true, v)
        → measure W S (recovery_hosts S.services) 3 v ≡ m
        → v.app.active_name ≡ some name
        → Running s name m.1.app
        → Tried Proof s name (
            continue W m.0
              (λ results. bind W (check W S token) λ _. weigh W S token name results)
              m.1)
    measured-Tried x v (err e, w) f g a h = h.1
    measured-Tried x v (ok results, u) f g a h =
        committed-Tried x v u results
          (bind W (check W S token) (λ _. weigh W S token name results) u) f a g refl
          (weighed-Tried s name results u h)

    examine-Tried :
        (x w : World W)
        → switch_to W S name token false x ≡ (ok true, w)
        → Running s name w.app
        → Tried Proof s name (examine W S token name w)
    examine-Tried x w f h =
        let m = measure W S (recovery_hosts S.services) 3 w in
        measured-Tried x w m f refl h.0 (rw (app-measure W S (recovery_hosts S.services) 3 w) h)

    if_switched-Tried :
        (x : World W) (m : Result Bool × World W)
        → switch_to W S name token false x ≡ m
        → Switched W S s name m
        → Tried Proof s name (continue W m.0 (if_switched W S token name) m.1)
    if_switched-Tried x (ok true, w) f h = examine-Tried x w f h
    if_switched-Tried x (ok false, w) f h = h
    if_switched-Tried x (err e, w) f h = h

    pub attempt-Tried :
        (w : World W)
        → lookup [] S.presets ≡ none
        → w.app.saved ≡ s
        → Tried Proof s name (attempt W S token name w)
    unfolding attempt
    attempt-Tried w n h =
        if_switched-Tried w (switch_to W S name token false w) refl
          (switch_to-Switched W S s name token w n h)

    pub caught-Tried :
        (m : Result Trial × World W)
        → Tried Proof s name m
        → Tried Proof s name (caught W S token m.0, m.1)
    caught-Tried (ok committed, w) h = h
    caught-Tried (ok paused, w) h = h
    caught-Tried (ok rejected, w) h = h
    caught-Tried (err superseded, w) h = h
    caught-Tried (err (runtime_error x), w) h = h
    caught-Tried (err (value_error x), w) h = h
    caught-Tried (err os_error, w) h = h
    caught-Tried (err permission_error, w) h = h
    caught-Tried (err file_not_found, w) h = h
    caught-Tried (err timeout_expired, w) h = h
    caught-Tried (err type_error, w) h = h
