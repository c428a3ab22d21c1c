-- ===== src/Service/Stops.antt =====
-- What the operations on the service and on the processes guarantee where they return.
use zapret_gui.Base.{
  ℕ, zero, suc, ◌+◌, ◌≤◌, ◌≡◌, refl, ◌∙◌, ap, Bool, true, false, [], ◌∷◌, ◌==◌, bool_eq, length,
  Bool-cases, inl, inr, arith,
}
use zapret_gui.Result.{Result, ok, err, Error}
use zapret_gui.Text.{codes}
use zapret_gui.Windows.{Answer, Windows, World, continue, run_hidden}
use zapret_gui.Service.{
  service_running, winws_running, poll, or_raise, unless_running, not_changed, set_service_running,
  or_still, stop_all_winws, net_verb, service_name,
}

module _ (W : Windows) where
  -- The last thing that was done is the test, and it gave this answer.
  abbrev pub Answered : (World W → Bool × World W) → Bool → World W → Type 0
  Answered test b w' = (v : World W) × (test v ≡ (b, w'))

  -- Where it returned, the last thing that was done is the query, and it gave this answer.
  abbrev pub IsAnswered : Bool → Result (Unit {0}) × World W → Type 0
  IsAnswered running (ok u, w) = Answered (service_running W) running w
  IsAnswered running (err e, w) = Unit

  poll-Answered :
      (n : ℕ) (test : World W → Bool × World W) (wanted : Bool) (w : World W)
      → (poll W n test wanted w).0 ≡ true
      → Answered test wanted (poll W n test wanted w).1
  unfolding poll
  poll-Answered zero test wanted w h = cc
  poll-Answered (suc n) test wanted w h = elim (Bool-cases ((test w).0 == wanted)) [
    | inl e ↦ rw e ((w, ap (λ b. (b, (test w).1)) (same (test w).0 wanted e)))
    | inr e ↦ rw e (poll-Answered n test wanted (test w).1 (rw e at h))
  ]
    where
      same : (a b : Bool) → (a == b) ≡ true → a ≡ b
      same a b k = ground (arith, k)

  or_raise-Answered :
      (test : World W → Bool × World W) (wanted : Bool) (e : Error) (m : Bool × World W)
      → (m.0 ≡ true → Answered test wanted m.1)
      → (or_raise W e m).0 ≡ ok tt
      → Answered test wanted (or_raise W e m).1
  or_raise-Answered test wanted e (true, w) f h = f refl
  or_raise-Answered test wanted e (false, w) f h = cc

  changed-Answered :
      (running : Bool) (m : Result Answer × World W)
      → let n =
          continue W m.0
            (λ result w. or_raise W not_changed (poll W 20 (service_running W) running w))
            m.1 in
        n.0 ≡ ok tt → Answered (service_running W) running n.1
  changed-Answered running (ok a, w) h =
      or_raise-Answered (service_running W) running not_changed
        (poll W 20 (service_running W) running w) (poll-Answered 20 (service_running W) running w) h
  changed-Answered running (err e, w) h = cc

  unless-Answered :
      (running : Bool) (w : World W) (m : Bool × World W)
      → service_running W w ≡ m
      → (unless_running W running m).0 ≡ ok tt
      → Answered (service_running W) running (unless_running W running m).1
  unless-Answered running w (b, v) e h = elim (Bool-cases (b == running)) [
    | inl y ↦ rw y ((w, e ∙ ap (λ x. (x, v)) (same b running y)))
    | inr n ↦ rw n (
        changed-Answered running
          (run_hidden W (codes "net" ∷ net_verb running ∷ service_name ∷ []) v) (rw n at h))
  ]
    where
      same : (x y : Bool) → (x == y) ≡ true → x ≡ y
      same x y k = ground (arith, k)

  pub set_service_running-Answered :
      (running : Bool) (w : World W)
      → (set_service_running W running w).0 ≡ ok tt
      → Answered (service_running W) running (set_service_running W running w).1
  unfolding set_service_running
  set_service_running-Answered running w h = unless-Answered running w (service_running W w) refl h

  still-Answered :
      (result : Answer) (b : Bool) (m : Bool × World W)
      → (m.0 ≡ true → Answered (winws_running W) false m.1)
      → (or_still W result m).0 ≡ ok b
      → Answered (winws_running W) false (or_still W result m).1
  still-Answered result b (true, w) f h = f refl
  still-Answered result b (false, w) f h = cc

  all-Answered :
      (b : Bool) (m : Result Answer × World W)
      → let n =
          continue W m.0
            (λ result w. or_still W result (poll W 20 (winws_running W) false w))
            m.1 in
        n.0 ≡ ok b → Answered (winws_running W) false n.1
  all-Answered b (ok a, w) h =
      still-Answered a b (poll W 20 (winws_running W) false w)
        (poll-Answered 20 (winws_running W) false w) h
  all-Answered b (err e, w) h = cc

  stop_all_winws-Answered :
      (b : Bool) (w : World W)
      → (stop_all_winws W w).0 ≡ ok b
      → Answered (winws_running W) false (stop_all_winws W w).1
  unfolding stop_all_winws
  stop_all_winws-Answered b w h =
      all-Answered b
        (run_hidden W (codes "taskkill" ∷ codes "/IM" ∷ codes "winws.exe" ∷ codes "/F" ∷ []) w) h

  length-service_running :
      (w : World W) → length (service_running W w).1.commands ≡ length w.commands + 1
  unfolding service_running
  length-service_running w = omega arith

  length-poll :
      (n : ℕ) (wanted : Bool) (w : World W)
      → length (poll W n (service_running W) wanted w).1.commands ≤ length w.commands + n
  unfolding poll
  length-poll zero wanted w = omega arith
  length-poll (suc n) wanted w =
      ground (arith, length-service_running w, length-poll n wanted (service_running W w).1)

  length-or_raise : (e : Error) (m : Bool × World W) → (or_raise W e m).1.commands ≡ m.1.commands
  length-or_raise e (true, w) = refl
  length-or_raise e (false, w) = refl

  changed_length :
      (running : Bool) (m : Result Answer × World W)
      → let n =
          continue W m.0
            (λ result w. or_raise W not_changed (poll W 20 (service_running W) running w))
            m.1 in
        length n.1.commands ≤ length m.1.commands + 20
  changed_length running (ok a, w) =
      rw (length-or_raise not_changed (poll W 20 (service_running W) running w))
        (length-poll 20 running w)
  changed_length running (err e, w) = omega arith

  unless_length :
      (running : Bool) (m : Bool × World W)
      → length (unless_running W running m).1.commands ≤ length m.1.commands + 21
  unless_length running (b, v) = elim (Bool-cases (b == running)) [
    | inl y ↦ rw y (omega arith)
    | inr n ↦ rw n (
        omega (
          arith,
          changed_length running
              (run_hidden W (codes "net" ∷ net_verb running ∷ service_name ∷ []) v),
        ))
  ]

  length-set_service_running :
      (running : Bool) (w : World W)
      → length (set_service_running W running w).1.commands ≤ length w.commands + 22
  unfolding set_service_running
  length-set_service_running running w =
      omega (arith, unless_length running (service_running W w), length-service_running w)

  -- Starting or stopping the service runs at most 22 commands, whatever Windows answers, and
  -- where it returns, its last command was a query that gave the wanted answer.
  pub set_service_running_lem :
      (running : Bool) (w : World W)
      → (length (set_service_running W running w).1.commands ≤ length w.commands + 22)
        × IsAnswered running (set_service_running W running w)
  set_service_running_lem running w =
      (length-set_service_running running w, answered (set_service_running W running w) refl)
    where
      answered :
          (m : Result (Unit {0}) × World W)
          → set_service_running W running w ≡ m
          → IsAnswered running m
      answered (ok tt, v) e =
          rw (ap (λ n. n.1) e) at (set_service_running-Answered running w (ap (λ n. n.0) e))
      answered (err x, v) e = tt
