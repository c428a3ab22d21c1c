-- ===== src/Service/Ended.antt =====
-- What `stop_process` saw of the process where it returns.
use zapret_gui.Base.{
  ℕ, ◌≡◌, refl, ◌∙◌, ap, Bool, true, false, bool_eq, Option, none, some, Bool-cases, inl, inr,
}
use zapret_gui.Result.{
  Result, ok, err, runtime_error, value_error, os_error, permission_error, file_not_found,
  superseded, type_error, timeout_expired, is_os_error,
}
use zapret_gui.Windows.{Windows, World, continue, act}
use zapret_gui.Service.{after_wait, end_process, not_stopped, ended, stop_alive, stop_process}

module _ (W : Windows) where
  -- The last that was asked about the process is whether it has exited, or to wait for its exit,
  -- and it has.
  pub data HasEnded (p : ℕ) (s' : W.State) : Type 0 where
    seen : (s : W.State) → W.exited p s ≡ (true, s') → HasEnded p s'
    waited : (s : W.State) → W.wait_exit p s ≡ (ok tt, s') → HasEnded p s'

  abbrev pub IsEnded : Option ℕ → W.State → W.State → Type 0
  IsEnded none s s' = s' ≡ s
  IsEnded (some p) s s' = HasEnded p s'

  waited-HasEnded :
      (p : ℕ) (s : W.State) (m : Result (Unit {0}) × World W)
      → W.wait_exit p s ≡ (m.0, m.1.state)
      → m.0 ≡ ok tt
      → HasEnded p m.1.state
  waited-HasEnded p s m e h = waited s (e ∙ ap (λ r. (r, m.1.state)) h)

  killed-HasEnded :
      (p : ℕ) (m : Result (Unit {0}) × World W)
      → let n = continue W m.0 (λ _. act W (W.wait_exit p)) m.1 in
        n.0 ≡ ok tt → HasEnded p n.1.state
  killed-HasEnded p (ok u, w) h = waited-HasEnded p w.state (act W (W.wait_exit p) w) refl h
  killed-HasEnded p (err e, w) h = cc

  after_wait-HasEnded :
      (p : ℕ) (s : W.State) (m : Result (Unit {0}) × World W)
      → W.wait_exit p s ≡ (m.0, m.1.state)
      → (after_wait W p m).0 ≡ ok tt
      → HasEnded p (after_wait W p m).1.state
  after_wait-HasEnded p s (ok tt, w) e h = waited s e
  after_wait-HasEnded p s (err timeout_expired, w) e h = killed-HasEnded p (act W (W.kill p) w) h
  after_wait-HasEnded p s (err (runtime_error x), w) e h = cc
  after_wait-HasEnded p s (err (value_error x), w) e h = cc
  after_wait-HasEnded p s (err os_error, w) e h = cc
  after_wait-HasEnded p s (err permission_error, w) e h = cc
  after_wait-HasEnded p s (err file_not_found, w) e h = cc
  after_wait-HasEnded p s (err superseded, w) e h = cc
  after_wait-HasEnded p s (err type_error, w) e h = cc

  end_process-HasEnded :
      (p : ℕ) (m : Result (Unit {0}) × World W)
      → let n = continue W m.0 (λ _ v. after_wait W p (act W (W.wait_exit p) v)) m.1 in
        n.0 ≡ ok tt → HasEnded p n.1.state
  end_process-HasEnded p (ok u, w) h =
      after_wait-HasEnded p w.state (act W (W.wait_exit p) w) refl h
  end_process-HasEnded p (err e, w) h = cc

  not_stopped-HasEnded :
      (p : ℕ) (b : Bool) (s : W.State) (m : Bool × World W)
      → W.exited p s ≡ (m.0, m.1.state)
      → (not_stopped W p m).0 ≡ ok b
      → HasEnded p (not_stopped W p m).1.state
  not_stopped-HasEnded p b s (true, w) e h = seen s e
  not_stopped-HasEnded p b s (false, w) e h = cc

  ended-HasEnded :
      (p : ℕ) (b : Bool) (m : Result (Unit {0}) × World W)
      → (m.0 ≡ ok tt → HasEnded p m.1.state)
      → (ended W p m).0 ≡ ok b
      → HasEnded p (ended W p m).1.state
  ended-HasEnded p b (ok tt, w) f h = f refl
  ended-HasEnded p b (err e, w) f h = elim (Bool-cases (is_os_error e)) [
    | inl y ↦ rw y (not_stopped-HasEnded p b w.state (act W (W.exited p) w) refl (rw y at h))
    | inr n ↦ let k = rw n at h in cc
  ]

  alive-HasEnded :
      (p : ℕ) (b : Bool) (s : W.State) (m : Bool × World W)
      → W.exited p s ≡ (m.0, m.1.state)
      → (stop_alive W p m).0 ≡ ok b
      → HasEnded p (stop_alive W p m).1.state
  alive-HasEnded p b s (true, w) e h = seen s e
  alive-HasEnded p b s (false, w) e h =
      ended-HasEnded p b (end_process W p w) (end_process-HasEnded p (act W (W.terminate p) w)) h

  -- Where stop_process returns, the process has ended.
  pub stop_process-IsEnded :
      (o : Option ℕ) (b : Bool) (w : World W)
      → (stop_process W o w).0 ≡ ok b
      → IsEnded o w.state (stop_process W o w).1.state
  unfolding stop_process
  stop_process-IsEnded none b w h = refl
  stop_process-IsEnded (some p) b w h = alive-HasEnded p b w.state (act W (W.exited p) w) refl h
