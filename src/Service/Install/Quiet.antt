-- ===== src/Service/Install/Quiet.antt =====
-- The commands that start no service.
use zapret_gui.Base.{
  ℕ, zero, suc, ◌≡◌, refl, sym, ◌∙◌, ap, Bool, true, false, ◌&&◌, ◌||◌, List, [], ◌∷◌, ◌++◌,
  append_assoc, ◌==◌, bool_eq, nat_eq, text_eq, if◌then◌else◌, Bool-cases, inl, inr, All,
  All-append,
}
use zapret_gui.Result.{Result, ok, err, Error}
use zapret_gui.Text.{Text, codes}
use zapret_gui.Windows.{Answer, Windows, World, continue, run_hidden}
use zapret_gui.Service.{
  query, service_installed, service_running, poll, or_raise, unless_running, not_changed,
  set_service_running, enable_tcp_timestamps, tcp_timestamps_enabled, set_timestamps,
  show_timestamps, set_timestamps_command, is_yes, read_timestamps, net_verb, service_name,
}

-- A command `sc start …` or `net start …`
unfoldable pub is_start : List Text → Bool
unfolding text_eq
is_start [] = false
is_start (a ∷ []) = false
is_start (a ∷ b ∷ rest) = (a == codes "sc" || a == codes "net") && b == codes "start"

module _ (W : Windows) where
  -- The commands that were run in between start no service.
  abbrev pub IsQuiet : World W → World W → Type 0
  IsQuiet w w' =
      (more : List (List Text)) × (w'.commands ≡ more ++ w.commands)
      × All (λ c. is_start c ≡ false) more

  pub IsQuiet-refl : (w w' : World W) → w'.commands ≡ w.commands → IsQuiet w w'
  IsQuiet-refl w w' h = ([], h, tt)

  pub IsQuiet-trans : (u v w : World W) → IsQuiet u v → IsQuiet v w → IsQuiet u w
  IsQuiet-trans u v w (xs, e, h) (ys, f, k) = (
    ys ++ xs,
    f ∙ (ap (λ l. ys ++ l) e ∙ sym (append_assoc ys xs u.commands)),
    All-append (λ c. is_start c ≡ false) ys xs k h,
  )

  pub IsQuiet-run :
      (cmd : List Text) (w : World W) → is_start cmd ≡ false → IsQuiet w (run_hidden W cmd w).1
  IsQuiet-run cmd w n = (cmd ∷ [], refl, (n, tt))

  pub query-ne : is_start query ≡ false
  unfolding is_start
  query-ne = refl

  pub IsQuiet-service_running : (w : World W) → IsQuiet w (service_running W w).1
  unfolding service_running
  IsQuiet-service_running w = IsQuiet-run query w query-ne

  pub IsQuiet-service_installed : (w : World W) → IsQuiet w (service_installed W w).1
  unfolding service_installed
  IsQuiet-service_installed w = IsQuiet-run query w query-ne

  IsQuiet-poll : (n : ℕ) (b : Bool) (w : World W) → IsQuiet w (poll W n (service_running W) b w).1
  unfolding poll
  IsQuiet-poll zero b w = IsQuiet-refl w w refl
  IsQuiet-poll (suc n) b w = elim (Bool-cases ((service_running W w).0 == b)) [
    | inl e ↦ rw e (IsQuiet-service_running w)
    | inr e ↦ rw e (
        IsQuiet-trans w (service_running W w).1
          (poll W n (service_running W) b (service_running W w).1).1 (IsQuiet-service_running w)
          (IsQuiet-poll n b (service_running W w).1))
  ]

  commands-or_raise : (e : Error) (m : Bool × World W) → (or_raise W e m).1.commands ≡ m.1.commands
  commands-or_raise e (true, w) = refl
  commands-or_raise e (false, w) = refl

  net_stop-ne : is_start (codes "net" ∷ net_verb false ∷ service_name ∷ []) ≡ false
  unfolding is_start
  net_stop-ne = refl

  IsQuiet-changed :
      (b : Bool) (w : World W) (m : Result Answer × World W)
      → IsQuiet w m.1
      → IsQuiet w
          (continue W m.0
            (λ result v. or_raise W not_changed (poll W 20 (service_running W) b v))
            m.1).1
  IsQuiet-changed b w (ok a, v) h =
      let m : Bool × World W = poll W 20 (service_running W) b v in
      IsQuiet-trans w v (or_raise W not_changed m).1 h (
        IsQuiet-trans v m.1 (or_raise W not_changed m).1 (IsQuiet-poll 20 b v)
          (IsQuiet-refl m.1 (or_raise W not_changed m).1 (commands-or_raise not_changed m)))
  IsQuiet-changed b w (err e, v) h = h

  IsQuiet-unless :
      (w : World W) (m : Bool × World W) → IsQuiet w m.1 → IsQuiet w (unless_running W false m).1
  unfolding bool_eq
  IsQuiet-unless w (false, v) h = h
  IsQuiet-unless w (true, v) h =
      IsQuiet-changed false w (run_hidden W (codes "net" ∷ net_verb false ∷ service_name ∷ []) v) (
        IsQuiet-trans w v (run_hidden W (codes "net" ∷ net_verb false ∷ service_name ∷ []) v).1 h
          (IsQuiet-run (codes "net" ∷ net_verb false ∷ service_name ∷ []) v net_stop-ne))

  -- To stop the service starts none.
  pub IsQuiet-set_service_running : (w : World W) → IsQuiet w (set_service_running W false w).1
  unfolding set_service_running
  IsQuiet-set_service_running w = IsQuiet-unless w (service_running W w) (IsQuiet-service_running w)

  timestamps-ne : is_start show_timestamps ≡ false
  unfolding is_start
  timestamps-ne = refl

  set_timestamps-ne : is_start set_timestamps_command ≡ false
  unfolding is_start
  set_timestamps-ne = refl

  IsQuiet-if :
      (b : Bool) (w v v' : World W) → IsQuiet w v → IsQuiet w v' → IsQuiet w (if b then v else v')
  IsQuiet-if true w v v' h k = h
  IsQuiet-if false w v v' h k = k

  pub IsQuiet-enable_tcp_timestamps : (w : World W) → IsQuiet w (enable_tcp_timestamps W w)
  unfolding enable_tcp_timestamps tcp_timestamps_enabled
  IsQuiet-enable_tcp_timestamps w =
      let v : World W = (run_hidden W show_timestamps w).1 in
      let first : IsQuiet w v = IsQuiet-run show_timestamps w timestamps-ne in
      IsQuiet-if (is_yes (read_timestamps (run_hidden W show_timestamps w).0)) w v
        (set_timestamps W v) first
        (IsQuiet-trans w v (set_timestamps W v) first
          (IsQuiet-run set_timestamps_command v set_timestamps-ne))
