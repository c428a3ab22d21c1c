-- ===== src/Runtime/Tokens.antt =====
-- Tokens of the controller over every sequence of its methods.
use zapret_gui.Base.{
  ℕ, ◌<◌, ◌≡◌, ◌≢◌, refl, true, false, Option, none, contains, nat_eq, arith, Bool-cases, inl, inr,
}
use zapret_gui.Result.{Result, err, superseded}
use zapret_gui.Text.{Text}
use zapret_gui.Runtime.{
  Controller, init, is_set, renew, request, is_expected, valid, set_desired, transition, close,
}

-- One call of a method by any thread; the body of a transition is made of further steps.
pub data Step : Controller → Controller → Type 0 where
  requests : (d : Option Text) (e : Option ℕ) (s : Controller) → Step s (request d e s).1
  sets_desired : (t : ℕ) (d : Text) (s : Controller) → Step s (set_desired t d s)
  begins : (t : ℕ) (s : Controller) → valid t s ≡ true → Step s (record s { busy = true })
  ends : (s : Controller) → Step s (record s { busy = false })
  closes : (s : Controller) → Step s (close s)

pub data Reach (s : Controller) : Controller → Type 0 where
  here : Reach s s
  then : {u v : Controller} → Reach s u → Step u v → Reach s v

-- The token is older than the next event, and every other event that was handed out is set.
pub record IsFresh (s : Controller) : Type 0 where
  pub below : s.token < s.next
  pub others : (t : ℕ) → t < s.next → t ≢ s.token → contains s.set_events t ≡ true
  pub known : (t : ℕ) → contains s.set_events t ≡ true → t < s.next

init-IsFresh : (d : Text) → IsFresh (init d)
unfolding init
init-IsFresh d = record {
  below = omega arith;
  others = λ t h n. absurd (omega arith);
  known = λ t h. cc;
}

renew-IsFresh : (d : Option Text) (s : Controller) → IsFresh s → IsFresh (renew d s).1
unfolding renew
renew-IsFresh d s h = record {
  below = omega arith;
  others = λ t lt n. ground (arith, h.others t);
  known = λ t m. ground (arith, h.known t, h.below);
}

request-IsFresh :
    (d : Option Text) (e : Option ℕ) (s : Controller) → IsFresh s → IsFresh (request d e s).1
unfolding request
request-IsFresh d e s h = elim (Bool-cases (is_expected e s)) [
  | inl y ↦ rw y (renew-IsFresh d s h)
  | inr n ↦ rw n h
]

set_desired-IsFresh : (t : ℕ) (d : Text) (s : Controller) → IsFresh s → IsFresh (set_desired t d s)
unfolding set_desired
set_desired-IsFresh t d s h = elim (Bool-cases (valid t s)) [
  | inl y ↦ rw (y, set_desired) (record { below = h.below; others = h.others; known = h.known })
  | inr n ↦ rw (n, set_desired) h
]

close-IsFresh : (s : Controller) → IsFresh s → IsFresh (close s)
unfolding close
close-IsFresh s h = record {
  below = h.below;
  others = λ t lt n. ground (arith, h.others t);
  known = λ t m. ground (arith, h.known t, h.below);
}

Step-IsFresh : {s u : Controller} → Step s u → IsFresh s → IsFresh u
Step-IsFresh (requests d e s) h = request-IsFresh d e s h
Step-IsFresh (sets_desired t d s) h = set_desired-IsFresh t d s h
Step-IsFresh (begins t s v) h = record { below = h.below; others = h.others; known = h.known }
Step-IsFresh (ends s) h = record { below = h.below; others = h.others; known = h.known }
Step-IsFresh (closes s) h = close-IsFresh s h

Reach-IsFresh : {s u : Controller} → IsFresh s → Reach s u → IsFresh u
Reach-IsFresh h here = h
Reach-IsFresh h (then calls call) = Step-IsFresh call (Reach-IsFresh h calls)

-- After any sequence of calls, every token that was handed out is set, but for the current one.
pub Reach-others_set :
    (d : Text) (s : Controller)
    → Reach (init d) s
    → (t : ℕ) → t < s.next
    → t ≢ s.token
    → is_set s t ≡ true
unfolding is_set
Reach-others_set d s r = (Reach-IsFresh (init-IsFresh d) r).others

abbrev WasSet : ℕ → Controller → Type 0
WasSet t s = contains s.set_events t ≡ true

Step-WasSet : (t : ℕ) {s u : Controller} → Step s u → WasSet t s → WasSet t u
unfolding request renew set_desired close
Step-WasSet t (requests d e s) h = ground (arith, h)
Step-WasSet t (sets_desired v d s) h = ground (arith, h)
Step-WasSet t (begins v s x) h = h
Step-WasSet t (ends s) h = h
Step-WasSet t (closes s) h = ground (arith, h)

Reach-WasSet : (t : ℕ) {s u : Controller} → Reach s u → WasSet t s → WasSet t u
Reach-WasSet t here h = h
Reach-WasSet t (then calls call) h = Step-WasSet t call (Reach-WasSet t calls h)

WasSet-invalid : (t : ℕ) (s : Controller) → WasSet t s → valid t s ≡ false
unfolding valid is_set
WasSet-invalid t s h = ground (arith, h)

-- Once an operation was requested, the token that was current before is never valid again, over
-- every later sequence of calls.
pub request-supersedes :
    (d : Option Text) (s u : Controller) → Reach (request d none s).1 u → valid s.token u ≡ false
request-supersedes d s u r = WasSet-invalid s.token u (Reach-WasSet s.token r (now d s))
  where
    now : (d : Option Text) (s : Controller) → WasSet s.token (request d none s).1
    now d s = unfold request renew in ground arith

Step-closed : {s u : Controller} → Step s u → s.closed ≡ true → u.closed ≡ true
unfolding request renew set_desired close
Step-closed (requests d e s) h = ground (arith, h)
Step-closed (sets_desired v d s) h = ground (arith, h)
Step-closed (begins v s x) h = h
Step-closed (ends s) h = h
Step-closed (closes s) h = refl

Reach-closed : {s u : Controller} → Reach s u → s.closed ≡ true → u.closed ≡ true
Reach-closed here h = h
Reach-closed (then calls call) h = Step-closed call (Reach-closed calls h)

-- After close, no token is ever valid again.
pub close-invalid : (t : ℕ) (s u : Controller) → Reach (close s) u → valid t u ≡ false
close-invalid t s u r = shut t u (Reach-closed r (unfold close in refl))
  where
    shut : (t : ℕ) (u : Controller) → u.closed ≡ true → valid t u ≡ false
    shut t u h = unfold valid in ground (arith, h)

-- A transition with a token that is not valid raises and changes nothing; one with a valid
-- token runs its body under busy and ends not busy, also where the body raises.
pub transition_lem :
    {A : Type 0} (t : ℕ) (body : Controller → Result A × Controller) (s : Controller)
    → (valid t s ≡ false → transition t body s ≡ (err superseded, s))
      × (valid t s ≡ true
          → ((transition t body s).0 ≡ (body (record s { busy = true })).0)
            × ((transition t body s).1
                ≡ record (body (record s { busy = true })).1 { busy = false }))
unfolding transition
transition_lem t body s = (λ h. rw (h, transition), λ h. (rw (h, transition), rw (h, transition)))
