-- ===== src/Runtime/Tickets.antt =====
-- What the controller promises, with no events: a number of the newest ticket, what is wanted, and
-- whether it is still open. The controller refines it.
use zapret_gui.Base.{
  ℕ, ◌+◌, ◌<◌, ◌≡◌, refl, ap, Bool, true, false, not, ◌&&◌, Option, none, some, List, [], ◌∷◌, ◌==◌,
  contains, nat_eq, if◌then◌else◌, arith, Bool-cases, inl, inr,
}
use zapret_gui.Text.{Text}
use zapret_gui.Runtime.{
  Controller, init, is_set, or_desired, renew, request, is_expected, valid, set_desired, close,
}

pub record Ticket : Type 0 where
  pub newest : ℕ
  pub wanted : Text
  pub is_open : Bool

-- A ticket is honoured while it is the newest one and the office is open.
abbrev pub honours : ℕ → Ticket → Bool
honours t a = t == a.newest && a.is_open

abbrev pub is_asked : Option ℕ → Ticket → Bool
is_asked none a = true
is_asked (some t) a = t == a.newest

pub data Call : Type 0 where
  asks : Option Text → Option ℕ → Call
  wants : ℕ → Text → Call
  shuts : Call

abbrev pub perform : Call → Controller → Controller
perform (asks d e) s = (request d e s).1
perform (wants t d) s = set_desired t d s
perform shuts s = close s

abbrev pub issue : Call → Ticket → Ticket
issue (asks d e) a =
    if is_asked e a then record a { newest = a.newest + 1; wanted = or_desired d a.wanted } else a
issue (wants t d) a = if honours t a then record a { wanted = d } else a
issue shuts a = record a { is_open = false }

-- The calls in their order
abbrev pub perform_all : List Call → Controller → Controller
perform_all [] s = s
perform_all (call ∷ calls) s = perform_all calls (perform call s)

abbrev pub issue_all : List Call → Ticket → Ticket
issue_all [] a = a
issue_all (call ∷ calls) a = issue_all calls (issue call a)

pub record Agrees (s : Controller) (a : Ticket) : Type 0 where
  pub token : s.token ≡ a.newest
  pub next : s.next ≡ a.newest + 1
  pub wanted : s.desired ≡ a.wanted
  pub closed : s.closed ≡ not a.is_open
  pub unset : a.is_open ≡ true → contains s.set_events a.newest ≡ false
  pub known : (t : ℕ) → contains s.set_events t ≡ true → t < a.newest + 1

valid_lem : (t : ℕ) (s : Controller) (a : Ticket) → Agrees s a → valid t s ≡ honours t a
unfolding valid is_set
valid_lem t s a h = ground (arith, h.token, h.closed, h.unset)

renew-Agrees :
    (d : Option Text) (s : Controller) (a : Ticket)
    → Agrees s a
    → Agrees (renew d s).1 (record a { newest = a.newest + 1; wanted = or_desired d a.wanted })
unfolding renew
renew-Agrees d s a h = record {
  token = h.next;
  next = ap (λ n. n + 1) h.next;
  wanted = ap (or_desired d) h.wanted;
  closed = h.closed;
  unset = λ o. ground (arith, h.known (a.newest + 1), h.token);
  known = λ t m. ground (arith, h.known t, h.token, m);
}

if-Agrees :
    (b : Bool) (s u : Controller) (a c : Ticket)
    → Agrees s a
    → Agrees u c
    → Agrees (if b then s else u) (if b then a else c)
if-Agrees true s u a c h k = h
if-Agrees false s u a c h k = k

expected_lem :
    (e : Option ℕ) (s : Controller) (a : Ticket) → Agrees s a → is_expected e s ≡ is_asked e a
expected_lem none s a h = refl
expected_lem (some t) s a h = rw (h.token) refl

request-Agrees :
    (d : Option Text) (e : Option ℕ) (s : Controller) (a : Ticket)
    → Agrees s a
    → Agrees (request d e s).1 (issue (asks d e) a)
unfolding request
request-Agrees d e s a h = elim (Bool-cases (is_asked e a)) [
  | inl y ↦ rw (expected_lem e s a h, y) (renew-Agrees d s a h)
  | inr n ↦ rw (expected_lem e s a h, n) h
]

wants-Agrees :
    (t : ℕ) (d : Text) (s : Controller) (a : Ticket)
    → Agrees s a
    → Agrees (set_desired t d s) (issue (wants t d) a)
unfolding set_desired
wants-Agrees t d s a h = elim (Bool-cases (honours t a)) [
  | inl y ↦
      rw (valid_lem t s a h, y)
        (record {
          token = h.token;
          next = h.next;
          wanted = refl;
          closed = h.closed;
          unset = h.unset;
          known = h.known;
        })
  | inr n ↦ rw (valid_lem t s a h, n) h
]

close-Agrees : (s : Controller) (a : Ticket) → Agrees s a → Agrees (close s) (issue shuts a)
unfolding close
close-Agrees s a h = record {
  token = h.token;
  next = h.next;
  wanted = h.wanted;
  closed = refl;
  unset = λ o. cc;
  known = λ t m. ground (arith, h.known t, h.token, m);
}

call-Agrees :
    (call : Call) (s : Controller) (a : Ticket)
    → Agrees s a
    → Agrees (perform call s) (issue call a)
call-Agrees (asks d e) s a h = request-Agrees d e s a h
call-Agrees (wants t d) s a h = wants-Agrees t d s a h
call-Agrees shuts s a h = close-Agrees s a h

calls-Agrees :
    (calls : List Call) (s : Controller) (a : Ticket)
    → Agrees s a
    → Agrees (perform_all calls s) (issue_all calls a)
calls-Agrees [] s a h = h
calls-Agrees (call ∷ calls) s a h =
    calls-Agrees calls (perform call s) (issue call a) (call-Agrees call s a h)

-- The first ticket
abbrev pub first : Text → Ticket
first d = record { newest = 0; wanted = d; is_open = true }

init-Agrees : (d : Text) → Agrees (init d) (first d)
unfolding init
init-Agrees d = record {
  token = refl;
  next = refl;
  wanted = refl;
  closed = refl;
  unset = λ o. refl;
  known = λ t m. cc;
}

-- After any sequence of requests, changes of what is wanted and closings, the controller
-- refines an office of numbered tickets that keeps no events: a token is valid exactly when it
-- is the newest ticket and the office is open, and the token and the desired mode are those of
-- the office.
pub controller_lem :
    (d : Text) (calls : List Call)
    → let s = perform_all calls (init d) in
      let a = issue_all calls (first d) in
      ((t : ℕ) → valid t s ≡ honours t a) × (s.token ≡ a.newest) × (s.desired ≡ a.wanted)
controller_lem d calls =
    let h : Agrees (perform_all calls (init d)) (issue_all calls (first d)) =
      calls-Agrees calls (init d) (first d) (init-Agrees d) in
    (
      (λ t. valid_lem t (perform_all calls (init d)) (issue_all calls (first d)) h),
      h.token,
      h.wanted,
    )
