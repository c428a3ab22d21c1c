-- ===== src/Runtime.antt =====
-- zapret_runtime.py: `RuntimeController`. An `Event` is a number; the events that are set form a
-- list. The lock makes each method one step; `close` takes no lock, and is one step here too.
pub mod Tokens
pub mod Tickets
use zapret_gui.Base.{
  ℕ, suc, ◌+◌, Bool, true, false, not, ◌&&◌, ◌||◌, Option, none, some, List, [], ◌∷◌, ◌==◌,
  contains, nat_eq, text_eq, if◌then◌else◌,
}
use zapret_gui.Result.{Result, ok, err, superseded}
use zapret_gui.Text.{Text}

pub record Controller : Type 0 where
  pub desired : Text
  pub token : ℕ
  pub set_events : List ℕ
  pub next : ℕ
  pub busy : Bool
  pub closed : Bool

unfoldable pub init : Text → Controller
init desired = record {
  desired = desired;
  token = 0;
  set_events = [];
  next = 1;
  busy = false;
  closed = false;
}

-- `token.is_set()`
unfoldable pub is_set : Controller → ℕ → Bool
unfolding nat_eq
is_set s t = contains s.set_events t

abbrev pub or_desired : Option Text → Text → Text
or_desired none d = d
or_desired (some d') d = d'

-- Behind the test of `expected`: the token is set, and a new one takes its place.
unfoldable pub renew : Option Text → Controller → Option ℕ × Controller
renew desired s = (
  some s.next,
  record s {
    desired = or_desired desired s.desired;
    token = s.next;
    set_events = s.token ∷ s.set_events;
    next = s.next + 1;
  },
)

abbrev pub is_expected : Option ℕ → Controller → Bool
is_expected none s = true
is_expected (some t) s = t == s.token

unfoldable pub request : Option Text → Option ℕ → Controller → Option ℕ × Controller
request desired expected s = if is_expected expected s then renew desired s else (none, s)

unfoldable pub valid : ℕ → Controller → Bool
valid t s = t == s.token && not (is_set s t) && not s.closed

unfoldable pub set_desired : ℕ → Text → Controller → Controller
set_desired t desired s = if valid t s then record s { desired = desired } else s

unfoldable pub check : ℕ → Controller → Result (Unit {0})
check t s = if valid t s then ok tt else err superseded

-- `with controller.transition(token): body`; the body sees the controller and may raise.
unfoldable pub transition :
    {A : Type 0} → ℕ → (Controller → Result A × Controller) → Controller → Result A × Controller
transition t body s =
    if valid t s
    then (let (r, s') = body (record s { busy = true }) in (r, record s' { busy = false }))
    else (err superseded, s)

-- `wait` behind the pause, at the controller that other threads have left
unfoldable pub wait : ℕ → Controller → Bool
wait t s = not (is_set s t) && valid t s

unfoldable pub close : Controller → Controller
close s = record s { closed = true; set_events = s.token ∷ s.set_events }
