-- ===== src/Guards.antt =====
-- The guards of include/kclpp and src/kclpp that end something when they are destroyed: UniqueToken.cpp,
-- ScopeGuard.cpp and APIGuard.cpp, each with its move constructor and its move assignment; and the objects
-- that let something happen once, JustOnce.cpp and ThreadBaton.cpp. Functions have numbers.
pub mod Ownership
pub mod Times
use kclpp.Prelude.{
  ℕ, suc, ◌+◌, ◌-◌, ◌*◌, ◌/◌, ◌%◌, String, Bool, true, false, ◌&&◌, not, Option, none, some, List,
  [], ◌∷◌, if◌then◌else◌,
}
use kclpp.Outcome.{Outcome, success, failure}

pub record UniqueToken : Type 0 where
  pub value : Bool

abbrev pub marked : UniqueToken → UniqueToken
marked t = record t { value = true }

abbrev pub cleared : UniqueToken → UniqueToken
cleared t = record t { value = false }

-- the move constructor: the new token and the other one
unfoldable pub move_token : UniqueToken → UniqueToken × UniqueToken
move_token other = (record { value = other.value }, record other { value = false })

-- move assignment swaps
unfoldable pub assign_token : UniqueToken → UniqueToken → UniqueToken × UniqueToken
assign_token t other = (record t { value = other.value }, record other { value = t.value })

-- `func` is none where it was moved from
pub record ScopeGuard : Type 0 where
  pub func : Option ℕ
  pub token : UniqueToken
  pub dismissed : Bool

abbrev pub make_guard : ℕ → ScopeGuard
make_guard f = record {
  func = some f;
  token = marked (record { value = false });
  dismissed = false;
}

unfoldable pub move_guard : ScopeGuard → ScopeGuard × ScopeGuard
unfolding move_token
move_guard other =
    let (t, t') = move_token other.token in
    (
      record { func = other.func; token = t; dismissed = other.dismissed },
      record other { func = none; token = t' },
    )

unfoldable pub assign_guard : ScopeGuard → ScopeGuard → ScopeGuard × ScopeGuard
unfolding assign_token
assign_guard g other =
    let (t, t') = assign_token g.token other.token in
    (
      record { func = other.func; token = t; dismissed = other.dismissed },
      record { func = g.func; token = t'; dismissed = g.dismissed },
    )

-- the DCHECK wants the token
unfoldable pub dismiss : ScopeGuard → Option ScopeGuard
dismiss g = if g.token.value then some (record g { dismissed = true }) else none

-- the function that the destructor calls, if it calls one
unfoldable pub destroy_guard : ScopeGuard → Option ℕ
destroy_guard g = if g.token.value && not g.dismissed then g.func else none

-- `options` has a number
pub record ApiGuard : Type 0 where
  pub options : ℕ
  pub active : Bool

-- whether `Aws::InitAPI` is called, and the guard
unfoldable pub init : ApiGuard → Bool × ApiGuard
init g = if g.active then (false, g) else (true, record g { active = true })

-- `APIGuardFactory::build`; `built_` is neither read nor set
unfoldable pub build : ℕ → Bool × ApiGuard
unfolding init
build options = init (record { options = options; active = false })

unfoldable pub move_api : ApiGuard → ApiGuard × ApiGuard
move_api other =
    (record { options = other.options; active = other.active }, record other { active = false })

unfoldable pub assign_api : ApiGuard → ApiGuard → ApiGuard × ApiGuard
assign_api g other = (
  record { options = other.options; active = other.active },
  record { options = g.options; active = g.active },
)

-- whether the destructor calls `Aws::ShutdownAPI`
unfoldable pub destroy_api : ApiGuard → Bool
destroy_api g = g.active

pub record JustOnce : Type 0 where
  pub ran : Bool

-- whether the function is called, which is the answer, and the object
unfoldable pub run_once : JustOnce → Bool × JustOnce
run_once o = if not o.ran then (true, record o { ran = true }) else (false, o)

-- The flag; the threads that wait on the condition variable are left out.
pub record ThreadBaton : Type 0 where
  pub posted : Bool

unfoldable pub do_post : ThreadBaton → Outcome ThreadBaton String
do_post b = if b.posted then failure "AlreadyPosted" else success (record b { posted = true })

-- src/kclpp/TimerSettings.cpp: `toTimeVal`, of an interval in milliseconds
pub record TimeVal : Type 0 where
  pub tv_sec : ℕ
  pub tv_usec : ℕ

unfoldable pub to_time_val : ℕ → TimeVal
to_time_val msec = record { tv_sec = msec / 1000; tv_usec = msec % 1000 * 1000 }
