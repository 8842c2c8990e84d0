-- ===== src/Health.antt =====
-- internal/health/heartbeat.go: the loop of `run`. The answers of the probes come as a list, one for
-- the round at the start and one for each tick that arrives before the context is done, so a list
-- is one run of the loop up to its return.
pub mod Transitions
pub mod Preflight
use garage_storage_controlle.Prelude.{
  ℤ, pos, negsuc, ltb_ℤ, Bool, true, false, not, Option, none, some, List, [], ◌∷◌, if◌then◌else◌,
}
use garage_storage_controlle.Errors.{Err}

-- What the loop does in the order in which it does it: `record(isUp)`, and its two log lines.
pub data Event : Type 0 where
  recorded : Bool → Event
  reachable : Event
  unreachable : Err → Event

-- `err == nil`
abbrev pub is_up : Option Err → Bool
is_up none = true
is_up (some _) = false

-- `if isUp != lastUp`, and what it logs
unfoldable pub transition : Bool → Option Err → List Event → List Event
transition last_up none rest = if last_up then rest else reachable ∷ rest
transition last_up (some e) rest = if last_up then unreachable e ∷ rest else rest

-- the loop, from the value of `lastUp`
unfoldable pub rounds : Bool → List (Option Err) → List Event
unfolding transition
rounds last_up [] = []
rounds last_up (e ∷ es) = recorded (is_up e) ∷ transition last_up e (rounds (is_up e) es)

unfoldable pub run : List (Option Err) → List Event
unfolding rounds
run es = rounds true es

-- 30 seconds, in nanoseconds
abbrev default_interval : ℤ
default_interval = pos 30000000000

-- The interval that Run gives to the ticker and to `run`.
unfoldable pub heartbeat_interval : ℤ → ℤ
heartbeat_interval interval = if not (ltb_ℤ (pos 0) interval) then default_interval else interval
