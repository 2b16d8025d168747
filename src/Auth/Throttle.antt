-- ===== src/Auth/Throttle.antt =====
-- LoginThrottle of auth.py: for each address the failures in a row and the reading of the last.
pub mod Lockout
use api_dashboard.Prelude.{
  ℕ, ◌+◌, ◌*◌, ◌-◌, ◌/◌, String, Option, none, some, List, [], ltb, leb, lookup, put, erase, get_or,
  string_eq, if◌then◌else◌,
}

abbrev pub Failures : Type 0
Failures = List (String × (ℕ × ℕ))

pub record Throttle : Type 0 where
  pub max_failures : ℕ
  pub lockout_seconds : ℕ
  pub failures : Failures

-- LoginThrottle()
abbrev pub fresh : Throttle
fresh = record { max_failures = 5; lockout_seconds = 60; failures = [] }

module _ (ticks : ℕ) where
  -- `remaining` is what is left of the lockout, in ticks; int(remaining) + 1 is in seconds.
  unfoldable pub locked_for : ℕ → String → ℕ × ℕ → Throttle → ℕ × Throttle
  locked_for now ip (count, last) t =
      if ltb count t.max_failures
      then (0, t)
      else if leb (t.lockout_seconds * ticks + last) now
      then (0, record t { failures = erase ip t.failures })
      else ((t.lockout_seconds * ticks + last - now) / ticks + 1, t)

  unfoldable pub locked_seconds : ℕ → String → Throttle → ℕ × Throttle
  locked_seconds now ip t = locked_for now ip (get_or (lookup ip t.failures) (0, 0)) t

unfoldable pub record_failure : ℕ → String → Throttle → Throttle
record_failure now ip t = record t {
  failures = put ip ((get_or (lookup ip t.failures) (0, 0)).0 + 1, now) t.failures;
}

unfoldable pub reset : String → Throttle → Throttle
reset ip t = record t { failures = erase ip t.failures }
