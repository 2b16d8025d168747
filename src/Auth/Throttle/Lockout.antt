-- ===== src/Auth/Throttle/Lockout.antt =====
-- LoginThrottle of auth.py: when an address is locked out, and for how long.
use native.Mathlib.Nat.{div-add-mod, mul_comm, mul-add, mod-lt}
use api_dashboard.Prelude.{
  ℕ, ◌+◌, ◌*◌, ◌-◌, ◌/◌, ◌≤◌, ◌<◌, String, ◌≡◌, ◌≢◌, ◌↔◌, refl, inl, inr, none, List, [], ◌∷◌,
  length, ltb, leb, lookup, get_or, lookup-put, Bool-cases, ==_refl, arith, string_eq,
}
use api_dashboard.Auth.Throttle.{Throttle, locked_for, locked_seconds, record_failure}

-- Failures of one address, at the given readings.
unfoldable pub record_failures : String → List ℕ → Throttle → Throttle
record_failures ip [] t = t
record_failures ip (now ∷ later) t = record_failures ip later (record_failure now ip t)

-- The reading of the last failure.
abbrev pub last_of : ℕ → List ℕ → ℕ
last_of first [] = first
last_of first (now ∷ later) = last_of now later

-- The count and the last reading that are kept for an address.
abbrev pub tally : String → Throttle → ℕ × ℕ
tally ip t = get_or (lookup ip t.failures) (0, 0)

pub record_failure-tally :
    (now : ℕ) (ip : String) (t : Throttle)
    → tally ip (record_failure now ip t) ≡ ((tally ip t).0 + 1, now)
unfolding record_failure
record_failure-tally now ip t = rw (lookup-put, ==_refl ip)

record_failures-tally :
    (ip : String) (now : ℕ) (times : List ℕ) (t : Throttle)
    → tally ip (record_failures ip (now ∷ times) t)
      ≡ ((tally ip t).0 + 1 + length times, last_of now times)
unfolding record_failures
record_failures-tally ip now [] t = rw (record_failure-tally now ip t) (ground arith)
record_failures-tally ip now (later ∷ times) t =
    rw
      (
        record_failures-tally ip later times (record_failure now ip t),
        record_failure-tally now ip t,
      )
      (ground arith)

record_failures-limits :
    (ip : String) (times : List ℕ) (t : Throttle)
    → ((record_failures ip times t).max_failures ≡ t.max_failures)
      × ((record_failures ip times t).lockout_seconds ≡ t.lockout_seconds)
unfolding record_failures record_failure
record_failures-limits ip [] t = (refl, refl)
record_failures-limits ip (now ∷ times) t = record_failures-limits ip times _

module _ (ticks : ℕ) where
  -- An address is locked exactly if its count has reached the limit and the lockout is not over.
  pub locked_iff :
      (now : ℕ) (ip : String) (t : Throttle)
      → ((locked_seconds ticks now ip t).0 ≢ 0)
        ↔ ((t.max_failures ≤ (tally ip t).0) × (now < t.lockout_seconds * ticks + (tally ip t).1))
  unfolding locked_seconds locked_for
  locked_iff now ip t = ground arith

  -- For an address with no failures before, after one failure or more the address is locked
  -- exactly if the failures are at least max_failures and the last of them is less than
  -- lockout_seconds ago.
  pub locked_seconds-failures_iff :
      (now first : ℕ) (times : List ℕ) (ip : String) (t : Throttle)
      → lookup ip t.failures ≡ none
      → ((locked_seconds ticks now ip (record_failures ip (first ∷ times) t)).0 ≢ 0) ↔ (
          (t.max_failures ≤ length (first ∷ times))
          × (now < t.lockout_seconds * ticks + last_of first times))
  locked_seconds-failures_iff now first times ip t e =
      let (limit, lockout) = record_failures-limits ip (first ∷ times) t in
      let kept : tally ip (record_failures ip (first ∷ times) t)
          ≡ (length (first ∷ times), last_of first times) =
        rw (record_failures-tally ip first times t, e) (ground arith) in
      let held = locked_iff now ip (record_failures ip (first ∷ times) t) in
      ground (arith, held, limit, lockout, kept)

  rounded_up : (rest : ℕ) → 0 < ticks → rest ≤ (rest / ticks + 1) * ticks
  rounded_up rest h =
      rw (mul_comm (rest / ticks + 1) ticks, mul-add ticks (rest / ticks) 1)
        (omega (arith, div-add-mod rest ticks, mod-lt rest h))

  -- What is left of the lockout is no more than the seconds that are reported.
  locked_for_lem :
      (now : ℕ) (ip : String) (count last : ℕ) (t : Throttle)
      → 0 < ticks
      → t.max_failures ≤ count
      → t.lockout_seconds * ticks + last ≤ now + (locked_for ticks now ip (count, last) t).0 * ticks
  unfolding locked_for
  locked_for_lem now ip count last t h above =
      let rest = rounded_up (t.lockout_seconds * ticks + last - now) h in
      elim (Bool-cases (ltb count t.max_failures)) [
        | inl e ↦ ground arith
        | inr e ↦ elim (Bool-cases (leb (t.lockout_seconds * ticks + last) now)) [
          | inl over ↦ rw (e, over) (ground arith)
          | inr over ↦ rw (e, over) (omega arith)
        ]
      ]

  -- With a clock of at least one tick a second, an address that waits as many seconds as
  -- locked_seconds reports is not locked any more.
  pub locked_seconds_enough :
      (now : ℕ) (ip : String) (t : Throttle)
      → 0 < ticks
      → (locked_seconds ticks (now + (locked_seconds ticks now ip t).0 * ticks) ip t).0 ≡ 0
  unfolding locked_seconds
  locked_seconds_enough now ip t h =
      let later = now + (locked_seconds ticks now ip t).0 * ticks in
      let held = locked_iff later ip t in
      let waited = locked_for_lem now ip (tally ip t).0 (tally ip t).1 t h in
      ground (arith, held, waited)
