-- ===== src/Python.antt =====
-- What the model takes as a parameter of Python itself: its floats, and conversions between
-- numbers, texts and JSON values. Their text forms are never taken apart by the program.
use api_dashboard.Prelude.{ℕ, String, Bool, Option}
use api_dashboard.Json.{Json}

pub record Python (R : Type 0) : Type 0 where
  -- float(n), and bool(x) of a float
  pub float : ℕ → R
  pub nonzero : R → Bool
  -- x / y, x * y and round(x, digits)
  pub div : R → R → R
  pub mul : R → R → R
  pub round : R → ℕ → R
  -- float(v), and int(v) for a uid; none where Python raises TypeError or ValueError
  pub to_float : Json R → Option R
  pub to_int : Json R → Option ℕ
  -- str(n) of a number, and str(v) of a JSON value
  pub str : ℕ → String
  pub str_of : Json R → String
  -- datetime.fromtimestamp(ts, tz=timezone.utc).isoformat()
  pub iso : ℕ → String
