-- ===== src/Json.antt =====
-- JSON values, as `json.loads` gives them to the program: the payload of a webhook. `R` is the
-- type of Python's floats, which the model takes as a parameter.
use api_dashboard.Prelude.{ℕ, String, Bool, Option, none, some, ◌==◌, string_eq, if◌then◌else◌}

-- `negsuc n` is -(n + 1).
pub data ℤ : Type 0 where
  pos : ℕ → ℤ
  negsuc : ℕ → ℤ

mutual
  pub data Json (R : Type 0) : Type 0 where
    null : Json R
    bool : Bool → Json R
    int : ℤ → Json R
    real : R → Json R
    str : String → Json R
    arr : Items R → Json R
    obj : Fields R → Json R

  pub data Items (R : Type 0) : Type 0 where
    nil : Items R
    cons : Json R → Items R → Items R

  pub data Fields (R : Type 0) : Type 0 where
    end : Fields R
    field : String → Json R → Fields R → Fields R

module _ {R : Type 0} where
  -- `d.get(key)` on a dict; a dict holds a key once.
  unfoldable pub lookup : String → Fields R → Option (Json R)
  lookup k end = none
  lookup k (field j v fs) = if j == k then some v else lookup k fs

  -- `raw.get(key)` where `raw` is a dict; none for a missing key and for any other value.
  unfoldable pub get : String → Json R → Option (Json R)
  unfolding lookup
  get k (obj fs) = lookup k fs
  get k v = none
