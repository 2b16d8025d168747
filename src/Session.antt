-- ===== src/Session.antt =====
-- The Session dataclass of auth.py. Clock readings (`time.time()`) are counted in whole ticks of
-- the clock; `created_at` is the reading at which the session was made.
use api_dashboard.Prelude.{ℕ, String, Option}

pub record Session : Type 0 where
  pub sid : String
  pub secret : String
  pub role : String
  pub user_id : Option ℕ
  pub username : String
  pub branch_id : Option ℕ
  pub teacher_uid : Option ℕ
  pub branch_filter : Option ℕ
  pub created_at : ℕ
