-- ===== src/Ingest/Label.antt =====
-- attendance_label of ingest.py: what the three labels mean.
use api_dashboard.Prelude.{ℕ, ◌+◌, ◌*◌, ◌<◌, Option, none, some, nat_eq, string_eq}
use api_dashboard.Ingest.Columns.{late_grace_seconds}

-- Both instants are known, and related so.
abbrev pub Known : Option ℕ → Option ℕ → (ℕ → ℕ → Type 0) → Type 0
Known none y P = ⊥
Known (some a) none P = ⊥
Known (some a) (some b) P = (0 < a) × (0 < b) × P a b

-- More than the grace after the start.
abbrev pub Late : Option ℕ → Option ℕ → Type 0
Late first_in start = Known first_in start (λ f c. c + late_grace_seconds < f)

-- Less than half of the lesson.
abbrev pub Short : ℕ → Option ℕ → Option ℕ → Type 0
Short seconds start finish = Known start finish (λ c d. c + 2 * seconds < d)
