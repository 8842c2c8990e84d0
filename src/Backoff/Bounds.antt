-- ===== src/Backoff/Bounds.antt =====
-- The interval that ownerSecretBackoff returns, for every age.
use garage_storage_controlle.Prelude.{ℕ, ltb, if◌then◌else◌}

-- the lesser of the scaled base and the cap
abbrev capped : ℕ → ℕ → ℕ
capped v max_interval = if ltb max_interval v then max_interval else v
