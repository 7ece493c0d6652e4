-- ===== src/Engine/Policy/Curfew.antt =====
-- The curfew test of packages/engine/src/types.ts, against intervals of the circular day.
use repayd.Common.{ℕ, ◌+◌, ◌-◌, ◌/◌, ◌%◌, ◌<◌, ◌≡◌, ◌≢◌, ◌↔◌, true, arith}
use repayd.Engine.Policy.{Policy, curfew_active, no_curfew}

-- minutes from `s` on to `m`, around the day
abbrev pub minutes_after : ℕ → ℕ → ℕ
minutes_after s m = (m + 1440 - s) % 1440

-- For two distinct minutes of the day as the bounds, the curfew is active exactly when the minute
-- of the day lies in the circular interval from the start up to, and not including, the end.
pub curfew_active_iff :
    (policy : Policy) (timestamp : ℕ)
    → policy.curfew_start_minute < no_curfew
    → policy.curfew_end_minute < no_curfew
    → policy.curfew_start_minute ≢ policy.curfew_end_minute
    → (curfew_active policy timestamp ≡ true) ↔ (
        minutes_after policy.curfew_start_minute (timestamp % 86_400 / 60)
        < minutes_after policy.curfew_start_minute policy.curfew_end_minute)
unfolding curfew_active
curfew_active_iff policy timestamp hs he ne = ground arith
