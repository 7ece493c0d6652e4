-- ===== src/Engine/Policy/Payout.antt =====
-- The payout formula of packages/engine/src/types.ts, against the loss and the cap.
use native.Mathlib.Nat.{mul-le-mul, le_refl}
use repayd.Common.{ℕ, ◌-◌, ◌*◌, ◌/◌, ◌≤◌, ◌≡◌, arith, pos, min}
use repayd.Engine.Policy.{compute_payout}

share-le : (loss bps : ℕ) → loss * (10_000 - bps) / 10_000 ≤ loss
share-le loss bps =
    let fits : 10_000 - bps ≤ 10_000 = omega arith in omega (arith, mul-le-mul (le_refl loss) fits)

-- With a deductible of at most 10000 basis points the payout is the lesser of the cap and the loss
-- less its deductible, rounded down; it is not negative and exceeds neither the loss nor the cap.
pub compute_payout_lem :
    (loss bps cap : ℕ)
    → bps ≤ 10_000
    → let paid = min cap (loss * (10_000 - bps) / 10_000) in
      (compute_payout loss bps cap ≡ pos paid) × (paid ≤ loss) × (paid ≤ cap)
unfolding compute_payout
compute_payout_lem loss bps cap h = ground (arith, share-le loss bps)
