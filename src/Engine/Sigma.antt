-- ===== src/Engine/Sigma.antt =====
-- packages/engine/src/engine.ts: the deviation of an amount from the agent's history, in
-- thousandths of a standard deviation, and the integer square root that it divides by.
pub mod Root
pub mod Order
use repayd.Common.{
  ℕ, zero, suc, ◌+◌, ◌-◌, ◌*◌, ◌/◌, Option, none, some, List, [], ◌∷◌, ltb, ◌==◌, if◌then◌else◌,
  length, ℤ, pos, pos_part, ◌-ℤ◌, ◌*ℤ◌,
}

-- while (y < x) { x = y; y = (x + n / x) / 2; }, with the times that its test may still be made; none
-- when these run out before the loop has ended
sqrt_loop : ℕ → ℕ → ℕ → ℕ → Option ℕ
sqrt_loop zero n x y = none
sqrt_loop (suc rounds) n x y =
    let rest = sqrt_loop rounds n y ((y + n / y) / 2) in if ltb y x then rest else some x

-- what sqrtApprox returns, if it does; each round lowers `x`, which starts at `n`
unfoldable pub sqrt_rounds : ℕ → Option ℕ
unfolding sqrt_loop
sqrt_rounds n = let root = sqrt_loop n n n ((n + 1) / 2) in if ltb n 2 then some n else root

abbrev pub root_or_zero : Option ℕ → ℕ
root_or_zero none = 0
root_or_zero (some r) = r

unfoldable pub sqrt_approx : ℕ → ℕ
unfolding sqrt_rounds
sqrt_approx n = root_or_zero (sqrt_rounds n)

sum : ℕ → List ℕ → ℕ
sum acc [] = acc
sum acc (h ∷ hs) = sum (acc + h) hs

-- the square of h - mean, which is a natural number
square_dev : ℕ → ℕ → ℕ
unfolding ◌-ℤ◌ ◌*ℤ◌
square_dev mean h = let d = pos h -ℤ pos mean in pos_part (d *ℤ d)

sum_squares : ℕ → ℕ → List ℕ → ℕ
sum_squares mean sq [] = sq
sum_squares mean sq (h ∷ hs) = sum_squares mean (sq + square_dev mean h) hs

unfoldable pub sigma_deviation : ℕ → List ℕ → Option ℕ
unfolding sum sum_squares square_dev sqrt_approx
sigma_deviation amount history =
    let mean = sum 0 history / length history in
    let variance = sum_squares mean 0 history / length history in
    let std = sqrt_approx variance in
    let dev = if ltb mean amount then amount - mean else mean - amount in
    if ltb (length history) 4 then none else if std == 0 then none else some (dev * 1000 / std)
