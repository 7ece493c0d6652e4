-- ===== src/Engine/Sigma/Root.antt =====
-- The Newton iteration of packages/engine/src/engine.ts computes the integer square root.
use mathlib.Core.Path.{subst}
use native.Mathlib.Nat.{mul-le-mul, div_self}
use native.Mathlib.Decide.{dec_le}
use repayd.Common.{
  ℕ, zero, suc, ◌+◌, ◌-◌, ◌*◌, ◌/◌, ◌≤◌, ◌<◌, ◌≡◌, refl, sym, ap, ◌∙◌, Option, some, arith, ltb,
  Bool-cases, inl, inr, ltb→lt, ltb→le,
}
use repayd.Engine.Sigma.{sqrt_loop, sqrt_rounds, root_or_zero, sqrt_approx}

spread-le : (a d : ℕ) → 4 * (a * (a + d)) ≤ (a + (a + d)) * (a + (a + d))
spread-le a d = omega arith

-- the inequality of the arithmetic and the geometric mean
four_mul-le-square : (a b : ℕ) → 4 * (a * b) ≤ (a + b) * (a + b)
four_mul-le-square a b = elim (dec_le a b) [
  | yes h ↦ let e : b ≡ a + (b - a) = omega arith in rw e (spread-le a (b - a))
  | no h ↦ let e : a ≡ b + (a - b) = omega arith in rw e (omega (arith, spread-le b (a - b)))
]

-- one Newton step from any positive guess does not fall below the root
step_above : (n x : ℕ) → 0 < x → n < ((x + n / x) / 2 + 1) * ((x + n / x) / 2 + 1)
step_above n x h =
    let q = n / x in
    let y = (x + q) / 2 in
    let small : n < x * (q + 1) = omega arith in
    let near : x + (q + 1) ≤ 2 * (y + 1) = omega arith in
    omega (arith, four_mul-le-square x (q + 1), mul-le-mul near near)

-- the exit test: a guess that does not improve is not above the root
exit_below : (n x : ℕ) → 0 < x → x ≤ (x + n / x) / 2 → x * x ≤ n
exit_below n x h stop =
    let q = n / x in
    let big : x ≤ q = omega arith in
    let under : x * q ≤ n = omega arith in omega (arith, mul-le-mul (le_self x) big)
  where
    le_self : (m : ℕ) → m ≤ m
    le_self m = omega arith

step_pos : (n x : ℕ) → 0 < n → 0 < x → 0 < (x + n / x) / 2
step_pos n x hn hx = grind (arith, step_above n x hx)

abbrev pub IsRoot : ℕ → ℕ → Type 0
IsRoot n r = (r * r ≤ n) × (n < (r + 1) * (r + 1))

-- the loop has ended, at the root
abbrev EndsAtRoot : ℕ → Option ℕ → Type 0
EndsAtRoot n o = (r : ℕ) × (o ≡ some r) × IsRoot n r

sqrt_loop-EndsAtRoot :
    (rounds n x : ℕ)
    → 0 < n
    → 0 < x
    → x ≤ rounds
    → n < (x + 1) * (x + 1)
    → EndsAtRoot n (sqrt_loop rounds n x ((x + n / x) / 2))
unfolding sqrt_loop
sqrt_loop-EndsAtRoot zero n x hn hx fuel above = absurd (omega arith)
sqrt_loop-EndsAtRoot (suc rounds) n x hn hx fuel above =
    let y = (x + n / x) / 2 in
    elim (Bool-cases (ltb y x)) [
      | inl lower ↦ rw lower (
          sqrt_loop-EndsAtRoot rounds n y hn (step_pos n x hn hx) (omega (arith, ltb→lt y x lower))
            (step_above n x hx))
      | inr stop ↦ rw stop (x, refl, (exit_below n x hx (ltb→le y x stop), above))
    ]

sqrt_rounds-EndsAtRoot : (n : ℕ) → EndsAtRoot n (sqrt_rounds n)
unfolding sqrt_rounds
sqrt_rounds-EndsAtRoot n = elim (Bool-cases (ltb n 2)) [
  | inl small ↦ rw small (n, refl, grind (arith, ltb→lt n 2 small))
  | inr large ↦
      let two : 2 ≤ n = ltb→le n 2 large in
      let one : n / n ≡ 1 = div_self (omega arith) in
      rw large (
        rw one at
          (sqrt_loop-EndsAtRoot n n n (omega arith) (omega arith) (omega arith) (grind arith)))
]

-- For every n the iteration ends, after at most n tests of its condition, and what sqrtApprox returns
-- is the integer square root of n.
pub sqrt_approx-IsRoot : (n : ℕ) → (sqrt_rounds n ≡ some (sqrt_approx n)) × IsRoot n (sqrt_approx n)
unfolding sqrt_approx
sqrt_approx-IsRoot n =
    let (r, ended, root) = sqrt_rounds-EndsAtRoot n in
    (
      ended ∙ ap (λ o. some (root_or_zero o)) (sym ended),
      subst (IsRoot n) (ap root_or_zero (sym ended)) root,
    )
