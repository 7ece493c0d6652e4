-- ===== src/Engine/Sigma/Order.antt =====
-- The deviation of packages/engine/src/engine.ts does not depend on the order of the history.
use mathlib.Core.List.{Permᴰ}
use repayd.Common.{ℕ, suc, ◌+◌, ◌≡◌, refl, ap, ◌∙◌, List, arith, length}
use repayd.Engine.Sigma.{sum, sum_squares, square_dev, sigma_deviation}

sum_perm : (acc : ℕ) {xs ys : List ℕ} → Permᴰ xs ys → sum acc xs ≡ sum acc ys
unfolding sum
sum_perm acc Permᴰ.nil = refl
sum_perm acc (Permᴰ.cons {a = a} {b = b} e p) = rw e (sum_perm (acc + b) p)
sum_perm acc (Permᴰ.swap {a = a} {b = b} {l = l} e f) =
    rw (← e, ← f) (ap (λ s. sum s l) (omega arith))
sum_perm acc (Permᴰ.trans p q) = sum_perm acc p ∙ sum_perm acc q

sum_squares_perm :
    (mean sq : ℕ) {xs ys : List ℕ} → Permᴰ xs ys → sum_squares mean sq xs ≡ sum_squares mean sq ys
unfolding sum_squares
sum_squares_perm mean sq Permᴰ.nil = refl
sum_squares_perm mean sq (Permᴰ.cons {a = a} {b = b} e p) =
    rw e (sum_squares_perm mean (sq + square_dev mean b) p)
sum_squares_perm mean sq (Permᴰ.swap {a = a} {b = b} {l = l} e f) =
    rw (← e, ← f) (ap (λ s. sum_squares mean s l) (omega arith))
sum_squares_perm mean sq (Permᴰ.trans p q) = sum_squares_perm mean sq p ∙ sum_squares_perm mean sq q

length_perm : {xs ys : List ℕ} → Permᴰ xs ys → length xs ≡ length ys
length_perm Permᴰ.nil = refl
length_perm (Permᴰ.cons e p) = ap suc (length_perm p)
length_perm (Permᴰ.swap e f) = refl
length_perm (Permᴰ.trans p q) = length_perm p ∙ length_perm q

-- Two histories that hold the same amounts, in whatever order, give every amount the same deviation.
pub sigma_deviation_perm :
    (amount : ℕ) {xs ys : List ℕ}
    → Permᴰ xs ys
    → sigma_deviation amount xs ≡ sigma_deviation amount ys
unfolding sigma_deviation
sigma_deviation_perm amount p = rw (sum_perm 0 p, length_perm p, sum_squares_perm _ 0 p)
