-- ===== src/Base/Divisors.antt =====
-- The greatest common divisor of `fractions.Fraction`, by Euclid's algorithm.
use Prim.Native.Nat.{ℕ, zero, suc, ◌*◌, ◌/◌, ◌%◌, ◌<◌, ◌≤◌, ◌∣◌}
use mathlib.Core.Path.{◌≡◌, sym, ap, ◌∙◌, subst}
use native.Mathlib.Omega.{arith}
use native.Mathlib.Nat.{
  dvd-mod_iff, dvd_refl, dvd-zero, div-mul_cancel, dvd_of_mul-dvd-mul_right, mul-dvd-mul_right,
  pos_of_dvd_of_pos, eq-one_of_dvd-one, one-mul, mul_assoc, mul_comm,
}

abbrev pub euclid : ℕ → ℕ → ℕ → ℕ
euclid fuel a zero = a
euclid zero a (suc b) = a
euclid (suc fuel) a (suc b) = euclid fuel (suc b) (a % suc b)

-- The remainders decrease from `b`, so that as many rounds are enough.
abbrev pub gcd : ℕ → ℕ → ℕ
gcd a b = euclid b a b

euclid-dvd : (fuel a b : ℕ) → b ≤ fuel → (euclid fuel a b ∣ a) × (euclid fuel a b ∣ b)
euclid-dvd fuel a zero h = (dvd_refl a, dvd-zero a)
euclid-dvd zero a (suc b) h = absurd (omega (arith, h))
euclid-dvd (suc fuel) a (suc b) h =
    let (x, y) = euclid-dvd fuel (suc b) (a % suc b) (omega (arith, h)) in
    ((dvd-mod_iff (euclid fuel (suc b) (a % suc b)) x).0 y, x)

euclid_greatest : (d fuel a b : ℕ) → d ∣ a → d ∣ b → d ∣ euclid fuel a b
euclid_greatest d fuel a zero h k = h
euclid_greatest d zero a (suc b) h k = h
euclid_greatest d (suc fuel) a (suc b) h k =
    euclid_greatest d fuel (suc b) (a % suc b) k ((dvd-mod_iff d k).1 h)

pub gcd-dvd : (a b : ℕ) → (gcd a b ∣ a) × (gcd a b ∣ b)
gcd-dvd a b = euclid-dvd b a b (omega arith)

pub gcd_greatest : (d a b : ℕ) → d ∣ a → d ∣ b → d ∣ gcd a b
gcd_greatest d a b h k = euclid_greatest d b a b h k

-- Two numbers over their greatest common divisor have the same proportion.
pub gcd_proportion : (a b : ℕ) → a / gcd a b * b ≡ a * (b / gcd a b)
gcd_proportion a b =
    let (x, y) = gcd-dvd a b in
    let left = div-mul_cancel (gcd a b) x in
    let right = div-mul_cancel (gcd a b) y in
    ap (λ n. a / gcd a b * n) (sym right)
    ∙ ap (λ n. a / gcd a b * n) (mul_comm (b / gcd a b) (gcd a b))
    ∙ sym (mul_assoc (a / gcd a b) (gcd a b) (b / gcd a b))
    ∙ ap (λ n. n * (b / gcd a b)) left

-- They have no common divisor but 1.
pub gcd_reduced : (d a b : ℕ) → 0 < b → d ∣ a / gcd a b → d ∣ b / gcd a b → d ≡ 1
gcd_reduced d a b h x y =
    let (p, q) = gcd-dvd a b in
    let left : d * gcd a b ∣ a =
      subst (λ n. d * gcd a b ∣ n) (div-mul_cancel (gcd a b) p) (mul-dvd-mul_right d x (gcd a b)) in
    let right : d * gcd a b ∣ b =
      subst (λ n. d * gcd a b ∣ n) (div-mul_cancel (gcd a b) q) (mul-dvd-mul_right d y (gcd a b)) in
    let both : d * gcd a b ∣ 1 * gcd a b =
      subst (λ n. d * gcd a b ∣ n) (sym (one-mul (gcd a b)))
        (gcd_greatest (d * gcd a b) a b left right) in
    eq-one_of_dvd-one (dvd_of_mul-dvd-mul_right d (pos_of_dvd_of_pos q h) both)
