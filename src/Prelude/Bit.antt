-- ===== src/Prelude/Bit.antt =====
-- One bit of a number: read by a mask, set by `|` and cleared by `&^`.
use go_capnproto.Prelude.{
  ℕ, zero, suc, ◌-◌, ◌*◌, ◌/◌, ◌%◌, ◌^◌, ◌≤◌, ◌<◌, ◌≡◌, ◌≢◌, arith, ap, ◌∙◌, refl, bit_and, bit_or,
}
use native.Mathlib.Nat.{pow-suc}
use go_capnproto.Prelude.Bits.{bit_and_halves, bit_or_halves, and_not, bit_and-zero}

-- The bit of weight `2 ^ k`.
abbrev pub digit : ℕ → ℕ → ℕ
digit a zero = a % 2
digit a (suc k) = digit (a / 2) k

pub digit-lt : (a k : ℕ) → digit a k < 2
digit-lt a zero = omega arith
digit-lt a (suc k) = digit-lt (a / 2) k

bit_or_none : (a : ℕ) → bit_or a 0 ≡ a
bit_or_none a = within a a (omega arith)
  where
    within : (n a : ℕ) → a ≤ n → bit_or a 0 ≡ a
    within n zero h = omega (arith, bit_or_halves 0 0)
    within zero (suc a) h = absurd (omega arith)
    within (suc n) (suc a) h =
        omega (arith, bit_or_halves (suc a) 0, within n (suc a / 2) (omega arith))

halved : (k : ℕ) → 2 ^ suc k / 2 ≡ 2 ^ k
halved k = omega (arith, pow-suc 2 k)

pub bit_and-digit : (a k : ℕ) → bit_and a (2 ^ k) ≡ digit a k * 2 ^ k
bit_and-digit a zero = omega (arith, bit_and_halves a 1, bit_and-zero (a / 2))
bit_and-digit a (suc k) = omega (
  arith,
  bit_and_halves a (2 ^ suc k),
  ap (bit_and (a / 2)) (halved k),
  bit_and-digit (a / 2) k,
  pow-suc 2 k,
  ap (λ (t : ℕ). digit (a / 2) k * t) (pow-suc 2 k),
)

-- The power is itself a bit of `a`, if that is set.
pub digit_part : (a k : ℕ) → digit a k * 2 ^ k ≤ a
digit_part a zero = omega arith
digit_part a (suc k) =
    omega (arith, digit_part (a / 2) k, ap (λ (t : ℕ). digit (a / 2) k * t) (pow-suc 2 k))

halves_or : (a k : ℕ) → bit_or a (2 ^ suc k) / 2 ≡ bit_or (a / 2) (2 ^ k)
halves_or a k = omega (arith, bit_or_halves a (2 ^ suc k), ap (bit_or (a / 2)) (halved k))

pub digit-bit_or_self : (a k : ℕ) → digit (bit_or a (2 ^ k)) k ≡ 1
digit-bit_or_self a zero = omega (arith, bit_or_halves a 1)
digit-bit_or_self a (suc k) = ap (λ t. digit t k) (halves_or a k) ∙ digit-bit_or_self (a / 2) k

pub digit-bit_or_ne : (a k j : ℕ) → k ≢ j → digit (bit_or a (2 ^ k)) j ≡ digit a j
digit-bit_or_ne a zero zero ne = absurd (ne refl)
digit-bit_or_ne a zero (suc j) ne =
    ap (λ t. digit t j) (omega (arith, bit_or_halves a 1, bit_or_none (a / 2)))
digit-bit_or_ne a (suc k) zero ne = omega (arith, bit_or_halves a (2 ^ suc k), pow-suc 2 k)
digit-bit_or_ne a (suc k) (suc j) ne =
    ap (λ t. digit t j) (halves_or a k) ∙ digit-bit_or_ne (a / 2) k j (λ e. ne (ap suc e))

halves_clear : (a k : ℕ) → (a - digit (a / 2) k * 2 ^ suc k) / 2 ≡ a / 2 - digit (a / 2) k * 2 ^ k
halves_clear a k =
    omega (arith, digit_part (a / 2) k, ap (λ (t : ℕ). digit (a / 2) k * t) (pow-suc 2 k))

digit-clear_self : (a k : ℕ) → digit (a - digit a k * 2 ^ k) k ≡ 0
digit-clear_self a zero = omega arith
digit-clear_self a (suc k) = ap (λ t. digit t k) (halves_clear a k) ∙ digit-clear_self (a / 2) k

digit-clear_ne : (a k j : ℕ) → k ≢ j → digit (a - digit a k * 2 ^ k) j ≡ digit a j
digit-clear_ne a zero zero ne = absurd (ne refl)
digit-clear_ne a zero (suc j) ne = ap (λ t. digit t j) (omega arith)
digit-clear_ne a (suc k) zero ne =
    omega (arith, digit_part (a / 2) k, ap (λ (t : ℕ). digit (a / 2) k * t) (pow-suc 2 k))
digit-clear_ne a (suc k) (suc j) ne =
    ap (λ t. digit t j) (halves_clear a k) ∙ digit-clear_ne (a / 2) k j (λ e. ne (ap suc e))

pub digit-and_not_self : (a k : ℕ) → digit (and_not a (2 ^ k)) k ≡ 0
digit-and_not_self a k = ap (λ t. digit (a - t) k) (bit_and-digit a k) ∙ digit-clear_self a k

pub digit-and_not_ne : (a k j : ℕ) → k ≢ j → digit (and_not a (2 ^ k)) j ≡ digit a j
digit-and_not_ne a k j ne = ap (λ t. digit (a - t) j) (bit_and-digit a k) ∙ digit-clear_ne a k j ne

-- A statement on the eight bits of a byte.
pub below_eight :
    (P : ℕ → Type 0) → P 0 × P 1 × P 2 × P 3 × P 4 × P 5 × P 6 × P 7 → (j : ℕ) → j < 8 → P j
below_eight P (p0, p1, p2, p3, p4, p5, p6, p7) zero h = p0
below_eight P (p0, p1, p2, p3, p4, p5, p6, p7) (suc zero) h = p1
below_eight P (p0, p1, p2, p3, p4, p5, p6, p7) (suc (suc zero)) h = p2
below_eight P (p0, p1, p2, p3, p4, p5, p6, p7) (suc (suc (suc zero))) h = p3
below_eight P (p0, p1, p2, p3, p4, p5, p6, p7) (suc (suc (suc (suc zero)))) h = p4
below_eight P (p0, p1, p2, p3, p4, p5, p6, p7) (suc (suc (suc (suc (suc zero))))) h = p5
below_eight P (p0, p1, p2, p3, p4, p5, p6, p7) (suc (suc (suc (suc (suc (suc zero)))))) h = p6
below_eight P (p0, p1, p2, p3, p4, p5, p6, p7) (suc (suc (suc (suc (suc (suc (suc zero))))))) h = p7
below_eight P all (suc (suc (suc (suc (suc (suc (suc (suc j)))))))) h = absurd (omega arith)
