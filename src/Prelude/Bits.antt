-- ===== src/Prelude/Bits.antt =====
-- The bits of a machine word. The native `bit_and` and `bit_or` compute at numerals only; the
-- laws here describe them at variables, bit by bit, for the masks that shift and test operators
-- build: `1 << k`, `!(1 << k)` in 64 bits and `(1 << k) - 1`.
use Prim.Native.Nat.{
  ℕ, zero, suc, ◌+◌, ◌-◌, ◌*◌, ◌/◌, ◌%◌, ◌^◌, ◌≤◌, ◌<◌, min, max, bit_and, bit_or, digits,
  bit_and-bitwise, bit_or-bitwise,
}
use mathlib.Core.Path.{◌≡◌, refl, sym, ap, ◌∙◌}
use native.Mathlib.Omega.{arith}
use native.Mathlib.Nat.{two-pow-succ}
use udp2raw_ng.Prelude.Tests.{◌==◌, if◌then◌else◌, ltb}

-- The recursion behind both operations needs no more steps than the first number says.
module _ (rest : ℕ → ℕ) (op : ℕ → ℕ → ℕ) where
  steps_enough : (s t x y : ℕ) → x ≤ t → x ≤ s → digits rest op s x y ≡ digits rest op t x y
  steps_enough (suc s) (suc t) (suc x) y below above =
      let next = steps_enough s t (suc x / 2) (y / 2) (omega arith) (omega arith) in
      ap (λ (upper : ℕ). upper * 2 + op (suc x % 2) (y % 2)) next
  steps_enough zero zero x y below above = refl
  steps_enough zero (suc t) zero y below above = refl
  steps_enough (suc s) zero zero y below above = refl
  steps_enough (suc s) (suc t) zero y below above = refl
  steps_enough zero (suc t) (suc x) y below above = absurd (omega arith)
  steps_enough (suc s) zero (suc x) y below above = absurd (omega arith)

  halves :
      (x y : ℕ)
      → digits rest op (suc x) (suc x) y
        ≡ digits rest op (suc x / 2) (suc x / 2) (y / 2) * 2 + op (suc x % 2) (y % 2)
  halves x y =
      ap (λ (upper : ℕ). upper * 2 + op (suc x % 2) (y % 2))
        (steps_enough x (suc x / 2) (suc x / 2) (y / 2) (omega arith) (omega arith))

bit_and_step : (a b : ℕ) → bit_and a b ≡ bit_and (a / 2) (b / 2) * 2 + min (a % 2) (b % 2)
bit_and_step zero b = omega (arith, bit_and-bitwise 0 b, bit_and-bitwise 0 (b / 2))
bit_and_step (suc x) y =
    bit_and-bitwise (suc x) y
    ∙ halves (λ n. zero) min x y
    ∙ ap (λ (upper : ℕ). upper * 2 + min (suc x % 2) (y % 2))
        (sym (bit_and-bitwise (suc x / 2) (y / 2)))

bit_or_step : (a b : ℕ) → bit_or a b ≡ bit_or (a / 2) (b / 2) * 2 + max (a % 2) (b % 2)
bit_or_step zero b = omega (arith, bit_or-bitwise 0 b, bit_or-bitwise 0 (b / 2))
bit_or_step (suc x) y =
    bit_or-bitwise (suc x) y
    ∙ halves (λ n. n) max x y
    ∙ ap (λ (upper : ℕ). upper * 2 + max (suc x % 2) (y % 2))
        (sym (bit_or-bitwise (suc x / 2) (y / 2)))

-- Bit `k` of a word, as 0 or 1.
unfoldable pub bit : ℕ → ℕ → ℕ
bit w zero = w % 2
bit w (suc k) = bit (w / 2) k

pub bit-le-one : (w k : ℕ) → bit w k ≤ 1
unfolding bit
bit-le-one w zero = omega arith
bit-le-one w (suc k) = bit-le-one (w / 2) k

pub bit-zero : (k : ℕ) → bit 0 k ≡ 0
unfolding bit
bit-zero zero = refl
bit-zero (suc k) = bit-zero k

pub bit-bit_and : (a b k : ℕ) → bit (bit_and a b) k ≡ min (bit a k) (bit b k)
unfolding bit
bit-bit_and a b zero = omega (arith, bit_and_step a b)
bit-bit_and a b (suc k) =
    let half : bit_and a b / 2 ≡ bit_and (a / 2) (b / 2) = omega (arith, bit_and_step a b) in
    rw half (bit-bit_and (a / 2) (b / 2) k)

pub bit-bit_or : (a b k : ℕ) → bit (bit_or a b) k ≡ max (bit a k) (bit b k)
unfolding bit
bit-bit_or a b zero = omega (arith, bit_or_step a b)
bit-bit_or a b (suc k) =
    let half : bit_or a b / 2 ≡ bit_or (a / 2) (b / 2) = omega (arith, bit_or_step a b) in
    rw half (bit-bit_or (a / 2) (b / 2) k)

pub pow_pos : (n : ℕ) → 0 < 2 ^ n
pow_pos zero = omega arith
pow_pos (suc n) = omega (arith, two-pow-succ n, pow_pos n)

half_pow : (k : ℕ) → 2 ^ suc k / 2 ≡ 2 ^ k
half_pow k = omega (arith, two-pow-succ k)

pub bit-pow : (k j : ℕ) → bit (2 ^ k) j ≡ (if k == j then 1 else 0)
unfolding bit
bit-pow zero zero = refl
bit-pow zero (suc j) = ground (arith, bit-zero j)
bit-pow (suc k) zero = ground (arith, two-pow-succ k)
bit-pow (suc k) (suc j) = rw half_pow (ground (arith, bit-pow k j))

-- The complement within `n` bits.
pub bit-complement : (n w k : ℕ) → w < 2 ^ n → k < n → bit (2 ^ n - 1 - w) k ≡ 1 - bit w k
unfolding bit
bit-complement zero w k h lt = absurd (omega arith)
bit-complement (suc n) w zero h lt = omega (arith, two-pow-succ n)
bit-complement (suc n) w (suc k) h lt =
    let half : (2 ^ suc n - 1 - w) / 2 ≡ 2 ^ n - 1 - w / 2 = omega (arith, two-pow-succ n) in
    rw half (bit-complement n (w / 2) k (omega (arith, two-pow-succ n)) (omega arith))

-- The mask of the lowest `n` bits.
pub bit-mask : (n k : ℕ) → bit (2 ^ n - 1) k ≡ (if ltb k n then 1 else 0)
unfolding bit
bit-mask zero k = ground (arith, bit-zero k)
bit-mask (suc n) zero = ground (arith, two-pow-succ n, pow_pos n)
bit-mask (suc n) (suc k) =
    let half : (2 ^ suc n - 1) / 2 ≡ 2 ^ n - 1 = omega (arith, two-pow-succ n) in
    rw half (ground (arith, bit-mask n k))

-- `w & (1 << k) != 0` tests bit `k`.
pub bit_and-pow : (w k : ℕ) → bit_and w (2 ^ k) ≡ bit w k * 2 ^ k
unfolding bit
bit_and-pow w zero = omega (arith, bit_and_step w 1, nothing_left (w / 2) (w / 2) (omega arith))
  where
    nothing_left : (bound x : ℕ) → x ≤ bound → bit_and x 0 ≡ 0
    nothing_left (suc bound) (suc x) below =
        omega (arith, nothing_left bound (suc x / 2) (omega arith), bit_and_step (suc x) 0)
    nothing_left zero (suc x) below = absurd (omega arith)
    nothing_left bound zero below = refl
bit_and-pow w (suc k) =
    let rest : bit_and (w / 2) (2 ^ suc k / 2) ≡ bit (w / 2) k * 2 ^ k =
      rw (half_pow k) (bit_and-pow (w / 2) k) in
    omega (
      arith,
      bit_and_step w (2 ^ suc k),
      two-pow-succ k,
      rest,
      ap (λ (t : ℕ). bit (w / 2) k * t) (two-pow-succ k),
    )
