-- ===== src/Base/Bits.antt =====
-- `|` and `&` of the source as arithmetic.
use Prim.Native.Nat.{ℕ, zero, suc, ◌+◌, ◌*◌, ◌/◌, ◌%◌, ◌^◌, ◌≤◌, ◌<◌, max, digits}
use Prim.Native.Nat.{bit_and, bit_or, bit_or-bitwise}
use mathlib.Core.Path.{◌≡◌, refl, ap, ◌∙◌}
use mathlib.Core.Bool.{Bool, true, ◌&&◌}
use native.Mathlib.Nat.{pow-suc, le_refl}
use native.Mathlib.Omega.{arith}
use libdwarfpp.Base.Tests.{◌==◌, ==_iff}

mul-pow-suc : (b k : ℕ) → b * 2 ^ suc k ≡ 2 * (b * 2 ^ k)
mul-pow-suc b k = omega (arith, ap (λ (t : ℕ). b * t) (pow-suc 2 k))

or_digits : (k n a b : ℕ) → a ≤ n → a < 2 ^ k → digits (λ y. y) max n a (b * 2 ^ k) ≡ a + b * 2 ^ k
or_digits k zero zero b p h = omega arith
or_digits k zero (suc a) b p h = absurd (omega arith)
or_digits k (suc n) zero b p h = omega arith
or_digits zero (suc n) (suc a) b p h = absurd (omega arith)
or_digits (suc k) (suc n) (suc a) b p h =
    let half : b * 2 ^ suc k / 2 ≡ b * 2 ^ k = omega (arith, mul-pow-suc b k) in
    let even : b * 2 ^ suc k % 2 ≡ 0 = omega (arith, mul-pow-suc b k) in
    let low : suc a / 2 < 2 ^ k = omega (arith, pow-suc 2 k) in
    rw (half, even) (omega (arith, mul-pow-suc b k, or_digits k n (suc a / 2) b (omega arith) low))

-- `a | b << k` is a sum where `a` fits k bits.
pub bit_or-shl : (k a b : ℕ) → a < 2 ^ k → bit_or a (b * 2 ^ k) ≡ a + b * 2 ^ k
bit_or-shl k a b h = bit_or-bitwise a (b * 2 ^ k) ∙ or_digits k a a b (le_refl a) h

digits_zero : (n m : ℕ) → m ≤ n → digits (λ y. y) max n m 0 ≡ m
digits_zero zero zero p = refl
digits_zero zero (suc m) p = absurd (omega arith)
digits_zero (suc n) zero p = refl
digits_zero (suc n) (suc m) p = omega (arith, digits_zero n (suc m / 2) (omega arith))

high_digits :
    (k n m a b : ℕ) → m ≡ a * 2 ^ k → m ≤ n → b < 2 ^ k → digits (λ y. y) max n m b ≡ m + b
high_digits k zero zero a b e p h = omega arith
high_digits k zero (suc m) a b e p h = absurd (omega arith)
high_digits k (suc n) zero a b e p h = omega arith
high_digits zero (suc n) (suc m) a b e p h =
    let none : b ≡ 0 = omega arith in rw none (omega (arith, digits_zero (suc n) (suc m) p))
high_digits (suc k) (suc n) (suc m) a b e p h =
    let half : suc m / 2 ≡ a * 2 ^ k = omega (arith, mul-pow-suc a k) in
    let even : suc m % 2 ≡ 0 = omega (arith, mul-pow-suc a k) in
    omega
      (arith, high_digits k n (suc m / 2) a (b / 2) half (omega arith) (omega (arith, pow-suc 2 k)))

-- `m | b` is a sum where `m` is a multiple of 2 ^ k and `b` fits k bits.
pub bit_or-high : (k m a b : ℕ) → m ≡ a * 2 ^ k → b < 2 ^ k → bit_or m b ≡ m + b
bit_or-high k m a b e h = bit_or-bitwise m b ∙ high_digits k m m a b e (le_refl m) h

-- A fact about every number below `n`, checked by evaluation.
holds_below : ℕ → (ℕ → Bool) → Bool
holds_below zero p = true
holds_below (suc n) p = p n && holds_below n p

holds_below_at : (n : ℕ) (p : ℕ → Bool) (x : ℕ) → holds_below n p ≡ true → x < n → p x ≡ true
unfolding holds_below
holds_below_at zero p x e h = absurd (omega arith)
holds_below_at (suc n) p x e h = ground (arith, holds_below_at n p x)

module _ (f g : ℕ → ℕ) where
  byte_table : holds_below 256 (λ x. f x == g x) ≡ true → (b : ℕ) → b < 256 → f b ≡ g b
  byte_table e b h = (==_iff (f b) (g b)).0 (holds_below_at 256 (λ x. f x == g x) b e h)

pub bit_and_0x7f : (b : ℕ) → b < 256 → bit_and b 0x7f ≡ b % 128
unfolding holds_below
bit_and_0x7f = byte_table (λ b. bit_and b 0x7f) (λ b. b % 128) refl

pub bit_and_0x80 : (b : ℕ) → b < 256 → bit_and b 0x80 ≡ b / 128 * 128
unfolding holds_below
bit_and_0x80 = byte_table (λ b. bit_and b 0x80) (λ b. b / 128 * 128) refl

pub bit_and_0x3f : (b : ℕ) → b < 256 → bit_and b 0x3f ≡ b % 64
unfolding holds_below
bit_and_0x3f = byte_table (λ b. bit_and b 0x3f) (λ b. b % 64) refl

pub bit_and_0xc0 : (b : ℕ) → b < 256 → bit_and b 0xc0 ≡ b / 64 * 64
unfolding holds_below
bit_and_0xc0 = byte_table (λ b. bit_and b 0xc0) (λ b. b / 64 * 64) refl

pub bit_and_0x0f : (b : ℕ) → b < 256 → bit_and b 0x0f ≡ b % 16
unfolding holds_below
bit_and_0x0f = byte_table (λ b. bit_and b 0x0f) (λ b. b % 16) refl
