-- ===== src/Base/Bits.antt =====
-- `&` and `|` on words that are read as a low part of `k` bits and a high part.
use Prim.Native.Nat.{
  ℕ, zero, suc, ◌+◌, ◌-◌, ◌*◌, ◌/◌, ◌%◌, ◌^◌, ◌≤◌, ◌<◌, min, max, bit_and, bit_or, digits, bitwise,
  bit_and-bitwise, bit_or-bitwise,
}
use mathlib.Core.Path.{◌≡◌, refl}
use native.Mathlib.Nat.{le_refl, pow-succ', one-mul, zero-add}
use native.Mathlib.Omega.{arith}

module _ (rest : ℕ → ℕ) (bit : ℕ → ℕ → ℕ) where
  -- Any fuel that reaches the first operand gives the operation itself; `bound` is for the recursion.
  digits-bitwise :
      (bound fuel a b : ℕ)
      → fuel ≤ bound
      → a ≤ fuel
      → digits rest bit fuel a b ≡ bitwise rest bit a b
  digits-bitwise bound zero zero b within enough = refl
  digits-bitwise bound zero (suc a) b within enough = absurd (omega arith)
  digits-bitwise bound (suc fuel) zero b within enough = refl
  digits-bitwise zero (suc fuel) (suc a) b within enough = absurd (omega arith)
  digits-bitwise (suc bound) (suc fuel) (suc a) b within enough =
      let half = suc a / 2 in
      let given = digits-bitwise bound fuel half (b / 2) (omega arith) (omega arith) in
      let own = digits-bitwise bound a half (b / 2) (omega arith) (omega arith) in
      omega (arith, given, own)

  -- The lowest digit of a positive operand.
  lowest :
      (a b : ℕ)
      → 0 < a
      → bitwise rest bit a b ≡ bitwise rest bit (a / 2) (b / 2) * 2 + bit (a % 2) (b % 2)
  lowest zero b pos = absurd (omega arith)
  lowest (suc a) b pos =
      omega (arith, digits-bitwise a a (suc a / 2) (b / 2) (omega arith) (omega arith))

bit_or-lowest : (b a : ℕ) → bit_or a b ≡ bit_or (a / 2) (b / 2) * 2 + max (a % 2) (b % 2)
bit_or-lowest b zero = rw (bit_or-bitwise 0 b, bit_or-bitwise 0 (b / 2)) (omega arith)
bit_or-lowest b (suc a) = simp bit_or-bitwise (lowest (λ y. y) max (suc a) b (omega arith))

bit_and-lowest : (b a : ℕ) → bit_and a b ≡ bit_and (a / 2) (b / 2) * 2 + min (a % 2) (b % 2)
bit_and-lowest b zero = rw (bit_and-bitwise 0 b, bit_and-bitwise 0 (b / 2)) (omega arith)
bit_and-lowest b (suc a) = simp bit_and-bitwise (lowest (λ y. 0) min (suc a) b (omega arith))

halves :
    (k a b : ℕ) → ((a + 2 ^ suc k * b) / 2 ≡ a / 2 + 2 ^ k * b) × ((a + 2 ^ suc k * b) % 2 ≡ a % 2)
halves k a b = rw (pow-succ' 2 k) (omega arith, omega arith)

half-lt : (k a : ℕ) → a < 2 ^ suc k → a / 2 < 2 ^ k
half-lt k a p = let q = rw (pow-succ' 2 k) at p in omega arith

-- The two parts of a word are combined apart.
pub bit_and_split :
    (k a b c d : ℕ)
    → a < 2 ^ k
    → c < 2 ^ k
    → bit_and (a + 2 ^ k * b) (c + 2 ^ k * d) ≡ bit_and a c + 2 ^ k * bit_and b d
bit_and_split zero zero b zero d p q = simp (one-mul, zero-add) (omega arith)
bit_and_split zero (suc a) b c d p q = absurd (omega arith)
bit_and_split zero zero b (suc c) d p q = absurd (omega arith)
bit_and_split (suc k) a b c d p q =
    rw
      (
        bit_and-lowest (c + 2 ^ suc k * d) (a + 2 ^ suc k * b),
        (halves k a b).0,
        (halves k a b).1,
        (halves k c d).0,
        (halves k c d).1,
        bit_and_split k (a / 2) b (c / 2) d (half-lt k a p) (half-lt k c q),
        bit_and-lowest c a,
        pow-succ' 2 k,
      )
      (omega arith)

pub bit_or_split :
    (k a b c d : ℕ)
    → a < 2 ^ k
    → c < 2 ^ k
    → bit_or (a + 2 ^ k * b) (c + 2 ^ k * d) ≡ bit_or a c + 2 ^ k * bit_or b d
bit_or_split zero zero b zero d p q = simp (one-mul, zero-add) (omega arith)
bit_or_split zero (suc a) b c d p q = absurd (omega arith)
bit_or_split zero zero b (suc c) d p q = absurd (omega arith)
bit_or_split (suc k) a b c d p q =
    rw
      (
        bit_or-lowest (c + 2 ^ suc k * d) (a + 2 ^ suc k * b),
        (halves k a b).0,
        (halves k a b).1,
        (halves k c d).0,
        (halves k c d).1,
        bit_or_split k (a / 2) b (c / 2) d (half-lt k a p) (half-lt k c q),
        bit_or-lowest c a,
        pow-succ' 2 k,
      )
      (omega arith)

pub bit_and-zero : (a : ℕ) → bit_and a 0 ≡ 0
bit_and-zero a = below a a (le_refl a)
  where
    below : (n a : ℕ) → a ≤ n → bit_and a 0 ≡ 0
    below n zero h = refl
    below zero (suc a) h = absurd (omega arith)
    below (suc n) (suc a) h =
        omega (arith, bit_and-lowest 0 (suc a), below n (suc a / 2) (omega arith))

pub bit_or-zero : (a : ℕ) → bit_or a 0 ≡ a
bit_or-zero a = below a a (le_refl a)
  where
    below : (n a : ℕ) → a ≤ n → bit_or a 0 ≡ a
    below n zero h = refl
    below zero (suc a) h = absurd (omega arith)
    below (suc n) (suc a) h =
        omega (arith, bit_or-lowest 0 (suc a), below n (suc a / 2) (omega arith))

-- A mask of `k` ones keeps a number of `k` bits.
pub bit_and_mask : (k a : ℕ) → a < 2 ^ k → bit_and a (2 ^ k - 1) ≡ a
bit_and_mask zero zero p = refl
bit_and_mask zero (suc a) p = absurd (omega arith)
bit_and_mask (suc k) a p =
    let q = bit_and_mask k (a / 2) (half-lt k a p) in
    let pos : 0 < 2 ^ k = pow-pos k in
    let double = pow-succ' 2 k in
    let half : (2 ^ suc k - 1) / 2 ≡ 2 ^ k - 1 = omega arith in
    let odd : (2 ^ suc k - 1) % 2 ≡ 1 = omega arith in
    rw (bit_and-lowest (2 ^ suc k - 1) a, half, odd, q) (omega arith)
  where
    pow-pos : (k : ℕ) → 0 < 2 ^ k
    pow-pos zero = omega arith
    pow-pos (suc k) = rw (pow-succ' 2 k) (omega (arith, pow-pos k))
