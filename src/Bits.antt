-- ===== src/Bits.antt =====
-- Single bits of a word under `&` and `|`, for the flag tests and flag settings of the drivers.
-- The libraries have no laws of `bit_and` and `bit_or` at variables; these come from their
-- definition by binary digits.
use Prim.Native.Nat.{digits, bitwise, bit_and-bitwise, bit_or-bitwise}
use native.Mathlib.Nat.{
  le_refl, pow-suc, pow-succ', one-le-pow, div-div-eq-div-mul, mul-one, one-mul, zero-mul,
}
use driver_workflow.Prelude.{
  ℕ, zero, suc, ◌+◌, ◌*◌, ◌/◌, ◌%◌, ◌^◌, ◌≤◌, ◌<◌, min, max, bit_and, bit_or, ◌≡◌, refl, sym, ap,
  ◌∙◌, Bool, not, ◌&&◌, ◌||◌, arith, ◌==◌,
}

module _ (z : ℕ → ℕ) (f : ℕ → ℕ → ℕ) where
  digits-more : (n m a b : ℕ) → a ≤ n → a ≤ m → digits z f n a b ≡ digits z f m a b
  digits-more zero zero a b p q = refl
  digits-more (suc n) zero zero b p q = refl
  digits-more zero (suc m) zero b p q = refl
  digits-more (suc n) (suc m) zero b p q = refl
  digits-more zero m (suc a) b p q = absurd (omega arith)
  digits-more (suc n) zero (suc a) b p q = absurd (omega arith)
  digits-more (suc n) (suc m) (suc a) b p q =
      ap (λ t. t * 2 + f (suc a % 2) (b % 2))
        (digits-more n m (suc a / 2) (b / 2) (omega arith) (omega arith))

  bitwise_low :
      (a b : ℕ)
      → bitwise z f (suc a) b ≡ bitwise z f (suc a / 2) (b / 2) * 2 + f (suc a % 2) (b % 2)
  bitwise_low a b =
      omega (arith, digits-more a (suc a / 2) (suc a / 2) (b / 2) (omega arith) (le_refl _))

bit_or_low : (a b : ℕ) → bit_or a b ≡ bit_or (a / 2) (b / 2) * 2 + max (a % 2) (b % 2)
bit_or_low zero b = simp bit_or-bitwise (omega arith)
bit_or_low (suc a) b = simp bit_or-bitwise (bitwise_low (λ y. y) max a b)

bit_and_low : (a b : ℕ) → bit_and a b ≡ bit_and (a / 2) (b / 2) * 2 + min (a % 2) (b % 2)
bit_and_low zero b = simp bit_and-bitwise (omega arith)
bit_and_low (suc a) b = simp bit_and-bitwise (bitwise_low (λ y. 0) min a b)

-- Bit `k` of a word, as 0 or 1.
unfoldable pub bit : ℕ → ℕ → ℕ
bit a zero = a % 2
bit a (suc k) = bit (a / 2) k

pub bit-lt : (a k : ℕ) → bit a k < 2
unfolding bit
bit-lt a zero = omega arith
bit-lt a (suc k) = bit-lt (a / 2) k

pub bit-zero : (k : ℕ) → bit 0 k ≡ 0
unfolding bit
bit-zero zero = refl
bit-zero (suc k) = bit-zero k

pub bit-bit_or : (a b k : ℕ) → bit (bit_or a b) k ≡ max (bit a k) (bit b k)
unfolding bit
bit-bit_or a b zero = omega (arith, bit_or_low a b)
bit-bit_or a b (suc k) =
    ap (λ t. bit t k) (omega (arith, bit_or_low a b)) ∙ bit-bit_or (a / 2) (b / 2) k

pub bit-bit_and : (a b k : ℕ) → bit (bit_and a b) k ≡ min (bit a k) (bit b k)
unfolding bit
bit-bit_and a b zero = omega (arith, bit_and_low a b)
bit-bit_and a b (suc k) =
    ap (λ t. bit t k) (omega (arith, bit_and_low a b)) ∙ bit-bit_and (a / 2) (b / 2) k

-- `|` does not leave the width of its arguments.
pub bit_or-lt : (k a b : ℕ) → a < 2 ^ k → b < 2 ^ k → bit_or a b < 2 ^ k
bit_or-lt zero zero zero p q = omega (arith, bit_or-bitwise 0 0)
bit_or-lt zero (suc a) b p q = absurd (omega arith)
bit_or-lt zero zero (suc b) p q = absurd (omega arith)
bit_or-lt (suc k) a b p q = omega (
  arith,
  bit_or_low a b,
  pow-suc 2 k,
  bit_or-lt k (a / 2) (b / 2) (omega (arith, pow-suc 2 k)) (omega (arith, pow-suc 2 k)),
)

bit_and-zero_fuel : (n a : ℕ) → a ≤ n → bit_and a 0 ≡ 0
bit_and-zero_fuel zero zero h = refl
bit_and-zero_fuel zero (suc a) h = absurd (omega arith)
bit_and-zero_fuel (suc n) zero h = refl
bit_and-zero_fuel (suc n) (suc a) h =
    omega (arith, bit_and_low (suc a) 0, bit_and-zero_fuel n (suc a / 2) (omega arith))

pub bit_and-zero : (a : ℕ) → bit_and a 0 ≡ 0
bit_and-zero a = bit_and-zero_fuel a a (le_refl a)

two_pow-half : (k : ℕ) → 2 ^ suc k / 2 ≡ 2 ^ k
two_pow-half k = omega (arith, pow-suc 2 k)

mul-two_pow-half : (m k : ℕ) → m * 2 ^ suc k ≡ m * 2 ^ k * 2
mul-two_pow-half m k = omega (arith, ap (λ (t : ℕ). m * t) (pow-suc 2 k))

div-two_pow-suc : (a k : ℕ) → a / 2 ^ suc k ≡ a / 2 / 2 ^ k
div-two_pow-suc a k = rw (pow-succ' 2 k) (sym (div-div-eq-div-mul a 2 (2 ^ k)))

-- A mask shifted up reads the word shifted down.
pub bit_and_shift : (k a m : ℕ) → bit_and a (m * 2 ^ k) ≡ bit_and (a / 2 ^ k) m * 2 ^ k
bit_and_shift zero a m = ground (arith, ap (λ (t : ℕ). bit_and a t) (mul-one m))
bit_and_shift (suc k) a m =
    rw (bit_and_low a (m * 2 ^ suc k), div-two_pow-suc a k)
      (omega (
        arith,
        ap (λ (t : ℕ). bit_and (a / 2) t) (half m k),
        bit_and_shift k (a / 2) m,
        mul-two_pow-half m k,
        mul-two_pow-half (bit_and (a / 2 / 2 ^ k) m) k,
      ))
  where
    half : (m k : ℕ) → m * 2 ^ suc k / 2 ≡ m * 2 ^ k
    half m k = omega (arith, mul-two_pow-half m k)

-- A test of one bit.
pub bit_and-two_pow : (k a : ℕ) → bit_and a (2 ^ k) ≡ bit a k * 2 ^ k
unfolding bit
bit_and-two_pow zero a = omega (arith, bit_and_low a 1, bit_and-zero (a / 2))
bit_and-two_pow (suc k) a = omega (
  arith,
  bit_and_low a (2 ^ suc k),
  ap (λ (t : ℕ). bit_and (a / 2) t) (two_pow-half k),
  pow-suc 2 k,
  mul-two_pow-half (bit (a / 2) k) k,
  bit_and-two_pow k (a / 2),
)

-- `x & m != 0`
unfoldable pub has : ℕ → ℕ → Bool
has x m = not (bit_and x m == 0)

pub has-two_pow : (k a : ℕ) → has a (2 ^ k) ≡ (bit a k == 1)
unfolding has
has-two_pow k a =
    ground
      (arith, bit_and-two_pow k a, bit-lt a k, one-le-pow k 2, zero-mul (2 ^ k), one-mul (2 ^ k))

pub has-bit_or : (k a b : ℕ) → has (bit_or a b) (2 ^ k) ≡ (has a (2 ^ k) || has b (2 ^ k))
has-bit_or k a b = ground (
  arith,
  has-two_pow k a,
  has-two_pow k b,
  has-two_pow k (bit_or a b),
  bit-bit_or a b k,
  bit-lt a k,
  bit-lt b k,
)

-- `&` is at most the mask.
pub has-bit_and : (k a b : ℕ) → has (bit_and a b) (2 ^ k) ≡ (has a (2 ^ k) && has b (2 ^ k))
has-bit_and k a b = ground (
  arith,
  has-two_pow k a,
  has-two_pow k b,
  has-two_pow k (bit_and a b),
  bit-bit_and a b k,
  bit-lt a k,
  bit-lt b k,
)

pub bit_and-le : (k a : ℕ) → bit_and a (2 ^ k) ≤ 2 ^ k
bit_and-le k a = grind (arith, bit_and-two_pow k a, bit-lt a k)

pub bit-eq_zero_of_lt : (k a : ℕ) → a < 2 ^ k → bit a k ≡ 0
unfolding bit
bit-eq_zero_of_lt zero a h = omega arith
bit-eq_zero_of_lt (suc k) a h = bit-eq_zero_of_lt k (a / 2) (omega (arith, pow-suc 2 k))

bit_and-le_right_fuel : (n a b : ℕ) → b ≤ n → bit_and a b ≤ b
bit_and-le_right_fuel n a zero h = omega (arith, bit_and-zero a)
bit_and-le_right_fuel zero a (suc b) h = absurd (omega arith)
bit_and-le_right_fuel (suc n) a (suc b) h =
    omega (arith, bit_and_low a (suc b), bit_and-le_right_fuel n (a / 2) (suc b / 2) (omega arith))

pub bit_and-le_right : (a b : ℕ) → bit_and a b ≤ b
bit_and-le_right a b = bit_and-le_right_fuel b a b (le_refl b)

bit_and-odd : (a n m : ℕ) → n / 2 ≡ m → n % 2 ≡ 1 → bit_and a n ≡ bit_and (a / 2) m * 2 + a % 2
bit_and-odd a n m h odd = omega (arith, bit_and_low a n, ap (λ (t : ℕ). bit_and (a / 2) t) h)

-- A byte mask keeps the low byte.
pub bit_and-byte : (a : ℕ) → bit_and a 255 ≡ a % 256
bit_and-byte a =
    let a1 = a / 2 in
    let a2 = a1 / 2 in
    let a3 = a2 / 2 in
    let a4 = a3 / 2 in
    let a5 = a4 / 2 in
    let a6 = a5 / 2 in
    let a7 = a6 / 2 in
    omega (
      arith,
      bit_and-odd a 255 127 refl refl,
      bit_and-odd a1 127 63 refl refl,
      bit_and-odd a2 63 31 refl refl,
      bit_and-odd a3 31 15 refl refl,
      bit_and-odd a4 15 7 refl refl,
      bit_and-odd a5 7 3 refl refl,
      bit_and-odd a6 3 1 refl refl,
      bit_and-odd a7 1 0 refl refl,
      bit_and-zero (a7 / 2),
    )

bit_or-zero_fuel : (n a : ℕ) → a ≤ n → bit_or a 0 ≡ a
bit_or-zero_fuel zero zero h = refl
bit_or-zero_fuel zero (suc a) h = absurd (omega arith)
bit_or-zero_fuel (suc n) zero h = refl
bit_or-zero_fuel (suc n) (suc a) h =
    omega (arith, bit_or_low (suc a) 0, bit_or-zero_fuel n (suc a / 2) (omega arith))

pub bit_or-zero : (a : ℕ) → bit_or a 0 ≡ a
bit_or-zero a = bit_or-zero_fuel a a (le_refl a)

zero-bit_or_fuel : (n a : ℕ) → a ≤ n → bit_or 0 a ≡ a
zero-bit_or_fuel zero zero h = refl
zero-bit_or_fuel zero (suc a) h = absurd (omega arith)
zero-bit_or_fuel (suc n) zero h = refl
zero-bit_or_fuel (suc n) (suc a) h =
    omega (arith, bit_or_low 0 (suc a), zero-bit_or_fuel n (suc a / 2) (omega arith))

-- `|` of words with no common bit is their sum.
pub bit_or-add : (k a b : ℕ) → a < 2 ^ k → bit_or a (b * 2 ^ k) ≡ a + b * 2 ^ k
bit_or-add zero zero b h = ground (arith, mul-one b, zero-bit_or_fuel b b (le_refl b))
bit_or-add zero (suc a) b h = absurd (omega arith)
bit_or-add (suc k) a b h = omega (
  arith,
  bit_or_low a (b * 2 ^ suc k),
  mul-two_pow-half b k,
  ap (λ (t : ℕ). bit_or (a / 2) t) (half b k),
  bit_or-add k (a / 2) b (omega (arith, pow-suc 2 k)),
)
  where
    half : (m k : ℕ) → m * 2 ^ suc k / 2 ≡ m * 2 ^ k
    half m k = omega (arith, mul-two_pow-half m k)

bit_or_comm_fuel : (n a b : ℕ) → a ≤ n → bit_or a b ≡ bit_or b a
bit_or_comm_fuel n zero b h = zero-bit_or_fuel b b (le_refl b) ∙ sym (bit_or-zero b)
bit_or_comm_fuel zero (suc a) b h = absurd (omega arith)
bit_or_comm_fuel (suc n) (suc a) b h = omega (
  arith,
  bit_or_low (suc a) b,
  bit_or_low b (suc a),
  bit_or_comm_fuel n (suc a / 2) (b / 2) (omega arith),
)

pub bit_or_comm : (a b : ℕ) → bit_or a b ≡ bit_or b a
bit_or_comm a b = bit_or_comm_fuel a a b (le_refl a)

-- A mask of 16 bits keeps the low word.
pub bit_and-word : (a : ℕ) → bit_and a 65535 ≡ a % 65536
bit_and-word a =
    let a1 = a / 2 in
    let a2 = a1 / 2 in
    let a3 = a2 / 2 in
    let a4 = a3 / 2 in
    let a5 = a4 / 2 in
    let a6 = a5 / 2 in
    let a7 = a6 / 2 in
    omega (
      arith,
      bit_and-odd a 65535 32767 refl refl,
      bit_and-odd a1 32767 16383 refl refl,
      bit_and-odd a2 16383 8191 refl refl,
      bit_and-odd a3 8191 4095 refl refl,
      bit_and-odd a4 4095 2047 refl refl,
      bit_and-odd a5 2047 1023 refl refl,
      bit_and-odd a6 1023 511 refl refl,
      bit_and-odd a7 511 255 refl refl,
      bit_and-byte (a7 / 2),
    )
