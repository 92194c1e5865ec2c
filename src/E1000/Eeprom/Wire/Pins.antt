-- ===== src/E1000/Eeprom/Wire/Pins.antt =====
-- The pins of the EECD register, and the bits of a word.
use driver_workflow.Prelude.{
  ℕ, zero, suc, ◌+◌, ◌-◌, ◌*◌, ◌/◌, ◌%◌, ◌^◌, ◌<◌, ◌≡◌, refl, ap, ◌∙◌, bit_or, Bool, true, false,
  List, [], ◌∷◌, ◌++◌, ◌==◌, if◌then◌else◌, arith,
}
use native.Mathlib.Nat.{pow-le-pow_right}
use driver_workflow.Bits.{has, bit, has-bit_or, has-bit_and, bit_or_comm, bit_or-add}
use driver_workflow.E1000.Eeprom.Wire.{eecd_sk, eecd_di, eecd_do, clear}

-- Setting and clearing bits of the register.
set_other : (k v m : ℕ) → has m (2 ^ k) ≡ false → has (bit_or v m) (2 ^ k) ≡ has v (2 ^ k)
set_other k v m h = ground (arith, has-bit_or k v m, h)

set_bit : (k v m : ℕ) → has m (2 ^ k) ≡ true → has (bit_or v m) (2 ^ k) ≡ true
set_bit k v m h = ground (arith, has-bit_or k v m, h)

clear_other :
    (k v m : ℕ) → has (0xffff_ffff - m) (2 ^ k) ≡ true → has (clear v m) (2 ^ k) ≡ has v (2 ^ k)
clear_other k v m h = ground (arith, has-bit_and k v (0xffff_ffff - m), h)

clear_bit : (k v m : ℕ) → has (0xffff_ffff - m) (2 ^ k) ≡ false → has (clear v m) (2 ^ k) ≡ false
clear_bit k v m h = ground (arith, has-bit_and k v (0xffff_ffff - m), h)

-- What the code does to the clock and to the data-in bit.
pub sk_set_di : (v : ℕ) → has (bit_or v eecd_di) eecd_sk ≡ has v eecd_sk
unfolding has
sk_set_di v = set_other 0 v eecd_di refl

pub sk_clear_di : (v : ℕ) → has (clear v eecd_di) eecd_sk ≡ has v eecd_sk
unfolding has
sk_clear_di v = clear_other 0 v eecd_di refl

pub sk_clear_do : (v : ℕ) → has (clear v eecd_do) eecd_sk ≡ has v eecd_sk
unfolding has
sk_clear_do v = clear_other 0 v eecd_do refl

pub sk_clear_both : (v : ℕ) → has (clear v (bit_or eecd_do eecd_di)) eecd_sk ≡ has v eecd_sk
unfolding has
sk_clear_both v = clear_other 0 v (bit_or eecd_do eecd_di) refl

pub sk_raised : (v : ℕ) → has (bit_or v eecd_sk) eecd_sk ≡ true
unfolding has
sk_raised v = set_bit 0 v eecd_sk refl

pub sk_lowered : (v : ℕ) → has (clear v eecd_sk) eecd_sk ≡ false
unfolding has
sk_lowered v = clear_bit 0 v eecd_sk refl

pub di_set : (v : ℕ) → has (bit_or v eecd_di) eecd_di ≡ true
unfolding has
di_set v = set_bit 2 v eecd_di refl

pub di_cleared : (v : ℕ) → has (clear v eecd_di) eecd_di ≡ false
unfolding has
di_cleared v = clear_bit 2 v eecd_di refl

pub di_clear_both : (v : ℕ) → has (clear v (bit_or eecd_do eecd_di)) eecd_di ≡ false
unfolding has
di_clear_both v = clear_bit 2 v (bit_or eecd_do eecd_di) refl

pub di_raised : (v : ℕ) → has (bit_or v eecd_sk) eecd_di ≡ has v eecd_di
unfolding has
di_raised v = set_other 2 v eecd_sk refl

pub di_lowered : (v : ℕ) → has (clear v eecd_sk) eecd_di ≡ has v eecd_di
unfolding has
di_lowered v = clear_other 2 v eecd_sk refl

-- The low bits of a word, the highest first, and the number that they make.
abbrev pub bits_of : ℕ → ℕ → List Bool
bits_of zero x = []
bits_of (suc n) x = (bit x n == 1) ∷ bits_of n x

-- A bit behind those of a word.
unfoldable pub low_bit : Bool → ℕ
low_bit true = 1
low_bit false = 0

pub bits_of-behind :
    (k acc : ℕ) (b : Bool) → bits_of (suc k) (acc * 2 + low_bit b) ≡ bits_of k acc ++ (b ∷ [])
unfolding bit low_bit
bits_of-behind zero acc true = let odd : (acc * 2 + 1) % 2 ≡ 1 = omega arith in rw odd refl
bits_of-behind zero acc false = let even : (acc * 2 + 0) % 2 ≡ 0 = omega arith in rw even refl
bits_of-behind (suc k) acc b =
    let half : (acc * 2 + low_bit b) / 2 ≡ acc = half_lem b in
    rw half (ap (◌∷◌ (bit acc k == 1)) (bits_of-behind k acc b))
  where
    half_lem : (c : Bool) → (acc * 2 + low_bit c) / 2 ≡ acc
    half_lem true = omega arith
    half_lem false = omega arith

-- What a round of `shift_in_bits` makes of the word.
pub shifted_lem :
    (k acc : ℕ) (b : Bool)
    → acc < 2 ^ k
    → k < 16
    → (if b then bit_or (acc * 2 % 2 ^ 16) 1 else acc * 2 % 2 ^ 16) ≡ acc * 2 + low_bit b
unfolding low_bit
shifted_lem k acc b h few =
    let small = pow-le-pow_right {n = 2} (omega arith) {i = k} {j = 15} (omega arith) in
    let fits : acc * 2 % 2 ^ 16 ≡ acc * 2 = omega (arith, small, h) in rw fits (go b)
  where
    go : (c : Bool) → (if c then bit_or (acc * 2) 1 else acc * 2) ≡ acc * 2 + low_bit c
    go true = bit_or_comm (acc * 2) 1 ∙ bit_or-add 1 1 acc (omega arith) ∙ omega arith
    go false = omega arith
