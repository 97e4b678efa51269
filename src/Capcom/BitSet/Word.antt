-- ===== src/Capcom/BitSet/Word.antt =====
-- One word of the bit set (capcom/bitset.h): the bit operations against each other.
use adastra.Prelude.{
  ℕ, zero, suc, ◌+◌, ◌*◌, ◌/◌, ◌%◌, ◌≡◌, refl, ◌<◌, true, false, ◌==◌, if◌then◌else◌, arith, some,
  none, Bool-cases, inl, inr, ◌^◌,
}
use native.Mathlib.Nat.{pow-suc}
use adastra.Capcom.BitSet.{test_bit, set_bit, clear_bit, first_zero}

pub test_bit-zero : (j : ℕ) → test_bit j 0 ≡ false
unfolding test_bit
test_bit-zero zero = refl
test_bit-zero (suc j) = test_bit-zero j

-- The digit above the lowest one of a word built from its halves.
half_odd : (q : ℕ) → (q * 2 + 1) / 2 ≡ q
half_odd q = omega arith

half_even : (q : ℕ) → (q * 2) / 2 ≡ q
half_even q = omega arith

half_digit : (w q : ℕ) → (w % 2 + q * 2) / 2 ≡ q
half_digit w q = omega arith

pub test_bit-set_bit :
    (b j w : ℕ) → test_bit j (set_bit b w) ≡ (if b == j then true else test_bit j w)
unfolding test_bit set_bit
test_bit-set_bit zero zero w = ground arith
test_bit-set_bit zero (suc j) w = rw (half_odd (w / 2)) (ground arith)
test_bit-set_bit (suc b) zero w = ground arith
test_bit-set_bit (suc b) (suc j) w =
    rw (half_digit w (set_bit b (w / 2))) (ground (arith, test_bit-set_bit b j (w / 2)))

pub test_bit-clear_bit :
    (b j w : ℕ) → test_bit j (clear_bit b w) ≡ (if b == j then false else test_bit j w)
unfolding test_bit clear_bit
test_bit-clear_bit zero zero w = ground arith
test_bit-clear_bit zero (suc j) w = rw (half_even (w / 2)) (ground arith)
test_bit-clear_bit (suc b) zero w = ground arith
test_bit-clear_bit (suc b) (suc j) w =
    rw (half_digit w (clear_bit b (w / 2))) (ground (arith, test_bit-clear_bit b j (w / 2)))

-- A word with a set bit is not 0.
pub test_bit-pos : (j w : ℕ) → test_bit j w ≡ true → 0 < w
unfolding test_bit
test_bit-pos zero w h = ground arith
test_bit-pos (suc j) w h = omega (arith, test_bit-pos j (w / 2) h)

-- The position of the lowest set bit among the first n.
lowest_bit : ℕ → ℕ → ℕ
lowest_bit zero w = 0
lowest_bit (suc n) w = let rest = lowest_bit n (w / 2) in if w % 2 == 1 then 0 else suc rest

half_below : (n w : ℕ) → w < 2 ^ suc n → w / 2 < 2 ^ n
half_below n w h = omega (arith, pow-suc 2 n, h)

lowest_bit_lem :
    (n w : ℕ) → 0 < w → w < 2 ^ n → (lowest_bit n w < n) × (test_bit (lowest_bit n w) w ≡ true)
unfolding test_bit lowest_bit
lowest_bit_lem zero w p h = absurd (omega arith)
lowest_bit_lem (suc n) w p h = elim (Bool-cases (w % 2 == 1)) [
  | inl odd ↦ (ground arith, ground arith)
  | inr even ↦
      let ih = lowest_bit_lem n (w / 2) (ground arith) (half_below n w h) in
      (ground arith, ground arith)
]

-- A word of n bits that is not 0 has a set bit.
pub set_bit_exists : (n w : ℕ) → 0 < w → w < 2 ^ n → (b : ℕ) × (b < n) × (test_bit b w ≡ true)
set_bit_exists n w p h = let found = lowest_bit_lem n w p h in (lowest_bit n w, found.0, found.1)

-- `ffsll(~word)` finds a clear bit.
pub first_zero-clear : (n w b : ℕ) → first_zero n w ≡ some b → (b < n) × (test_bit b w ≡ false)
unfolding first_zero test_bit
first_zero-clear zero w b h = absurd (cc)
first_zero-clear (suc n) w zero h = ground (arith, first_zero-clear n (w / 2) 0)
first_zero-clear (suc n) w (suc b) h = ground (arith, first_zero-clear n (w / 2) b)

-- It finds the lowest one.
pub first_zero_lowest : (n w b j : ℕ) → first_zero n w ≡ some b → j < b → test_bit j w ≡ true
unfolding first_zero test_bit
first_zero_lowest zero w b j h lt = absurd (cc)
first_zero_lowest (suc n) w b zero h lt = ground arith
first_zero_lowest (suc n) w zero (suc j) h lt = absurd (omega arith)
first_zero_lowest (suc n) w (suc b) (suc j) h lt = ground (arith, first_zero_lowest n (w / 2) b j)

pub first_zero-none : (n w j : ℕ) → first_zero n w ≡ none → j < n → test_bit j w ≡ true
unfolding first_zero test_bit
first_zero-none zero w j h lt = absurd (omega arith)
first_zero-none (suc n) w zero h lt = ground arith
first_zero-none (suc n) w (suc j) h lt = ground (arith, first_zero-none n (w / 2) j)
