-- ===== src/Capcom/BitSet/Words.antt =====
-- capcom/bitset.h: every operation keeps each word a 64-bit pattern.
use adastra.Prelude.{ℕ, zero, suc, ◌+◌, ◌*◌, ◌/◌, ◌%◌, ◌<◌, ◌≤◌, arith, ◌^◌, [], ◌∷◌, ◌++◌, modify}
use native.Mathlib.Nat.{pow-suc}
use adastra.Capcom.BitSet.{BitSet, set_bit, clear_bit, add_word, set, clear}
use adastra.Capcom.BitSet.Laws.{IsBitSet}

clear_bit-le : (b w : ℕ) → clear_bit b w ≤ w
unfolding clear_bit
clear_bit-le zero w = omega arith
clear_bit-le (suc b) w = omega (arith, clear_bit-le b (w / 2))

half_bound : (n w : ℕ) → w < 2 ^ suc n → w / 2 < 2 ^ n
half_bound n w h = omega (arith, pow-suc 2 n, h)

double_bound : (n r q : ℕ) → r < 2 → q < 2 ^ n → r + q * 2 < 2 ^ suc n
double_bound n r q h k = omega (arith, pow-suc 2 n, k)

set_bit-lt : (n b w : ℕ) → b < n → w < 2 ^ n → set_bit b w < 2 ^ n
unfolding set_bit
set_bit-lt zero b w h k = absurd (omega arith)
set_bit-lt (suc n) zero w h k =
    omega (arith, double_bound n 1 (w / 2) (omega arith) (half_bound n w k))
set_bit-lt (suc n) (suc b) w h k =
    double_bound n (w % 2) (set_bit b (w / 2)) (omega arith)
      (set_bit-lt n b (w / 2) (omega arith) (half_bound n w k))

modify-IsBitSet :
    (i : ℕ) (f : ℕ → ℕ) (bits : BitSet)
    → ((w : ℕ) → w < 2 ^ 64 → f w < 2 ^ 64)
    → IsBitSet bits
    → IsBitSet (modify i f bits)
unfolding modify
modify-IsBitSet i f [] h v = tt
modify-IsBitSet zero f (w ∷ bits) h v = (h w v.0, v.1)
modify-IsBitSet (suc i) f (w ∷ bits) h v = (v.0, modify-IsBitSet i f bits h v.1)

snoc-IsBitSet : (bits : BitSet) → IsBitSet bits → IsBitSet (bits ++ 0 ∷ [])
snoc-IsBitSet [] v = (omega arith, tt)
snoc-IsBitSet (w ∷ bits) v = (v.0, snoc-IsBitSet bits v.1)

add_word-IsBitSet : (i : ℕ) (bits : BitSet) → IsBitSet bits → IsBitSet (add_word i bits)
unfolding add_word
add_word-IsBitSet i bits v = ground (arith, snoc-IsBitSet bits v)

pub set-IsBitSet : (b : ℕ) (bits : BitSet) → IsBitSet bits → IsBitSet (set b bits)
unfolding set
set-IsBitSet b bits v = ground (
  arith,
  modify-IsBitSet (b / 64) (set_bit (b % 64)) (add_word (b / 64) bits)
      (λ w h. set_bit-lt 64 (b % 64) w (omega arith) h) (add_word-IsBitSet (b / 64) bits v),
)

pub clear-IsBitSet : (b : ℕ) (bits : BitSet) → IsBitSet bits → IsBitSet (clear b bits)
unfolding clear
clear-IsBitSet b bits v = ground (
  arith,
  modify-IsBitSet (b / 64) (clear_bit (b % 64)) (add_word (b / 64) bits)
      (λ w h. omega (arith, clear_bit-le (b % 64) w)) (add_word-IsBitSet (b / 64) bits v),
)
