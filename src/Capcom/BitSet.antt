-- ===== src/Capcom/BitSet.antt =====
-- capcom/bitset.h: the set of client ids, as a growing vector of 64-bit words.
-- A word is the bit pattern of a `long long`, a number below 2 ^ 64; bit b of it is found by
-- halving b times, which is what the shifts by b in the source select.
pub mod Word
pub mod Laws
pub mod Words
pub mod Allocate
use adastra.Prelude.{
  ℕ, zero, suc, ◌+◌, ◌-◌, ◌*◌, ◌/◌, ◌%◌, ◌^◌, Bool, true, false, ◌&&◌, not, List, [], ◌∷◌, ◌++◌,
  Option, none, some, ltb, leb, ◌==◌, if◌then◌else◌, length, get_elem?, modify,
}

-- `(word & (1LL << b)) != 0`.
pub test_bit : ℕ → ℕ → Bool
test_bit zero w = w % 2 == 1
test_bit (suc b) w = test_bit b (w / 2)

-- `word | (1LL << b)`.
unfoldable pub set_bit : ℕ → ℕ → ℕ
set_bit zero w = w / 2 * 2 + 1
set_bit (suc b) w = w % 2 + set_bit b (w / 2) * 2

-- `word & ~(1LL << b)`.
pub clear_bit : ℕ → ℕ → ℕ
clear_bit zero w = w / 2 * 2
clear_bit (suc b) w = w % 2 + clear_bit b (w / 2) * 2

-- `ffsll(~word) - 1` over the n bits of the word that are left, `none` where every bit is set.
unfoldable pub first_zero : ℕ → ℕ → Option ℕ
first_zero zero w = none
first_zero (suc n) w =
    let rest = first_zero n (w / 2) in
    if w % 2 == 0 then some 0 else elim rest [ none ↦ none | some b ↦ some (suc b) ]

abbrev pub BitSet : Type 0
BitSet = List ℕ

-- `bits_.push_back(0LL)` where the word stands just past the end.
pub add_word : ℕ → BitSet → BitSet
add_word word bits = if word == length bits then bits ++ 0 ∷ [] else bits

-- BitSet::Set.
unfoldable pub set : ℕ → BitSet → BitSet
unfolding add_word
set bit bits =
    let word = bit / 64 in
    if ltb (length bits) word then bits else modify word (set_bit (bit % 64)) (add_word word bits)

-- BitSet::Clear.
unfoldable pub clear : ℕ → BitSet → BitSet
unfolding add_word
clear bit bits =
    let word = bit / 64 in
    if ltb (length bits) word then bits else modify word (clear_bit (bit % 64)) (add_word word bits)

-- BitSet::Contains.
unfoldable pub contains : ℕ → BitSet → Bool
contains bit bits = elim (get_elem? bits (bit / 64)) [
  | none ↦ false
  | some w ↦ test_bit (bit % 64) w
]

-- BitSet::IsEmpty.
unfoldable pub is_empty : BitSet → Bool
is_empty [] = true
is_empty (w ∷ bits) = (w == 0) && is_empty bits

-- BitSet::ClearAll.
unfoldable pub clear_all : BitSet → BitSet
clear_all [] = []
clear_all (w ∷ bits) = 0 ∷ clear_all bits

-- The loop of BitSet::Allocate from word i on. Past the last word it pushes a word of zeroes, whose
-- first bit the next round takes.
unfoldable pub allocate_from : ℕ → BitSet → ℕ × BitSet
allocate_from i [] = (i * 64, 1 ∷ [])
allocate_from i (w ∷ bits) =
    let (bit, bits') = allocate_from (suc i) bits in
    elim (first_zero 64 w) [ none ↦ (bit, w ∷ bits') | some b ↦ (i * 64 + b, set_bit b w ∷ bits) ]

-- BitSet::Allocate.
unfoldable pub allocate : BitSet → ℕ × BitSet
unfolding allocate_from
allocate bits = allocate_from 0 bits
