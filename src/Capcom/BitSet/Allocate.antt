-- ===== src/Capcom/BitSet/Allocate.antt =====
-- BitSet::Allocate (capcom/bitset.h): the id it gives out.
use adastra.Prelude.{
  ℕ, zero, suc, ◌+◌, ◌*◌, ◌/◌, ◌%◌, ◌≡◌, refl, ◌<◌, ◌≤◌, true, false, ◌==◌, ◌⊎◌, if◌then◌else◌,
  arith, none, inl, inr, [], ◌∷◌, Option-cases,
}
use adastra.Capcom.BitSet.{BitSet, test_bit, set_bit, first_zero, contains, allocate_from, allocate}
use adastra.Capcom.BitSet.Word.{
  test_bit-zero, test_bit-set_bit, first_zero-clear, first_zero_lowest, first_zero-none,
}
use adastra.Capcom.BitSet.Laws.{word_at, contains-word_at, id_split, same_bit}

-- The word and the bit that the search stopped at, with what it saw before them.
record Found (i : ℕ) (bits : BitSet) (r : ℕ × BitSet) : Type 0 where
  word : ℕ
  bit : ℕ
  in_word : bit < 64
  id : r.0 ≡ (i + word) * 64 + bit
  free : test_bit bit (word_at word bits) ≡ false
  taken :
      (j : ℕ) → word_at j r.1 ≡ (if word == j then set_bit bit (word_at j bits) else word_at j bits)
  lower_bits : (b : ℕ) → b < bit → test_bit b (word_at word bits) ≡ true
  lower_words : (j b : ℕ) → j < word → b < 64 → test_bit b (word_at j bits) ≡ true

new_word :
    (j : ℕ) → word_at j (1 ∷ []) ≡ (if 0 == j then set_bit 0 (word_at j []) else word_at j [])
unfolding word_at set_bit
new_word zero = refl
new_word (suc j) = ground arith

here_word :
    (b w : ℕ) (bits : BitSet) (j : ℕ)
    → word_at j (set_bit b w ∷ bits)
      ≡ (if 0 == j then set_bit b (word_at j (w ∷ bits)) else word_at j (w ∷ bits))
unfolding word_at
here_word b w bits zero = refl
here_word b w bits (suc j) = ground arith

later_word :
    (k b w : ℕ) (bits bits' : BitSet)
    → ((j : ℕ) → word_at j bits' ≡ (if k == j then set_bit b (word_at j bits) else word_at j bits))
    → (j : ℕ)
    → word_at j (w ∷ bits')
      ≡ (if suc k == j then set_bit b (word_at j (w ∷ bits)) else word_at j (w ∷ bits))
unfolding word_at
later_word k b w bits bits' h zero = ground arith
later_word k b w bits bits' h (suc j) = ground (arith, h j)

full_words :
    (k w : ℕ) (bits : BitSet)
    → first_zero 64 w ≡ none
    → ((j b : ℕ) → j < k → b < 64 → test_bit b (word_at j bits) ≡ true)
    → (j b : ℕ) → j < suc k
    → b < 64
    → test_bit b (word_at j (w ∷ bits)) ≡ true
unfolding word_at
full_words k w bits e h zero b p q = first_zero-none 64 w b e q
full_words k w bits e h (suc j) b p q = h j b (omega arith) q

allocate_from-Found : (i : ℕ) (bits : BitSet) → Found i bits (allocate_from i bits)
unfolding allocate_from word_at
allocate_from-Found i [] = record {
  word = 0;
  bit = 0;
  in_word = omega arith;
  id = omega arith;
  free = test_bit-zero 0;
  taken = new_word;
  lower_bits = λ b h. absurd (omega arith);
  lower_words = λ j b h k. absurd (omega arith);
}
allocate_from-Found i (w ∷ bits) = elim (Option-cases (first_zero 64 w)) [
  | inl full ↦
      let rest = allocate_from-Found (suc i) bits in
      rw (full, allocate_from)
        (record {
          word = suc rest.word;
          bit = rest.bit;
          in_word = rest.in_word;
          id = omega (arith, rest.id);
          free = rest.free;
          taken = later_word rest.word rest.bit w bits (allocate_from (suc i) bits).1 rest.taken;
          lower_bits = rest.lower_bits;
          lower_words = full_words rest.word w bits full rest.lower_words;
        })
  | inr (b, e) ↦
      rw (e, allocate_from)
        (record {
          word = 0;
          bit = b;
          in_word = (first_zero-clear 64 w b e).0;
          id = omega arith;
          free = (first_zero-clear 64 w b e).1;
          taken = here_word b w bits;
          lower_bits = λ j h. first_zero_lowest 64 w b j e h;
          lower_words = λ j b' h k. absurd (omega arith);
        })
]

-- The id that BitSet::Allocate gives out was free and is now in the set, and no other id came or
-- went.
pub allocate-adds :
    (bits : BitSet)
    → (contains (allocate bits).0 bits ≡ false)
      × ((j : ℕ)
          → contains j (allocate bits).1
            ≡ (if (allocate bits).0 == j then true else contains j bits))
unfolding allocate
allocate-adds bits =
    let f = allocate_from-Found 0 bits in
    let at = id_split f.word f.bit f.in_word in
    let e : (allocate_from 0 bits).0 ≡ f.word * 64 + f.bit = omega (arith, f.id) in
    (
      rw (e, contains-word_at, at.0, at.1) f.free,
      λ j.
          rw (e, contains-word_at j (allocate_from 0 bits).1, f.taken (j / 64))
            (ground (
              arith,
              contains-word_at j bits,
              test_bit-set_bit f.bit (j % 64) (word_at (j / 64) bits),
              at,
              same_bit (f.word * 64 + f.bit) j,
            )),
    )

word_order : (j k b : ℕ) → b < 64 → j < k * 64 + b → j / 64 ≤ k
word_order j k b h lt = omega arith

less_or_same : (a b : ℕ) → a ≤ b → (a < b) ⊎ (a ≡ b)
less_or_same a b h = grind arith

-- Every id smaller than the one that BitSet::Allocate gives out was in use.
pub allocate_smallest : (bits : BitSet) (j : ℕ) → j < (allocate bits).0 → contains j bits ≡ true
unfolding allocate
allocate_smallest bits j h =
    let f = allocate_from-Found 0 bits in
    let e : (allocate_from 0 bits).0 ≡ f.word * 64 + f.bit = omega (arith, f.id) in
    rw contains-word_at
      (elim (less_or_same (j / 64) f.word (word_order j f.word f.bit f.in_word (omega arith))) [
        | inl lower ↦ f.lower_words (j / 64) (j % 64) lower (omega arith)
        | inr same ↦ rw same (f.lower_bits (j % 64) (omega (arith, f.in_word)))
      ])
