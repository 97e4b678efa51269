-- ===== src/Capcom/BitSet/Laws.antt =====
-- The bit set (capcom/bitset.h) against the set of ids that it stands for.
use adastra.Prelude.{
  ℕ, zero, suc, ◌+◌, ◌*◌, ◌/◌, ◌%◌, ◌≡◌, refl, ◌<◌, ◌≤◌, Bool, true, false, ◌==◌, if◌then◌else◌,
  arith, some, none, Bool-cases, inl, inr, ◌^◌, [], ◌∷◌, ◌++◌, length, get_elem?, modify, All,
}
use adastra.Capcom.BitSet.{
  BitSet, test_bit, set_bit, clear_bit, add_word, set, clear, contains, is_empty,
}
use adastra.Capcom.BitSet.Word.{test_bit-zero, test_bit-set_bit, test_bit-clear_bit, set_bit_exists}

-- The word at a position, 0 past the end.
unfoldable pub word_at : ℕ → BitSet → ℕ
word_at i [] = 0
word_at zero (w ∷ bits) = w
word_at (suc i) (w ∷ bits) = word_at i bits

contains_word :
    (bits : BitSet) (i j : ℕ)
    → elim (get_elem? bits i) [ none ↦ false | some w ↦ test_bit j w ] ≡ test_bit j (word_at i bits)
unfolding word_at
contains_word [] i j = ground (arith, test_bit-zero j)
contains_word (w ∷ bits) zero j = refl
contains_word (w ∷ bits) (suc i) j = contains_word bits i j

pub contains-word_at :
    (j : ℕ) (bits : BitSet) → contains j bits ≡ test_bit (j % 64) (word_at (j / 64) bits)
unfolding contains
contains-word_at j bits = contains_word bits (j / 64) (j % 64)

word_at-add_word : (i k : ℕ) (bits : BitSet) → word_at i (bits ++ 0 ∷ []) ≡ word_at i bits
unfolding word_at
word_at-add_word zero k [] = refl
word_at-add_word (suc i) k [] = refl
word_at-add_word zero k (w ∷ bits) = refl
word_at-add_word (suc i) k (w ∷ bits) = word_at-add_word i k bits

word_at-modify :
    (i j : ℕ) (f : ℕ → ℕ) (bits : BitSet)
    → i < length bits
    → word_at j (modify i f bits) ≡ (if i == j then f (word_at j bits) else word_at j bits)
unfolding word_at modify
word_at-modify i j f [] h = absurd (omega arith)
word_at-modify zero zero f (w ∷ bits) h = refl
word_at-modify zero (suc j) f (w ∷ bits) h = ground arith
word_at-modify (suc i) zero f (w ∷ bits) h = ground arith
word_at-modify (suc i) (suc j) f (w ∷ bits) h =
    ground (arith, word_at-modify i j f bits (omega arith))

length-snoc : (bits : BitSet) → length (bits ++ 0 ∷ []) ≡ suc (length bits)
length-snoc [] = refl
length-snoc (w ∷ bits) = omega (arith, length-snoc bits)

add_word-covers : (i : ℕ) (bits : BitSet) → i ≤ length bits → i < length (add_word i bits)
unfolding add_word
add_word-covers i bits h = ground (arith, length-snoc bits)

word_at_add : (i j : ℕ) (bits : BitSet) → word_at j (add_word i bits) ≡ word_at j bits
unfolding add_word
word_at_add i j bits = ground (arith, word_at-add_word j 0 bits)

pub same_bit : (b j : ℕ) → b / 64 ≡ j / 64 → b % 64 ≡ j % 64 → b ≡ j
same_bit b j h k = omega arith

-- A write of one bit through its word, for either operation.
contains-write :
    (v : Bool) (write : ℕ → ℕ → ℕ)
    → ((b j w : ℕ) → test_bit j (write b w) ≡ (if b == j then v else test_bit j w))
    → (b j : ℕ) (bits : BitSet) → b / 64 ≤ length bits
    → contains j (modify (b / 64) (write (b % 64)) (add_word (b / 64) bits))
      ≡ (if b == j then v else contains j bits)
contains-write v write law b j bits h =
    rw
      (
        contains-word_at,
        word_at-modify (b / 64) (j / 64) (write (b % 64)) (add_word (b / 64) bits)
            (add_word-covers (b / 64) bits h),
        word_at_add (b / 64) (j / 64) bits,
      )
      (ground (
        arith,
        contains-word_at j bits,
        law (b % 64) (j % 64) (word_at (j / 64) bits),
        same_bit b j,
      ))

-- After BitSet::Set of an id whose word is in the vector or just past it, the set contains that id
-- and what it contained before.
pub contains-set :
    (b j : ℕ) (bits : BitSet)
    → b / 64 ≤ length bits
    → contains j (set b bits) ≡ (if b == j then true else contains j bits)
unfolding set
contains-set b j bits h = ground (arith, contains-write true set_bit test_bit-set_bit b j bits h)

-- An id whose word is not in the vector, nor the one just past it, is silently not recorded.
pub set_beyond : (b : ℕ) (bits : BitSet) → length bits < b / 64 → set b bits ≡ bits
unfolding set
set_beyond b bits h = ground arith

word_at_beyond : (i : ℕ) (bits : BitSet) → length bits ≤ i → word_at i bits ≡ 0
unfolding word_at
word_at_beyond i [] h = refl
word_at_beyond zero (w ∷ bits) h = absurd (omega arith)
word_at_beyond (suc i) (w ∷ bits) h = word_at_beyond i bits (omega arith)

contains_beyond : (b : ℕ) (bits : BitSet) → length bits ≤ b / 64 → contains b bits ≡ false
contains_beyond b bits h =
    rw (contains-word_at, word_at_beyond (b / 64) bits h) (test_bit-zero (b % 64))

clear_write :
    (b j : ℕ) (bits : BitSet)
    → b / 64 ≤ length bits
    → contains j (clear b bits) ≡ (if b == j then false else contains j bits)
unfolding clear
clear_write b j bits h =
    ground (arith, contains-write false clear_bit test_bit-clear_bit b j bits h)

clear_beyond : (b : ℕ) (bits : BitSet) → length bits < b / 64 → clear b bits ≡ bits
unfolding clear
clear_beyond b bits h = ground arith

-- After BitSet::Clear of any id, the set contains what it contained before less that id.
pub contains-clear :
    (b j : ℕ) (bits : BitSet)
    → contains j (clear b bits) ≡ (if b == j then false else contains j bits)
contains-clear b j bits =
    ground (arith, clear_write b j bits, clear_beyond b bits, contains_beyond b bits)

-- Every word is a 64-bit pattern.
abbrev pub IsBitSet : BitSet → Type 0
IsBitSet = All (λ w. w < 2 ^ 64)

pub id_split : (i b : ℕ) → b < 64 → ((i * 64 + b) / 64 ≡ i) × ((i * 64 + b) % 64 ≡ b)
id_split i b h = omega arith

contains-zero-word : (bits : BitSet) → is_empty bits ≡ true → (i : ℕ) → word_at i bits ≡ 0
unfolding is_empty word_at
contains-zero-word [] h i = refl
contains-zero-word (w ∷ bits) h zero = ground arith
contains-zero-word (w ∷ bits) h (suc i) = contains-zero-word bits (ground arith) i

nonzero_word :
    (bits : BitSet)
    → IsBitSet bits
    → is_empty bits ≡ false
    → (i : ℕ) × (0 < word_at i bits) × (word_at i bits < 2 ^ 64)
unfolding is_empty word_at
nonzero_word [] v h = absurd (cc)
nonzero_word (w ∷ bits) v h = elim (Bool-cases (w == 0)) [
  | inl z ↦ let (i, p, q) = nonzero_word bits v.1 (ground arith) in (suc i, p, q)
  | inr nz ↦ (0, ground arith, v.0)
]

-- A set that IsEmpty calls empty contains no id.
pub is_empty-none : (bits : BitSet) → is_empty bits ≡ true → (j : ℕ) → contains j bits ≡ false
is_empty-none bits h j =
    rw (contains-word_at, contains-zero-word bits h (j / 64)) (test_bit-zero (j % 64))

pub not-is_empty :
    (bits : BitSet) → IsBitSet bits → is_empty bits ≡ false → (j : ℕ) × (contains j bits ≡ true)
not-is_empty bits v h =
    let (i, p, q) = nonzero_word bits v h in
    let (b, lt, t) = set_bit_exists 64 (word_at i bits) p q in
    (i * 64 + b, rw (contains-word_at, (id_split i b lt).0, (id_split i b lt).1) t)
