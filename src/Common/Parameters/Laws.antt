-- ===== src/Common/Parameters/Laws.antt =====
-- common/parameters.cc: what the maps of nodes answer.
use adastra.Prelude.{◌≡◌, refl, true, false, Text, text_eq, text_eq_refl, text_eq_sound, arith}
use adastra.Common.Parameters.{Slot, Nodes, empty, entry, slot_of, put, erase_key}

pub slot_of-put : (p : Text) (s : Slot) (ns : Nodes) → slot_of p (put p s ns) ≡ s
unfolding slot_of put
slot_of-put p s empty = ground (arith, text_eq_refl p)
slot_of-put p s (entry key old rest) = ground (arith, slot_of-put p s rest, text_eq_refl p)

-- Equality of texts is symmetric and transitive as far as the maps need it.
text_eq_other : (p q k : Text) → text_eq p q ≡ false → text_eq k p ≡ true → text_eq k q ≡ false
text_eq_other p q k h same = rw (text_eq_sound k p same) h

pub slot_of-put_other :
    (p q : Text) (s : Slot) (ns : Nodes)
    → text_eq p q ≡ false
    → slot_of q (put p s ns) ≡ slot_of q ns
unfolding slot_of put
slot_of-put_other p q s empty h = ground arith
slot_of-put_other p q s (entry key old rest) h =
    ground (arith, slot_of-put_other p q s rest h, text_eq_other p q key h)

pub slot_of-erase_key : (p : Text) (ns : Nodes) → slot_of p (erase_key p ns) ≡ Slot.null
unfolding slot_of erase_key
slot_of-erase_key p empty = refl
slot_of-erase_key p (entry key s rest) = ground (arith, slot_of-erase_key p rest)

pub slot_of-erase_other :
    (p q : Text) (ns : Nodes) → text_eq p q ≡ false → slot_of q (erase_key p ns) ≡ slot_of q ns
unfolding slot_of erase_key
slot_of-erase_other p q empty h = refl
slot_of-erase_other p q (entry key s rest) h =
    ground (arith, slot_of-erase_other p q rest h, text_eq_other p q key h)
