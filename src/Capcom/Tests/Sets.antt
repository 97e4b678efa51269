-- ===== src/Capcom/Tests/Sets.antt =====
-- The data structures' theorems at concrete values (capcom/bitset.h, capcom/umbilical.cc).
