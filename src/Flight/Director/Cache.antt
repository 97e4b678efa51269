-- ===== src/Flight/Director/Cache.antt =====
-- flight/flight_director.cc: CacheEvent and DumpEventCache.
use adastra.Prelude.{
  ℕ, suc, zero, ◌+◌, ◌-◌, ◌≤◌, ◌<◌, ◌≡◌, refl, ap, ◌∙◌, sym, append-nil, append_assoc, Bool-cases,
  inl, inr, List, [], ◌∷◌, ◌++◌, ◌==◌, arith, length, if◌then◌else◌,
}

-- `event_cache_` and `num_cached_events_`. An event is a number: it is only kept and sent.
pub record Cache : Type 0 where
  pub event_cache : List ℕ
  pub num_cached_events : ℕ

-- kMaxEvents.
pub max_events : ℕ
max_events = 16384

abbrev pub pop_front : List ℕ → List ℕ
pop_front [] = []
pop_front (e ∷ events) = events

unfoldable pub cache_event : ℕ → Cache → Cache
cache_event e c =
    let full = c.num_cached_events == max_events in
    record {
      event_cache = (if full then pop_front c.event_cache else c.event_cache) ++ e ∷ [];
      num_cached_events = (if full then c.num_cached_events - 1 else c.num_cached_events) + 1;
    }

unfoldable pub cache_all : List ℕ → Cache → Cache
cache_all [] c = c
cache_all (e ∷ events) c = cache_all events (cache_event e c)

abbrev pub drop : ℕ → List ℕ → List ℕ
drop zero xs = xs
drop (suc n) [] = []
drop (suc n) (x ∷ xs) = drop n xs

-- Of all the events, the cache has the last kMaxEvents.
abbrev pub newest : List ℕ → List ℕ
newest events = drop (length events - max_events) events

pub record Holds (all : List ℕ) (c : Cache) : Type 0 where
  pub kept : c.event_cache ≡ newest all
  pub counted : c.num_cached_events ≡ length c.event_cache
  pub bounded : c.num_cached_events ≤ max_events

max_pos : 1 ≤ max_events
unfolding max_events
max_pos = omega arith

drop-suc : (n : ℕ) (xs : List ℕ) → drop (suc n) xs ≡ pop_front (drop n xs)
drop-suc zero [] = refl
drop-suc zero (x ∷ xs) = refl
drop-suc (suc n) [] = refl
drop-suc (suc n) (x ∷ xs) = drop-suc n xs

drop-append : (n : ℕ) (xs ys : List ℕ) → n ≤ length xs → drop n (xs ++ ys) ≡ drop n xs ++ ys
drop-append zero xs ys h = refl
drop-append (suc n) [] ys h = absurd (omega arith)
drop-append (suc n) (x ∷ xs) ys h = drop-append n xs ys (omega arith)

length-drop : (n : ℕ) (xs : List ℕ) → length (drop n xs) ≡ length xs - n
length-drop zero xs = omega arith
length-drop (suc n) [] = omega arith
length-drop (suc n) (x ∷ xs) = omega (arith, length-drop n xs)

length-pop_front : (xs : List ℕ) → length (pop_front xs) ≡ length xs - 1
length-pop_front [] = omega arith
length-pop_front (x ∷ xs) = omega arith

length-snoc : (xs : List ℕ) (e : ℕ) → length (xs ++ e ∷ []) ≡ length xs + 1
length-snoc [] e = omega arith
length-snoc (x ∷ xs) e = omega (arith, length-snoc xs e)

newest-snoc_full :
    (all : List ℕ) (e : ℕ)
    → max_events ≤ length all
    → newest (all ++ e ∷ []) ≡ pop_front (newest all) ++ e ∷ []
newest-snoc_full all e h =
    let n = length all - max_events in
    let count : length (all ++ e ∷ []) - max_events ≡ suc n = omega (arith, length-snoc all e) in
    rw count (
      drop-append (suc n) all (e ∷ []) (omega (arith, max_pos))
      ∙ ap (λ (xs : List ℕ). xs ++ e ∷ []) (drop-suc n all))

newest-snoc_room :
    (all : List ℕ) (e : ℕ) → length all < max_events → newest (all ++ e ∷ []) ≡ newest all ++ e ∷ []
newest-snoc_room all e h =
    let count : length (all ++ e ∷ []) - max_events ≡ 0 = omega (arith, length-snoc all e) in
    let none_old : length all - max_events ≡ 0 = omega arith in rw (count, none_old) refl

cache_event-Holds :
    (all : List ℕ) (e : ℕ) (c : Cache) → Holds all c → Holds (all ++ e ∷ []) (cache_event e c)
unfolding cache_event
cache_event-Holds all e c h =
    let size : c.num_cached_events ≡ length all - (length all - max_events) =
      h.counted ∙ (ap length h.kept ∙ length-drop (length all - max_events) all) in
    elim (Bool-cases (c.num_cached_events == max_events)) [
      | inl full ↦ record {
        kept = rw full (rw h.kept (sym (newest-snoc_full all e (ground (arith, h.bounded)))));
        counted = rw full (
            ground (
              arith,
              max_pos,
              h.counted,
              length-pop_front c.event_cache,
              length-snoc (pop_front c.event_cache) e,
            ));
        bounded = rw full (ground (arith, max_pos));
      }
      | inr room ↦ record {
        kept = rw room (rw h.kept (sym (newest-snoc_room all e (ground (arith, h.bounded)))));
        counted = rw room (ground (arith, h.counted, length-snoc c.event_cache e));
        bounded = rw room (ground (arith, h.bounded));
      }
    ]

-- From a cache that holds the last kMaxEvents of the events before, caching more events leaves the
-- last kMaxEvents of all of them, in their order, the right count of them, and never more than
-- kMaxEvents.
pub cache_all-Holds :
    (before events : List ℕ) (c : Cache)
    → Holds before c
    → Holds (before ++ events) (cache_all events c)
unfolding cache_all
cache_all-Holds before [] c h = rw (append-nil before) h
cache_all-Holds before (e ∷ events) c h =
    rw (sym (append_assoc before (e ∷ []) events))
      (cache_all-Holds (before ++ e ∷ []) events (cache_event e c) (cache_event-Holds before e c h))
