-- ===== src/Capcom/Registry/Views.antt =====
-- capcom/capcom.h and subsystem.h: what holds of the links between registered subsystems, seen as a
-- map of addresses to names, children and parents.
pub mod Steps
use adastra.Prelude.{
  ℕ, suc, ◌+◌, ◌-◌, ◌<◌, ◌≤◌, ◌≡◌, refl, sym, Bool, true, false, ◌||◌, Option, none, some, List, [],
  ◌∷◌, ◌++◌, ◌⊎◌, ◌==◌, if◌then◌else◌, elem_of, arith, Bool-cases, Option-cases, inl, inr,
}
use adastra.Capcom.Registry.Removal.{erase_first}
use adastra.Capcom.Registry.Links.{
  count, count-snoc, count-elem_of, elem_of-count, count-erase_first, erase_first-found,
  erase_first-elem_of, elem_of-snoc,
}

pub record Shape : Type 0 where
  pub name : ℕ
  pub children : List ℕ
  pub parents : List ℕ

-- Addresses are given out in order; a name leads to a subsystem of that name; children exist and are
-- older; parents exist; and a subsystem is a child of another as often as that is its parent.
pub record Wired (next : ℕ) (names : ℕ → Option ℕ) (view : ℕ → Option Shape) : Type 0 where
  pub fresh : (x : ℕ) (s : Shape) → view x ≡ some s → x < next
  pub named : (n x : ℕ) → names n ≡ some x → (s : Shape) × ((view x ≡ some s) × (s.name ≡ n))
  pub older :
      (x c : ℕ) (s : Shape)
      → view x ≡ some s
      → elem_of c s.children ≡ true
      → (c < x) × ((t : Shape) × (view c ≡ some t))
  pub known :
      (x p : ℕ) (s : Shape)
      → view x ≡ some s
      → elem_of p s.parents ≡ true
      → (t : Shape) × (view p ≡ some t)
  pub linked :
      (x c : ℕ) (s t : Shape)
      → view x ≡ some s
      → view c ≡ some t
      → count c s.children ≡ count x t.parents

-- The same links, with fewer names.
pub Wired-ext :
    (next : ℕ) (names names' : ℕ → Option ℕ) (view view' : ℕ → Option Shape)
    → ((n x : ℕ) → names' n ≡ some x → names n ≡ some x)
    → ((x : ℕ) → view x ≡ view' x)
    → Wired next names view
    → Wired next names' view'
Wired-ext next names names' view view' fewer same w = record {
  fresh = λ x s h. w.fresh x s (rw (same x) h);
  named =
      λ n x h. let (s, (found, q)) = w.named n x (fewer n x h) in (s, (rw (sym (same x)) found, q));
  older = λ x c s h m.
      let (less, (t, found)) = w.older x c s (rw (same x) h) m in
      (less, (t, rw (sym (same c)) found));
  known =
      λ x p s h m. let (t, found) = w.known x p s (rw (same x) h) m in (t, rw (sym (same p)) found);
  linked = λ x c s t h k. w.linked x c s t (rw (same x) h) (rw (same c) k);
}

abbrev pub stands : ℕ → Shape
stands n = record { name = n; children = []; parents = [] }

-- What is not there yet has no links.
no-parent :
    (next a : ℕ) (names : ℕ → Option ℕ) (view : ℕ → Option Shape) (c : ℕ) (t : Shape)
    → next ≤ a
    → Wired next names view
    → view c ≡ some t
    → count a t.parents ≡ 0
no-parent next a names view c t new w k =
    count-elem_of a t.parents (elim (Bool-cases (elem_of a t.parents)) [
      | inr absent ↦ absent
      | inl there ↦
          let (s, found) = w.known c a t k there in absurd (omega (arith, w.fresh a s found))
    ])

no-child :
    (next a : ℕ) (names : ℕ → Option ℕ) (view : ℕ → Option Shape) (x : ℕ) (s : Shape)
    → next ≤ a
    → Wired next names view
    → view x ≡ some s
    → count a s.children ≡ 0
no-child next a names view x s new w h =
    count-elem_of a s.children (elim (Bool-cases (elem_of a s.children)) [
      | inr absent ↦ absent
      | inl there ↦
          let (less, (t, found)) = w.older x a s h there in
          absurd (omega (arith, w.fresh a t found))
    ])

-- A new subsystem, without links, under a name.
pub Wired-new :
    (next a n : ℕ) (names : ℕ → Option ℕ) (view : ℕ → Option Shape)
    → next ≤ a
    → Wired next names view
    → Wired
        (suc a)
        (λ m. if n == m then some a else names m)
        (λ x. if a == x then some (stands n) else view x)
unfolding elem_of count
Wired-new next a n names view new w =
    let old : (x : ℕ) (s : Shape) → view x ≡ some s → (a == x) ≡ false =
      λ x s h. ground (arith, w.fresh x s h) in
    record {
      fresh = λ x s h. ground (arith, w.fresh x s);
      named = λ m x h. elim (Bool-cases (n == m)) [
        | inl same ↦ (stands n, (ground arith, ground arith))
        | inr other ↦
            let (s, (found, q)) = w.named m x (ground arith) in (s, (rw (old x s found) found, q))
      ];
      older = λ x c s h m. elim (Bool-cases (a == x)) [
        | inl same ↦ absurd (ground arith)
        | inr other ↦
            let (less, (t, found)) = w.older x c s (ground arith) m in
            (less, (t, rw (old c t found) found))
      ];
      known = λ x p s h m. elim (Bool-cases (a == x)) [
        | inl same ↦ absurd (ground arith)
        | inr other ↦
            let (t, found) = w.known x p s (ground arith) m in (t, rw (old p t found) found)
      ];
      linked = λ x c s t h k. elim (Bool-cases (a == x)) [
        | inl same ↦ elim (Bool-cases (a == c)) [
          | inl both ↦ ground arith
          | inr other ↦
              let q : view c ≡ some t = ground arith in
              let z = no-parent next a names view c t new w q in
              let p : a ≡ x = ground arith in
              let e : s.children ≡ [] = ground arith in rw (sym p, e, z) refl
        ]
        | inr other ↦ elim (Bool-cases (a == c)) [
          | inl it ↦
              let q : view x ≡ some s = ground arith in
              let z = no-child next a names view x s new w q in
              let p : a ≡ c = ground arith in
              let e : t.parents ≡ [] = ground arith in rw (sym p, e, z) refl
          | inr both ↦ w.linked x c s t (ground arith) (ground arith)
        ]
      ];
    }

abbrev pub change : (Shape → Shape) → Option Shape → Option Shape
change f none = none
change f (some s) = some (f s)

-- Links that are changed address by address.
abbrev pub relink : (ℕ → List ℕ → List ℕ) → (ℕ → List ℕ → List ℕ) → ℕ → Shape → Shape
relink cs ps x s = record { name = s.name; children = cs x s.children; parents = ps x s.parents }

abbrev pub relinked :
    (ℕ → List ℕ → List ℕ) → (ℕ → List ℕ → List ℕ) → (ℕ → Option Shape) → ℕ → Option Shape
relinked cs ps view x = change (relink cs ps x) (view x)

change-inv :
    (f : Shape → Shape) (o : Option Shape) (t : Shape)
    → change f o ≡ some t
    → (s : Shape) × ((o ≡ some s) × (f s ≡ t))
change-inv f none t h = absurd (cc)
change-inv f (some s) t h = (s, (refl, ground arith))

pub change-found :
    (f : Shape → Shape) (o : Option Shape) (s : Shape)
    → o ≡ some s
    → (t : Shape) × (change f o ≡ some t)
change-found f o s h = (f s, rw h refl)

-- Links that only come from where they were, or join two subsystems that exist, the child older.
relinked-Wired :
    (next a c : ℕ) (names : ℕ → Option ℕ) (view : ℕ → Option Shape) (cs ps : ℕ → List ℕ → List ℕ)
    → Wired next names view
    → c < a
    → (s : Shape) × (view a ≡ some s)
    → (t : Shape) × (view c ≡ some t)
    → ((x d : ℕ) (s : Shape)
        → view x ≡ some s
        → elem_of d (cs x s.children) ≡ true
        → (elem_of d s.children ≡ true) ⊎ ((x ≡ a) × (d ≡ c)))
    → ((x p : ℕ) (s : Shape)
        → view x ≡ some s
        → elem_of p (ps x s.parents) ≡ true
        → (elem_of p s.parents ≡ true) ⊎ (p ≡ a))
    → ((x d : ℕ) (s t : Shape)
        → view x ≡ some s
        → view d ≡ some t
        → count d (cs x s.children) ≡ count x (ps d t.parents))
    → Wired next names (relinked cs ps view)
relinked-Wired next a c names view cs ps w less at_a at_c few_children few_parents counts = record {
  fresh =
      λ x t h. let (s, (found, q)) = change-inv (relink cs ps x) (view x) t h in w.fresh x s found;
  named = λ n x h. let (s, (found, q)) = w.named n x h in (relink cs ps x s, (rw found refl, q));
  older = λ x d t h m.
      let (s, (found, q)) = change-inv (relink cs ps x) (view x) t h in
      elim (few_children x d s found (rw (sym q) at m)) [
        | inl old ↦
            let (younger, (u, there)) = w.older x d s found old in
            (younger, change-found (relink cs ps d) (view d) u there)
        | inr (p, r) ↦ (rw (p, r) less, rw r (change-found (relink cs ps c) (view c) at_c.0 at_c.1))
      ];
  known = λ x p t h m.
      let (s, (found, q)) = change-inv (relink cs ps x) (view x) t h in
      elim (few_parents x p s found (rw (sym q) at m)) [
        | inl old ↦
            let (u, there) = w.known x p s found old in
            change-found (relink cs ps p) (view p) u there
        | inr r ↦ rw r (change-found (relink cs ps a) (view a) at_a.0 at_a.1)
      ];
  linked = λ x d s t h k.
      let (s', (found, q)) = change-inv (relink cs ps x) (view x) s h in
      let (t', (there, r)) = change-inv (relink cs ps d) (view d) t k in
      rw (sym q, sym r) (counts x d s' t' found there);
}
