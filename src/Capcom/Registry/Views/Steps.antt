-- ===== src/Capcom/Registry/Views/Steps.antt =====
-- capcom/subsystem.h: AddChild with AddParent, and RemoveParent, on links that agree.
use adastra.Prelude.{
  ℕ, ◌<◌, ◌≡◌, sym, true, Option, some, List, [], ◌∷◌, ◌++◌, ◌∙◌, ◌==◌, if◌then◌else◌, elem_of,
  arith, Bool-cases, inl, inr,
}
use adastra.Capcom.Registry.Removal.{erase_first}
use adastra.Capcom.Registry.Links.{
  count, count-snoc, count-elem_of, count-erase_first, erase_first-elem_of, elem_of-snoc,
}
use adastra.Capcom.Registry.Views.{Shape, Wired, relinked, relinked-Wired}

abbrev pub with_child : ℕ → ℕ → ℕ → List ℕ → List ℕ
with_child a c x children = if a == x then children ++ c ∷ [] else children

abbrev pub without_parent : ℕ → ℕ → ℕ → List ℕ → List ℕ
without_parent a c x parents = if c == x then (erase_first a parents).0 else parents

abbrev pub with_left : ℕ → List ℕ → ℕ → List ℕ → List ℕ
with_left a left x children = if a == x then left else children

module _ (next : ℕ) (names : ℕ → Option ℕ) (view : ℕ → Option Shape) (a c : ℕ) where
  pub linked-Wired :
      Wired next names view
      → c < a
      → (s : Shape) × (view a ≡ some s)
      → (t : Shape) × (view c ≡ some t)
      → Wired next names (relinked (with_child a c) (with_child c a) view)
  unfolding elem_of
  linked-Wired w less at_a at_c =
      relinked-Wired next a c names view (with_child a c) (with_child c a) w less at_a at_c
        (λ x d s h m. elim (Bool-cases (a == x)) [
          | inr other ↦ inl (ground arith)
          | inl same ↦ elim (Bool-cases (c == d)) [
            | inl it ↦ inr (ground arith, ground arith)
            | inr another ↦ inl (ground (arith, elem_of-snoc d s.children c))
          ]
        ])
        (λ x p s h m. elim (Bool-cases (c == x)) [
          | inr other ↦ inl (ground arith)
          | inl same ↦ elim (Bool-cases (a == p)) [
            | inl it ↦ inr (ground arith)
            | inr another ↦ inl (ground (arith, elem_of-snoc p s.parents a))
          ]
        ])
        (λ x d s t h k.
          ground (arith, w.linked x d s t h k, count-snoc d s.children c, count-snoc x t.parents a))

  same-children :
      (left : List ℕ) (x : ℕ) (s0 s : Shape)
      → view a ≡ some s0
      → s0.children ≡ c ∷ left
      → view x ≡ some s
      → (a == x) ≡ true
      → s.children ≡ c ∷ left
  same-children left x s0 s at_a e h same =
      let q : x ≡ a = ground arith in
      let r : some s ≡ some s0 = sym (rw q at h) ∙ at_a in let k : s ≡ s0 = cc in rw k e

  pub unlinked-Wired :
      (left : List ℕ)
      → Wired next names view
      → (s : Shape) × ((view a ≡ some s) × (s.children ≡ c ∷ left))
      → Wired next names (relinked (with_left a left) (without_parent a c) view)
  unfolding elem_of count
  unlinked-Wired left w (s0, (at_a, e)) =
      let m0 : elem_of c s0.children ≡ true = rw e (ground arith) in
      let (less, at_c) = w.older a c s0 at_a m0 in
      relinked-Wired next a c names view (with_left a left) (without_parent a c) w less (s0, at_a)
        at_c
        (λ x d s h m. elim (Bool-cases (a == x)) [
          | inr other ↦ inl (ground arith)
          | inl same ↦ let k = same-children left x s0 s at_a e h same in inl (rw k (ground arith))
        ])
        (λ x p s h m. elim (Bool-cases (c == x)) [
          | inr other ↦ inl (ground arith)
          | inl same ↦ inl (erase_first-elem_of a p s.parents (ground arith))
        ])
        (λ x d s t h k. elim (Bool-cases (a == x)) [
          | inr other ↦ ground (arith, w.linked x d s t h k, count-erase_first a x t.parents)
          | inl same ↦
              let q = same-children left x s0 s at_a e h same in
              ground (
                arith,
                w.linked x d s t h k,
                count-erase_first a x t.parents,
                count-elem_of a t.parents,
              )
        ])
