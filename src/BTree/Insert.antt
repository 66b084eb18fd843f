-- ===== src/BTree/Insert.antt =====
-- What a new child does to the ways through a tree of lib/BTree.cpp.
use zql.Prelude.{
  ℕ, suc, ◌<◌, ◌≡◌, ◌≢◌, refl, sym, ◌∙◌, ◌⊎◌, inl, inr, Option, none, some, List, arith, length,
  get_elem?, get_elem?-below,
}
use mathlib.Core.Path.{subst}
use zql.BTree.{BTreeNode}
use zql.BTree.Nodes.{
  Side, child_of, link, child, Reaches, at_root, turn, grown, Missing, length-grown, elem-at,
  elem-below, elem-new, same-or-other, child-link, link-child, link_self,
}

pub child-some :
    (nodes : List BTreeNode) (d : Side) (a m : ℕ) (node : BTreeNode)
    → get_elem? nodes a ≡ some node
    → child nodes d a ≡ child_of d node
unfolding child
child-some nodes d a m node h = rw (h, child) refl

pub child-node :
    (nodes : List BTreeNode) (e : Side) (a m : ℕ)
    → child nodes e a ≡ some m
    → (x : BTreeNode) × (get_elem? nodes a ≡ some x) × (child_of e x ≡ some m)
unfolding child
child-node nodes e a m h = go (get_elem? nodes a) refl h
  where
    go :
        (o : Option BTreeNode)
        → get_elem? nodes a ≡ o
        → elim o [ none ↦ none | some x ↦ child_of e x ] ≡ some m
        → (x : BTreeNode) × (get_elem? nodes a ≡ some x) × (child_of e x ≡ some m)
    go none g k = cc
    go (some x) g k = (x, g, k)

pub child-inside :
    (nodes : List BTreeNode) (e : Side) (a m : ℕ) → child nodes e a ≡ some m → a < length nodes
child-inside nodes e a m h =
    let found = child-node nodes e a m h in get_elem?-below nodes a found.0 found.1

module _ (nodes : List BTreeNode) (d : Side) (n : ℕ) (node created : BTreeNode)
    (gap : Missing nodes d n node) where
  child-at :
      (e : Side)
      → child (grown nodes d n node created) e n ≡ child_of e (link d node (length nodes))
  unfolding child
  child-at e = rw (elem-at nodes d n node created gap, child) refl

  child-below :
      (e : Side) (a : ℕ)
      → n ≢ a
      → a < length nodes
      → child (grown nodes d n node created) e a ≡ child nodes e a
  unfolding child
  child-below e a other h = rw (elem-below nodes d n node created gap a other h, child) refl

  pub child-created : child (grown nodes d n node created) d n ≡ some (length nodes)
  child-created = child-at d ∙ link_self d node (length nodes)

  kept-at :
      (e : Side) (m : ℕ)
      → child nodes e n ≡ some m
      → child (grown nodes d n node created) e n ≡ some m
  kept-at e m h =
      child-at e
      ∙ link-child d e node (length nodes) m gap.missing
          (sym (child-some nodes e n m node gap.here) ∙ h)

  -- The children that were there stay.
  pub child-kept :
      (e : Side) (a m : ℕ)
      → child nodes e a ≡ some m
      → child (grown nodes d n node created) e a ≡ some m
  child-kept e a m h = elim (same-or-other n a) [
    | inl same ↦ rw (← same) (kept-at e m (rw same h))
    | inr other ↦ child-below e a other (child-inside nodes e a m h) ∙ h
  ]

  -- The ways that were there stay.
  pub Reaches-kept :
      {root : ℕ} {s : List Side} {m : ℕ}
      → Reaches nodes root s m
      → Reaches (grown nodes d n node created) root s m
  Reaches-kept at_root = at_root
  Reaches-kept (turn e way h) = turn e (Reaches-kept way) (child-kept e _ _ h)

module _ (nodes : List BTreeNode) (d : Side) (n : ℕ) (node created : BTreeNode)
    (gap : Missing nodes d n node) (leaf : (e : Side) → child_of e created ≡ none) where
  abbrev after : List BTreeNode
  after = grown nodes d n node created

  back-at :
      (e : Side) (m : ℕ)
      → child after e n ≡ some m
      → (child nodes e n ≡ some m) ⊎ ((e ≡ d) × (m ≡ length nodes))
  back-at e m h =
      elim (child-link d e node (length nodes) m gap.missing
        (sym (child-at nodes d n node created gap e) ∙ h)) [
          | inl old ↦ inl (child-some nodes e n m node gap.here ∙ old)
          | inr new ↦ inr new
        ]

  pub created-none : (e : Side) (a : ℕ) → length nodes ≡ a → child after e a ≡ none
  created-none e a same =
      subst (λ b. child after e b ≡ none) same
        (child-some after e (length nodes) 0 created (elem-new nodes d n node created gap) ∙ leaf e)

  child-back_below :
      (e : Side) (a m : ℕ)
      → a < length nodes
      → child after e a ≡ some m
      → (child nodes e a ≡ some m) ⊎ ((e ≡ d) × (n ≡ a) × (m ≡ length nodes))
  child-back_below e a m lt h = elim (same-or-other n a) [
    | inl same ↦ elim (back-at e m (subst (λ b. child after e b ≡ some m) (sym same) h)) [
      | inl old ↦ inl (rw (← same) old)
      | inr new ↦ inr (new.0, same, new.1)
    ]
    | inr other ↦ inl (sym (child-below nodes d n node created gap e a other lt) ∙ h)
  ]

  -- The only new child is the one made.
  pub child-back :
      (e : Side) (a m : ℕ)
      → child after e a ≡ some m
      → (child nodes e a ≡ some m) ⊎ ((e ≡ d) × (n ≡ a) × (m ≡ length nodes))
  child-back e a m h = elim (same-or-other (length nodes) a) [
    | inl same ↦ absurd (differ (sym (created-none e a same) ∙ h))
    | inr other ↦ child-back_below e a m (omega (arith, bound)) h
  ]
    where
      differ : none ≢ some m
      differ k = cc

      bound : a < suc (length nodes)
      bound = omega (arith, child-inside after e a m h, length-grown nodes d n node created gap)
