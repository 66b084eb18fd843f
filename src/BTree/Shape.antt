-- ===== src/BTree/Shape.antt =====
-- The insertion of a node in lib/BTree.cpp and the shape of its tree.
use zql.Prelude.{
  ℕ, ◌<◌, ◌≡◌, ◌≢◌, sym, ap, ◌∙◌, ◌⊎◌, inl, inr, none, some, List, ◌∷◌, arith, length,
}
use mathlib.Core.Path.{subst}
use zql.BTree.{BTreeNode}
use zql.BTree.Nodes.{
  Side, child_of, child, Reaches, at_root, turn, IsTree, grown, Missing, length-grown,
}
use zql.BTree.Insert.{child-back, created-none}

pub Reaches-inside :
    {nodes : List BTreeNode} {root : ℕ} {s : List Side} {m : ℕ}
    → IsTree nodes root
    → Reaches nodes root s m
    → m < length nodes
Reaches-inside tree at_root = tree.rooted
Reaches-inside tree (turn e way h) = tree.linked e _ _ h

module _ (nodes : List BTreeNode) (root : ℕ) (d : Side) (n : ℕ) (node created : BTreeNode)
    (gap : Missing nodes d n node) (leaf : (e : Side) → child_of e created ≡ none)
    (tree : IsTree nodes root) where
  abbrev after : List BTreeNode
  after = grown nodes d n node created

  -- A way to the new node: one to its parent, and the turn to it.
  abbrev IsNew : List Side → ℕ → Type 0
  IsNew s m = (m ≡ length nodes) × (way : List Side) × (s ≡ d ∷ way) × Reaches nodes root way n

  pub Reaches-back :
      {s : List Side} {m : ℕ} → Reaches after root s m → (Reaches nodes root s m) ⊎ (IsNew s m)
  Reaches-back at_root = inl at_root
  Reaches-back (turn {s} {n = k} {m} e way h) = elim (Reaches-back way) [
    | inl old ↦ elim (child-back nodes d n node created gap leaf e k m h) [
      | inl c ↦ inl (turn e old c)
      | inr new ↦
          inr (new.2, s, ap (λ x. x ∷ s) new.0, subst (λ x. Reaches nodes root s x) (sym new.1) old)
    ]
    | inr new ↦
        absurd (differ (sym (created-none nodes d n node created gap leaf e k (sym new.0)) ∙ h))
  ]
    where
      differ : none ≢ some m
      differ x = cc

  single-after : (s t : List Side) (m : ℕ) → Reaches after root s m → Reaches after root t m → s ≡ t
  single-after s t m p q = both (Reaches-back p) (Reaches-back q)
    where
      both : (Reaches nodes root s m) ⊎ (IsNew s m) → (Reaches nodes root t m) ⊎ (IsNew t m) → s ≡ t
      both (inl a) (inl b) = tree.single s t m a b
      both (inl a) (inr b) = absurd (omega (arith, Reaches-inside tree a, b.0))
      both (inr a) (inl b) = absurd (omega (arith, Reaches-inside tree b, a.0))
      both (inr a) (inr b) = a.2 ∙ ap (λ x. d ∷ x) (tree.single a.1 b.1 n a.3 b.3) ∙ sym b.2

  linked-after : (e : Side) (a m : ℕ) → child after e a ≡ some m → m < length after
  linked-after e a m h =
      rw (length-grown nodes d n node created gap)
        (elim (child-back nodes d n node created gap leaf e a m h) [
          | inl old ↦ omega (arith, tree.linked e a m old)
          | inr new ↦ omega (arith, new.2)
        ])

  pub grown-IsTree : IsTree after root
  grown-IsTree = record {
    rooted = omega (arith, tree.rooted, length-grown nodes d n node created gap);
    linked = linked-after;
    single = single-after;
  }
