-- ===== src/BTree/Values.antt =====
-- The values of the nodes of lib/BTree.cpp when a child is made.
use zql.Prelude.{
  ℕ, ◌<◌, ◌≡◌, refl, sym, ◌∙◌, ◌⊎◌, inl, inr, none, some, List, ◌∷◌, length, get_elem?,
  get_elem?-below, get_elem?-inside,
}
use mathlib.Core.Path.{subst}
use zql.Objects.Response.{Ciphertext}
use zql.BTree.{BTreeNode}
use zql.BTree.Nodes.{
  Side, left, right, child_of, link, Reaches, IsTree, grown, Missing, elem-at, elem-below, elem-new,
  same-or-other,
}
use zql.BTree.Insert.{Reaches-kept}
use zql.BTree.Shape.{Reaches-back, Reaches-inside}
use zql.BTree.Search.{Holds, Guided, start, guided}

link-ciphertext :
    (d : Side) (node : BTreeNode) (a : ℕ) → (link d node a).ciphertext ≡ node.ciphertext
unfolding link
link-ciphertext left node a = refl
link-ciphertext right node a = refl

-- Places and values that were there are there.
pub record Grew (nodes nodes' : List BTreeNode) : Type 0 where
  pub reaches :
      (root : ℕ) (s : List Side) (m : ℕ) → Reaches nodes root s m → Reaches nodes' root s m
  pub holds :
      (root : ℕ) (s : List Side) (c : Ciphertext) → Holds nodes root s c → Holds nodes' root s c

-- Two lists of nodes have nodes of one value at an address.
abbrev pub SameValue : BTreeNode → List BTreeNode → ℕ → Type 0
SameValue x nodes a = (y : BTreeNode) × (get_elem? nodes a ≡ some y) × (y.ciphertext ≡ x.ciphertext)

module _ (nodes : List BTreeNode) (d : Side) (n : ℕ) (node created : BTreeNode)
    (gap : Missing nodes d n node) where
  abbrev after : List BTreeNode
  after = grown nodes d n node created

  value-kept : (a : ℕ) (x : BTreeNode) → get_elem? nodes a ≡ some x → SameValue x after a
  value-kept a x e = elim (same-or-other n a) [
    | inl same ↦ (
      link d node (length nodes),
      subst (λ b. get_elem? after b ≡ some (link d node (length nodes))) same
          (elem-at nodes d n node created gap),
      link-ciphertext d node (length nodes) ∙ sym (at_n same),
    )
    | inr other ↦
        (x, elem-below nodes d n node created gap a other (get_elem?-below nodes a x e) ∙ e, refl)
  ]
    where
      at_n : n ≡ a → x.ciphertext ≡ node.ciphertext
      at_n same =
          let here : some x ≡ some node =
            sym e ∙ subst (λ b. get_elem? nodes b ≡ some node) same gap.here in
          cc

  pub value-back :
      (a : ℕ) (y : BTreeNode) → get_elem? after a ≡ some y → a < length nodes → SameValue y nodes a
  value-back a y e old =
      let (x, here) = get_elem?-inside nodes a old in
      let (z, there, same) = value-kept a x here in
      let one : some z ≡ some y = sym there ∙ e in (x, here, cc)

  pub Holds-kept :
      {root : ℕ} {s : List Side} {c : Ciphertext} → Holds nodes root s c → Holds after root s c
  Holds-kept h =
      let (y, here, same) = value-kept h.address h.node h.at in
      record {
        address = h.address;
        node = y;
        way = Reaches-kept nodes d n node created gap h.way;
        at = here;
        value = same ∙ h.value;
      }

  pub Guided-kept :
      {root : ℕ} {v : Ciphertext} {s : List Side} → Guided nodes root v s → Guided after root v s
  Guided-kept start = start
  Guided-kept (guided e c way h turned) = guided e c (Guided-kept way) (Holds-kept h) turned

  pub grown-Grew : Grew nodes after
  grown-Grew = record {
    reaches = λ root s m. Reaches-kept nodes d n node created gap;
    holds = λ root s c. Holds-kept;
  }

  -- What the tree of `root` holds after the child is made.
  abbrev pub Back : ℕ → List Side → Ciphertext → Type 0
  Back root w c =
      (Holds nodes root w c)
      ⊎ ((way : List Side) × (w ≡ d ∷ way)
          × Reaches nodes root way n
          × (created.ciphertext ≡ some c))

  module _ (leaf : (e : Side) → child_of e created ≡ none) (root : ℕ)
      (tree : IsTree nodes root) where
    pub Holds-Back : {w : List Side} {c : Ciphertext} → Holds after root w c → Back root w c
    Holds-Back {w} {c} h = elim (Reaches-back nodes root d n node created gap leaf tree h.way) [
      | inl old ↦
          let (x, here, same) = value-back h.address h.node h.at (Reaches-inside tree old) in
          inl
            (record { address = h.address; node = x; way = old; at = here; value = same ∙ h.value })
      | inr new ↦ inr (new.1, new.2, new.3, value_new new.0)
    ]
      where
        value_new : h.address ≡ length nodes → created.ciphertext ≡ some c
        value_new e =
            let one : some created ≡ some h.node =
              sym (elem-new nodes d n node created gap)
              ∙ subst (λ a. get_elem? after a ≡ some h.node) e h.at in
            let same : created.ciphertext ≡ h.node.ciphertext = cc in same ∙ h.value
