-- ===== src/BTree/Memory.antt =====
-- The trees of all tables in lib/BTree.cpp whatever the bytes are that their Ciphertexts point to. A
-- Ciphertext that comes with a request points into a string that is gone when the request has been
-- handled, so these bytes may be any later on.
use zql.Prelude.{
  ℕ, suc, zero, ◌≡◌, refl, sym, ap, ◌∙◌, inl, inr, Option, none, some, List, [], ◌∷◌, arith, length,
  get_elem?, get_elem?-below,
}
use mathlib.Core.Path.{subst}
use zql.Objects.Row.{Str}
use zql.Objects.Response.{Ciphertext}
use zql.BTree.{BTreeForest, BTreeNode, find_tree, create_tree, tree_id}
use zql.BTree.Nodes.{
  Side, child_of, child, Reaches, at_root, turn, IsTree, grown, Missing, length-grown, elem-new,
  same-or-other,
}
use zql.BTree.Shape.{grown-IsTree}
use zql.BTree.Plant.{IsLinked, planted-IsLinked}
use zql.BTree.Values.{value-back}
use zql.BTree.Planting.{filled_after, plot-IsTree}

-- Every node has a pointer to a ciphertext.
abbrev pub IsFilled : List BTreeNode → Type 0
IsFilled nodes =
    (a : ℕ) (n : BTreeNode)
    → get_elem? nodes a ≡ some n
    → (c : Ciphertext) × (n.ciphertext ≡ some c)

-- The trees of the tables are trees of nodes with ciphertexts.
pub record IsPlanted (f : BTreeForest) : Type 0 where
  pub linked : IsLinked f.nodes
  pub filled : IsFilled f.nodes
  pub tree : (id : Str) (r : ℕ) → find_tree id f.forest ≡ some r → IsTree f.nodes r

-- The pointers stay, and the bytes behind that of the node at `a` are now those that `memory` has.
unfoldable pub overwrite :
    (memory : ℕ → Ciphertext → Ciphertext) (a : ℕ) → List BTreeNode → List BTreeNode
overwrite memory a [] = []
overwrite memory a (n ∷ nodes) =
    record n { ciphertext = elim n.ciphertext [ none ↦ none | some c ↦ some (memory a c) ] }
    ∷ overwrite memory (suc a) nodes

module _ (memory : ℕ → Ciphertext → Ciphertext) where
  pub length-overwrite :
      (k : ℕ) (nodes : List BTreeNode) → length (overwrite memory k nodes) ≡ length nodes
  unfolding overwrite
  length-overwrite k [] = refl
  length-overwrite k (n ∷ nodes) = ap suc (length-overwrite (suc k) nodes)

  pub child-overwrite :
      (k : ℕ) (nodes : List BTreeNode) (d : Side) (a : ℕ)
      → child (overwrite memory k nodes) d a ≡ child nodes d a
  unfolding overwrite child child_of
  child-overwrite k [] d a = refl
  child-overwrite k (n ∷ nodes) Side.left zero = refl
  child-overwrite k (n ∷ nodes) Side.right zero = refl
  child-overwrite k (n ∷ nodes) d (suc a) = child-overwrite (suc k) nodes d a

  overwrite-IsFilled :
      (k : ℕ) (nodes : List BTreeNode) → IsFilled nodes → IsFilled (overwrite memory k nodes)
  unfolding overwrite
  overwrite-IsFilled k [] ok a n e = absurd (cc)
  overwrite-IsFilled k (m ∷ nodes) ok zero n e = after m.ciphertext refl (ok zero m refl)
    where
      after :
          (o : Option Ciphertext)
          → m.ciphertext ≡ o
          → (c : Ciphertext) × (m.ciphertext ≡ some c)
          → (c : Ciphertext) × (n.ciphertext ≡ some c)
      after none same (c, value) = absurd (cc)
      after (some b) same (c, value) =
          let one : some (record m {
            ciphertext = elim m.ciphertext [ none ↦ none | some c ↦ some (memory k c) ];
          })
              ≡ some n =
            e in
          let there : (record m {
            ciphertext = elim m.ciphertext [ none ↦ none | some c ↦ some (memory k c) ];
          }).ciphertext
              ≡ n.ciphertext =
            cc in
          (memory k b, sym there ∙ rw same refl)
  overwrite-IsFilled k (m ∷ nodes) ok (suc a) n e =
      overwrite-IsFilled (suc k) nodes (λ b x h. ok (suc b) x h) a n e

  pub Reaches-overwrite :
      {nodes : List BTreeNode} {root : ℕ} {s : List Side} {m : ℕ}
      → Reaches nodes root s m
      → Reaches (overwrite memory 0 nodes) root s m
  Reaches-overwrite at_root = at_root
  Reaches-overwrite {nodes} (turn {n} d way h) =
      turn d (Reaches-overwrite way) (child-overwrite 0 nodes d n ∙ h)

  pub overwrite-Reaches :
      {nodes : List BTreeNode} {root : ℕ} {s : List Side} {m : ℕ}
      → Reaches (overwrite memory 0 nodes) root s m
      → Reaches nodes root s m
  overwrite-Reaches at_root = at_root
  overwrite-Reaches {nodes} (turn {n} d way h) =
      turn d (overwrite-Reaches way) (sym (child-overwrite 0 nodes d n) ∙ h)

  unfoldable pub fade : BTreeForest → BTreeForest
  fade f = record f { nodes = overwrite memory 0 f.nodes }

  pub fade-IsPlanted : (f : BTreeForest) → IsPlanted f → IsPlanted (fade f)
  unfolding fade
  fade-IsPlanted f ok = record {
    linked = λ d n m h. omega (
      arith,
      length-overwrite 0 f.nodes,
      ok.linked d n m (sym (child-overwrite 0 f.nodes d n) ∙ h),
    );
    filled = overwrite-IsFilled 0 f.nodes ok.filled;
    tree = λ id r named.
        let t = ok.tree id r named in
        record {
          rooted = omega (arith, length-overwrite 0 f.nodes, t.rooted);
          linked = λ d n m h. omega (
            arith,
            length-overwrite 0 f.nodes,
            t.linked d n m (sym (child-overwrite 0 f.nodes d n) ∙ h),
          );
          single = λ s u n p q. t.single s u n (overwrite-Reaches p) (overwrite-Reaches q);
        };
  }

-- A child that is made leaves the trees trees.
pub grown-IsPlanted :
    (f : BTreeForest) (id : Str) (root : ℕ) (d : Side) (n : ℕ) (node created : BTreeNode)
    (v : Ciphertext)
    → IsPlanted f
    → find_tree id f.forest ≡ some root
    → Missing f.nodes d n node
    → ((e : Side) → child_of e created ≡ none)
    → created.ciphertext ≡ some v
    → IsPlanted (record f { nodes = grown f.nodes d n node created })
grown-IsPlanted f id root d n node created v ok named gap leaf value = record {
  linked = (grown-IsTree f.nodes root d n node created gap leaf (ok.tree id root named)).linked;
  filled = filled_after;
  tree = λ i r there. grown-IsTree f.nodes r d n node created gap leaf (ok.tree i r there);
}
  where
    filled_after : IsFilled (grown f.nodes d n node created)
    filled_after a x e = elim (same-or-other (length f.nodes) a) [
      | inl new ↦
          let one : some created ≡ some x =
            sym (elem-new f.nodes d n node created gap)
            ∙ subst (λ b. get_elem? (grown f.nodes d n node created) b ≡ some x) (sym new) e in
          let same : x.ciphertext ≡ created.ciphertext = cc in (v, same ∙ value)
      | inr other ↦
          let (y, here, same) = value-back f.nodes d n node created gap a x e (
            omega (
              arith,
              other,
              get_elem?-below (grown f.nodes d n node created) a x e,
              length-grown f.nodes d n node created gap,
            )) in
          let (c, there) = ok.filled a y here in (c, sym same ∙ there)
    ]

-- A new tree leaves the trees trees.
pub create_tree-IsPlanted :
    (database table : Str) (v : Ciphertext) (f : BTreeForest)
    → IsPlanted f
    → IsPlanted (create_tree database table (some v) f)
unfolding create_tree
create_tree-IsPlanted database table v f ok =
    let id = tree_id database table in
    record {
      linked = planted-IsLinked f.nodes (some v) ok.linked;
      filled = filled_after f id v ok.linked ok.filled;
      tree = plot-IsTree f id v ok.linked ok.tree;
    }
