-- ===== src/BTree/Spread.antt =====
-- How far the trees of lib/BTree.cpp reach after an insertion, and which values are in them.
use zql.Prelude.{ℕ, suc, ◌≤◌, ◌≡◌, sym, ap, ◌∙◌, ◌⊎◌, inl, inr, none, some, List, length, arith}
use mathlib.Core.Option.{some-injective}
use zql.Objects.Row.{Str}
use zql.Objects.Response.{Ciphertext}
use zql.BTree.{BTreeForest, BTreeNode, find_tree}
use zql.BTree.Nodes.{Side, child_of, Reaches, grown, Missing}
use zql.BTree.Search.{Holds}
use zql.BTree.Shape
use zql.BTree.Values
use zql.BTree.Forest.{IsForest}

-- Every place of the tree is at depth `k` at most.
abbrev pub IsShallow : List BTreeNode → ℕ → ℕ → Type 0
IsShallow nodes root k = (s : List Side) (n : ℕ) → Reaches nodes root s n → length s ≤ k

-- Every tree of a table is.
abbrev pub EveryShallow : BTreeForest → ℕ → Type 0
EveryShallow f k = (j : Str) (q : ℕ) → find_tree j f.forest ≡ some q → IsShallow f.nodes q k

-- An insertion of `v` makes trees deeper by one at most, and adds no other value.
pub record Spreads (f f' : BTreeForest) (v : Ciphertext) : Type 0 where
  pub deeper : (k : ℕ) → EveryShallow f k → EveryShallow f' (suc k)
  pub known :
      (j : Str) (q : ℕ) (w : List Side) (b : Ciphertext)
      → find_tree j f'.forest ≡ some q
      → Holds f'.nodes q w b
      → ((find_tree j f.forest ≡ some q) × Holds f.nodes q w b) ⊎ (b ≡ v)

pub grown-Spreads :
    (f : BTreeForest) (d : Side) (n : ℕ) (node created : BTreeNode) (v : Ciphertext)
    → IsForest f
    → Missing f.nodes d n node
    → ((e : Side) → child_of e created ≡ none)
    → created.ciphertext ≡ some v
    → Spreads f (record f { nodes = grown f.nodes d n node created }) v
grown-Spreads f d n node created v ok gap leaf value = record {
  deeper = λ k sh j q named s m way.
      elim (Shape.Reaches-back f.nodes q d n node created gap leaf (ok.tree j q named) way) [
        | inl old ↦ omega (arith, sh j q named s m old)
        | inr (at, before, is, old) ↦ omega (arith, sh j q named before n old, ap length is)
      ];
  known = λ j q w b named h.
      elim (Values.Holds-Back f.nodes d n node created gap leaf q (ok.tree j q named) h) [
        | inl old ↦ inl (named, old)
        | inr (before, is, old, e) ↦ inr (some-injective b v (sym e ∙ value))
      ];
}
