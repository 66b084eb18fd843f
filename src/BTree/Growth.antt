-- ===== src/BTree/Growth.antt =====
-- goToLeft and goToRight of lib/BTree.cpp in the trees of all tables.
use zql.Prelude.{ℕ, ◌<◌, ◌≡◌, refl, sym, Bool, false, Option, none, some, List, ◌∷◌, length}
use mathlib.Core.Path.{subst}
use mathlib.Core.Option.{some-injective}
use zql.Objects.Row.{Str}
use zql.Objects.Response.{Ciphertext}
use zql.BTree.{BTreeForest, BTreeNode, BTreeTraverse, find_tree, new_node}
use zql.BTree.Nodes.{Side, left, right, child_of}
use zql.BTree.Step.{IsAt, Turned, went, made, go, go-Turned}
use zql.BTree.Search.{Holds, Guided}
use zql.BTree.Values.{Grew, grown-Grew}
use zql.BTree.Forest.{IsForest, grown-IsForest}

pub new_leaf :
    (c : Option Ciphertext) (e : Side) → child_of e (record new_node { ciphertext = c }) ≡ none
unfolding child_of new_node
new_leaf c left = refl
new_leaf c right = refl

-- Where a turn of a walk makes a child, and the turns of the walk with this one are those that
-- comparing the values on its way with its own says, the trees of all tables stay search trees apart
-- from one another. The walk's value is at the new place, and all places and values that were there
-- still are.
pub go-IsForest :
    (f : BTreeForest) (id : Str) (root : ℕ) (s : List Side) (d : Side) (t t' : BTreeTraverse)
    (v : Ciphertext) (after : List BTreeNode)
    → IsForest f
    → find_tree id f.forest ≡ some root
    → IsAt f.nodes root s t
    → length s < 63
    → t.ciphertext ≡ some v
    → Guided f.nodes root v (d ∷ s)
    → go d f.nodes t ≡ some (false, t', after)
    → IsForest (record f { nodes = after }) × Holds after root (d ∷ s) v × Grew f.nodes after
go-IsForest f id root s d t t' v after ok named at room value way ran =
    by_turn (go d f.nodes t) (go-Turned f.nodes root s t (ok.tree id root named) at room d) ran
  where
    by_turn :
        (o : Option (Bool × BTreeTraverse × List BTreeNode))
        → Turned f.nodes root s d t o
        → o ≡ some (false, t', after)
        → IsForest (record f { nodes = after }) × Holds after root (d ∷ s) v × Grew f.nodes after
    by_turn o (went t1 walk same) e = absurd (cc)
    by_turn o (made t1 nodes ins) e =
        let pair : ◌≡◌ {A = Bool × BTreeTraverse × List BTreeNode} (false, t1, nodes)
            (false, t', after) =
          some-injective _ _ e in
        let one : nodes ≡ after = cc in
        let created = record new_node { ciphertext = t.ciphertext } in
        subst (λ ns. IsForest (record f { nodes = ns }) × Holds ns root (d ∷ s) v × Grew f.nodes ns)
          one
          (
            subst (λ ns. IsForest (record f { nodes = ns })) (sym ins.grew)
                (grown-IsForest f id root s d t.current ins.parent created v ok (record {
                  named = named;
                  gap = ins.gap;
                  leaf = new_leaf t.ciphertext;
                  value = value;
                  way = at.reaches;
                  guided = way;
                })),
            record {
              address = t1.current;
              node = created;
              way = ins.reaches;
              at = ins.node;
              value = value;
            },
            subst (λ ns. Grew f.nodes ns) (sym ins.grew)
                (grown-Grew f.nodes d t.current ins.parent created ins.gap),
          )
