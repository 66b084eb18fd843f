-- ===== src/BTree/Traverse.antt =====
-- The walk of lib/BTree.cpp: `BTreeTraverse`.
-- An operation gives `none` where the program does what C++ does not define: it reads a node that
-- is none, or shifts by a negative number.
use zql.Prelude.{
  ℕ, ◌+◌, ◌*◌, ◌-◌, ◌%◌, ◌^◌, Bool, true, false, Option, none, some, List, [], ◌∷◌, ◌++◌,
  if◌then◌else◌, length, get_elem?, set, leb, bit_or,
}
use zql.Objects.Response.{Ciphertext}
use zql.BTree.{BTreeNode, BTreeTraverse, new_node}

-- `x << n` on unsigned long long
unfoldable pub shl : ℕ → ℕ → ℕ
shl x n = (x * 2 ^ n) % 2 ^ 64

unfoldable pub new_traverse : ℕ → Option Ciphertext → BTreeTraverse
new_traverse root ciphertext = record {
  current = root;
  ciphertext = ciphertext;
  path = 0;
  path_length = 0;
  request_add = none;
}

-- What the two ways share where the child is missing: the new node, the link to it (`link` is the
-- assignment to `_current->left()` or `_current->right()`), and the code of its place.
unfoldable pub insert :
    (BTreeNode → ℕ → BTreeNode)
    → List BTreeNode
    → BTreeTraverse
    → BTreeNode
    → Option (Bool × BTreeTraverse × List BTreeNode)
insert link nodes t node =
    let created = record new_node { ciphertext = t.ciphertext } in
    let address = length nodes in
    let linked = set (nodes ++ (created ∷ [])) t.current (link node address) in
    if leb t.path_length 63
    then some (
      false,
      record t { current = address; path = shl (bit_or (shl t.path 1) 1) (63 - t.path_length) },
      linked,
    )
    else none

unfoldable pub go_to_left :
    List BTreeNode → BTreeTraverse → Option (Bool × BTreeTraverse × List BTreeNode)
go_to_left nodes t =
    let t1 = record t { path = shl t.path 1; path_length = t.path_length + 1 } in
    elim (get_elem? nodes t.current) [
      | none ↦ none
      | some node ↦ elim node.left [
        | some child ↦ some (true, record t1 { current = child }, nodes)
        | none ↦ insert (λ n a. record n { left = some a }) nodes t1 node
      ]
    ]

unfoldable pub go_to_right :
    List BTreeNode → BTreeTraverse → Option (Bool × BTreeTraverse × List BTreeNode)
go_to_right nodes t =
    let t1 = record t { path = bit_or (shl t.path 1) 1; path_length = t.path_length + 1 } in
    elim (get_elem? nodes t.current) [
      | none ↦ none
      | some node ↦ elim node.right [
        | some child ↦ some (true, record t1 { current = child }, nodes)
        | none ↦ insert (λ n a. record n { right = some a }) nodes t1 node
      ]
    ]

-- `BTreeTraverse::value`
unfoldable pub value : List BTreeNode → BTreeTraverse → Option (Option Ciphertext)
value nodes t = elim (get_elem? nodes t.current) [ none ↦ none | some node ↦ some node.ciphertext ]
