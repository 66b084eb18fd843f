-- ===== src/BTree/Search.antt =====
-- The values in a tree of lib/BTree.cpp, and the walk of a client that compares them with its own:
-- the tree is a search tree whose order is the reverse of the values'.
use Prim.Native.Nat.{Ordering}
use zql.Prelude.{
  ℕ, ◌≡◌, ◌≢◌, refl, sym, ap, ◌∙◌, inl, inr, some, List, [], ◌∷◌, ◌++◌, get_elem?, append_assoc,
}
use mathlib.Core.Path.{subst}
use zql.Objects.Row.{compare_str}
use zql.Objects.Row.Order.{compare_str_trans, compare_str_trans_gt}
use zql.Objects.Response.{Ciphertext}
use zql.BTree.{BTreeNode}
use zql.BTree.Nodes.{Side, left, right, child, Reaches, at_root, turn}
use zql.BTree.Codes.{from_root, compare_places}
use zql.BTree.Places.{
  turn_order, compare_places-append, compare_places-onto, compare_places_turn, Parts,
  GoesOn-or-Parts, compare_places-Parts, from_root-acc, GoesOn-turns,
}

-- At the place `s` of the tree stands the value `c`.
pub record Holds (nodes : List BTreeNode) (root : ℕ) (s : List Side) (c : Ciphertext) : Type 0 where
  pub address : ℕ
  pub node : BTreeNode
  pub way : Reaches nodes root s address
  pub at : get_elem? nodes address ≡ some node
  pub value : node.ciphertext ≡ some c

abbrev pub order_of : List Side → List Side → Ordering
order_of s t = compare_places (from_root s []) (from_root t [])

-- Of two places of the tree, the one further left holds the larger value.
abbrev pub IsSearch : List BTreeNode → ℕ → Type 0
IsSearch nodes root =
    (s t : List Side) (c d : Ciphertext)
    → Holds nodes root s c
    → Holds nodes root t d
    → order_of s t ≡ compare_str d c

-- The turns of a way are those that comparing the values on it with `v` says.
pub data Guided (nodes : List BTreeNode) (root : ℕ) (v : Ciphertext) : List Side → Type 0 where
  start : Guided nodes root v []
  guided :
      {s : List Side} (d : Side) (c : Ciphertext)
      → Guided nodes root v s
      → Holds nodes root s c
      → compare_str c v ≡ turn_order d
      → Guided nodes root v (d ∷ s)

module _ (nodes : List BTreeNode) (root : ℕ) where
  pub Reaches-back_turn :
      {s : List Side} {m : ℕ} (d : Side) (w : List Side)
      → Reaches nodes root s m
      → s ≡ d ∷ w
      → (n : ℕ) × Reaches nodes root w n × (child nodes d n ≡ some m)
  Reaches-back_turn d w at_root e = cc
  Reaches-back_turn d w (turn {s = s'} {n} {m} d' way h) e = (
    n,
    subst (λ x. Reaches nodes root x n) (cc) way,
    subst (λ x. child nodes x n ≡ some m) (cc) h,
  )

  -- What is reached beyond a place has the place on its way.
  pub Reaches-onto :
      (rest w : List Side) (m : ℕ)
      → Reaches nodes root (from_root rest w) m
      → (n : ℕ) × Reaches nodes root w n
  unfolding from_root
  Reaches-onto [] w m way = (m, way)
  Reaches-onto (d ∷ rest) w m way =
      let (n, shorter) = Reaches-onto rest (d ∷ w) m way in
      let back = Reaches-back_turn d w shorter refl in (back.0, back.1)

  pub Reaches-fun :
      {s t : List Side} {m k : ℕ} → Reaches nodes root s m → Reaches nodes root t k → s ≡ t → m ≡ k
  Reaches-fun at_root at_root e = refl
  Reaches-fun at_root (turn d w h) e = cc
  Reaches-fun (turn d w h) at_root e = cc
  Reaches-fun (turn {s} {n} {m} d w h) (turn {s = s'} {n = n'} {m = k} d' w' h') e =
      let below : n ≡ n' = Reaches-fun w w' (cc) in cc

  Holds-fun :
      {s t : List Side} {c d : Ciphertext}
      → Holds nodes root s c
      → Holds nodes root t d
      → s ≡ t
      → c ≡ d
  Holds-fun p q e = cc (Reaches-fun p.way q.way e, p.at, q.at, p.value, q.value)

module _ (nodes : List BTreeNode) (root : ℕ) (search : IsSearch nodes root) (v : Ciphertext) where
  -- What stands on the other side of the node where a guided way turns.
  beyond :
      (s t rest : List Side) (d e : Side) (c b : Ciphertext)
      → Holds nodes root s c
      → Holds nodes root t b
      → compare_str c v ≡ turn_order d
      → from_root t [] ≡ from_root s [] ++ (e ∷ rest)
      → d ≢ e
      → compare_places (d ∷ []) (e ∷ rest) ≡ compare_str b v
  unfolding compare_places
  beyond s t rest left left c b p q turned onto apart = absurd (apart refl)
  beyond s t rest right right c b p q turned onto apart = absurd (apart refl)
  beyond s t rest left right c b p q turned onto apart = sym (compare_str_trans b c v below turned)
    where
      below : compare_str b c ≡ Ordering.lt
      below =
          sym (search s t c b p q)
          ∙ ap (λ x. compare_places (from_root s []) x) onto
          ∙ compare_places-onto (from_root s []) (right ∷ rest)
  beyond s t rest right left c b p q turned onto apart =
      sym (compare_str_trans_gt b c v above turned)
    where
      above : compare_str b c ≡ Ordering.gt
      above =
          sym (search s t c b p q)
          ∙ ap (λ x. compare_places (from_root s []) x) onto
          ∙ compare_places-onto (from_root s []) (left ∷ rest)

  -- At the node where a guided way turns, and beyond it.
  at_turn :
      (s t rest : List Side) (d : Side) (c b : Ciphertext)
      → Holds nodes root s c
      → Holds nodes root t b
      → compare_str c v ≡ turn_order d
      → from_root t [] ≡ from_root s [] ++ rest
      → Parts (from_root s [] ++ (d ∷ [])) (from_root t [])
      → compare_places (d ∷ []) rest ≡ compare_str b v
  unfolding from_root
  at_turn s t [] d c b p q turned onto parts =
      let same : c ≡ b = Holds-fun nodes root p q (sym (GoesOn-turns s t [] onto)) in
      compare_places_turn d ∙ sym turned ∙ ap (λ x. compare_str x v) same
  at_turn s t (left ∷ rest) left c b p q turned onto parts =
      absurd (parts rest (onto ∙ sym (append_assoc (from_root s []) (left ∷ []) rest)))
  at_turn s t (right ∷ rest) right c b p q turned onto parts =
      absurd (parts rest (onto ∙ sym (append_assoc (from_root s []) (right ∷ []) rest)))
  at_turn s t (right ∷ rest) left c b p q turned onto parts =
      beyond s t rest left right c b p q turned onto (λ e. cc)
  at_turn s t (left ∷ rest) right c b p q turned onto parts =
      beyond s t rest right left c b p q turned onto (λ e. cc)

  order_of_turn :
      (s t : List Side) (d : Side)
      → order_of (d ∷ s) t ≡ compare_places (from_root s [] ++ (d ∷ [])) (from_root t [])
  unfolding from_root
  order_of_turn s t d = ap (λ x. compare_places x (from_root t [])) (from_root-acc s (d ∷ []))

  -- From a guided way, everything in the tree that is not further down it stands on the side that
  -- the comparison with `v` says.
  pub Guided-order :
      {s : List Side}
      → Guided nodes root v s
      → (t : List Side) (b : Ciphertext) → Holds nodes root t b
      → Parts (from_root s []) (from_root t [])
      → order_of s t ≡ compare_str b v
  unfolding from_root
  Guided-order start t b q parts = absurd (parts (from_root t []) refl)
  Guided-order (guided {s} d c way p turned) t b q parts =
      order_of_turn s t d ∙ (elim (GoesOn-or-Parts (from_root s []) (from_root t [])) [
        | inl (rest, onto) ↦
            ap (λ x. compare_places (from_root s [] ++ (d ∷ [])) x) onto
            ∙ compare_places-append (from_root s []) (d ∷ []) rest
            ∙ at_turn s t rest d c b p q turned onto (later parts)
        | inr apart ↦
            compare_places-Parts (from_root s []) (d ∷ []) (from_root t []) apart
            ∙ Guided-order way t b q apart
      ])
    where
      later :
          Parts (from_root s (d ∷ [])) (from_root t [])
          → Parts (from_root s [] ++ (d ∷ [])) (from_root t [])
      later f = rw (sym (from_root-acc s (d ∷ []))) f
