-- ===== src/BTree/Forest.antt =====
-- The trees of all tables in lib/BTree.cpp, over one heap of nodes.
use zql.Prelude.{
  flip, ℕ, ◌<◌, ◌≡◌, ◌≢◌, refl, sym, ap, ◌∙◌, ◌⊎◌, inl, inr, none, some, List, [], ◌∷◌, arith,
  length, get_elem?, get_elem?-below,
}
use mathlib.Core.Path.{subst}
use zql.Objects.Row.{Str, compare_str}
use zql.Objects.Row.Order.{compare_str_refl, compare_str_swap}
use zql.Objects.Response.{Ciphertext}
use zql.BTree.{BTreeForest, BTreeNode, find_tree}
use zql.BTree.Nodes.{
  Side, child_of, child, Reaches, IsTree, grown, Missing, length-grown, elem-new, same-or-other,
}
use zql.BTree.Codes.{from_root}
use zql.BTree.Insert.{child-some}
use zql.BTree.Shape.{Reaches-back, Reaches-inside, grown-IsTree}
use zql.BTree.Places.{compare_places-flip, compare_places_refl, Parts, GoesOn-turns}
use zql.BTree.Plant.{IsLinked}
use zql.BTree.Search.{
  Holds, IsSearch, order_of, Guided, Guided-order, Reaches-fun, Reaches-onto, Reaches-back_turn,
}
use zql.BTree.Values.{Holds-Back, value-back, Back}

-- The trees of the tables: search trees apart from one another, with a value at each node.
pub record IsForest (f : BTreeForest) : Type 0 where
  pub linked : IsLinked f.nodes
  pub filled :
      (a : ℕ) (n : BTreeNode)
      → get_elem? f.nodes a ≡ some n
      → (c : Ciphertext) × (n.ciphertext ≡ some c)
  pub tree : (id : Str) (r : ℕ) → find_tree id f.forest ≡ some r → IsTree f.nodes r
  pub search : (id : Str) (r : ℕ) → find_tree id f.forest ≡ some r → IsSearch f.nodes r
  pub apart :
      (i j : Str) (r q : ℕ)
      → find_tree i f.forest ≡ some r
      → find_tree j f.forest ≡ some q
      → (s t : List Side) (n : ℕ) → Reaches f.nodes r s n
      → Reaches f.nodes q t n
      → r ≡ q

-- A guided walk of a tree that is about to make a child.
pub record Grows (f : BTreeForest) (id : Str) (root : ℕ) (s : List Side) (d : Side) (n : ℕ)
    (node : BTreeNode) (created : BTreeNode) (v : Ciphertext) : Type 0 where
  pub named : find_tree id f.forest ≡ some root
  pub gap : Missing f.nodes d n node
  pub leaf : (e : Side) → child_of e created ≡ none
  pub value : created.ciphertext ≡ some v
  pub way : Reaches f.nodes root s n
  pub guided : Guided f.nodes root v (d ∷ s)

module _ (f : BTreeForest) (id : Str) (root : ℕ) (s : List Side) (d : Side) (n : ℕ)
    (node : BTreeNode) (created : BTreeNode) (v : Ciphertext) (ok : IsForest f)
    (g : Grows f id root s d n node created v) where
  abbrev after : List BTreeNode
  after = grown f.nodes d n node created

  IsTree-of_root : IsTree f.nodes root
  IsTree-of_root = ok.tree id root g.named

  nothing_beyond :
      (w : List Side) (m : ℕ)
      → Reaches f.nodes root w m
      → Parts (from_root (d ∷ s) []) (from_root w [])
  nothing_beyond w m way rest e =
      let onto =
        Reaches-onto f.nodes root rest (d ∷ s) m
          (subst (λ x. Reaches f.nodes root x m) (GoesOn-turns (d ∷ s) w rest e) way) in
      let (k, up, down) = Reaches-back_turn f.nodes root d s onto.1 refl in
      let same : k ≡ n = Reaches-fun f.nodes root up g.way refl in
      let none_there : child f.nodes d n ≡ none =
        child-some f.nodes d n 0 node g.gap.here ∙ g.gap.missing in
      let there : child f.nodes d n ≡ some onto.0 =
        subst (λ x. child f.nodes d x ≡ some onto.0) same down in
      cc

  against_new :
      (w : List Side) (b : Ciphertext)
      → Holds f.nodes root w b
      → order_of (d ∷ s) w ≡ compare_str b v
  against_new w b h =
      Guided-order f.nodes root (ok.search id root g.named) v g.guided w b h
        (nothing_beyond w h.address h.way)

  -- A new value of the tree of `root` is `v` at the new place.
  new_of_root :
      (w way : List Side) (c : Ciphertext)
      → w ≡ d ∷ way
      → Reaches f.nodes root way n
      → created.ciphertext ≡ some c
      → (w ≡ d ∷ s) × (c ≡ v)
  new_of_root w way c e up value =
      let same : some c ≡ some v = sym value ∙ g.value in
      (e ∙ ap (λ x. d ∷ x) (IsTree-of_root.single way s n up g.way), cc)

  IsSearch-of_root : IsSearch after root
  IsSearch-of_root p q c b hp hq =
      both (Holds-Back f.nodes d n node created g.gap g.leaf root IsTree-of_root hp)
        (Holds-Back f.nodes d n node created g.gap g.leaf root IsTree-of_root hq)
    where
      both :
          Back f.nodes d n node created g.gap root p c
          → Back f.nodes d n node created g.gap root q b
          → order_of p q ≡ compare_str b c
      both (inl x) (inl y) = ok.search id root g.named p q c b x y
      both (inl x) (inr (way, e, up, value)) =
          let (at, same) = new_of_root q way b e up value in
          rw (at, same)
            (compare_places-flip (from_root (d ∷ s) []) (from_root p [])
              ∙ ap flip (against_new p c x)
              ∙ sym (compare_str_swap c v))
      both (inr (way, e, up, value)) (inl y) =
          let (at, same) = new_of_root p way c e up value in rw (at, same) (against_new q b y)
      both (inr (way, e, up, value)) (inr (way', e', up', value')) =
          let (at, same) = new_of_root p way c e up value in
          let (at', same') = new_of_root q way' b e' up' value' in
          rw (at, same, at', same')
            (compare_places_refl (from_root (d ∷ s) []) ∙ sym (compare_str_refl v))

  IsSearch-of_other :
      (i : Str) (r : ℕ) → find_tree i f.forest ≡ some r → r ≢ root → IsSearch after r
  IsSearch-of_other i r named other p q c b hp hq = ok.search i r named p q c b (old hp) (old hq)
    where
      old : {w : List Side} {e : Ciphertext} → Holds after r w e → Holds f.nodes r w e
      old h = elim (Holds-Back f.nodes d n node created g.gap g.leaf r (ok.tree i r named) h) [
        | inl x ↦ x
        | inr new ↦ absurd (other (ok.apart i id r root named g.named new.0 s n new.2 g.way))
      ]

  filled_after :
      (a : ℕ) (x : BTreeNode)
      → get_elem? after a ≡ some x
      → (c : Ciphertext) × (x.ciphertext ≡ some c)
  filled_after a x e = elim (same-or-other (length f.nodes) a) [
    | inl new ↦
        let one : some created ≡ some x =
          sym (elem-new f.nodes d n node created g.gap)
          ∙ subst (λ b. get_elem? after b ≡ some x) (sym new) e in
        let same : x.ciphertext ≡ created.ciphertext = cc in (v, same ∙ g.value)
    | inr other ↦
        let (y, here, same) = value-back f.nodes d n node created g.gap a x e (below other) in
        let (c, value) = ok.filled a y here in (c, sym same ∙ value)
  ]
    where
      below : length f.nodes ≢ a → a < length f.nodes
      below other =
          omega (arith, get_elem?-below after a x e, length-grown f.nodes d n node created g.gap)

  apart_after :
      (i j : Str) (r q : ℕ)
      → find_tree i f.forest ≡ some r
      → find_tree j f.forest ≡ some q
      → (p t : List Side) (m : ℕ) → Reaches after r p m
      → Reaches after q t m
      → r ≡ q
  apart_after i j r q ri qj p t m x y =
      both (Reaches-back f.nodes r d n node created g.gap g.leaf (ok.tree i r ri) x)
        (Reaches-back f.nodes q d n node created g.gap g.leaf (ok.tree j q qj) y)
    where
      Split : ℕ → List Side → Type 0
      Split b w =
          (Reaches f.nodes b w m)
          ⊎ ((m ≡ length f.nodes) × (way : List Side) × (w ≡ d ∷ way) × Reaches f.nodes b way n)

      both : Split r p → Split q t → r ≡ q
      both (inl a) (inl b) = ok.apart i j r q ri qj p t m a b
      both (inl a) (inr b) = absurd (omega (arith, Reaches-inside (ok.tree i r ri) a, b.0))
      both (inr a) (inl b) = absurd (omega (arith, Reaches-inside (ok.tree j q qj) b, a.0))
      both (inr a) (inr b) = ok.apart i j r q ri qj a.1 b.1 n a.3 b.3

  IsSearch-after : (i : Str) (r : ℕ) → find_tree i f.forest ≡ some r → IsSearch after r
  IsSearch-after i r named = elim (same-or-other r root) [
    | inl same ↦ subst (λ b. IsSearch after b) (sym same) IsSearch-of_root
    | inr other ↦ IsSearch-of_other i r named other
  ]

  -- A child that a guided walk makes leaves the trees of all tables search trees apart from one
  -- another.
  pub grown-IsForest : IsForest (record f { nodes = after })
  grown-IsForest = record {
    linked = (grown-IsTree f.nodes root d n node created g.gap g.leaf IsTree-of_root).linked;
    filled = filled_after;
    tree = λ i r named. grown-IsTree f.nodes r d n node created g.gap g.leaf (ok.tree i r named);
    search = IsSearch-after;
    apart = apart_after;
  }
