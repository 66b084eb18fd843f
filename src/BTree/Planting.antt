-- ===== src/BTree/Planting.antt =====
-- A new tree in the forest of lib/BTree.cpp beside the trees that are there.
use zql.Prelude.{
  ℕ, ◌<◌, ◌≡◌, ◌≢◌, refl, sym, ◌∙◌, ◌⊎◌, inl, inr, Bool, true, false, none, some, List, [], ◌∷◌,
  arith, length, length-append, get_elem?, get_elem?-below, get_elem?-append_at,
  get_elem?-append_below, if◌then◌else◌,
}
use mathlib.Core.Path.{subst}
use zql.Objects.Row.{Str, same_str}
use zql.Objects.Row.Order.{compare_str_refl}
use zql.Objects.Response.{Ciphertext}
use zql.BTree.{BTreeForest, BTreeNode, find_tree, assign_tree, create_tree, get_tree, tree_id}
use zql.BTree.Nodes.{Side, child, Reaches, at_root, turn, IsTree, same-or-other}
use zql.BTree.Codes.{from_root}
use zql.BTree.Places.{compare_places_refl}
use zql.BTree.Insert.{child-some, child-node}
use zql.BTree.Plant.{IsLinked, seed, planted, only_root, planted-IsLinked, planted-IsTree}
use zql.BTree.Search.{Holds, IsSearch}
use zql.BTree.Values.{Grew}
use zql.BTree.Names.{find_tree-assign_tree, find_tree_kept}
use zql.BTree.Forest.{IsForest}

module _ (f : BTreeForest) (id : Str) (v : Ciphertext) (linked : IsLinked f.nodes) where
  abbrev all : List BTreeNode
  all = planted f.nodes (some v) linked

  abbrev pub plot : BTreeForest
  plot = record { forest = assign_tree id (length f.nodes) f.forest; nodes = all }

  child-kept : (e : Side) (a m : ℕ) → child f.nodes e a ≡ some m → child all e a ≡ some m
  unfolding child
  child-kept e a m h =
      let (x, here, down) = child-node f.nodes e a m h in
      child-some all e a m x (
        get_elem?-append_below f.nodes (seed f.nodes (some v) linked ∷ []) a
          (get_elem?-below f.nodes a x here)
        ∙ here)
      ∙ down

  child-back :
      (e : Side) (a m : ℕ)
      → a < length f.nodes
      → child all e a ≡ some m
      → child f.nodes e a ≡ some m
  unfolding child
  child-back e a m lt h =
      rw (sym (get_elem?-append_below f.nodes (seed f.nodes (some v) linked ∷ []) a lt), child) h

  Reaches-kept : {r : ℕ} {s : List Side} {m : ℕ} → Reaches f.nodes r s m → Reaches all r s m
  Reaches-kept at_root = at_root
  Reaches-kept (turn e way h) = turn e (Reaches-kept way) (child-kept e _ _ h)

  pub Reaches-back :
      {r : ℕ} {s : List Side} {m : ℕ}
      → r < length f.nodes
      → Reaches all r s m
      → Reaches f.nodes r s m × (m < length f.nodes)
  Reaches-back lt at_root = (at_root, lt)
  Reaches-back lt (turn {n} {m} e way h) =
      let (old, inside) = Reaches-back lt way in
      let down = child-back e n m inside h in (turn e old down, linked e n m down)

  pub Holds-planted :
      {r : ℕ} {s : List Side} {c : Ciphertext} → Holds f.nodes r s c → Holds all r s c
  Holds-planted h = record {
    address = h.address;
    node = h.node;
    way = Reaches-kept h.way;
    at =
        get_elem?-append_below f.nodes (seed f.nodes (some v) linked ∷ []) h.address
          (get_elem?-below f.nodes h.address h.node h.at)
        ∙ h.at;
    value = h.value;
  }

  pub planted-Grew : Grew f.nodes all
  planted-Grew = record { reaches = λ root s m. Reaches-kept; holds = λ root s c. Holds-planted }

  pub Holds-back :
      {r : ℕ} {s : List Side} {c : Ciphertext}
      → r < length f.nodes
      → Holds all r s c
      → Holds f.nodes r s c
  Holds-back lt h =
      let (old, inside) = Reaches-back lt h.way in
      record {
        address = h.address;
        node = h.node;
        way = old;
        at =
            sym
              (get_elem?-append_below f.nodes (seed f.nodes (some v) linked ∷ []) h.address inside)
            ∙ h.at;
        value = h.value;
      }

  -- The names that find a root: the new one, or as before.
  pub named_after :
      (j : Str) (r : ℕ)
      → find_tree j plot.forest ≡ some r
      → (length f.nodes ≡ r) ⊎ (find_tree j f.forest ≡ some r)
  named_after j r e =
      split (same_str j id) (sym (find_tree-assign_tree j id (length f.nodes) f.forest) ∙ e)
    where
      split :
          (b : Bool)
          → (if b then some (length f.nodes) else find_tree j f.forest) ≡ some r
          → (length f.nodes ≡ r) ⊎ (find_tree j f.forest ≡ some r)
      split true h = inl (cc)
      split false h = inr h

  pub filled_after :
      ((a : ℕ) (x : BTreeNode)
        → get_elem? f.nodes a ≡ some x
        → (c : Ciphertext) × (x.ciphertext ≡ some c))
      → (a : ℕ) (x : BTreeNode) → get_elem? all a ≡ some x
      → (c : Ciphertext) × (x.ciphertext ≡ some c)
  filled_after filled a x e = elim (same-or-other (length f.nodes) a) [
    | inl new ↦
        let one : some (seed f.nodes (some v) linked) ≡ some x =
          sym (get_elem?-append_at f.nodes (seed f.nodes (some v) linked))
          ∙ subst (λ b. get_elem? all b ≡ some x) (sym new) e in
        let same : x.ciphertext ≡ (seed f.nodes (some v) linked).ciphertext = cc in (v, same)
    | inr other ↦ filled a x (
        sym (get_elem?-append_below f.nodes (seed f.nodes (some v) linked ∷ []) a (below other))
        ∙ e)
  ]
    where
      below : length f.nodes ≢ a → a < length f.nodes
      below other = omega (
        arith,
        get_elem?-below all a x e,
        length-append f.nodes (seed f.nodes (some v) linked ∷ []),
      )

  old-IsTree : (r : ℕ) → IsTree f.nodes r → IsTree all r
  old-IsTree r tree = record {
    rooted = omega (arith, tree.rooted, length-append f.nodes (seed f.nodes (some v) linked ∷ []));
    linked = planted-IsLinked f.nodes (some v) linked;
    single = λ s t n p q.
        tree.single s t n (Reaches-back tree.rooted p).0 (Reaches-back tree.rooted q).0;
  }

  pub Holds-seed : Holds all (length f.nodes) [] v
  Holds-seed = record {
    address = length f.nodes;
    node = seed f.nodes (some v) linked;
    way = at_root;
    at = get_elem?-append_at f.nodes (seed f.nodes (some v) linked);
    value = refl;
  }

  -- The new tree holds one value.
  pub seed_only :
      {s : List Side} {c : Ciphertext} → Holds all (length f.nodes) s c → (s ≡ []) × (c ≡ v)
  seed_only {s} {c} h =
      let (top, last) = only_root f.nodes (some v) linked h.way in
      let one : some (seed f.nodes (some v) linked) ≡ some h.node =
        sym (get_elem?-append_at f.nodes (seed f.nodes (some v) linked))
        ∙ subst (λ a. get_elem? all a ≡ some h.node) (sym last) h.at in
      let same : (seed f.nodes (some v) linked).ciphertext ≡ h.node.ciphertext = cc in
      let value : some v ≡ some c = same ∙ h.value in (top, cc)

  seed-IsSearch : IsSearch all (length f.nodes)
  seed-IsSearch s t c d p q =
      let (top, same) = seed_only p in
      let (top', same') = seed_only q in
      rw (top, same, top', same') (compare_places_refl (from_root [] []) ∙ sym (compare_str_refl v))

  -- A new tree leaves the others trees.
  pub plot-IsTree :
      ((j : Str) (r : ℕ) → find_tree j f.forest ≡ some r → IsTree f.nodes r)
      → (j : Str) (r : ℕ) → find_tree j plot.forest ≡ some r
      → IsTree all r
  plot-IsTree trees j r named = elim (named_after j r named) [
    | inl new ↦ subst (λ b. IsTree all b) new (planted-IsTree f.nodes (some v) linked)
    | inr old ↦ old-IsTree r (trees j r old)
  ]

module _ (f : BTreeForest) (id : Str) (v : Ciphertext) (ok : IsForest f) where
  apart_after :
      (i j : Str) (r q : ℕ)
      → find_tree i (plot f id v ok.linked).forest ≡ some r
      → find_tree j (plot f id v ok.linked).forest ≡ some q
      → (s t : List Side) (n : ℕ) → Reaches (all f id v ok.linked) r s n
      → Reaches (all f id v ok.linked) q t n
      → r ≡ q
  apart_after i j r q ri qj s t n x y =
      both (named_after f id v ok.linked i r ri) (named_after f id v ok.linked j q qj)
    where
      new :
          (b : ℕ) (w : List Side)
          → Reaches (all f id v ok.linked) b w n
          → length f.nodes ≡ b
          → length f.nodes ≡ n
      new b w way e =
          (only_root f.nodes (some v) ok.linked
            (subst (λ a. Reaches (all f id v ok.linked) a w n) (sym e) way)).1

      both :
          (length f.nodes ≡ r) ⊎ (find_tree i f.forest ≡ some r)
          → (length f.nodes ≡ q) ⊎ (find_tree j f.forest ≡ some q)
          → r ≡ q
      both (inl a) (inl b) = sym a ∙ b
      both (inl a) (inr b) =
          absurd
            (omega (arith, new r s x a, (Reaches-back f id v ok.linked (ok.tree j q b).rooted y).1))
      both (inr a) (inl b) =
          absurd
            (omega (arith, new q t y b, (Reaches-back f id v ok.linked (ok.tree i r a).rooted x).1))
      both (inr a) (inr b) =
          ok.apart i j r q a b s t n (Reaches-back f id v ok.linked (ok.tree i r a).rooted x).0
            (Reaches-back f id v ok.linked (ok.tree j q b).rooted y).0

  -- A new tree leaves the trees of all tables search trees apart from one another.
  pub plot-IsForest : IsForest (plot f id v ok.linked)
  plot-IsForest = record {
    linked = planted-IsLinked f.nodes (some v) ok.linked;
    filled = filled_after f id v ok.linked ok.filled;
    tree = plot-IsTree f id v ok.linked ok.tree;
    search = λ j r named. elim (named_after f id v ok.linked j r named) [
      | inl new ↦
          subst (λ b. IsSearch (all f id v ok.linked) b) new (seed-IsSearch f id v ok.linked)
      | inr old ↦ λ s t c d p q.
          ok.search j r old s t c d (Holds-back f id v ok.linked (ok.tree j r old).rooted p)
            (Holds-back f id v ok.linked (ok.tree j r old).rooted q)
    ];
    apart = apart_after;
  }

-- createTree under a name that finds no tree, in a forest of search trees apart from one another,
-- gives such a forest. The name finds the new tree, whose only place is its root, with the
-- ciphertext; the other names find what they found, and the places and values of the trees that
-- were there are as they were.
pub create_tree-IsForest :
    (database table : Str) (v : Ciphertext) (f : BTreeForest)
    → IsForest f
    → get_tree database table f ≡ none
    → let f' = create_tree database table (some v) f in
      IsForest f'
      × (get_tree database table f' ≡ some (length f.nodes))
      × Holds f'.nodes (length f.nodes) [] v
      × ((s : List Side) (c : Ciphertext)
          → Holds f'.nodes (length f.nodes) s c
          → (s ≡ []) × (c ≡ v))
      × ((j : Str) (q : ℕ) → find_tree j f.forest ≡ some q → find_tree j f'.forest ≡ some q)
      × Grew f.nodes f'.nodes
unfolding create_tree get_tree
create_tree-IsForest database table v f ok none_yet =
    let id = tree_id database table in
    (
      plot-IsForest f id v ok,
      find_tree-assign_tree id id (length f.nodes) f.forest ∙ ground (arith, compare_str_refl id),
      Holds-seed f id v ok.linked,
      λ s c h. seed_only f id v ok.linked h,
      find_tree_kept id (length f.nodes) f.forest none_yet,
      planted-Grew f id v ok.linked,
    )
