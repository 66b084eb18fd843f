-- ===== src/Worker/Holding.antt =====
-- The walks of several clients in one BTreeTraverseHolder of lib/BTree.cpp: a change to one leaves
-- the others alone.
use zql.Prelude.{
  ℕ, ◌<◌, ◌≡◌, ◌≢◌, refl, sym, ◌∙◌, Option, none, some, List, [], ◌∷◌, ◌++◌, ◌⊎◌, inl, inr, length,
  length-append, length-set, arith, get_elem?, get_elem?-append_below, get_elem?-set_other,
}
use mathlib.Core.Path.{subst}
use zql.Objects.Row.{Str}
use zql.Objects.Request.{RequestAdd}
use zql.Objects.Response.{Ciphertext}
use zql.BTree.{BTreeForest, BTreeTraverse, find_tree}
use zql.BTree.Traverse.{new_traverse}
use zql.BTree.Holder.{
  BTreeTraverseHolder, find_traverse, assign_traverse, erase_traverse, delete_traverse,
  create_traverse, remove_traverse, find_traverse-assign_traverse, find_traverse-erase_traverse,
}
use zql.BTree.Nodes.{Side, Reaches}
use zql.Worker.Answer.{store_traverse}
use zql.Worker.Standing.{Standing}

-- A pointer of the holder is to a walk, under one id at most.
pub record IsKept (h : BTreeTraverseHolder) : Type 0 where
  pub inside : (i a : ℕ) → find_traverse i h.traverses ≡ some (some a) → a < length h.heap
  pub apart :
      (i j a : ℕ)
      → find_traverse i h.traverses ≡ some (some a)
      → find_traverse j h.traverses ≡ some (some a)
      → i ≡ j

pub store_traverse-IsKept :
    (h : BTreeTraverseHolder) (a : ℕ) (t : BTreeTraverse) → IsKept h → IsKept (store_traverse a t h)
unfolding store_traverse
store_traverse-IsKept h a t ok = record {
  inside = λ i b e. omega (arith, ok.inside i b e, length-set h.heap a (some t));
  apart = ok.apart;
}

pub create_traverse-IsKept :
    (h : BTreeTraverseHolder) (i root : ℕ) (c : Option Ciphertext)
    → IsKept h
    → IsKept (create_traverse i root c h).1
unfolding create_traverse
create_traverse-IsKept h i root c ok = record { inside = within; apart = parted }
  where
    named :
        (j a : ℕ)
        → find_traverse j (assign_traverse i (some (length h.heap)) h.traverses) ≡ some (some a)
        → ((j ≡ i) × (length h.heap ≡ a)) ⊎ (find_traverse j h.traverses ≡ some (some a))
    named j a e =
        ground (arith, find_traverse-assign_traverse i j (some (length h.heap)) h.traverses)

    within :
        (j a : ℕ)
        → find_traverse j (assign_traverse i (some (length h.heap)) h.traverses) ≡ some (some a)
        → a < length (h.heap ++ (some (new_traverse root c) ∷ []))
    within j a e = elim (named j a e) [
      | inl new ↦ omega (arith, new.1, length-append h.heap (some (new_traverse root c) ∷ []))
      | inr old ↦
          omega (arith, ok.inside j a old, length-append h.heap (some (new_traverse root c) ∷ []))
    ]

    parted :
        (j k a : ℕ)
        → find_traverse j (assign_traverse i (some (length h.heap)) h.traverses) ≡ some (some a)
        → find_traverse k (assign_traverse i (some (length h.heap)) h.traverses) ≡ some (some a)
        → j ≡ k
    parted j k a e e' = both (named j a e) (named k a e')
      where
        both :
            ((j ≡ i) × (length h.heap ≡ a)) ⊎ (find_traverse j h.traverses ≡ some (some a))
            → ((k ≡ i) × (length h.heap ≡ a)) ⊎ (find_traverse k h.traverses ≡ some (some a))
            → j ≡ k
        both (inl x) (inl y) = x.0 ∙ sym y.0
        both (inl x) (inr y) = absurd (omega (arith, x.1, ok.inside k a y))
        both (inr x) (inl y) = absurd (omega (arith, y.1, ok.inside j a x))
        both (inr x) (inr y) = ok.apart j k a x y

pub remove_traverse-IsKept :
    (h : BTreeTraverseHolder) (i : ℕ) → IsKept h → IsKept (remove_traverse i h)
unfolding remove_traverse delete_traverse
remove_traverse-IsKept h i ok = by_lookup (find_traverse i h.traverses) refl
  where
    back :
        (j a : ℕ)
        → find_traverse j (erase_traverse i h.traverses) ≡ some (some a)
        → find_traverse j h.traverses ≡ some (some a)
    back j a e = ground (arith, find_traverse-erase_traverse i j h.traverses)

    by_lookup :
        (o : Option (Option ℕ)) → find_traverse i h.traverses ≡ o → IsKept (remove_traverse i h)
    by_lookup none e = rw (e, remove_traverse) ok
    by_lookup (some none) e =
        rw (e, remove_traverse)
          (record {
            inside = λ j b k. ok.inside j b (back j b k);
            apart = λ j k b x y. ok.apart j k b (back j b x) (back k b y);
          })
    by_lookup (some (some a)) e =
        rw (e, remove_traverse)
          (record {
            inside = λ j b k. omega (arith, ok.inside j b (back j b k), length-set h.heap a none);
            apart = λ j k b x y. ok.apart j k b (back j b x) (back k b y);
          })

module _ {f : BTreeForest} {h : BTreeTraverseHolder} {j root : ℕ} {r : RequestAdd}
    {place : List Side} (w : Standing f h j root r place) where
  -- The walk in a holder where it is found as before.
  moved :
      (h' : BTreeTraverseHolder)
      → find_traverse j h'.traverses ≡ find_traverse j h.traverses
      → get_elem? h'.heap w.address ≡ get_elem? h.heap w.address
      → Standing f h' j root r place
  moved h' same here = record {
    address = w.address;
    traverse = w.traverse;
    held = same ∙ w.held;
    stands = here ∙ w.stands;
    table = w.table;
    named = w.named;
    at = w.at;
    value = w.value;
    ciphertext = w.ciphertext;
    request = w.request;
  }

  pub Standing-store_traverse :
      (i a : ℕ) (t : BTreeTraverse)
      → IsKept h
      → find_traverse i h.traverses ≡ some (some a)
      → i ≢ j
      → Standing f (store_traverse a t h) j root r place
  unfolding store_traverse
  Standing-store_traverse i a t ok held other = moved _ refl (
      get_elem?-set_other h.heap a w.address (some t) (λ e. other (
        ok.apart i j a held
          (subst (λ b. find_traverse j h.traverses ≡ some (some b)) (sym e) w.held))))

  pub Standing-create_traverse :
      (i top : ℕ) (c : Option Ciphertext)
      → IsKept h
      → i ≢ j
      → Standing f (create_traverse i top c h).1 j root r place
  unfolding create_traverse
  Standing-create_traverse i top c ok other =
      moved _
        (find_traverse-assign_traverse i j (some (length h.heap)) h.traverses
          ∙ ground (arith, other))
        (get_elem?-append_below h.heap (some (new_traverse top c) ∷ []) w.address
          (ok.inside j w.address w.held))

  pub Standing-remove_traverse :
      (i : ℕ) → IsKept h → i ≢ j → Standing f (remove_traverse i h) j root r place
  unfolding remove_traverse delete_traverse
  Standing-remove_traverse i ok other = by_lookup (find_traverse i h.traverses) refl
    where
      erased : find_traverse j (erase_traverse i h.traverses) ≡ find_traverse j h.traverses
      erased = find_traverse-erase_traverse i j h.traverses ∙ ground (arith, other)

      by_lookup :
          (o : Option (Option ℕ))
          → find_traverse i h.traverses ≡ o
          → Standing f (remove_traverse i h) j root r place
      by_lookup none e = rw (e, remove_traverse) w
      by_lookup (some none) e = rw (e, remove_traverse) (moved _ erased refl)
      by_lookup (some (some a)) e =
          rw (e, remove_traverse)
            (moved _ erased (
              get_elem?-set_other h.heap a w.address none (λ k. other (
                ok.apart i j a e
                  (subst (λ b. find_traverse j h.traverses ≡ some (some b)) (sym k) w.held)))))

  -- The walk in trees that have the places of these.
  pub Standing-trees :
      (f' : BTreeForest)
      → ((s : List Side) (m : ℕ) → Reaches f.nodes root s m → Reaches f'.nodes root s m)
      → ((table : Str)
          → find_tree table f.forest ≡ some root
          → find_tree table f'.forest ≡ some root)
      → Standing f' h j root r place
  Standing-trees f' way found = record {
    address = w.address;
    traverse = w.traverse;
    held = w.held;
    stands = w.stands;
    table = w.table;
    named = found w.table w.named;
    at = record {
      reaches = way place w.traverse.current w.at.reaches;
      path = w.at.path;
      path_length = w.at.path_length;
    };
    value = w.value;
    ciphertext = w.ciphertext;
    request = w.request;
  }
