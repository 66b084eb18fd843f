-- ===== src/BTree/Codes.antt =====
-- The codes that the walk of lib/BTree.cpp gives places, and the order of the places.
use Prim.Native.Nat.{compare, Ordering}
use zql.Prelude.{
  ℕ, zero, suc, ◌+◌, ◌*◌, ◌-◌, ◌^◌, ◌≤◌, ◌<◌, ◌≡◌, refl, sym, ap, ◌∙◌, List, [], ◌∷◌, arith, length,
}
use native.Mathlib.Nat.{two-pow-succ, add-zero, add-suc}
use zql.BTree.Nodes.{Side, left, right}

pub pow-add : (a b : ℕ) → 2 ^ (a + b) ≡ 2 ^ a * 2 ^ b
pow-add a zero = omega (arith, ap (λ (x : ℕ). 2 ^ x) (add-zero a))
pow-add a (suc b) = omega (
  arith,
  ap (λ (x : ℕ). 2 ^ x) (add-suc a b),
  two-pow-succ (a + b),
  pow-add a b,
  ap (λ (x : ℕ). 2 ^ a * x) (two-pow-succ b),
)

unfoldable pub turn_bit : Side → ℕ
turn_bit left = 0
turn_bit right = 1

-- The turns of a way, the last one first, as the bits of a number.
unfoldable pub bits : List Side → ℕ
bits [] = 0
bits (d ∷ s) = 2 * bits s + turn_bit d

-- The code of a place: the bits of the way to it and a one, at the top of 64 bits.
unfoldable pub code : List Side → ℕ
code s = (2 * bits s + 1) * 2 ^ (63 - length s)

-- A way, the first turn first.
unfoldable pub from_root : List Side → List Side → List Side
from_root [] acc = acc
from_root (d ∷ s) acc = from_root s (d ∷ acc)

-- The order of places: what is left of a node stands before it, what is right of it after it.
unfoldable pub compare_places : List Side → List Side → Ordering
compare_places [] [] = Ordering.eq
compare_places [] (left ∷ t) = Ordering.gt
compare_places [] (right ∷ t) = Ordering.lt
compare_places (left ∷ s) [] = Ordering.lt
compare_places (right ∷ s) [] = Ordering.gt
compare_places (left ∷ s) (right ∷ t) = Ordering.lt
compare_places (right ∷ s) (left ∷ t) = Ordering.gt
compare_places (left ∷ s) (left ∷ t) = compare_places s t
compare_places (right ∷ s) (right ∷ t) = compare_places s t

bits_from : ℕ → List Side → ℕ
bits_from p [] = p
bits_from p (d ∷ s) = bits_from (2 * p + turn_bit d) s

-- The code of the places below a node of height `k`, less the node's own bits.
place : List Side → ℕ → ℕ
place [] k = 2 ^ k
place (d ∷ s) zero = 0
place (left ∷ s) (suc k) = place s k
place (right ∷ s) (suc k) = 2 ^ suc k + place s k

-- The height that a way leaves of `k`.
rest : List Side → ℕ → ℕ
rest [] k = k
rest (d ∷ s) zero = 0
rest (d ∷ s) (suc k) = rest s k

rest_lem : (s : List Side) (k : ℕ) → length s ≤ k → rest s k ≡ k - length s
unfolding rest
rest_lem [] k h = omega arith
rest_lem (d ∷ s) zero h = absurd (omega arith)
rest_lem (d ∷ s) (suc k) h = omega (arith, rest_lem s k (omega arith))

bits_from_root : (s acc : List Side) → bits_from 0 (from_root s acc) ≡ bits_from (bits s) acc
unfolding bits_from from_root bits
bits_from_root [] acc = refl
bits_from_root (d ∷ s) acc = bits_from_root s (d ∷ acc)

length-from_root : (s acc : List Side) → length (from_root s acc) ≡ length s + length acc
unfolding from_root
length-from_root [] acc = omega arith
length-from_root (d ∷ s) acc = omega (arith, length-from_root s (d ∷ acc))

pub bits_bound : (s : List Side) → bits s < 2 ^ length s
unfolding bits turn_bit
bits_bound [] = omega arith
bits_bound (left ∷ s) = omega (arith, bits_bound s, two-pow-succ (length s))
bits_bound (right ∷ s) = omega (arith, bits_bound s, two-pow-succ (length s))

place_lem :
    (s : List Side) (p k : ℕ)
    → length s ≤ k
    → (2 * bits_from p s + 1) * 2 ^ rest s k ≡ p * 2 ^ suc k + place s k
unfolding bits_from place turn_bit rest
place_lem [] p k h = place_root p k
  where
    place_root : (p k : ℕ) → (2 * p + 1) * 2 ^ k ≡ p * 2 ^ suc k + 2 ^ k
    place_root p k = omega (arith, ap (λ (x : ℕ). p * x) (two-pow-succ k))
place_lem (d ∷ s) p zero h = absurd (omega arith)
place_lem (left ∷ s) p (suc k) h =
    place_lem s (2 * p + 0) k (omega arith)
    ∙ omega (arith, ap (λ (x : ℕ). p * x) (two-pow-succ (suc k)))
place_lem (right ∷ s) p (suc k) h =
    place_lem s (2 * p + 1) k (omega arith)
    ∙ omega (arith, ap (λ (x : ℕ). p * x) (two-pow-succ (suc k)), two-pow-succ (suc k))

pub pow-pos : (k : ℕ) → 0 < 2 ^ k
pow-pos zero = omega arith
pow-pos (suc k) = omega (arith, pow-pos k, two-pow-succ k)

place_bounds : (s : List Side) (k : ℕ) → length s ≤ k → (0 < place s k) × (place s k < 2 ^ suc k)
unfolding place
place_bounds [] k h = (pow-pos k, omega (arith, pow-pos k, two-pow-succ k))
place_bounds (d ∷ s) zero h = absurd (omega arith)
place_bounds (left ∷ s) (suc k) h =
    let below = place_bounds s k (omega arith) in
    (below.0, omega (arith, below.1, two-pow-succ (suc k)))
place_bounds (right ∷ s) (suc k) h =
    let below = place_bounds s k (omega arith) in
    (omega (arith, below.0), omega (arith, below.1, two-pow-succ (suc k)))

place-compare :
    (s t : List Side) (k : ℕ)
    → length s ≤ k
    → length t ≤ k
    → compare (place s k) (place t k) ≡ compare_places s t
unfolding place compare_places
place-compare [] [] k h j = ground arith
place-compare (d ∷ s) t zero h j = absurd (omega arith)
place-compare s (d ∷ t) zero h j = absurd (omega arith)
place-compare [] (left ∷ t) (suc k) h j = ground (arith, place_bounds t k (omega arith))
place-compare [] (right ∷ t) (suc k) h j = ground (arith, place_bounds t k (omega arith))
place-compare (left ∷ s) [] (suc k) h j = ground (arith, place_bounds s k (omega arith))
place-compare (right ∷ s) [] (suc k) h j = ground (arith, place_bounds s k (omega arith))
place-compare (left ∷ s) (left ∷ t) (suc k) h j = place-compare s t k (omega arith) (omega arith)
place-compare (left ∷ s) (right ∷ t) (suc k) h j =
    ground (arith, place_bounds s k (omega arith), place_bounds t k (omega arith))
place-compare (right ∷ s) (left ∷ t) (suc k) h j =
    ground (arith, place_bounds s k (omega arith), place_bounds t k (omega arith))
place-compare (right ∷ s) (right ∷ t) (suc k) h j =
    ground (arith, place-compare s t k (omega arith) (omega arith))

code-place : (s : List Side) → length s ≤ 63 → code s ≡ place (from_root s []) 63
unfolding code bits_from
code-place s h =
    let first = from_root s [] in
    let same : length first ≡ length s = omega (arith, length-from_root s []) in
    sym (
      ap (λ (x : ℕ). (2 * bits s + 1) * 2 ^ x)
        (rest_lem first 63 (omega arith) ∙ ap (λ (x : ℕ). 63 - x) same))
    ∙ sym (ap (λ (x : ℕ). (2 * x + 1) * 2 ^ rest first 63) (bits_from_root s []))
    ∙ place_lem first 0 63 (omega arith)
    ∙ omega arith

-- Of two places at depths that 64 bits have room for, the codes compare as the places do: a node's
-- code is above the codes left of it and below those right of it.
pub compare-code :
    (s t : List Side)
    → length s ≤ 63
    → length t ≤ 63
    → compare (code s) (code t) ≡ compare_places (from_root s []) (from_root t [])
compare-code s t h j =
    rw (code-place s h, code-place t j)
      (place-compare (from_root s []) (from_root t []) 63 (omega (arith, length-from_root s []))
        (omega (arith, length-from_root t [])))

-- A code is a number of 64 bits.
pub code_bound : (s : List Side) → length s ≤ 63 → code s < 2 ^ 64
code_bound s h =
    omega (
      arith,
      code-place s h,
      place_bounds (from_root s []) 63 (omega (arith, length-from_root s [])),
    )
