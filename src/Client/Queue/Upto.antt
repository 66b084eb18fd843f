-- ===== src/Client/Queue/Upto.antt =====
-- The addresses of executors in the order in which they are made.
use zql.Prelude.{
  ℕ, zero, suc, ◌+◌, ◌<◌, ◌≡◌, refl, sym, ap, ◌∙◌, some, List, [], ◌∷◌, ◌++◌, append_assoc, length,
  length-append, take, take-set, set, get_elem?, arith,
}

-- The numbers from one on.
abbrev pub upto : (count from : ℕ) → List ℕ
upto zero from = []
upto (suc count) from = from ∷ upto count (suc from)

pub upto-suc : (count from : ℕ) → upto (suc count) from ≡ upto count from ++ ((from + count) ∷ [])
upto-suc zero from = ap (λ n. n ∷ []) (omega arith)
upto-suc (suc count) from =
    ap (λ l. from ∷ l)
      (upto-suc count (suc from) ∙ ap (λ n. upto count (suc from) ++ (n ∷ [])) (omega arith))

pub get_elem?-upto :
    (count from i : ℕ) → i < count → get_elem? (upto count from) i ≡ some (from + i)
get_elem?-upto zero from i h = absurd (omega arith)
get_elem?-upto (suc count) from zero h = ap some (omega arith)
get_elem?-upto (suc count) from (suc i) h =
    get_elem?-upto count (suc from) i (omega arith) ∙ ap some (omega arith)

pub length-upto : (count from : ℕ) → length (upto count from) ≡ count
length-upto zero from = refl
length-upto (suc count) from = ap suc (length-upto count (suc from))

pub one_more {ℓ} : {A : Type ℓ} → (xs : List A) (x : A) → length (xs ++ (x ∷ [])) ≡ suc (length xs)
one_more xs x = omega (arith, length-append xs (x ∷ []))

-- A number is added behind those that are queued.
pub more_queued :
    (begun taken cells : List ℕ) (offset n : ℕ)
    → offset < length cells
    → begun ++ (taken ++ take offset cells) ≡ upto n 0
    → begun ++ (taken ++ take (suc offset) (set cells offset n)) ≡ upto (suc n) 0
more_queued begun taken cells offset n inside order =
    ap (λ l. begun ++ (taken ++ l)) (take-set offset cells n inside)
    ∙ ap (λ l. begun ++ l) (sym (append_assoc taken (take offset cells) (n ∷ [])))
    ∙ sym (append_assoc begun (taken ++ take offset cells) (n ∷ []))
    ∙ ap (λ l. l ++ (n ∷ [])) order
    ∙ ap (λ k. upto n 0 ++ (k ∷ [])) (omega arith)
    ∙ sym (upto-suc n 0)
