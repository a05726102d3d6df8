-- ===== src/Prelude/Lists.antt =====
-- Lists measured by native numbers, the predicates on lists and their laws.
use Prim.Native.Nat.{ℕ, zero, suc, ◌+◌, ◌≤◌}
use mathlib.Core.Path.{◌≡◌, refl, ap}
use mathlib.Core.Bool.{Bool, true, false}
use mathlib.Core.List.{List, [], ◌∷◌, ◌++◌}
use mathlib.Core.Option.{Option, none, some}
use native.Mathlib.Omega.{arith}

module _ {ℓ} {A : Type ℓ} where
  abbrev pub length : List A → ℕ
  length [] = 0
  length (x ∷ xs) = suc (length xs)

  abbrev pub get_elem? : List A → ℕ → Option A
  get_elem? [] i = none
  get_elem? (x ∷ xs) zero = some x
  get_elem? (x ∷ xs) (suc i) = get_elem? xs i

  abbrev pub take : ℕ → List A → List A
  take zero xs = []
  take (suc n) [] = []
  take (suc n) (x ∷ xs) = x ∷ take n xs

  pub length-append : (xs ys : List A) → length (xs ++ ys) ≡ length xs + length ys
  length-append [] ys = omega arith
  length-append (x ∷ xs) ys = omega (arith, length-append xs ys)

  pub length-take-le : (n : ℕ) (xs : List A) → length (take n xs) ≤ n
  length-take-le zero xs = omega arith
  length-take-le (suc n) [] = omega arith
  length-take-le (suc n) (x ∷ xs) = omega (arith, length-take-le n xs)

  pub length-take-shorter : (n : ℕ) (xs : List A) → length (take n xs) ≤ length xs
  length-take-shorter zero xs = omega arith
  length-take-shorter (suc n) [] = omega arith
  length-take-shorter (suc n) (x ∷ xs) = omega (arith, length-take-shorter n xs)

  -- Nothing is cut from a list that is short enough, and one of which `n` are left is.
  pub take_all : (n : ℕ) (xs : List A) → length xs ≤ n → take n xs ≡ xs
  take_all zero [] h = refl
  take_all zero (x ∷ xs) h = absurd (omega arith)
  take_all (suc n) [] h = refl
  take_all (suc n) (x ∷ xs) h = ap (λ (t : List A). x ∷ t) (take_all n xs (omega arith))

  pub length-of_take : (n : ℕ) (xs : List A) → length (take (suc n) xs) ≤ n → length xs ≤ n
  length-of_take zero [] h = omega arith
  length-of_take zero (x ∷ xs) h = absurd (omega arith)
  length-of_take (suc n) [] h = omega arith
  length-of_take (suc n) (x ∷ xs) h = omega (arith, length-of_take n xs (omega arith))

  -- Go's `for … if test { keep }` over a slice.
  abbrev pub keep_if : (A → Bool) → List A → List A
  keep_if p [] = []
  keep_if p (x ∷ xs) = elim (p x) [ true ↦ x ∷ keep_if p xs | false ↦ keep_if p xs ]

  pub keep_if-kept :
      (p : A → Bool) (x : A) (xs : List A) → p x ≡ true → keep_if p (x ∷ xs) ≡ x ∷ keep_if p xs
  keep_if-kept p x xs h = ground arith

  pub keep_if-dropped :
      (p : A → Bool) (x : A) (xs : List A) → p x ≡ false → keep_if p (x ∷ xs) ≡ keep_if p xs
  keep_if-dropped p x xs h = ground arith

  pub length-keep_if-le : (p : A → Bool) (xs : List A) → length (keep_if p xs) ≤ length xs
  length-keep_if-le p [] = omega arith
  length-keep_if-le p (x ∷ xs) = ground (arith, length-keep_if-le p xs)

  -- Predicates by recursion, which tactics read as tuples.
  abbrev pub All {κ} : (A → Type κ) → List A → Type κ
  All P [] = Unit
  All P (x ∷ xs) = P x × All P xs

  pub All-map {κ μ} :
      {P : A → Type κ} {Q : A → Type μ} → ((r : A) → P r → Q r) → (t : List A) → All P t → All Q t
  All-map f [] a = tt
  All-map f (r ∷ t) a = (f r a.0, All-map f t a.1)

  -- Membership with the place kept.
  pub data At (r : A) : List A → Type ℓ where
    here : {t : List A} → At r (r ∷ t)
    there : {s : A} {t : List A} → At r t → At r (s ∷ t)

  pub All-own : (t : List A) → All (λ r. At r t) t
  All-own [] = tt
  All-own (r ∷ t) = (here, All-map (λ s at. there at) t (All-own t))

  pub All-at {κ} : (P : A → Type κ) {r : A} {t : List A} → All P t → At r t → P r
  All-at P a here = a.0
  All-at P a (there m) = All-at P a.1 m
