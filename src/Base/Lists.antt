-- ===== src/Base/Lists.antt =====
-- Lists counted by native numbers, Boolean searches that run, and predicates on all elements.
use Prim.Native.Nat.{ℕ, suc, ◌+◌}
use mathlib.Core.Path.{◌≡◌, refl}
use mathlib.Core.Logic.{◌≢◌}
use mathlib.Core.List.{List, [], ◌∷◌, ◌++◌}
use mathlib.Core.Bool.{Bool, true, false, ◌&&◌, ◌||◌}
use native.Mathlib.Omega.{arith}

module _ {ℓ} {A : Type ℓ} where
  abbrev pub length : List A → ℕ
  length [] = 0
  length (x ∷ xs) = suc (length xs)

  abbrev pub is_empty : List A → Bool
  is_empty [] = true
  is_empty (x ∷ xs) = false

  -- Python's `all(p(x) for x in xs)` and `any(p(x) for x in xs)`.
  abbrev pub all : (A → Bool) → List A → Bool
  all p [] = true
  all p (x ∷ xs) = p x && all p xs

  abbrev pub any : (A → Bool) → List A → Bool
  any p [] = false
  any p (x ∷ xs) = p x || any p xs

  -- `sum(f(x) for x in xs)`
  abbrev pub sum_of : (A → ℕ) → List A → ℕ
  sum_of f [] = 0
  sum_of f (x ∷ xs) = f x + sum_of f xs

  abbrev pub All {κ} : (A → Type κ) → List A → Type κ
  All P [] = Unit
  All P (x ∷ xs) = P x × All P xs

  -- `P` holds of some element.
  pub data Any {κ} (P : A → Type κ) : List A → Type (ℓ ⊔ κ) where
    here : {x : A} {xs : List A} → P x → Any P (x ∷ xs)
    there : {x : A} {xs : List A} → Any P xs → Any P (x ∷ xs)

module _ {ℓ} {A : Type ℓ} where
  pub length-append : (xs ys : List A) → length (xs ++ ys) ≡ length xs + length ys
  length-append [] ys = omega arith
  length-append (x ∷ xs) ys = omega (arith, length-append xs ys)

  pub sum_of-append : (f : A → ℕ) (xs ys : List A) → sum_of f (xs ++ ys) ≡ sum_of f xs + sum_of f ys
  sum_of-append f [] ys = omega arith
  sum_of-append f (x ∷ xs) ys = omega (arith, sum_of-append f xs ys)

  pub sum_of-add :
      (f g : A → ℕ) (xs : List A) → sum_of (λ x. f x + g x) xs ≡ sum_of f xs + sum_of g xs
  sum_of-add f g [] = refl
  sum_of-add f g (x ∷ xs) = omega (arith, sum_of-add f g xs)

  pub is_empty→eq : (xs : List A) → is_empty xs ≡ true → xs ≡ []
  is_empty→eq [] h = refl
  is_empty→eq (x ∷ xs) h = cc

  pub not-is_empty→ne : (xs : List A) → is_empty xs ≡ false → xs ≢ []
  not-is_empty→ne [] h = cc
  not-is_empty→ne (x ∷ xs) h = λ e. cc

  pub ne→not-is_empty : (xs : List A) → xs ≢ [] → is_empty xs ≡ false
  ne→not-is_empty [] h = absurd (h refl)
  ne→not-is_empty (x ∷ xs) h = refl

  pub All-every {κ} : {P : A → Type κ} → ((x : A) → P x) → (xs : List A) → All P xs
  All-every f [] = tt
  All-every f (x ∷ xs) = (f x, All-every f xs)

pub All-append {ℓ κ} :
    {A : Type ℓ} (P : A → Type κ) (xs ys : List A) → All P xs → All P ys → All P (xs ++ ys)
All-append P [] ys ps qs = qs
All-append P (x ∷ xs) ys (p, ps) qs = (p, All-append P xs ys ps qs)

pub All-implies {ℓ κ μ} :
    {A : Type ℓ} {P : A → Type κ} {Q : A → Type μ}
    → ((x : A) → P x → Q x)
    → (xs : List A) → All P xs
    → All Q xs
All-implies f [] ps = tt
All-implies f (x ∷ xs) (p, ps) = (f x p, All-implies f xs ps)
