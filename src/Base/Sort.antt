-- ===== src/Base/Sort.antt =====
-- Python's `sorted` and the order of `str`: code points, from the left.
use Prim.Native.Nat.{ℕ}
use Prim.Native.String.{String}
use mathlib.Core.Bool.{Bool, true, false}
use mathlib.Core.List.{List, [], ◌∷◌}
use air2lean.Base.Tests.{ltb, ◌==◌, if◌then◌else◌}
use air2lean.Base.Lists.{All}
use air2lean.Base.Text.{codes}

unfoldable pub codes_le : List ℕ → List ℕ → Bool
codes_le [] ys = true
codes_le (x ∷ xs) [] = false
codes_le (x ∷ xs) (y ∷ ys) = if x == y then codes_le xs ys else ltb x y

unfoldable pub text_le : String → String → Bool
unfolding codes_le
text_le s t = codes_le (codes s) (codes t)

module _ {ℓ} {A : Type ℓ} (le : A → A → Bool) where
  -- Before the first element that is not less: equal elements keep their order.
  unfoldable pub insert : A → List A → List A
  insert x [] = x ∷ []
  insert x (y ∷ ys) = let rest = insert x ys in if le x y then x ∷ y ∷ ys else y ∷ rest

  unfoldable pub sorted : List A → List A
  unfolding insert
  sorted [] = []
  sorted (x ∷ xs) = insert x (sorted xs)

module _ {ℓ} {A : Type ℓ} (le : A → A → Bool) where
  insert-All {κ} : (P : A → Type κ) (x : A) (xs : List A) → P x → All P xs → All P (insert le x xs)
  unfolding insert
  insert-All P x [] p ps = (p, tt)
  insert-All P x (y ∷ ys) p (q, qs) = either (le x y) (insert-All P x ys p qs)
    where
      either :
          (b : Bool) → All P (insert le x ys) → All P (if b then x ∷ y ∷ ys else y ∷ insert le x ys)
      either true r = (p, (q, qs))
      either false r = (q, r)

  pub sorted-All {κ} : (P : A → Type κ) (xs : List A) → All P xs → All P (sorted le xs)
  unfolding sorted
  sorted-All P [] tt = tt
  sorted-All P (x ∷ xs) (p, ps) = insert-All P x (sorted le xs) p (sorted-All P xs ps)
