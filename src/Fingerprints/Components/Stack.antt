-- ===== src/Fingerprints/Components/Stack.antt =====
-- The stack of `components` in scripts/semantic-fingerprints.py, and what a component takes from it.
use air2lean.Base.{
  ℕ, ◌+◌, ◌≤◌, ◌≡◌, refl, String, true, false, List, [], ◌∷◌, str_eq, eq_iff, if-both, as_count,
  sum_of, arith,
}
use air2lean.Base.Sort.{text_le, insert, sorted}
use air2lean.Json.{listed}
use air2lean.Fingerprints.Components.{popped, after_pop}

-- How often the text occurs.
unfoldable pub count : String → List String → ℕ
count x xs = sum_of (λ y. as_count (str_eq y x)) xs

-- The first list, in order, is a part of the second.
pub data Sub : List String → List String → Type 0 where
  none_left : {ys : List String} → Sub [] ys
  keep : {x : String} {xs ys : List String} → Sub xs ys → Sub (x ∷ xs) (x ∷ ys)
  pass : {y : String} {xs ys : List String} → Sub xs ys → Sub xs (y ∷ ys)

-- The last element is the root, and no other is.
abbrev pub Bottom : String → List String → Type 0
Bottom root [] = false ≡ true
Bottom root (x ∷ []) = x ≡ root
Bottom root (x ∷ y ∷ ys) = (str_eq x root ≡ false) × Bottom root (y ∷ ys)

pub listed-Sub :
    {xs ys : List String} (x : String) → Sub xs ys → listed x xs ≡ true → listed x ys ≡ true
unfolding listed
listed-Sub x none_left h = cc
listed-Sub x (keep {x = y} {xs = xs} s) h = ground (arith, listed-Sub x s)
listed-Sub x (pass s) h = ground (arith, listed-Sub x s h)

pub Sub-tail : {x : String} {xs ys : List String} → Sub (x ∷ xs) ys → Sub xs ys
Sub-tail (keep s) = pass s
Sub-tail (pass s) = pass (Sub-tail s)

-- What is below the node stays.
pub Sub-after_pop :
    (n : String) (ws stack : List String) → Sub (n ∷ ws) stack → Sub ws (after_pop n stack)
unfolding after_pop
Sub-after_pop n ws [] s = elim s [ ]
Sub-after_pop n ws (x ∷ stack) (keep s) =
    if-both (Sub ws) (str_eq x n) {x = stack} {y = after_pop n stack} (λ _. s)
      (λ e. absurd (differ e))
  where
    differ : str_eq x x ≡ false → ⊥
    differ e = ground (arith, (eq_iff x x).1 refl, e)
Sub-after_pop n ws (x ∷ stack) (pass s) =
    if-both (Sub ws) (str_eq x n) {x = stack} {y = after_pop n stack} (λ _. Sub-tail s)
      (λ _. Sub-after_pop n ws stack s)

pub listed-after_pop :
    (n x : String) (stack : List String)
    → listed x (after_pop n stack) ≡ true
    → listed x stack ≡ true
unfolding listed after_pop
listed-after_pop n x [] h = h
listed-after_pop n x (y ∷ stack) h = ground (arith, listed-after_pop n x stack)

-- The root takes all that is left.
pub after_pop-root :
    (root : String) (stack : List String) → Bottom root stack → after_pop root stack ≡ []
unfolding after_pop
after_pop-root root [] h = cc
after_pop-root root (x ∷ []) h = ground (arith, (eq_iff x root).1 h)
after_pop-root root (x ∷ y ∷ ys) (differ, h) =
    ground (arith, after_pop-root root (y ∷ ys) h, differ)

pub Bottom-after_pop :
    (root n : String) (stack : List String)
    → str_eq n root ≡ false
    → listed n stack ≡ true
    → Bottom root stack
    → Bottom root (after_pop n stack)
unfolding listed after_pop
Bottom-after_pop root n [] d h b = cc
Bottom-after_pop root n (x ∷ []) d h b = absurd (ground (arith, eq_iff x n, eq_iff n root, b, d, h))
Bottom-after_pop root n (x ∷ y ∷ ys) d h (differ, b) =
    if-both (Bottom root) (str_eq x n) {x = y ∷ ys} {y = after_pop n (y ∷ ys)} (λ _. b)
      (λ e. Bottom-after_pop root n (y ∷ ys) d (ground (arith, e, h)) b)

-- Nothing is lost.
pub count-popped :
    (x n : String) (stack : List String)
    → count x (popped n stack) + count x (after_pop n stack) ≡ count x stack
unfolding count popped after_pop
count-popped x n [] = refl
count-popped x n (y ∷ stack) = ground (arith, count-popped x n stack)

count-insert :
    (x y : String) (ys : List String)
    → count x (insert text_le y ys) ≡ as_count (str_eq y x) + count x ys
unfolding count insert
count-insert x y [] = refl
count-insert x y (z ∷ ys) =
    if-both (λ (l : List String). count x l ≡ as_count (str_eq y x) + count x (z ∷ ys))
      (text_le y z) (λ _. refl) (λ _. omega (arith, count-insert x y ys))

pub count-sorted : (x : String) (ys : List String) → count x (sorted text_le ys) ≡ count x ys
unfolding count sorted
count-sorted x [] = refl
count-sorted x (y ∷ ys) = omega (arith, count-insert x y (sorted text_le ys), count-sorted x ys)

pub listed-count : (x : String) (ys : List String) → listed x ys ≡ true → 1 ≤ count x ys
unfolding listed count
listed-count x [] h = cc
listed-count x (y ∷ ys) h = ground (arith, listed-count x ys)
