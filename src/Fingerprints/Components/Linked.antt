-- ===== src/Fingerprints/Components/Linked.antt =====
-- What the low values and the indices of `components` in scripts/semantic-fingerprints.py say of the
-- edges, between two turns of the loop.
pub mod Met
pub mod Push
pub mod Lower
pub mod Pop
pub mod Close
pub mod Turns
use air2lean.Base.{
  ℕ, suc, ◌≤◌, ◌<◌, ◌≡◌, refl, sym, ap, ◌∙◌, String, Bool, true, false, ◌||◌, ◌&&◌, List, [], ◌∷◌,
  str_eq, eq_iff, if◌then◌else◌, if-both, length, arith, Bool-cases, inl, inr, subst,
}
use air2lean.Json.{listed}
use air2lean.Diff.Config.{has_key}
use air2lean.Fingerprints.Components.{Frame, Tarjan, index_of, popped, after_pop}
use air2lean.Fingerprints.Components.Stack.{listed-after_pop}
use air2lean.Fingerprints.Components.Reach.{Reaches, rank}

-- The numbers fall along the stack.
abbrev pub Falling : (String → ℕ) → List String → Type 0
Falling index [] = Unit
Falling index (x ∷ xs) = ((y : String) → listed y xs ≡ true → index y < index x) × Falling index xs

-- The nodes of the frames, the last one first, have falling indices. Those that stand on the stack
-- between a frame's node and the next one have no lower low value than the frame's.
abbrev pub Spans : (String → ℕ) → (String → ℕ) → List String → ℕ → List String → Type 0
Spans index low stack high [] = Unit
Spans index low stack high (v ∷ ns) =
    (index v < high)
    × ((x : String) → listed x stack ≡ true → index v ≤ index x → index x < high → low v ≤ low x)
    × Spans index low stack (index v) ns

-- `waits x y` where the edge from x to y was not followed yet; `ns` are the nodes of the frames.
pub record Linked (edges : String → List String) (ns : List String) (waits : String → String → Bool)
    (t : Tarjan) : Type 0 where
  pub falling : Falling (λ x. index_of x t) t.stack
  pub bounded : (x : String) → has_key x t.index ≡ true → index_of x t < length t.index
  pub low_self : (x : String) → listed x t.stack ≡ true → t.low x ≤ index_of x t
  pub low_edge :
      (x y : String)
      → listed x t.stack ≡ true
      → listed y (edges x) ≡ true
      → waits x y ≡ false
      → listed y t.stack ≡ true
      → t.low x ≤ index_of y t
  pub met :
      (x y : String)
      → has_key x t.index ≡ true
      → listed y (edges x) ≡ true
      → waits x y ≡ false
      → has_key y t.index ≡ true
  pub waits_edges : (x y : String) → waits x y ≡ true → listed y (edges x) ≡ true
  pub spans : Spans (λ x. index_of x t) t.low t.stack (length t.index) ns
  pub reach_up :
      (x y : String)
      → listed x ns ≡ true
      → listed y t.stack ≡ true
      → index_of x t ≤ index_of y t
      → Reaches edges x y
  pub reach_low :
      (x : String)
      → listed x t.stack ≡ true
      → (y : String) × (listed y t.stack ≡ true) × (index_of y t ≡ t.low x) × Reaches edges x y
  pub left_low :
      (x : String) → listed x t.stack ≡ true → listed x ns ≡ false → t.low x < index_of x t
  pub downward :
      (x y : String)
      → rank x t.order < length t.order
      → listed y (edges x) ≡ true
      → rank y t.order ≤ rank x t.order
  pub strong :
      (x y : String)
      → rank x t.order < length t.order
      → rank x t.order ≡ rank y t.order
      → Reaches edges x y

pub Falling-same :
    (f g : String → ℕ) (xs : List String)
    → ((x : String) → listed x xs ≡ true → g x ≡ f x)
    → Falling f xs
    → Falling g xs
unfolding listed
Falling-same f g [] same h = tt
Falling-same f g (x ∷ xs) same (h, hs) = (
  (λ y l.
      omega
        (arith, h y l, same x (ground (arith, (eq_iff x x).1 refl)), same y (ground (arith, l)))),
  Falling-same f g xs (λ y l. same y (ground (arith, l))) hs,
)

pub Falling-after_pop :
    (f : String → ℕ) (v : String) (xs : List String) → Falling f xs → Falling f (after_pop v xs)
unfolding after_pop
Falling-after_pop f v [] h = tt
Falling-after_pop f v (x ∷ xs) (h, hs) =
    if-both (Falling f) (str_eq x v) (λ _. hs) (λ _. Falling-after_pop f v xs hs)

-- What stays is below the node.
pub after_pop-low :
    (f : String → ℕ) (v n : String) (xs : List String)
    → Falling f xs
    → listed v xs ≡ true
    → listed n (after_pop v xs) ≡ true
    → f n < f v
unfolding after_pop listed
after_pop-low f v n [] h l a = absurd cc
after_pop-low f v n (x ∷ xs) (h, hs) l a = elim (Bool-cases (str_eq x v)) [
  | inl e ↦
      (let same : f x ≡ f v = ap f ((eq_iff x v).0 e) in
        omega (arith, same, h n (ground (arith, e, a))))
  | inr e ↦ after_pop-low f v n xs hs (ground (arith, e, l)) (ground (arith, e, a))
]

pub popped-high :
    (f : String → ℕ) (v n : String) (xs : List String)
    → Falling f xs
    → listed v xs ≡ true
    → listed n (popped v xs) ≡ true
    → f v ≤ f n
unfolding popped listed
popped-high f v n [] h l a = absurd cc
popped-high f v n (x ∷ xs) (h, hs) l a = elim (Bool-cases (str_eq x n)) [
  | inl here ↦
      (let same : f x ≡ f n = ap f ((eq_iff x n).0 here) in
        elim (Bool-cases (str_eq x v)) [
          | inl e ↦ (let first : f x ≡ f v = ap f ((eq_iff x v).0 e) in omega (arith, same, first))
          | inr e ↦ omega (arith, same, h v (ground (arith, e, l)))
        ])
  | inr other ↦ elim (Bool-cases (str_eq x v)) [
    | inl e ↦ absurd (ground (arith, other, e, a))
    | inr e ↦ popped-high f v n xs hs (ground (arith, e, l)) (ground (arith, e, other, a))
  ]
]

pub listed-popped :
    (v x : String) (xs : List String)
    → listed x xs ≡ (listed x (popped v xs) || listed x (after_pop v xs))
unfolding popped after_pop listed
listed-popped v x [] = refl
listed-popped v x (y ∷ xs) = ground (arith, listed-popped v x xs)

pub Spans-below :
    (index low : String → ℕ) (stack : List String) (high : ℕ) (ns : List String) (n : String)
    → Spans index low stack high ns
    → listed n ns ≡ true
    → index n < high
unfolding listed
Spans-below index low stack high [] n s l = absurd cc
Spans-below index low stack high (v ∷ ns) n (below, own, s) l = elim (Bool-cases (str_eq v n)) [
  | inl e ↦
      (let same : index v ≡ index n = ap index ((eq_iff v n).0 e) in omega (arith, same, below))
  | inr e ↦
      omega (arith, below, Spans-below index low stack (index v) ns n s (ground (arith, e, l)))
]

-- Nothing changes below `high`.
pub Spans-move :
    (index low index2 low2 : String → ℕ) (stack stack2 : List String) (high : ℕ) (ns : List String)
    → ((v : String) → listed v ns ≡ true → (index2 v ≡ index v) × (index v < high → low2 v ≡ low v))
    → ((x : String)
        → listed x stack2 ≡ true
        → index2 x < high
        → (listed x stack ≡ true) × (index2 x ≡ index x) × (low2 x ≡ low x))
    → Spans index low stack high ns
    → Spans index2 low2 stack2 high ns
unfolding listed
Spans-move index low index2 low2 stack stack2 high [] frames others s = tt
Spans-move index low index2 low2 stack stack2 high (v ∷ ns) frames others (below, own, s) =
    (let (same, low_same) = frames v (ground (arith, (eq_iff v v).1 refl)) in
      let lower = low_same below in
      (
        omega (arith, same, below),
        (λ x l above under.
            let (there, index_same, low_x) = others x l under in
            let old =
              own x there (omega (arith, same, index_same, above))
                (omega (arith, index_same, under)) in
            omega (arith, lower, low_x, old)),
        subst (λ h. Spans index2 low2 stack2 h ns) (sym same)
            (Spans-move index low index2 low2 stack stack2 (index v) ns
              (λ w l.
                let (i, lo) = frames w (ground (arith, l)) in
                (i, λ b. lo (omega (arith, b, below))))
              (λ x l under. others x l (omega (arith, under, below))) s),
      ))
