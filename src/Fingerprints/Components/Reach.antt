-- ===== src/Fingerprints/Components/Reach.antt =====
-- What `components` of scripts/semantic-fingerprints.py is about: the nodes that a node reaches by edges,
-- and the place of a node's component in the order.
use air2lean.Base.{
  ℕ, suc, ◌≤◌, ◌≡◌, refl, sym, String, Bool, true, false, ◌||◌, ◌&&◌, List, [], ◌∷◌, ◌++◌, ltb, ◌<◌,
  if◌then◌else◌, length, arith, subst,
}
use air2lean.Json.{listed}
use air2lean.Fingerprints.Components.Stack.{count, listed-count}
use air2lean.Fingerprints.Components.Step.{placed}

-- A path along the edges.
pub data Reaches (edges : String → List String) : String → String → Type 0 where
  stay : {x y : String} → x ≡ y → Reaches edges x y
  hop : {x y z : String} → listed y (edges x) ≡ true → Reaches edges y z → Reaches edges x z

module _ (edges : String → List String) where
  pub Reaches-trans : {x y z : String} → Reaches edges x y → Reaches edges y z → Reaches edges x z
  Reaches-trans {z = z} (stay e) q = subst (λ a. Reaches edges a z) (sym e) q
  Reaches-trans (hop l p) q = hop l (Reaches-trans p q)

  pub Reaches-edge : {x y : String} → listed y (edges x) ≡ true → Reaches edges x y
  Reaches-edge l = hop l (stay refl)

-- How many components come before the first that has the node.
unfoldable pub rank : String → List (List String) → ℕ
unfolding listed
rank x [] = 0
rank x (c ∷ order) = let rest = rank x order in if listed x c then 0 else suc rest

pub rank-append :
    (x : String) (c : List String) (order : List (List String))
    → rank x (order ++ c ∷ []) ≡ (
        if ltb (rank x order) (length order)
        then rank x order
        else if listed x c
        then length order
        else suc (length order))
unfolding rank
rank-append x c [] = refl
rank-append x c (d ∷ order) = ground (arith, rank-append x c order)

count-listed : (x : String) (ys : List String) → 1 ≤ count x ys → listed x ys ≡ true
unfolding listed count
count-listed x [] h = absurd (omega (arith, h))
count-listed x (y ∷ ys) h = ground (arith, count-listed x ys)

-- A node that is in a component is in a first one.
pub placed-rank :
    (x : String) (order : List (List String)) → 1 ≤ placed x order → rank x order < length order
unfolding placed rank
placed-rank x [] h = absurd (omega (arith, h))
placed-rank x (c ∷ order) h = ground (arith, placed-rank x order, count-listed x c)

-- Both nodes are in one component.
unfoldable pub together : String → String → List (List String) → Bool
unfolding listed
together x y [] = false
together x y (c ∷ order) = (listed x c && listed y c) || together x y order

together-placed :
    (x y : String) (order : List (List String))
    → together x y order ≡ true
    → (1 ≤ placed x order) × (1 ≤ placed y order)
unfolding together placed
together-placed x y [] h = absurd cc
together-placed x y (c ∷ order) h =
    ground (arith, h, together-placed x y order, listed-count x c, listed-count y c)

-- Where each is in one component at most, that is where their first components are the same.
pub together-rank :
    (x y : String) (order : List (List String))
    → placed x order ≤ 1
    → placed y order ≤ 1
    → together x y order ≡ true
    → rank x order ≡ rank y order
unfolding together placed rank
together-rank x y [] p q h = absurd cc
together-rank x y (c ∷ order) p q h = ground (
  arith,
  h,
  p,
  q,
  together-rank x y order,
  together-placed x y order,
  listed-count x c,
  listed-count y c,
)

pub rank-together :
    (x y : String) (order : List (List String))
    → rank x order < length order
    → rank x order ≡ rank y order
    → together x y order ≡ true
unfolding together rank
rank-together x y [] h e = absurd (omega (arith, h))
rank-together x y (c ∷ order) h e = ground (arith, rank-together x y order, h, e)

pub rank-placed :
    (x : String) (order : List (List String)) → rank x order < length order → 1 ≤ placed x order
unfolding placed rank
rank-placed x [] h = absurd (omega (arith, h))
rank-placed x (c ∷ order) h = ground (arith, rank-placed x order, listed-count x c)
