-- ===== src/Fingerprints/Components.antt =====
-- `components` of scripts/semantic-fingerprints.py: the strongly connected components of the call
-- graph by an iterative search (Tarjan). A frame of `work` is a node and the rest of its iterator;
-- `on_stack` is the set of the elements of `stack`, with which it changes. The lists `work` and `stack`
-- have their last element first, and `low` is a function.
pub mod Stack
pub mod Step
pub mod Turn
pub mod Leave
pub mod Measure
pub mod Once
pub mod Reach
pub mod Linked
pub mod Exact
use air2lean.Base.{
  ℕ, zero, suc, String, Option, none, some, Bool, true, false, List, [], ◌∷◌, ◌++◌, str_eq, ◌==◌,
  leb, if◌then◌else◌, length, sum_of,
}
use air2lean.Base.Sort.{text_le, sorted}
use air2lean.Json.{listed}
use air2lean.Diff.Config.{has_key, get_or}

abbrev pub Frame : Type 0
Frame = String × List String

pub record Tarjan : Type 0 where
  pub index : List (String × ℕ)
  pub low : String → ℕ
  pub stack : List String
  pub order : List (List String)

abbrev pub min : ℕ → ℕ → ℕ
min a b = if leb a b then a else b

-- `low[node] = n`
abbrev pub set_low : String → ℕ → (String → ℕ) → String → ℕ
set_low node n low x = if str_eq x node then n else low x

abbrev pub index_of : String → Tarjan → ℕ
index_of x t = get_or 0 x t.index

-- A node that is met for the first time.
unfoldable pub enter : String → Tarjan → Tarjan
enter node t = record t {
  index = t.index ++ (node, length t.index) ∷ [];
  low = set_low node (length t.index) t.low;
  stack = node ∷ t.stack;
}

-- The elements that are popped up to the node, in that order, and those that stay. The source raises
-- where the node is not on the stack.
unfoldable pub popped : String → List String → List String
popped node [] = []
popped node (x ∷ stack) = let more = popped node stack in if str_eq x node then x ∷ [] else x ∷ more

unfoldable pub after_pop : String → List String → List String
after_pop node [] = []
after_pop node (x ∷ stack) =
    let rest = after_pop node stack in if str_eq x node then stack else rest

-- The end of a node: its component, where it is the first node of one.
unfoldable pub close : String → Tarjan → Tarjan
unfolding popped after_pop get_or
close node t =
    if t.low node == index_of node t
    then record t {
      stack = after_pop node t.stack;
      order = t.order ++ sorted text_le (popped node t.stack) ∷ [];
    }
    else t

unfoldable pub inherit : String → List Frame → Tarjan → Tarjan
inherit node [] t = t
inherit node ((parent, children) ∷ work) t = record t {
  low = set_low parent (min (t.low parent) (t.low node)) t.low;
}

-- A child that has an index.
unfoldable pub meet : String → String → Tarjan → Tarjan
unfolding listed get_or
meet node child t =
    if listed child t.stack
    then record t { low = set_low node (min (t.low node) (index_of child t)) t.low }
    else t

abbrev pub fresh : Tarjan
fresh = record { index = []; low = λ x. 0; stack = []; order = [] }

module _ (edges : String → List String) where
  -- One turn of the loop, on the last frame and those below it.
  unfoldable pub step : Frame → List Frame → Tarjan → List Frame × Tarjan
  unfolding has_key enter close inherit meet
  step (node, []) work t = (work, close node (inherit node work t))
  step (node, child ∷ children) work t =
      if has_key child t.index
      then ((node, children) ∷ work, meet node child t)
      else ((child, edges child) ∷ (node, children) ∷ work, enter child t)

  -- `none` when the turns run out.
  unfoldable pub loop : ℕ → List Frame → Tarjan → Option Tarjan
  unfolding step
  loop fuel [] t = some t
  loop zero (f ∷ work) t = none
  loop (suc fuel) (f ∷ work) t = let next = step f work t in loop fuel next.0 next.1

  -- A turn for each frame and one for each edge.
  unfoldable pub turns : List String → ℕ
  turns nodes = sum_of (λ n. suc (length (edges n))) nodes

  unfoldable pub search : ℕ → List String → Tarjan → Option Tarjan
  unfolding loop enter has_key
  search fuel [] t = some t
  search fuel (root ∷ roots) t =
      if has_key root t.index
      then search fuel roots t
      else elim (loop fuel ((root, edges root) ∷ []) (enter root t)) [
        | none ↦ none
        | some u ↦ search fuel roots u
      ]

  unfoldable pub components : List String → Option (List (List String))
  unfolding turns search
  components nodes = elim (search (turns nodes) nodes fresh) [ none ↦ none | some t ↦ some t.order ]
