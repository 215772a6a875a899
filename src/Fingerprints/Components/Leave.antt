-- ===== src/Fingerprints/Components/Leave.antt =====
-- The end of a node in `components` of scripts/semantic-fingerprints.py keeps the invariant.
use air2lean.Base.{
  ℕ, ◌≡◌, refl, sym, ap, String, true, false, List, [], ◌∷◌, ◌++◌, eq_iff, ◌==◌, if-both,
  sum_of-append, arith, subst,
}
use air2lean.Base.Sort.{text_le, sorted}
use air2lean.Json.{listed}
use air2lean.Diff.Config.{has_key}
use air2lean.Fingerprints.Components.{
  Frame, Tarjan, index_of, popped, after_pop, close, inherit, meet, step,
}
use air2lean.Fingerprints.Components.Stack.{
  count, listed-Sub, Sub-tail, Sub-after_pop, listed-after_pop, after_pop-root, Bottom-after_pop,
  count-popped, count-sorted,
}
use air2lean.Fingerprints.Components.Step.{placed, Based, names, Known, Placed, Searching}
use air2lean.Fingerprints.Components.Turn.{push-Searching, take-Searching, lower-Searching}

first_listed : (n : String) (ws : List String) → listed n (n ∷ ws) ≡ true
unfolding listed
first_listed n ws = ground (arith, (eq_iff n n).1 refl)

module _ (nodes : List String) (root : String) (base : ℕ) where
  -- The node of the last frame is on the stack.
  pub last_listed :
      (f : Frame) (work : List Frame) (t : Tarjan)
      → Searching nodes root base (f ∷ work) t
      → listed f.0 t.stack ≡ true
  last_listed f work t s = listed-Sub f.0 s.on_stack (first_listed f.0 (names work))

  parent_listed :
      (f g : Frame) (work : List Frame) (t : Tarjan)
      → Searching nodes root base (f ∷ g ∷ work) t
      → listed g.0 t.stack ≡ true
  parent_listed f g work t s = listed-Sub g.0 (Sub-tail s.on_stack) (first_listed g.0 (names work))

  pub inherit-Searching :
      (f : Frame) (work : List Frame) (t : Tarjan)
      → Searching nodes root base (f ∷ work) t
      → Searching nodes root base (f ∷ work) (inherit f.0 work t)
  unfolding inherit
  inherit-Searching f [] t s = s
  inherit-Searching f (g ∷ work) t s =
      lower-Searching nodes root base g.0 (t.low f.0) (f ∷ g ∷ work) t
        (s.low_high f.0 (last_listed f (g ∷ work) t s)) (parent_listed f g work t s) s

  popped-Placed :
      (node : String) (t : Tarjan)
      → Placed nodes t
      → Placed nodes (record t {
        stack = after_pop node t.stack;
        order = t.order ++ sorted text_le (popped node t.stack) ∷ [];
      })
  unfolding placed has_key
  popped-Placed node t p = record {
    once = λ x. omega (
      arith,
      sum_of-append (count x) t.order (sorted text_le (popped node t.stack) ∷ []),
      count-sorted x (popped node t.stack),
      count-popped x node t.stack,
      p.once x,
    );
    given = p.given;
  }

  -- What is left is based on the root.
  left-Based :
      (node : String) (rest : List String) (stack : List String)
      → listed node stack ≡ true
      → Based root (node ∷ rest) stack
      → Based root rest (after_pop node stack)
  left-Based node [] stack l (same, b) =
      subst (λ y. after_pop y stack ≡ []) (sym same) (after_pop-root root stack b)
  left-Based node (n ∷ ns) stack l ((apart, names_based), b) =
      (names_based, Bottom-after_pop root node stack apart l b)

  popped-Searching :
      (f : Frame) (work : List Frame) (t : Tarjan)
      → Searching nodes root base (f ∷ work) t
      → Searching nodes root base work (record t {
        stack = after_pop f.0 t.stack;
        order = t.order ++ sorted text_le (popped f.0 t.stack) ∷ [];
      })
  popped-Searching f work t s = record {
    is_placed = popped-Placed f.0 t s.is_placed;
    known = s.known.1;
    on_stack = Sub-after_pop f.0 (names work) t.stack s.on_stack;
    based = left-Based f.0 (names work) t.stack (last_listed f work t s) s.based;
    stack_high = λ x h. s.stack_high x (listed-after_pop f.0 x t.stack h);
    low_high = λ x h. s.low_high x (listed-after_pop f.0 x t.stack h);
    root_in = s.root_in;
    root_low = s.root_low;
    root_index = s.root_index;
    size = s.size;
  }

  -- Only a node that is not the root stays on the stack.
  kept-Searching :
      (f : Frame) (work : List Frame) (t : Tarjan)
      → (t.low f.0 == index_of f.0 t) ≡ false
      → Searching nodes root base (f ∷ work) t
      → Searching nodes root base work t
  kept-Searching f [] t e s =
      (let low_same : t.low f.0 ≡ t.low root = ap t.low s.based.0 in
        let index_same : index_of f.0 t ≡ index_of root t = ap (λ y. index_of y t) s.based.0 in
        let high = s.low_high f.0 (last_listed f [] t s) in
        absurd (ground (arith, low_same, index_same, high, s.root_low, s.root_index, e)))
  kept-Searching f (g ∷ work) t e s = record {
    is_placed = s.is_placed;
    known = s.known.1;
    on_stack = Sub-tail s.on_stack;
    based = (s.based.0.1, s.based.1);
    stack_high = s.stack_high;
    low_high = s.low_high;
    root_in = s.root_in;
    root_low = s.root_low;
    root_index = s.root_index;
    size = s.size;
  }

  close-Searching :
      (f : Frame) (work : List Frame) (t : Tarjan)
      → Searching nodes root base (f ∷ work) t
      → Searching nodes root base work (close f.0 t)
  unfolding close
  close-Searching f work t s =
      if-both (Searching nodes root base work) (t.low f.0 == index_of f.0 t)
        (λ _. popped-Searching f work t s) (λ e. kept-Searching f work t e s)

  meet-Searching :
      (node child : String) (work : List Frame) (t : Tarjan)
      → listed node t.stack ≡ true
      → Searching nodes root base work t
      → Searching nodes root base work (meet node child t)
  unfolding meet
  meet-Searching node child work t there s =
      if-both (Searching nodes root base work) (listed child t.stack)
        (λ e.
          lower-Searching nodes root base node (index_of child t) work t (s.stack_high child e)
            there s)
        (λ _. s)

  module _ (edges : String → List String)
      (inside : (n : String) → listed n nodes ≡ true → Known nodes (edges n)) where
    pub step-Searching :
        (f : Frame) (work : List Frame) (t : Tarjan)
        → Searching nodes root base (f ∷ work) t
        → Searching nodes root base (step edges f work t).0 (step edges f work t).1
    unfolding step
    step-Searching (node, []) work t s =
        close-Searching (node, []) work (inherit node work t)
          (inherit-Searching (node, []) work t s)
    step-Searching (node, child ∷ children) work t s =
        (let taken = take-Searching nodes root base node child children work t s in
          if-both (λ (w : List Frame × Tarjan). Searching nodes root base w.0 w.1)
            (has_key child t.index)
            (λ _.
              meet-Searching node child ((node, children) ∷ work) t
                (last_listed (node, children) work t taken) taken)
            (λ e.
              push-Searching nodes root base child (edges child) (node, children) work t s.known.0.0
                (inside child s.known.0.0) e taken))
