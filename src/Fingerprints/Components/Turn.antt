-- ===== src/Fingerprints/Components/Turn.antt =====
-- Every turn of the loop of `components` in scripts/semantic-fingerprints.py keeps the invariant.
use air2lean.Base.{
  ℕ, ◌≤◌, ◌≡◌, sym, ap, ◌∙◌, String, true, false, List, [], ◌∷◌, str_eq, eq_iff, length,
  length-append, arith, Bool-cases, inl, inr,
}
use air2lean.Json.{listed}
use air2lean.Diff.Config.{has_key}
use air2lean.Fingerprints.Components.{Frame, Tarjan, min, set_low, index_of, enter}
use air2lean.Fingerprints.Components.Stack.{keep, Bottom}
use air2lean.Fingerprints.Components.Step.{
  Known, Placed, Searching, has_key-append, get_or-append, stack-index, enter-Placed, Placed-low,
}

Bottom-cons :
    (root k : String) (stack : List String)
    → str_eq k root ≡ false
    → Bottom root stack
    → Bottom root (k ∷ stack)
Bottom-cons root k [] d b = cc
Bottom-cons root k (y ∷ ys) d b = (d, b)

-- A key and a text that is no key differ.
differ :
    (k r : String) (d : List (String × ℕ))
    → has_key k d ≡ false
    → has_key r d ≡ true
    → str_eq k r ≡ false
differ k r d new old = elim (Bool-cases (str_eq k r)) [
  | inr e ↦ e
  | inl e ↦ (let same : has_key k d ≡ has_key r d = ap (λ y. has_key y d) ((eq_iff k r).0 e) in cc)
]

flip : (a b : String) → str_eq a b ≡ false → str_eq b a ≡ false
flip a b h = ground (arith, eq_iff a b, eq_iff b a)

module _ (nodes : List String) (root : String) (base : ℕ) where
  -- A node on the stack after another was met is that one, or has been there.
  pub entered_high :
      (k x : String) (t : Tarjan)
      → Placed nodes t
      → has_key k t.index ≡ false
      → base ≤ length t.index
      → (listed x t.stack ≡ true → base ≤ index_of x t)
      → listed x (k ∷ t.stack) ≡ true
      → base ≤ index_of x (enter k t)
  unfolding enter listed
  entered_high k x t p new size high h = elim (Bool-cases (str_eq k x)) [
    | inl e ↦
        (let same : has_key x t.index ≡ false =
            sym (ap (λ y. has_key y t.index) ((eq_iff k x).0 e)) ∙ new in
          ground (arith, get_or-append x k (length t.index) t.index, e, same, size))
    | inr e ↦
        (let there : listed x t.stack ≡ true = ground (arith, e, h) in
          let old = stack-index nodes x t p there in
          ground (arith, get_or-append x k (length t.index) t.index, old, high there))
  ]

  pub entered_low :
      (k x : String) (t : Tarjan)
      → base ≤ length t.index
      → (listed x t.stack ≡ true → base ≤ t.low x)
      → listed x (k ∷ t.stack) ≡ true
      → base ≤ (enter k t).low x
  unfolding enter listed
  entered_low k x t size low h = elim (Bool-cases (str_eq k x)) [
    | inl e ↦ ground (arith, eq_iff k x, eq_iff x k, e, size)
    | inr e ↦
        (let there : listed x t.stack ≡ true = ground (arith, e, h) in
          ground (arith, flip k x e, low there))
  ]

  pub push-Searching :
      (k : String) (children : List String) (f : Frame) (work : List Frame) (t : Tarjan)
      → listed k nodes ≡ true
      → Known nodes children
      → has_key k t.index ≡ false
      → Searching nodes root base (f ∷ work) t
      → Searching nodes root base ((k, children) ∷ f ∷ work) (enter k t)
  unfolding enter
  push-Searching k children f work t given known new s =
      let apart = differ k root t.index new s.root_in in
      record {
        is_placed = enter-Placed nodes k t given new s.is_placed;
        known = (known, s.known);
        on_stack = keep s.on_stack;
        based = ((apart, s.based.0), Bottom-cons root k t.stack apart s.based.1);
        stack_high = λ x h. entered_high k x t s.is_placed new s.size (s.stack_high x) h;
        low_high = λ x h. entered_low k x t s.size (s.low_high x) h;
        root_in = ground (arith, has_key-append root k (length t.index) t.index, s.root_in);
        root_low = ground (arith, flip k root apart, s.root_low);
        root_index =
            ground (arith, get_or-append root k (length t.index) t.index, s.root_in, s.root_index);
        size = omega (arith, length-append t.index ((k, length t.index) ∷ []), s.size);
      }

  -- A child is taken from the last frame.
  pub take-Searching :
      (node child : String) (children : List String) (work : List Frame) (t : Tarjan)
      → Searching nodes root base ((node, child ∷ children) ∷ work) t
      → Searching nodes root base ((node, children) ∷ work) t
  take-Searching node child children work t s = record {
    is_placed = s.is_placed;
    known = (s.known.0.1, s.known.1);
    on_stack = s.on_stack;
    based = s.based;
    stack_high = s.stack_high;
    low_high = s.low_high;
    root_in = s.root_in;
    root_low = s.root_low;
    root_index = s.root_index;
    size = s.size;
  }

  -- The low value of a node goes down, not below the base.
  pub lower-Searching :
      (node : String) (n : ℕ) (work : List Frame) (t : Tarjan)
      → base ≤ n
      → listed node t.stack ≡ true
      → Searching nodes root base work t
      → Searching nodes root base work (record t { low = set_low node (min (t.low node) n) t.low })
  lower-Searching node n work t high there s = record {
    is_placed = Placed-low nodes _ t s.is_placed;
    known = s.known;
    on_stack = s.on_stack;
    based = s.based;
    stack_high = s.stack_high;
    low_high = λ x h. ground (arith, high, s.low_high node there, s.low_high x h);
    root_in = s.root_in;
    root_low = elim (Bool-cases (str_eq root node)) [
      | inl e ↦
          (let same : t.low root ≡ t.low node = ap t.low ((eq_iff root node).0 e) in
            ground (arith, e, same, s.root_low))
      | inr e ↦ ground (arith, e, s.root_low)
    ];
    root_index = s.root_index;
    size = s.size;
  }
