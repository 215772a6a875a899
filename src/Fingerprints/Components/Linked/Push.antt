-- ===== src/Fingerprints/Components/Linked/Push.antt =====
-- A node that is met for the first time, in `components` of scripts/semantic-fingerprints.py.
use air2lean.Base.{
  ◌≤◌, ◌<◌, ◌≡◌, refl, sym, ap, ◌∙◌, String, Bool, true, false, List, [], ◌∷◌, ◌⊎◌, str_eq, eq_iff,
  length, length-append, arith, Bool-cases, inl, inr, subst,
}
use air2lean.Json.{listed}
use air2lean.Diff.Config.{has_key}
use air2lean.Fingerprints.Components.{Tarjan, index_of, enter}
use air2lean.Fingerprints.Components.Step.{Placed, has_key-append, stack-index}
use air2lean.Fingerprints.Components.Reach.{Reaches, stay}
use air2lean.Fingerprints.Components.Linked.{Falling-same, Spans, Spans-move, Linked}
use air2lean.Fingerprints.Components.Linked.Met.{
  New, Old, stack_grows, New-node, Old-node, key_cases, stack_cases,
}

-- The edge that led to the node is followed, and those from the node wait.
module _ (k : String) (t : Tarjan) (new : has_key k t.index ≡ false) (nodes : List String)
    (p : Placed nodes t) (edges : String → List String) (ns : List String)
    (waits waits2 : String → String → Bool) (l : Linked edges ns waits t)
    (settled : (x y : String)
      → has_key x t.index ≡ true
      → listed y (edges x) ≡ true
      → waits2 x y ≡ false
      → (waits x y ≡ false) ⊎ (k ≡ y))
    (still : (x y : String) → waits2 x y ≡ true → listed y (edges x) ≡ true)
    (all_wait : (y : String) → listed y (edges k) ≡ true → waits2 k y ≡ true)
    (above : (x : String) → listed x ns ≡ true → Reaches edges x k)
    (frames_on : (x : String) → listed x ns ≡ true → listed x t.stack ≡ true) where
  waits-New : (x y : String) → New k t x → listed y (edges x) ≡ true → waits2 x y ≡ false → ⊥
  waits-New x y n e w =
      (let same : waits2 k y ≡ waits2 x y = ap (λ z. waits2 z y) n.same in
        let there : listed y (edges k) ≡ listed y (edges x) = ap (λ z. listed y (edges z)) n.same in
        ground (arith, same, there, e, w, all_wait y))

  Old-below : (x : String) → Old k t x → index_of x (enter k t) < length t.index
  Old-below x o = omega (arith, o.index, l.bounded x o.key)

  push-low_edge :
      (x y : String)
      → listed x (enter k t).stack ≡ true
      → listed y (edges x) ≡ true
      → waits2 x y ≡ false
      → listed y (enter k t).stack ≡ true
      → (enter k t).low x ≤ index_of y (enter k t)
  push-low_edge x y h e w m = elim (stack_cases k t new nodes p x h) [
    | inl n ↦ absurd (waits-New x y n e w)
    | inr (there, o) ↦ elim (stack_cases k t new nodes p y m) [
      | inl n ↦ omega (arith, o.low, n.index, l.low_self x there, l.bounded x o.key)
      | inr (target, q) ↦ elim (settled x y o.key e w) [
        | inl f ↦ omega (arith, o.low, q.index, l.low_edge x y there e f target)
        | inr s ↦ absurd (ground (arith, (eq_iff k y).1 s, q.other))
      ]
    ]
  ]

  push-met :
      (x y : String)
      → has_key x (enter k t).index ≡ true
      → listed y (edges x) ≡ true
      → waits2 x y ≡ false
      → has_key y (enter k t).index ≡ true
  unfolding enter
  push-met x y h e w = elim (key_cases k t new x h) [
    | inl n ↦ absurd (waits-New x y n e w)
    | inr o ↦ elim (settled x y o.key e w) [
      | inl f ↦ ground (arith, has_key-append y k (length t.index) t.index, l.met x y o.key e f)
      | inr s ↦ ground (arith, has_key-append y k (length t.index) t.index, (eq_iff k y).1 s)
    ]
  ]

  push-Spans :
      Spans
        (λ x. index_of x (enter k t))
        (enter k t).low
        (enter k t).stack
        (length (enter k t).index)
        (k ∷ ns)
  unfolding enter
  push-Spans =
      (let size = length-append t.index ((k, length t.index) ∷ []) in
        (
          omega (arith, size, (New-node k t new).index),
          (λ x h a b. elim (stack_cases k t new nodes p x h) [
            | inl n ↦ omega (arith, n.low, (New-node k t new).low)
            | inr (there, o) ↦ absurd (omega (arith, (New-node k t new).index, Old-below x o, a))
          ]),
          subst (λ h. Spans (λ x. index_of x (enter k t)) (enter k t).low (enter k t).stack h ns)
              (sym (New-node k t new).index)
              (Spans-move (λ x. index_of x t) t.low (λ x. index_of x (enter k t)) (enter k t).low
                t.stack (enter k t).stack (length t.index) ns
                (λ v h.
                  let o = Old-node k t new v (stack-index nodes v t p (frames_on v h)) in
                  (o.index, λ _. o.low))
                (λ x h under. elim (stack_cases k t new nodes p x h) [
                  | inl n ↦ absurd (omega (arith, n.index, under))
                  | inr (there, o) ↦ (there, o.index, o.low)
                ])
                l.spans),
        ))

  push-reach_up :
      (x y : String)
      → listed x (k ∷ ns) ≡ true
      → listed y (enter k t).stack ≡ true
      → index_of x (enter k t) ≤ index_of y (enter k t)
      → Reaches edges x y
  unfolding listed
  push-reach_up x y h m a = elim (Bool-cases (str_eq k x)) [
    | inl e ↦
        (let n = subst (New k t) ((eq_iff k x).0 e) (New-node k t new) in
          elim (stack_cases k t new nodes p y m) [
            | inl o ↦ stay (sym n.same ∙ o.same)
            | inr (there, o) ↦ absurd (omega (arith, n.index, Old-below y o, a))
          ])
    | inr e ↦
        (let frame : listed x ns ≡ true = ground (arith, e, h) in
          let q = Old-node k t new x (stack-index nodes x t p (frames_on x frame)) in
          elim (stack_cases k t new nodes p y m) [
            | inl o ↦ subst (Reaches edges x) o.same (above x frame)
            | inr (there, o) ↦ l.reach_up x y frame there (omega (arith, q.index, o.index, a))
          ])
  ]

  push-reach_low :
      (x : String)
      → listed x (enter k t).stack ≡ true
      → (y : String) × (listed y (enter k t).stack ≡ true)
        × (index_of y (enter k t) ≡ (enter k t).low x)
        × Reaches edges x y
  push-reach_low x h = elim (stack_cases k t new nodes p x h) [
    | inl n ↦ (x, h, omega (arith, n.index, n.low), stay refl)
    | inr (there, o) ↦
        (let (y, m, low, r) = l.reach_low x there in
          let q = Old-node k t new y (stack-index nodes y t p m) in
          (y, stack_grows k t y m, omega (arith, o.low, q.index, low), r))
  ]

  pub push-Linked : Linked edges (k ∷ ns) waits2 (enter k t)
  unfolding enter listed
  push-Linked = record {
    falling = (
      (λ y h.
          let o = Old-node k t new y (stack-index nodes y t p h) in
          omega (arith, (New-node k t new).index, Old-below y o)),
      Falling-same (λ x. index_of x t) (λ x. index_of x (enter k t)) t.stack
          (λ x h. (Old-node k t new x (stack-index nodes x t p h)).index) l.falling,
    );
    bounded = λ x h.
        (let size = length-append t.index ((k, length t.index) ∷ []) in
          elim (key_cases k t new x h) [
            | inl n ↦ omega (arith, n.index, size)
            | inr o ↦ omega (arith, Old-below x o, size)
          ]);
    low_self = λ x h. elim (stack_cases k t new nodes p x h) [
      | inl n ↦ omega (arith, n.index, n.low)
      | inr (there, o) ↦ omega (arith, o.index, o.low, l.low_self x there)
    ];
    low_edge = push-low_edge;
    met = push-met;
    waits_edges = still;
    spans = push-Spans;
    reach_up = push-reach_up;
    reach_low = push-reach_low;
    left_low = λ x h f. elim (stack_cases k t new nodes p x h) [
      | inl n ↦ absurd (ground (arith, (eq_iff k x).1 n.same, f))
      | inr (there, o) ↦
          omega (arith, o.index, o.low, l.left_low x there (ground (arith, f, o.other)))
    ];
    downward = l.downward;
    strong = l.strong;
  }
