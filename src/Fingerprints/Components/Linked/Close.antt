-- ===== src/Fingerprints/Components/Linked/Close.antt =====
-- The end of a frame in `components` of scripts/semantic-fingerprints.py, with a component or without.
use air2lean.Base.{
  ◌≤◌, ◌<◌, ◌≡◌, refl, ap, String, Bool, true, false, List, [], ◌∷◌, str_eq, eq_iff, ltb, if-both,
  ◌==◌, length, arith, Bool-cases, inl, inr, subst,
}
use air2lean.Json.{listed}
use air2lean.Fingerprints.Components.{Tarjan, index_of, popped, after_pop, close}
use air2lean.Fingerprints.Components.Stack.{listed-after_pop}
use air2lean.Fingerprints.Components.Step.{Placed}
use air2lean.Fingerprints.Components.Linked.{
  Falling-after_pop, after_pop-low, popped-high, listed-popped, Spans, Spans-move, Linked,
}
use air2lean.Fingerprints.Components.Linked.Pop.{pop-downward, pop-strong, on_index, order2}

-- The next frame's node has taken the low value of the last one.
abbrev pub Inherited : String → List String → Tarjan → Type 0
Inherited v [] t = Unit
Inherited v (q ∷ ns) t = t.low q ≤ t.low v

module _ (edges : String → List String) (nodes : List String) (v : String) (ns : List String)
    (waits : String → String → Bool) (t : Tarjan) (l : Linked edges (v ∷ ns) waits t)
    (p : Placed nodes t) (v_on : listed v t.stack ≡ true)
    (done : (x y : String) → waits x y ≡ true → listed x ns ≡ true) where
  in_frames : (x : String) → listed x ns ≡ true → listed x (v ∷ ns) ≡ true
  unfolding listed
  in_frames x h = ground (arith, h)

  no_frames : (x : String) → listed x ns ≡ false → str_eq v x ≡ false → listed x (v ∷ ns) ≡ false
  unfolding listed
  no_frames x f e = ground (arith, f, e)

  not_v : (x : String) → index_of x t < index_of v t → str_eq v x ≡ false
  not_v x b = elim (Bool-cases (str_eq v x)) [
    | inl e ↦
        (let same : index_of v t ≡ index_of x t = ap (λ z. index_of z t) ((eq_iff v x).0 e) in
          absurd (omega (arith, b, same)))
    | inr e ↦ e
  ]

  keep-Linked : (t.low v == index_of v t) ≡ false → Inherited v ns t → Linked edges ns waits t
  keep-Linked e low = record {
    falling = l.falling;
    bounded = l.bounded;
    low_self = l.low_self;
    low_edge = l.low_edge;
    met = l.met;
    waits_edges = l.waits_edges;
    spans = joined ns low l.spans.0 l.spans.1 l.spans.2;
    reach_up = λ x y h m a. l.reach_up x y (in_frames x h) m a;
    reach_low = l.reach_low;
    left_low = λ x h f. elim (Bool-cases (str_eq v x)) [
      | inl here ↦
          subst (λ z. t.low z < index_of z t) ((eq_iff v x).0 here)
            (ground (arith, e, l.low_self v v_on))
      | inr other ↦ l.left_low x h (no_frames x f other)
    ];
    downward = l.downward;
    strong = l.strong;
  }
    where
      joined :
          (ms : List String)
          → Inherited v ms t
          → index_of v t < length t.index
          → ((x : String)
              → listed x t.stack ≡ true
              → index_of v t ≤ index_of x t
              → index_of x t < length t.index
              → t.low v ≤ t.low x)
          → Spans (λ x. index_of x t) t.low t.stack (index_of v t) ms
          → Spans (λ x. index_of x t) t.low t.stack (length t.index) ms
      joined [] low b own s = tt
      joined (q ∷ ms) low b own (below, own_q, s) = (
        omega (arith, below, b),
        (λ x h a under. elim (Bool-cases (ltb (index_of x t) (index_of v t))) [
          | inl under_v ↦ own_q x h a (ground (arith, under_v))
          | inr over ↦
              (let above = own x h (ground (arith, over)) under in omega (arith, low, above))
        ]),
        s,
      )

  -- The component is complete.
  module _ (first : t.low v ≡ index_of v t) where
    kept_low : (x : String) → listed x (after_pop v t.stack) ≡ true → index_of x t < index_of v t
    kept_low x h = after_pop-low (λ z. index_of z t) v x t.stack l.falling v_on h

    kept_on : (x : String) → listed x (after_pop v t.stack) ≡ true → listed x t.stack ≡ true
    kept_on x h = listed-after_pop v x t.stack h

    low_kept :
        (x : String)
        → listed x t.stack ≡ true
        → index_of x t < index_of v t
        → listed x (after_pop v t.stack) ≡ true
    low_kept x h b = elim (Bool-cases (listed x (popped v t.stack))) [
      | inl m ↦
          absurd (omega (arith, b, popped-high (λ z. index_of z t) v x t.stack l.falling v_on m))
      | inr e ↦ ground (arith, listed-popped v x t.stack, h, e)
    ]

    widened :
        (ms : List String)
        → Spans (λ x. index_of x t) t.low (after_pop v t.stack) (index_of v t) ms
        → Spans (λ x. index_of x t) t.low (after_pop v t.stack) (length t.index) ms
    widened [] s = tt
    widened (q ∷ ms) (below, own, s) = (
      omega (arith, below, on_index edges nodes v ns waits t l p v_on done v v_on),
      (λ x h a b. own x h a (kept_low x h)),
      s,
    )

    pop-Linked : Linked edges ns waits (record t {
      stack = after_pop v t.stack;
      order = order2 edges nodes v ns waits t l p v_on done first;
    })
    pop-Linked = record {
      falling = Falling-after_pop (λ z. index_of z t) v t.stack l.falling;
      bounded = l.bounded;
      low_self = λ x h. l.low_self x (kept_on x h);
      low_edge = λ x y h e w m. l.low_edge x y (kept_on x h) e w (kept_on y m);
      met = l.met;
      waits_edges = l.waits_edges;
      spans = widened ns (
          Spans-move (λ x. index_of x t) t.low (λ x. index_of x t) t.low t.stack
            (after_pop v t.stack) (index_of v t) ns (λ z h. (refl, λ b. refl))
            (λ x h b. (kept_on x h, refl, refl)) l.spans.2);
      reach_up = λ x y h m a. l.reach_up x y (in_frames x h) (kept_on y m) a;
      reach_low = λ x h.
          (let (y, m, low, r) = l.reach_low x (kept_on x h) in
            (
              y,
              low_kept y m (omega (arith, low, l.low_self x (kept_on x h), kept_low x h)),
              low,
              r,
            ));
      left_low = λ x h f. (l.left_low x (kept_on x h) (no_frames x f (not_v x (kept_low x h))));
      downward = pop-downward edges nodes v ns waits t l p v_on done first;
      strong = pop-strong edges nodes v ns waits t l p v_on done first;
    }

  pub close-Linked : Inherited v ns t → Linked edges ns waits (close v t)
  unfolding close
  close-Linked low =
      if-both (Linked edges ns waits) (t.low v == index_of v t)
        (λ e. pop-Linked (ground (arith, e))) (λ e. keep-Linked e low)
