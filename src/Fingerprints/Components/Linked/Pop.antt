-- ===== src/Fingerprints/Components/Linked/Pop.antt =====
-- The end of a node in `components` of scripts/semantic-fingerprints.py: its component leads to earlier
-- ones only, and is strongly connected.
use air2lean.Base.{
  ℕ, zero, suc, ◌≤◌, ◌<◌, ◌≡◌, refl, sym, ap, ◌∙◌, String, Bool, true, false, List, [], ◌∷◌, ◌++◌,
  ◌⊎◌, str_eq, eq_iff, ltb, if◌then◌else◌, length, length-append, arith, Bool-cases, inl, inr,
}
use air2lean.Base.Sort.{text_le, sorted}
use air2lean.Json.{listed}
use air2lean.Diff.Config.{has_key}
use air2lean.Closure.Names.Prefixes.{listed-sorted}
use air2lean.Fingerprints.Components.{Tarjan, index_of, popped, after_pop}
use air2lean.Fingerprints.Components.Stack.{count}
use air2lean.Fingerprints.Components.Step.{Placed, placed, stack-index}
use air2lean.Fingerprints.Components.Reach.{
  Reaches, stay, Reaches-trans, rank, rank-append, placed-rank,
}
use air2lean.Fingerprints.Components.Linked.{
  after_pop-low, popped-high, listed-popped, Spans-below, Linked,
}

pub not_counted : (x : String) (xs : List String) → listed x xs ≡ false → count x xs ≡ 0
unfolding listed count
not_counted x [] h = refl
not_counted x (y ∷ xs) h = ground (arith, not_counted x xs)

module _ (edges : String → List String) (nodes : List String) (v : String) (ns : List String)
    (waits : String → String → Bool) (t : Tarjan) (l : Linked edges (v ∷ ns) waits t)
    (p : Placed nodes t) (v_on : listed v t.stack ≡ true)
    (done : (x y : String) → waits x y ≡ true → listed x ns ≡ true) where
  pub frame_below : (x : String) → listed x ns ≡ true → index_of x t < index_of v t
  frame_below x h = Spans-below (λ z. index_of z t) t.low t.stack (index_of v t) ns x l.spans.2 h

  -- From the node on, only it is a frame's.
  pub no_frame : (x : String) → index_of v t ≤ index_of x t → listed x ns ≡ false
  no_frame x a = elim (Bool-cases (listed x ns)) [
    | inl h ↦ absurd (omega (arith, a, frame_below x h))
    | inr e ↦ e
  ]

  no_wait : (x y : String) → index_of v t ≤ index_of x t → waits x y ≡ false
  no_wait x y a = elim (Bool-cases (waits x y)) [
    | inl h ↦ absurd (ground (arith, no_frame x a, done x y h))
    | inr e ↦ e
  ]

  pub on_index : (x : String) → listed x t.stack ≡ true → index_of x t < length t.index
  on_index x h = l.bounded x (stack-index nodes x t p h)

  popped_on : (x : String) → listed x (popped v t.stack) ≡ true → listed x t.stack ≡ true
  popped_on x h = ground (arith, listed-popped v x t.stack, h)

  -- The members, where the node is the first of its component.
  module _ (first : t.low v ≡ index_of v t) where
    high : (x : String) → listed x (popped v t.stack) ≡ true → index_of v t ≤ index_of x t
    high x h = popped-high (λ z. index_of z t) v x t.stack l.falling v_on h

    left :
        (x : String)
        → str_eq v x ≡ false
        → listed x t.stack ≡ true
        → index_of v t ≤ index_of x t
        → t.low x < index_of x t
    unfolding listed
    left x e h a = l.left_low x h (ground (arith, e, no_frame x a))

    -- Each node from there on reaches lower ones, down to it.
    comes_down :
        (n : ℕ) (x : String)
        → index_of x t ≤ n
        → listed x t.stack ≡ true
        → index_of v t ≤ index_of x t
        → Reaches edges x v
    comes_down zero x b h a = elim (Bool-cases (str_eq v x)) [
      | inl e ↦ stay (sym ((eq_iff v x).0 e))
      | inr e ↦ absurd (omega (arith, b, left x e h a))
    ]
    comes_down (suc n) x b h a = elim (Bool-cases (str_eq v x)) [
      | inl e ↦ stay (sym ((eq_iff v x).0 e))
      | inr e ↦
          (let (y, m, low, r) = l.reach_low x h in
            let own = l.spans.1 x h a (on_index x h) in
            Reaches-trans edges r (
              comes_down n y (omega (arith, b, low, left x e h a)) m
                (omega (arith, own, low, first))))
    ]

    member_down : (x : String) → listed x (popped v t.stack) ≡ true → Reaches edges x v
    member_down x h = comes_down (index_of x t) x (omega arith) (popped_on x h) (high x h)

    member_up : (x : String) → listed x (popped v t.stack) ≡ true → Reaches edges v x
    unfolding listed
    member_up x h = l.reach_up v x (ground (arith, (eq_iff v v).1 refl)) (popped_on x h) (high x h)

    abbrev pub order2 : List (List String)
    order2 = t.order ++ sorted text_le (popped v t.stack) ∷ []

    rank2 :
        (x : String)
        → rank x order2 ≡ (
            if ltb (rank x t.order) (length t.order)
            then rank x t.order
            else if listed x (popped v t.stack)
            then length t.order
            else suc (length t.order))
    rank2 x =
        rank-append x (sorted text_le (popped v t.stack)) t.order
        ∙ ap
            (λ b.
              if ltb (rank x t.order) (length t.order)
              then rank x t.order
              else if b
              then length t.order
              else suc (length t.order))
            (listed-sorted x (popped v t.stack))

    size2 : length order2 ≡ suc (length t.order)
    size2 = length-append t.order (sorted text_le (popped v t.stack) ∷ []) ∙ omega arith

    -- An edge from a member leads to a member or to an earlier component.
    member_edge :
        (x y : String)
        → listed x (popped v t.stack) ≡ true
        → listed y (edges x) ≡ true
        → (rank y t.order < length t.order) ⊎ (listed y (popped v t.stack) ≡ true)
    member_edge x y h e =
        (let x_on = popped_on x h in
          let w = no_wait x y (high x h) in
          let key = l.met x y (stack-index nodes x t p x_on) e w in
          elim (Bool-cases (listed y t.stack)) [
            | inl m ↦
                (let own = l.spans.1 x x_on (high x h) (on_index x x_on) in
                  let edge = l.low_edge x y x_on e w m in
                  elim (Bool-cases (listed y (after_pop v t.stack))) [
                    | inl below ↦ absurd (
                        omega (
                          arith,
                          own,
                          edge,
                          first,
                          after_pop-low (λ z. index_of z t) v y t.stack l.falling v_on below,
                        ))
                    | inr gone ↦ inr (ground (arith, listed-popped v y t.stack, m, gone))
                  ])
            | inr gone ↦ inl (placed-rank y t.order (elsewhere y key gone))
          ])
      where
        elsewhere :
            (y : String)
            → has_key y t.index ≡ true
            → listed y t.stack ≡ false
            → 1 ≤ placed y t.order
        elsewhere y key gone = ground (arith, p.once y, key, not_counted y t.stack gone)

    pub pop-downward :
        (x y : String)
        → rank x order2 < length order2
        → listed y (edges x) ≡ true
        → rank y order2 ≤ rank x order2
    pop-downward x y h e = elim (Bool-cases (ltb (rank x t.order) (length t.order))) [
      | inl old ↦ ground (arith, rank2 x, rank2 y, l.downward x y (ground (arith, old)) e, old)
      | inr new ↦
          (let member : listed x (popped v t.stack) ≡ true =
              ground (arith, h, rank2 x, size2, new) in
            elim (member_edge x y member e) [
              | inl earlier ↦ ground (arith, rank2 x, rank2 y, new, member, earlier)
              | inr there ↦ ground (arith, rank2 x, rank2 y, new, member, there)
            ])
    ]

    pub pop-strong :
        (x y : String)
        → rank x order2 < length order2
        → rank x order2 ≡ rank y order2
        → Reaches edges x y
    pop-strong x y h same = elim (Bool-cases (ltb (rank x t.order) (length t.order))) [
      | inl old ↦ l.strong x y (ground (arith, old)) (ground (arith, rank2 x, rank2 y, same, old))
      | inr new ↦
          (let member : listed x (popped v t.stack) ≡ true =
              ground (arith, h, rank2 x, size2, new) in
            let other : listed y (popped v t.stack) ≡ true =
              ground (arith, rank2 x, rank2 y, new, member, same) in
            Reaches-trans edges (member_down x member) (member_up y other))
    ]
