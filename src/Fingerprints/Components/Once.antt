-- ===== src/Fingerprints/Components/Once.antt =====
-- `components` of scripts/semantic-fingerprints.py comes to an end, with each node in one component.
use air2lean.Base.{
  ℕ, zero, suc, Option, some, ◌+◌, ◌≤◌, ◌≡◌, refl, sym, ap, String, true, false, List, [], ◌∷◌,
  str_eq, eq_iff, as_count, length, length-append, arith, All, Bool-cases, inl, inr, subst,
}
use air2lean.Json.{listed}
use air2lean.Diff.Config.{has_key}
use air2lean.Fingerprints.Components.{Frame, Tarjan, enter, step}
use air2lean.Fingerprints.Components.Stack.{count, none_left, keep, Bottom}
use air2lean.Fingerprints.Components.Step.{
  placed, Known, Placed, Searching, has_key-append, get_or-append, enter-Placed,
}
use air2lean.Fingerprints.Components.{turns, loop, search, fresh, components}
use air2lean.Fingerprints.Components.Turn.{entered_high, entered_low}
use air2lean.Fingerprints.Components.Leave.{step-Searching}
use air2lean.Fingerprints.Components.Measure.{
  unseen, waiting, unseen_less, step-unseen, step-fewer, step-has_key,
}

module _ (edges : String → List String) (nodes : List String) where
  -- The search is over: the stack is empty, and no index is lost.
  record Over (t u : Tarjan) : Type 0 where
    pub is_placed : Placed nodes u
    pub empty : u.stack ≡ []
    pub kept : (x : String) → has_key x t.index ≡ true → has_key x u.index ≡ true
    pub fewer : unseen edges nodes u.index ≤ unseen edges nodes t.index

  abbrev Found : Tarjan → Option Tarjan → Type 0
  Found t o = (u : Tarjan) × (o ≡ some u) × Over t u

  module _ (inside : (n : String) → listed n nodes ≡ true → Known nodes (edges n)) where
    loop-Found :
        (root : String) (base fuel : ℕ) (work : List Frame) (t : Tarjan)
        → Searching nodes root base work t
        → unseen edges nodes t.index + waiting work ≤ fuel
        → Found t (loop edges fuel work t)
    unfolding loop waiting
    loop-Found root base fuel [] t s h = (
      t,
      refl,
      record { is_placed = s.is_placed; empty = s.based; kept = λ x k. k; fewer = omega arith },
    )
    loop-Found root base zero (f ∷ work) t s h = absurd (omega (arith, h))
    loop-Found root base (suc fuel) (f ∷ work) t s h =
        (let less = step-unseen edges nodes f work t s.known.0 in
          let (u, e, o) =
            loop-Found root base fuel (step edges f work t).0 (step edges f work t).1
              (step-Searching nodes root base edges inside f work t s) (omega (arith, h, less)) in
          (
            u,
            e,
            record {
              is_placed = o.is_placed;
              empty = o.empty;
              kept = λ x k. o.kept x (step-has_key edges nodes x f work t k);
              fewer = omega (arith, o.fewer, less, step-fewer edges nodes f work t);
            },
          ))

    -- A new search.
    pub root-Searching :
        (root : String) (t : Tarjan)
        → listed root nodes ≡ true
        → has_key root t.index ≡ false
        → Placed nodes t
        → t.stack ≡ []
        → Searching nodes root (length t.index) ((root, edges root) ∷ []) (enter root t)
    unfolding enter listed
    root-Searching root t given new p none_there =
        (let nothing : (x : String) → listed x t.stack ≡ false = λ x. ap (listed x) none_there in
          record {
            is_placed = enter-Placed nodes root t given new p;
            known = (inside root given, tt);
            on_stack = keep none_left;
            based = (refl, subst (λ l. Bottom root (root ∷ l)) (sym none_there) refl);
            stack_high = λ x h.
                entered_high nodes root (length t.index) root x t p new (omega arith)
                  (λ l. absurd (ground (arith, l, nothing x))) h;
            low_high = λ x h.
                entered_low nodes root (length t.index) root x t (omega arith)
                  (λ l. absurd (ground (arith, l, nothing x))) h;
            root_in = ground (
              arith,
              has_key-append root root (length t.index) t.index,
              (eq_iff root root).1 refl,
            );
            root_low = ground (arith, (eq_iff root root).1 refl);
            root_index = ground (
              arith,
              get_or-append root root (length t.index) t.index,
              (eq_iff root root).1 refl,
              new,
            );
            size = omega (arith, length-append t.index ((root, length t.index) ∷ []));
          })

    root-unseen :
        (root : String) (t : Tarjan)
        → listed root nodes ≡ true
        → has_key root t.index ≡ false
        → unseen edges nodes (enter root t).index + waiting ((root, edges root) ∷ [])
          ≤ unseen edges nodes t.index
    unfolding enter waiting
    root-unseen root t given new =
        ground (arith, unseen_less edges root (length t.index) t.index nodes new given)

    root-has_key :
        (root x : String) (t : Tarjan)
        → has_key x t.index ≡ true
        → has_key x (enter root t).index ≡ true
    unfolding enter
    root-has_key root x t h = ground (arith, h, has_key-append x root (length t.index) t.index)

    search-Found :
        (fuel : ℕ) (roots : List String) (t : Tarjan)
        → Known nodes roots
        → Placed nodes t
        → t.stack ≡ []
        → unseen edges nodes t.index ≤ fuel
        → (u : Tarjan) × (search edges fuel roots t ≡ some u)
          × Over t u
          × All (λ r. has_key r u.index ≡ true) roots
    unfolding search
    search-Found fuel [] t k p e h =
        (t, refl, record { is_placed = p; empty = e; kept = λ x h. h; fewer = omega arith }, tt)
    search-Found fuel (root ∷ roots) t (given, k) p e h = elim (Bool-cases (has_key root t.index)) [
      | inl old ↦
          (let (u, same, o, all) = search-Found fuel roots t k p e h in
            (u, rw (old, same), o, (o.kept root old, all)))
      | inr new ↦
          (let s = root-Searching root t given new p e in
            let (v, ends, first) =
              loop-Found root (length t.index) fuel ((root, edges root) ∷ []) (enter root t) s
                (omega (arith, root-unseen root t given new, h)) in
            let (u, same, o, all) =
              search-Found fuel roots v k first.is_placed first.empty
                (omega (arith, h, first.fewer, root-unseen root t given new)) in
            (
              u,
              rw (new, ends, same),
              record {
                is_placed = o.is_placed;
                empty = o.empty;
                kept = λ x h. o.kept x (first.kept x (root-has_key root x t h));
                fewer = omega (arith, o.fewer, first.fewer, root-unseen root t given new);
              },
              (o.kept root (first.kept root s.root_in), all),
            ))
    ]

pub listed_all :
    (ns : List String) (P : String → Type 0) → All P ns → (x : String) → listed x ns ≡ true → P x
unfolding listed
listed_all [] P a x h = absurd cc
listed_all (n ∷ ns) P (p, a) x h = elim (Bool-cases (str_eq n x)) [
  | inl e ↦ subst P ((eq_iff n x).0 e) p
  | inr e ↦ listed_all ns P a x (ground (arith, e, h))
]

pub All-listed :
    (nodes ns : List String)
    → ((x : String) → listed x ns ≡ true → listed x nodes ≡ true)
    → Known nodes ns
unfolding listed
All-listed nodes [] h = tt
All-listed nodes (n ∷ ns) h = (
  h n (ground (arith, (eq_iff n n).1 refl)),
  All-listed nodes ns (λ x l. h x (ground (arith, l))),
)

nodes-Known : (nodes : List String) → Known nodes nodes
nodes-Known nodes = All-listed nodes nodes (λ x h. h)

components-some :
    (edges : String → List String) (nodes : List String) (u : Tarjan)
    → search edges (turns edges nodes) nodes fresh ≡ some u
    → components edges nodes ≡ some u.order
unfolding components
components-some edges nodes u e = rw (components, e)

-- Where every edge leads to a node that is given, the search comes to an end, and every node that is
-- given is in exactly one of the components, once; no other is in one.
pub components_once :
    (edges : String → List String) (nodes : List String)
    → ((n : String) → listed n nodes ≡ true → Known nodes (edges n))
    → (order : List (List String)) × (components edges nodes ≡ some order)
      × ((x : String) → placed x order ≡ as_count (listed x nodes))
unfolding turns unseen has_key count placed
components_once edges nodes inside =
    (let (u, same, o, all) =
        search-Found edges nodes inside (turns edges nodes) nodes fresh (nodes-Known nodes)
          (record { once = λ x. refl; given = λ x h. absurd cc }) refl (omega arith) in
      (
        u.order,
        components-some edges nodes u same,
        λ x. elim (Bool-cases (listed x nodes)) [
          | inl e ↦ ground (
            arith,
            e,
            listed_all nodes (λ r. has_key r u.index ≡ true) all x e,
            o.is_placed.once x,
            ap (count x) o.empty,
          )
          | inr e ↦ ground (arith, e, o.is_placed.given x, o.is_placed.once x, ap (count x) o.empty)
        ],
      ))
