-- ===== src/Closure/Search/Visits.antt =====
-- What one `visit` of scripts/dependency-closure.py does to the classes and the queue.
use air2lean.Base.{
  String, Option, none, some, Bool, List, [], ◌∷◌, ◌++◌, ◌≡◌, refl, ap, ◌∙◌, str_eq, eq_iff,
  if◌then◌else◌, arith, inl, inr, Bool-cases,
}
use air2lean.Closure.{Instruction, Inputs, Class, is_exported}
use air2lean.Closure.State.{Node, State, Reference, class_at, update, class_of, classify}
use air2lean.Closure.Visit.{enter, refer, add_reference, visit, explained, explain}

module _ (k : String) (f : Node → Node)
    (keeps : (n : Node) → ((f n).name ≡ n.name) × ((f n).class ≡ n.class)) where
  -- A change of a node that keeps names and classes keeps the class of every name.
  class_at-update : (j : String) (ns : List Node) → class_at j (update k f ns) ≡ class_at j ns
  unfolding class_at update
  class_at-update j [] = refl
  class_at-update j (n ∷ ns) =
      let rest = class_at-update j ns in
      let (same_name, same_class) = keeps n in
      elim (Bool-cases (str_eq n.name k)) [
        | inl e ↦ elim (Bool-cases (str_eq n.name j)) [
          | inl g ↦ ground (arith, rest)
          | inr g ↦ ground (arith, rest)
        ]
        | inr e ↦ elim (Bool-cases (str_eq n.name j)) [
          | inl g ↦ ground arith
          | inr g ↦ ground (arith, rest)
        ]
      ]

class_at-append :
    (j : String) (ns : List Node) (n : Node)
    → class_at j (ns ++ n ∷ []) ≡ elim (class_at j ns) [
      | some x ↦ some x
      | none ↦ if str_eq n.name j then some n.class else none
    ]
unfolding class_at
class_at-append j [] n = ground arith
class_at-append j (m ∷ ms) n =
    let rest = class_at-append j ms n in
    elim (Bool-cases (str_eq m.name j)) [ inl g ↦ ground arith | inr g ↦ ground (arith, rest) ]

-- A reference or a reason leaves the classes, the queue and the globals alone.
refer-keeps :
    (r : Reference) (n : Node) → ((refer r n).name ≡ n.name) × ((refer r n).class ≡ n.class)
unfolding refer
refer-keeps r n = (ground arith, ground arith)

explained-keeps : (n : Node) → ((explained n).name ≡ n.name) × ((explained n).class ≡ n.class)
unfolding explained
explained-keeps n = (ground arith, ground arith)

pub explain-class_of : (k j : String) (s : State) → class_of j (explain k s) ≡ class_of j s
unfolding explain class_of
explain-class_of k j s = class_at-update k explained explained-keeps j s.nodes

add_reference-class_of :
    (k : String) (caller : Option String) (edge : String) (i : Instruction) (j : String) (s : State)
    → class_of j (add_reference k caller edge i s) ≡ class_of j s
unfolding add_reference class_of
add_reference-class_of k none edge i j s = refl
add_reference-class_of k (some caller) edge i j s =
    class_at-update k (refer (record { from = caller; edge = edge; instruction = i }))
      (refer-keeps (record { from = caller; edge = edge; instruction = i })) j s.nodes

add_reference-queue :
    (k : String) (caller : Option String) (edge : String) (i : Instruction) (s : State)
    → ((add_reference k caller edge i s).pending ≡ s.pending)
      × ((add_reference k caller edge i s).finished ≡ s.finished)
unfolding add_reference
add_reference-queue k none edge i s = (refl, refl)
add_reference-queue k (some caller) edge i s = (refl, refl)

-- The class that a name has after it is entered.
abbrev pub entered_class : Inputs → String → Bool → String → Option Class → Option Class
entered_class c k panic j (some x) = some x
entered_class c k panic j none = if str_eq k j then some (classify c k panic).0 else none

enter-class_of :
    (c : Inputs) (k : String) (caller : Option String) (panic : Bool) (j : String) (s : State)
    → class_of j (enter c k caller panic s) ≡ entered_class c k panic j (class_of j s)
unfolding enter class_of
enter-class_of c k caller panic j s = ground (
  arith,
  class_at-append j s.nodes (record {
    name = k;
    class = (classify c k panic).0;
    kind = (classify c k panic).1;
    reason = (classify c k panic).2;
    references = [];
  }),
)

-- The class that a name has after a visit: the first visit decides it.
pub visit-class_of :
    (c : Inputs) (caller : Option String) (name edge : String) (i : Instruction) (panic : Bool)
    (j : String) (s : State)
    → class_of j (visit c caller name edge i panic s)
      ≡ entered_class c (c.key name) panic j (class_of j s)
unfolding visit
visit-class_of c caller name edge i panic j s =
    (let k = c.key name in
      add_reference-class_of k caller edge i j
        (elim (class_of k s) [ none ↦ enter c k caller panic s | some _ ↦ s ])
      ∙ turn (class_of k s) refl)
  where
    turn :
        (o : Option Class)
        → class_of (c.key name) s ≡ o
        → class_of j (elim o [ none ↦ enter c (c.key name) caller panic s | some _ ↦ s ])
          ≡ entered_class c (c.key name) panic j (class_of j s)
    turn none e = enter-class_of c (c.key name) caller panic j s
    turn (some x) e = known (class_of j s) refl
      where
        known :
            (p : Option Class)
            → class_of j s ≡ p
            → class_of j s ≡ entered_class c (c.key name) panic j p
        known (some y) g = g
        known none g = ground (arith, eq_iff (c.key name) j, e, g, ap (λ z. class_of z s))

-- The queue after a visit.
pub visit-pending :
    (c : Inputs) (caller : Option String) (name edge : String) (i : Instruction) (panic : Bool)
    (s : State)
    → (visit c caller name edge i panic s).pending ≡ elim (class_of (c.key name) s) [
      | some x ↦ s.pending
      | none ↦
          if is_exported (classify c (c.key name) panic).0
          then s.pending ++ c.key name ∷ []
          else s.pending
    ]
unfolding visit enter
visit-pending c caller name edge i panic s =
    (let k = c.key name in
      (add_reference-queue k caller edge i
        (elim (class_of k s) [ none ↦ enter c k caller panic s | some _ ↦ s ])).0
      ∙ turn (class_of k s))
  where
    turn :
        (o : Option Class)
        → (elim o as (λ _. State) [
          | none ↦ enter c (c.key name) caller panic s
          | some _ ↦ s
        ]).pending
          ≡ elim o [
            | some x ↦ s.pending
            | none ↦
                if is_exported (classify c (c.key name) panic).0
                then s.pending ++ c.key name ∷ []
                else s.pending
          ]
    turn none = refl
    turn (some x) = refl

pub visit-finished :
    (c : Inputs) (caller : Option String) (name edge : String) (i : Instruction) (panic : Bool)
    (s : State)
    → (visit c caller name edge i panic s).finished ≡ s.finished
unfolding visit enter
visit-finished c caller name edge i panic s =
    (let k = c.key name in
      (add_reference-queue k caller edge i
        (elim (class_of k s) [ none ↦ enter c k caller panic s | some _ ↦ s ])).1
      ∙ turn (class_of k s))
  where
    turn :
        (o : Option Class)
        → (elim o as (λ _. State) [
          | none ↦ enter c (c.key name) caller panic s
          | some _ ↦ s
        ]).finished
          ≡ s.finished
    turn none = refl
    turn (some x) = refl
