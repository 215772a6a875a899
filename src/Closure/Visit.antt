-- ===== src/Closure/Visit.antt =====
-- `visit` and `boundary` of scripts/dependency-closure.py, and the reason that `run` gives a root.
use air2lean.Base.{
  String, Option, none, some, Bool, ◌&&◌, not, List, [], ◌∷◌, ◌++◌, str_eq, if◌then◌else◌, ltb,
  length, any,
}
use air2lean.Closure.{instruction_eq, Instruction, Inputs, Class, is_exported}
use air2lean.Closure.State.{Reference, Node, State, update, class_of, chain_to, classify}

with_parent : String → Option String → List (String × String) → List (String × String)
with_parent k none parent = parent
with_parent k (some caller) parent = (k, caller) ∷ parent

-- The node of a name that is visited for the first time.
unfoldable pub enter : Inputs → String → Option String → Bool → State → State
unfolding classify with_parent
enter c k caller panic s =
    let (class, kind, reason) = classify c k panic in
    record s {
      nodes =
          s.nodes
          ++ (record { name = k; class = class; kind = kind; reason = reason; references = [] }
              ∷ []);
      parent = with_parent k caller s.parent;
      pending = if is_exported class then s.pending ++ k ∷ [] else s.pending;
    }

reference_eq : Reference → Reference → Bool
unfolding instruction_eq
reference_eq r q =
    str_eq r.from q.from && str_eq r.edge q.edge && instruction_eq r.instruction q.instruction

-- At most 16 references are kept, each once.
unfoldable pub refer : Reference → Node → Node
unfolding reference_eq
refer r n =
    if ltb (length n.references) 16 && not (any (reference_eq r) n.references)
    then record n { references = n.references ++ r ∷ [] }
    else n

unfoldable pub add_reference : String → Option String → String → Instruction → State → State
unfolding update
add_reference k none edge instruction s = s
add_reference k (some caller) edge instruction s = record s {
  nodes =
      update k (refer (record { from = caller; edge = edge; instruction = instruction })) s.nodes;
}

unfoldable pub visit : Inputs → Option String → String → String → Instruction → Bool → State → State
unfolding class_of enter add_reference
visit c caller name edge instruction panic s =
    let k = c.key name in
    add_reference k caller edge instruction
      (elim (class_of k s) [ none ↦ enter c k caller panic s | some _ ↦ s ])

unfoldable pub boundary :
    String → Instruction → Class → String → Option String → Option String → State → State
unfolding chain_to
boundary function instruction class kind target reason s = record s {
  boundaries =
      s.boundaries
      ++ (record {
        function = function;
        instruction = instruction;
        class = class;
        kind = kind;
        target = target;
        reason = reason;
        chain = chain_to s function;
      }
          ∷ []);
}

-- `node['reason'] = node['reason'] or ...` of a node that is not exported
unfoldable pub explained : Node → Node
explained n = if is_exported n.class then n else elim n.reason [
  | none ↦ record n { reason = some "root function absent from the supplied AIR" }
  | some r ↦
      if str_eq r ""
      then record n { reason = some "root function absent from the supplied AIR" }
      else n
]

unfoldable pub explain : String → State → State
unfolding update explained
explain k s = record s { nodes = update k explained s.nodes }
