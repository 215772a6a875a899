-- ===== src/Closure/State.antt =====
-- The state of `Closure` in scripts/dependency-closure.py, with `chain` and `classify`.
use Prim.Native.String.{◌++◌ as joined}
use air2lean.Base.{
  ℕ, zero, suc, String, Option, none, some, Bool, true, false, not, List, [], ◌∷◌, ◌++◌, str_eq,
  if◌then◌else◌, length,
}
use air2lean.Json.{listed}
use air2lean.Closure.{
  Instruction, Model, Inputs, Class, exported, modelled, missing, unresolvable, value_of,
}
use air2lean.Closure.Names.{instance_base}

pub record Reference : Type 0 where
  pub from : String
  pub edge : String
  pub instruction : Instruction

pub record Node : Type 0 where
  pub name : String
  pub class : Class
  pub kind : String
  pub reason : Option String
  pub references : List Reference

pub record Boundary : Type 0 where
  pub function : String
  pub instruction : Instruction
  pub class : Class
  pub kind : String
  pub target : Option String
  pub reason : Option String
  pub chain : List String

pub record GlobalRecord : Type 0 where
  pub name : String
  pub class : Class
  pub kind : String
  pub reason : Option String
  pub referenced_by : List String

pub record State : Type 0 where
  pub nodes : List Node
  -- the caller that first visited a name, the newest first
  pub parent : List (String × String)
  pub boundaries : List Boundary
  pub globals : List GlobalRecord
  pub finished : List String
  pub pending : List String

pub data Failure : Type 0 where
  key_error : Failure
  out_of_fuel : Failure

-- `self.nodes[k]['class']`
unfoldable pub class_at : String → List Node → Option Class
class_at k [] = none
class_at k (n ∷ ns) = if str_eq n.name k then some n.class else class_at k ns

-- Change the node of the name.
unfoldable pub update : String → (Node → Node) → List Node → List Node
update k f [] = []
update k f (n ∷ ns) = let rest = update k f ns in if str_eq n.name k then f n ∷ ns else n ∷ rest

-- The class of a visited name.
unfoldable pub class_of : String → State → Option Class
unfolding class_at
class_of k s = class_at k s.nodes

-- `chain`, from the root on: at most `fuel` steps up.
unfoldable pub chain : ℕ → List (String × String) → String → List String
unfolding value_of
chain zero parent name = name ∷ []
chain (suc fuel) parent name = elim (value_of name parent) [
  | none ↦ name ∷ []
  | some caller ↦ chain fuel parent caller ++ name ∷ []
]

unfoldable pub chain_to : State → String → List String
unfolding chain
chain_to s name = chain (length s.parent) s.parent name

unfoldable pub in_functions : Inputs → String → Bool
unfolding value_of
in_functions c name = elim (value_of (c.key name) c.functions) [ none ↦ false | some f ↦ true ]

-- The class, the kind and the reason of a name.
abbrev pub Verdict : Type 0
Verdict = Class × String × Option String

listing : List String → String
listing [] = ""
listing (v ∷ []) = v
listing (v ∷ vs) = joined v (joined ", " (listing vs))

unfoldable pub of_model : Inputs → String → Model → Verdict
unfolding listed in_functions listing instance_base
of_model c name model =
    if model.is_rejected
    then (unresolvable, "rejected_std_model", model.reason)
    else if not (listed c.version model.versions)
    then (
      unresolvable,
      "std_model_not_qualified",
      some (
          joined "std model " (
            joined (instance_base name)
              (joined " is qualified only for Zig " (listing model.versions)))),
    )
    else if in_functions c name
    then (
      unresolvable,
      "std_model_air_conflict",
      some
          "AIR exported for a built-in std model name; the translator rejects it (narrow the filter)",
    )
    else (modelled, "std_model", none)

unfoldable pub unmodelled : Inputs → String → Verdict
unfolding listed in_functions
unmodelled c name =
    if listed name c.registry
    then (modelled, "registry_binding", none)
    else if in_functions c name
    then (exported, "air", none)
    else (missing, "no_air", none)

unfoldable pub classify : Inputs → String → Bool → Verdict
unfolding value_of of_model unmodelled instance_base
classify c name true = (modelled, "panic_handler", none)
classify c name false = elim (value_of (instance_base name) c.models) [
  | none ↦ unmodelled c name
  | some model ↦ of_model c name model
]

abbrev pub start : State
start = record {
  nodes = [];
  parent = [];
  boundaries = [];
  globals = [];
  finished = [];
  pending = [];
}
