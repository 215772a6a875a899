-- ===== src/Closure/Report.antt =====
-- The end of `Closure.run` in scripts/dependency-closure.py, which resolves the indirect calls, and
-- `report`, without the parts that only print (the command that exports again) or sort a list.
pub mod Resolves
pub mod Closed
pub mod Returns
use air2lean.Base.{
  ℕ, String, Option, none, some, Bool, true, false, ◌&&◌, ◌||◌, not, List, [], ◌∷◌, ◌++◌, map,
  str_eq, ◌==◌, if◌then◌else◌, length, is_empty, as_count, sum_of, any,
}
use air2lean.Base.Result.{Result, ok, err, ◌>>=◌, traverse}
use air2lean.Json.{listed}
use air2lean.Closure.{
  Instruction, Site, Global, Scanned, Inputs, Class, exported, modelled, missing, unresolvable,
  class_eq, value_of,
}
use air2lean.Closure.Names.{
  filter_prefix, sorted_set, reduced_prefixes, collisions, covered, keep_if,
}
use air2lean.Closure.State.{
  Node, State, Failure, key_error, Boundary, class_of, chain_to, start, GlobalRecord,
}
use air2lean.Closure.Visit.{boundary}
use air2lean.Closure.Search.{function_of, visit_roots, search}

pub data SiteClass : Type 0 where
  site_unresolvable : SiteClass
  qualified : SiteClass

-- An indirect call, with the functions it may reach and their classes.
pub record SiteRecord : Type 0 where
  pub function : String
  pub instruction : Instruction
  pub fn_type : Option String
  pub targets : List (String × Class)
  pub class : SiteClass

-- The functions of the type whose address some global holds.
unfoldable pub globals_of_type : Inputs → String → List Global → List String
globals_of_type c ty [] = []
globals_of_type c ty (g ∷ gs) =
    let rest = globals_of_type c ty gs in
    elim g.fn_ref [ none ↦ rest | some (t, name) ↦ if str_eq t ty then c.key name ∷ rest else rest ]

unfoldable pub address_taken : Inputs → String → List String → Result Failure (List String)
unfolding globals_of_type function_of
address_taken c ty [] = ok []
address_taken c ty (name ∷ queue) = elim (function_of c name) [
  | none ↦ err key_error
  | some info ↦ do rest ← address_taken c ty queue; ok (globals_of_type c ty info.globals ++ rest)
]

-- `sorted(refs.get(site['fn_type'], ())) if site['fn_type'] else []`
unfoldable pub targets_of : Inputs → List String → Option String → Result Failure (List String)
unfolding address_taken sorted_set
targets_of c queue none = ok []
targets_of c queue (some ty) =
    if str_eq ty "" then ok [] else (do names ← address_taken c ty queue; ok (sorted_set names))

-- `self.nodes[t]['class']`
unfoldable pub target_class : State → String → Result Failure (String × Class)
unfolding class_of
target_class s t = elim (class_of t s) [ none ↦ err key_error | some class ↦ ok (t, class) ]

-- The boundary of a site without a target.
unfoldable pub site_boundary : String → Site → List (String × Class) → State → State
unfolding boundary
site_boundary name site targets s = elim site.fn_type [
  | none ↦
      boundary name site.instruction unresolvable "non_function_pointer_callee" none
        (some "indirect callee is not a function pointer") s
  | some ty ↦
      if is_empty targets
      then boundary name site.instruction unresolvable "runtime_function_pointer" (some ty)
          (some
            "no address-taken function of this type in the closure; the target is a runtime value")
          s
      else s
]

site_class : Option String → List (String × Class) → SiteClass
site_class none targets = site_unresolvable
site_class (some ty) [] = site_unresolvable
site_class (some ty) (t ∷ targets) = qualified

-- The state and the list `indirect`.
abbrev pub Resolved : Type 0
Resolved = State × List SiteRecord

unfoldable pub resolve_site :
    Inputs → List String → String → Site → Resolved → Result Failure Resolved
unfolding targets_of target_class site_boundary site_class traverse
resolve_site c queue name site (s, records) = do
  names ← targets_of c queue site.fn_type
  targets ← traverse (target_class s) names
  ok (
    site_boundary name site targets s,
    records
        ++ (record {
          function = name;
          instruction = site.instruction;
          fn_type = site.fn_type;
          targets = targets;
          class = site_class site.fn_type targets;
        }
            ∷ []),
  )

unfoldable pub resolve_sites :
    Inputs → List String → String → List Site → Resolved → Result Failure Resolved
unfolding resolve_site
resolve_sites c queue name [] r = ok r
resolve_sites c queue name (site ∷ sites) r = do
  next ← resolve_site c queue name site r
  resolve_sites c queue name sites next

unfoldable pub resolve_all : Inputs → List String → List String → Resolved → Result Failure Resolved
unfolding resolve_sites function_of
resolve_all c queue [] r = ok r
resolve_all c queue (name ∷ names) r = elim (function_of c name) [
  | none ↦ err key_error
  | some info ↦ do next ← resolve_sites c queue name info.indirect r; resolve_all c queue names next
]

-- `self.parent.get(name, name)`
unfoldable pub parent_of : String → State → String
unfolding value_of
parent_of name s = elim (value_of name s.parent) [ none ↦ name | some caller ↦ caller ]

-- A node outside of the model is a boundary of the function that first referred to it.
unfoldable pub node_boundaries : List Node → State → State
unfolding boundary parent_of
node_boundaries [] s = s
node_boundaries (n ∷ ns) s = node_boundaries ns (
    if class_eq n.class unresolvable
    then boundary (parent_of n.name s) none unresolvable n.kind (some n.name) n.reason s
    else s)

-- `Closure.run`
unfoldable pub run : Inputs → List String → Result Failure Resolved
unfolding visit_roots search resolve_all node_boundaries
run c roots = do
  searched ← search c (length c.functions) (visit_roots c roots start)
  resolved ← resolve_all c searched.finished searched.finished (searched, [])
  ok (node_boundaries searched.nodes resolved.0, resolved.1)

unfoldable pub of_class : Class → List Node → List Node
of_class class [] = []
of_class class (n ∷ ns) =
    let rest = of_class class ns in if class_eq n.class class then n ∷ rest else rest

pub data Status : Type 0 where
  closed : Status
  incomplete : Status

-- What `report` says of a closure.
pub record Report : Type 0 where
  pub status : Status
  pub counts : Class → ℕ
  pub missing_nodes : List Node
  pub unresolvable_boundaries : List Boundary
  pub prefixes : List String
  pub std_model_collisions : List String
  pub exported_outside_closure : List String
  -- `existing_uncovered`, where an existing filter is given
  pub existing_uncovered : Option (List String)

-- The names of the functions that must be exported.
unfoldable pub wanted : List Node → List String
wanted [] = []
wanted (n ∷ ns) =
    let rest = wanted ns in
    if class_eq n.class exported || class_eq n.class missing then n.name ∷ rest else rest

unfoldable pub status_of : List Node → List Boundary → Status
status_of missing_nodes boundaries =
    if is_empty missing_nodes && is_empty boundaries then closed else incomplete

unfoldable pub report : Inputs → State → List String → Option (List String) → Report
unfolding of_class status_of wanted reduced_prefixes collisions covered keep_if sorted_set listed
report c s base_prefixes existing =
    let prefixes = reduced_prefixes (wanted s.nodes) base_prefixes in
    record {
      status = status_of (of_class missing s.nodes) s.boundaries;
      counts = λ class. length (of_class class s.nodes);
      missing_nodes = of_class missing s.nodes;
      unresolvable_boundaries = s.boundaries;
      prefixes = prefixes;
      std_model_collisions = collisions prefixes (map (λ m. m.0) c.models);
      exported_outside_closure =
          sorted_set (
            keep_if (λ f. not (listed f (map (λ n. n.name) s.nodes))) (map (λ f. f.0) c.functions));
      existing_uncovered = elim existing [
        | none ↦ none
        | some filter ↦ some (keep_if (λ n. not (covered n filter)) (wanted s.nodes))
      ];
    }
