-- ===== src/Fingerprints/Digest.antt =====
-- `fingerprints` of scripts/semantic-fingerprints.py. `V` is the type of the decoded JSON values and `H`
-- that of digests; `digest` is SHA-256 of the canonical text of a value, and its argument is one of the
-- dicts that the code digests. The records are of distinct sources, which `load_sidecar` sees to.
pub mod Keyed
pub mod Explained
pub mod Groups
pub mod Returns
pub mod Total
pub mod Agree
use air2lean.Base.{
  ℕ, String, Option, none, some, Bool, true, false, ◌||◌, not, List, [], ◌∷◌, ◌++◌, map, str_eq,
  if◌then◌else◌, leb, length,
}
use air2lean.Base.Result.{Result, ok, err, ◌>>=◌, ◌>>◌, traverse}
use air2lean.Json.{listed}
use air2lean.Closure.{value_of}
use air2lean.Closure.Names.{sorted_set, keep_if}
use air2lean.Diff.Config.{has_key}
use air2lean.Fingerprints.Calls.{call_edges, call_components}

-- A function record of a sidecar.
pub record Function (V : Type 0) : Type 0 where
  pub definition : V
  pub proof_api : V
  pub air_name : V
  pub air_file : V
  pub callees : List String
  pub canonical : V

-- A sidecar: its functions by source.
pub record SourceMap (V : Type 0) : Type 0 where
  pub metadata : V
  pub options : V
  pub translator : String
  pub runtime : String
  pub functions : List (String × Function V)

-- A member of a component: its source, the digest of its body, and its callees in the component.
abbrev pub Member : Type 0 → Type 0
Member H = String × (H × List String)

-- The dicts that are digested.
pub data Payload (H V : Type 0) : Type 0 where
  context : V → V → String → String → Payload H V
  body : H → V → Payload H V
  group : List (Member H) → List (String × H) → Payload H V
  labelled : H → String → Payload H V

pub record Finger (H V : Type 0) : Type 0 where
  pub definition : V
  pub proof_api : V
  pub air_name : V
  pub air_file : V
  pub local_sha256 : H
  pub fingerprint : H
  pub callees : List String
  pub boundaries : List String
  pub recursive_group : List String

-- A `KeyError`, or a search for the components that did not end.
pub data Stuck : Type 0 where
  missing_key no_components : Stuck

unfoldable pub at_key {ℓ} : {A : Type ℓ} → String → List (String × A) → Result Stuck A
unfolding value_of
at_key key d = elim (value_of key d) [ none ↦ err missing_key | some v ↦ ok v ]

module _ {H V : Type 0} (digest : Payload H V → H) where
  abbrev pub calls_of : SourceMap V → List (String × List String)
  calls_of doc = map (λ f. (f.0, f.1.callees)) doc.functions

  abbrev pub edges_of : SourceMap V → String → List String
  edges_of doc = call_edges (calls_of doc)

  abbrev pub context_of : SourceMap V → H
  context_of doc = digest (context doc.metadata doc.options doc.translator doc.runtime)

  -- `local[s]`
  unfoldable pub local_of : SourceMap V → Function V → H
  local_of doc f = digest (body (context_of doc) f.canonical)

  -- `[m, local[m], [c for c in edges[m] if c in inside]]`
  unfoldable pub member_of : SourceMap V → List String → String → Result Stuck (Member H)
  unfolding at_key local_of keep_if listed
  member_of doc members m = do
    f ← at_key m doc.functions
    ok (m, (local_of doc f, keep_if (λ c. listed c members) (edges_of doc m)))

  -- Each callee of a member that is no member.
  unfoldable pub edges_out : SourceMap V → List String → List String → List String
  unfolding keep_if listed
  edges_out doc members [] = []
  edges_out doc members (m ∷ ms) =
      keep_if (λ c. not (listed c members)) (edges_of doc m) ++ edges_out doc members ms

  -- `[c, result[c]["fingerprint"]]`
  unfoldable pub callee_of : List (String × Finger H V) → String → Result Stuck (String × H)
  unfolding at_key
  callee_of result c = do e ← at_key c result; ok (c, e.fingerprint)

  unfoldable pub component_of :
      SourceMap V → List String → List (String × Finger H V) → Result Stuck H
  unfolding member_of callee_of edges_out sorted_set
  component_of doc members result = do
    ms ← traverse (member_of doc members) members
    cs ← traverse (callee_of result) (sorted_set (edges_out doc members members))
    ok (digest (group ms cs))

  -- A component is never empty.
  unfoldable pub is_cyclic : SourceMap V → List String → Bool
  unfolding listed
  is_cyclic doc [] = false
  is_cyclic doc (m ∷ ms) = leb 1 (length ms) || listed m (edges_of doc m)

  -- `result[m]`
  unfoldable pub finger_of :
      SourceMap V → List String → H → String → Result Stuck (String × Finger H V)
  unfolding at_key local_of sorted_set keep_if has_key is_cyclic
  finger_of doc members component m = do
    f ← at_key m doc.functions
    ok (
      m,
      record {
        definition = f.definition;
        proof_api = f.proof_api;
        air_name = f.air_name;
        air_file = f.air_file;
        local_sha256 = local_of doc f;
        fingerprint = digest (labelled component m);
        callees = edges_of doc m;
        boundaries = sorted_set (keep_if (λ c. not (has_key c doc.functions)) f.callees);
        recursive_group = if is_cyclic doc members then members else [];
      },
    )

  -- The loop over the components. No source is in two of them, so that `result` only grows.
  unfoldable pub add_groups :
      SourceMap V
      → List (List String)
      → List (String × Finger H V)
      → Result Stuck (List (String × Finger H V))
  unfolding component_of finger_of
  add_groups doc [] result = ok result
  add_groups doc (members ∷ order) result = do
    component ← component_of doc members result
    entries ← traverse (finger_of doc members component) members
    add_groups doc order (result ++ entries)

  unfoldable pub fingerprints : SourceMap V → Result Stuck (List (String × Finger H V))
  unfolding call_components add_groups
  fingerprints doc = elim (call_components (calls_of doc)) [
    | none ↦ err no_components
    | some order ↦ add_groups doc order []
  ]
