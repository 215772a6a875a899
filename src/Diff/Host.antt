-- ===== src/Diff/Host.antt =====
-- Host differences of scripts/diff-report.py: `differing_leaves` and `host_difference`, the only
-- disagreements of two returned values that do not count as a mismatch.
pub mod Explained
use air2lean.Base.{
  ℕ, Option, none, some, Bool, true, false, ◌&&◌, ◌||◌, not, List, [], ◌∷◌, ◌++◌, ◌==◌,
  if◌then◌else◌, any, is_empty,
}
use air2lean.Json.{Json, Items, nil, cons, arr, obj, json_equal}
use air2lean.Diff.Wire.{Wire, returned, fail, diverge, normalized, same_extras}
use air2lean.Diff.Floats.{HostKind, nan_payload, zero_sign, libm_ulp, leaf_host_kinds}

-- `isinstance(v, (list, dict))`
unfoldable pub is_compound : Json → Bool
is_compound (arr xs) = true
is_compound (obj fs) = true
is_compound _ = false

unfoldable pub scalar_leaf : Json → Json → Option (List (Json × Json))
unfolding is_compound
scalar_leaf native model =
    if json_equal (normalized native) (normalized model)
    then some []
    else if is_compound native || is_compound model
    then none
    else some ((native, model) ∷ [])

-- The pairs of the first element before those of the rest; `none` where either has no pairs.
unfoldable pub joined :
    Option (List (Json × Json)) → Option (List (Json × Json)) → Option (List (Json × Json))
joined (some ps) (some qs) = some (ps ++ qs)
joined _ _ = none

-- The differing scalar leaf pairs of two values, or `none` where their shapes differ.
unfoldable mutual
  unfolding scalar_leaf joined

  pub differing_leaves : Json → Json → Option (List (Json × Json))
  differing_leaves (arr xs) (arr ys) = differing_items xs ys
  differing_leaves native model = scalar_leaf native model

  pub differing_items : Items → Items → Option (List (Json × Json))
  differing_items nil nil = some []
  differing_items (cons x xs) (cons y ys) = joined (differing_leaves x y) (differing_items xs ys)
  differing_items _ _ = none

abbrev pub host_index : HostKind → ℕ
host_index libm_ulp = 0
host_index nan_payload = 1
host_index zero_sign = 2

abbrev pub host_eq : HostKind → HostKind → Bool
host_eq a b = host_index a == host_index b

abbrev pub allows : List HostKind → HostKind → Bool
allows allowed k = any (host_eq k) allowed

-- `leaf_host_kinds(*pair) & allowed`
explaining : List HostKind → Json × Json → Option HostKind
explaining allowed p = elim (leaf_host_kinds p.0 p.1) [
  | none ↦ none
  | some k ↦ if allows allowed k then some k else none
]

-- The kind of every pair, or `none` where a pair has no allowed kind.
used_kinds : List HostKind → List (Json × Json) → Option (List HostKind)
unfolding explaining
used_kinds allowed [] = some []
used_kinds allowed (p ∷ ps) = elim (explaining allowed p) [
  | none ↦ none
  | some k ↦ elim (used_kinds allowed ps) [ none ↦ none | some ks ↦ some (k ∷ ks) ]
]

present : HostKind → List HostKind → List HostKind
present k used = if allows used k then k ∷ [] else []

-- `sorted(used)` of a set: each kind that occurs once, in the order of the names.
sorted_kinds : List HostKind → List HostKind
unfolding present
sorted_kinds used = present libm_ulp used ++ present nan_payload used ++ present zero_sign used

-- The kinds that explain a disagreement of two returned values with the same buffers and count of
-- live allocations, or `none`. The allowed kinds are a set, empty for the empty list.
unfoldable pub host_difference : Wire → Wire → List HostKind → Option (List HostKind)
unfolding used_kinds sorted_kinds
host_difference (returned v b l) (returned w c m) allowed =
    if is_empty allowed || not (same_extras (returned v b l) (returned w c m))
    then none
    else elim (differing_leaves v w) [
      | none ↦ none
      | some [] ↦ none
      | some (p ∷ ps) ↦ elim (used_kinds allowed (p ∷ ps)) [
        | none ↦ none
        | some ks ↦ some (sorted_kinds ks)
      ]
    ]
host_difference _ _ _ = none
