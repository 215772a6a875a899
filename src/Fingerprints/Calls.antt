-- ===== src/Fingerprints/Calls.antt =====
-- The call graph of `fingerprints` in scripts/semantic-fingerprints.py: the records are the functions of
-- a sidecar with their callees, and the source of each stands once among them.
use air2lean.Base.{
  ◌≡◌, ◌≤◌, ◌<◌, ◌↔◌, length, refl, sym, ap, ◌∙◌, String, Bool, true, Option, some, List, [], ◌∷◌,
  map, eq_iff, as_count, arith,
}
use air2lean.Base.Sort.{text_le, sorted}
use air2lean.Json.{listed}
use air2lean.Diff.Config.{has_key, get_or}
use air2lean.Closure.Names.{sorted_set, keep_if}
use air2lean.Closure.Names.Prefixes.{listed-sorted, listed-sorted_set}
use air2lean.Fingerprints.Components.{components}
use air2lean.Fingerprints.Components.Step.{Known, placed}
use air2lean.Fingerprints.Components.Reach.{Reaches, rank, together}
use air2lean.Fingerprints.Components.Exact.{together_iff, edge-rank, node-rank}
use air2lean.Fingerprints.Components.Once.{All-listed, components_once}

-- The callees that have a record, in order.
unfoldable pub call_edges : List (String × List String) → String → List String
unfolding sorted_set keep_if has_key get_or
call_edges records s = sorted_set (keep_if (λ c. has_key c records) (get_or [] s records))

unfoldable pub call_components : List (String × List String) → Option (List (List String))
unfolding call_edges components
call_components records = components (call_edges records) (sorted text_le (map (λ r. r.0) records))

listed-keys :
    (x : String) (records : List (String × List String))
    → listed x (map (λ r. r.0) records) ≡ has_key x records
unfolding listed has_key
listed-keys x [] = refl
listed-keys x ((s, cs) ∷ records) = ground (arith, listed-keys x records)

pub listed-kept :
    (p : String → Bool) (x : String) (xs : List String)
    → listed x (keep_if p xs) ≡ true
    → p x ≡ true
unfolding listed keep_if
listed-kept p x [] h = absurd cc
listed-kept p x (y ∷ xs) h = ground (arith, listed-kept p x xs, eq_iff y x, ap p)

module _ (records : List (String × List String)) where
  abbrev nodes : List String
  nodes = sorted text_le (map (λ r. r.0) records)

  listed-nodes : (x : String) → listed x nodes ≡ has_key x records
  listed-nodes x = listed-sorted x (map (λ r. r.0) records) ∙ listed-keys x records

  -- Every edge leads to a function that has a record.
  edges_inside : (n : String) → listed n nodes ≡ true → Known nodes (call_edges records n)
  unfolding call_edges
  edges_inside n l = All-listed nodes (call_edges records n) (λ x h.
      listed-nodes x
      ∙ listed-kept (λ c. has_key c records) x (get_or [] n records)
          (sym (listed-sorted_set x (keep_if (λ c. has_key c records) (get_or [] n records))) ∙ h))

-- The components of the call graph are found: each source of a record is in exactly one of them, once,
-- and nothing else is in one.
pub call_components_once :
    (records : List (String × List String))
    → (order : List (List String)) × (call_components records ≡ some order)
      × ((x : String) → placed x order ≡ as_count (has_key x records))
unfolding call_components call_edges
call_components_once records =
    (let (order, found, once) =
        components_once (call_edges records) (nodes records) (edges_inside records) in
      (order, found, λ x. once x ∙ ap as_count (listed-nodes records x)))

-- Two functions that have a record are in one component exactly when each reaches the other by calls.
pub call_components-together_iff :
    (records : List (String × List String)) (order : List (List String)) (x y : String)
    → call_components records ≡ some order
    → has_key x records ≡ true
    → has_key y records ≡ true
    → (together x y order ≡ true)
      ↔ (Reaches (call_edges records) x y × Reaches (call_edges records) y x)
unfolding call_components
call_components-together_iff records order x y found h k =
    together_iff (call_edges records) (nodes records) (edges_inside records) order found x y
      (listed-nodes records x ∙ h) (listed-nodes records y ∙ k)

-- Callees come before callers: where a function that has a record calls another, the function is in a
-- component of the order, and that of its callee is the same or an earlier one.
pub call_components_callees_first :
    (records : List (String × List String)) (order : List (List String)) (x y : String)
    → call_components records ≡ some order
    → has_key x records ≡ true
    → listed y (call_edges records x) ≡ true
    → (rank y order ≤ rank x order) × (rank x order < length order)
unfolding call_components
call_components_callees_first records order x y found h e =
    (let inside = edges_inside records in
      let given = listed-nodes records x ∙ h in
      (
        edge-rank (call_edges records) (nodes records) inside order found x y given e,
        node-rank (call_edges records) (nodes records) inside order found x given,
      ))
