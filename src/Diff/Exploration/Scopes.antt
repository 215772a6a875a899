-- ===== src/Diff/Exploration/Scopes.antt =====
-- The scopes of `Exploration` in scripts/diff-report.py: what blocks a scope from counting as
-- correspondence (`summary`), and a run as a sequence of cases and receipts.
pub mod Counted
pub mod Clear
use air2lean.Base.{ℕ, ◌+◌, Bool, true, false, ◌&&◌, ◌||◌, not, List, [], ◌∷◌, ◌==◌, if◌then◌else◌}
use air2lean.Diff.Exploration.{
  Key, key_eq, Scope, Case, Receipt, Exploration, add_case, add_receipt, empty_scope,
}

pub data Blocker : Type 0 where
  search_cap enumeration_truncated bounded_no_result non_matching_cases : Blocker

abbrev blocker_if : Bool → Blocker → List Blocker → List Blocker
blocker_if b x rest = if b then x ∷ rest else rest

-- The blockers of a scope, in the order of `summary`.
unfoldable pub blockers : Scope → List Blocker
blockers s = blocker_if (not (s.capped_cases == 0)) search_cap (
    blocker_if (not (s.truncated == 0)) enumeration_truncated (
      blocker_if (not (s.bounded_cases == 0) || not (s.saw_no_result == 0)) bounded_no_result
        (blocker_if (s.cases == 0 || not (s.exact_matches == s.cases)) non_matching_cases [])))

pub data Event : Type 0 where
  compared : Case → Event
  enumerated : Receipt → Event

unfoldable pub record_event : Event → Exploration → Exploration
unfolding add_case add_receipt
record_event (compared c) x = add_case c x
record_event (enumerated r) x = add_receipt r x

-- A run: its cases and receipts in order.
unfoldable pub explore : List Event → Exploration → Exploration
unfolding record_event
explore [] x = x
explore (e ∷ es) x = explore es (record_event e x)

-- The counters of a scope; a missing one is empty.
unfoldable pub scope_at : Key → List (Key × Scope) → Scope
scope_at k [] = empty_scope
scope_at k ((j, s) ∷ scopes) = if key_eq j k then s else scope_at k scopes
