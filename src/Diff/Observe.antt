-- ===== src/Diff/Observe.antt =====
-- `observation` of scripts/diff-report.py: the typed observation beside a result line.
pub mod Consistent
use air2lean.Base.{
  ℕ, String, Option, none, some, Bool, true, false, ◌&&◌, ◌||◌, not, List, [], ◌∷◌, str_eq, ◌==◌,
  if◌then◌else◌, same, leb, length,
}
use air2lean.Base.Int.{ℤ, pos, int_eq}
use air2lean.Base.Result.{Result, ok, err, ◌>>=◌, ◌>>◌, refuse_if}
use air2lean.Base.Text.{is_ident}
use Prim.Native.String.{◌++◌}
use air2lean.Json.{
  Json, Fields, null, bool, int, str, arr, obj, end, field, get, has, keys_among, listed,
  naturals_of, natural_of,
}
use air2lean.Diff.{
  Kind, kind_eq, Search, SearchStatus, witness, exhausted, bounded, capped, is_status_capped,
  is_status_bounded, Failure, invalid, unsupported, max_cases,
}
use air2lean.Diff.Wire.{Wire, returned, fail, diverge, wire, wire_equal}
use air2lean.Diff.Kinds.{
  Side, native, model, kind_of, allowed, errors, zig_error, model_error_kind, model_error, signals,
  is_error_value, is_model_failure, fits,
}

trace : Option Json → Result Failure (List ℕ)
trace (some (arr xs)) = elim (naturals_of xs) [
  | none ↦ err invalid
  | some ns ↦ if leb (length ns) max_cases then ok ns else err invalid
]
trace _ = err invalid

bound : Option Json → Result Failure ℕ
bound v = elim (natural_of v) [ none ↦ err invalid | some n ↦ ok n ]

search_status : Option Json → Result Failure SearchStatus
search_status (some (str s)) =
    if str_eq s "witness"
    then ok witness
    else if str_eq s "exhausted"
    then ok exhausted
    else if str_eq s "capped"
    then ok capped
    else if str_eq s "bounded"
    then ok bounded
    else err invalid
search_status _ = err invalid

flag : Option Json → Result Failure Bool
flag (some (bool b)) = ok b
flag _ = err invalid

abbrev search_keys : List String
search_keys = "prefix" ∷ "options" ∷ "runs" ∷ "fuel" ∷ "cap" ∷ "status" ∷ "saw_no_result" ∷ []

read_search : Json → Result Failure Search
unfolding trace bound search_status flag
read_search (obj fs) = do
  refuse_if (not (keys_among search_keys fs)) invalid
  prefix ← trace (get "prefix" fs)
  options ← trace (get "options" fs)
  runs ← bound (get "runs" fs)
  fuel ← bound (get "fuel" fs)
  cap ← bound (get "cap" fs)
  status ← search_status (get "status" fs)
  saw ← flag (get "saw_no_result" fs)
  ok (record {
    prefix = prefix;
    options = options;
    runs = runs;
    fuel = fuel;
    cap = cap;
    status = status;
    saw_no_result = saw;
  })
read_search _ = err invalid

-- The conditions on the metadata of a search.
unfoldable pub check_search : Kind → Search → Result Failure Search
check_search kind s = do
  refuse_if (s.runs == 0 || not (leb s.runs s.cap)) invalid
  refuse_if (is_status_bounded s.status && not s.saw_no_result) invalid
  refuse_if (is_status_capped s.status && not (s.runs == s.cap)) invalid
  refuse_if (kind_eq kind Kind.search_cap && not (is_status_capped s.status)) invalid
  ok s

no_search : Kind → Result Failure (Option Search)
no_search kind = do refuse_if (kind_eq kind Kind.search_cap) invalid; ok none

search_of : Side → Kind → Option Json → Result Failure (Option Search)
unfolding no_search read_search check_search
search_of side kind none = no_search kind
search_of side kind (some null) = no_search kind
search_of native kind (some v) = err invalid
search_of model kind (some v) = do s ← read_search v; s ← check_search kind s; ok (some s)

read_kind : Option Json → Result Failure Kind
unfolding kind_of
read_kind (some (str k)) = elim (kind_of k) [ none ↦ err invalid | some kind ↦ ok kind ]
read_kind _ = err invalid

read_schema : Option Json → Result Failure (Unit {0})
read_schema (some (int n)) = if int_eq n (pos 1) then ok tt else err unsupported
read_schema _ = err invalid

-- The checks on the kind, its result line and its search.
checked : Side → Kind → Wire → Option Json → Result Failure (Kind × Option Search)
checked side kind legacy v = do
  refuse_if (not (allowed side kind)) invalid
  refuse_if (not (fits kind legacy)) invalid
  found ← search_of side kind v
  ok (kind, found)

module _ (decode : String → Option Json) where
  -- `wire(record.get('legacy', record.get('legacy_line')))`: a text is decoded first.
  legacy_wire : Option Json → Option Json → Result Failure Wire
  legacy_wire (some (str line)) other = elim (decode line) [ none ↦ err invalid | some v ↦ wire v ]
  legacy_wire (some v) other = wire v
  legacy_wire none (some (str line)) = elim (decode line) [ none ↦ err invalid | some v ↦ wire v ]
  legacy_wire none (some v) = wire v
  legacy_wire none none = err invalid

  -- The kind of a record with the schema, that binds the result line at hand.
  bound_kind : Fields → Wire → Result Failure Kind
  unfolding legacy_wire read_schema read_kind
  bound_kind fs legacy = do
    read_schema (get "schema" fs)
    kind ← read_kind (get "kind" fs)
    refuse_if (not (keys_among ("schema" ∷ "kind" ∷ "legacy" ∷ "legacy_line" ∷ "search" ∷ []) fs))
        invalid
    refuse_if (same (has "legacy" fs) (has "legacy_line" fs)) invalid
    w ← legacy_wire (get "legacy" fs) (get "legacy_line" fs)
    refuse_if (not (wire_equal w legacy)) invalid
    ok kind

  unfoldable pub observation : Json → Wire → Side → Result Failure (Kind × Option Search)
  unfolding bound_kind checked search_of
  observation (obj fs) legacy side = do
    kind ← bound_kind fs legacy
    checked side kind legacy (get "search" fs)
  observation _ legacy side = err invalid
