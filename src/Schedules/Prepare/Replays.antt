-- ===== src/Schedules/Prepare/Replays.antt =====
-- The replay request that `prepare` of scripts/schedules.py makes from a differential summary is one that
-- `validate_response` reads.
use air2lean.Base.{
  ℕ, suc, zero, ◌-◌, ◌≤◌, ◌≡◌, refl, ap, String, Option, some, Bool, false, ◌||◌, not, List, [],
  ltb, arith, length, subst,
}
use air2lean.Base.Int.{ℤ}
use air2lean.Base.Result.{ok, >>=-eq-ok, refuse_if-eq-ok, ok-injective}
use air2lean.Json.{Json, Items, Fields, arr, obj, nil, cons, get, natural_of}
use air2lean.Diff.{invalid, max_cases}
use air2lean.Schedules.Request.{replay, nat, limits, mode_of}
use air2lean.Schedules.Prepare.Current.{Target, current_input, bound_context, row, is_value}
use air2lean.Schedules.Prepare.{
  item_count, zeros, padded, only, items_of, witness_of, required, witness_request, scan_rows,
  prepare_witness, prepare_summary,
}

-- A replay request: limits that the check of an answer reads, and as many choices as the expected
-- numbers of options, at most 4096.
pub record Replays (request : Fields) : Type 0 where
  pub fuel : ℕ
  pub fuel_bound : fuel ≤ 100000
  pub limits_are :
      limits request ≡ ok (record { mode = replay; fuel = fuel; node_cap = 1; prefix_cap = 4096 })
  pub choices : Items
  pub options : Items
  pub expected : Fields
  pub choices_are : get "prefix" request ≡ some (arr choices)
  pub expected_is : get "expected" request ≡ some (obj expected)
  pub options_are : get "options" expected ≡ some (arr options)
  pub same_length : item_count choices ≡ item_count options
  pub length_bound : item_count options ≤ 4096

zeros-length : (n : ℕ) → item_count (zeros n) ≡ n
unfolding item_count zeros
zeros-length zero = refl
zeros-length (suc n) = ap suc (zeros-length n)

padded-length :
    (xs : Items) (n : ℕ) → item_count xs ≤ n → item_count (padded xs (n - item_count xs)) ≡ n
unfolding item_count padded
padded-length nil n h = omega (arith, zeros-length n, zeros-length (n - 0))
padded-length (cons x xs) zero h = absurd (omega (arith, h))
padded-length (cons x xs) (suc n) h = ground (arith, padded-length xs n, h)

nat-bound : (limit : ℕ) (v : Option Json) (n : ℕ) → nat limit v ≡ ok n → n ≤ limit
unfolding nat
nat-bound limit v n h = ground (arith, h)

limits-witness :
    (t : Target) (input : Json) (fuel : ℕ) (sparse options : Items) (line : String) (kind : Json)
    → fuel ≤ 100000
    → limits (witness_request t input fuel sparse options line kind)
      ≡ ok (record { mode = replay; fuel = fuel; node_cap = 1; prefix_cap = 4096 })
unfolding limits witness_request nat mode_of get natural_of
limits-witness t input fuel sparse options line kind h = ground (arith, h)

witness_request-Replays :
    (t : Target) (input : Json) (fuel : ℕ) (sparse options : Items) (line : String) (kind : Json)
    → fuel ≤ 100000
    → item_count options ≤ 4096
    → item_count sparse ≤ item_count options
    → Replays (witness_request t input fuel sparse options line kind)
unfolding witness_request get
witness_request-Replays t input fuel sparse options line kind h bound shorter = record {
  fuel = fuel;
  fuel_bound = h;
  limits_are = limits-witness t input fuel sparse options line kind h;
  choices = _;
  options = options;
  expected = _;
  choices_are = refl;
  expected_is = refl;
  options_are = refl;
  same_length = padded-length sparse (item_count options) shorter;
  length_bound = bound;
}

neither : (a b c d : ℕ) → (ltb a b || ltb c d) ≡ false → (b ≤ a) × (d ≤ c)
neither a b c d h = ground arith

module _ (is_space : ℕ → Bool) (float_is : Bool → ℕ → ℤ → Bool) (decode : String → Option Json)
    (sha256 : String → String) where
  prepare_witness-Replays :
      (t : Target) (model_lines : List String) (input : Json × String) (case request : Fields)
      → prepare_witness is_space float_is decode sha256 t model_lines input case ≡ ok request
      → Replays request
  unfolding prepare_witness
  prepare_witness-Replays t model_lines input case request h =
      let (search, _, h1) = >>=-eq-ok (witness_of (get "schedule" case)) _ h in
      let (options, _, h2) = >>=-eq-ok (items_of (get "options" search)) _ h1 in
      let (sparse, _, h3) = >>=-eq-ok (items_of (get "prefix" search)) _ h2 in
      let (bounds, h4) =
        refuse_if-eq-ok
          (ltb 4096 (item_count options) || ltb (item_count options) (item_count sparse)) invalid _
          h3 in
      let (model, _, h5) = >>=-eq-ok (row model_lines (some t.index)) _ h4 in
      let (_, h6) =
        refuse_if-eq-ok
          (not (is_value input.1 (get "input_sha256" case))
            || not (is_value (sha256 model) (get "model_sha256" case)))
          invalid _ h5 in
      let (fuel, f, h7) = >>=-eq-ok (nat 100000 (get "fuel" search)) _ h6 in
      let (kind, _, h8) = >>=-eq-ok (required (get "model_kind" case)) _ h7 in
      let (bound, shorter) =
        neither 4096 (item_count options) (item_count options) (item_count sparse) bounds in
      subst Replays (ok-injective h8) (
        witness_request-Replays t input.0 fuel sparse options _ kind
          (nat-bound 100000 (get "fuel" search) fuel f) bound shorter)

  -- The request that is made from a differential summary is a replay with limits that the check of the
  -- answer reads, one execution, and a choice for each expected number of options, of which there are
  -- at most 4096.
  pub prepare_summary-Replays :
      (t : Target) (sources decoded : Json) (available report model_lines : List String)
      (request : Fields)
      → prepare_summary is_space float_is decode sha256 t sources decoded available report
          model_lines
        ≡ ok request
      → Replays request
  unfolding prepare_summary
  prepare_summary-Replays t sources decoded available report model_lines request h =
      let (summary, _, h1) = >>=-eq-ok (bound_context sources decoded) _ h in
      let (_, h2) = refuse_if-eq-ok _ invalid _ h1 in
      let (input, _, h3) = >>=-eq-ok (current_input decode sha256 t) _ h2 in
      let (limit, _, h4) =
        >>=-eq-ok (nat (length available) (get "skipped_examples" summary)) _ h3 in
      let (expected, _, h5) = >>=-eq-ok (nat max_cases (get "case_count" summary)) _ h4 in
      let (found, _, h6) =
        >>=-eq-ok
          (scan_rows is_space float_is decode sha256 t available limit report
            (record { matches = []; skipped = []; cases = 0 }))
          _ h5 in
      let (_, h7) = refuse_if-eq-ok _ invalid _ h6 in
      let (case, _, h8) = >>=-eq-ok (only found.matches) _ h7 in
      prepare_witness-Replays t model_lines input case request h8
