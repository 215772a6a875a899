-- ===== src/Schedules/Validate/Steps.antt =====
-- The checks that an accepted answer passed, one after the other: `validate_response` of
-- scripts/schedules.py.
use air2lean.Base.{
  ℕ, suc, ◌≤◌, String, Option, some, Bool, true, false, ◌||◌, not, List, [], ◌∷◌, ◌≡◌, refl, ap,
  sym, ◌∙◌, subst, map, same, not-false, ◌==◌, ltb, length, any, All, arith,
}
use air2lean.Base.Int.{ℤ}
use air2lean.Base.Result.{ok, err, ◌>>=◌, ◌>>◌, refuse_if, >>=-eq-ok, refuse_if-eq-ok, ok-injective}
use air2lean.Json.{Json, Items, Fields, nil, cons, arr, obj, get, json_equal, natural_of}
use air2lean.Diff.{Kind, kind_eq, invalid}
use air2lean.Schedules.Equality.{py_equal}
use air2lean.Schedules.Request.{
  Mode, enumerate, replay, Limits, limits, nat, echoes, is_plain, or_null, number_items,
}
use air2lean.Schedules.{Execution, Flags, flags, execution, executions}
use air2lean.Schedules.Validate.{
  Accepted, first_seen, object_items, check_flags, check_mode, check_replay, read_response,
  check_response, validate_response, items_length,
}
use air2lean.Schedules.Validate.Traces.{same-true, nat-number, IsTrace, executions-IsTrace}

module _ (decode : String → Option Json) (float_is : Bool → ℕ → ℤ → Bool) where
  pub executions-length :
      (l : Limits) (xs : Items) (es : List Execution)
      → executions decode l xs ≡ ok es
      → length es ≡ items_length decode float_is xs
  unfolding executions items_length
  executions-length l nil es h = ap length (sym (ok-injective h))
  executions-length l (cons x xs) es h =
      let (e, e1, h1) = >>=-eq-ok (execution decode l x) _ h in
      let (rest, e2, h2) = >>=-eq-ok (executions decode l xs) _ h1 in
      ap length (sym (ok-injective h2)) ∙ ap suc (executions-length l xs rest e2)

  abbrev pub Read : Fields → Limits → List Execution × Flags → Type 0
  Read fs l (es, f) =
      (natural_of (get "runs" fs) ≡ some (length es))
      × (length es ≤ l.node_cap)
      × All (IsTrace l) es
      × (f.truncated ≡ (f.node_cap_reached || f.prefix_cap_reached))

  pub read_response-Read :
      (l : Limits) (fs : Fields) (r : List Execution × Flags)
      → read_response decode float_is l fs ≡ ok r
      → Read fs l r
  unfolding read_response
  read_response-Read l fs r h = turn (get "executions" fs) h
    where
      listing :
          (xs : Items)
          → (do
            refuse_if (ltb l.node_cap (items_length decode float_is xs)) invalid
            runs ← nat 2000 (get "runs" fs)
            refuse_if (not (runs == items_length decode float_is xs)) invalid
            f ← flags fs
            refuse_if (not (same f.truncated (f.node_cap_reached || f.prefix_cap_reached))) invalid
            es ← executions decode l xs
            ok (es, f))
            ≡ ok r
          → Read fs l r
      listing xs h =
          let (few, h1) =
            refuse_if-eq-ok (ltb l.node_cap (items_length decode float_is xs)) invalid _ h in
          let (runs, read, h2) = >>=-eq-ok (nat 2000 (get "runs" fs)) _ h1 in
          let (as_many, h3) =
            refuse_if-eq-ok (not (runs == items_length decode float_is xs)) invalid _ h2 in
          let (f, _, h4) = >>=-eq-ok (flags fs) _ h3 in
          let (agree, h5) =
            refuse_if-eq-ok (not (same f.truncated (f.node_cap_reached || f.prefix_cap_reached)))
              invalid _ h4 in
          let (es, e, h6) = >>=-eq-ok (executions decode l xs) _ h5 in
          let size = executions-length l xs es e in
          let bound : length es ≤ l.node_cap = ground arith in
          let counted : runs ≡ length es = ground arith in
          subst (Read fs l) (ok-injective h6) (
            (nat-number 2000 (get "runs" fs) runs read).0 ∙ ap (λ n. some n) counted,
            bound,
            executions-IsTrace decode l xs es e,
            same-true f.truncated (f.node_cap_reached || f.prefix_cap_reached) agree,
          )

      turn :
          (o : Option Json)
          → (elim o [
            | some (arr xs) ↦ do
              refuse_if (ltb l.node_cap (items_length decode float_is xs)) invalid
              runs ← nat 2000 (get "runs" fs)
              refuse_if (not (runs == items_length decode float_is xs)) invalid
              f ← flags fs
              refuse_if
                  (not (same f.truncated (f.node_cap_reached || f.prefix_cap_reached)))
                  invalid
              es ← executions decode l xs
              ok (es, f)
            | _ ↦ err invalid
          ])
            ≡ ok r
          → Read fs l r
      turn (some (arr xs)) h = listing xs h
      turn _ h = cc

  pub check_replay-single :
      (request : Fields) (f : Flags) (es : List Execution) (u : Unit {0})
      → check_replay decode float_is request f es ≡ ok u
      → (f.truncated ≡ false) × (length es ≡ 1)
  unfolding check_replay
  check_replay-single request f [] u h = cc
  check_replay-single request f (e ∷ []) u h =
      let (_, h1) = refuse_if-eq-ok (not e.trace_complete) invalid _ h in
      let (_, h2) =
        refuse_if-eq-ok
          (not (
            py_equal float_is (arr (number_items (map (λ s. s.0) e.steps)))
              (or_null (get "prefix" request))))
          invalid _ h1 in
      let (whole, _) = refuse_if-eq-ok f.truncated invalid _ h2 in (whole, refl)
  check_replay-single request f (e ∷ d ∷ es) u h = cc

  pub check_flags-agree :
      (f : Flags) (es : List Execution) (u : Unit {0})
      → check_flags decode float_is f es ≡ ok u
      → (f.saw_no_result ≡ any (λ e. kind_eq e.kind Kind.bounded_no_result) es)
        × (any (λ e. not e.trace_complete) es ≡ f.prefix_cap_reached)
  unfolding check_flags
  check_flags-agree f es u h =
      let (a, h1) =
        refuse_if-eq-ok
          (not (same f.saw_no_result (any (λ e. kind_eq e.kind Kind.bounded_no_result) es))) invalid
          _ h in
      let (b, _) =
        refuse_if-eq-ok (not (same (any (λ e. not e.trace_complete) es) f.prefix_cap_reached))
          invalid _ h1 in
      (
        same-true f.saw_no_result (any (λ e. kind_eq e.kind Kind.bounded_no_result) es) a,
        same-true (any (λ e. not e.trace_complete) es) f.prefix_cap_reached b,
      )

  pub check_mode-agrees :
      (m : Mode) (request : Fields) (f : Flags) (es : List Execution) (u : Unit {0})
      → check_mode decode float_is m request f es ≡ ok u
      → (m ≡ enumerate → f.exploration_complete ≡ not f.truncated)
        × (m ≡ replay → (f.truncated ≡ false) × (length es ≡ 1))
  unfolding check_mode
  check_mode-agrees enumerate request f es u h =
      let (a, _) =
        refuse_if-eq-ok (not (same f.exploration_complete (not f.truncated))) invalid (ok tt)
          (step_on _ h) in
      (λ _. same-true f.exploration_complete (not f.truncated) a, λ e. cc)
    where
      step_on : (b : Bool) → refuse_if b invalid ≡ ok u → (refuse_if b invalid >> ok tt) ≡ ok u
      step_on true h = cc
      step_on false h = h
  check_mode-agrees replay request f es u h = (λ e. cc, λ _. check_replay-single request f es u h)

  -- The checks that an accepted answer passed, with the limits of its request.
  pub record Passed (response request : Fields) (a : Accepted) : Type 0 where
    pub limits_of : Limits
    pub limits_are : limits request ≡ ok limits_of
    pub echoed : echoes ("mode" ∷ "fuel" ∷ "node_cap" ∷ "prefix_cap" ∷ []) response request ≡ true
    pub read : Read response limits_of (a.executions, a.flags)
    pub flags_agree : check_flags decode float_is a.flags a.executions ≡ ok tt
    pub mode_agrees : check_mode decode float_is limits_of.mode request a.flags a.executions ≡ ok tt

  pub validate_response-Passed :
      (response : Json) (request : Fields) (a : Accepted)
      → validate_response decode float_is response request ≡ ok a
      → (fs : Fields) × (response ≡ obj fs) × Passed fs request a
  unfolding validate_response check_response
  validate_response-Passed (obj fs) request a h =
      let (_, h1) = refuse_if-eq-ok (not (is_plain fs)) invalid _ h in
      let (l, e1, h2) = >>=-eq-ok (limits request) _ h1 in
      let (echoed, h3) =
        refuse_if-eq-ok (not (echoes ("mode" ∷ "fuel" ∷ "node_cap" ∷ "prefix_cap" ∷ []) fs request))
          invalid _ h2 in
      let ((es, f), e2, h4) = >>=-eq-ok (read_response decode float_is l fs) _ h3 in
      let (_, h5) =
        refuse_if-eq-ok
          (not (
            json_equal (or_null (get "outcomes" fs))
              (arr (object_items decode float_is (first_seen decode float_is [] es)))))
          invalid _ h4 in
      let (u, e3, h6) = >>=-eq-ok (check_flags decode float_is f es) _ h5 in
      let (v, e4, h7) = >>=-eq-ok (check_mode decode float_is l.mode request f es) _ h6 in
      (
        fs,
        refl,
        subst (Passed fs request) (ok-injective h7) (record {
          limits_of = l;
          limits_are = e1;
          echoed = not-false _ echoed;
          read = read_response-Read l fs (es, f) e2;
          flags_agree = e3;
          mode_agrees = e4;
        }),
      )
  validate_response-Passed _ request a h = cc
