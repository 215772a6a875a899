-- ===== src/Diff/Classify/Failures.antt =====
-- The failure texts of an accepted model observation of scripts/diff-report.py.
use text.Mathlib.TextPositions.{eq_refl}
use air2lean.Base.{
  String, ◌≡◌, refl, Option, none, some, Bool, true, false, ◌&&◌, not, List, [], ◌∷◌, str_eq,
  if◌then◌else◌, arith, inl, inr, Bool-cases, Option-cases, eq_iff, all, ap, sym, ◌∙◌,
}
use air2lean.Json.{listed}
use air2lean.Diff.{Kind, kind_eq, Policy, policy_get}
use air2lean.Diff.Wire.{Wire, fail, diverge}
use air2lean.Diff.Kinds.{zig_error, errors, model_error, model_error_kind, is_model_failure}
use air2lean.Diff.Classify.{Bucket, is_expected, is_fail_match, model_bucket}

abbrev is_none {ℓ} : {A : Type ℓ} → Option A → Bool
is_none none = true
is_none (some a) = false

-- The error that a failure text names is in the table, and the text is its name.
model_error-eq :
    (text : String) (es : List String) (e : String)
    → model_error text es ≡ some e
    → (text ≡ zig_error e) × (listed e es ≡ true)
unfolding model_error listed
model_error-eq text [] e h = cc
model_error-eq text (x ∷ es) e h = elim (Bool-cases (str_eq text (zig_error x))) [
  | inl found ↦ ground (arith, eq_iff text (zig_error x), eq_refl x)
  | inr other ↦ ground (arith, model_error-eq text es e)
]

-- What holds along a list of texts holds of each that is listed.
all-listed :
    (p : String → Bool) (es : List String) (e : String)
    → all p es ≡ true
    → listed e es ≡ true
    → p e ≡ true
unfolding listed
all-listed p [] e h l = cc
all-listed p (x ∷ es) e h l = elim (Bool-cases (str_eq x e)) [
  | inl found ↦ let x_is = (eq_iff x e).0 found in rw (← x_is) (ground arith)
  | inr other ↦ ground (arith, all-listed p es e)
]

-- No legacy bucket but an agreement or a mismatch takes the failure of a safety check or a trap,
-- and each failure text has an error behind its prefix.
is_plain : String → Bool
is_plain e =
    not (str_eq (zig_error "") (zig_error e))
    && (if kind_eq (model_error_kind e) Kind.model_panic
        then is_none (model_bucket (fail (zig_error e)) false)
        else if kind_eq (model_error_kind e) Kind.trap
        then is_none (model_bucket (fail (zig_error e)) false)
          && is_none (model_bucket (fail (zig_error e)) true)
        else true)

errors-is_plain : all is_plain errors ≡ true
unfolding is_plain model_bucket zig_error model_error_kind
errors-is_plain = refl

-- The text of an accepted panic or trap names an error of its kind.
fits-error :
    (k : Kind) (text : String)
    → is_model_failure k text ≡ true
    → (e : String) × (text ≡ zig_error e)
      × (kind_eq k (model_error_kind e) ≡ true)
      × (is_plain e ≡ true)
unfolding is_model_failure
fits-error k text h = elim (Option-cases (model_error text errors)) [
  | inl missing ↦ ground arith
  | inr (e, found) ↦
      let (text_is, in_table) = model_error-eq text errors e found in
      (e, text_is, ground arith, all-listed is_plain errors e errors-is_plain in_table)
]

is_none→eq : (o : Option Bucket) → is_none o ≡ true → o ≡ none
is_none→eq none p = refl
is_none→eq (some b) p = cc

panic_part :
    (e : String)
    → kind_eq Kind.model_panic (model_error_kind e) ≡ true
    → is_plain e ≡ true
    → is_none (model_bucket (fail (zig_error e)) false) ≡ true
unfolding is_plain
panic_part e of_kind p = ground arith

trap_part :
    (e : String) (ub : Bool)
    → kind_eq Kind.trap (model_error_kind e) ≡ true
    → is_plain e ≡ true
    → is_none (model_bucket (fail (zig_error e)) ub) ≡ true
unfolding is_plain
trap_part e true of_kind p = ground arith
trap_part e false of_kind p = ground arith

prefix_part : (e : String) → is_plain e ≡ true → str_eq (zig_error "") (zig_error e) ≡ false
unfolding is_plain
prefix_part e p = ground arith

pub panic-plain :
    (text : String)
    → is_model_failure Kind.model_panic text ≡ true
    → model_bucket (fail text) false ≡ none
panic-plain text h =
    let (e, text_is, of_kind, plain) = fits-error Kind.model_panic text h in
    rw text_is (is_none→eq _ (panic_part e of_kind plain))

pub trap-plain :
    (text : String) (ub : Bool)
    → is_model_failure Kind.trap text ≡ true
    → model_bucket (fail text) ub ≡ none
trap-plain text ub h =
    let (e, text_is, of_kind, plain) = fits-error Kind.trap text h in
    rw text_is (is_none→eq _ (trap_part e ub of_kind plain))

-- The policy gives the error of the model for the tag of the native run.
pub record PolicyMatch (panics : Policy) (native model : Wire) : Type 0 where
  pub tag : String
  pub error : String
  pub native_is : native ≡ fail tag
  pub model_is : model ≡ fail (zig_error error)
  pub in_policy : policy_get tag panics ≡ some error

no_prefix_only :
    (k : Kind) (text : String) → is_model_failure k text ≡ true → str_eq text (zig_error "") ≡ false
no_prefix_only k text h = elim (Bool-cases (str_eq text (zig_error ""))) [
  | inl same_text ↦
      let (e, text_is, _, plain) = fits-error k text h in
      let text_eq = (eq_iff text (zig_error "")).0 same_text in
      let other = prefix_part e plain in
      let same_error = (eq_iff (zig_error "") (zig_error e)).1 (sym text_eq ∙ text_is) in
      cc (other, same_error)
  | inr other ↦ other
]

pub is_expected-PolicyMatch :
    (panics : Policy) (native : Wire) (k : Kind) (text : String)
    → is_model_failure k text ≡ true
    → is_expected panics native (fail text) ≡ true
    → PolicyMatch panics native (fail text)
unfolding is_expected
is_expected-PolicyMatch panics (fail tag) k text h x = elim (Option-cases (policy_get tag panics)) [
  | inl missing ↦ cc (no_prefix_only k text h, rw (missing, is_expected) at x)
  | inr (e, found) ↦ record {
    tag = tag;
    error = e;
    native_is = refl;
    model_is = ap fail ((eq_iff text (zig_error e)).0 (rw (found, is_expected) at x));
    in_policy = found;
  }
]
is_expected-PolicyMatch panics diverge k text h x = cc (no_prefix_only k text h, x)
is_expected-PolicyMatch panics _ k text h x = cc (no_prefix_only k text h, x)

pub PolicyMatch-is_fail_match :
    (panics : Policy) (native model : Wire)
    → PolicyMatch panics native model
    → is_fail_match panics native model ≡ true
unfolding is_fail_match
PolicyMatch-is_fail_match panics native model m =
    rw (m.native_is, m.model_is, is_fail_match, m.in_policy) (eq_refl (zig_error m.error))
