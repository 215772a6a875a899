-- ===== src/Diff/Exploration/Scopes/Counted.antt =====
-- What the scopes of `Exploration` in scripts/diff-report.py count, and what a scope without blockers
-- stands for.
use air2lean.Base.{
  ℕ, ◌+◌, ◌≡◌, refl, sym, ap, ◌∙◌, Bool, true, false, List, [], ◌∷◌, str_eq, eq_iff, if◌then◌else◌,
  if-both, sum_of, arith, Bool-cases, inl, inr, and-eq-true,
}
use air2lean.Diff.Exploration.{
  Key, key_eq, Scope, Case, Receipt, Exploration, in_scope, scope_case, scope_receipt, empty_scope,
  unexplored,
}
use air2lean.Diff.Exploration.Scopes.{Event, compared, enumerated, record_event, explore, scope_at}

key_eq→eq : (a b : Key) → key_eq a b ≡ true → a ≡ b
key_eq→eq (a, b) (c, d) h =
    (let parts = and-eq-true (str_eq a c) (str_eq b d) h in
      ap (λ x. (x, b)) ((eq_iff a c).0 parts.0) ∙ ap (λ y. (c, y)) ((eq_iff b d).0 parts.1))

pick_head :
    {A : Type 0} (change : A → A) (p q : Bool) (s r : A)
    → p ≡ q
    → (if p then change s else r)
      ≡ (if q then change (if p then s else r) else (if p then s else r))
pick_head change true q s r h = ap (λ b. if b then change s else s) h
pick_head change false q s r h = ap (λ b. if b then change r else r) h

pick_tail :
    {A : Type 0} (change : A → A) (p q : Bool) (s r t : A)
    → (p ≡ true → q ≡ false)
    → t ≡ (if q then change r else r)
    → (if p then s else t) ≡ (if q then change (if p then s else r) else (if p then s else r))
pick_tail change true q s r t h e = ap (λ b. if b then change s else s) (sym (h refl))
pick_tail change false q s r t h e = e

apart : (i j k : Key) → key_eq i j ≡ false → key_eq i k ≡ true → key_eq j k ≡ false
apart i j k differ h = elim (Bool-cases (key_eq j k)) [
  | inr e ↦ e
  | inl e ↦ (let found : key_eq i j ≡ true = ap (key_eq i) (key_eq→eq j k e) ∙ h in cc)
]

-- Changing a scope changes that scope only.
scope_at-in_scope :
    (k j : Key) (change : Scope → Scope) (scopes : List (Key × Scope))
    → scope_at k (in_scope j change scopes)
      ≡ (if key_eq j k then change (scope_at k scopes) else scope_at k scopes)
unfolding scope_at in_scope
scope_at-in_scope k j change [] = refl
scope_at-in_scope k j change ((i, s) ∷ scopes) = elim (Bool-cases (key_eq i j)) [
  | inl e ↦
      ap (λ b. scope_at k (if b then (i, change s) ∷ scopes else (i, s) ∷ in_scope j change scopes))
        e
      ∙ pick_head change (key_eq i k) (key_eq j k) s (scope_at k scopes)
          (ap (λ x. key_eq x k) (key_eq→eq i j e))
  | inr e ↦
      ap (λ b. scope_at k (if b then (i, change s) ∷ scopes else (i, s) ∷ in_scope j change scopes))
        e
      ∙ pick_tail change (key_eq i k) (key_eq j k) s (scope_at k scopes)
          (scope_at k (in_scope j change scopes)) (apart i j k e)
          (scope_at-in_scope k j change scopes)
]

-- The part of an event in a counter of a scope.
abbrev pub case_part : Key → (Case → ℕ) → Event → ℕ
case_part k p (compared c) = if key_eq c.key k then p c else 0
case_part k p (enumerated r) = 0

abbrev pub receipt_part : Key → (Receipt → ℕ) → Event → ℕ
receipt_part k p (compared c) = 0
receipt_part k p (enumerated r) = if r.is_replay then 0 else if key_eq r.key k then p r else 0

module _ (k : Key) (g : Scope → ℕ) (part : Event → ℕ)
    (step : (e : Event) (x : Exploration)
      → g (scope_at k (record_event e x).scopes) ≡ g (scope_at k x.scopes) + part e) where
  pub explore-counter :
      (es : List Event) (x : Exploration)
      → g (scope_at k (explore es x).scopes) ≡ g (scope_at k x.scopes) + sum_of part es
  unfolding explore
  explore-counter [] x = omega arith
  explore-counter (e ∷ es) x = omega (arith, step e x, explore-counter es (record_event e x))

added :
    {A : Type 0} (g : A → ℕ) (b : Bool) (t s : A) (n : ℕ)
    → g t ≡ g s + n
    → g (if b then t else s) ≡ g s + (if b then n else 0)
added g true t s n h = h
added g false t s n h = omega arith

kept : {A : Type 0} (g : A → ℕ) (b : Bool) (t s : A) → g t ≡ g s → g (if b then t else s) ≡ g s + 0
kept g true t s h = omega (arith, h)
kept g false t s h = omega arith

replayed :
    {A : Type 0} (g : A → ℕ) (b : Bool) (t s : A) (m n : ℕ)
    → g t ≡ m
    → g s ≡ m + n
    → g (if b then t else s) ≡ m + (if b then 0 else n)
replayed g true t s m n h e = omega (arith, h)
replayed g false t s m n h e = e

-- A counter that a case adds to, and one that a receipt adds to.
pub case-step :
    (k : Key) (g : Scope → ℕ) (p : Case → ℕ)
    → ((c : Case) (s : Scope) → g (scope_case c.status c.search s) ≡ g s + p c)
    → ((r : Receipt) (s : Scope) → g (scope_receipt r s) ≡ g s)
    → (e : Event) (x : Exploration)
    → g (scope_at k (record_event e x).scopes) ≡ g (scope_at k x.scopes) + case_part k p e
unfolding record_event
case-step k g p adds keeps (compared c) x =
    ap g (scope_at-in_scope k c.key (scope_case c.status c.search) x.scopes)
    ∙ added g (key_eq c.key k) (scope_case c.status c.search (scope_at k x.scopes))
        (scope_at k x.scopes) (p c) (adds c (scope_at k x.scopes))
case-step k g p adds keeps (enumerated r) x =
    if-both {A = Exploration} (λ y. g (scope_at k y.scopes) ≡ g (scope_at k x.scopes) + 0)
      r.is_replay (λ _. omega arith)
      (λ _.
        ap g (scope_at-in_scope k r.key (scope_receipt r) x.scopes)
        ∙ kept g (key_eq r.key k) (scope_receipt r (scope_at k x.scopes)) (scope_at k x.scopes)
            (keeps r (scope_at k x.scopes)))

pub receipt-step :
    (k : Key) (g : Scope → ℕ) (p : Receipt → ℕ)
    → ((c : Case) (s : Scope) → g (scope_case c.status c.search s) ≡ g s)
    → ((r : Receipt) (s : Scope) → g (scope_receipt r s) ≡ g s + p r)
    → (e : Event) (x : Exploration)
    → g (scope_at k (record_event e x).scopes) ≡ g (scope_at k x.scopes) + receipt_part k p e
unfolding record_event
receipt-step k g p keeps adds (compared c) x =
    ap g (scope_at-in_scope k c.key (scope_case c.status c.search) x.scopes)
    ∙ kept g (key_eq c.key k) (scope_case c.status c.search (scope_at k x.scopes))
        (scope_at k x.scopes) (keeps c (scope_at k x.scopes))
receipt-step k g p keeps adds (enumerated r) x =
    replayed {A = Exploration} (λ y. g (scope_at k y.scopes)) r.is_replay _ _
      (g (scope_at k x.scopes)) _ refl
      (ap g (scope_at-in_scope k r.key (scope_receipt r) x.scopes)
        ∙ added g (key_eq r.key k) (scope_receipt r (scope_at k x.scopes)) (scope_at k x.scopes)
            (p r) (adds r (scope_at k x.scopes)))

-- The cases of a scope, and its receipts that are not replays.
abbrev pub cases_in : Key → List Event → List Case
cases_in k [] = []
cases_in k (compared c ∷ es) = if key_eq c.key k then c ∷ cases_in k es else cases_in k es
cases_in k (enumerated r ∷ es) = cases_in k es

abbrev pub receipts_in : Key → List Event → List Receipt
receipts_in k [] = []
receipts_in k (compared c ∷ es) = receipts_in k es
receipts_in k (enumerated r ∷ es) =
    if r.is_replay
    then receipts_in k es
    else if key_eq r.key k
    then r ∷ receipts_in k es
    else receipts_in k es

-- The sums over the events are sums over those lists.
pub case_sum :
    (k : Key) (p : Case → ℕ) (es : List Event)
    → sum_of (case_part k p) es ≡ sum_of p (cases_in k es)
case_sum k p [] = refl
case_sum k p (compared c ∷ es) =
    (let rest = case_sum k p es in
      elim (Bool-cases (key_eq c.key k)) [
        | inl e ↦ ground (arith, rest)
        | inr e ↦ ground (arith, rest)
      ])
case_sum k p (enumerated r ∷ es) = omega (arith, case_sum k p es)

pub receipt_sum :
    (k : Key) (p : Receipt → ℕ) (es : List Event)
    → sum_of (receipt_part k p) es ≡ sum_of p (receipts_in k es)
receipt_sum k p [] = refl
receipt_sum k p (compared c ∷ es) = omega (arith, receipt_sum k p es)
receipt_sum k p (enumerated r ∷ es) =
    (let rest = receipt_sum k p es in
      elim (Bool-cases r.is_replay) [
        | inl b ↦ ground (arith, rest)
        | inr b ↦ elim (Bool-cases (key_eq r.key k)) [
          | inl e ↦ ground (arith, rest)
          | inr e ↦ ground (arith, rest)
        ]
      ])

-- After a run, a counter that cases add to is their sum, and likewise for receipts.
module _ (k : Key) (es : List Event) (g : Scope → ℕ) (start : g empty_scope ≡ 0) where
  pub case-counter :
      (p : Case → ℕ)
      → ((c : Case) (s : Scope) → g (scope_case c.status c.search s) ≡ g s + p c)
      → ((r : Receipt) (s : Scope) → g (scope_receipt r s) ≡ g s)
      → g (scope_at k (explore es unexplored).scopes) ≡ sum_of p (cases_in k es)
  unfolding scope_at
  case-counter p adds keeps = omega (
    arith,
    start,
    case_sum k p es,
    explore-counter k g (case_part k p) (case-step k g p adds keeps) es unexplored,
  )

  pub receipt-counter :
      (p : Receipt → ℕ)
      → ((c : Case) (s : Scope) → g (scope_case c.status c.search s) ≡ g s)
      → ((r : Receipt) (s : Scope) → g (scope_receipt r s) ≡ g s + p r)
      → g (scope_at k (explore es unexplored).scopes) ≡ sum_of p (receipts_in k es)
  unfolding scope_at
  receipt-counter p keeps adds = omega (
    arith,
    start,
    receipt_sum k p es,
    explore-counter k g (receipt_part k p) (receipt-step k g p keeps adds) es unexplored,
  )
