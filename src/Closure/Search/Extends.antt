-- ===== src/Closure/Search/Extends.antt =====
-- What the body of the search of scripts/dependency-closure.py adds to the visited names: exactly the
-- dependencies of the function at the cursor.
use air2lean.Base.{
  String, Option, none, some, Bool, true, List, [], ◌∷◌, ◌++◌, ◌≡◌, refl, sym, ap, ◌∙◌, str_eq,
  eq_iff, if◌then◌else◌, arith, ◌⊎◌, inl, inr, ◌||◌, Bool-cases,
}
use air2lean.Json.{listed}
use air2lean.Closure.{Instruction, Inputs, Class, exported, is_exported}
use air2lean.Closure.State.{State, class_of, classify}
use air2lean.Closure.Visit.{visit}
use air2lean.Closure.Search.Visits.{entered_class, visit-class_of, visit-pending, visit-finished}

-- The name is visited.
abbrev pub Visited : String → State → Type 0
Visited j s = (x : Class) × (class_of j s ≡ some x)

-- The search came from `s` to `t` and visited the names that `P` holds of, and no other name. A visited name
-- keeps its class; a name that is exported is queued when it is first visited.
pub record Extends (c : Inputs) (P : String → Type 0) (s t : State) : Type 0 where
  pub grows : (j : String) (x : Class) → class_of j s ≡ some x → class_of j t ≡ some x
  pub only :
      (j : String) (x : Class)
      → class_of j t ≡ some x
      → (class_of j s ≡ some x) ⊎ (P j × (panic : Bool) × (x ≡ (classify c j panic).0))
  pub covers : (j : String) → P j → Visited j t
  pub kept : (j : String) → listed j s.pending ≡ true → listed j t.pending ≡ true
  pub queued :
      (j : String)
      → listed j t.pending ≡ true
      → (listed j s.pending ≡ true) ⊎ (class_of j t ≡ some exported)
  pub found :
      (j : String)
      → class_of j t ≡ some exported
      → (class_of j s ≡ some exported) ⊎ (listed j t.pending ≡ true)
  pub same_finished : t.finished ≡ s.finished

pub listed-append :
    (j k : String) (xs : List String) → listed j (xs ++ k ∷ []) ≡ (listed j xs || str_eq k j)
unfolding listed
listed-append j k [] = ground arith
listed-append j k (x ∷ xs) = ground (arith, listed-append j k xs)

entered-only :
    (c : Inputs) (k : String) (panic : Bool) (j : String) (o : Option Class) (x : Class)
    → entered_class c k panic j o ≡ some x
    → (o ≡ some x) ⊎ ((j ≡ k) × (x ≡ (classify c j panic).0))
entered-only c k panic j (some y) x h = inl h
entered-only c k panic j none x h = elim (Bool-cases (str_eq k j)) [
  | inr e ↦ absurd (ground arith)
  | inl e ↦
      (let same_name : j ≡ k = sym ((eq_iff k j).0 e) in
        inr (same_name, ground (arith, ap (λ n. (classify c n panic).0) same_name)))
]

entered-covers :
    (c : Inputs) (k : String) (panic : Bool) (o : Option Class)
    → (x : Class) × (entered_class c k panic k o ≡ some x)
entered-covers c k panic (some y) = (y, refl)
entered-covers c k panic none = ((classify c k panic).0, ground (arith, eq_iff k k))

is_exported-eq : (x : Class) → is_exported x ≡ true → x ≡ exported
is_exported-eq x h = ground arith

-- The name that is entered is queued exactly when it is exported.
entered-queue :
    (c : Inputs) (k : String) (panic : Bool) (pending later : List String) (o : Option Class)
    → later ≡ (elim o [
      | some x ↦ pending
      | none ↦ if is_exported (classify c k panic).0 then pending ++ k ∷ [] else pending
    ])
    → (j : String) (p : Option Class) → ((j ≡ k) → p ≡ o)
    → (listed j later ≡ true
        → (listed j pending ≡ true) ⊎ (entered_class c k panic j p ≡ some exported))
      × (entered_class c k panic j p ≡ some exported
          → (p ≡ some exported) ⊎ (listed j later ≡ true))
entered-queue c k panic pending later (some x) e j (some y) same =
    (λ h. inl (sym (ap (listed j) e) ∙ h), λ h. inl h)
entered-queue c k panic pending later (some x) e j none same =
    (λ h. inl (sym (ap (listed j) e) ∙ h), λ h. ground (arith, eq_iff k j, same))
entered-queue c k panic pending later none e j (some y) same =
    (λ h. inl (ground (arith, eq_iff k j, same, listed-append j k pending)), λ h. inl h)
entered-queue c k panic pending later none e j none same =
    elim (Bool-cases (is_exported (classify c k panic).0)) [
      | inl g ↦ (
        λ h.
            ground (
              arith,
              eq_iff k j,
              listed-append j k pending,
              is_exported-eq (classify c k panic).0 g,
            ),
        λ h. ground (arith, eq_iff k j, listed-append j k pending),
      )
      | inr g ↦ (λ h. ground arith, λ h. ground (arith))
    ]

module _ (c : Inputs) where
  pub visit-Extends :
      (caller : Option String) (name edge : String) (i : Instruction) (panic : Bool) (s : State)
      → Extends c (λ j. j ≡ c.key name) s (visit c caller name edge i panic s)
  visit-Extends caller name edge i panic s = record {
    grows = λ j x h. ground (arith, visit-class_of c caller name edge i panic j s);
    only = λ j x h.
        elim (entered-only c (c.key name) panic j (class_of j s) x
          (sym (visit-class_of c caller name edge i panic j s) ∙ h)) [
            | inl g ↦ inl g
            | inr (g, r) ↦ inr (g, panic, r)
          ];
    covers = λ j h.
        (let (x, g) = entered-covers c (c.key name) panic (class_of (c.key name) s) in
          (
            x,
            ap (λ n. class_of n (visit c caller name edge i panic s)) h
                ∙ visit-class_of c caller name edge i panic (c.key name) s
                ∙ g,
          ));
    kept = λ j h.
        ground (
          arith,
          visit-pending c caller name edge i panic s,
          listed-append j (c.key name) s.pending,
        );
    queued = λ j h.
        elim ((entered-queue c (c.key name) panic s.pending
            (visit c caller name edge i panic s).pending (class_of (c.key name) s)
            (visit-pending c caller name edge i panic s) j (class_of j s)
            (ap (λ n. class_of n s))).0
          h) [ inl g ↦ inl g | inr g ↦ inr (visit-class_of c caller name edge i panic j s ∙ g) ];
    found = λ j h.
        (entered-queue c (c.key name) panic s.pending (visit c caller name edge i panic s).pending
            (class_of (c.key name) s) (visit-pending c caller name edge i panic s) j (class_of j s)
            (ap (λ n. class_of n s))).1
          (sym (visit-class_of c caller name edge i panic j s) ∙ h);
    same_finished = visit-finished c caller name edge i panic s;
  }

  -- A step that visits nothing.
  pub same-Extends :
      (P : String → Type 0)
      → ((j : String) → ¬ P j)
      → (s t : State) → ((j : String) → class_of j t ≡ class_of j s)
      → t.pending ≡ s.pending
      → t.finished ≡ s.finished
      → Extends c P s t
  same-Extends P never s t classes pending finished = record {
    grows = λ j x h. classes j ∙ h;
    only = λ j x h. inl (sym (classes j) ∙ h);
    covers = λ j h. absurd (never j h);
    kept = λ j h. ap (listed j) pending ∙ h;
    queued = λ j h. inl (sym (ap (listed j) pending) ∙ h);
    found = λ j h. inl (sym (classes j) ∙ h);
    same_finished = finished;
  }

  pub then-Extends :
      {P Q R : String → Type 0} {s t u : State}
      → Extends c P s t
      → Extends c Q t u
      → ((j : String) → P j ⊎ Q j → R j)
      → ((j : String) → R j → P j ⊎ Q j)
      → Extends c R s u
  then-Extends {P} {Q} {R} {s} {t} {u} e f to from = record {
    grows = λ j x h. f.grows j x (e.grows j x h);
    only = λ j x h. elim (f.only j x h) [
      | inr (q, b, r) ↦ inr (to j (inr q), b, r)
      | inl g ↦ elim (e.only j x g) [ inr (p, b, r) ↦ inr (to j (inl p), b, r) | inl k ↦ inl k ]
    ];
    covers = λ j h. elim (from j h) [
      | inr q ↦ f.covers j q
      | inl p ↦ (let (x, g) = e.covers j p in (x, f.grows j x g))
    ];
    kept = λ j h. f.kept j (e.kept j h);
    queued = λ j h. elim (f.queued j h) [
      | inr g ↦ inr g
      | inl g ↦ elim (e.queued j g) [ inl k ↦ inl k | inr k ↦ inr (f.grows j exported k) ]
    ];
    found = λ j h. elim (f.found j h) [
      | inr g ↦ inr g
      | inl g ↦ elim (e.found j g) [ inl k ↦ inl k | inr k ↦ inr (f.kept j k) ]
    ];
    same_finished = f.same_finished ∙ e.same_finished;
  }
