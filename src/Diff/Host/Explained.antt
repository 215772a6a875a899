-- ===== src/Diff/Host/Explained.antt =====
-- What `host_difference` of scripts/diff-report.py excuses.
use air2lean.Base.{
  ℕ, String, ◌≡◌, Option, some, true, List, [], ◌∷◌, All, arith, Option-cases, Bool-cases, inl, inr,
  ==-refl,
}
use mathlib.Core.Path.{subst}
use air2lean.Json.{Json}
use air2lean.Diff.Wire.{Wire, returned, fail, diverge, same_extras}
use air2lean.Diff.Floats.{HostKind, nan_payload, zero_sign, libm_ulp, leaf_host_kinds}
use air2lean.Diff.Host.{
  differing_leaves, host_index, allows, explaining, used_kinds, present, sorted_kinds,
  host_difference,
}

-- A pair of leaves is excused by a kind that is allowed and reported.
abbrev pub Explains : List HostKind → List HostKind → Json × Json → Type 0
Explains allowed used p =
    (k : HostKind) × (leaf_host_kinds p.0 p.1 ≡ some k)
    × (allows allowed k ≡ true)
    × (allows used k ≡ true)

-- The wire lines differ by the host only: two returned values with the same buffers and count of
-- live allocations, whose leaves differ somewhere, each differing pair excused.
pub data DiffersByHost (allowed used : List HostKind) : Wire → Wire → Type 0 where
  by_host :
      {v w : Json} {b c : Option (List String)} {l m : Option ℕ} {p : Json × Json}
      {ps : List (Json × Json)}
      → same_extras (returned v b l) (returned w c m) ≡ true
      → differing_leaves v w ≡ some (p ∷ ps)
      → All (Explains allowed used) (p ∷ ps)
      → DiffersByHost allowed used (returned v b l) (returned w c m)

allows-sorted_kinds :
    (ks : List HostKind) (k : HostKind) → allows ks k ≡ true → allows (sorted_kinds ks) k ≡ true
unfolding sorted_kinds present
allows-sorted_kinds ks libm_ulp h = ground arith
allows-sorted_kinds ks nan_payload h = ground arith
allows-sorted_kinds ks zero_sign h = ground arith

explaining-eq-some :
    (allowed : List HostKind) (p : Json × Json) (k : HostKind)
    → explaining allowed p ≡ some k
    → (leaf_host_kinds p.0 p.1 ≡ some k) × (allows allowed k ≡ true)
unfolding explaining
explaining-eq-some allowed p k h = ground arith

allows-first :
    (k : HostKind) (js ks : List HostKind)
    → ◌≡◌ {A = Option (List HostKind)} (some (k ∷ js)) (some ks)
    → allows ks k ≡ true
allows-first k js [] h = cc
allows-first k js (j ∷ ks) h =
    (let same_kind : k ≡ j = cc in ground (arith, ==-refl (host_index k), same_kind))

allows-later :
    (k j : HostKind) (js ks : List HostKind)
    → ◌≡◌ {A = Option (List HostKind)} (some (k ∷ js)) (some ks)
    → allows js j ≡ true
    → allows ks j ≡ true
allows-later k j js [] h a = cc
allows-later k j js (i ∷ ks) h a =
    (let same_rest : js ≡ ks = cc in
      let found : allows ks j ≡ true = subst (λ ws. allows ws j ≡ true) same_rest a in ground arith)

used_kinds-Explains :
    (allowed used : List HostKind) (ps : List (Json × Json)) (ks : List HostKind)
    → used_kinds allowed ps ≡ some ks
    → ((k : HostKind) → allows ks k ≡ true → allows used k ≡ true)
    → All (Explains allowed used) ps
unfolding used_kinds
used_kinds-Explains allowed used [] ks h up = tt
used_kinds-Explains allowed used (p ∷ ps) ks h up = elim (Option-cases (explaining allowed p)) [
  | inl e ↦ cc
  | inr (k, e) ↦ elim (Option-cases (used_kinds allowed ps)) [
    | inl r ↦ ground arith
    | inr (js, r) ↦
        (let parts : ◌≡◌ {A = Option (List HostKind)} (some (k ∷ js)) (some ks) = ground arith in
          let found = explaining-eq-some allowed p k e in
          (
            (k, found.0, found.1, up k (allows-first k js ks parts)),
            used_kinds-Explains allowed used ps js r (λ j h. up j (allows-later k j js ks parts h)),
          ))
  ]
]

some-injective : {A : Type 0} {a b : A} → ◌≡◌ {A = Option A} (some a) (some b) → a ≡ b
some-injective h = cc

-- A disagreement that `host_difference` excuses is between two returned values with the same
-- buffers and count of live allocations whose leaves differ somewhere, and each differing pair of
-- leaves is explained by a kind that is allowed and is reported.
pub host_difference-DiffersByHost :
    (native model : Wire) (allowed used : List HostKind)
    → host_difference native model allowed ≡ some used
    → DiffersByHost allowed used native model
unfolding host_difference
host_difference-DiffersByHost (returned v b l) (returned w c m) allowed used h =
    elim (Bool-cases (same_extras (returned v b l) (returned w c m))) [
      | inr x ↦ ground arith
      | inl x ↦ elim (Option-cases (differing_leaves v w)) [
        | inl d ↦ ground arith
        | inr ([], d) ↦ ground arith
        | inr (p ∷ ps, d) ↦ elim (Option-cases (used_kinds allowed (p ∷ ps))) [
          | inl r ↦ ground arith
          | inr (ks, r) ↦
              (let parts : sorted_kinds ks ≡ used = some-injective (ground arith) in
                by_host x d (
                  used_kinds-Explains allowed used (p ∷ ps) ks r
                    (λ k a. subst (λ ws. allows ws k ≡ true) parts (allows-sorted_kinds ks k a))))
        ]
      ]
    ]
host_difference-DiffersByHost (returned v b l) (fail s) allowed used h = cc
host_difference-DiffersByHost (returned v b l) diverge allowed used h = cc
host_difference-DiffersByHost (fail s) model allowed used h = cc
host_difference-DiffersByHost diverge model allowed used h = cc
