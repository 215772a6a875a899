-- ===== src/Fingerprints/Digest/Keyed.antt =====
-- Lookups in what `fingerprints` of scripts/semantic-fingerprints.py builds by comprehensions over sources.
use air2lean.Base.{
  ◌≡◌, refl, sym, ap, ◌∙◌, String, some, Option-cases, true, false, ◌||◌, List, [], ◌∷◌, ◌++◌, inl,
  inr, str_eq, eq_iff, arith, Bool-cases, subst,
}
use air2lean.Base.Result.{Result, ok, traverse, >>=-eq-ok, ok-injective}
use air2lean.Json.{listed}
use air2lean.Diff.Config.{has_key}
use air2lean.Closure.{value_of}
use air2lean.Fingerprints.Digest.{Stuck, at_key}

pub at_key-eq-ok :
    {A : Type 0} (k : String) (d : List (String × A)) (v : A)
    → at_key k d ≡ ok v
    → value_of k d ≡ some v
unfolding at_key
at_key-eq-ok k d v h = elim (Option-cases (value_of k d)) [
  | inl gone ↦ absurd (ground (arith, gone, h))
  | inr (w, there) ↦ (let same : w ≡ v = ground (arith, there, h) in there ∙ ap some same)
]

pub value_of-append_old :
    {A : Type 0} (k : String) (v : A) (xs ys : List (String × A))
    → value_of k xs ≡ some v
    → value_of k (xs ++ ys) ≡ some v
unfolding value_of
value_of-append_old k v [] ys h = cc
value_of-append_old k v ((j, w) ∷ xs) ys h = elim (Bool-cases (str_eq j k)) [
  | inl e ↦ ground (arith, e, h)
  | inr e ↦ ground (arith, e, value_of-append_old k v xs ys (ground (arith, e, h)))
]

pub value_of-append_new :
    {A : Type 0} (k : String) (xs ys : List (String × A))
    → has_key k xs ≡ false
    → value_of k (xs ++ ys) ≡ value_of k ys
unfolding value_of has_key
value_of-append_new k [] ys h = refl
value_of-append_new k ((j, w) ∷ xs) ys h = ground (arith, value_of-append_new k xs ys, h)

pub value_of-has_key :
    {A : Type 0} (k : String) (v : A) (xs : List (String × A))
    → value_of k xs ≡ some v
    → has_key k xs ≡ true
unfolding value_of has_key
value_of-has_key k v [] h = cc
value_of-has_key k v ((j, w) ∷ xs) h = elim (Bool-cases (str_eq j k)) [
  | inl e ↦ ground (arith, e)
  | inr e ↦ ground (arith, e, value_of-has_key k v xs (ground (arith, e, h)))
]

pub has_key-value_of :
    {A : Type 0} (k : String) (xs : List (String × A))
    → has_key k xs ≡ true
    → (v : A) × (value_of k xs ≡ some v)
unfolding value_of has_key
has_key-value_of k [] h = absurd cc
has_key-value_of k ((j, w) ∷ xs) h = elim (Bool-cases (str_eq j k)) [
  | inl e ↦ (w, ground (arith, e))
  | inr e ↦
      (let (v, there) = has_key-value_of k xs (ground (arith, e, h)) in
        (v, ground (arith, e, there)))
]

pub has_key-append_list :
    {A : Type 0} (k : String) (xs ys : List (String × A))
    → has_key k (xs ++ ys) ≡ (has_key k xs || has_key k ys)
unfolding has_key
has_key-append_list k [] ys = refl
has_key-append_list k ((j, w) ∷ xs) ys = ground (arith, has_key-append_list k xs ys)

-- Each result is under the element that it was made of.
module _ {A : Type 0} (f : String → Result Stuck (String × A))
    (keyed : (x : String) (y : String × A) → f x ≡ ok y → y.0 ≡ x) where
  pub keyed-value :
      (xs : List String) (ys : List (String × A)) (s : String)
      → traverse f xs ≡ ok ys
      → listed s xs ≡ true
      → (a : A) × (value_of s ys ≡ some a) × (f s ≡ ok (s, a))
  unfolding traverse listed value_of
  keyed-value [] ys s h l = absurd cc
  keyed-value (x ∷ xs) ys s h l =
      (let (y, e, h1) = >>=-eq-ok (f x) _ h in
        let (zs, t, h2) = >>=-eq-ok (traverse f xs) _ h1 in
        let same : y ∷ zs ≡ ys = ok-injective h2 in
        let key = keyed x y e in
        subst (λ l. (a : A) × (value_of s l ≡ some a) × (f s ≡ ok (s, a))) same
          (elim (Bool-cases (str_eq y.0 s)) [
            | inl here ↦
                (let at = (eq_iff y.0 s).0 here in
                  (y.1, ground (arith, here), ap f (sym at ∙ key) ∙ e ∙ ap (λ z. ok (z, y.1)) at))
            | inr other ↦
                (let (a, v, r) = keyed-value xs zs s t (further x xs s y.0 key other l) in
                  (a, ground (arith, other, v), r))
          ]))
    where
      further :
          (x : String) (xs : List String) (s k : String)
          → k ≡ x
          → str_eq k s ≡ false
          → listed s (x ∷ xs) ≡ true
          → listed s xs ≡ true
      further x xs s k e n m =
          (let differ : str_eq x s ≡ false = sym (ap (λ z. str_eq z s) e) ∙ n in
            ground (arith, differ, m))

  pub keyed-listed :
      (xs : List String) (ys : List (String × A)) (s : String)
      → traverse f xs ≡ ok ys
      → has_key s ys ≡ listed s xs
  unfolding traverse listed has_key
  keyed-listed [] ys s h = (let same : [] ≡ ys = ok-injective h in sym (ap (has_key s) same))
  keyed-listed (x ∷ xs) ys s h =
      (let (y, e, h1) = >>=-eq-ok (f x) _ h in
        let (zs, t, h2) = >>=-eq-ok (traverse f xs) _ h1 in
        let same : y ∷ zs ≡ ys = ok-injective h2 in
        let key : str_eq y.0 s ≡ str_eq x s = ap (λ z. str_eq z s) (keyed x y e) in
        sym (ap (has_key s) same) ∙ ground (arith, key, keyed-listed xs zs s t))
