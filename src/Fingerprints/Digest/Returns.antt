-- ===== src/Fingerprints/Digest/Returns.antt =====
-- The comprehensions of `fingerprints` in scripts/semantic-fingerprints.py raise nothing where the keys are
-- there.
use air2lean.Base.{
  ◌≡◌, refl, String, Bool, true, false, not, List, [], ◌∷◌, inl, inr, eq_iff, arith, Bool-cases,
  All,
}
use air2lean.Base.Result.{ok, traverse, >>=-returns, traverse-returns}
use air2lean.Json.{listed}
use air2lean.Diff.Config.{has_key}
use air2lean.Closure.Names.{sorted_set, keep_if}
use air2lean.Closure.Names.Prefixes.{listed-append, listed-keep_if_source}
use air2lean.Fingerprints.Calls.{listed-kept}
use air2lean.Fingerprints.Digest.{
  SourceMap, Member, Payload, Finger, at_key, edges_of, member_of, edges_out, callee_of, finger_of,
}
use air2lean.Fingerprints.Digest.Keyed.{has_key-value_of}

All-of :
    (P : String → Type 0) (xs : List String) → ((x : String) → listed x xs ≡ true → P x) → All P xs
unfolding listed
All-of P [] h = tt
All-of P (x ∷ xs) h =
    (h x (ground (arith, (eq_iff x x).1 refl)), All-of P xs (λ y l. h y (ground (arith, l))))

at_key-returns :
    {A : Type 0} (k : String) (d : List (String × A))
    → has_key k d ≡ true
    → (v : A) × (at_key k d ≡ ok v)
unfolding at_key
at_key-returns k d h = (let (v, there) = has_key-value_of k d h in (v, ground (arith, there)))

module _ {H V : Type 0} (digest : Payload H V → H) (doc : SourceMap V) where
  -- What stands outside is a callee of a member.
  pub edges_out-source :
      (inside ms : List String) (c : String)
      → listed c (edges_out digest doc inside ms) ≡ true
      → (m : String) × (listed m ms ≡ true)
        × (listed c (edges_of digest doc m) ≡ true)
        × (listed c inside ≡ false)
  unfolding edges_out listed
  edges_out-source inside [] c h = absurd cc
  edges_out-source inside (n ∷ ms) c h =
      (let out = keep_if (λ c. not (listed c inside)) (edges_of digest doc n) in
        let joined = listed-append c out (edges_out digest doc inside ms) in
        elim (Bool-cases (listed c out)) [
          | inl here ↦ (
            n,
            ground (arith, (eq_iff n n).1 refl),
            listed-keep_if_source (λ c. not (listed c inside)) c (edges_of digest doc n) here,
            negated (listed c inside)
                (listed-kept (λ c. not (listed c inside)) c (edges_of digest doc n) here),
          )
          | inr gone ↦
              (let (m, l, e, o) = edges_out-source inside ms c (ground (arith, joined, gone, h)) in
                (m, ground (arith, l), e, o))
        ])
    where
      negated : (b : Bool) → not b ≡ true → b ≡ false
      negated true h = cc
      negated false h = refl

  pub member_returns :
      (inside : List String)
      → ((x : String) → listed x inside ≡ true → has_key x doc.functions ≡ true)
      → (ms : List (Member H)) × (traverse (member_of digest doc inside) inside ≡ ok ms)
  unfolding member_of
  member_returns inside recorded = traverse-returns (member_of digest doc inside) inside (
      All-of (λ x. (y : Member H) × (member_of digest doc inside x ≡ ok y)) inside
        (λ x l.
          let (f, e) = at_key-returns x doc.functions (recorded x l) in
          >>=-returns (at_key x doc.functions) _ f e (_, refl)))

  pub callees_return :
      (inside : List String) (result : List (String × Finger H V))
      → ((c : String)
          → listed c (sorted_set (edges_out digest doc inside inside)) ≡ true
          → has_key c result ≡ true)
      → (cs : List (String × H)) × (traverse
            (callee_of digest result)
            (sorted_set (edges_out digest doc inside inside))
          ≡ ok cs)
  unfolding callee_of
  callees_return inside result ahead =
      traverse-returns (callee_of digest result) (sorted_set (edges_out digest doc inside inside)) (
        All-of (λ c. (y : String × H) × (callee_of digest result c ≡ ok y))
          (sorted_set (edges_out digest doc inside inside))
          (λ c l.
            let (e, found) = at_key-returns c result (ahead c l) in
            >>=-returns (at_key c result) _ e found (_, refl)))

  pub fingers_return :
      (inside : List String) (component : H)
      → ((x : String) → listed x inside ≡ true → has_key x doc.functions ≡ true)
      → (entries : List (String × Finger H V)) × (traverse
            (finger_of digest doc inside component)
            inside
          ≡ ok entries)
  unfolding finger_of
  fingers_return inside component recorded =
      traverse-returns (finger_of digest doc inside component) inside (
        All-of (λ x. (y : String × Finger H V) × (finger_of digest doc inside component x ≡ ok y))
          inside
          (λ x l.
            let (f, e) = at_key-returns x doc.functions (recorded x l) in
            >>=-returns (at_key x doc.functions) _ f e (_, refl)))
