-- ===== src/Fingerprints/Digest/Total.antt =====
-- `fingerprints` of scripts/semantic-fingerprints.py raises no `KeyError`: callees come first.
use air2lean.Base.{
  ℕ, ◌≤◌, ◌<◌, ◌+◌, ◌≡◌, refl, sym, ◌∙◌, String, some, Bool, true, false, List, [], ◌∷◌, ◌++◌, ◌⊎◌,
  inl, inr, as_count, length, map, arith, Bool-cases,
}
use air2lean.Base.Result.{ok, traverse}
use air2lean.Json.{listed}
use air2lean.Diff.Config.{has_key}
use air2lean.Closure.Names.{sorted_set}
use air2lean.Closure.Names.Prefixes.{listed-sorted_set}
use air2lean.Fingerprints.Calls.{
  call_components, call_components_once, call_components_callees_first,
}
use air2lean.Fingerprints.Components.Stack.{count, listed-count}
use air2lean.Fingerprints.Components.Step.{placed}
use air2lean.Fingerprints.Components.Reach.{rank, rank-placed}
use air2lean.Fingerprints.Digest.{
  Function, SourceMap, Member, Payload, group, Finger, calls_of, edges_of, member_of, edges_out,
  callee_of, component_of, finger_of, add_groups, fingerprints,
}
use air2lean.Fingerprints.Digest.Keyed.{has_key-append_list}
use air2lean.Fingerprints.Digest.Returns.{
  edges_out-source, member_returns, callees_return, fingers_return,
}
use air2lean.Fingerprints.Digest.Groups.{Room, entries_keys, keys_grow}

module _ {H V : Type 0} (digest : Payload H V → H) (doc : SourceMap V) where
  -- The callees of what comes next have an entry or come no later.
  abbrev Ahead : List (List String) → List (String × Finger H V) → Type 0
  Ahead order result =
      (x y : String)
      → rank x order < length order
      → listed y (edges_of digest doc x) ≡ true
      → (has_key y result ≡ true) ⊎ (rank y order ≤ rank x order)

  abbrev Recorded : List (List String) → Type 0
  Recorded order = (x : String) → 1 ≤ placed x order → has_key x doc.functions ≡ true

  -- The callees outside the first component have an entry.
  outside_ready :
      (inside : List String) (order : List (List String)) (result : List (String × Finger H V))
      → Ahead (inside ∷ order) result
      → (c : String) → listed c (sorted_set (edges_out digest doc inside inside)) ≡ true
      → has_key c result ≡ true
  unfolding rank
  outside_ready inside order result ahead c l =
      (let (m, m_in, e, out) =
          edges_out-source digest doc inside inside c
            (sym (listed-sorted_set c (edges_out digest doc inside inside)) ∙ l) in
        elim (ahead m c (ground (arith, m_in)) e) [
          | inl ready ↦ ready
          | inr early ↦ absurd (ground (arith, early, m_in, out))
        ])

  next-Ahead :
      (inside : List String) (order : List (List String))
      (result entries : List (String × Finger H V)) (component : H)
      → Room digest doc (inside ∷ order) result
      → traverse (finger_of digest doc inside component) inside ≡ ok entries
      → Ahead (inside ∷ order) result
      → Ahead order (result ++ entries)
  unfolding rank placed
  next-Ahead inside order result entries component room built ahead x y h e =
      (let once = rank-placed x order h in
        let x_out : listed x inside ≡ false =
          apart (listed x inside) (count x inside) (placed x order) (as_count (has_key x result))
            (listed-count x inside) once (room x) in
        let grown = has_key-append_list y result entries in
        let added = entries_keys digest doc inside component entries y built in
        elim (ahead x y (ground (arith, x_out, h)) e) [
          | inl ready ↦ inl (ground (arith, grown, ready))
          | inr early ↦ elim (Bool-cases (listed y inside)) [
            | inl here ↦ inl (ground (arith, grown, added, here))
            | inr gone ↦ inr (ground (arith, early, x_out, gone))
          ]
        ])
    where
      apart : (b : Bool) (n m k : ℕ) → (b ≡ true → 1 ≤ n) → 1 ≤ m → k + (n + m) ≤ 1 → b ≡ false
      apart true n m k f p q = absurd (omega (arith, f refl, p, q))
      apart false n m k f p q = refl

  in_first :
      (x : String) (inside : List String) (order : List (List String))
      → listed x inside ≡ true
      → 1 ≤ placed x (inside ∷ order)
  unfolding placed
  in_first x inside order l = omega (arith, listed-count x inside l)

  in_rest :
      (x : String) (inside : List String) (order : List (List String))
      → 1 ≤ placed x order
      → 1 ≤ placed x (inside ∷ order)
  unfolding placed
  in_rest x inside order p = omega (arith, p)

  add_groups-eq-ok :
      (inside : List String) (order : List (List String))
      (result entries final : List (String × Finger H V)) (ms : List (Member H))
      (cs : List (String × H))
      → traverse (member_of digest doc inside) inside ≡ ok ms
      → traverse (callee_of digest result) (sorted_set (edges_out digest doc inside inside)) ≡ ok cs
      → traverse (finger_of digest doc inside (digest (group ms cs))) inside ≡ ok entries
      → add_groups digest doc order (result ++ entries) ≡ ok final
      → add_groups digest doc (inside ∷ order) result ≡ ok final
  unfolding add_groups component_of
  add_groups-eq-ok inside order result entries final ms cs made outs built done =
      ground (arith, made, outs, built, done)

  groups_return :
      (order : List (List String)) (result : List (String × Finger H V))
      → Room digest doc order result
      → Recorded order
      → Ahead order result
      → (final : List (String × Finger H V)) × (add_groups digest doc order result ≡ ok final)
        × ((c : String) → as_count (has_key c final) ≡ as_count (has_key c result) + placed c order)
  unfolding add_groups placed
  groups_return [] result room recorded ahead = (result, refl, λ c. omega arith)
  groups_return (inside ∷ order) result room recorded ahead =
      (let known =
          λ (x : String) (l : listed x inside ≡ true). recorded x (in_first x inside order l) in
        let (ms, made) = member_returns digest doc inside known in
        let (cs, outs) =
          callees_return digest doc inside result (outside_ready inside order result ahead) in
        let component = digest (group ms cs) in
        let (entries, built) = fingers_return digest doc inside component known in
        let (final, done, keys) =
          groups_return order (result ++ entries)
            (λ c.
              let grown = keys_grow digest doc inside order result component entries room built c in
              omega (arith, grown, room c))
            (λ x p. recorded x (in_rest x inside order p))
            (next-Ahead inside order result entries component room built ahead) in
        (
          final,
          add_groups-eq-ok inside order result entries final ms cs made outs built done,
          λ c. keys c ∙ keys_grow digest doc inside order result component entries room built c,
        ))

  has_key-calls :
      (x : String) (fs : List (String × Function V))
      → has_key x (map (λ f. (f.0, f.1.callees)) fs) ≡ has_key x fs
  unfolding has_key
  has_key-calls x [] = refl
  has_key-calls x ((s, f) ∷ fs) = ground (arith, has_key-calls x fs)

  -- `fingerprints` returns, and has an entry for the sources of the functions and for no other.
  pub fingerprints_return :
      (result : List (String × Finger H V)) × (fingerprints digest doc ≡ ok result)
      × ((c : String) → has_key c result ≡ has_key c doc.functions)
  unfolding fingerprints has_key
  fingerprints_return =
      (let calls = calls_of digest doc in
        let (order, found, once) = call_components_once calls in
        let known = λ (c : String). has_key-calls c doc.functions in
        let (result, done, keys) =
          groups_return order [] (λ c. let one = once c in ground (arith, one))
            (λ x p. let one = once x in ground (arith, known x, one, p))
            (λ x y h e.
              let one = once x in
              let key : has_key x calls ≡ true = ground (arith, one, rank-placed x order h) in
              inr (call_components_callees_first calls order x y found key e).0) in
        (
          result,
          returned order result found done,
          λ c. let one = once c in let k = keys c in ground (arith, known c, k, one),
        ))
    where
      returned :
          (order : List (List String)) (result : List (String × Finger H V))
          → call_components (calls_of digest doc) ≡ some order
          → add_groups digest doc order [] ≡ ok result
          → fingerprints digest doc ≡ ok result
      returned order result found done = ground (arith, found, done)
