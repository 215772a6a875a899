-- ===== src/Fingerprints/Digest/Groups.antt =====
-- The loop of `fingerprints` in scripts/semantic-fingerprints.py over the components.
use air2lean.Base.{
  ◌≤◌, ◌+◌, ◌≡◌, sym, ap, ◌∙◌, String, Option, some, true, false, List, [], ◌∷◌, ◌++◌, inl, inr,
  as_count, arith, Bool-cases, subst,
}
use air2lean.Base.Result.{ok, traverse, >>=-eq-ok, ok-injective}
use air2lean.Json.{listed}
use air2lean.Diff.Config.{has_key}
use air2lean.Closure.Names.{sorted_set}
use air2lean.Fingerprints.Components.Stack.{listed-count}
use air2lean.Fingerprints.Components.Step.{placed}
use air2lean.Fingerprints.Components.Linked.Pop.{not_counted}
use air2lean.Fingerprints.Digest.{
  SourceMap, Member, Payload, group, Finger, member_of, edges_out, callee_of, component_of,
  finger_of, add_groups,
}
use air2lean.Fingerprints.Digest.Keyed.{
  value_of-append_old, value_of-append_new, value_of-has_key, has_key-value_of, has_key-append_list,
  keyed-listed,
}
use air2lean.Fingerprints.Digest.Explained.{
  Explained, AllExplained, Explained-append, finger_key, member-Has, entry-Explained,
}

module _ {H V : Type 0} (digest : Payload H V → H) (doc : SourceMap V) where
  -- No source is in two components, or in one and in the result.
  abbrev pub Room : List (List String) → List (String × Finger H V) → Type 0
  Room order result = (c : String) → as_count (has_key c result) + placed c order ≤ 1

  pub Room-fresh :
      (inside : List String) (order : List (List String)) (result : List (String × Finger H V))
      → Room (inside ∷ order) result
      → (c : String) → listed c inside ≡ true
      → has_key c result ≡ false
  unfolding placed
  Room-fresh inside order result room c l = ground (arith, room c, listed-count c inside l)

  pub entries_keys :
      (inside : List String) (component : H) (entries : List (String × Finger H V)) (c : String)
      → traverse (finger_of digest doc inside component) inside ≡ ok entries
      → has_key c entries ≡ listed c inside
  entries_keys inside component entries c h =
      keyed-listed (finger_of digest doc inside component) (finger_key digest doc inside component)
        inside entries c h

  -- What a component adds to the keys.
  pub keys_grow :
      (inside : List String) (order : List (List String)) (result : List (String × Finger H V))
      (component : H) (entries : List (String × Finger H V))
      → Room (inside ∷ order) result
      → traverse (finger_of digest doc inside component) inside ≡ ok entries
      → (c : String)
      → as_count (has_key c (result ++ entries)) + placed c order
        ≡ as_count (has_key c result) + placed c (inside ∷ order)
  unfolding placed
  keys_grow inside order result component entries room h c = ground (
    arith,
    room c,
    has_key-append_list c result entries,
    entries_keys inside component entries c h,
    listed-count c inside,
    not_counted c inside,
  )

  -- What a component adds is explained too.
  grown-AllExplained :
      (inside : List String) (result entries : List (String × Finger H V)) (ms : List (Member H))
      (cs : List (String × H))
      → ((c : String) → listed c inside ≡ true → has_key c result ≡ false)
      → traverse (member_of digest doc inside) inside ≡ ok ms
      → traverse (callee_of digest result) (sorted_set (edges_out digest doc inside inside)) ≡ ok cs
      → traverse (finger_of digest doc inside (digest (group ms cs))) inside ≡ ok entries
      → AllExplained digest doc result
      → AllExplained digest doc (result ++ entries)
  grown-AllExplained inside result entries ms cs fresh made outs built all s e at =
      elim (Bool-cases (has_key s result)) [
        | inl old ↦
            (let (v, there) = has_key-value_of s result old in
              let same : v ≡ e = one_value (value_of-append_old s v result entries there) at in
              subst (λ z. Explained digest doc (result ++ entries) s z.fingerprint) same
                (Explained-append digest doc result entries s v.fingerprint (all s v there)))
        | inr new ↦
            (let here = sym (value_of-append_new s result entries new) ∙ at in
              let l =
                sym (entries_keys inside (digest (group ms cs)) entries s built)
                ∙ value_of-has_key s e entries here in
              let (v, there, is) =
                member-Has digest doc inside result entries ms cs fresh made outs built s l in
              let same : v ≡ e = one_value there at in
              subst (Explained digest doc (result ++ entries) s)
                (sym is ∙ ap (λ z. z.fingerprint) same)
                (entry-Explained digest doc inside result entries ms cs fresh made outs built s l))
      ]
    where
      one_value : {o : Option (Finger H V)} {v e : Finger H V} → o ≡ some v → o ≡ some e → v ≡ e
      one_value p q = cc

  pub groups-Explained :
      (order : List (List String)) (result final : List (String × Finger H V))
      → Room order result
      → AllExplained digest doc result
      → add_groups digest doc order result ≡ ok final
      → AllExplained digest doc final
  unfolding add_groups component_of placed
  groups-Explained [] result final room all h = subst (AllExplained digest doc) (ok-injective h) all
  groups-Explained (inside ∷ order) result final room all h =
      (let (component, e, h1) = >>=-eq-ok (component_of digest doc inside result) _ h in
        let (entries, built, h2) =
          >>=-eq-ok (traverse (finger_of digest doc inside component) inside) _ h1 in
        let (ms, made, e1) = >>=-eq-ok (traverse (member_of digest doc inside) inside) _ e in
        let (cs, outs, e2) =
          >>=-eq-ok
            (traverse (callee_of digest result) (sorted_set (edges_out digest doc inside inside))) _
            e1 in
        let same : digest (group ms cs) ≡ component = ok-injective e2 in
        let built2 : traverse (finger_of digest doc inside (digest (group ms cs))) inside
            ≡ ok entries =
          subst (λ d. traverse (finger_of digest doc inside d) inside ≡ ok entries) (sym same)
            built in
        let fresh = Room-fresh inside order result room in
        groups-Explained order (result ++ entries) final
          (λ c.
            let grown = keys_grow inside order result component entries room built c in
            omega (arith, grown, room c))
          (grown-AllExplained inside result entries ms cs fresh made outs built2 all) h2)
