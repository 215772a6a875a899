-- ===== src/Fingerprints/Digest/Agree.antt =====
-- What equal fingerprints in two runs of `fingerprints` of scripts/semantic-fingerprints.py mean.
use air2lean.Base.{
  ◌≡◌, refl, sym, ap, ◌∙◌, String, Option, some, true, List, [], inl, inr, arith, subst,
}
use air2lean.Base.Result.{ok}
use air2lean.Json.{listed}
use air2lean.Diff.Config.{has_key}
use air2lean.Closure.{value_of}
use air2lean.Fingerprints.Calls.{call_components_once}
use air2lean.Fingerprints.Components.Reach.{Reaches, stay, hop}
use air2lean.Fingerprints.Digest.{
  Function, SourceMap, Member, Payload, context, body, group, labelled, Finger, calls_of, edges_of,
  local_of, fingerprints,
}
use air2lean.Fingerprints.Digest.Explained.{Has, Explained, AllExplained}
use air2lean.Fingerprints.Digest.Groups.{groups-Explained}

-- Digests of different dicts differ.
abbrev pub Injective : {H V : Type 0} → (Payload H V → H) → Type 0
Injective {H} {V} digest = (p q : Payload H V) → digest p ≡ digest q → p ≡ q

-- Both sidecars have the function, with one body, under one profile.
pub record SameInput (V : Type 0) (old new : SourceMap V) (x : String) : Type 0 where
  pub before : Function V
  pub after : Function V
  pub before_at : value_of x old.functions ≡ some before
  pub after_at : value_of x new.functions ≡ some after
  pub canonical : before.canonical ≡ after.canonical
  pub metadata : old.metadata ≡ new.metadata
  pub options : old.options ≡ new.options
  pub translator : old.translator ≡ new.translator
  pub runtime : old.runtime ≡ new.runtime

module _ {H V : Type 0} (digest : Payload H V → H) where
  pub fingerprints-Explained :
      (doc : SourceMap V) (result : List (String × Finger H V))
      → fingerprints digest doc ≡ ok result
      → AllExplained digest doc result
  unfolding fingerprints has_key value_of
  fingerprints-Explained doc result h =
      (let (order, found, once) = call_components_once (calls_of digest doc) in
        groups-Explained digest doc order [] result (λ c. let one = once c in ground (arith, one))
          (λ s e at. absurd cc) (ground (arith, found, h)))

  module _ (injective : Injective digest) (old new : SourceMap V)
      (before after : List (String × Finger H V)) (old_all : AllExplained digest old before)
      (new_all : AllExplained digest new after) where
    -- The source has one fingerprint in both.
    record Match (x : String) : Type 0 where
      pub h : H
      pub old_has : Has digest old before x h
      pub new_has : Has digest new after x h

    abbrev Sides : String → H → Type 0
    Sides x h = Explained digest old before x h × Explained digest new after x h

    sides : (x : String) (m : Match x) → Sides x m.h
    sides x m =
        (let (a, at, is) = m.old_has in
          let (b, bt, is2) = m.new_has in
          (
            subst (Explained digest old before x) is (old_all x a at),
            subst (Explained digest new after x) is2 (new_all x b bt),
          ))

    same_group :
        (x : String) (h : H) (p : Explained digest old before x h)
        (q : Explained digest new after x h)
        → ◌≡◌ {A = Payload H V} (group p.members p.callees) (group q.members q.callees)
    same_group x h p q = (let e = injective _ _ (sym p.is ∙ q.is) in injective _ _ (first_label e))
      where
        first_label :
            {a b : H} {s t : String} → ◌≡◌ {A = Payload H V} (labelled a s) (labelled b t) → a ≡ b
        first_label e = cc

    same_members :
        {a c : List (Member H)} {b d : List (String × H)}
        → ◌≡◌ {A = Payload H V} (group a b) (group c d)
        → (a ≡ c) × (b ≡ d)
    same_members e = (cc, cc)

    same_own :
        (x : String) (h : H) (p : Explained digest old before x h)
        (q : Explained digest new after x h)
        → (local_of digest old p.function ≡ local_of digest new q.function) × (p.own ≡ q.own)
    same_own x h p q =
        (let (ms, cs) = same_members (same_group x h p q) in
          split (sym p.own_at ∙ ap (value_of x) ms ∙ q.own_at))
      where
        split :
            {a c : H} {b d : List String}
            → ◌≡◌ {A = Option (H × List String)} (some (a, b)) (some (c, d))
            → (a ≡ c) × (b ≡ d)
        split e = (cc, cc)

    Match-SameInput : (x : String) → Match x → SameInput V old new x
    unfolding local_of
    Match-SameInput x m =
        (let (p, q) = sides x m in
          let locals = injective _ _ (same_own x m.h p q).0 in
          let bodies = same_body locals in
          let profile = same_profile (injective _ _ bodies.0) in
          record {
            before = p.function;
            after = q.function;
            before_at = p.function_at;
            after_at = q.function_at;
            canonical = bodies.1;
            metadata = profile.0;
            options = profile.1;
            translator = profile.2;
            runtime = profile.3;
          })
      where
        same_body :
            {a b : H} {v w : V} → ◌≡◌ {A = Payload H V} (body a v) (body b w) → (a ≡ b) × (v ≡ w)
        same_body e = (cc, cc)

        same_profile :
            {a b c d : V} {s t u w : String}
            → ◌≡◌ {A = Payload H V} (context a b s t) (context c d u w)
            → (a ≡ c) × (b ≡ d) × (s ≡ u) × (t ≡ w)
        same_profile e = (cc, cc, cc, cc)

    -- The callees of a match are matches.
    edge-Match : (x y : String) → Match x → listed y (edges_of digest old x) ≡ true → Match y
    edge-Match x y m e =
        (let (p, q) = sides x m in
          let (ms, cs) = same_members (same_group x m.h p q) in
          elim (p.edge y e) [
            | inl l ↦ record {
              h = digest (labelled (digest (group p.members p.callees)) y);
              old_has = p.inside_has y l;
              new_has =
                  subst (λ g. Has digest new after y (digest (labelled (digest g) y)))
                    (sym (same_group x m.h p q))
                    (q.inside_has y (sym (ap (listed y) (same_own x m.h p q).1) ∙ l));
            }
            | inr (g, at) ↦ record {
              h = g;
              old_has = p.outside_has y g at;
              new_has = q.outside_has y g (sym (ap (value_of y) cs) ∙ at);
            }
          ])

    reached-SameInput :
        (x y : String) → Match x → Reaches (edges_of digest old) x y → SameInput V old new y
    reached-SameInput x y m (stay e) = subst (SameInput V old new) e (Match-SameInput x m)
    reached-SameInput x y m (hop {y = z} l r) = reached-SameInput z y (edge-Match x z m l) r

-- Where digests of different dicts differ, a source that has one fingerprint in two runs reaches by
-- calls only functions that both sidecars have, with one body, under one profile of metadata, options,
-- translator and runtime.
pub fingerprints-SameInput :
    {H V : Type 0} (digest : Payload H V → H) (old new : SourceMap V)
    (before after : List (String × Finger H V)) (s : String) (a b : Finger H V) (x : String)
    → Injective digest
    → fingerprints digest old ≡ ok before
    → fingerprints digest new ≡ ok after
    → value_of s before ≡ some a
    → value_of s after ≡ some b
    → a.fingerprint ≡ b.fingerprint
    → Reaches (edges_of digest old) s x
    → SameInput V old new x
fingerprints-SameInput digest old new before after s a b x injective h k at bt e r =
    reached-SameInput digest injective old new before after
      (fingerprints-Explained digest old before h) (fingerprints-Explained digest new after k) s x
      (record { h = a.fingerprint; old_has = (a, at, refl); new_has = (b, bt, sym e) }) r
