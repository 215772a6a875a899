-- ===== src/Fingerprints/Compare.antt =====
-- The lists of `compare` of scripts/semantic-fingerprints.py are a partition of the sources.
use air2lean.Base.{
  String, Option, none, some, Bool, true, false, ◌&&◌, ◌||◌, List, [], ◌∷◌, ◌++◌, map, ◌≡◌, ◌≢◌,
  refl, ap, sym, ◌∙◌, str_eq, eq_iff, and-eq-true, Bool-cases, inl, inr, arith, ◌↔◌,
}
use air2lean.Json.{Json, listed}
use air2lean.Closure.{value_of}
use air2lean.Closure.Names.Prefixes.{listed-sorted_set}
use air2lean.Fingerprints.{
  Entry, Document, Change, unaffected, invalidated, renamed, added, removed, Comparison, part,
  record_change, same_interface, change_of_entries, change_of, compare_all, sources_of, compare,
  blank,
}

change_eq : Change → Change → Bool
change_eq unaffected unaffected = true
change_eq invalidated invalidated = true
change_eq renamed renamed = true
change_eq added added = true
change_eq removed removed = true
change_eq _ _ = false

change_eq-eq : (a b : Change) → change_eq a b ≡ true → a ≡ b
unfolding change_eq
change_eq-eq a b h = ground arith

listed-snoc :
    (s k : String) (xs : List String) → listed s (xs ++ k ∷ []) ≡ (listed s xs || str_eq k s)
unfolding listed
listed-snoc s k [] = ground arith
listed-snoc s k (x ∷ xs) = ground (arith, listed-snoc s k xs)

record_change-part :
    (c d : Change) (s k : String) (r : Comparison)
    → listed s (part c (record_change d k r))
      ≡ (listed s (part c r) || (change_eq d c && str_eq k s))
unfolding part record_change change_eq
record_change-part unaffected unaffected s k r = listed-snoc s k (part unaffected r)
record_change-part unaffected invalidated s k r = ground arith
record_change-part unaffected renamed s k r = ground arith
record_change-part unaffected added s k r = ground arith
record_change-part unaffected removed s k r = ground arith
record_change-part invalidated unaffected s k r = ground arith
record_change-part invalidated invalidated s k r = listed-snoc s k (part invalidated r)
record_change-part invalidated renamed s k r = ground arith
record_change-part invalidated added s k r = ground arith
record_change-part invalidated removed s k r = ground arith
record_change-part renamed unaffected s k r = ground arith
record_change-part renamed invalidated s k r = ground arith
record_change-part renamed renamed s k r = listed-snoc s k (part renamed r)
record_change-part renamed added s k r = ground arith
record_change-part renamed removed s k r = ground arith
record_change-part added unaffected s k r = ground arith
record_change-part added invalidated s k r = ground arith
record_change-part added renamed s k r = ground arith
record_change-part added added s k r = listed-snoc s k (part added r)
record_change-part added removed s k r = ground arith
record_change-part removed unaffected s k r = ground arith
record_change-part removed invalidated s k r = ground arith
record_change-part removed renamed s k r = ground arith
record_change-part removed added s k r = ground arith
record_change-part removed removed s k r = listed-snoc s k (part removed r)

listed-append :
    (s : String) (xs ys : List String) → listed s (xs ++ ys) ≡ (listed s xs || listed s ys)
unfolding listed
listed-append s [] ys = refl
listed-append s (x ∷ xs) ys = ground (arith, listed-append s xs ys)

change_eq_refl : (c : Change) → change_eq c c ≡ true
unfolding change_eq
change_eq_refl unaffected = refl
change_eq_refl invalidated = refl
change_eq_refl renamed = refl
change_eq_refl added = refl
change_eq_refl removed = refl

blank-part :
    (c : Change) (s : String) (old new : Document) → listed s (part c (blank old new)) ≡ false
unfolding part listed
blank-part unaffected s old new = refl
blank-part invalidated s old new = refl
blank-part renamed s old new = refl
blank-part added s old new = refl
blank-part removed s old new = refl

module _ (equal : Json → Json → Bool) (old new : Document) where
  compare_all-part :
      (c : Change) (s : String) (ks : List String) (r : Comparison)
      → listed s (part c (compare_all equal old new ks r))
        ≡ (listed s (part c r) || (listed s ks && change_eq (change_of equal old new s) c))
  unfolding compare_all listed
  compare_all-part c s [] r = ground arith
  compare_all-part c s (k ∷ ks) r = elim (Bool-cases (str_eq k s)) [
    | inl e ↦
        (let same = ap (λ n. change_eq (change_of equal old new n) c) ((eq_iff k s).0 e) in
          ground (
            arith,
            compare_all-part c s ks (record_change (change_of equal old new k) k r),
            record_change-part c (change_of equal old new k) s k r,
            same,
          ))
    | inr e ↦ ground (
      arith,
      compare_all-part c s ks (record_change (change_of equal old new k) k r),
      record_change-part c (change_of equal old new k) s k r,
    )
  ]

  compare-part :
      (c : Change) (s : String)
      → listed s (part c (compare equal old new)) ≡ (
          (listed s (map (λ e. e.0) old.entries) || listed s (map (λ e. e.0) new.entries))
          && change_eq (change_of equal old new s) c)
  unfolding compare sources_of
  compare-part c s =
      let keys = map (λ e. e.0) old.entries ++ map (λ e. e.0) new.entries in
      ground (
        arith,
        compare_all-part c s (sources_of equal old new) (blank old new),
        blank-part c s old new,
        listed-sorted_set s keys,
        listed-append s (map (λ e. e.0) old.entries) (map (λ e. e.0) new.entries),
      )

  -- `interface(old, before) == interface(new, after)`: the namespace, the definition and the proof API.
  abbrev interface_equal : Entry → Entry → Bool
  interface_equal before after =
      equal old.namespace new.namespace
      && equal before.definition after.definition
      && equal before.proof_api after.proof_api

  -- What each list is for, of a source with these entries.
  abbrev ChangeOfBoth : Change → Entry → Entry → Type 0
  ChangeOfBoth unaffected b a = (b.fingerprint ≡ a.fingerprint) × (interface_equal b a ≡ true)
  ChangeOfBoth invalidated b a = b.fingerprint ≢ a.fingerprint
  ChangeOfBoth renamed b a = (b.fingerprint ≡ a.fingerprint) × (interface_equal b a ≡ false)
  ChangeOfBoth added b a = ⊥
  ChangeOfBoth removed b a = ⊥

  abbrev pub IsChange : Change → Option Entry → Option Entry → Type 0
  IsChange c none none = ⊥
  IsChange c none (some a) = c ≡ added
  IsChange c (some b) none = c ≡ removed
  IsChange c (some b) (some a) = ChangeOfBoth c b a

  change_of_both :
      (c : Change) (b a : Entry)
      → (change_of_entries equal old new (some b) (some a) ≡ c) ↔ ChangeOfBoth c b a
  unfolding change_of_entries same_interface
  change_of_both unaffected b a = ground (arith, eq_iff b.fingerprint a.fingerprint)
  change_of_both invalidated b a = ground (arith, eq_iff b.fingerprint a.fingerprint)
  change_of_both renamed b a = ground (arith, eq_iff b.fingerprint a.fingerprint)
  change_of_both added b a = ground arith
  change_of_both removed b a = ground arith

  is_entry : Option Entry → Bool
  is_entry none = false
  is_entry (some e) = true

  listed-entries :
      (s : String) (es : List (String × Entry))
      → listed s (map (λ e. e.0) es) ≡ is_entry (value_of s es)
  unfolding listed value_of is_entry
  listed-entries s [] = refl
  listed-entries s ((k, e) ∷ es) = ground (arith, listed-entries s es)

  listed_in_one :
      (s : String)
      → (listed s (map (λ e. e.0) old.entries) || listed s (map (λ e. e.0) new.entries))
        ≡ (is_entry (value_of s old.entries) || is_entry (value_of s new.entries))
  listed_in_one s = λ i. listed-entries s old.entries i || listed-entries s new.entries i

  change_of_options :
      (c : Change) (o p : Option Entry)
      → (((is_entry o || is_entry p) ≡ true) × (change_of_entries equal old new o p ≡ c))
        ↔ IsChange c o p
  unfolding is_entry change_of_entries
  change_of_options c none none = ((λ h. absurd (false_true h.0)), λ h. absurd h)
    where
      false_true : false ≡ true → ⊥
      false_true h = absurd cc
  change_of_options c none (some a) = ((λ h. sym h.1), λ h. (refl, sym h))
  change_of_options c (some b) none = ((λ h. sym h.1), λ h. (refl, sym h))
  change_of_options c (some b) (some a) =
      (let (there, back) = change_of_both c b a in ((λ h. there h.1), λ h. (refl, back h)))

  -- A source is in a list of the comparison exactly when its entries, before and after, are as the list
  -- wants: in `added` and `removed` with an entry on that side only; in `invalidated` with entries whose
  -- fingerprints differ; in `renamed` and `unaffected` with entries of one fingerprint, whose namespaces,
  -- definitions and proof APIs are not all equal, or are.
  pub compare_iff :
      (c : Change) (s : String)
      → (listed s (part c (compare equal old new)) ≡ true)
        ↔ IsChange c (value_of s old.entries) (value_of s new.entries)
  unfolding change_of
  compare_iff c s =
      (let (there, back) = change_of_options c (value_of s old.entries) (value_of s new.entries) in
        let known = listed_in_one s in
        (
          (λ h.
              let (k, same) =
                and-eq-true
                  (listed s (map (λ e. e.0) old.entries) || listed s (map (λ e. e.0) new.entries))
                  (change_eq (change_of equal old new s) c) (sym (compare-part c s) ∙ h) in
              there (sym known ∙ k, change_eq-eq (change_of equal old new s) c same)),
          (λ h.
              let (k, same) = back h in
              ground (
                arith,
                compare-part c s,
                ap (λ d. change_eq d c) same,
                change_eq_refl c,
                known,
                k,
              )),
        ))
