-- ===== src/Fingerprints/Digest/Explained.antt =====
-- What the fingerprint of a source in the result of `fingerprints` of scripts/semantic-fingerprints.py was
-- made of.
use air2lean.Base.{
  ◌≡◌, refl, sym, ap, ◌∙◌, String, Option, some, true, false, not, List, [], ◌∷◌, ◌++◌, ◌⊎◌, inl,
  inr, str_eq, eq_iff, arith, Bool-cases,
}
use air2lean.Base.Result.{ok, traverse, >>=-eq-ok, ok-injective}
use air2lean.Json.{listed}
use air2lean.Diff.Config.{has_key}
use air2lean.Closure.{value_of}
use air2lean.Closure.Names.{sorted_set, keep_if}
use air2lean.Closure.Names.Prefixes.{listed-append, listed-sorted_set, listed-keep_if}
use air2lean.Fingerprints.Calls.{listed-kept}
use air2lean.Fingerprints.Digest.{
  Function, SourceMap, Member, Payload, group, labelled, Finger, at_key, edges_of, local_of,
  member_of, edges_out, callee_of, finger_of,
}
use air2lean.Fingerprints.Digest.Keyed.{
  at_key-eq-ok, value_of-append_old, value_of-append_new, value_of-has_key, keyed-value,
  keyed-listed,
}

module _ {H V : Type 0} (digest : Payload H V → H) (doc : SourceMap V) where
  -- The source has the fingerprint.
  abbrev pub Has : List (String × Finger H V) → String → H → Type 0
  Has result c h = (e : Finger H V) × (value_of c result ≡ some e) × (e.fingerprint ≡ h)

  -- The digest `h` of `s` is that of its component, which has the source's own digest, and the
  -- fingerprint of each callee, in the component or outside.
  pub record Explained (result : List (String × Finger H V)) (s : String) (h : H) : Type 0 where
    pub function : Function V
    pub members : List (Member H)
    pub callees : List (String × H)
    pub own : List String
    pub function_at : value_of s doc.functions ≡ some function
    pub is : h ≡ digest (labelled (digest (group members callees)) s)
    pub own_at : value_of s members ≡ some (local_of digest doc function, own)
    pub inside_has :
        (c : String)
        → listed c own ≡ true
        → Has result c (digest (labelled (digest (group members callees)) c))
    pub outside_has : (c : String) (g : H) → value_of c callees ≡ some g → Has result c g
    pub edge :
        (c : String)
        → listed c (edges_of digest doc s) ≡ true
        → (listed c own ≡ true) ⊎ ((g : H) × (value_of c callees ≡ some g))

  abbrev pub AllExplained : List (String × Finger H V) → Type 0
  AllExplained result =
      (s : String) (e : Finger H V) → value_of s result ≡ some e → Explained result s e.fingerprint

  Has-append :
      (result more : List (String × Finger H V)) (c : String) (h : H)
      → Has result c h
      → Has (result ++ more) c h
  Has-append result more c h (e, there, is) = (e, value_of-append_old c e result more there, is)

  pub Explained-append :
      (result more : List (String × Finger H V)) (s : String) (h : H)
      → Explained result s h
      → Explained (result ++ more) s h
  Explained-append result more s h x = record {
    function = x.function;
    members = x.members;
    callees = x.callees;
    own = x.own;
    function_at = x.function_at;
    is = x.is;
    own_at = x.own_at;
    inside_has = λ c l. Has-append result more c _ (x.inside_has c l);
    outside_has = λ c g l. Has-append result more c g (x.outside_has c g l);
    edge = x.edge;
  }

  pub member_key :
      (inside : List String) (x : String) (y : Member H)
      → member_of digest doc inside x ≡ ok y
      → y.0 ≡ x
  unfolding member_of
  member_key inside x y h =
      (let (f, e, h1) = >>=-eq-ok (at_key x doc.functions) _ h in
        sym (ap (λ z. z.0) (ok-injective h1)))

  pub callee_key :
      (result : List (String × Finger H V)) (x : String) (y : String × H)
      → callee_of digest result x ≡ ok y
      → y.0 ≡ x
  unfolding callee_of
  callee_key result x y h =
      (let (f, e, h1) = >>=-eq-ok (at_key x result) _ h in sym (ap (λ z. z.0) (ok-injective h1)))

  pub finger_key :
      (inside : List String) (component : H) (x : String) (y : String × Finger H V)
      → finger_of digest doc inside component x ≡ ok y
      → y.0 ≡ x
  unfolding finger_of
  finger_key inside component x y h =
      (let (f, e, h1) = >>=-eq-ok (at_key x doc.functions) _ h in
        sym (ap (λ z. z.0) (ok-injective h1)))

  finger_is :
      (inside : List String) (component : H) (x : String) (e : Finger H V)
      → finger_of digest doc inside component x ≡ ok (x, e)
      → e.fingerprint ≡ digest (labelled component x)
  unfolding finger_of
  finger_is inside component x e h =
      (let (f, _, h1) = >>=-eq-ok (at_key x doc.functions) _ h in
        sym (ap (λ z. z.1.fingerprint) (ok-injective h1)))

  -- A callee of a member is a member or stands outside.
  edges_out-listed :
      (inside ms : List String) (m c : String)
      → listed m ms ≡ true
      → listed c (edges_of digest doc m) ≡ true
      → listed c inside ≡ false
      → listed c (edges_out digest doc inside ms) ≡ true
  unfolding edges_out listed
  edges_out-listed inside [] m c l e out = absurd cc
  edges_out-listed inside (n ∷ ms) m c l e out =
      (let joined =
          listed-append c (keep_if (λ c. not (listed c inside)) (edges_of digest doc n))
            (edges_out digest doc inside ms) in
        elim (Bool-cases (str_eq n m)) [
          | inl here ↦
              (let e2 : listed c (edges_of digest doc n) ≡ true =
                  ap (λ z. listed c (edges_of digest doc z)) ((eq_iff n m).0 here) ∙ e in
                let kept =
                  listed-keep_if (λ c. not (listed c inside)) c (edges_of digest doc n) e2
                    (ap not out) in
                ground (arith, joined, kept))
          | inr other ↦
              (let rest = edges_out-listed inside ms m c (ground (arith, other, l)) e out in
                ground (arith, joined, rest))
        ])

  -- The members of a component, none of which has an entry before.
  module _ (inside : List String) (result entries : List (String × Finger H V))
      (ms : List (Member H)) (cs : List (String × H))
      (fresh : (c : String) → listed c inside ≡ true → has_key c result ≡ false)
      (made : traverse (member_of digest doc inside) inside ≡ ok ms)
      (outs : traverse (callee_of digest result) (sorted_set (edges_out digest doc inside inside))
        ≡ ok cs)
      (built : traverse (finger_of digest doc inside (digest (group ms cs))) inside
        ≡ ok entries) where
    pub member-Has :
        (c : String)
        → listed c inside ≡ true
        → Has (result ++ entries) c (digest (labelled (digest (group ms cs)) c))
    member-Has c l =
        (let (e, v, r) =
            keyed-value (finger_of digest doc inside (digest (group ms cs)))
              (finger_key inside (digest (group ms cs))) inside entries c built l in
          (
            e,
            value_of-append_new c result entries (fresh c l) ∙ v,
            finger_is inside (digest (group ms cs)) c e r,
          ))

    callee-Has : (c : String) (g : H) → value_of c cs ≡ some g → Has (result ++ entries) c g
    unfolding callee_of
    callee-Has c g at =
        (let outside = sorted_set (edges_out digest doc inside inside) in
          let there =
            sym (keyed-listed (callee_of digest result) (callee_key result) outside cs c outs)
            ∙ value_of-has_key c g cs at in
          let (h, v, r) =
            keyed-value (callee_of digest result) (callee_key result) outside cs c outs there in
          let (e, found, h1) = >>=-eq-ok (at_key c result) _ r in
          let same : h ≡ g = some_injective (sym v ∙ at) in
          Has-append result entries c g
            (e, at_key-eq-ok c result e found, ap (λ z. z.1) (ok-injective h1) ∙ same))
      where
        some_injective : {h g : H} → ◌≡◌ {A = Option H} (some h) (some g) → h ≡ g
        some_injective e = cc

    pub entry-Explained :
        (s : String)
        → listed s inside ≡ true
        → Explained (result ++ entries) s (digest (labelled (digest (group ms cs)) s))
    unfolding member_of
    entry-Explained s l =
        (let (a, v, r) =
            keyed-value (member_of digest doc inside) (member_key inside) inside ms s made l in
          let (f, e, h1) = >>=-eq-ok (at_key s doc.functions) _ r in
          record {
            function = f;
            members = ms;
            callees = cs;
            own = keep_if (λ c. listed c inside) (edges_of digest doc s);
            function_at = at_key-eq-ok s doc.functions f e;
            is = refl;
            own_at = v ∙ ap some (sym (ap (λ z. z.1) (ok-injective h1)));
            inside_has = λ c m.
                member-Has c (listed-kept (λ c. listed c inside) c (edges_of digest doc s) m);
            outside_has = callee-Has;
            edge = λ c m. elim (Bool-cases (listed c inside)) [
              | inl there ↦
                  inl (listed-keep_if (λ c. listed c inside) c (edges_of digest doc s) m there)
              | inr out ↦
                  (let outside = sorted_set (edges_out digest doc inside inside) in
                    let listed_out =
                      listed-sorted_set c (edges_out digest doc inside inside)
                      ∙ edges_out-listed inside inside s c l m out in
                    let (g, w, _) =
                      keyed-value (callee_of digest result) (callee_key result) outside cs c outs
                        listed_out in
                    inr (g, w))
            ];
          })
