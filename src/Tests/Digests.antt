-- ===== src/Tests/Digests.antt =====
-- Two runs of `fingerprints`, with a digest that is a value itself, and the theorems at them.
use air2lean.Base.{
  ℕ, String, Option, none, some, Bool, true, false, List, [], ◌∷◌, ◌≡◌, refl, ap, sym, ◌∙◌,
}
use air2lean.Base.Result.{Result, ok, err}
use air2lean.Json.{Json, Items, str, arr, null, nil, cons, listed}
use air2lean.Diff.Config.{has_key}
use air2lean.Closure.{value_of}
use air2lean.Fingerprints.Components.Reach.{Reaches, stay, hop}
use air2lean.Fingerprints.Digest.{
  Function, SourceMap, Member, Payload, context, body, group, labelled, Finger, edges_of,
  fingerprints,
}
use air2lean.Fingerprints.Digest.Total.{fingerprints_return}
use air2lean.Fingerprints.Digest.Agree.{Injective, SameInput, fingerprints-SameInput}

abbrev texts : List String → Items
texts [] = nil
texts (s ∷ ss) = cons (str s) (texts ss)

abbrev member_items : List (Member Json) → Items
member_items [] = nil
member_items ((m, (h, own)) ∷ ms) = cons (str m) (cons h (cons (arr (texts own)) (member_items ms)))

abbrev callee_items : List (String × Json) → Items
callee_items [] = nil
callee_items ((c, h) ∷ cs) = cons (str c) (cons h (callee_items cs))

-- The dict itself, as a list.
abbrev as_value : Payload Json String → Json
as_value (context metadata options translator runtime) =
    arr (cons (str metadata) (cons (str options) (cons (str translator) (cons (str runtime) nil))))
as_value (body h canonical) = arr (cons h (cons (str canonical) (cons null nil)))
as_value (group ms cs) = arr (cons (arr (member_items ms)) (cons (arr (callee_items cs)) nil))
as_value (labelled h source) = arr (cons (str source) (cons h nil))

str_injective : {s t : String} → str s ≡ str t → s ≡ t
str_injective e = cc

texts_injective : (a b : List String) → texts a ≡ texts b → a ≡ b
texts_injective [] [] e = refl
texts_injective [] (t ∷ b) e = cc
texts_injective (s ∷ a) [] e = cc
texts_injective (s ∷ a) (t ∷ b) e =
    (let first : s ≡ t = cc in
      let rest : texts a ≡ texts b = cc in let same = texts_injective a b rest in cc)

members_injective : (a b : List (Member Json)) → member_items a ≡ member_items b → a ≡ b
members_injective [] [] e = refl
members_injective [] ((n, (g, p)) ∷ b) e = cc
members_injective ((m, (h, o)) ∷ a) [] e = cc
members_injective ((m, (h, o)) ∷ a) ((n, (g, p)) ∷ b) e =
    (let own : texts o ≡ texts p = cc in
      let rest : member_items a ≡ member_items b = cc in
      let same_own = texts_injective o p own in
      let same = members_injective a b rest in
      let first : m ≡ n = cc in let second : h ≡ g = cc in cc)

callees_injective : (a b : List (String × Json)) → callee_items a ≡ callee_items b → a ≡ b
callees_injective [] [] e = refl
callees_injective [] ((d, g) ∷ b) e = cc
callees_injective ((c, h) ∷ a) [] e = cc
callees_injective ((c, h) ∷ a) ((d, g) ∷ b) e =
    (let rest : callee_items a ≡ callee_items b = cc in
      let same = callees_injective a b rest in
      let first : c ≡ d = cc in let second : h ≡ g = cc in cc)

as_value-Injective : Injective as_value
as_value-Injective (context a b c d) (context e f g h) q = cc
as_value-Injective (context a b c d) (body h v) q = cc
as_value-Injective (context a b c d) (group ms cs) q = cc
as_value-Injective (context a b c d) (labelled h s) q = cc
as_value-Injective (body h v) (context a b c d) q = cc
as_value-Injective (body h v) (body g w) q = cc
as_value-Injective (body h v) (group ms cs) q = cc
as_value-Injective (body h v) (labelled g s) q = cc
as_value-Injective (group ms cs) (context a b c d) q = cc
as_value-Injective (group ms cs) (body h v) q = cc
as_value-Injective (group ms cs) (group ns ds) q =
    (let one : member_items ms ≡ member_items ns = cc in
      let two : callee_items cs ≡ callee_items ds = cc in
      let first = members_injective ms ns one in let second = callees_injective cs ds two in cc)
as_value-Injective (group ms cs) (labelled h s) q = cc
as_value-Injective (labelled h s) (context a b c d) q = cc
as_value-Injective (labelled h s) (body g v) q = cc
as_value-Injective (labelled h s) (group ms cs) q = cc
as_value-Injective (labelled h s) (labelled g t) q = cc

abbrev function : String → List String → String → Function String
function name callees canonical = record {
  definition = name;
  proof_api = "";
  air_name = "";
  air_file = "";
  callees = callees;
  canonical = canonical;
}

abbrev source_map : List (String × Function String) → SourceMap String
source_map functions = record {
  metadata = "m";
  options = "o";
  translator = "t";
  runtime = "r";
  functions = functions;
}

-- `a` and `b` call each other, and both need `c`; `d` is new.
abbrev old_map : SourceMap String
old_map = source_map (
    ("a", function "A" ("b" ∷ "x" ∷ []) "1")
    ∷ ("b", function "B" ("a" ∷ "c" ∷ []) "2")
    ∷ ("c", function "C" [] "3")
    ∷ [])

abbrev new_map : SourceMap String
new_map = source_map (
    ("a", function "A2" ("b" ∷ "x" ∷ []) "1")
    ∷ ("b", function "B" ("a" ∷ "c" ∷ []) "2")
    ∷ ("c", function "C" [] "3")
    ∷ ("d", function "D" [] "4")
    ∷ [])

abbrev returned : SourceMap String → List (String × Finger Json String)
returned doc = elim (fingerprints as_value doc) [ err e ↦ [] | ok result ↦ result ]

abbrev blank : Finger Json String
blank = record {
  definition = "";
  proof_api = "";
  air_name = "";
  air_file = "";
  local_sha256 = null;
  fingerprint = null;
  callees = [];
  boundaries = [];
  recursive_group = [];
}

abbrev entry_a : SourceMap String → Finger Json String
entry_a doc = elim (value_of "a" (returned doc)) [ none ↦ blank | some e ↦ e ]

group_a : (entry_a old_map).recursive_group ≡ "a" ∷ "b" ∷ []
unfolding fingerprints value_of air2lean.Base.Sort.text_le air2lean.Base.Result.traverse
group_a = refl

old_returns : fingerprints as_value old_map ≡ ok (returned old_map)
unfolding fingerprints air2lean.Base.Sort.text_le air2lean.Base.Result.traverse
old_returns = refl

new_returns : fingerprints as_value new_map ≡ ok (returned new_map)
unfolding fingerprints air2lean.Base.Sort.text_le air2lean.Base.Result.traverse
new_returns = refl

old_a : value_of "a" (returned old_map) ≡ some (entry_a old_map)
unfolding fingerprints value_of air2lean.Base.Sort.text_le air2lean.Base.Result.traverse
old_a = refl

new_a : value_of "a" (returned new_map) ≡ some (entry_a new_map)
unfolding fingerprints value_of air2lean.Base.Sort.text_le air2lean.Base.Result.traverse
new_a = refl

same_a : (entry_a old_map).fingerprint ≡ (entry_a new_map).fingerprint
unfolding fingerprints value_of air2lean.Base.Sort.text_le air2lean.Base.Result.traverse
same_a = refl

a-Reaches_c : Reaches (edges_of as_value old_map) "a" "c"
unfolding listed air2lean.Fingerprints.Calls.call_edges air2lean.Base.Sort.text_le
    air2lean.Base.Sort.sorted
a-Reaches_c =
    hop {x = "a"} {y = "b"} {z = "c"} refl (hop {x = "b"} {y = "c"} {z = "c"} refl (stay refl))

fingerprints-SameInput_example : SameInput String old_map new_map "c"
fingerprints-SameInput_example =
    fingerprints-SameInput as_value old_map new_map (returned old_map) (returned new_map) "a"
      (entry_a old_map) (entry_a new_map) "c" as_value-Injective old_returns new_returns old_a new_a
      same_a a-Reaches_c

fingerprints_return_example :
    (result : List (String × Finger Json String)) × (fingerprints as_value new_map ≡ ok result)
    × ((c : String) → has_key c result ≡ has_key c new_map.functions)
fingerprints_return_example = fingerprints_return as_value new_map
