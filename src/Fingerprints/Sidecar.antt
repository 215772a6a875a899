-- ===== src/Fingerprints/Sidecar.antt =====
-- The function records of a sidecar that `load_sidecar` of scripts/semantic-fingerprints.py accepts.
use air2lean.Base.{
  String, Option, none, some, true, false, ◌&&◌, not, List, [], ◌∷◌, map, ◌≡◌, refl, ap, subst,
  str_eq, eq_iff, arith, all,
}
use air2lean.Base.Result.{
  Result, ok, err, ◌>>=◌, ◌>>◌, refuse_if, >>=-eq-ok, refuse_if-eq-ok, ok-injective,
}
use air2lean.Json.{Json, Items, str, arr, obj, nil, cons, get, has, listed, keys_among, strings_of}

-- A `ValueError`
pub data Malformed : Type 0 where
  malformed_record duplicate_function : Malformed

-- `FIELDS`
abbrev field_names : List String
field_names =
    "source" ∷ "air_name" ∷ "air_file" ∷ "definition" ∷ "proof_api" ∷ "callees" ∷ "canonical"
    ∷ "lines" ∷ []

-- The source of a record and its callees.
unfoldable function_record : Json → Result Malformed (String × List String)
function_record (obj fs) =
    refuse_if (not (keys_among field_names fs && all (λ k. has k fs) field_names)) malformed_record
    >> typed (get "source" fs) (get "callees" fs)
  where
    typed : Option Json → Option Json → Result Malformed (String × List String)
    typed (some (str source)) (some (arr cs)) =
        refuse_if (str_eq source "") malformed_record >> elim (strings_of cs) [
          | none ↦ err malformed_record
          | some callees ↦ ok (source, callees)
        ]
    typed _ _ = err malformed_record
function_record _ = err malformed_record

-- The loop over the records, with the sources that were seen.
unfoldable pub function_records :
    List String → Items → Result Malformed (List (String × List String))
unfolding function_record listed
function_records seen nil = ok []
function_records seen (cons x xs) = do
  found ← function_record x
  refuse_if (listed found.0 seen) duplicate_function
  rest ← function_records (found.0 ∷ seen) xs
  ok (found ∷ rest)

-- Each source stands once in the list.
abbrev pub Distinct : List String → Type 0
Distinct [] = Unit
Distinct (s ∷ ss) = (listed s ss ≡ false) × Distinct ss

-- The sources are distinct, and none was seen before.
abbrev New : List String → List (String × List String) → Type 0
New seen rs =
    ((s : String) → listed s seen ≡ true → listed s (map (λ r. r.0) rs) ≡ false)
    × Distinct (map (λ r. r.0) rs)

records-New :
    (seen : List String) (xs : Items) (rs : List (String × List String))
    → function_records seen xs ≡ ok rs
    → New seen rs
unfolding function_records listed
records-New seen nil rs h = subst (New seen) (ok-injective h) (λ s m. refl, tt)
records-New seen (cons x xs) rs h =
    let (found, _, h1) = >>=-eq-ok (function_record x) _ h in
    let (unseen, h2) = refuse_if-eq-ok (listed found.0 seen) duplicate_function _ h1 in
    let (rest, e, h3) = >>=-eq-ok (function_records (found.0 ∷ seen) xs) _ h2 in
    let (others, distinct) = records-New (found.0 ∷ seen) xs rest e in
    subst (New seen) (ok-injective h3) (
      λ s m. ground (arith, others s, eq_iff found.0 s, ap (λ n. listed n seen)),
      (others found.0 (ground (arith, eq_iff found.0 found.0)), distinct),
    )

-- The records of an accepted sidecar are of distinct sources.
pub function_records-Distinct :
    (xs : Items) (rs : List (String × List String))
    → function_records [] xs ≡ ok rs
    → Distinct (map (λ r. r.0) rs)
function_records-Distinct xs rs h = (records-New [] xs rs h).1
