-- ===== src/Diff/Wire.antt =====
-- The result lines of scripts/diff-report.py: `wire`, `normalized`, `buffer_match` and `same_value`.
use air2lean.Base.{
  ℕ, ◌%◌, String, Option, none, some, Bool, true, false, ◌&&◌, ◌||◌, not, List, [], ◌∷◌, str_eq,
  ◌==◌, if◌then◌else◌, as_count, ◌+◌, length, is_empty, all,
}
use air2lean.Base.Int.{ℤ, pos, neg_ℕ}
use air2lean.Base.Result.{Result, ok, err, ◌>>=◌, ◌>>◌, refuse_if}
use air2lean.Base.Text.{codes, is_digit, is_hex, decimal}
use air2lean.Json.{
  Json, Fields, bool, int, str, arr, obj, get, has, keys_among, strings_of, natural_of, json_equal,
}
use air2lean.Diff.{Failure, invalid}

-- A decoded result line: a returned value with the buffers after the call and the count of live
-- allocations, where they are reported; a failure; or no result.
pub data Wire : Type 0 where
  returned : Json → Option (List String) → Option ℕ → Wire
  fail : String → Wire
  diverge : Wire

buffers : Option Json → Result Failure (Option (List String))
buffers none = ok none
buffers (some (arr xs)) = elim (strings_of xs) [ none ↦ err invalid | some ss ↦ ok (some ss) ]
buffers (some _) = err invalid

live_count : Option Json → Result Failure (Option ℕ)
live_count none = ok none
live_count (some v) = elim (natural_of (some v)) [ none ↦ err invalid | some n ↦ ok (some n) ]

returned_of : Fields → Option Json → Result Failure Wire
unfolding buffers live_count
returned_of fs none = err invalid
returned_of fs (some v) = do
  refuse_if (not (keys_among ("ok" ∷ "bufs" ∷ "live" ∷ []) fs)) invalid
  bufs ← buffers (get "bufs" fs)
  live ← live_count (get "live" fs)
  ok (returned v bufs live)

fail_of : Fields → Option Json → Result Failure Wire
fail_of fs (some (str s)) = do refuse_if (not (keys_among ("fail" ∷ []) fs)) invalid; ok (fail s)
fail_of fs _ = err invalid

diverge_of : Fields → Option Json → Result Failure Wire
diverge_of fs (some (bool true)) = do
  refuse_if (not (keys_among ("diverge" ∷ []) fs)) invalid
  ok diverge
diverge_of fs _ = err invalid

-- Exactly one of the tags is present.
unfoldable pub wire : Json → Result Failure Wire
unfolding returned_of fail_of diverge_of
wire (obj fs) = do
  let tags = as_count (has "ok" fs) + as_count (has "fail" fs) + as_count (has "diverge" fs)
  refuse_if (not (tags == 1)) invalid
  if has "ok" fs
      then returned_of fs (get "ok" fs)
      else if has "fail" fs
      then fail_of fs (get "fail" fs)
      else diverge_of fs (get "diverge" fs)
wire _ = err invalid

-- Two lists of strings, or two counts, that may be missing.
unfoldable pub strings_equal : List String → List String → Bool
strings_equal [] [] = true
strings_equal (s ∷ ss) (t ∷ ts) = str_eq s t && strings_equal ss ts
strings_equal _ _ = false

unfoldable pub buffers_equal : Option (List String) → Option (List String) → Bool
unfolding strings_equal
buffers_equal none none = true
buffers_equal (some ss) (some ts) = strings_equal ss ts
buffers_equal _ _ = false

unfoldable pub live_equal : Option ℕ → Option ℕ → Bool
live_equal none none = true
live_equal (some m) (some n) = m == n
live_equal _ _ = false

-- `json_equal` on two result lines.
unfoldable pub wire_equal : Wire → Wire → Bool
unfolding buffers_equal live_equal
wire_equal (returned v b l) (returned w c m) = json_equal v w && buffers_equal b c && live_equal l m
wire_equal (fail s) (fail t) = str_eq s t
wire_equal diverge diverge = true
wire_equal _ _ = false

-- A text that is a decimal integer becomes the integer.
decimal_text : List ℕ → Option ℤ
decimal_text [] = none
decimal_text (c ∷ cs) =
    if c == b'-'
    then if not (is_empty cs) && all is_digit cs then some (neg_ℕ (decimal 0 cs)) else none
    else if is_digit c && all is_digit cs
    then some (pos (decimal 0 (c ∷ cs)))
    else none

unfoldable pub normalized : Json → Json
unfolding decimal_text
normalized (str s) = elim (decimal_text (codes s)) [ none ↦ str s | some n ↦ int n ]
normalized v = v

-- A byte of the model may be unknown, `?`.
unfoldable pub bytes_match : List ℕ → List ℕ → Bool
bytes_match [] ys = true
bytes_match (x ∷ xs) [] = true
bytes_match (x ∷ xs) (y ∷ ys) = (y == b'?' || x == y) && bytes_match xs ys

unfoldable pub buffer_match : String → String → Bool
unfolding bytes_match
buffer_match native model =
    let n = codes native in
    let m = codes model in
    if not (length n == length m) || not (length n % 2 == 0)
    then false
    else if not (all is_hex n) || not (all (λ c. is_hex c || c == b'?') m)
    then false
    else bytes_match n m

unfoldable pub buffers_match : List String → List String → Bool
unfolding buffer_match
buffers_match [] [] = true
buffers_match (n ∷ ns) (m ∷ ms) = buffer_match n m && buffers_match ns ms
buffers_match _ _ = false

-- `.get('bufs')` and `.get('live')` of a result line
abbrev pub bufs_of : Wire → Option (List String)
bufs_of (returned v b l) = b
bufs_of _ = none

abbrev pub live_of : Wire → Option ℕ
live_of (returned v b l) = l
live_of _ = none

same_buffers : Option (List String) → Option (List String) → Bool
unfolding buffers_match
same_buffers none none = true
same_buffers (some ns) (some ms) = buffers_match ns ms
same_buffers _ _ = false

unfoldable pub same_extras : Wire → Wire → Bool
unfolding same_buffers live_equal
same_extras native model =
    live_equal (live_of native) (live_of model) && same_buffers (bufs_of native) (bufs_of model)

unfoldable pub same_value : Wire → Wire → Bool
unfolding same_extras
same_value (returned v b l) (returned w c m) =
    json_equal (normalized v) (normalized w) && same_extras (returned v b l) (returned w c m)
same_value _ _ = false
