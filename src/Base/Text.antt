-- ===== src/Base/Text.antt =====
-- Text as the code points that the regular expressions of the scripts walk over.
use Prim.Native.Char.{code}
use Prim.Native.String.{String, ◌++◌ as joined}
use air2lean.Base.Tests.{leb, ltb, ◌==◌, if◌then◌else◌}
use Prim.Native.Nat.{ℕ, zero, suc, ◌+◌, ◌-◌, ◌*◌, ◌/◌, ◌%◌}
use mathlib.Core.Bool.{Bool, ◌&&◌, ◌||◌, not}
use mathlib.Core.List.{List, [], ◌∷◌}
use air2lean.Base.Lists.{all, is_empty}

abbrev pub codes : String → List ℕ
codes String.[] = []
codes (String.◌∷◌ c s) = code c ∷ codes s

-- `[0-9]`
unfoldable pub is_digit : ℕ → Bool
is_digit c = leb b'0' c && leb c b'9'

-- `[0-9a-f]`
unfoldable pub is_hex : ℕ → Bool
unfolding is_digit
is_hex c = is_digit c || leb b'a' c && leb c b'f'

-- `[a-zA-Z0-9_-]`
unfoldable pub is_word : ℕ → Bool
unfolding is_digit
is_word c =
    leb b'a' c && leb c b'z' || leb b'A' c && leb c b'Z' || is_digit c || c == b'_' || c == b'-'

-- `IDENT.fullmatch(s)`
unfoldable pub is_ident : String → Bool
unfolding is_word
is_ident s = not (is_empty (codes s)) && all is_word (codes s)

-- `int(text)` of decimal digits
unfoldable pub decimal : ℕ → List ℕ → ℕ
decimal n [] = n
decimal n (c ∷ cs) = decimal (n * 10 + (c - b'0')) cs

unfoldable pub hex_digit : ℕ → ℕ
unfolding is_digit
hex_digit c = if is_digit c then c - b'0' else c - b'a' + 10

-- `int(text, 16)` of hexadecimal digits
unfoldable pub hexadecimal : ℕ → List ℕ → ℕ
unfolding hex_digit
hexadecimal n [] = n
hexadecimal n (c ∷ cs) = hexadecimal (n * 16 + hex_digit c) cs

-- The character `names[n]`.
nth : ℕ → List String → String
nth n [] = ""
nth zero (c ∷ cs) = c
nth (suc n) (c ∷ cs) = nth n cs

digit_text : ℕ → String
unfolding nth
digit_text n = nth n ("0" ∷ "1" ∷ "2" ∷ "3" ∷ "4" ∷ "5" ∷ "6" ∷ "7" ∷ "8" ∷ "9" ∷ [])

digits : ℕ → ℕ → String
unfolding digit_text
digits zero n = ""
digits (suc fuel) n =
    let more = digits fuel (n / 10) in
    if ltb n 10 then digit_text n else joined more (digit_text (n % 10))

-- `str(n)`: a number has at most as many digits as its successor says.
unfoldable pub number_text : ℕ → String
unfolding digits
number_text n = digits (suc n) n
