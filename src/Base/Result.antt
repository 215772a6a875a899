-- ===== src/Base/Result.antt =====
-- A Python function that returns a value or raises.
use mathlib.Core.Path.{◌≡◌, refl, ap, ◌∙◌, subst}
use air2lean.Base.Lists.{All}
use mathlib.Core.Bool.{Bool, true, false}
use mathlib.Core.List.{List, [], ◌∷◌}

pub data Result {ℓ κ} (E : Type ℓ) (A : Type κ) : Type (ℓ ⊔ κ) where
  ok : A → Result E A
  err : E → Result E A

infixl 5 ◌>>=◌ ◌>>◌
abbrev pub ◌>>=◌ {ℓ κ μ} :
    {E : Type ℓ} {A : Type κ} {B : Type μ} → Result E A → (A → Result E B) → Result E B
err raised >>= next = err raised
ok value >>= next = next value

abbrev pub ◌>>◌ {ℓ κ} : {E : Type ℓ} {B : Type κ} → Result E (Unit {0}) → Result E B → Result E B
first >> second = first >>= λ _. second

-- `if bad: raise error`
abbrev pub refuse_if {ℓ} : {E : Type ℓ} → Bool → E → Result E (Unit {0})
refuse_if true e = err e
refuse_if false e = ok tt

-- A comprehension whose body may raise: the first error ends it.
unfoldable pub traverse {ℓ κ μ} :
    {E : Type ℓ} {A : Type κ} {B : Type μ} → (A → Result E B) → List A → Result E (List B)
traverse f [] = ok []
traverse f (x ∷ xs) = do y ← f x; ys ← traverse f xs; ok (y ∷ ys)

-- The first of two steps gave the value from which the second gave `result`.
abbrev pub Succeeds {ℓ κ μ} :
    {E : Type ℓ} {A : Type κ} {B : Type μ} → Result E A → (A → Result E B) → B → Type (ℓ ⊔ κ ⊔ μ)
Succeeds {A = A} first second result = (a : A) × (first ≡ ok a) × (second a ≡ ok result)

-- Two steps that did not raise.
pub >>=-eq-ok {ℓ κ μ} :
    {E : Type ℓ} {A : Type κ} {B : Type μ} (first : Result E A) (second : A → Result E B)
    {result : B}
    → (first >>= second) ≡ ok result
    → Succeeds first second result
>>=-eq-ok (err raised) second h = cc
>>=-eq-ok (ok value) second h = (value, refl, h)

pub ok-injective {ℓ κ} :
    {E : Type ℓ} {A : Type κ} {a b : A} → ◌≡◌ {A = Result E A} (ok a) (ok b) → a ≡ b
ok-injective h = cc

-- What every result of the body has, all results of the comprehension have.
pub traverse-All {ℓ κ μ ν} :
    {E : Type ℓ} {A : Type κ} {B : Type μ} (f : A → Result E B) (P : B → Type ν)
    → ((x : A) (y : B) → f x ≡ ok y → P y)
    → (xs : List A) (ys : List B) → traverse f xs ≡ ok ys
    → All P ys
unfolding traverse
traverse-All f P each [] [] h = tt
traverse-All f P each [] (y ∷ ys) h = cc
traverse-All {E = E} {B = B} f P each (x ∷ xs) ys h =
    (let (z, e, h1) = >>=-eq-ok (f x) _ h in
      let (zs, t, h2) = >>=-eq-ok (traverse f xs) _ h1 in
      subst (All P) (ok-injective h2) (each x z e, traverse-All f P each xs zs t))

-- A check that did not raise.
pub refuse_if-eq-ok {ℓ κ} :
    {E : Type ℓ} {B : Type κ} (bad : Bool) (e : E) (k : Result E B) {b : B}
    → (refuse_if bad e >> k) ≡ ok b
    → (bad ≡ false) × (k ≡ ok b)
refuse_if-eq-ok true e k h = cc
refuse_if-eq-ok false e k h = (refl, h)

-- Two steps that return, one after the other.
pub >>=-returns {ℓ κ μ} :
    {E : Type ℓ} {A : Type κ} {B : Type μ} (first : Result E A) (second : A → Result E B) (a : A)
    → first ≡ ok a
    → ((b : B) × (second a ≡ ok b))
    → (b : B) × ((first >>= second) ≡ ok b)
>>=-returns (err raised) second a e h = cc
>>=-returns (ok value) second a e (b, h) = (b, ap second (ok-injective e) ∙ h)

pub traverse-returns {ℓ κ μ} :
    {E : Type ℓ} {A : Type κ} {B : Type μ} (f : A → Result E B) (xs : List A)
    → All (λ x. (y : B) × (f x ≡ ok y)) xs
    → (ys : List B) × (traverse f xs ≡ ok ys)
unfolding traverse
traverse-returns f [] tt = ([], refl)
traverse-returns {E = E} {B = B} f (x ∷ xs) ((y, e), rest) =
    let (ys, h) = traverse-returns f xs rest in
    (
      y ∷ ys,
      ap (λ r. r >>= λ z. traverse f xs >>= λ zs. ok (z ∷ zs)) e
          ∙ ap (λ r. r >>= λ zs. ok (y ∷ zs)) h,
    )
