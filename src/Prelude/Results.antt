-- ===== src/Prelude/Results.antt =====
-- A Go result (value, error) of which exactly one is meant, and its chaining.
use mathlib.Core.Path.{◌≡◌, refl}

pub data Result {ℓ} (E A : Type ℓ) : Type ℓ where
  ok : A → Result E A
  err : E → Result E A

-- `fmt.Errorf("…: %w", err)`
abbrev pub wrap_err {ℓ} : {E F A : Type ℓ} → (E → F) → Result E A → Result F A
wrap_err f (ok a) = ok a
wrap_err f (err e) = err (f e)

infixl 5 ◌>>=◌
abbrev pub ◌>>=◌ {ℓ} : {E A B : Type ℓ} (m : Result E A) (next : A → Result E B) → Result E B
err e >>= next = err e
ok a >>= next = next a

-- A chain that ends well had a first part that ended well.
pub >>=-eq-ok {ℓ} :
    {E A B : Type ℓ} {z : B} (first : Result E A) (next : A → Result E B)
    → (first >>= next) ≡ ok z
    → (x : A) × (first ≡ ok x) × (next x ≡ ok z)
>>=-eq-ok (err e) next reached = cc
>>=-eq-ok (ok x) next reached = (x, refl, reached)

pub wrap_err-eq-ok {ℓ} :
    {D E A : Type ℓ} {x : A} (f : D → E) (m : Result D A) → wrap_err f m ≡ ok x → m ≡ ok x
wrap_err-eq-ok f (err e) h = cc
wrap_err-eq-ok f (ok y) h = let k = h in cc

pub ok-injective {ℓ} : {E A : Type ℓ} {a b : A} → ◌≡◌ {A = Result E A} (ok a) (ok b) → a ≡ b
ok-injective h = cc
