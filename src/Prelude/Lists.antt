-- ===== src/Prelude/Lists.antt =====
-- Predicates on all members of a list, membership tests, and lengths over the native numbers.
use Prim.Native.Nat.{ℕ, suc, ◌+◌}
use Prim.Native.Char.{code}
use Prim.Native.String.{String}
use mathlib.Core.Path.{◌≡◌, refl, sym}
use mathlib.Core.Logic.{◌↔◌, inl, inr}
use mathlib.Core.Logic.Or
use mathlib.Core.Bool.{Bool, true, false, ◌||◌, Bool-discrete}
use mathlib.Core.HLevel.{hedberg}
use mathlib.Core.List.{List, [], ◌∷◌, ◌++◌, Mem, mem-cons, mem-cons_of_mem, not-mem-nil}
use native.Mathlib.Omega.{arith}
use frego_finance.Prelude.Tests.{Bool-cases}
use frego_finance.Prelude.Equality.{Text, text_beq, text_beq_iff}

-- The code points of a literal.
abbrev pub codes : String → Text
codes String.[] = []
codes (String.◌∷◌ c s) = code c ∷ codes s

abbrev pub length {ℓ} : {A : Type ℓ} → List A → ℕ
length [] = 0
length (x ∷ xs) = suc (length xs)

module _ {ℓ κ} {A : Type ℓ} (P : A → Type κ) where
  abbrev pub All : List A → Type κ
  All [] = Unit
  All (x ∷ xs) = P x × All xs

  pub All-append : (xs ys : List A) → All xs → All ys → All (xs ++ ys)
  All-append [] ys _ hy = hy
  All-append (x ∷ xs) ys (px, hx) hy = (px, All-append xs ys hx hy)

-- Is the text among the texts?
unfoldable pub contains : List Text → Text → Bool
contains [] a = false
contains (x ∷ xs) a = text_beq x a || contains xs a

pub contains-append :
    (xs ys : List Text) (a : Text) → contains (xs ++ ys) a ≡ (contains xs a || contains ys a)
unfolding contains
contains-append [] ys a = refl
contains-append (x ∷ xs) ys a = ground (arith, contains-append xs ys a)

contains-Mem_sound : (xs : List Text) (a : Text) → contains xs a ≡ true → Mem a xs
unfolding contains
contains-Mem_sound [] a h = absurd (ground arith)
contains-Mem_sound (x ∷ xs) a h = elim (Bool-cases (text_beq x a)) [
  | inl e ↦ mem-cons.1 (Or.inl (sym ((text_beq_iff x a).0 e)))
  | inr e ↦ mem-cons_of_mem x (contains-Mem_sound xs a (ground arith))
]

contains-Mem_complete : (xs : List Text) (a : Text) → Mem a xs → contains xs a ≡ true
unfolding contains
contains-Mem_complete [] a m = absurd (not-mem-nil m)
contains-Mem_complete (x ∷ xs) a m =
    Or.elim (hedberg Bool-discrete _ _) (mem-cons.0 m)
      (λ e. ground (arith, text_beq_iff x a, sym e))
      (λ k. ground (arith, contains-Mem_complete xs a k))

-- The test decides the library's membership.
pub contains-Mem : (xs : List Text) (a : Text) → (contains xs a ≡ true) ↔ Mem a xs
contains-Mem xs a = (contains-Mem_sound xs a, contains-Mem_complete xs a)

pub length-append {ℓ} : {A : Type ℓ} (xs ys : List A) → length (xs ++ ys) ≡ length xs + length ys
length-append [] ys = omega arith
length-append (x ∷ xs) ys = omega (arith, length-append xs ys)
