-- ===== src/Auth/Roles/Laws.antt =====
-- What dedupe and extractRoles guarantee.
use frego_finance.Prelude.{
  ◌≡◌, refl, sym, ◌∙◌, ◌≢◌, ◌↔◌, inl, inr, false, not, ◌&&◌, List, [], ◌∷◌, Mem, Nodup, arith,
  Bool-cases, Option-cases, ◌==◌, nat_eq, Text, text_beq_iff, text_beq_refl, text_eq, codes,
  contains, contains-append, contains-Mem,
}
use mathlib.Core.List.{Perm, Nodup-cons, Nodup-nil, Permᴰ, perm_ext_iff_of_Nodup}
use mathlib.Core.List.Perm
use mathlib.Core.Logic.{∥∥₁_elim}
use mathlib.Core.Bool.{Bool-set}
use frego_finance.Auth.Claims.{nested_map}
use frego_finance.Context.Claims.{Value, Entries}
use frego_finance.Auth.Roles.Given.{InRealm, InResource}
use frego_finance.Auth.Roles.Sound.{gathered_roles_sound}
use frego_finance.Auth.Roles.Complete.{gathered_roles_complete}
use frego_finance.Prelude.{◌⊎◌}
use frego_finance.Auth.Roles.{
  sections_roles, section_roles, dedupe_from, dedupe, gathered_roles, extract_roles,
}

contains-dedupe_from :
    (seen vs : List Text) (a : Text)
    → contains (dedupe_from seen vs) a ≡ (contains vs a && (not (a == []) && not (contains seen a)))
unfolding dedupe_from contains
contains-dedupe_from seen [] a = refl
contains-dedupe_from seen (v ∷ vs) a = ground (
  arith,
  contains-dedupe_from seen vs a,
  contains-dedupe_from (v ∷ seen) vs a,
  text_beq_iff v a,
  text_beq_iff v [],
  text_beq_iff a [],
)

-- A role is kept exactly when it was given and is not empty.
mem-dedupe_iff : (vs : List Text) (a : Text) → Mem a (dedupe vs) ↔ (Mem a vs × (a ≢ []))
unfolding dedupe contains
mem-dedupe_iff vs a = (
  λ m.
      let h = (contains-Mem _ a).1 m in
      (
        (contains-Mem vs a).0 (ground (arith, contains-dedupe_from [] vs a)),
        ground (arith, contains-dedupe_from [] vs a, text_beq_iff a []),
      ),
  λ (m, h).
      (contains-Mem _ a).0
        (ground (arith, contains-dedupe_from [] vs a, text_beq_iff a [], (contains-Mem vs a).1 m)),
)

not_contains→not_mem : (vs : List Text) (a : Text) → contains vs a ≡ false → ¬ Mem a vs
not_contains→not_mem vs a h m = cc ((contains-Mem vs a).1 m)

dedupe_from-Nodup : (seen vs : List Text) → Nodup (dedupe_from seen vs)
unfolding dedupe_from contains
dedupe_from-Nodup seen [] = Nodup-nil
dedupe_from-Nodup seen (v ∷ vs) = elim (Bool-cases (v == [])) [
  | inl e ↦ rw e (dedupe_from-Nodup seen vs)
  | inr e ↦ elim (Bool-cases (contains seen v)) [
    | inl f ↦ rw (e, f) (dedupe_from-Nodup seen vs)
    | inr f ↦
        rw (e, f)
          (Nodup-cons.1 (
            not_contains→not_mem _ v
                (ground (arith, contains-dedupe_from (v ∷ seen) vs v, text_beq_refl v)),
            dedupe_from-Nodup (v ∷ seen) vs,
          ))
  ]
]

dedupe-Nodup : (vs : List Text) → Nodup (dedupe vs)
unfolding dedupe
dedupe-Nodup vs = dedupe_from-Nodup [] vs

sections_roles-Permᴰ :
    {vs ws : List Value} (a : Text)
    → Permᴰ vs ws
    → contains (sections_roles vs) a ≡ contains (sections_roles ws) a
unfolding sections_roles
sections_roles-Permᴰ a Permᴰ.nil = refl
sections_roles-Permᴰ a (Permᴰ.cons {a = x} {b = y} {l₁ = vs} {l₂ = ws} e d) = rw (
  e,
  contains-append (section_roles y) (sections_roles vs) a,
  contains-append (section_roles y) (sections_roles ws) a,
  sections_roles-Permᴰ a d,
)
sections_roles-Permᴰ a (Permᴰ.swap {a = x} {b = y} {l = vs} e f) =
    rw (← e, ← f) (simp contains-append (ground arith))
sections_roles-Permᴰ a (Permᴰ.trans d d') = sections_roles-Permᴰ a d ∙ sections_roles-Permᴰ a d'

sections_roles-Perm :
    {vs ws : List Value} (a : Text)
    → Perm vs ws
    → contains (sections_roles vs) a ≡ contains (sections_roles ws) a
sections_roles-Perm a p = ∥∥₁_elim p (Bool-set _ _) (sections_roles-Permᴰ a)

-- Whatever the order in which the sections of the token are visited, the same roles are found.
module _ (visit visit' : Entries → List Value)
    (same : (m : Entries) → Perm (visit m) (visit' m)) where
  contains-gathered_roles :
      (claims : Entries) (a : Text)
      → contains (gathered_roles visit claims) a ≡ contains (gathered_roles visit' claims) a
  unfolding gathered_roles
  contains-gathered_roles claims a =
      elim (Option-cases (nested_map claims (codes "resource_access"))) [
        | inl e ↦ rw e
        | inr (m, e) ↦ rw (
          e,
          contains-append _ (sections_roles (visit m)) a,
          contains-append _ (sections_roles (visit' m)) a,
          sections_roles-Perm a (same m),
        )
      ]

  mem-gathered_roles :
      (claims : Entries) (a : Text)
      → Mem a (gathered_roles visit claims)
      → Mem a (gathered_roles visit' claims)
  mem-gathered_roles claims a m =
      (contains-Mem _ a).0 (sym (contains-gathered_roles claims a) ∙ (contains-Mem _ a).1 m)

-- The roles of a token do not depend, up to their order, on the order in which Go visits the
-- entries of the map "resource_access": any two orders of visiting that are rearrangements of one
-- another give role lists that are rearrangements of one another.
pub extract_roles-Perm :
    (visit visit' : Entries → List Value)
    → ((m : Entries) → Perm (visit m) (visit' m))
    → (claims : Entries) → Perm (extract_roles visit claims) (extract_roles visit' claims)
unfolding extract_roles
extract_roles-Perm visit visit' same claims =
    (perm_ext_iff_of_Nodup (dedupe-Nodup _) (dedupe-Nodup _)).1 λ a. (
      λ m.
          let (h, k) = (mem-dedupe_iff _ a).0 m in
          (mem-dedupe_iff _ a).1 (mem-gathered_roles visit visit' same claims a h, k),
      λ m.
          let (h, k) = (mem-dedupe_iff _ a).0 m in
          (mem-dedupe_iff _ a).1
            (mem-gathered_roles visit' visit (λ m. Perm.symm (same m)) claims a h, k),
    )

-- The roles of a token are distinct, and a text is one of them exactly when it is not empty and the
-- entry "roles" of the map under "realm_access", or of a map among the values of the map under
-- "resource_access", gives it: by being this text, or a list or an array that holds it.
pub extract_roles-Nodup_mem :
    (visit : Entries → List Value) (claims : Entries)
    → Nodup (extract_roles visit claims)
      × ((a : Text)
          → Mem a (extract_roles visit claims)
            ↔ ((InRealm a claims ⊎ InResource visit a claims) × (a ≢ [])))
unfolding extract_roles
extract_roles-Nodup_mem visit claims = (
  dedupe-Nodup _,
  λ a. (
    λ m.
        let (h, k) = (mem-dedupe_iff _ a).0 m in
        (gathered_roles_sound a visit claims ((contains-Mem _ a).1 h), k),
    λ (h, k).
        (mem-dedupe_iff _ a).1
          ((contains-Mem _ a).0 (gathered_roles_complete a k visit claims h), k),
  ),
)
