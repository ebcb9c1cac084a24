-- ===== src/Auth/Roles/Sound.antt =====
-- Each role that is gathered stands in the claims.
use frego_finance.Prelude.{
  ◌≡◌, refl, sym, ap, ◌∙◌, ◌⊎◌, inl, inr, Bool, true, false, ◌||◌, Option, none, some, List, [],
  ◌∷◌, arith, Bool-cases, Option-cases, nat_eq, Text, text_beq, text_beq_iff, text_eq, codes,
  contains, contains-append,
}
use frego_finance.Context.Claims.{
  Value, null, boolean, number, text, texts, stringer, array, object, Items, nil, cons, Entries,
  lookup,
}
use frego_finance.Auth.Claims.{
  string_claim, if_non_empty, collect_items, to_string_slice, as_object, nested_map,
}
use frego_finance.Auth.Roles.{roles_of, section_roles, sections_roles, gathered_roles}
use frego_finance.Auth.Roles.Given.{
  AnyOf, AnyItem, IsGiven, HasRole, IsSection, InRealm, InResource, slice_of, realm_of,
  resources_of,
}

or_true : (x y : Bool) → (x || y) ≡ true → (x ≡ true) ⊎ (y ≡ true)
or_true true y h = inl refl
or_true false y h = inr h

module _ (a : Text) where
  texts_sound : (ss : List Text) → contains ss a ≡ true → AnyOf (λ s. s ≡ a) ss
  unfolding contains
  texts_sound [] h = absurd (ground arith)
  texts_sound (s ∷ ss) h = elim (Bool-cases (text_beq s a)) [
    | inl e ↦ inl ((text_beq_iff s a).0 e)
    | inr e ↦ inr (texts_sound ss (ground arith))
  ]

  one_sound : (o : Option Text) → contains (if_non_empty o) a ≡ true → o ≡ some a
  unfolding contains
  one_sound none h = absurd (ground arith)
  one_sound (some []) h = absurd (ground arith)
  one_sound (some (c ∷ s)) h = ap (λ t. some t) ((text_beq_iff (c ∷ s) a).0 (ground arith))

  items_sound : (xs : Items) → contains (collect_items xs) a ≡ true → AnyItem a xs
  unfolding collect_items contains
  items_sound nil h = absurd (ground arith)
  items_sound (cons v vs) h =
      elim (or_true _ _
        (sym (contains-append (if_non_empty (string_claim v)) (collect_items vs) a) ∙ h)) [
          | inl e ↦ inl (one_sound (string_claim v) e)
          | inr e ↦ inr (items_sound vs e)
        ]

  text_sound : (s : Text) → contains (if_non_empty (some s)) a ≡ true → s ≡ a
  text_sound s h = let k : some s ≡ some a = one_sound (some s) h in cc k

  value_sound : (v : Value) → contains (to_string_slice v) a ≡ true → IsGiven a v
  unfolding to_string_slice string_claim contains
  value_sound (text s) h = text_sound s h
  value_sound (stringer s) h = text_sound s h
  value_sound (texts ss) h = texts_sound ss h
  value_sound (array xs) h = items_sound xs h
  value_sound (object m) h = absurd (ground arith)
  value_sound (number n) h = absurd (ground arith)
  value_sound (boolean b) h = absurd (ground arith)
  value_sound null h = absurd (ground arith)

  nothing_in : contains [] a ≡ true → ⊥
  unfolding contains
  nothing_in h = ground arith

  section_sound : (m : Entries) → contains (roles_of m) a ≡ true → HasRole a m
  unfolding roles_of
  section_sound m h = elim (Option-cases (lookup (codes "roles") m)) [
    | inl e ↦ absurd (nothing_in (sym (ap (λ o. contains (slice_of o) a) e) ∙ h))
    | inr (v, e) ↦ (v, e, value_sound v (sym (ap (λ o. contains (slice_of o) a) e) ∙ h))
  ]

  sections_sound :
      (vs : List Value) → contains (sections_roles vs) a ≡ true → AnyOf (IsSection a) vs
  unfolding sections_roles contains
  sections_sound [] h = absurd (ground arith)
  sections_sound (v ∷ vs) h =
      elim (or_true _ _ (sym (contains-append (section_roles v) (sections_roles vs) a) ∙ h)) [
        | inl e ↦ inl (section_value v e)
        | inr e ↦ inr (sections_sound vs e)
      ]
    where
      section_value : (v : Value) → contains (section_roles v) a ≡ true → IsSection a v
      section_value (object m) h = section_sound m h
      section_value (text s) h = absurd (ground arith)
      section_value (stringer s) h = absurd (ground arith)
      section_value (texts ss) h = absurd (ground arith)
      section_value (array xs) h = absurd (ground arith)
      section_value (number n) h = absurd (ground arith)
      section_value (boolean b) h = absurd (ground arith)
      section_value null h = absurd (ground arith)

  nested_map-lookup :
      (claims m : Entries) (key : Text)
      → nested_map claims key ≡ some m
      → lookup key claims ≡ some (object m)
  unfolding nested_map
  nested_map-lookup claims m key h = looked (lookup key claims) h
    where
      looked : (o : Option Value) → as_object o ≡ some m → o ≡ some (object m)
      looked none h = absurd (let k = h in cc)
      looked (some (object x)) h = let k : x ≡ m = cc h in ap (λ y. some (object y)) k
      looked (some (text s)) h = absurd (let k = h in cc)
      looked (some (stringer s)) h = absurd (let k = h in cc)
      looked (some (texts ss)) h = absurd (let k = h in cc)
      looked (some (array xs)) h = absurd (let k = h in cc)
      looked (some (number n)) h = absurd (let k = h in cc)
      looked (some (boolean b)) h = absurd (let k = h in cc)
      looked (some null) h = absurd (let k = h in cc)

  module _ (visit : Entries → List Value) (claims : Entries) where
    abbrev realm : List Text
    realm = realm_of (nested_map claims (codes "realm_access"))

    abbrev resources : List Text
    resources = resources_of visit (nested_map claims (codes "resource_access"))

    realm_sound : contains realm a ≡ true → InRealm a claims
    realm_sound h = elim (Option-cases (nested_map claims (codes "realm_access"))) [
      | inl e ↦ absurd (nothing_in (sym (ap (λ o. contains (realm_of o) a) e) ∙ h))
      | inr (m, e) ↦ (
        m,
        nested_map-lookup claims m _ e,
        section_sound m (sym (ap (λ o. contains (realm_of o) a) e) ∙ h),
      )
    ]

    resources_sound : contains resources a ≡ true → InResource visit a claims
    resources_sound h = elim (Option-cases (nested_map claims (codes "resource_access"))) [
      | inl e ↦ absurd (nothing_in (sym (ap (λ o. contains (resources_of visit o) a) e) ∙ h))
      | inr (m, e) ↦ (
        m,
        nested_map-lookup claims m _ e,
        sections_sound (visit m) (sym (ap (λ o. contains (resources_of visit o) a) e) ∙ h),
      )
    ]

    pub gathered_roles_sound :
        contains (gathered_roles visit claims) a ≡ true
        → InRealm a claims ⊎ InResource visit a claims
    unfolding gathered_roles
    gathered_roles_sound h = elim (or_true _ _ (sym (contains-append realm resources a) ∙ h)) [
      | inl e ↦ inl (realm_sound e)
      | inr e ↦ inr (resources_sound e)
    ]
