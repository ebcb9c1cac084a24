-- ===== src/Auth/Roles/Complete.antt =====
-- Each role that stands in the claims is gathered.
use frego_finance.Prelude.{
  ◌≡◌, ap, ◌∙◌, ◌≢◌, ◌⊎◌, inl, inr, Bool, true, ◌||◌, Option, none, some, List, [], ◌∷◌, arith,
  nat_eq, Text, text_beq_iff, text_eq, codes, contains, contains-append,
}
use frego_finance.Context.Claims.{
  Value, null, boolean, number, text, texts, stringer, array, object, Items, nil, cons, Entries,
}
use frego_finance.Auth.Claims.{
  string_claim, if_non_empty, collect_items, to_string_slice, as_object, nested_map,
}
use frego_finance.Auth.Roles.{roles_of, section_roles, sections_roles, gathered_roles}
use frego_finance.Auth.Roles.Given.{
  AnyOf, AnyItem, IsGiven, HasRole, IsSection, InRealm, InResource, slice_of, realm_of,
  resources_of,
}

or_left : (x y : Bool) → x ≡ true → (x || y) ≡ true
or_left x y h = ground (arith, h)

or_right : (x y : Bool) → y ≡ true → (x || y) ≡ true
or_right x y h = ground (arith, h)

module _ (a : Text) where
  texts_complete : (ss : List Text) → AnyOf (λ s. s ≡ a) ss → contains ss a ≡ true
  unfolding contains
  texts_complete [] h = absurd h
  texts_complete (s ∷ ss) (inl e) = ground (arith, text_beq_iff s a)
  texts_complete (s ∷ ss) (inr k) = ground (arith, texts_complete ss k)

  module _ (filled : a ≢ []) where
    one_complete : (o : Option Text) → o ≡ some a → contains (if_non_empty o) a ≡ true
    unfolding contains
    one_complete none e = absurd (let k = e in cc)
    one_complete (some []) e = absurd (filled (let k = e in cc))
    one_complete (some (c ∷ s)) e =
        let k : c ∷ s ≡ a = cc e in ground (arith, text_beq_iff (c ∷ s) a)

    items_complete : (xs : Items) → AnyItem a xs → contains (collect_items xs) a ≡ true
    unfolding collect_items
    items_complete nil h = absurd h
    items_complete (cons v vs) (inl e) =
        contains-append (if_non_empty (string_claim v)) (collect_items vs) a
        ∙ or_left _ _ (one_complete (string_claim v) e)
    items_complete (cons v vs) (inr k) =
        contains-append (if_non_empty (string_claim v)) (collect_items vs) a
        ∙ or_right _ _ (items_complete vs k)

    value_complete : (v : Value) → IsGiven a v → contains (to_string_slice v) a ≡ true
    unfolding to_string_slice string_claim
    value_complete (text s) h = one_complete (some s) (ap (λ t. some t) h)
    value_complete (stringer s) h = one_complete (some s) (ap (λ t. some t) h)
    value_complete (texts ss) h = texts_complete ss h
    value_complete (array xs) h = items_complete xs h
    value_complete (object m) h = absurd h
    value_complete (number n) h = absurd h
    value_complete (boolean b) h = absurd h
    value_complete null h = absurd h

    section_complete : (m : Entries) → HasRole a m → contains (roles_of m) a ≡ true
    unfolding roles_of
    section_complete m (v, e, given) = ap (λ o. contains (slice_of o) a) e ∙ value_complete v given

    one_section_complete : (v : Value) → IsSection a v → contains (section_roles v) a ≡ true
    one_section_complete (object m) h = section_complete m h
    one_section_complete (text s) h = absurd h
    one_section_complete (stringer s) h = absurd h
    one_section_complete (texts ss) h = absurd h
    one_section_complete (array xs) h = absurd h
    one_section_complete (number n) h = absurd h
    one_section_complete (boolean b) h = absurd h
    one_section_complete null h = absurd h

    sections_complete :
        (vs : List Value) → AnyOf (IsSection a) vs → contains (sections_roles vs) a ≡ true
    unfolding sections_roles
    sections_complete [] h = absurd h
    sections_complete (v ∷ vs) (inl k) =
        contains-append (section_roles v) (sections_roles vs) a
        ∙ or_left _ _ (one_section_complete v k)
    sections_complete (v ∷ vs) (inr k) =
        contains-append (section_roles v) (sections_roles vs) a
        ∙ or_right _ _ (sections_complete vs k)

    module _ (visit : Entries → List Value) (claims : Entries) where
      realm_complete :
          InRealm a claims → contains (realm_of (nested_map claims (codes "realm_access"))) a ≡ true
      unfolding nested_map
      realm_complete (m, e, given) =
          ap (λ o. contains (realm_of (as_object o)) a) e ∙ section_complete m given

      resources_complete :
          InResource visit a claims
          → contains (resources_of visit (nested_map claims (codes "resource_access"))) a ≡ true
      unfolding nested_map
      resources_complete (m, e, given) =
          ap (λ o. contains (resources_of visit (as_object o)) a) e
          ∙ sections_complete (visit m) given

      pub gathered_roles_complete :
          InRealm a claims ⊎ InResource visit a claims
          → contains (gathered_roles visit claims) a ≡ true
      unfolding gathered_roles
      gathered_roles_complete (inl k) =
          contains-append (realm_of (nested_map claims (codes "realm_access")))
            (resources_of visit (nested_map claims (codes "resource_access"))) a
          ∙ or_left _ _ (realm_complete k)
      gathered_roles_complete (inr k) =
          contains-append (realm_of (nested_map claims (codes "realm_access")))
            (resources_of visit (nested_map claims (codes "resource_access"))) a
          ∙ or_right _ _ (resources_complete k)
