-- ===== src/Dto/RoundTrip/Tenants.antt =====
-- Reading the structs of internal/dto/tenant back from their JSON objects, each field by
-- the name of its tag.
use frego_finance.Prelude.{◌≡◌, refl, true, false, [], nat_eq, text_beq, text_eq, contains, codes}
use frego_finance.Dto.Wire.{Members, encode}
use frego_finance.Dto.Members.{
  member_at, names, are_distinct, encode-IsFound, text_in, instant_in, uuid_in, flag_in, or_else,
  read_text, read_instant,
}
use frego_finance.Dto.Tenants.{
  Tenant, CreateTenantRequest, CreateTenantResponse, tenant_fields, create_tenant_request_fields,
  create_tenant_response_fields,
}

abbrev pub read_tenant : Members → Tenant
read_tenant m = record {
  tenant_id = or_else [] (uuid_in (member_at (codes "tenant_id") m));
  schema_name = or_else [] (text_in (member_at (codes "schema_name") m));
  display_name = text_in (member_at (codes "display_name") m);
  contact_email = text_in (member_at (codes "contact_email") m);
  is_active = or_else false (flag_in (member_at (codes "is_active") m));
  created_at = or_else 0 (instant_in (member_at (codes "created_at") m));
  created_by = text_in (member_at (codes "created_by") m);
  modified_at = instant_in (member_at (codes "modified_at") m);
  modified_by = text_in (member_at (codes "modified_by") m);
}

tenant_fields-distinct : (x : Tenant) → are_distinct (names (tenant_fields x)) ≡ true
unfolding tenant_fields are_distinct contains text_beq
tenant_fields-distinct x = refl

pub read_tenant-encode : (x : Tenant) → read_tenant (encode (tenant_fields x)) ≡ x
unfolding tenant_fields
read_tenant-encode x =
    let e = encode-IsFound (tenant_fields x) (tenant_fields-distinct x) in
    λ i. record {
      tenant_id = or_else [] (uuid_in (e 0 i));
      schema_name = or_else [] (text_in (e 1 i));
      display_name = read_text x.display_name (e 2) i;
      contact_email = read_text x.contact_email (e 3) i;
      is_active = or_else false (flag_in (e 4 i));
      created_at = or_else 0 (instant_in (e 5 i));
      created_by = read_text x.created_by (e 6) i;
      modified_at = read_instant x.modified_at (e 7) i;
      modified_by = read_text x.modified_by (e 8) i;
    }

abbrev pub read_create_tenant_request : Members → CreateTenantRequest
read_create_tenant_request m = record {
  tenant_id = or_else [] (text_in (member_at (codes "tenant_id") m));
  schema_name = text_in (member_at (codes "schema_name") m);
  display_name = text_in (member_at (codes "display_name") m);
  contact_email = text_in (member_at (codes "contact_email") m);
}

create_tenant_request_fields-distinct :
    (x : CreateTenantRequest) → are_distinct (names (create_tenant_request_fields x)) ≡ true
unfolding create_tenant_request_fields are_distinct contains text_beq
create_tenant_request_fields-distinct x = refl

pub read_create_tenant_request-encode :
    (x : CreateTenantRequest)
    → read_create_tenant_request (encode (create_tenant_request_fields x)) ≡ x
unfolding create_tenant_request_fields
read_create_tenant_request-encode x =
    let e =
      encode-IsFound (create_tenant_request_fields x) (create_tenant_request_fields-distinct x) in
    λ i. record {
      tenant_id = or_else [] (text_in (e 0 i));
      schema_name = read_text x.schema_name (e 1) i;
      display_name = read_text x.display_name (e 2) i;
      contact_email = read_text x.contact_email (e 3) i;
    }

abbrev pub read_create_tenant_response : Members → CreateTenantResponse
read_create_tenant_response m = record {
  tenant_id = or_else [] (uuid_in (member_at (codes "tenant_id") m));
  schema_name = or_else [] (text_in (member_at (codes "schema_name") m));
  message = or_else [] (text_in (member_at (codes "message") m));
}

create_tenant_response_fields-distinct :
    (x : CreateTenantResponse) → are_distinct (names (create_tenant_response_fields x)) ≡ true
unfolding create_tenant_response_fields are_distinct contains text_beq
create_tenant_response_fields-distinct x = refl

pub read_create_tenant_response-encode :
    (x : CreateTenantResponse)
    → read_create_tenant_response (encode (create_tenant_response_fields x)) ≡ x
unfolding create_tenant_response_fields
read_create_tenant_response-encode x =
    let e =
      encode-IsFound (create_tenant_response_fields x) (create_tenant_response_fields-distinct x) in
    λ i. record {
      tenant_id = or_else [] (uuid_in (e 0 i));
      schema_name = or_else [] (text_in (e 1 i));
      message = or_else [] (text_in (e 2 i));
    }
