-- ===== src/Examples/Tools.antt =====
-- A tool that is called with a token.
use factvault.Common.{◌≡◌, refl, inl, ◌++◌, [], Text, lit, pos, ok, text_eq}
use factvault.Auth.{Claims, verify, verify_list, split_dots, is_expired, bearer_token}
use factvault.Auth
use factvault.Utf8.{runes, rune_width}
use factvault.Strings.{trim_space, trim_prefix?}
use factvault.Mcp.{
  entity_lookup, tenant_from_authorization, bare_token, tenant_of, answer_of, IsTenant,
  tools-AreOfTenant,
}
use factvault.Retrieval.Tenants.{IsAnswer}
use factvault.Examples.Tokens.{crypto, shift, marshal}
use factvault.Examples.Retrievals.{service, vault, answered_now}
use factvault.Examples.Bundles.{uuid_cast, bundle}

abbrev claims : Claims
claims = record {
  tenant_id = lit "ttttttt";
  subject = lit "s";
  issued_at = pos 1;
  expires_at = pos 9;
}

abbrev token : Text
token =
    (shift (lit "RS256") ++ (lit "." ++ shift (marshal claims)))
    ++ (lit "." ++ shift (shift (lit "RS256") ++ (lit "." ++ shift (marshal claims))))

tenant_now : tenant_from_authorization crypto (pos 5) (lit "Bearer " ++ token) ≡ ok (lit "ttttttt")
unfolding tenant_from_authorization tenant_of bare_token bearer_token trim_space trim_prefix? verify
    verify_list split_dots Auth.verify_parts Auth.header_accepted Auth.is_rs256
    Auth.signature_accepted Auth.claims_of is_expired text_eq runes rune_width
tenant_now = refl

looked_up :
    entity_lookup crypto
      (pos 5)
      uuid_cast
      service
      vault
      (record { authorization = lit "Bearer " ++ token; entity_id = lit "a"; depth = pos 0 })
    ≡ ok bundle
unfolding entity_lookup answer_of
looked_up = rw (tenant_now, answered_now) refl

tools-AreOfTenant_example :
    (tenant : Text) × IsTenant crypto (pos 5) (lit "Bearer " ++ token) tenant
    × IsAnswer uuid_cast tenant bundle
tools-AreOfTenant_example =
    tools-AreOfTenant crypto (pos 5) uuid_cast service vault bundle (lit "Bearer " ++ token)
      (lit "a") [] (pos 0) (inl looked_up)
