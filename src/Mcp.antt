-- ===== src/Mcp.antt =====
-- internal/mcp/server.go: the tools, and the tenant whose token they are called with.
use factvault.Common.{
  none, some, [], Text, text_eq, ℤ, if◌then◌else◌, Result, ok, err, ◌>>=◌, ◌≡◌, ◌⊎◌, Result-cases,
  inl, inr, arith,
}
use factvault.Strings.{trim_space}
use factvault.Assembler.Graph.{UuidCast}
use factvault.Assembler.Tables.{Bundle}
use factvault.Auth.{Claims, Crypto, verify, bearer_token}
use factvault.Auth
use factvault.Auth.Accepted.{IsAuthentic, verify-IsAuthentic}
use factvault.Retrieval.{RetrievalDb, Service, StoryRequest, dossier, story, facts_query}
use factvault.Retrieval
use factvault.Retrieval.Tenants.{retrieval-IsAnswer}
use factvault.Retrieval.Tenants

pub data Error : Type 0 where
  missing_token missing_tenant : Error
  bad_token : Auth.Error → Error
  service_error : Retrieval.Error → Error

pub record EntityLookupArgs : Type 0 where
  pub authorization : Text
  pub entity_id : Text
  pub depth : ℤ

pub record StoryQueryArgs : Type 0 where
  pub authorization : Text
  pub query : Text
  pub depth : ℤ

pub record FactQueryArgs : Type 0 where
  pub authorization : Text
  pub query : Text

-- The token, without the word `Bearer` if that stands before it.
unfoldable pub bare_token : Text → Text
bare_token token = elim (bearer_token token) [ none ↦ token | some bearer ↦ bearer ]

unfoldable pub answer_of : Result Retrieval.Error Bundle → Result Error Bundle
answer_of (ok bundle) = ok bundle
answer_of (err e) = err (service_error e)

unfoldable pub tenant_of : Result Auth.Error Claims → Result Error Text
tenant_of (err e) = err (bad_token e)
tenant_of (ok claims) =
    if text_eq claims.tenant_id [] then err missing_tenant else ok claims.tenant_id

module _ (crypto : Crypto) (now : ℤ) where
  unfoldable pub tenant_from_authorization : Text → Result Error Text
  tenant_from_authorization authorization =
      if text_eq (trim_space authorization) []
      then err missing_token
      else tenant_of (verify crypto now (bare_token (trim_space authorization)))

  module _ (c : UuidCast) (s : Service) (db : RetrievalDb) where
    unfoldable pub entity_lookup : EntityLookupArgs → Result Error Bundle
    entity_lookup args = tenant_from_authorization args.authorization >>= λ tenant.
        answer_of (dossier c db tenant args.entity_id)

    pub story_query : StoryQueryArgs → Result Error Bundle
    story_query args = tenant_from_authorization args.authorization >>= λ tenant.
        answer_of (story c s db tenant (record { query = args.query; depth = args.depth }))

    pub fact_query : FactQueryArgs → Result Error Bundle
    fact_query args = tenant_from_authorization args.authorization >>= λ tenant.
        answer_of (facts_query c s db tenant args.query)

  -- The tenant is the one of a token that the text holds, whose signature passes the check.
  abbrev pub IsTenant : Text → Text → Type 0
  IsTenant authorization tenant =
      (claims : Claims) × IsAuthentic crypto (bare_token (trim_space authorization)) claims
      × (claims.tenant_id ≡ tenant)

  tenant_from_authorization-IsTenant :
      (authorization tenant : Text)
      → tenant_from_authorization authorization ≡ ok tenant
      → IsTenant authorization tenant
  unfolding tenant_from_authorization tenant_of
  tenant_from_authorization-IsTenant authorization tenant h =
      elim (Result-cases (verify crypto now (bare_token (trim_space authorization)))) [
        | inr (e, refused) ↦ absurd (ground arith)
        | inl (claims, good) ↦ (
          claims,
          (verify-IsAuthentic crypto (bare_token (trim_space authorization)) now claims good).0,
          ground arith,
        )
      ]

  -- A bundle is answered only for the tenant of such a token, as the service answers it.
  abbrev IsAnswer : Text → (Text → Result Retrieval.Error Bundle) → Bundle → Type 0
  IsAnswer authorization run bundle =
      (tenant : Text) × IsTenant authorization tenant × (run tenant ≡ ok bundle)

  answered :
      (run : Text → Result Retrieval.Error Bundle) (authorization : Text) (bundle : Bundle)
      → (tenant_from_authorization authorization >>= λ tenant. answer_of (run tenant)) ≡ ok bundle
      → IsAnswer authorization run bundle
  unfolding answer_of
  answered run authorization bundle h =
      elim (Result-cases (tenant_from_authorization authorization)) [
        | inr (e, refused) ↦ absurd (ground arith)
        | inl (tenant, good) ↦ elim (Result-cases (run tenant)) [
          | inr (e, failed) ↦ absurd (ground arith)
          | inl (found, read) ↦
              (tenant, tenant_from_authorization-IsTenant authorization tenant good, ground arith)
        ]
      ]

  module _ (c : UuidCast) (s : Service) (db : RetrievalDb) (bundle : Bundle) where
    entity_lookup-IsAnswer :
        (args : EntityLookupArgs)
        → entity_lookup c s db args ≡ ok bundle
        → IsAnswer args.authorization (λ tenant. dossier c db tenant args.entity_id) bundle
    unfolding entity_lookup
    entity_lookup-IsAnswer args h =
        answered (λ tenant. dossier c db tenant args.entity_id) args.authorization bundle h

    story_query-IsAnswer :
        (args : StoryQueryArgs)
        → story_query c s db args ≡ ok bundle
        → IsAnswer args.authorization
            (λ tenant. story c s db tenant (record { query = args.query; depth = args.depth }))
            bundle
    unfolding story_query
    story_query-IsAnswer args h =
        answered (λ tenant. story c s db tenant (record { query = args.query; depth = args.depth }))
          args.authorization bundle h

    fact_query-IsAnswer :
        (args : FactQueryArgs)
        → fact_query c s db args ≡ ok bundle
        → IsAnswer args.authorization (λ tenant. facts_query c s db tenant args.query) bundle
    unfolding fact_query
    fact_query-IsAnswer args h =
        answered (λ tenant. facts_query c s db tenant args.query) args.authorization bundle h

  -- A bundle that one of the tools answers belongs to a tenant, holds only entities and relations of
  -- that tenant and is closed; and the authorization that the tool was called with is a token of that
  -- tenant whose signature passes the check, with or without the word Bearer before it.
  pub tools-AreOfTenant :
      (c : UuidCast) (s : Service) (db : RetrievalDb) (bundle : Bundle)
      (authorization entity_id query : Text) (depth : ℤ)
      → (entity_lookup c s db
            (record { authorization = authorization; entity_id = entity_id; depth = depth })
          ≡ ok bundle)
        ⊎ ((story_query c s db
                (record { authorization = authorization; query = query; depth = depth })
              ≡ ok bundle)
            ⊎ (fact_query c s db (record { authorization = authorization; query = query })
                ≡ ok bundle))
      → (tenant : Text) × IsTenant authorization tenant × Tenants.IsAnswer c tenant bundle
  tools-AreOfTenant c s db bundle authorization entity_id query depth (inl h) =
      let (tenant, signed, read) =
        entity_lookup-IsAnswer c s db bundle
          (record { authorization = authorization; entity_id = entity_id; depth = depth }) h in
      (
        tenant,
        signed,
        retrieval-IsAnswer c s db tenant entity_id query (record { query = query; depth = depth })
            bundle (inl read),
      )
  tools-AreOfTenant c s db bundle authorization entity_id query depth (inr (inl h)) =
      let (tenant, signed, read) =
        story_query-IsAnswer c s db bundle
          (record { authorization = authorization; query = query; depth = depth }) h in
      (
        tenant,
        signed,
        retrieval-IsAnswer c s db tenant entity_id query (record { query = query; depth = depth })
            bundle (inr (inl read)),
      )
  tools-AreOfTenant c s db bundle authorization entity_id query depth (inr (inr h)) =
      let (tenant, signed, read) =
        fact_query-IsAnswer c s db bundle (record { authorization = authorization; query = query })
          h in
      (
        tenant,
        signed,
        retrieval-IsAnswer c s db tenant entity_id query (record { query = query; depth = depth })
            bundle (inr (inr read)),
      )
