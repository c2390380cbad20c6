-- ===== src/Pipeline/Verify/Checks.antt =====
-- What verifying does to each row of `sources`, and when a check finds a source live.
use factvault.Common.{
  Result-cases, ℕ, ◌+◌, ◌≤◌, ◌≡◌, ◌↔◌, refl, ◌⊎◌, inl, inr, Bool, false, List, [], ◌∷◌, arith, Text,
  text_eq_iff, ℤ, length, take, ok, All, All-take, none, Option-cases, ◌++◌, sym, ◌∙◌,
}
use mathlib.Core.List.{append-nil, append_assoc}
use factvault.Db.{Source, Vault}
use factvault.Rows.{Env, hex}
use factvault.Extract.{is_pending, effective_limit}
use factvault.Network.{validate_public_http_url}
use factvault.Network.Public.{IsPublicUrl, validate_public_http_url_iff}
use factvault.Pipeline.{World, Fetched, failed, replied, sources_where}
use factvault.Pipeline.Verify.{
  VerificationStatus, found_live, SourceVerification, map_source_status, is_due, verify_update,
  verify_source, verify_answer, verify_body, verify_sources, verify_once, effective_age,
  max_verify_body_bytes,
}
use factvault.Pipeline.Frame.{
  All2, HasUniqueIds, Identical, Identical-refl, Chosen, Chosen-of_unique, All2-refl,
  All2-update_source,
}

-- A row before and after verifying: it is as it was, or its status follows from a check's finding,
-- its text is kept, and it is not pending for extraction.
pub record Verifies (tenant : ℕ) (s t : Source) : Type 0 where
  pub identical : Identical s t
  pub raw_text : t.raw_text ≡ s.raw_text
  pub change :
      (t ≡ s)
      ⊎ ((found : VerificationStatus) × (t.status ≡ map_source_status found s.status)
          × (is_pending tenant t ≡ false))

verify_update-Verifies :
    (tenant now : ℕ) (found : VerificationStatus) (s t : Source)
    → Verifies tenant s t
    → Verifies tenant s (verify_update now (map_source_status found s.status) t)
unfolding is_pending map_source_status
verify_update-Verifies tenant now found s t h = record {
  identical = record {
    id = h.identical.id;
    tenant_id = h.identical.tenant_id;
    url = h.identical.url;
    content_hash = h.identical.content_hash;
    raw_html = h.identical.raw_html;
    publisher = h.identical.publisher;
    title = h.identical.title;
  };
  raw_text = h.raw_text;
  change = inr (found, refl, ground arith);
}

verify_sources-Verifies :
    (env : Env) (world : World) (tenant : ℕ) (p : Source → Bool) (ss items : List Source)
    (v : Vault) (checks : List SourceVerification)
    → All (Chosen p ss) items
    → All2 (Verifies tenant) ss v.sources
    → All2 (Verifies tenant) ss (verify_sources env world tenant items (v, checks)).0.sources
unfolding verify_sources
verify_sources-Verifies env world tenant p ss [] v checks c h = h
verify_sources-Verifies env world tenant p ss (item ∷ items) v checks c h =
    let found = verify_source env world item.url item.content_hash in
    verify_sources-Verifies env world tenant p ss items _ _ c.1 (
      All2-update_source (Verifies tenant) tenant item
        (verify_update world.now (map_source_status found.status item.status)) ss v.sources
        (λ s t r. r.identical.id)
        (λ t r. verify_update-Verifies tenant world.now found.status item t r) c.0.1 h)

-- Where no two sources share an id, a run of `VerifyOnce` keeps the identity, the hash, the HTML
-- and the text of each source. A source it writes has a status that `mapSourceStatus` gives for
-- the old one, and is not pending for extraction any more, even if it was archived before.
pub verify_once-Verifies :
    (env : Env) (world : World) (tenant : ℕ) (age_days limit : ℤ) (v : Vault)
    (checks : List SourceVerification)
    → HasUniqueIds v.sources
    → All2
        (Verifies tenant)
        v.sources
        (verify_once env world tenant age_days limit (v, checks)).0.sources
unfolding verify_once
verify_once-Verifies env world tenant age_days limit v checks unique =
    let due = is_due world tenant (effective_age age_days) in
    verify_sources-Verifies env world tenant due v.sources
      (take (effective_limit limit) (sources_where due v.sources)) v checks
      (All-take _ (effective_limit limit) (sources_where due v.sources)
        (Chosen-of_unique due v.sources unique))
      (All2-refl (Verifies tenant) v.sources
        (λ s. record { identical = Identical-refl s; raw_text = refl; change = inl refl }))

-- The answer to the request is in the 200s, and its body can be read, is at most 10 MiB, and has
-- the hash that was stored.
abbrev IsUnchanged : Env → Text → Fetched → Type 0
IsUnchanged env old_hash (failed e) = ⊥
IsUnchanged env old_hash (replied status body) =
    (200 ≤ status)
    × (status ≤ 299)
    × (b : Text) × (body (max_verify_body_bytes + 1) ≡ ok b)
    × (length b ≤ max_verify_body_bytes)
    × (hex (env.sha256 b) ≡ old_hash)

-- The address is public, and is asked for and answered without a change.
abbrev IsLive : Env → World → Text → Text → Type 0
IsLive env world url old_hash =
    IsPublicUrl world.net url
    × (world.new_request url ≡ none)
    × IsUnchanged env old_hash (world.fetch url)

verify_body-live_iff :
    (env : Env) (old_hash b : Text)
    → ((verify_body env old_hash b).status ≡ found_live)
      ↔ ((length b ≤ max_verify_body_bytes) × (hex (env.sha256 b) ≡ old_hash))
unfolding verify_body
verify_body-live_iff env old_hash b = ground (arith, text_eq_iff (hex (env.sha256 b)) old_hash)

verify_answer-live_iff :
    (env : Env) (fetched : Fetched) (old_hash : Text)
    → ((verify_answer env fetched old_hash).status ≡ found_live) ↔ IsUnchanged env old_hash fetched
unfolding verify_answer
verify_answer-live_iff env (failed e) old_hash = ground arith
verify_answer-live_iff env (replied status body) old_hash =
    elim (Result-cases (body (max_verify_body_bytes + 1))) [
      | inl (b, read) ↦ ground (arith, verify_body-live_iff env old_hash b)
      | inr (e, read) ↦ ground arith
    ]

verify_source-IsLive_iff :
    (env : Env) (world : World) (url old_hash : Text)
    → ((verify_source env world url old_hash).status ≡ found_live) ↔ IsLive env world url old_hash
unfolding verify_source
verify_source-IsLive_iff env world url old_hash =
    let guarded = validate_public_http_url_iff world.net url in
    let answer = verify_answer-live_iff env (world.fetch url) old_hash in
    elim (Result-cases (validate_public_http_url world.net url)) [
      | inr (e, blocked) ↦
          (λ h. absurd (ground arith), λ h. (let passed = guarded.1 h.0 in absurd (ground arith)))
      | inl (u, passed) ↦ elim (Option-cases (world.new_request url)) [
        | inr (e, bad) ↦ (λ h. absurd (ground arith), λ h. absurd (ground arith))
        | inl made ↦ (
          λ h. (guarded.0 passed, made, answer.0 (ground arith)),
          λ h. (let unchanged = answer.1 h.2 in ground arith),
        )
      ]
    ]

-- The check is of the source, for the tenant, and finds it live exactly if it is.
pub record IsCheckOf (env : Env) (world : World) (tenant : ℕ) (s : Source) (c : SourceVerification)
    : Type 0 where
  source_id : c.source_id ≡ s.id
  tenant_id : c.tenant_id ≡ tenant
  live_iff : (c.status ≡ found_live) ↔ IsLive env world s.url s.content_hash

-- One check for each source, in their order.
abbrev pub AreChecks : Env → World → ℕ → List Source → List SourceVerification → Type 0
AreChecks env world tenant [] [] = Unit
AreChecks env world tenant [] (c ∷ cs) = ⊥
AreChecks env world tenant (s ∷ ss) [] = ⊥
AreChecks env world tenant (s ∷ ss) (c ∷ cs) =
    IsCheckOf env world tenant s c × AreChecks env world tenant ss cs

verify_sources-AreChecks :
    (env : Env) (world : World) (tenant : ℕ) (items : List Source) (v : Vault)
    (checks : List SourceVerification)
    → (added : List SourceVerification) × ((verify_sources env world tenant items (v, checks)).1
        ≡ checks ++ added)
      × AreChecks env world tenant items added
unfolding verify_sources
verify_sources-AreChecks env world tenant [] v checks = ([], sym (append-nil checks), tt)
verify_sources-AreChecks env world tenant (item ∷ items) v checks =
    let (added, e, good) = verify_sources-AreChecks env world tenant items _ _ in
    (
      _ ∷ added,
      e ∙ append_assoc checks (_ ∷ []) added,
      (
        record {
          source_id = refl;
          tenant_id = refl;
          live_iff = verify_source-IsLive_iff env world item.url item.content_hash;
        },
        good,
      ),
    )

-- A run of `VerifyOnce` adds one check for each of the tenant's sources that are due, up to the
-- limit, in their order. It finds the source live exactly if its URL is an http or https address
-- with a public host, and answers in the 200s with a readable body of at most 10 MiB that has the
-- stored hash.
pub verify_once-AreChecks :
    (env : Env) (world : World) (tenant : ℕ) (age_days limit : ℤ) (v : Vault)
    (checks : List SourceVerification)
    → (added : List SourceVerification) × ((verify_once env world tenant age_days limit
          (v, checks)).1
        ≡ checks ++ added)
      × AreChecks env world tenant
          (take
            (effective_limit limit)
            (sources_where (is_due world tenant (effective_age age_days)) v.sources))
          added
unfolding verify_once
verify_once-AreChecks env world tenant age_days limit v checks =
    verify_sources-AreChecks env world tenant
      (take (effective_limit limit)
        (sources_where (is_due world tenant (effective_age age_days)) v.sources))
      v checks
