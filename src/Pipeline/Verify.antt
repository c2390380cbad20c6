-- ===== src/Pipeline/Verify.antt =====
-- `VerifyOnce` of internal/workers/source_pipeline.go: links are checked again.
pub mod Checks
use factvault.Common.{
  ℕ, suc, zero, ◌+◌, ◌*◌, ◌/◌, ◌%◌, Bool, true, false, not, ◌&&◌, ◌||◌, Option, none, some, List,
  [], ◌∷◌, ◌++◌, Text, lit, text_eq, ℤ, pos, negsuc, ltb, ◌==◌, length, take, if◌then◌else◌, Result,
  ok, err, ◌>>=◌,
}
use factvault.Strings.{trim_space}
use factvault.Db.{
  Source, SourceStatus, collected, extracted, verified, link_rot, content_changed, Vault,
}
use factvault.Rows.{Env, hex}
use factvault.Extract.{effective_limit}
use factvault.Network.{validate_public_http_url}
use factvault.Pipeline.{World, Fetched, failed, replied, update_source, sources_where}

-- The statuses of a row of `source_verifications`.
pub data VerificationStatus : Type 0 where
  found_live found_changed found_rot : VerificationStatus

-- `verifySource`'s answer: the status, the new hash and the notes.
pub record Verification : Type 0 where
  pub status : VerificationStatus
  new_hash : Text
  notes : Text

pub record SourceVerification : Type 0 where
  pub id : ℕ
  pub source_id : ℕ
  pub tenant_id : ℕ
  pub status : VerificationStatus
  new_content_hash : Option Text
  notes : Option Text

abbrev pub max_verify_body_bytes : ℕ
max_verify_body_bytes = 10485760

-- `%d` of a status: net/http answers three digits.
abbrev status_note : ℕ → Text
status_note n = lit "status " ++ ((b'0' + n / 100) ∷ (b'0' + n / 10 % 10) ∷ (b'0' + n % 10) ∷ [])

abbrev rot : Text → Verification
rot notes = record { status = found_rot; new_hash = []; notes = notes }

pub verify_body : Env → Text → Text → Verification
verify_body env old_hash body =
    let new_hash = hex (env.sha256 body) in
    if ltb max_verify_body_bytes (length body)
    then rot (lit "response too large: max 10485760 bytes")
    else if text_eq new_hash old_hash
    then record { status = found_live; new_hash = new_hash; notes = [] }
    else record { status = found_changed; new_hash = new_hash; notes = [] }

-- `verifySource`, from the answer to the request on.
pub verify_answer : Env → Fetched → Text → Verification
verify_answer env (failed e) old_hash = rot e
verify_answer env (replied status body) old_hash =
    if ltb status 200 || ltb 299 status
    then rot (status_note status)
    else elim (body (max_verify_body_bytes + 1)) [
      | err e ↦ rot e
      | ok b ↦ verify_body env old_hash b
    ]

-- `verifySource`: the guard, the request, and its answer.
pub verify_source : Env → World → Text → Text → Verification
verify_source env world url old_hash = elim (validate_public_http_url world.net url) [
  | err e ↦ rot (world.error_text url e)
  | ok _ ↦ elim (world.new_request url) [
    | some e ↦ rot e
    | none ↦ verify_answer env (world.fetch url) old_hash
  ]
]

pub map_source_status : VerificationStatus → SourceStatus → SourceStatus
map_source_status found_live current = elim current [ extracted ↦ extracted | _ ↦ verified ]
map_source_status found_changed current = content_changed
map_source_status found_rot current = link_rot

nullable : Text → Option Text
nullable s = if text_eq (trim_space s) [] then none else some s

-- `ageDays <= 0` stands for 7. Times are seconds.
abbrev pub effective_age : ℤ → ℕ
effective_age (pos zero) = 7
effective_age (pos (suc n)) = suc n
effective_age (negsuc n) = 7

pub is_due : World → ℕ → ℕ → Source → Bool
is_due world tenant age s =
    s.tenant_id == tenant
    && (elim s.status [ collected ↦ false | link_rot ↦ false | _ ↦ true ]
        && elim s.last_verified_at [ none ↦ true | some t ↦ ltb (t + age * 86400) world.now ])

abbrev pub verify_update : ℕ → SourceStatus → Source → Source
verify_update now status s = record s { status = status; last_verified_at = some now }

-- The loop of `VerifyOnce`, over the vault and the table of verifications.
pub verify_sources :
    Env
    → World
    → ℕ
    → List Source
    → Vault × List SourceVerification
    → Vault × List SourceVerification
verify_sources env world tenant [] (v, checks) = (v, checks)
verify_sources env world tenant (item ∷ items) (v, checks) =
    let found = verify_source env world item.url item.content_hash in
    verify_sources env world tenant items (
      record v {
        sources =
            update_source tenant item.id
              (verify_update world.now (map_source_status found.status item.status)) v.sources;
        uuids = v.uuids + 1;
      },
      checks
          ++ (record {
            id = env.new_uuid v.uuids;
            source_id = item.id;
            tenant_id = tenant;
            status = found.status;
            new_content_hash = nullable found.new_hash;
            notes = nullable found.notes;
          }
              ∷ []),
    )

-- `VerifyOnce`.
pub verify_once :
    Env → World → ℕ → ℤ → ℤ → Vault × List SourceVerification → Vault × List SourceVerification
verify_once env world tenant age_days limit (v, checks) =
    verify_sources env world tenant
      (take (effective_limit limit)
        (sources_where (is_due world tenant (effective_age age_days)) v.sources))
      (v, checks)
