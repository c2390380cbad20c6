-- ===== src/Auth.antt =====
-- internal/auth/jwt.go: tokens are signed and verified. RSA, SHA-256, base64 and JSON are parameters.
pub mod Accepted
use factvault.Common.{
  ℕ, Bool, true, false, not, ◌&&◌, ◌||◌, Option, none, some, List, [], ◌∷◌, ◌++◌, Text, lit,
  text_eq, ◌==◌, ℤ, pos, negsuc, ltb_ℤ, leb_ℤ, if◌then◌else◌, Result, ok, err, ◌>>=◌,
}
use factvault.Strings.{trim_space, trim_prefix?}

pub data Error : Type 0 where
  invalid_token expired_token sign_failed : Error

pub record Claims : Type 0 where
  pub tenant_id : Text
  pub subject : Text
  pub issued_at : ℤ
  pub expires_at : ℤ

-- The packages that the code calls, for one key pair. `sign` and `check` are PKCS #1 v1.5 over the
-- digest of the text; `header_alg` is the field `alg` of a header, if it is JSON.
pub record Crypto : Type 0 where
  pub encode : Text → Text
  pub decode : Text → Option Text
  pub marshal_claims : Claims → Text
  pub unmarshal_claims : Text → Option Claims
  pub header : Text
  pub header_alg : Text → Option Text
  pub sign : Text → Option Text
  pub check : Text → Text → Bool

-- `strings.Split(s, ".")`: the parts between the dots.
unfoldable pub split_dots : Text → List Text
split_dots [] = [] ∷ []
split_dots (b ∷ bs) =
    let rest = split_dots bs in
    if b == 0x2E
    then [] ∷ rest
    else elim rest [ [] ↦ (b ∷ []) ∷ [] | part ∷ parts ↦ (b ∷ part) ∷ parts ]

-- `SignRS256`.
unfoldable pub sign_rs256 : Crypto → Claims → Result Error Text
sign_rs256 c claims =
    let unsigned = c.encode c.header ++ (lit "." ++ c.encode (c.marshal_claims claims)) in
    elim (c.sign unsigned) [
      | none ↦ err sign_failed
      | some sig ↦ ok (unsigned ++ (lit "." ++ c.encode sig))
    ]

unfoldable pub is_rs256 : Option Text → Bool
is_rs256 none = false
is_rs256 (some alg) = text_eq alg (lit "RS256")

unfoldable pub header_accepted : Crypto → Text → Bool
header_accepted c part = elim (c.decode part) [
  | none ↦ false
  | some header ↦ is_rs256 (c.header_alg header)
]

unfoldable pub signature_accepted : Crypto → Text → Text → Text → Bool
signature_accepted c header payload signature = elim (c.decode signature) [
  | none ↦ false
  | some sig ↦ c.check (header ++ (lit "." ++ payload)) sig
]

-- The claims of the payload, which must name a tenant and a subject.
unfoldable pub claims_of : Crypto → Text → Option Claims
claims_of c payload = elim (c.decode payload) [
  | none ↦ none
  | some claims_json ↦ elim (c.unmarshal_claims claims_json) [
    | none ↦ none
    | some claims ↦
        if text_eq claims.tenant_id [] || text_eq claims.subject [] then none else some claims
  ]
]

unfoldable pub is_expired : ℤ → Claims → Bool
is_expired now claims = leb_ℤ claims.expires_at (pos 0) || leb_ℤ claims.expires_at now

unfoldable pub verify_parts : Crypto → ℤ → Text → Text → Text → Result Error Claims
verify_parts c now header payload signature =
    if not (header_accepted c header) || not (signature_accepted c header payload signature)
    then err invalid_token
    else elim (claims_of c payload) [
      | none ↦ err invalid_token
      | some claims ↦ if is_expired now claims then err expired_token else ok claims
    ]

-- There must be three parts.
unfoldable pub verify_list : Crypto → ℤ → List Text → Result Error Claims
verify_list c now [] = err invalid_token
verify_list c now (header ∷ []) = err invalid_token
verify_list c now (header ∷ payload ∷ []) = err invalid_token
verify_list c now (header ∷ payload ∷ signature ∷ []) = verify_parts c now header payload signature
verify_list c now (header ∷ payload ∷ signature ∷ part ∷ parts) = err invalid_token

-- `Verify`, with a public key, at a time in seconds.
unfoldable pub verify : Crypto → ℤ → Text → Result Error Claims
verify c now token = verify_list c now (split_dots token)

-- `BearerToken`.
unfoldable pub bearer_token : Text → Option Text
bearer_token header = elim (trim_prefix? header (lit "Bearer ")) [
  | none ↦ none
  | some rest ↦ if text_eq (trim_space rest) [] then none else some (trim_space rest)
]
