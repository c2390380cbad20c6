-- ===== src/Auth/Accepted.antt =====
-- internal/auth/jwt.go: which tokens are accepted.
use factvault.Common.{
  ◌<◌, negsuc, true, false, not, ◌||◌, some, List, [], ◌∷◌, ◌++◌, Text, lit, text_eq, text_eq_iff,
  ◌≡◌, ◌≢◌, refl, sym, ap, ◌∙◌, arith, inl, inr, ℤ, pos, leb_ℤ, All, ok, err, Bool-cases,
  Option-cases, if◌then◌else◌,
}
use factvault.Strings.{encode, decode}
use factvault.Auth.{
  Claims, Crypto, expired_token, split_dots, sign_rs256, is_rs256, header_accepted,
  signature_accepted, claims_of, is_expired, verify_parts, verify, verify_list,
}

-- The text has no dot.
abbrev pub IsPart : Text → Type 0
IsPart = All (λ b. b ≢ 0x2E)

split_dots_part : (s : Text) → IsPart s → split_dots s ≡ s ∷ []
unfolding split_dots
split_dots_part [] h = refl
split_dots_part (b ∷ s) h = ground (arith, split_dots_part s h.1)

split_dots_append : (s t : Text) → IsPart s → split_dots (s ++ (lit "." ++ t)) ≡ s ∷ split_dots t
unfolding split_dots
split_dots_append [] t h = ground arith
split_dots_append (b ∷ s) t h = ground (arith, split_dots_append s t h.1)

-- Valid UTF-8: reading the runes and writing them again changes nothing.
abbrev IsUtf8 : Text → Type 0
IsUtf8 s = encode (decode s) ≡ s

abbrev InInt64 : ℤ → Type 0
InInt64 (pos n) = n < 9223372036854775808
InInt64 (negsuc n) = n < 9223372036854775808

-- Claims that JSON carries as they are; of other texts it replaces the bytes that are not UTF-8.
pub record IsJson (claims : Claims) : Type 0 where
  pub tenant_id : IsUtf8 claims.tenant_id
  pub subject : IsUtf8 claims.subject
  pub issued_at : InInt64 claims.issued_at
  pub expires_at : InInt64 claims.expires_at

-- What the packages document: decoding undoes encoding, no encoding has a dot, such claims and the
-- header are read as they were written, and a signature passes its check.
pub record IsSound (c : Crypto) : Type 0 where
  pub decodes : (s : Text) → c.decode (c.encode s) ≡ some s
  pub dotless : (s : Text) → IsPart (c.encode s)
  pub unmarshals :
      (claims : Claims) → IsJson claims → c.unmarshal_claims (c.marshal_claims claims) ≡ some claims
  pub alg : c.header_alg c.header ≡ some (lit "RS256")
  pub checks : (s sig : Text) → c.sign s ≡ some sig → c.check s sig ≡ true

regroup :
    (h p s : Text)
    → (h ++ (lit "." ++ p)) ++ (lit "." ++ s) ≡ h ++ (lit "." ++ (p ++ (lit "." ++ s)))
regroup [] p s = refl
regroup (b ∷ h) p s = ap (λ r. b ∷ r) (regroup h p s)

split_token :
    (h p s : Text)
    → IsPart h
    → IsPart p
    → IsPart s
    → split_dots ((h ++ (lit "." ++ p)) ++ (lit "." ++ s)) ≡ h ∷ p ∷ s ∷ []
split_token h p s dh dp ds =
    ap split_dots (regroup h p s)
    ∙ split_dots_append h (p ++ (lit "." ++ s)) dh
    ∙ ap (λ l. h ∷ l) (split_dots_append p s dp ∙ ap (λ l. p ∷ l) (split_dots_part s ds))

accepted_parts :
    (c : Crypto) (now : ℤ) (h p s : Text) (claims : Claims)
    → header_accepted c h ≡ true
    → signature_accepted c h p s ≡ true
    → claims_of c p ≡ some claims
    → verify_parts c now h p s ≡ (if is_expired now claims then err expired_token else ok claims)
unfolding verify_parts
accepted_parts c now h p s claims header signature payload = ground arith

header-accepted : (c : Crypto) → IsSound c → header_accepted c (c.encode c.header) ≡ true
unfolding header_accepted is_rs256
header-accepted c sound =
    let same = (text_eq_iff (lit "RS256") (lit "RS256")).1 refl in
    ground (arith, sound.decodes c.header, sound.alg)

signature-accepted :
    (c : Crypto) (h p sig : Text)
    → IsSound c
    → c.sign (h ++ (lit "." ++ p)) ≡ some sig
    → signature_accepted c h p (c.encode sig) ≡ true
unfolding signature_accepted
signature-accepted c h p sig sound signed =
    ground (arith, sound.decodes sig, sound.checks (h ++ (lit "." ++ p)) sig signed)

claims_of-marshal :
    (c : Crypto) (claims : Claims)
    → IsSound c
    → IsJson claims
    → claims.tenant_id ≢ []
    → claims.subject ≢ []
    → claims_of c (c.encode (c.marshal_claims claims)) ≡ some claims
unfolding claims_of
claims_of-marshal c claims sound json tenant subject = ground (
  arith,
  sound.decodes (c.marshal_claims claims),
  sound.unmarshals claims json,
  text_eq_iff claims.tenant_id [],
  text_eq_iff claims.subject [],
)

-- A token that was signed for claims in UTF-8 and 64 bits, of a tenant and a subject, is verified:
-- where it expires at a time above zero that is still to come, its claims are those that were
-- signed, and else it is expired.
pub verify-sign_rs256 :
    (c : Crypto) (claims : Claims) (token : Text) (now : ℤ)
    → IsSound c
    → IsJson claims
    → claims.tenant_id ≢ []
    → claims.subject ≢ []
    → sign_rs256 c claims ≡ ok token
    → verify c now token ≡ (
        if leb_ℤ claims.expires_at (pos 0) || leb_ℤ claims.expires_at now
        then err expired_token
        else ok claims)
unfolding sign_rs256 verify verify_list is_expired
verify-sign_rs256 c claims token now sound json tenant subject signed =
    let h = c.encode c.header in
    let p = c.encode (c.marshal_claims claims) in
    elim (Option-cases (c.sign (h ++ (lit "." ++ p)))) [
      | inl failed ↦ absurd (ground arith)
      | inr (sig, good) ↦
          (let made : token ≡ (h ++ (lit "." ++ p)) ++ (lit "." ++ c.encode sig) = ground arith in
            ap (verify c now) made
            ∙ ap (verify_list c now) (
                split_token h p (c.encode sig) (sound.dotless c.header)
                  (sound.dotless (c.marshal_claims claims)) (sound.dotless sig))
            ∙ accepted_parts c now h p (c.encode sig) claims (header-accepted c sound)
                (signature-accepted c h p sig sound good)
                (claims_of-marshal c claims sound json tenant subject))
    ]

-- The claims were signed for the key: the token is a header, a payload and a signature that passes
-- the check, and the claims are those of the payload.
abbrev pub IsAuthentic : Crypto → Text → Claims → Type 0
IsAuthentic c token claims =
    (header : Text) × (payload : Text) × (signature : Text) × (sig : Text) × (claims_json : Text)
    × (split_dots token ≡ header ∷ payload ∷ signature ∷ [])
    × (c.decode signature ≡ some sig)
    × (c.check (header ++ (lit "." ++ payload)) sig ≡ true)
    × (c.decode payload ≡ some claims_json)
    × (c.unmarshal_claims claims_json ≡ some claims)

signature_accepted-inv :
    (c : Crypto) (h p s : Text)
    → signature_accepted c h p s ≡ true
    → (sig : Text) × (c.decode s ≡ some sig) × (c.check (h ++ (lit "." ++ p)) sig ≡ true)
unfolding signature_accepted
signature_accepted-inv c h p s k = elim (Option-cases (c.decode s)) [
  | inl bad ↦ absurd (ground arith)
  | inr (sig, good) ↦ (sig, good, ground arith)
]

claims_of-inv :
    (c : Crypto) (p : Text) (claims : Claims)
    → claims_of c p ≡ some claims
    → (claims_json : Text) × (c.decode p ≡ some claims_json)
      × (c.unmarshal_claims claims_json ≡ some claims)
      × (claims.tenant_id ≢ [])
      × (claims.subject ≢ [])
unfolding claims_of
claims_of-inv c p claims k = elim (Option-cases (c.decode p)) [
  | inl bad ↦ absurd (ground arith)
  | inr (json, good) ↦ elim (Option-cases (c.unmarshal_claims json)) [
    | inl bad ↦ absurd (ground arith)
    | inr (found, read) ↦
        elim (Bool-cases (text_eq found.tenant_id [] || text_eq found.subject [])) [
          | inl blank ↦ absurd (ground arith)
          | inr named ↦
              (let same : found ≡ claims = ground arith in
                (
                  json,
                  good,
                  read ∙ ap some same,
                  λ e. ground (
                    arith,
                    text_eq_iff found.tenant_id [],
                    ap (λ (r : Claims). r.tenant_id) same,
                  ),
                  λ e.
                      ground
                        (arith, text_eq_iff found.subject [], ap (λ (r : Claims). r.subject) same),
                ))
        ]
  ]
]

verify_parts-inv :
    (c : Crypto) (now : ℤ) (h p s : Text) (claims : Claims)
    → verify_parts c now h p s ≡ ok claims
    → (signature_accepted c h p s ≡ true)
      × (claims_of c p ≡ some claims)
      × (is_expired now claims ≡ false)
unfolding verify_parts
verify_parts-inv c now h p s claims k =
    elim (Bool-cases (not (header_accepted c h) || not (signature_accepted c h p s))) [
      | inl bad ↦ absurd (ground arith)
      | inr good ↦ elim (Option-cases (claims_of c p)) [
        | inl bad ↦ absurd (ground arith)
        | inr (found, read) ↦ elim (Bool-cases (is_expired now found)) [
          | inl late ↦ absurd (ground arith)
          | inr fresh ↦
              (let same : found ≡ claims = ground arith in
                (ground arith, read ∙ ap some same, ap (is_expired now) (sym same) ∙ fresh))
        ]
      ]
    ]

-- Whatever the packages do, the claims that are accepted come from a payload whose signature passes
-- the check, name a tenant and a subject, and have not expired.
pub verify-IsAuthentic :
    (c : Crypto) (token : Text) (now : ℤ) (claims : Claims)
    → verify c now token ≡ ok claims
    → IsAuthentic c token claims
      × (claims.tenant_id ≢ [])
      × (claims.subject ≢ [])
      × (leb_ℤ claims.expires_at (pos 0) ≡ false)
      × (leb_ℤ claims.expires_at now ≡ false)
unfolding verify verify_list is_expired
verify-IsAuthentic c token now claims h = listed (split_dots token) refl h
  where
    listed :
        (parts : List Text)
        → split_dots token ≡ parts
        → verify_list c now parts ≡ ok claims
        → IsAuthentic c token claims
          × (claims.tenant_id ≢ [])
          × (claims.subject ≢ [])
          × (leb_ℤ claims.expires_at (pos 0) ≡ false)
          × (leb_ℤ claims.expires_at now ≡ false)
    listed [] e k = absurd (ground arith)
    listed (x ∷ []) e k = absurd (ground arith)
    listed (x ∷ y ∷ []) e k = absurd (ground arith)
    listed (x ∷ y ∷ z ∷ w ∷ ws) e k = absurd (ground arith)
    listed (x ∷ y ∷ z ∷ []) e k =
        let (signed, read, fresh) = verify_parts-inv c now x y z claims k in
        let (sig, decoded, checked) = signature_accepted-inv c x y z signed in
        let (json, payload, claimed, tenant, subject) = claims_of-inv c y claims read in
        (
          (x, y, z, sig, json, e, decoded, checked, payload, claimed),
          tenant,
          subject,
          ground arith,
          ground arith,
        )
