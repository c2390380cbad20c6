-- ===== src/Examples/Tokens.antt =====
-- Packages that do what they document, and a token of theirs.
use factvault.Common.{
  ℕ, zero, suc, ◌+◌, ◌-◌, ◌≡◌, ◌≢◌, refl, ap, arith, Option, none, some, [], ◌∷◌, ◌++◌, take, drop,
  length, take-length_append, Text, lit, text_eq, text_eq_iff, ℤ, pos, negsuc, false, leb_ℤ, ok,
}
use factvault.Auth.{
  Claims, Crypto, Error, sign_rs256, verify, verify_list, split_dots, is_expired, expired_token,
}
use factvault.Auth
use factvault.Strings.{encode, decode, encode_rune}
use factvault.Utf8.{runes, rune_width}
use factvault.Auth.Accepted.{
  IsJson, IsSound, IsPart, IsAuthentic, verify-sign_rs256, verify-IsAuthentic,
}

-- Each byte stands above the dot.
abbrev pub shift : Text → Text
shift [] = []
shift (b ∷ s) = (b + 47) ∷ shift s

abbrev unshift : Text → Text
unshift [] = []
unshift (b ∷ s) = (b - 47) ∷ unshift s

unshift-shift : (s : Text) → unshift (shift s) ≡ s
unshift-shift [] = refl
unshift-shift (b ∷ s) = ground (arith, unshift-shift s)

shift-IsPart : (s : Text) → IsPart (shift s)
shift-IsPart [] = tt
shift-IsPart (b ∷ s) = (λ e. ground arith, shift-IsPart s)

abbrev pub number : ℤ → Text → Text
number (pos n) rest = 0 ∷ n ∷ rest
number (negsuc n) rest = 1 ∷ n ∷ rest

abbrev integer : ℕ → ℕ → ℤ
integer zero n = pos n
integer (suc m) n = negsuc n

abbrev pub marshal : Claims → Text
marshal c =
    length c.tenant_id
    ∷ (c.tenant_id
        ++ (length c.subject ∷ (c.subject ++ number c.issued_at (number c.expires_at []))))

abbrev numbers : Text → Text → Text → Option Claims
numbers tenant subject (s ∷ n ∷ t ∷ m ∷ []) = some (record {
  tenant_id = tenant;
  subject = subject;
  issued_at = integer s n;
  expires_at = integer t m;
})
numbers tenant subject other = none

abbrev pub second : Text → Text → Option Claims
second tenant [] = none
second tenant (n ∷ rest) = numbers tenant (take n rest) (drop n rest)

abbrev unmarshal : Text → Option Claims
unmarshal [] = none
unmarshal (n ∷ rest) = second (take n rest) (drop n rest)

numbers-number :
    (tenant subject : Text) (i e : ℤ)
    → numbers tenant subject (number i (number e []))
      ≡ some (record { tenant_id = tenant; subject = subject; issued_at = i; expires_at = e })
numbers-number tenant subject (pos i) (pos e) = refl
numbers-number tenant subject (pos i) (negsuc e) = refl
numbers-number tenant subject (negsuc i) (pos e) = refl
numbers-number tenant subject (negsuc i) (negsuc e) = refl

drop-length : (s t : Text) → drop (length s) (s ++ t) ≡ t
drop-length [] t = refl
drop-length (b ∷ s) t = drop-length s t

unmarshal-marshal : (c : Claims) → unmarshal (marshal c) ≡ some c
unmarshal-marshal c =
    let tail = number c.issued_at (number c.expires_at []) in
    rw
      (
        take-length_append c.tenant_id (length c.subject ∷ (c.subject ++ tail)),
        drop-length c.tenant_id (length c.subject ∷ (c.subject ++ tail)),
        take-length_append c.subject tail,
        drop-length c.subject tail,
      )
      (numbers-number c.tenant_id c.subject c.issued_at c.expires_at)

abbrev pub crypto : Crypto
crypto = record {
  encode = shift;
  decode = λ s. some (unshift s);
  marshal_claims = marshal;
  unmarshal_claims = unmarshal;
  header = lit "RS256";
  header_alg = λ h. some h;
  sign = λ s. some s;
  check = λ s sig. text_eq s sig;
}

crypto-IsSound : IsSound crypto
crypto-IsSound = record {
  decodes = λ s. ap some (unshift-shift s);
  dotless = λ s. shift-IsPart s;
  unmarshals = λ c json. unmarshal-marshal c;
  alg = refl;
  checks = λ s sig e. ground (arith, text_eq_iff s sig);
}

abbrev claims : Claims
claims = record { tenant_id = lit "t"; subject = lit "s"; issued_at = pos 1; expires_at = pos 9 }

abbrev token : Text
token =
    (shift (lit "RS256") ++ (lit "." ++ shift (marshal claims)))
    ++ (lit "." ++ shift (shift (lit "RS256") ++ (lit "." ++ shift (marshal claims))))

signed_now : sign_rs256 crypto claims ≡ ok token
unfolding sign_rs256
signed_now = refl

claims-IsJson : IsJson claims
unfolding encode decode encode_rune runes rune_width
claims-IsJson = record {
  tenant_id = refl;
  subject = refl;
  issued_at = omega arith;
  expires_at = omega arith;
}

verify-sign_rs256_example : verify crypto (pos 5) token ≡ ok claims
verify-sign_rs256_example =
    verify-sign_rs256 crypto claims token (pos 5) crypto-IsSound claims-IsJson (λ e. cc) (λ e. cc)
      signed_now

verified_now : verify crypto (pos 5) token ≡ ok claims
unfolding verify verify_list split_dots Auth.verify_parts Auth.header_accepted Auth.is_rs256
    Auth.signature_accepted Auth.claims_of is_expired text_eq
verified_now = refl

verify-IsAuthentic_example :
    IsAuthentic crypto token claims
    × (claims.tenant_id ≢ [])
    × (claims.subject ≢ [])
    × (leb_ℤ claims.expires_at (pos 0) ≡ false)
    × (leb_ℤ claims.expires_at (pos 5) ≡ false)
verify-IsAuthentic_example = verify-IsAuthentic crypto token (pos 5) claims verified_now
