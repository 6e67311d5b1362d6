-- ===== src/Demo/Auth.antt =====
-- handlers/ileapdemo: auth_provider.go with users.go, and the tokens of keypair.go. Times are
-- nanoseconds since the Unix epoch, and the claims hold seconds.
pub mod Issued
use ileap_go.Common.{
  ℕ, ◌+◌, ◌*◌, ◌/◌, Bool, true, false, not, ◌&&◌, ◌||◌, ◌-◌, ◌^◌, leb, ℤ, pos, negsuc, List, [],
  ◌∷◌, ◌++◌, Option, none, some, ltb, ◌==◌, if◌then◌else◌, any, Bytes, codes, bytes_eq,
}
use ileap_go.Service.{permission_denied, unauthenticated, other, Result, ok, err}
use ileap_go.Server.Auth.{TokenInfo, split}

pub record User : Type 0 where
  pub username : Bytes
  pub password : Bytes

-- `Users`
abbrev pub users : List User
users =
    record { username = codes "hello"; password = codes "pathfinder" }
    ∷ record { username = codes "transport_service_user"; password = codes "ileap" }
    ∷ record { username = codes "transport_service_organizer"; password = codes "ileap" }
    ∷ []

pub record JwtClaims : Type 0 where
  pub username : Bytes
  pub issued_at : ℤ
  pub expiration : ℤ

-- `claims.Expiration != 0 && time.Unix(claims.Expiration, 0).Before(time.Now())`: the seconds since the
-- year 1 have 64 bits, so that the last instants wrap to the past.
abbrev pub is_over : ℕ → ℤ → Bool
is_over now (negsuc n) = true
is_over now (pos n) = not (n == 0) && (leb (2 ^ 63 - 62135596800) n || ltb (n * 1000000000) now)

-- What the tokens take from the packages `base64`, `json` and `rsa`: `sign` and `verify` are of the
-- hash of a text, with the two keys of the pair.
pub record Signing : Type 0 where
  pub encode_to_string : Bytes → Bytes
  pub decode_string : Bytes → Option Bytes
  pub marshal : JwtClaims → Bytes
  pub unmarshal : Bytes → Option JwtClaims
  pub header_bytes : Bytes
  pub sign : Bytes → Bytes
  pub verify : Bytes → Bytes → Bool

-- `oauth2.Token`
pub record Bearer : Type 0 where
  pub access_token : Bytes
  pub token_type : Bytes
  pub expiry : ℕ
  pub expires_in : ℕ

abbrev pub second : ℕ
second = 1000000000

-- An hour, in nanoseconds.
abbrev pub access_token_ttl : ℕ
access_token_ttl = 3600 * second

module _ (s : Signing) where
  abbrev pub signing_input : JwtClaims → Bytes
  signing_input claims =
      s.encode_to_string s.header_bytes ++ (codes "." ++ s.encode_to_string (s.marshal claims))

  unfoldable pub create_jwt : JwtClaims → Bytes
  create_jwt claims =
      signing_input claims ++ (codes "." ++ s.encode_to_string (s.sign (signing_input claims)))

  unfoldable pub issue_token : ℕ → Bytes → Bytes → Result Bearer
  unfolding create_jwt bytes_eq
  issue_token now client_id client_secret =
      let expires_at = now + access_token_ttl in
      if not (
        any (λ (u : User). bytes_eq client_id u.username && bytes_eq client_secret u.password)
          users)
      then err permission_denied (codes "invalid credentials")
      else ok (record {
        access_token = create_jwt (record {
          username = client_id;
          issued_at = pos (now / second);
          expiration = pos (expires_at / second);
        });
        token_type = codes "bearer";
        expiry = expires_at;
        expires_in = access_token_ttl / second;
      })

  -- The end of `ValidateJWT`, at the claims.
  abbrev pub check_expiration : ℕ → JwtClaims → Result JwtClaims
  check_expiration now claims =
      if is_over now claims.expiration
      then err unauthenticated (codes "token expired")
      else ok claims

  abbrev pub read_payload : ℕ → Option Bytes → Result JwtClaims
  read_payload now none = err other (codes "decode payload")
  read_payload now (some payload_bytes) = elim (s.unmarshal payload_bytes) [
    | none ↦ err other (codes "unmarshal payload")
    | some claims ↦ check_expiration now claims
  ]

  abbrev pub validate_parts : ℕ → List Bytes → Result JwtClaims
  validate_parts now (header_part ∷ payload_part ∷ signature_part ∷ []) =
      elim (s.decode_string signature_part) [
        | none ↦ err other (codes "decode signature")
        | some signature ↦
            if not (s.verify (header_part ++ (codes "." ++ payload_part)) signature)
            then err other (codes "verify signature")
            else read_payload now (s.decode_string payload_part)
      ]
  validate_parts now _ = err other (codes "invalid JWT format")

  unfoldable pub validate_jwt : ℕ → Bytes → Result JwtClaims
  unfolding split
  validate_jwt now token = validate_parts now (split b'.' token)

  unfoldable pub validate_token : ℕ → Bytes → Result TokenInfo
  unfolding validate_jwt
  validate_token now token = elim (validate_jwt now token) [
    | err code message ↦ err code message
    | ok claims ↦ ok (record { subject = claims.username })
  ]
