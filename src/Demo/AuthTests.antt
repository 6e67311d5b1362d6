-- ===== src/Demo/AuthTests.antt =====
-- Instances of the theorem about the tokens of the demo handler.
use ileap_go.Common.{
  ℕ, zero, suc, ℤ, pos, negsuc, ◌++◌, ◌+◌, ◌-◌, ◌*◌, ◌/◌, ◌≤◌, ◌<◌, [], ◌∷◌, ◌≡◌, refl, ap, ap₂,
  Option, none, some, arith, All, map, Bytes, codes, bytes_eq, bytes_eq_iff,
}
use ileap_go.Service.{unauthenticated, ok, err}
use ileap_go.Demo.Auth.{
  JwtClaims, Signing, Bearer, second, access_token_ttl, create_jwt, issue_token, validate_token,
}
use ileap_go.Demo.Auth.Issued.{IsSigning, NotDot, issue_token-validate_token}

-- A sign and a number.
abbrev parts_of : ℤ → Bytes
parts_of (pos n) = 0 ∷ n ∷ []
parts_of (negsuc n) = 1 ∷ n ∷ []

abbrev signed : ℕ → ℕ → ℤ
signed zero n = pos n
signed (suc s) n = negsuc n

-- Bytes are shifted out of the range of the dot, and a signature is its text.
abbrev unmarshal_list : Bytes → Option JwtClaims
unmarshal_list (s ∷ a ∷ t ∷ b ∷ name) =
    some (record { username = name; issued_at = signed s a; expiration = signed t b })
unmarshal_list _ = none

abbrev pub shift : Signing
shift = record {
  encode_to_string = map (λ c. c + 100);
  decode_string = λ x. some (map (λ c. c - 100) x);
  marshal = λ claims. parts_of claims.issued_at ++ (parts_of claims.expiration ++ claims.username);
  unmarshal = unmarshal_list;
  header_bytes = codes "RS256";
  sign = λ message. message;
  verify = bytes_eq;
}

shift_no_dots : (x : Bytes) → All NotDot (map (λ c. c + 100) x)
shift_no_dots [] = tt
shift_no_dots (c ∷ x) = (ground arith, shift_no_dots x)

unshift : (x : Bytes) → map (λ c. c - 100) (map (λ c. c + 100) x) ≡ x
unshift [] = refl
unshift (c ∷ x) = ap₂ (λ d y. d ∷ y) (omega arith) (unshift x)

unmarshal-marshal :
    (name : Bytes) (issued over : ℤ)
    → unmarshal_list (parts_of issued ++ (parts_of over ++ name))
      ≡ some (record { username = name; issued_at = issued; expiration = over })
unmarshal-marshal name (pos a) (pos b) = refl
unmarshal-marshal name (pos a) (negsuc b) = refl
unmarshal-marshal name (negsuc a) (pos b) = refl
unmarshal-marshal name (negsuc a) (negsuc b) = refl

pub shift-IsSigning : IsSigning shift
shift-IsSigning = record {
  no_dots = shift_no_dots;
  decoded = λ x. ap some (unshift x);
  unmarshalled =
      λ claims a i x. unmarshal-marshal claims.username claims.issued_at claims.expiration;
  verified = λ message. (bytes_eq_iff message message).1 refl;
}

abbrev pub token : Bearer
token = record {
  access_token =
      create_jwt shift
        (record { username = codes "hello"; issued_at = pos 5; expiration = pos 3605 });
  expiry = 3605000000007;
  token_type = codes "bearer";
  expires_in = 3600;
}

pub token_issued : issue_token shift 5000000007 (codes "hello") (codes "pathfinder") ≡ ok token
unfolding issue_token
token_issued = refl

issue_token-validate_token_example :
    (3000000000000 ≤ (5000000007 + access_token_ttl) / second * second
      → validate_token shift 3000000000000 token.access_token
        ≡ ok (record { subject = codes "hello" }))
    × ((5000000007 + access_token_ttl) / second * second < 3000000000000
        → validate_token shift 3000000000000 token.access_token
          ≡ err unauthenticated (codes "token expired"))
issue_token-validate_token_example =
    issue_token-validate_token shift shift-IsSigning 5000000007 3000000000000 (codes "hello")
      (codes "pathfinder") token (omega arith) token_issued
