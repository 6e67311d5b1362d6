-- ===== src/Demo/Provider.antt =====
-- handlers/ileapdemo/auth_provider.go: `AuthProvider` as the authentication handler of the server, with
-- its discovery documents (server_types.go), at one instant.
use ileap_go.Common.{ℕ, List, [], ◌∷◌, ◌++◌, some, Bytes, codes}
use ileap_go.Server.Auth.{AuthHandler}
use ileap_go.Demo.Auth.{Signing, Bearer, issue_token, validate_token}

-- `OpenIDConfiguration`, less its two URLs that are never set.
pub record OpenIdConfiguration : Type 0 where
  pub issuer_url : Bytes
  pub auth_url : Bytes
  pub token_url : Bytes
  pub jwks_url : Bytes
  pub algorithms : List Bytes
  pub response_types_supported : List Bytes
  pub subject_types_supported : List Bytes

-- `JWK`
pub record JsonWebKey : Type 0 where
  pub key_type : Bytes
  pub use_for : Bytes
  pub algorithm : Bytes
  pub key_id : Bytes
  pub n : Bytes
  pub e : Bytes

unfoldable pub open_id_configuration : Bytes → OpenIdConfiguration
open_id_configuration base_url = record {
  issuer_url = base_url;
  auth_url = base_url ++ codes "/auth/token";
  token_url = base_url ++ codes "/auth/token";
  jwks_url = base_url ++ codes "/jwks";
  algorithms = codes "RS256" ∷ [];
  response_types_supported = codes "token" ∷ [];
  subject_types_supported = codes "public" ∷ [];
}

-- `KeyPair.JWK`, of the bytes of the two numbers of the public key.
unfoldable pub jwk : Signing → Bytes → Bytes → JsonWebKey
jwk s n e = record {
  key_type = codes "RSA";
  use_for = codes "sig";
  algorithm = codes "RS256";
  key_id = codes "Public key";
  n = s.encode_to_string n;
  e = s.encode_to_string e;
}

-- The provider, with the bytes of its public key.
unfoldable pub auth_provider :
    Signing → Bytes → Bytes → ℕ → AuthHandler Bearer OpenIdConfiguration (List JsonWebKey)
auth_provider s n e now = record {
  issue_token = issue_token s now;
  validate_token = validate_token s now;
  open_id_configuration = λ base_url. some (open_id_configuration base_url);
  jwks = some (jwk s n e ∷ []);
}
