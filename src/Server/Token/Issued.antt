-- ===== src/Server/Token/Issued.antt =====
-- server.go, `authToken`: which requests are given a token.
use ileap_go.Common.{
  true, ◌≡◌, refl, ap₂, ◌∙◌, ◌↔◌, inl, inr, some, Bool-cases, Option-cases, All, Bytes, codes,
  bytes_eq, bytes_eq_iff,
}
use ileap_go.Service.{
  unimplemented, resource_exhausted, unavailable, permission_denied, Result, ok, err,
}
use ileap_go.Server.Http.{Values, get}
use ileap_go.Server.Auth.{AuthHandler}
use ileap_go.Server.Token.{TokenRequest, write_json, write_token, unescaped_or_raw, auth_token}
use ileap_go.Server.Token.Escaped.{query_escape, IsByte, unescaped_or_raw-query_escape}

-- A form with the grant type `client_credentials`, and the name and the password of basic
-- authentication.
pub record Credentials (r : TokenRequest) (username password : Bytes) : Type 0 where
  pub form : Values
  pub is_form : r.content_type ≡ codes "application/x-www-form-urlencoded"
  pub parsed : r.form ≡ some form
  pub grant_type : get form (codes "grant_type") ≡ codes "client_credentials"
  pub basic_auth : r.basic_auth ≡ some (username, password)

write_token_iff :
    {A : Type 0} (r : Result A) (creds : A) → (write_token r ≡ write_json creds) ↔ (r ≡ ok creds)
unfolding write_token
write_token_iff (ok a) creds = (λ e. cc e, λ e. cc e)
write_token_iff (err unimplemented m) creds = (λ e. absurd (cc e), λ e. absurd (cc e))
write_token_iff (err resource_exhausted m) creds = (λ e. absurd (cc e), λ e. absurd (cc e))
write_token_iff (err unavailable m) creds = (λ e. absurd (cc e), λ e. absurd (cc e))
write_token_iff (err permission_denied m) creds = (λ e. absurd (cc e), λ e. absurd (cc e))
write_token_iff (err c m) creds = (λ e. absurd (cc e), λ e. absurd (cc e))

bytes_eq_refl : {a b : Bytes} → a ≡ b → bytes_eq a b ≡ true
bytes_eq_refl {a} {b} e = (bytes_eq_iff a b).1 e

module _ {Token Config Keys : Type 0} (auth : AuthHandler Token Config Keys)
    (r : TokenRequest) where
  pub auth_token-Credentials :
      {username password : Bytes}
      → Credentials r username password
      → auth_token auth r
        ≡ write_token (auth.issue_token (unescaped_or_raw username) (unescaped_or_raw password))
  unfolding auth_token
  auth_token-Credentials h =
      rw (bytes_eq_refl h.is_form, h.parsed, bytes_eq_refl h.grant_type, h.basic_auth, auth_token)
        refl

  -- A client that escapes its name and its password, each of bytes, and sends them by basic
  -- authentication with a form of the grant type client_credentials, is judged by the
  -- authentication handler on what they were before.
  pub auth_token-query_escape :
      (client_id client_secret : Bytes)
      → All IsByte client_id
      → All IsByte client_secret
      → Credentials r (query_escape client_id) (query_escape client_secret)
      → auth_token auth r ≡ write_token (auth.issue_token client_id client_secret)
  auth_token-query_escape client_id client_secret a b h =
      auth_token-Credentials h
      ∙ ap₂ (λ x y. write_token (auth.issue_token x y)) (unescaped_or_raw-query_escape client_id a)
          (unescaped_or_raw-query_escape client_secret b)

  -- The token that a request is given, if it is: the request has credentials, and the authentication
  -- handler issues the token for them.
  Credentials-auth_token :
      (creds : Token)
      → auth_token auth r ≡ write_json creds
      → (username : Bytes) × (password : Bytes) × Credentials r username password
        × (auth.issue_token (unescaped_or_raw username) (unescaped_or_raw password) ≡ ok creds)
  unfolding auth_token
  Credentials-auth_token creds e =
      elim (Bool-cases (bytes_eq r.content_type (codes "application/x-www-form-urlencoded"))) [
        | inr n ↦ absurd (cc (rw (n, auth_token) at e))
        | inl t ↦ elim (Option-cases r.form) [
          | inl n ↦ absurd (cc (rw (t, n, auth_token) at e))
          | inr (form, f) ↦
              elim (Bool-cases
                (bytes_eq (get form (codes "grant_type")) (codes "client_credentials"))) [
                  | inr n ↦ absurd (cc (rw (t, f, n, auth_token) at e))
                  | inl g ↦ elim (Option-cases r.basic_auth) [
                    | inl n ↦ absurd (cc (rw (t, f, g, n, auth_token) at e))
                    | inr ((username, password), b) ↦ (
                      username,
                      password,
                      record {
                        form = form;
                        is_form = (bytes_eq_iff r.content_type _).0 t;
                        parsed = f;
                        grant_type = (bytes_eq_iff (get form (codes "grant_type")) _).0 g;
                        basic_auth = b;
                      },
                      (write_token_iff _ creds).0 (rw (t, f, g, b, auth_token) at e),
                    )
                  ]
                ]
        ]
      ]

  -- `authToken` answers with a token exactly when the request is a form with the grant type
  -- `client_credentials`, has basic authentication, and the authentication handler issues that
  -- token for its name and its password, unescaped where they can be.
  pub auth_token_iff :
      (creds : Token)
      → (auth_token auth r ≡ write_json creds) ↔ (
          (username : Bytes) × (password : Bytes) × Credentials r username password
          × (auth.issue_token (unescaped_or_raw username) (unescaped_or_raw password) ≡ ok creds))
  auth_token_iff creds = (
    Credentials-auth_token creds,
    (λ (username, password, h, e). auth_token-Credentials h ∙ (write_token_iff _ creds).1 e),
  )
