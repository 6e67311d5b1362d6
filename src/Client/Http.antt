-- ===== src/Client/Http.antt =====
-- The HTTP requests that the clients send (client.go, handlers/ileapclerk/client.go) and the responses
-- that they read; a header that is not there is empty.
use ileap_go.Common.{ℕ, Option, none, some, [], Bytes, codes}
use ileap_go.Server.Writer.{Writer}

pub record HttpRequest : Type 0 where
  pub method : Bytes
  pub url : Bytes
  pub raw_query : Bytes
  pub authorization : Bytes
  pub content_type : Bytes
  pub user_agent : Bytes
  pub content : Bytes

-- The body is `none` where it cannot be read to its end.
pub record HttpResponse : Type 0 where
  pub status : Bytes
  pub status_code : ℕ
  pub content_type : Bytes
  pub authorization : Bytes
  pub body : Option Bytes

-- `http.Client.Do`
pub data Sent : Type 0 where
  failed : Sent
  answered : HttpResponse → Sent

abbrev pub Transport : Type 0
Transport = HttpRequest → Sent

abbrev status_or_ok : Option ℕ → ℕ
status_or_ok none = 200
status_or_ok (some status) = status

-- What a client reads of what a server wrote, with the text of each status.
abbrev pub received : (ℕ → Bytes) → Writer → HttpResponse
received status_text w = record {
  status = status_text (status_or_ok w.status);
  status_code = status_or_ok w.status;
  content_type = codes "application/json";
  authorization = [];
  body = some w.written;
}
