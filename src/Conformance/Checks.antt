-- ===== src/Conformance/Checks.antt =====
-- ileaptest/conformance.go: the site under test, how a test looks at a response, and the events that are
-- posted.
use ileap_go.Common.{
  trim_right, ℕ, Bool, true, false, not, ◌&&◌, List, [], ◌∷◌, ◌++◌, Option, none, some, ◌==◌,
  if◌then◌else◌, Bytes, codes, bytes_eq, equal_fold,
}
use ileap_go.Server.Http.{
  code_text, oauth_code_text, Body, data_list, data_item, json, pact_error, oauth_error, Response,
}
use ileap_go.Server.Auth.{strip_prefix, split}
use ileap_go.Demo.Match.{ProductFootprint, Tad}
use ileap_go.Demo.Auth.{Bearer}
use ileap_go.Demo.Provider.{OpenIdConfiguration}

-- What the server under test answers. A footprint list is asked for with the query of its URL, or
-- by a whole URL, a token endpoint by its URL, and an event is a body.
pub record Site : Type 0 where
  pub post_auth_token : Bytes → Bytes → Response Bearer
  pub post_token_at : Bytes → Bytes → Bytes → Response Bearer
  pub get_openid_configuration : Response OpenIdConfiguration
  pub get_footprints : Bytes → Bytes → Response ProductFootprint
  pub get_footprints_at : Bytes → Bytes → Response ProductFootprint
  pub get_footprint_at : Bytes → Bytes → Response ProductFootprint
  pub get_tads : Bytes → Bytes → Response Tad
  pub post_event : Bytes → Bytes → Response Unit

-- `ConformanceTestConfig`, less the URL of the site.
pub record ConformanceTestConfig : Type 0 where
  pub username : Bytes
  pub password : Bytes
  pub expired_token : Bytes

-- How a test ends: `t.Error` and `t.Fatal` make it fail.
pub data Verdict : Type 0 where
  passed failed skipped : Verdict

abbrev pub check : Bool → Verdict
check true = passed
check false = failed

abbrev pub on_list : {A : Type 0} → (List A → Bool) → Body A → Bool
on_list f (data_list xs) = f xs
on_list f _ = false

abbrev pub on_item : {A : Type 0} → (A → Bool) → Body A → Bool
on_item f (data_item x) = f x
on_item f _ = false

abbrev pub on_json : {A : Type 0} → (A → Bool) → Body A → Bool
on_json f (json v) = f v
on_json f _ = false

-- `getJSON` with `parseFootprintList` or `parseTADList`, and what is asked of the list.
abbrev pub check_list : {A : Type 0} → (List A → Bool) → Response A → Bool
check_list f r = if r.status == 200 then on_list f r.body else false

-- `getJSON` with `parseFootprint`.
abbrev pub check_item : {A : Type 0} → (A → Bool) → Response A → Bool
check_item f r = if r.status == 200 then on_item f r.body else false

abbrev pub check_json : {A : Type 0} → (A → Bool) → Response A → Bool
check_json f r = if r.status == 200 then on_json f r.body else false

abbrev pub error_is : {A : Type 0} → Bytes → Body A → Bool
error_is want (pact_error code message) = bytes_eq (code_text code) want
error_is want _ = false

abbrev pub oauth_error_is : {A : Type 0} → Bytes → Body A → Bool
oauth_error_is want (oauth_error code description) = bytes_eq (oauth_code_text code) want
oauth_error_is want _ = false

-- A status and the code of an error.
abbrev pub check_error : {A : Type 0} → ℕ → Bytes → Response A → Bool
check_error status want r = r.status == status && error_is want r.body

abbrev pub is_set : Bytes → Bool
is_set s = not (bytes_eq s [])

abbrev pub is_token : Bearer → Bool
is_token t = is_set t.access_token && equal_fold t.token_type (codes "bearer")

-- `strings.TrimLeft`, of one byte.
unfoldable pub trim_left : ℕ → Bytes → Bytes
trim_left c [] = []
trim_left c (x ∷ s) = let rest = trim_left c s in if x == c then rest else x ∷ s

abbrev pub found : Bool → Option Bytes → Bool
found rest none = rest
found rest (some s) = true

-- `strings.Contains`
unfoldable pub contains : Bytes → Bytes → Bool
unfolding strip_prefix
contains part [] = found false (strip_prefix part [])
contains part (c ∷ s) = let rest = contains part s in found rest (strip_prefix part (c ∷ s))

abbrev pub first_part : List Bytes → Bytes
first_part [] = []
first_part (part ∷ parts) = part

-- The URL of a header `Link`.
unfoldable pub next_url : Bytes → Bytes
unfolding split trim_left trim_right
next_url link = trim_right b'>' (trim_left b'<' (first_part (split b';' link)))

-- The lines of an event, as the source indents them.
abbrev pub lines : List Bytes → Bytes
lines [] = []
lines (line ∷ []) = line
lines (line ∷ next ∷ rest) = line ++ (codes "\n" ++ lines (next ∷ rest))

abbrev pub request_event : Bytes → Bytes → Bytes
request_event id product_id = lines (
    codes "{"
    ∷ codes "\t\t\"specversion\": \"1.0\","
    ∷ (codes "\t\t\"id\": \"" ++ (id ++ codes "\","))
    ∷ codes "\t\t\"source\": \"//test.example.com\","
    ∷ codes "\t\t\"time\": \"2024-01-15T10:00:00Z\","
    ∷ codes "\t\t\"type\": \"org.wbcsd.pathfinder.ProductFootprintRequest.Created.v1\","
    ∷ codes "\t\t\"data\": {"
    ∷ codes "\t\t\t\"pf\": {"
    ∷ (codes "\t\t\t\t\"productIds\": [\"" ++ (product_id ++ codes "\"]"))
    ∷ codes "\t\t\t},"
    ∷ codes "\t\t\t\"comment\": \"Please send PCF data for this year.\""
    ∷ codes "\t\t}"
    ∷ codes "\t}"
    ∷ [])

unfoldable pub event_to_receive : Bytes
event_to_receive =
    request_event (codes "test-event-012")
      (codes "urn:pathfinder:product:customcode:vendor-assigned:shipment:shipment-simple-1")

unfoldable pub event_to_reject : Bytes
event_to_reject = request_event (codes "test-event-014a") (codes "urn:pact:null")

-- The event of a publication, with its number.
unfoldable pub published_event : Bytes → Bytes
published_event id = lines (
    codes "{"
    ∷ codes "\t\t\"type\": \"org.wbcsd.pathfinder.ProductFootprint.Published.v1\","
    ∷ codes "\t\t\"specversion\": \"1.0\","
    ∷ (codes "\t\t\"id\": \"" ++ (id ++ codes "\","))
    ∷ codes "\t\t\"source\": \"//test.example.com\","
    ∷ codes "\t\t\"time\": \"2024-01-15T10:00:00Z\","
    ∷ codes "\t\t\"data\": {"
    ∷ codes "\t\t\t\"pfIds\": [\"3a6c14a7-4deb-498a-b5ea-16ce2535b576\"]"
    ∷ codes "\t\t}"
    ∷ codes "\t}"
    ∷ [])
