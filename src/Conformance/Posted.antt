-- ===== src/Conformance/Posted.antt =====
-- ileaptest/conformance.go over the demo server: the tests that post an event, and the test of a token
-- that has expired.
use ileap_go.Common.{
  ℕ, List, true, false, [], ◌∷◌, ◌≡◌, refl, ap, ◌∙◌, ◌⊎◌, inl, inr, some, All, Bytes, codes,
  bytes_eq, trim_space,
}
use ileap_go.Server.Http.{token_expired, code_text}
use ileap_go.Server.Auth.{
  refused, admitted, pact_gate, pact_events_gate, ileap_gate, check_bearer, is_expired_jwt, through,
}
use ileap_go.Server.Auth.Admission.{soften, pact_events_gate-soften}
use ileap_go.Server.Events.{
  Event, Codec, published_v1, is_known_event_type, normalize_cloud_event_data, decode_cloud_event,
  events, match_string,
}
use ileap_go.Server.Token.{is_hex}
use ileap_go.Server.Events.Uuid.{IsUuid, match_string_iff}
use ileap_go.Server.Events.Accepted.{accepted_answer, events_iff}
use ileap_go.Server.Routes.{events_route, tads_route}
use ileap_go.Conformance.Checks.{
  passed, check, check_error, ConformanceTestConfig, event_to_receive, event_to_reject,
  published_event,
}
use ileap_go.Conformance.Suite.{
  receive_request, send_request_to_be_rejected, receive_published_event, tad_expired_token,
}
use ileap_go.Conformance.Demo.{Setup, auth, bearer, demo_site}
use ileap_go.Conformance.Links.{IsFine}

abbrev pub created_v1 : Bytes
created_v1 = codes "org.wbcsd.pathfinder.ProductFootprintRequest.Created.v1"

abbrev pub event_uuid : Bytes
event_uuid = codes "3a6c14a7-4deb-498a-b5ea-16ce2535b576"

abbrev header_text : Bytes
header_text = codes "application/cloudevents+json; charset=UTF-8"

-- The JSON of an event is read: its data are an object, which is compacted.
pub record Reads (codec : Codec) (body event_type id : Bytes) : Type 0 where
  pub raw : Bytes
  pub compacted : Bytes
  pub envelope :
      codec.unmarshal_envelope body
      ≡ some (record {
        event_type = event_type;
        specversion = codes "1.0";
        id = id;
        source = codes "//test.example.com";
        event_data = b'{' ∷ raw;
      })
  pub trimmed : trim_space (b'{' ∷ raw) ≡ b'{' ∷ raw
  pub compacts : codec.compact (b'{' ∷ raw) ≡ some (b'{' ∷ compacted)

-- The codec reads the media type, and the three events.
pub record ReadsEvents (codec : Codec) : Type 0 where
  pub media : codec.parse_media_type header_text ≡ some (codes "application/cloudevents+json")
  pub to_receive : Reads codec event_to_receive created_v1 (codes "test-event-012")
  pub to_reject : Reads codec event_to_reject created_v1 (codes "test-event-014a")
  pub published :
      Reads codec (published_event (codes "test-event-001")) published_v1 (codes "test-event-001")
  pub pf_ids : codec.unmarshal_pf_ids (b'{' ∷ published.compacted) ≡ some (event_uuid ∷ [])

module _ (codec : Codec) (body event_type id : Bytes) (h : Reads codec body event_type id) where
  -- The event as it is checked.
  abbrev event_of : Event
  event_of = record {
    event_type = event_type;
    specversion = codes "1.0";
    id = id;
    source = codes "//test.example.com";
    event_data = b'{' ∷ h.compacted;
  }

  decoded_event : decode_cloud_event codec body ≡ some event_of
  unfolding decode_cloud_event normalize_cloud_event_data bytes_eq
  decoded_event =
      rw (h.envelope, decode_cloud_event)
        (rw (h.trimmed, normalize_cloud_event_data) (rw (h.compacts) refl))

  abbrev PfIds : Type 0
  PfIds =
      (bytes_eq event_type published_v1 ≡ false)
      ⊎ ((ids : List Bytes) × (codec.unmarshal_pf_ids (b'{' ∷ h.compacted) ≡ some ids)
          × All IsUuid ids)

  pub accepted_event :
      codec.parse_media_type header_text ≡ some (codes "application/cloudevents+json")
      → bytes_eq id [] ≡ false
      → is_known_event_type event_type ≡ true
      → PfIds
      → events codec {A = Unit} (record { content_type = header_text; body = some body })
        ≡ accepted_answer codec
  unfolding bytes_eq
  accepted_event media named known ids =
      (events_iff codec (record { content_type = header_text; body = some body })).1 (
        event_of,
        record {
          media = codes "application/cloudevents+json";
          body = body;
          has_type = refl;
          parsed = media;
          accepted = refl;
          read = refl;
          decoded = decoded_event;
        },
        record {
          version = refl;
          has_id = named;
          has_source = refl;
          has_data = refl;
          known = known;
          pf_ids = ids;
        },
      )

module _ (setup : Setup) (cfg : ConformanceTestConfig) (token : Bytes)
    (pact_admits : pact_gate (auth setup) (bearer token) ≡ admitted token)
    (reads : ReadsEvents setup.codec) where
  events_admit : pact_events_gate (auth setup) (bearer token) ≡ admitted token
  events_admit = pact_events_gate-soften (auth setup) (bearer token) ∙ ap soften pact_admits

  event-admitted :
      (body : Bytes)
      → (demo_site setup).post_event token body
        ≡ events setup.codec (record { content_type = header_text; body = some body })
  unfolding demo_site events_route through
  event-admitted body = rw (events_admit, events_route) refl

  pub receive_request-passed : receive_request (demo_site setup) cfg token ≡ passed
  unfolding receive_request bytes_eq is_known_event_type
  receive_request-passed =
      rw
        (event-admitted event_to_receive
          ∙ accepted_event setup.codec event_to_receive created_v1 (codes "test-event-012")
              reads.to_receive reads.media refl refl (inl refl))
        refl

  pub send_request_to_be_rejected-passed :
      send_request_to_be_rejected (demo_site setup) cfg token ≡ passed
  unfolding send_request_to_be_rejected bytes_eq is_known_event_type
  send_request_to_be_rejected-passed =
      rw
        (event-admitted event_to_reject
          ∙ accepted_event setup.codec event_to_reject created_v1 (codes "test-event-014a")
              reads.to_reject reads.media refl refl (inl refl))
        refl

  is_uuid : All IsUuid (event_uuid ∷ [])
  unfolding match_string is_hex
  is_uuid = ((match_string_iff event_uuid).0 refl, tt)

  pub receive_published_event-passed : receive_published_event (demo_site setup) cfg token ≡ passed
  unfolding receive_published_event bytes_eq is_known_event_type
  receive_published_event-passed =
      rw
        (event-admitted (published_event (codes "test-event-001"))
          ∙ accepted_event setup.codec (published_event (codes "test-event-001")) published_v1
              (codes "test-event-001") reads.published reads.media refl refl
              (inr (event_uuid ∷ [], reads.pf_ids, is_uuid)))
        refl

module _ (setup : Setup) (token : Bytes) where
  expired_refused :
      (expired : Bytes)
      → is_expired_jwt setup.clock expired ≡ true
      → bytes_eq expired [] ≡ false
      → ileap_gate (auth setup) setup.clock (bearer expired)
        ≡ refused 401 token_expired (codes "token expired")
  unfolding ileap_gate check_bearer bytes_eq
  expired_refused [] e n = absurd (cc n)
  expired_refused (c ∷ cs) e n = rw e refl

  expired_answer :
      (c : ℕ) (cs : Bytes)
      → is_expired_jwt setup.clock (c ∷ cs) ≡ true
      → check_error 401 (codes "TokenExpired") ((demo_site setup).get_tads [] (c ∷ cs)) ≡ true
  unfolding demo_site tads_route through code_text bytes_eq
  expired_answer c cs e = rw (expired_refused (c ∷ cs) e refl, tads_route) refl

  pub tad_expired_token-IsFine :
      (username password expired : Bytes)
      → (expired ≡ []) ⊎ (is_expired_jwt setup.clock expired ≡ true)
      → IsFine (
          tad_expired_token
            (demo_site setup)
            (record { username = username; password = password; expired_token = expired })
            token)
  unfolding tad_expired_token
  tad_expired_token-IsFine username password [] h = inr refl
  tad_expired_token-IsFine username password (c ∷ cs) (inl e) = absurd (cc e)
  tad_expired_token-IsFine username password (c ∷ cs) (inr e) =
      inl (ap check (expired_answer c cs e))
