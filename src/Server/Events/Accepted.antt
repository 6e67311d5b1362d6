-- ===== src/Server/Events/Accepted.antt =====
-- server.go, `events`: which events are accepted.
use ileap_go.Common.{
  Bool, true, false, not, ◌||◌, List, [], ◌∷◌, ◌≡◌, refl, ◌∙◌, ◌↔◌, ◌⊎◌, inl, inr, none, some,
  arith, Bool-cases, Option-cases, if◌then◌else◌, All, Bytes, codes, bytes_eq,
}
use ileap_go.Server.Http.{Response, empty}
use ileap_go.Server.Events.Uuid.{IsUuid, match_string_iff}
use ileap_go.Server.Events.{
  Event, Codec, EventRequest, published_v1, is_known_event_type, all_uuids, decode_cloud_event,
  validate_event_data, check_event, is_event_media, event_fault, events,
}

all_uuids_iff : (ids : List Bytes) → (all_uuids ids ≡ true) ↔ All IsUuid ids
unfolding all_uuids
all_uuids_iff [] = ground arith
all_uuids_iff (id ∷ ids) = ground (arith, match_string_iff id, all_uuids_iff ids)

-- An event with the fields that the handler wants, of a known type; the identifiers of a
-- publication are UUIDs.
pub record IsValid (codec : Codec) (event : Event) : Type 0 where
  pub version : bytes_eq event.specversion (codes "1.0") ≡ true
  pub has_id : bytes_eq event.id [] ≡ false
  pub has_source : bytes_eq event.source [] ≡ false
  pub has_data : bytes_eq event.event_data [] ≡ false
  pub known : is_known_event_type event.event_type ≡ true
  pub pf_ids :
      (bytes_eq event.event_type published_v1 ≡ false)
      ⊎ ((ids : List Bytes) × (codec.unmarshal_pf_ids event.event_data ≡ some ids) × All IsUuid ids)

-- The guards of `check_event` all pass.
no_fault_iff :
    (version no_id no_source no_data valid known : Bool) (m₁ m₂ m₃ m₄ : Bytes)
    → ((if not version || no_id || no_source
          then some m₁
          else if no_data
          then some m₂
          else if not valid
          then some m₃
          else if not known
          then some m₄
          else none)
        ≡ none)
      ↔ ((version ≡ true)
          × (no_id ≡ false)
          × (no_source ≡ false)
          × (no_data ≡ false)
          × (valid ≡ true)
          × (known ≡ true))
no_fault_iff version no_id no_source no_data valid known m₁ m₂ m₃ m₄ = ground arith

module _ (codec : Codec) where
  validate_event_data_iff :
      (event : Event)
      → (validate_event_data codec event ≡ true) ↔ (
          (bytes_eq event.event_type published_v1 ≡ false)
          ⊎ ((ids : List Bytes) × (codec.unmarshal_pf_ids event.event_data ≡ some ids)
              × All IsUuid ids))
  unfolding validate_event_data
  validate_event_data_iff event = elim (Bool-cases (bytes_eq event.event_type published_v1)) [
    | inr o ↦ (λ _. inl o, λ _. rw (o, validate_event_data) refl)
    | inl p ↦ elim (Option-cases (codec.unmarshal_pf_ids event.event_data)) [
      | inl n ↦ (
        (λ e. absurd (cc (rw (p, n, validate_event_data) at e))),
        (λ q. elim q [ inl o ↦ absurd (cc (o, p)) | inr (ids, f, _) ↦ absurd (cc (f, n)) ]),
      )
      | inr (ids, f) ↦ (
        (λ e. inr (ids, f, (all_uuids_iff ids).0 (rw (p, f, validate_event_data) at e))),
        (λ q. elim q [
          | inl o ↦ absurd (cc (o, p))
          | inr (ids', f', h) ↦ rw (p, f', validate_event_data) ((all_uuids_iff ids').1 h)
        ]),
      )
    ]
  ]

  check_event_iff : (event : Event) → (check_event codec event ≡ none) ↔ IsValid codec event
  unfolding check_event
  check_event_iff event = (
    (λ e.
        let (a, b, c, d, v, k) =
          (no_fault_iff (bytes_eq event.specversion (codes "1.0")) (bytes_eq event.id [])
              (bytes_eq event.source []) (bytes_eq event.event_data [])
              (validate_event_data codec event) (is_known_event_type event.event_type) _ _ _ _).0
            e in
        record {
          version = a;
          has_id = b;
          has_source = c;
          has_data = d;
          known = k;
          pf_ids = (validate_event_data_iff event).0 v;
        }),
    (λ h.
        (no_fault_iff (bytes_eq event.specversion (codes "1.0")) (bytes_eq event.id [])
            (bytes_eq event.source []) (bytes_eq event.event_data [])
            (validate_event_data codec event) (is_known_event_type event.event_type) _ _ _ _).1
          (
            h.version,
            h.has_id,
            h.has_source,
            h.has_data,
            (validate_event_data_iff event).1 h.pf_ids,
            h.known,
          )),
  )

  -- The event that a request carries: its media type is one of the two, and its body decodes.
  pub record Carries (r : EventRequest) (event : Event) : Type 0 where
    pub media : Bytes
    pub body : Bytes
    pub has_type : bytes_eq r.content_type [] ≡ false
    pub parsed : codec.parse_media_type r.content_type ≡ some media
    pub accepted : is_event_media media ≡ true
    pub read : r.body ≡ some body
    pub decoded : decode_cloud_event codec body ≡ some event

  event_fault_lem :
      (r : EventRequest) (event : Event)
      → Carries r event
      → event_fault codec r ≡ check_event codec event
  unfolding event_fault
  event_fault_lem r event h =
      rw (h.has_type, h.parsed, h.accepted, h.read, h.decoded, event_fault) refl

  Carries-event_fault :
      (r : EventRequest)
      → event_fault codec r ≡ none
      → (event : Event) × Carries r event × IsValid codec event
  unfolding event_fault
  Carries-event_fault r e = elim (Bool-cases (bytes_eq r.content_type [])) [
    | inl n ↦ absurd (cc (rw (n, event_fault) at e))
    | inr t ↦ elim (Option-cases (codec.parse_media_type r.content_type)) [
      | inl n ↦ absurd (cc (rw (t, n, event_fault) at e))
      | inr (media, m) ↦ elim (Bool-cases (is_event_media media)) [
        | inr n ↦ absurd (cc (rw (t, m, n, event_fault) at e))
        | inl a ↦ elim (Option-cases r.body) [
          | inl n ↦ absurd (cc (rw (t, m, a, n, event_fault) at e))
          | inr (body, b) ↦ elim (Option-cases (decode_cloud_event codec body)) [
            | inl n ↦ absurd (cc (rw (t, m, a, b, n, event_fault) at e))
            | inr (event, d) ↦ (
              event,
              record {
                media = media;
                body = body;
                has_type = t;
                parsed = m;
                accepted = a;
                read = b;
                decoded = d;
              },
              (check_event_iff event).0 (rw (t, m, a, b, d, event_fault) at e),
            )
          ]
        ]
      ]
    ]
  ]

  -- The answer to an event that is accepted.
  abbrev pub accepted_answer : {A : Type 0} → Response A
  accepted_answer = record { status = 200; link = none; body = empty }

  -- `events` accepts a request exactly when it has one of the two media types and carries an event
  -- of the version 1.0 with an identifier, a source and data, of a known type, whose footprint
  -- identifiers are UUIDs if it is a publication.
  pub events_iff :
      {A : Type 0} (r : EventRequest)
      → (events codec {A = A} r ≡ accepted_answer)
        ↔ ((event : Event) × Carries r event × IsValid codec event)
  unfolding events
  events_iff r = (
    (λ e. elim (Option-cases (event_fault codec r)) [
      | inl n ↦ Carries-event_fault r n
      | inr (message, f) ↦ absurd (cc (rw (f, events) at e))
    ]),
    (λ (event, h, v). rw (event_fault_lem r event h ∙ (check_event_iff event).1 v, events) refl),
  )
