-- ===== src/Adapter/Billing.antt =====
-- Which responses an adapter bills.
use rein.Base.{
  ◌≡◌, ◌<◌, ◌⊎◌, Bool, true, false, leb, refl, Option, some, Text, bytes, has_prefix, arith,
  Bool-cases, Option-cases, inl, inr,
}
use rein.Base.Float.{Float}
use rein.Meter.Pricing.{Pricer}
use rein.Adapter.{
  Adapter, Recorder, Moment, record_spend, UpstreamResponse, Payload, modify_response,
}

-- The key and the usage that a response is to be billed for: it is a JSON response, and no stream,
-- with a status below 400 and a body that can be read and decodes to a payload with usage, to a
-- request with a key.
pub record IsBillable (HasUsage : Payload → Type 0) (decode : Text → Option Payload)
    (resp : UpstreamResponse) (id : Text) (q : Payload) : Type 0 where
  pub body : Text
  pub no_stream : has_prefix resp.content_type (bytes "text/event-stream") ≡ false
  pub is_json : has_prefix resp.content_type (bytes "application/json") ≡ true
  pub is_read : resp.body ≡ some body
  pub is_success : resp.status < 400
  pub decodes : decode body ≡ some q
  pub has_usage : HasUsage q
  pub has_key : resp.key_id ≡ some id

module _ {F S : Type 0} ⦃fl : Float F⦄ where
  pub modify_response-IsBillable :
      (upstream : Text) (no_usage : Payload → Bool) (decode : Text → Option Payload)
      (recorder : Recorder F S) (holder : Option (Option (Pricer F))) (a : Adapter S) (now : Moment)
      (resp : UpstreamResponse)
      → ((¬ ((id : Text) × (q : Payload) × IsBillable (λ q. no_usage q ≡ false) decode resp id q))
          × ((modify_response upstream no_usage decode recorder holder a now resp).0 ≡ a))
        ⊎ ((id : Text) × (q : Payload) × IsBillable (λ q. no_usage q ≡ false) decode resp id q
            × ((modify_response upstream no_usage decode recorder holder a now resp).0
                ≡ record_spend upstream recorder holder a now id q.model q.input q.output))
  unfolding modify_response
  modify_response-IsBillable upstream no_usage decode recorder holder a now resp =
      elim (Bool-cases (has_prefix resp.content_type (bytes "text/event-stream"))) [
        | inl stream ↦
            inl ((λ (id, q, b). absurd (ground (arith, b.no_stream, stream))), rw stream refl)
        | inr no_stream ↦
            elim (Bool-cases (has_prefix resp.content_type (bytes "application/json"))) [
              | inr other ↦ inl (
                (λ (id, q, b). absurd (ground (arith, b.is_json, other))),
                rw (no_stream, other) refl,
              )
              | inl json ↦ elim (Option-cases resp.body) [
                | inl cut ↦ inl (
                  (λ (id, q, b). absurd (ground (arith, b.is_read, cut))),
                  ground (arith, no_stream, json, cut),
                )
                | inr (body, got) ↦ elim (Bool-cases (leb 400 resp.status)) [
                  | inl refused ↦ inl (
                    (λ (id, q, b). absurd (ground (arith, b.is_success, refused))),
                    ground (arith, no_stream, json, got, refused),
                  )
                  | inr fine ↦ elim (Option-cases (decode body)) [
                    | inl garbled ↦ inl (
                      (λ (id, q, b). absurd (ground (arith, b.is_read, got, b.decodes, garbled))),
                      ground (arith, no_stream, json, got, fine, garbled),
                    )
                    | inr (q, decoded) ↦ elim (Bool-cases (no_usage q)) [
                      | inl unused ↦ inl (
                        (λ (id, q, b). absurd (
                            ground
                              (arith, b.is_read, got, b.decodes, decoded, b.has_usage, unused))),
                        ground (arith, no_stream, json, got, fine, decoded, unused),
                      )
                      | inr used ↦ elim (Option-cases resp.key_id) [
                        | inl keyless ↦ inl (
                          (λ (id, q, b). absurd (ground (arith, b.has_key, keyless))),
                          ground (arith, no_stream, json, got, fine, decoded, used, keyless),
                        )
                        | inr (id, key) ↦ inr (
                          id,
                          q,
                          record {
                            body = body;
                            no_stream = no_stream;
                            is_json = json;
                            is_read = got;
                            is_success = ground arith;
                            decodes = decoded;
                            has_usage = used;
                            has_key = key;
                          },
                          ground (arith, no_stream, json, got, fine, decoded, used, key),
                        )
                      ]
                    ]
                  ]
                ]
              ]
            ]
      ]
