-- ===== src/Logto/Transport.antt =====
-- One round trip of the client of lib/logto/client.go, and what it refuses without one.
use diene_go_auth_engine.Prelude.{
  String, [], ◌∷◌, ◌≡◌, ◌≢◌, ◌⊎◌, inl, inr, arith, ℕ, ◌<◌, ◌≤◌, Bool-cases, ltb, leb, ◌||◌,
}
use diene_go_auth_engine.Logto.{
  Client, HttpRequest, HttpResponse, Wire, classify_status, decode_payload, send,
}
use diene_go_auth_engine.Problems.{
  Error, Result, err, ok, ownership_denied, provider_unavailable, raise, raise_from,
  token_signature_invalid,
}
use diene_go_auth_engine.Effect.{Result-cases}
use diene_go_auth_engine.Value.{int, text}
use diene_go_auth_engine.Text.Decimal.{itoa}
use diene_go_auth_engine.Prelude.Int.{pos}
use diene_go_auth_engine.Text.{trim_space}

-- The status of a response is a success.
abbrev pub IsSuccess : ℕ → Type 0
IsSuccess status = (200 ≤ status) × (status < 300)

module _ {W A : Type 0} (wire : Wire) (c : Client W) (request : HttpRequest)
    (decode : String → Result A) (w : W) where
  -- The world after the round trip
  abbrev pub after_trip : W
  after_trip = (c.http.round_trip request w).1

  -- Client.send makes one round trip and nothing else, and ends in one of five ways: the provider
  -- was not reached, its payload was not read, its status is no success, its payload does not
  -- decode, or the payload decodes and is the result. The first two and the fourth are
  -- provider-unavailable, and the third is classified by its status: 401 is token-signature-invalid,
  -- 403 is ownership-denied, and any other provider-unavailable.
  pub send_decides :
      ((e : Error) × ((c.http.round_trip request w).0 ≡ err e)
        × (send wire c request decode w ≡ (
          err (
              raise_from c.problems provider_unavailable e
                "the identity provider could not be reached"
                (("url", text (wire.url_text request.url)) ∷ [])),
          after_trip,
        )))
      ⊎ ((r : HttpResponse) × (e : Error) × ((c.http.round_trip request w).0 ≡ ok r)
          × (r.body ≡ err e)
          × (send wire c request decode w ≡ (
            err (
                raise_from c.problems provider_unavailable e
                  "the identity provider response could not be read" []),
            after_trip,
          )))
      ⊎ ((r : HttpResponse) × (payload id : String) × ((c.http.round_trip request w).0 ≡ ok r)
          × (r.body ≡ ok payload)
          × (¬ IsSuccess r.status)
          × ((r.status ≡ 401) × (id ≡ token_signature_invalid)
              ⊎ (r.status ≡ 403) × (id ≡ ownership_denied)
              ⊎ (r.status ≢ 401) × (r.status ≢ 403) × (id ≡ provider_unavailable))
          × (send wire c request decode w ≡ (
            err (
                raise c.problems id "the identity provider rejected the request"
                  (("status", int (pos r.status)) ∷ ("body", text (trim_space payload)) ∷ [])),
            after_trip,
          )))
      ⊎ ((r : HttpResponse) × (payload : String) × (e : Error) × ((c.http.round_trip request w).0
            ≡ ok r)
          × (r.body ≡ ok payload)
          × IsSuccess r.status
          × (decode payload ≡ err e)
          × (send wire c request decode w ≡ (
            err (
                raise_from c.problems provider_unavailable e
                  "the identity provider response was not the expected document"
                  (("status", text (itoa r.status)) ∷ [])),
            after_trip,
          )))
      ⊎ ((r : HttpResponse) × (payload : String) × (a : A) × ((c.http.round_trip request w).0
            ≡ ok r)
          × (r.body ≡ ok payload)
          × IsSuccess r.status
          × (decode payload ≡ ok a)
          × (send wire c request decode w ≡ (ok a, after_trip)))
  unfolding send decode_payload classify_status
  send_decides = elim (Result-cases (c.http.round_trip request w).0) [
    | inr (e, q) ↦ inl (e, q, ground arith)
    | inl (r, q) ↦ inr (elim (Result-cases r.body) [
      | inr (e, b) ↦ inl (r, e, q, b, ground arith)
      | inl (payload, b) ↦ inr (elim (Bool-cases (ltb r.status 200 || leb 300 r.status)) [
        | inl bad ↦
            inl
              (r, payload, classify_status r.status, q, b, ground arith, ground arith, ground arith)
        | inr good ↦ inr (elim (Result-cases (decode payload)) [
          | inr (e, d) ↦ inl (r, payload, e, q, b, ground arith, d, ground arith)
          | inl (a, d) ↦ inr (r, payload, a, q, b, ground arith, d, ground arith)
        ])
      ])
    ])
  ]
