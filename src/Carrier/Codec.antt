-- ===== src/Carrier/Codec.antt =====
-- What a carrier of lib/deferred/carrier.go delivers is what was put into it.
use Prim.Native.String
use Prim.Native.String.append
use diene_go_auth_engine.Prelude.{
  String, some, inr, arith, eq_iff, ◌≡◌, ◌≢◌, refl, if◌then◌else◌, ◌==◌,
}
use diene_go_auth_engine.Carrier.{
  Query, Codecs, carrier_expiry_field, carrier_mount, carrier_mount_field, carrier_token_field,
  cut_prefix, read_values, referrer_values, android_referrer, carrier_expiry, clipboard_marker,
  clipboard_payload, parse_android_referrer, parse_clipboard_payload,
}
use diene_go_auth_engine.Deferred.{Handoff}
use diene_go_auth_engine.Time.{Instant}
use diene_go_auth_engine.Value.{insert, lookup}
use diene_go_auth_engine.Problems.{ok}
use diene_go_auth_engine.Config.{default_handoff_path}

cut_prefix-append : (p s : String) → cut_prefix p (String.◌++◌ p s) ≡ some s
unfolding cut_prefix
cut_prefix-append String.[] s = rw append.nil refl
cut_prefix-append (String.◌∷◌ c p) s = rw append.cons (ground (arith, cut_prefix-append p s))

module _ (codecs : Codecs) where
  read_values-referrer :
      (h : Handoff) (mount expiry : String) (at : Instant) (m : Query)
      → h.token ≢ ""
      → codecs.parse_instant expiry ≡ ok at
      → ((k : String) → lookup k m ≡ lookup k (referrer_values h mount expiry))
      → read_values codecs m
        ≡ inr (
          record { token = h.token; expires_at = at },
          if mount == "" then default_handoff_path else mount,
        )
  unfolding read_values referrer_values lookup insert carrier_mount
  read_values-referrer h mount expiry at m named reads same = ground (
    arith,
    same carrier_token_field,
    same carrier_expiry_field,
    same carrier_mount_field,
    eq_iff h.token "",
    eq_iff mount "",
  )

  -- A handoff whose token is not blank survives the clipboard: where its expiry can be written and
  -- reads back as an instant, and its encoded query parses to the values it was made of, the
  -- payload is built, and parsing it gives the token, that instant and the mount that was given, or
  -- the default path where that was blank.
  pub clipboard_roundtrip :
      (h : Handoff) (mount expiry : String) (at : Instant) (m : Query)
      → h.token ≢ ""
      → codecs.format h.expires_at ≡ ok expiry
      → codecs.parse_instant expiry ≡ ok at
      → codecs.parse_query (codecs.encode (referrer_values h mount expiry)) ≡ ok m
      → ((k : String) → lookup k m ≡ lookup k (referrer_values h mount expiry))
      → (payload : String) × (clipboard_payload codecs h mount ≡ ok payload)
        × (parse_clipboard_payload codecs payload
            ≡ inr (
              record { token = h.token; expires_at = at },
              if mount == "" then default_handoff_path else mount,
            ))
  unfolding clipboard_payload parse_clipboard_payload android_referrer parse_android_referrer
      carrier_expiry
  clipboard_roundtrip h mount expiry at m named ef ep parsed same =
      let encoded = codecs.encode (referrer_values h mount expiry) in
      (
        String.◌++◌ clipboard_marker encoded,
        ground (arith, ef),
        ground (
          arith,
          cut_prefix-append clipboard_marker encoded,
          parsed,
          read_values-referrer h mount expiry at m named ep same,
        ),
      )
