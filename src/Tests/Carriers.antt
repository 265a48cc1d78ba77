-- ===== src/Tests/Carriers.antt =====
-- A handoff through the clipboard, with codecs that know one query and one instant.
use diene_go_auth_engine.Prelude.{String, ◌≡◌, ◌≢◌, ◌==◌, inr, refl, ◌∷◌, [], if◌then◌else◌}
use diene_go_auth_engine.Carrier.{
  Codecs, Query, carrier_expiry_field, carrier_mount, carrier_mount_field, carrier_token_field,
  clipboard_payload, parse_clipboard_payload, referrer_values,
}
use diene_go_auth_engine.Deferred.{Handoff}
use diene_go_auth_engine.Carrier.Codec.{clipboard_roundtrip}
use diene_go_auth_engine.Problems.{err, ok, plain}
use diene_go_auth_engine.Value.{insert, lookup}
use diene_go_auth_engine.Prelude.Int.{pos}

abbrev handoff : Handoff
handoff = record { token = "n-1"; expires_at = pos 7 }

abbrev query : Query
query =
    (carrier_token_field, "n-1") ∷ (carrier_expiry_field, "7") ∷ (carrier_mount_field, "/app") ∷ []

abbrev codecs : Codecs
codecs = record {
  encode = λ values. "q";
  parse_query = λ encoded. if encoded == "q" then ok query else err (plain "no query");
  format = λ at. ok "7";
  parse_instant = λ written. if written == "7" then ok (pos 7) else err (plain "no instant");
}

handoff-named : handoff.token ≢ ""
handoff-named h = cc

same_values : (k : String) → lookup k query ≡ lookup k (referrer_values handoff "/app" "7")
unfolding referrer_values carrier_mount insert
same_values k = refl

clipboard_roundtrip_example :
    (payload : String) × (clipboard_payload codecs handoff "/app" ≡ ok payload)
    × (parse_clipboard_payload codecs payload
        ≡ inr (record { token = "n-1"; expires_at = pos 7 }, "/app"))
clipboard_roundtrip_example =
    clipboard_roundtrip codecs handoff "/app" "7" (pos 7) query handoff-named refl refl refl
      same_values
