-- ===== src/Carrier.antt =====
-- lib/deferred/carrier.go: the payloads that carry a handoff through an app store. `Encode` and
-- `ParseQuery` of net/url, and the RFC 3339 codec of the core-utils library, are parameters.
pub mod Codec
use Prim.Native.Char.{code}
use Prim.Native.String
use diene_go_auth_engine.Prelude.{
  String, Option, none, some, List, [], ◌∷◌, ◌⊎◌, inl, inr, if◌then◌else◌, nat_eq, ◌==◌, arith,
}
use diene_go_auth_engine.Value.{Assoc, field, insert, lookup}
use diene_go_auth_engine.Problems.{Error, Result, err, ok}
use diene_go_auth_engine.Deferred.{Handoff}
use diene_go_auth_engine.Time.{Instant}
use diene_go_auth_engine.Config.{default_handoff_path}
use diene_go_auth_engine.Principal.{or_zero}
use diene_go_auth_engine.Cache.{token}

abbrev pub carrier_token_field : String
carrier_token_field = "atomi_handoff"

abbrev pub carrier_expiry_field : String
carrier_expiry_field = "atomi_handoff_expires"

abbrev pub carrier_mount_field : String
carrier_mount_field = "atomi_handoff_mount"

abbrev pub clipboard_marker : String
clipboard_marker = "atomi-handoff:"

-- CarrierError, and the errors of the libraries
pub data CarrierError : Type 0 where
  missing : String → CarrierError
  other_error : Error → CarrierError

-- url.Values, of which the carriers set and get one for a key
abbrev pub Query : Type 0
Query = Assoc String

-- The libraries' codecs
pub record Codecs : Type 0 where
  pub encode : Query → String
  pub parse_query : String → Result Query
  pub format : Instant → Result String
  pub parse_instant : String → Result Instant

-- strings.CutPrefix
unfoldable pub cut_prefix : String → String → Option String
cut_prefix String.[] s = some s
cut_prefix (String.◌∷◌ c p) String.[] = none
cut_prefix (String.◌∷◌ c p) (String.◌∷◌ d s) =
    let rest = cut_prefix p s in if nat_eq (code c) (code d) then rest else none

-- `carrierMount`
unfoldable pub carrier_mount : String → String
carrier_mount mount = if mount == "" then default_handoff_path else mount

-- values.Get
abbrev pub get_value : String → Query → String
get_value name values = or_zero "" (lookup name values)

-- The values of a referrer
unfoldable pub referrer_values : Handoff → String → String → Query
unfolding carrier_mount
referrer_values handoff mount expiry =
    insert carrier_mount_field (carrier_mount mount)
      (insert carrier_expiry_field expiry (insert carrier_token_field handoff.token []))

module _ (codecs : Codecs) where
  -- `carrierExpiry`
  unfoldable pub carrier_expiry : Instant → Result String
  carrier_expiry expiry = codecs.format expiry

  -- AndroidReferrer
  unfoldable pub android_referrer : Handoff → String → Result String
  unfolding carrier_expiry
  android_referrer handoff mount = elim (carrier_expiry handoff.expires_at) [
    | err e ↦ err e
    | ok expiry ↦ ok (codecs.encode (referrer_values handoff mount expiry))
  ]

  -- ParseAndroidReferrer behind the query
  unfoldable pub read_values : Query → CarrierError ⊎ Handoff × String
  unfolding carrier_mount
  read_values values =
      if get_value carrier_token_field values == ""
      then inl (missing carrier_token_field)
      else elim (codecs.parse_instant (get_value carrier_expiry_field values)) [
        | err e ↦ inl (other_error e)
        | ok expiry ↦ inr (
          record { token = get_value carrier_token_field values; expires_at = expiry },
          carrier_mount (get_value carrier_mount_field values),
        )
      ]

  -- ParseAndroidReferrer
  unfoldable pub parse_android_referrer : String → CarrierError ⊎ Handoff × String
  unfolding read_values
  parse_android_referrer referrer = elim (codecs.parse_query referrer) [
    | err e ↦ inl (other_error e)
    | ok values ↦ read_values values
  ]

  -- ClipboardPayload
  unfoldable pub clipboard_payload : Handoff → String → Result String
  unfolding android_referrer
  clipboard_payload handoff mount = elim (android_referrer handoff mount) [
    | err e ↦ err e
    | ok encoded ↦ ok (String.◌++◌ clipboard_marker encoded)
  ]

  -- ParseClipboardPayload
  unfoldable pub parse_clipboard_payload : String → CarrierError ⊎ Handoff × String
  unfolding cut_prefix parse_android_referrer
  parse_clipboard_payload payload = elim (cut_prefix clipboard_marker payload) [
    | none ↦ inl (missing clipboard_marker)
    | some body ↦ parse_android_referrer body
  ]
