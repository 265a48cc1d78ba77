-- ===== src/Idp/Support.antt =====
-- testhelper/support.go: the small functions that the test helpers share.
use diene_go_auth_engine.Prelude.{String, List, [], ◌∷◌, ◌==◌, if◌then◌else◌}
use diene_go_auth_engine.Value.{Values, member, no_values, text}
use diene_go_auth_engine.Text.{join_spaces}

-- problem.ErrorPortal of the errors-problems library
pub record ErrorPortal : Type 0 where
  pub scheme : String
  pub host : String
  pub landscape : String
  pub platform : String
  pub service : String
  pub portal_module : String

-- SampleErrorPortal
abbrev pub sample_error_portal : ErrorPortal
sample_error_portal = record {
  scheme = "https";
  host = "docs.raichu.cluster.atomi.cloud";
  landscape = "lapras";
  platform = "alcohol";
  service = "zinc";
  portal_module = "auth";
}

-- `orDefault`
unfoldable pub or_default : String → String → String
or_default value fallback = if value == "" then fallback else value

-- `toAny`
abbrev pub to_any : List String → Values
to_any [] = no_values
to_any (value ∷ values) = member (text value) (to_any values)

-- `joinScopes`
unfoldable pub join_scopes : List String → String
unfolding join_spaces
join_scopes values = join_spaces values
