-- ===== src/Config.antt =====
-- lib/authengine/config.go: the engine's configuration block, without its JSON schemas.
pub mod Lifetimes
pub mod Schema
use diene_go_auth_engine.Prelude.{
  String, Option, none, some, List, [], ◌∷◌, Bool, true, false, ◌==◌, if◌then◌else◌, arith, map,
}
use diene_go_auth_engine.Time.{Duration, of_seconds}
use diene_go_auth_engine.Guard.{PolicySet}
use diene_go_auth_engine.Problems.{Problems, Result}
use diene_go_auth_engine.Token.{Resource, default_clock_skew, default_refresh_skew}
use diene_go_auth_engine.Resource.{ResourceTree, new_resource_tree}
use diene_go_auth_engine.Prelude.Int.{ltb_ℤ, pos, ℤ}

abbrev pub config_block_key : String
config_block_key = "auth"

abbrev pub default_handoff_path : String
default_handoff_path = "/app-handoff"

pub record ManagementConfig : Type 0 where
  pub endpoint : String
  pub resource : String
  pub client_id : String
  pub client_secret : String

pub record IdpConfig : Type 0 where
  pub issuer : String
  pub audience : String
  pub jwks_uri : String
  pub algorithms : List String
  pub clock_skew_seconds : ℤ
  pub management : ManagementConfig

pub record MintingConfig : Type 0 where
  pub token_endpoint : String
  pub client_id : String
  pub client_secret : String
  pub handoff_path : String
  pub cache_namespace : String
  pub refresh_skew_seconds : ℤ
  pub concurrency : ℤ

pub record ResourceConfig : Type 0 where
  pub name : String
  pub indicator : String
  pub scopes : List String

pub record Config : Type 0 where
  pub idp : IdpConfig
  pub minting : MintingConfig
  pub resources : List ResourceConfig
  pub policies : PolicySet

-- A configured number of seconds, or the default where it is not positive
abbrev seconds_or : ℤ → Duration → Duration
seconds_or s fallback = if ltb_ℤ (pos 0) s then of_seconds s else fallback

-- IDPConfig.Leeway
unfoldable pub config_leeway : IdpConfig → Duration
config_leeway c = seconds_or c.clock_skew_seconds default_clock_skew

-- MintingConfig.Skew
unfoldable pub config_skew : MintingConfig → Duration
config_skew c = seconds_or c.refresh_skew_seconds default_refresh_skew

-- MintingConfig.Mount
unfoldable pub config_mount : MintingConfig → String
config_mount c = if c.handoff_path == "" then default_handoff_path else c.handoff_path

-- Resource(declared)
unfoldable pub to_resource : ResourceConfig → Resource
to_resource declared = record {
  name = declared.name;
  indicator = declared.indicator;
  scopes = declared.scopes;
}

-- Config.Tree
unfoldable pub config_tree : Config → Option Problems → Result ResourceTree
config_tree c problems = new_resource_tree problems (map to_resource c.resources)
