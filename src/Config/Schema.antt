-- ===== src/Config/Schema.antt =====
-- lib/authengine/config.go: the JSON Schema of the configuration block, as the dynamic values that
-- the schema functions return. What a schema accepts is the validating library's.
use diene_go_auth_engine.Prelude.{String, List, [], ◌∷◌, false}
use diene_go_auth_engine.Prelude.Int.{pos}
use diene_go_auth_engine.Value.{
  Fields, Value, Values, field, flag, int, list, member, no_fields, no_values, object, text,
}
use diene_go_auth_engine.Resource.{names}
use diene_go_auth_engine.Guard.{policy_all, policy_any}

-- map[string]any{…} and []any{…} of texts
abbrev mapping : List (String × Value) → Value
mapping entries = object (all_fields entries)
  where
    all_fields : List (String × Value) → Fields
    all_fields [] = no_fields
    all_fields ((name, value) ∷ rest) = field name value (all_fields rest)

abbrev listing : List String → Value
listing names = list (all_members names)
  where
    all_members : List String → Values
    all_members [] = no_values
    all_members (name ∷ rest) = member (text name) (all_members rest)

abbrev string_schema : Value
string_schema = mapping (("type", text "string") ∷ [])

abbrev nonempty_schema : Value
nonempty_schema = mapping (("type", text "string") ∷ ("minLength", int (pos 1)) ∷ [])

abbrev uri_schema : Value
uri_schema =
    mapping (("type", text "string") ∷ ("format", text "uri") ∷ ("minLength", int (pos 1)) ∷ [])

abbrev count_schema : Value
count_schema = mapping (("type", text "integer") ∷ ("minimum", int (pos 0)) ∷ [])

-- stringListSchema
abbrev pub string_list_schema : Value
string_list_schema = mapping (("type", text "array") ∷ ("items", nonempty_schema) ∷ [])

-- policiesSchema
abbrev pub policies_schema : Value
policies_schema = mapping (
    ("type", text "object")
    ∷ (
      "additionalProperties",
      mapping (
          ("type", text "object")
          ∷ ("additionalProperties", flag false)
          ∷ ("required", listing ("type" ∷ "field" ∷ "target" ∷ []))
          ∷ (
            "properties",
            mapping (
                ("type", mapping (("enum", listing (policy_any ∷ policy_all ∷ [])) ∷ []))
                ∷ ("field", nonempty_schema)
                ∷ ("target", string_list_schema)
                ∷ []),
          )
          ∷ []),
    )
    ∷ [])

-- resourcesSchema
abbrev pub resources_schema : Value
resources_schema = mapping (
    ("type", text "array")
    ∷ (
      "items",
      mapping (
          ("type", text "object")
          ∷ ("additionalProperties", flag false)
          ∷ ("required", listing ("name" ∷ "indicator" ∷ []))
          ∷ (
            "properties",
            mapping (
                ("name", nonempty_schema)
                ∷ ("indicator", nonempty_schema)
                ∷ ("scopes", string_list_schema)
                ∷ []),
          )
          ∷ []),
    )
    ∷ [])

-- mintingSchema
abbrev pub minting_schema : Value
minting_schema = mapping (
    ("type", text "object")
    ∷ ("additionalProperties", flag false)
    ∷ (
      "properties",
      mapping (
          ("tokenEndpoint", string_schema)
          ∷ ("clientId", string_schema)
          ∷ ("clientSecret", string_schema)
          ∷ ("handoffPath", string_schema)
          ∷ ("cacheNamespace", string_schema)
          ∷ ("refreshSkewSeconds", count_schema)
          ∷ ("concurrency", count_schema)
          ∷ []),
    )
    ∷ [])

-- idpSchema
abbrev pub idp_schema : Value
idp_schema = mapping (
    ("type", text "object")
    ∷ ("additionalProperties", flag false)
    ∷ ("required", listing ("issuer" ∷ "jwksUri" ∷ []))
    ∷ (
      "properties",
      mapping (
          ("issuer", uri_schema)
          ∷ ("audience", string_schema)
          ∷ ("jwksUri", uri_schema)
          ∷ ("algorithms", string_list_schema)
          ∷ ("clockSkewSeconds", count_schema)
          ∷ (
            "management",
            mapping (
                ("type", text "object")
                ∷ ("additionalProperties", flag false)
                ∷ (
                  "properties",
                  mapping (
                      ("endpoint", string_schema)
                      ∷ ("resource", string_schema)
                      ∷ ("clientId", string_schema)
                      ∷ ("clientSecret", string_schema)
                      ∷ []),
                )
                ∷ []),
          )
          ∷ []),
    )
    ∷ [])

-- ConfigBlockSchema
abbrev pub config_block_schema : Value
config_block_schema = mapping (
    ("type", text "object")
    ∷ ("additionalProperties", flag false)
    ∷ ("required", listing ("idp" ∷ []))
    ∷ (
      "properties",
      mapping (
          ("idp", idp_schema)
          ∷ ("minting", minting_schema)
          ∷ ("resources", resources_schema)
          ∷ ("policies", policies_schema)
          ∷ []),
    )
    ∷ [])
