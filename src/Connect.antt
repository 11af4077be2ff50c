-- ===== src/Connect.antt =====
-- What an agent is told to configure: the builders of app/services/docs.py, and the page behind a
-- memory link in app/api/connect.py. The prose of the pages and the JSON printer are not modelled.
use recall_select.Prelude.{ℕ, Bool, Option, none, some, String, ◌==◌, if◌then◌else◌}
use Prim.Native.String.{◌++◌}
use recall_select.Mongo.{Driver}
use recall_select.Documents.{Database, Result, ok, err, runtime_error}
use recall_select.ApiKeys.{get_by_key}

abbrev pub server_name : String
server_name = "recall-select"

abbrev pub placeholder_key : String
placeholder_key = "YOUR-MEMORY-KEY"

-- The one entry of `mcpServers`: its address, and the value of its `Authorization` header.
pub record McpConfig : Type 0 where
  pub name : String
  pub transport : String
  pub url : String
  pub authorization : Option String

abbrev pub mcp_config : (url : String) (header_key : Option String) → McpConfig
mcp_config url header_key = record {
  name = server_name;
  transport = "http";
  url = url;
  authorization = elim header_key [ none ↦ none | some key ↦ some ("Bearer " ++ key) ];
}

-- `\"`
abbrev pub quoted : String → String
quoted text = "\"" ++ (text ++ "\"")

abbrev pub mcp_config_toml : (url : String) → String
mcp_config_toml url = "[mcp_servers." ++ (server_name ++ ("]\nurl = " ++ quoted url))

abbrev pub mcp_config_yaml : (url : String) (header_key : Option String) → String
mcp_config_yaml url header_key =
    let entry = mcp_config url header_key in
    let lines = "mcp_servers:\n  " ++ (server_name ++ (":\n    url: " ++ quoted entry.url)) in
    elim entry.authorization [
      | none ↦ lines
      | some value ↦ lines ++ ("\n    headers:\n      Authorization: " ++ quoted value)
    ]

abbrev pub placeholder_mcp_url : (public_base_url key : String) → String
placeholder_mcp_url public_base_url key = public_base_url ++ ("/m/" ++ key)

-- A guide's configuration in its client's syntax. The header has no TOML form: a NotImplementedError.
abbrev pub render :
    (print_json : McpConfig → String) (config_format url : String) (header_key : Option String)
    → Result String
render print_json config_format url header_key =
    if config_format == "toml"
    then elim header_key [ none ↦ ok (mcp_config_toml url) | some key ↦ err runtime_error ]
    else if config_format == "yaml"
    then ok (mcp_config_yaml url header_key)
    else ok (print_json (mcp_config url header_key))

-- Either the page for the key, or a 404: none. The key's `last_used_at` is left as it is.
unfoldable pub connection_instructions :
    ⦃mongo : Driver⦄ (hash : String → String) (instructions_md : String → String → String)
    (public_base_url key : String)
    → ℕ
    → Database
    → Option String
connection_instructions hash instructions_md public_base_url key now db =
    elim (get_by_key hash key Bool.false now db).0 [
      | none ↦ none
      | some k ↦ some (instructions_md public_base_url key)
    ]
