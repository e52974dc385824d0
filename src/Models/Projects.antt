-- ===== src/Models/Projects.antt =====
-- The tables servers and projects of internal/models/store.go, as functions on their primary keys.
-- A column that holds 0 or 1 is a Boolean here.
pub mod Stored
use winify.Common.{
  ℕ, Bool, true, false, ◌||◌, Option, none, some, List, [], ◌∷◌, ◌++◌, if◌then◌else◌, Text, codes,
  text_eq, ℤ, pos, is_zero, Result, ok, err, ◌>>=◌, ◌>>◌,
}
use winify.Config.Entities.{Server, Project, EnvMap, effective_host_port}
use winify.Config.Rules.{ConfigError, Check, validate_resource_id, validate_env_values}
use winify.Models.Variables.{SecretCodec, StoreError, encode_secret, decode_secret}

-- encoding/json on maps and on lists of texts.
pub record Json : Type 0 where
  pub write_map : EnvMap → Text
  pub read_map : Text → Option EnvMap
  pub write_list : List Text → Text
  pub read_list : Text → Option (List Text)

pub data TableError : Type 0 where
  invalid : ConfigError → TableError
  secret : StoreError → TableError
  not_json : Text → TableError
  not_found : TableError

abbrev pub valid : Check → Result TableError (Unit {0})
valid (ok u) = ok tt
valid (err e) = err (invalid e)

abbrev pub from_secret : Result StoreError Text → Result TableError Text
from_secret (ok s) = ok s
from_secret (err e) = err (secret e)

abbrev pub parsed_as : {A : Type 0} → Text → Option A → Result TableError A
parsed_as column none = err (not_json column)
parsed_as column (some a) = ok a

-- `raw == "" || raw == "null"`
abbrev pub is_absent : Text → Bool
is_absent raw = text_eq raw [] || text_eq raw (codes "null")

abbrev pub put_at : {R : Type 0} → Text → R → (Text → Option R) → Text → Option R
put_at id row t j = if text_eq id j then some row else t j

abbrev pub remove_at : {R : Type 0} → Text → (Text → Option R) → Text → Option R
remove_at id t j = if text_eq id j then none else t j

-- The columns of a server but for services_json, which is empty in `columns`.
pub record ServerRow : Type 0 where
  pub columns : Server
  pub services_json : Text

-- The same for a project's ports_mappings, build_env_json and env_json.
pub record ProjectRow : Type 0 where
  pub columns : Project
  pub ports_mappings : Text
  pub build_env_json : Text
  pub env_json : Text

abbrev pub ServerTable : Type 0
ServerTable = Text → Option ServerRow

abbrev pub ProjectTable : Type 0
ProjectTable = Text → Option ProjectRow

abbrev pub or_zero : ℤ → ℤ → ℤ
or_zero n other = if is_zero n then other else n

abbrev pub or_empty : Text → Text → Text
or_empty [] other = other
or_empty (c ∷ s) other = c ∷ s

abbrev pub server_defaults : Server → Server
server_defaults srv = record srv {
  ssh_port = or_zero srv.ssh_port (pos 22);
  winrm_transport = or_empty srv.winrm_transport (codes "ntlm");
}

abbrev pub project_defaults : Project → Project
project_defaults p = record p {
  branch = or_empty p.branch (codes "main");
  health_path = or_empty p.health_path (codes "/");
  port = or_zero p.port (effective_host_port p);
  project_group = or_empty p.project_group (codes "Default");
  environment = or_empty p.environment (codes "production");
}

abbrev pub env_name : Text → Text
env_name id = codes "project:" ++ (id ++ codes ":env")

abbrev pub build_env_name : Text → Text
build_env_name id = codes "project:" ++ (id ++ codes ":build_env")

abbrev pub project_row : Project → Text → Text → Text → ProjectRow
project_row p mappings build_env env = record {
  columns = record p { env = []; build_env = []; ports_mappings = [] };
  ports_mappings = mappings;
  build_env_json = build_env;
  env_json = env;
}

module _ (json : Json) where
  abbrev pub decoded_list : Text → Text → Result TableError (List Text)
  decoded_list column raw = if is_absent raw then ok [] else parsed_as column (json.read_list raw)

  -- decodeJSONMap
  abbrev pub decoded_map : Text → Text → Result TableError EnvMap
  decoded_map column raw = if is_absent raw then ok [] else parsed_as column (json.read_map raw)

  -- UpsertServer, when the statement succeeds.
  unfoldable pub upsert_server : Server → ServerTable → Result TableError ServerTable
  upsert_server srv t =
      valid (validate_resource_id (codes "server id") srv.id)
      >> ok (
          put_at srv.id
            (record {
              columns = record (server_defaults srv) { services = [] };
              services_json = json.write_list srv.services;
            })
            t)

  unfoldable pub scan_server : ServerRow → Result TableError Server
  scan_server row = decoded_list (codes "services") row.services_json >>= λ services.
      ok (record row.columns { services = services })

  abbrev pub found_server : Option ServerRow → Result TableError Server
  found_server none = err not_found
  found_server (some row) = scan_server row

  -- GetServer
  unfoldable pub get_server : ServerTable → Text → Result TableError Server
  get_server t id = found_server (t id)

  -- DeleteServer
  unfoldable pub delete_server : Text → ServerTable → ServerTable
  delete_server id t = remove_at id t

  module _ (codec : Option SecretCodec) where
    abbrev pub stored_project : Project → ProjectTable → Result TableError ProjectTable
    stored_project p t = do
      valid (validate_env_values (codes "env") p.env)
      valid (validate_env_values (codes "build_env") p.build_env)
      env ← from_secret (encode_secret codec (env_name p.id) (json.write_map p.env))
      build ← from_secret (encode_secret codec (build_env_name p.id) (json.write_map p.build_env))
      ok (put_at p.id (project_row p (json.write_list p.ports_mappings) build env) t)

    -- UpsertProject, when the statement succeeds.
    unfoldable pub upsert_project : Project → ProjectTable → Result TableError ProjectTable
    upsert_project p t =
        valid (validate_resource_id (codes "project id") p.id)
        >> stored_project (project_defaults p) t

    unfoldable pub scan_project : ProjectRow → Result TableError Project
    scan_project row = do
      env_text ← from_secret (decode_secret codec (env_name row.columns.id) row.env_json)
      build_text ←
          from_secret (decode_secret codec (build_env_name row.columns.id) row.build_env_json)
      env ← decoded_map (codes "env") env_text
      build ← decoded_map (codes "build env") build_text
      mappings ← decoded_list (codes "ports mappings") row.ports_mappings
      ok (record row.columns { env = env; build_env = build; ports_mappings = mappings })

    abbrev pub found_project : Option ProjectRow → Result TableError Project
    found_project none = err not_found
    found_project (some row) = scan_project row

    -- GetProject
    unfoldable pub get_project : ProjectTable → Text → Result TableError Project
    get_project t id = found_project (t id)

    -- DeleteProject
    unfoldable pub delete_project : Text → ProjectTable → ProjectTable
    delete_project id t = remove_at id t
