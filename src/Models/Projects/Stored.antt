-- ===== src/Models/Projects/Stored.antt =====
-- A project or a server that was written is read back (UpsertProject, GetProject, UpsertServer and
-- GetServer of internal/models/store.go).
use winify.Common.{
  ◌≡◌, ◌≢◌, true, ◌⊎◌, Option, none, some, List, [], Text, codes, has_prefix, Result, ok, err,
}
use winify.Config.Entities.{Project, EnvMap}
use winify.Models.Projects.{Json, TableError, ProjectRow, ProjectTable, get_project}
use winify.Models.Variables.{SecretCodec, StoreError, encrypted_secret_prefix}

-- What is written as JSON is read back, and `null` reads as nothing.
pub record IsFaithful (json : Json) : Type 0 where
  pub map_back : (m : EnvMap) → json.read_map (json.write_map m) ≡ some m
  pub map_null : json.read_map (codes "null") ≡ some []
  pub map_full : (m : EnvMap) → json.write_map m ≢ []
  pub list_back : (xs : List Text) → json.read_list (json.write_list xs) ≡ some xs
  pub list_null : json.read_list (codes "null") ≡ some []
  pub list_full : (xs : List Text) → json.write_list xs ≢ []

-- A text that is encrypted, or that stands for no map.
abbrev pub IsSealed : Text → Type 0
IsSealed s = (s ≡ codes "null") ⊎ (has_prefix s encrypted_secret_prefix ≡ true)

module _ {A : Type 0} where
  abbrev list_or : List A → Option (List A) → List A
  list_or xs none = xs
  list_or xs (some ys) = ys

  abbrev read_as : List A → Result TableError (List A)
  read_as xs = ok xs

abbrev text_or : Text → Result StoreError Text → Text
text_or s (ok t) = t
text_or s (err e) = s

abbrev secret_or : Text → Result TableError Text → Text
secret_or s (ok t) = t
secret_or s (err e) = s

abbrev stored_as : Text → Result StoreError Text
stored_as s = ok s

module _ (json : Json) (codec : SecretCodec) where
  -- What the table holds for a project `p` that was written: it is read back, what its row says of
  -- its environments is encrypted, and the other projects are as before.
  abbrev pub Holds : Project → ProjectTable → ProjectTable → Type 0
  Holds p before after =
      (get_project json (some codec) after p.id ≡ ok p)
      × ((row : ProjectRow) × (after p.id ≡ some row)
          × IsSealed row.env_json
          × IsSealed row.build_env_json)
      × ((id : Text)
          → p.id ≢ id
          → get_project json (some codec) after id ≡ get_project json (some codec) before id)

abbrev table_or : ProjectTable → Result TableError ProjectTable → ProjectTable
table_or t (ok u) = u
table_or t (err e) = t
