-- ===== src/Tests/Projects.antt =====
-- A project with a variable in its environment, and a JSON library that writes texts with a mark
-- behind each.
use winify.Common.{
  ℕ, zero, suc, ◌≢◌, sym, Option, none, some, List, [], ◌∷◌, ◌++◌, ◌==◌, if◌then◌else◌, Text, codes,
  Result, ok, err,
}
use winify.Config.Entities.{Project, EnvMap}
use winify.Models.Projects.{Json, TableError, ProjectTable, upsert_project}
use winify.Tests.Data.{shop}
use winify.Tests.Variables.{codec}

abbrev marked : Text → Text → Text
marked [] rest = zero ∷ rest
marked (c ∷ s) rest = suc c ∷ marked s rest

abbrev all_marked : List Text → Text
all_marked [] = []
all_marked (s ∷ ss) = marked s (all_marked ss)

abbrev push : ℕ → List Text → List Text
push c [] = (c ∷ []) ∷ []
push c (s ∷ ss) = (c ∷ s) ∷ ss

abbrev unmarked : Text → List Text
unmarked [] = []
unmarked (zero ∷ s) = [] ∷ unmarked s
unmarked (suc c ∷ s) = push c (unmarked s)

abbrev flat : EnvMap → List Text
flat [] = []
flat ((k, v) ∷ m) = k ∷ v ∷ flat m

abbrev paired : List Text → EnvMap
paired [] = []
paired (k ∷ []) = []
paired (k ∷ v ∷ ss) = (k, v) ∷ paired ss

abbrev read_texts : Text → List Text
read_texts [] = []
read_texts (c ∷ s) = if c == b'[' then unmarked s else []

abbrev json : Json
json = record {
  write_map = λ m. b'[' ∷ all_marked (flat m);
  read_map = λ s. some (paired (read_texts s));
  write_list = λ xs. b'[' ∷ all_marked xs;
  read_list = λ s. some (read_texts s);
}

abbrev some_map : EnvMap → Option EnvMap
some_map m = some m

abbrev some_list : List Text → Option (List Text)
some_list xs = some xs

abbrev site : Project
site = record shop { env = (codes "TOKEN", codes "s3cret") ∷ []; branch = [] }

abbrev nothing : ProjectTable
nothing id = none

abbrev table_or_nothing : Result TableError ProjectTable → ProjectTable
table_or_nothing (ok t) = t
table_or_nothing (err e) = nothing

abbrev written : ProjectTable
written = table_or_nothing (upsert_project json (some codec) site nothing)
