-- ===== src/Config/Settings/Load.antt =====
-- Load of internal/config/config.go: the file over the defaults, then the environment.
pub mod Order
pub mod Paths
use winify.Common.{
  Bool, true, false, Option, none, some, if◌then◌else◌, Text, Result, ok, err, ◌>>=◌,
}
use winify.Config.Settings.{Config}
use winify.Config.Settings.Defaults.{default_config}
use winify.Config.Settings.Environment.{EnvError, apply_env}
use winify.Config.Settings.Placement.{resolve_config_paths}
use winify.Config.Settings.Rules.{Net, Refusal, Verdict, validate}

-- os.ReadFile
pub data Contents : Type 0 where
  bytes : Text → Contents
  missing : Contents
  unreadable : Text → Contents

-- The file system, the YAML decoder, which merges into a configuration, and the environment.
pub record Surroundings : Type 0 where
  pub read_file : Text → Contents
  pub unmarshal : Text → Config → Result Text Config
  pub is_file : Text → Bool
  pub abs_dir : Text → Result Text Text
  pub getenv : Text → Text
  pub net : Net

pub data LoadError : Type 0 where
  not_parsed not_read not_resolved : Text → LoadError
  bad_variable : EnvError → LoadError
  refused : Refusal → LoadError

abbrev pub parsed : Result Text Config → Result LoadError Config
parsed (ok cfg) = ok cfg
parsed (err e) = err (not_parsed e)

module _ (env : Surroundings) where
  abbrev pub merged : Contents → Result LoadError Config
  merged (bytes s) = parsed (env.unmarshal s default_config)
  merged missing = ok default_config
  merged (unreadable e) = err (not_read e)

  abbrev pub placed_at : Config → Result Text Text → Result LoadError Config
  placed_at cfg (ok dir) = ok (resolve_config_paths cfg dir)
  placed_at cfg (err e) = err (not_resolved e)

  -- Paths of a file that is there are resolved before the environment is read.
  unfoldable pub place : Text → Config → Result LoadError Config
  place path cfg = if env.is_file path then placed_at cfg (env.abs_dir path) else ok cfg

  abbrev pub overridden : Result EnvError Config → Result LoadError Config
  overridden (ok cfg) = ok cfg
  overridden (err e) = err (bad_variable e)

  abbrev pub accepted : Config → Verdict → Result LoadError Config
  accepted cfg (ok u) = ok cfg
  accepted cfg (err e) = err (refused e)

  unfoldable pub load : Text → Result LoadError Config
  load path = do
    file ← merged (env.read_file path)
    placed ← place path file
    cfg ← overridden (apply_env env.getenv placed)
    accepted cfg (validate env.net cfg)
