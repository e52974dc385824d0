-- ===== src/Config/Settings/Placement.antt =====
-- resolveConfigPaths of internal/config/config.go, for a control center on a POSIX system: relative
-- paths of the file are resolved against the file's directory.
use winify.Common.{
  ◌≡◌, refl, inl, inr, Bool, true, ◌||◌, [], ◌∷◌, if◌then◌else◌, Text, codes, text_eq, has_prefix,
  trim_space, Bool-cases, arith, ◌++◌,
}
use winify.Config.Paths.{clean, path_join, looks_like_windows_abs}
use winify.Config.Settings.{Config}

-- What `resolve` leaves as it is.
unfoldable pub is_settled : Text → Bool
is_settled value =
    text_eq value []
    || (text_eq value (codes ":memory:")
        || (has_prefix value (codes "/") || looks_like_windows_abs value))

unfoldable pub resolve : Text → Text → Text
resolve base value =
    if is_settled (trim_space value)
    then trim_space value
    else clean (path_join base (trim_space value))

unfoldable pub resolve_config_paths : Config → Text → Config
resolve_config_paths c base = record c {
  database = record c.database { path = resolve base c.database.path };
  files = record c.files {
    servers = resolve base c.files.servers;
    projects = resolve base c.files.projects;
  };
  deploy = record c.deploy {
    work_dir = resolve base c.deploy.work_dir;
    iis_work_dir = resolve base c.deploy.iis_work_dir;
    iis_backup_dir = resolve base c.deploy.iis_backup_dir;
    nssm_source = resolve base c.deploy.nssm_source;
    known_hosts_file = resolve base c.deploy.known_hosts_file;
  };
  bootstrap = record c.bootstrap {
    install_dir = resolve base c.bootstrap.install_dir;
    caddy = record c.bootstrap.caddy { source = resolve base c.bootstrap.caddy.source };
  };
}

rendered_rooted :
    (p : Text) → has_prefix p (codes "/") ≡ true → has_prefix (clean p) (codes "/") ≡ true
unfolding clean has_prefix
rendered_rooted p h = rw h refl

path_join_rooted :
    (base value : Text)
    → has_prefix base (codes "/") ≡ true
    → has_prefix (path_join base value) (codes "/") ≡ true
unfolding path_join has_prefix
path_join_rooted [] value h = cc
path_join_rooted (c ∷ s) [] h = rendered_rooted (c ∷ s) h
path_join_rooted (c ∷ s) (d ∷ t) h = rendered_rooted ((c ∷ s) ++ (b'/' ∷ (d ∷ t))) h

is_settled_rooted : (p : Text) → has_prefix p (codes "/") ≡ true → is_settled p ≡ true
unfolding is_settled
is_settled_rooted p h = ground arith

-- Against an absolute directory, every path becomes absolute, or it is empty or ":memory:".
pub resolve_settles :
    (base value : Text)
    → has_prefix base (codes "/") ≡ true
    → is_settled (resolve base value) ≡ true
unfolding resolve
resolve_settles base value h = elim (Bool-cases (is_settled (trim_space value))) [
  | inl e ↦ rw e e
  | inr e ↦
      rw e (is_settled_rooted _ (rendered_rooted _ (path_join_rooted base (trim_space value) h)))
]
