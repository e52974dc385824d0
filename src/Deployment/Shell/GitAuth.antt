-- ===== src/Deployment/Shell/GitAuth.antt =====
-- internal/deployment/gitcred.go: the credential of a private repository, staged on a target.
use winify.Common.{
  Bool, true, false, Option, none, some, [], ◌∷◌, ◌++◌, ◌==◌, if◌then◌else◌, Text, codes, text_eq,
  contains, trim_space, Result,
}
use winify.Config.Entities.{Project}
use winify.Deployment.Shell.{
  Host, refused, Exit, Act, ◌>>=◌, pure, raise, from_vault, exec_cmd, resolve_ref, credential,
  shell_quote, ps_quote,
}

-- A *GitAuth: nil, a deploy key with its path on the target, or a token.
pub data GitAuth : Type 0 where
  no_auth : GitAuth
  ssh : Text → GitAuth
  http : Text → GitAuth

unfoldable pub is_sensitive : GitAuth → Bool
is_sensitive no_auth = false
is_sensitive (ssh path) = false
is_sensitive (http token) = true

unfoldable pub git_option : (Text → Text) → GitAuth → Text
git_option quote no_auth = []
git_option quote (ssh path) =
    codes "-c "
    ++ quote (codes "core.sshCommand=ssh -i " ++ (path ++ codes " -o IdentitiesOnly=yes"))
git_option quote (http token) =
    codes "-c " ++ quote (codes "http.extraHeader=AUTHORIZATION: bearer " ++ token)

unfoldable pub is_private_key_pem : Text → Bool
is_private_key_pem value = contains value (codes "PRIVATE KEY-----")

-- `p[:strings.LastIndex(p, "/")]`
unfoldable pub before_last_slash : Text → Option Text
before_last_slash [] = none
before_last_slash (c ∷ s) = elim (before_last_slash s) [
  | none ↦ if c == b'/' then some [] else none
  | some t ↦ some (c ∷ t)
]

abbrev pub dir_or_dot : Option Text → Text
dir_or_dot none = codes "."
dir_or_dot (some []) = codes "."
dir_or_dot (some (c ∷ s)) = c ∷ s

unfoldable pub path_dir : Text → Text
unfolding before_last_slash
path_dir p = dir_or_dot (before_last_slash p)

abbrev pub credential_label : Text
credential_label = codes "write git credential file (contents redacted)"

module _ {S : Type 0} (h : Host S) where
  abbrev pub windows_secret_script : Text → Text → Text
  windows_secret_script path value =
      codes "$ErrorActionPreference='Stop'\n$path = "
      ++ (ps_quote path
          ++ (codes "\n$parent = Split-Path -Parent $path\n"
              ++ (codes
                    "if ($parent) { New-Item -ItemType Directory -Force -Path $parent | Out-Null }\n"
                  ++ (codes
                        "[IO.File]::WriteAllText($path, [Text.Encoding]::UTF8.GetString([Convert]::FromBase64String("
                      ++ (ps_quote (h.base64 value)
                          ++ codes
                              ")))\nicacls $path /inheritance:r /grant:r 'SYSTEM:F' 'Administrators:F' | Out-Null\n")))))

  abbrev pub posix_secret_script : Text → Text → Text
  posix_secret_script path value =
      codes "umask 077; mkdir -p "
      ++ (shell_quote (path_dir path)
          ++ (codes " && printf %s "
              ++ (shell_quote (h.base64 value)
                  ++ (codes " | base64 -d > "
                      ++ (shell_quote path ++ (codes " && chmod 600 " ++ shell_quote path))))))

  unfoldable pub upload_secret_file : Text → Text → Bool → Act S Exit
  upload_secret_file path value windows =
      exec_cmd h (some credential_label)
        (if windows then windows_secret_script path value else posix_secret_script path value)
        (codes "write git credential file")

  abbrev pub quoted_ref : Text → Text
  quoted_ref ref = codes "git credential " ++ ref

  abbrev pub uploaded : Text → Exit → Act S GitAuth
  uploaded key_path exit = elim exit.error [
    | none ↦ pure (ssh key_path)
    | some e ↦ raise (credential (codes "stage git ssh key") e)
  ]

  abbrev pub staged : Text → Bool → Text → Act S GitAuth
  staged key_path windows value =
      if text_eq key_path []
      then raise (refused (codes "git ssh key path is required"))
      else upload_secret_file key_path value windows >>= uploaded key_path

  abbrev pub auth_of : Text → Text → Bool → Text → Act S GitAuth
  auth_of ref key_path windows value =
      if text_eq value []
      then raise (refused (quoted_ref ref ++ codes " is empty"))
      else if is_private_key_pem value
      then staged key_path windows value
      else pure (http value)

  abbrev pub resolved_auth : Text → Text → Bool → Option (Text → Result Text Text) → Act S GitAuth
  resolved_auth ref key_path windows none =
      raise (refused (quoted_ref ref ++ codes " configured but no credential store is available"))
  resolved_auth ref key_path windows (some get) =
      from_vault h (codes "resolve git credential") (resolve_ref h get ref) >>= λ value.
      auth_of ref key_path windows (trim_space value)

  unfoldable pub prepare_git_auth : Project → Text → Bool → Act S GitAuth
  prepare_git_auth project key_path windows =
      if text_eq (trim_space project.git_credential_ref) []
      then pure no_auth
      else resolved_auth (trim_space project.git_credential_ref) key_path windows h.secrets
