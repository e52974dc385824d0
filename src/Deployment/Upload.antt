-- ===== src/Deployment/Upload.antt =====
-- EnsureBinary, EnsureNSSM and RemoteFileSHA256 of internal/deployment/winservice.go: a binary is
-- uploaded to a Windows host in chunks, unless the host has it.
pub mod Chunks
pub mod Told
pub mod Verified
use winify.Common.{
  ℕ, zero, suc, ◌+◌, ◌-◌, Bool, true, false, not, ◌&&◌, Option, none, some, List, [], ◌∷◌, ◌++◌,
  ltb, ◌==◌, ◌||◌, if◌then◌else◌, length, take, drop, Text, codes, text_eq, trim_space, equal_fold,
  Result, ok, err,
}
use winify.Deployment.Shell.{
  Host, StepError, Exit, Sent, Session, Act, ◌>>=◌, ◌>>◌, pure, raise, refused, say, exec_cmd,
  last_line, ps_quote,
}

-- os.ReadFile, SHA-256 in hexadecimal, and `%q`.
pub record Local : Type 0 where
  pub read_file : Text → Result Text Text
  pub sha256hex : Text → Text
  pub quote : Text → Text

abbrev pub nssm_upload_chunk : ℕ
nssm_upload_chunk = 100000

-- `p[:strings.LastIndexAny(p, "\\/")]`
unfoldable pub before_last_separator : Text → Option Text
before_last_separator [] = none
before_last_separator (c ∷ s) = elim (before_last_separator s) [
  | none ↦ if c == b'\\' || c == b'/' then some [] else none
  | some t ↦ some (c ∷ t)
]

abbrev pub win_dir_or_dot : Option Text → Text
win_dir_or_dot none = codes "."
win_dir_or_dot (some dir) = dir

-- winDir of target.go
unfoldable pub win_dir : Text → Text
win_dir p = win_dir_or_dot (before_last_separator p)

abbrev pub stop_on_error : Text
stop_on_error = codes "$ErrorActionPreference='Stop'\n"

unfoldable pub file_hash_script : Text → Text
file_hash_script path =
    stop_on_error
    ++ (codes "if (Test-Path -LiteralPath "
        ++ (ps_quote path
            ++ (codes ") {\n  $fs = [IO.File]::OpenRead("
                ++ (ps_quote path
                    ++ (codes ")\n  try {\n    $sha = [Security.Cryptography.SHA256]::Create()\n"
                        ++ (codes
                              "    try { ($sha.ComputeHash($fs) | ForEach-Object { $_.ToString('x2') }) -join '' }\n"
                            ++ codes
                                "    finally { $sha.Dispose() }\n  } finally { $fs.Dispose() }\n}\n"))))))

unfoldable pub begin_upload_script : Text → Text → Text
begin_upload_script dir tmp =
    stop_on_error
    ++ (codes "New-Item -ItemType Directory -Force -Path "
        ++ (ps_quote dir
            ++ (codes " | Out-Null\nSet-Content -LiteralPath "
                ++ (ps_quote tmp ++ codes " -Value '' -NoNewline -Encoding ASCII\n"))))

unfoldable pub append_upload_script : Text → Text → Text
append_upload_script tmp chunk =
    stop_on_error
    ++ (codes "Add-Content -LiteralPath "
        ++ (ps_quote tmp
            ++ (codes " -Value " ++ (ps_quote chunk ++ codes " -NoNewline -Encoding ASCII\n"))))

unfoldable pub finish_upload_script : Text → Text → Text
finish_upload_script tmp dest =
    stop_on_error
    ++ (codes "$b = [Convert]::FromBase64String((Get-Content -Raw -LiteralPath "
        ++ (ps_quote tmp
            ++ (codes "))\n[IO.File]::WriteAllBytes("
                ++ (ps_quote dest
                    ++ (codes ", $b)\nRemove-Item -LiteralPath "
                        ++ (ps_quote tmp ++ codes " -Force\n"))))))

-- `value[start:end]`
abbrev pub slice : ℕ → ℕ → Text → Text
slice start end value = take (end - start) (drop start value)

-- The end of the chunk that starts at `i`.
unfoldable pub chunk_end : ℕ → ℕ → ℕ
chunk_end i size = if ltb size (i + nssm_upload_chunk) then size else i + nssm_upload_chunk

abbrev pub answer_of : Text → Exit → Result Text Text
answer_of path exit = elim exit.error [
  | none ↦ ok (trim_space (last_line exit.out))
  | some e ↦ err (codes "hash " ++ (path ++ (codes ": " ++ e)))
]

abbrev pub matches : Text → Result Text Text → Bool
matches want (ok got) = equal_fold got want
matches want (err e) = false

module _ {S : Type 0} (h : Host S) (l : Local) where
  abbrev pub after_hash :
      Text → Session S → S × Exit → Session S × Result StepError (Result Text Text)
  after_hash path s (t, exit) = (
    record s {
      host = t;
      sent = record { command = file_hash_script path; redaction = none } ∷ s.sent;
    },
    ok (answer_of path exit),
  )

  -- RemoteFileSHA256; its error is a value here.
  unfoldable pub remote_file_sha256 : Text → Act S (Result Text Text)
  remote_file_sha256 path s = after_hash path s (h.run (file_hash_script path) s.host)

  abbrev pub ran : Text → Exit → Act S Text
  ran stage exit = elim exit.error [
    | none ↦ pure exit.out
    | some e ↦ raise (refused (stage ++ (codes ": " ++ e)))
  ]

  -- A command of the upload, logged by the name of its stage.
  unfoldable pub step : Text → Option Text → Text → Act S Text
  step stage redaction cmd = exec_cmd h redaction cmd stage >>= ran stage

  abbrev pub send_chunk : Text → Text → Act S Text
  send_chunk tmp chunk =
      step (codes "upload chunk") (some (codes "upload binary (payload redacted)"))
        (append_upload_script tmp chunk)

  -- The loop over the chunks, on fuel.
  unfoldable pub upload_from : ℕ → ℕ → Text → Text → Act S (Unit {0})
  upload_from zero i tmp encoded = raise (refused (codes "out of fuel"))
  upload_from (suc n) i tmp encoded =
      let rest = upload_from n (i + nssm_upload_chunk) tmp encoded in
      if ltb i (length encoded)
      then send_chunk tmp (slice i (chunk_end i (length encoded)) encoded) >> rest
      else pure tt

  abbrev pub upload_chunks : Text → Text → Act S (Unit {0})
  upload_chunks tmp encoded = upload_from (suc (length encoded)) zero tmp encoded

  abbrev pub check_upload : Text → Text → Text → Act S Text
  check_upload dest want out =
      if equal_fold (trim_space (last_line out)) want
      then say (dest ++ codes " uploaded") >> pure want
      else raise (
          refused (
            codes "uploaded hash mismatch: got "
            ++ (l.quote (trim_space (last_line out)) ++ (codes " want " ++ want))))

  unfoldable pub upload_binary : Text → Text → Act S Text
  upload_binary dest content = do
    step (codes "prepare upload") none (begin_upload_script (win_dir dest) (dest ++ codes ".b64"))
    upload_chunks (dest ++ codes ".b64") (h.base64 content)
    step (codes "assemble upload") none (finish_upload_script (dest ++ codes ".b64") dest)
    out ← step (codes "verify upload") none (file_hash_script dest)
    check_upload dest (l.sha256hex content) out

  abbrev pub unless_present : Text → Text → Result Text Text → Act S Text
  unless_present dest content answer =
      if matches (l.sha256hex content) answer
      then say (dest ++ codes " already present (sha256 match)") >> pure (l.sha256hex content)
      else upload_binary dest content

  unfoldable pub ensure_binary : Text → Text → Act S Text
  ensure_binary dest content = remote_file_sha256 dest >>= unless_present dest content

  abbrev pub pin_error : Text → Text → Act S Text
  pin_error got pin = raise (
      refused (
        codes "existing nssm sha256 " ++ (got ++ (codes " does not match configured pin " ++ pin))))

  -- No source is configured.
  abbrev pub check_existing : Text → Text → Result Text Text → Act S Text
  check_existing path pin (ok got) = if equal_fold got pin then pure path else pin_error got pin
  check_existing path pin (err e) = raise (refused (codes "verify existing nssm: " ++ e))

  -- The source cannot be read.
  abbrev pub use_existing : Text → Text → Text → Text → Result Text Text → Act S Text
  use_existing path source pin cause (ok got) =
      if text_eq got []
      then raise (refused (codes "read nssm source " ++ (source ++ (codes ": " ++ cause))))
      else if not (text_eq pin []) && not (equal_fold got pin)
      then pin_error got pin
      else (say (
            codes "nssm source "
            ++ (source ++ codes " is unavailable; using the copy already on the target"))
          >> pure path)
  use_existing path source pin cause (err e) =
      raise (refused (codes "read nssm source " ++ (source ++ (codes ": " ++ cause))))

  abbrev pub install_source : Text → Text → Text → Result Text Text → Act S Text
  install_source path source pin (err cause) =
      remote_file_sha256 path >>= use_existing path source pin cause
  install_source path source pin (ok content) =
      if not (text_eq (trim_space pin) [])
        && not (equal_fold (trim_space pin) (l.sha256hex content))
      then raise (
          refused (
            codes "nssm source "
            ++ (source
                ++ (codes " sha256 "
                    ++ (l.sha256hex content ++ codes " does not match configured nssm_sha256")))))
      else ensure_binary path content >> pure path

  abbrev pub ensure_trimmed : Text → Text → Text → Act S Text
  ensure_trimmed path source pin =
      if text_eq source []
      then (if text_eq pin []
          then pure path
          else remote_file_sha256 path >>= check_existing path pin)
      else install_source path source pin (l.read_file source)

  unfoldable pub ensure_nssm : Text → Text → Text → Act S Text
  ensure_nssm path source pin = ensure_trimmed path (trim_space source) (trim_space pin)
