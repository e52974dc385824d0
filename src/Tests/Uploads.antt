-- ===== src/Tests/Uploads.antt =====
-- Uploads to a host that counts its commands, and has the old file before the first of them.
use winify.Common.{
  ℕ, suc, ◌≡◌, ◌≢◌, refl, none, [], ◌==◌, if◌then◌else◌, List, All, Text, codes, ok, err,
  trim_space,
}
use winify.Deployment.Deployer.{concat}
use winify.Deployment.Shell.{Host, Session, fresh}
use winify.Deployment.Upload.{Local, upload_chunks, ensure_nssm}
use winify.Deployment.Upload.Chunks.{IsChunk, send_all, upload_chunks_sends}
use winify.Deployment.Upload.Verified.{Verified, ensure_nssm-Verified}

abbrev host : Host ℕ
host = record {
  run = λ cmd n.
      (suc n, record { out = if n == 0 then codes "0ld\n" else codes "abc\n"; error = none });
  secrets = none;
  base64 = λ s. s;
  describe = λ e. codes "failed";
}

abbrev local : Local
local = record { read_file = λ path. ok (codes "MZ"); sha256hex = λ s. codes "abc"; quote = λ s. s }

upload_chunks_sends_example :
    (cs : List Text) × (concat cs ≡ codes "TVo=")
    × All IsChunk cs
    × ((s : Session ℕ)
        → upload_chunks host local (codes "nssm.b64") (codes "TVo=") s
          ≡ send_all host local (codes "nssm.b64") cs s)
upload_chunks_sends_example = upload_chunks_sends host local (codes "nssm.b64") (codes "TVo=")

pin_is_there : codes "ABC" ≢ []
pin_is_there e = cc

pin_is_trimmed : trim_space (codes "ABC") ≡ codes "ABC"
unfolding trim_space
pin_is_trimmed = refl

nssm_installed :
    (ensure_nssm host local (codes "C:\\nssm.exe") (codes "nssm.exe") (codes "ABC") (fresh 0)).1
    ≡ ok (codes "C:\\nssm.exe")
unfolding ensure_nssm winify.Common.text_eq trim_space winify.Common.equal_fold
    winify.Deployment.Upload.ensure_binary winify.Deployment.Upload.remote_file_sha256
    winify.Deployment.Shell.last_line winify.Common.split winify.Deployment.Upload.upload_binary
    winify.Deployment.Upload.step winify.Deployment.Shell.exec_cmd
    winify.Deployment.Upload.upload_from winify.Deployment.Shell.say
nssm_installed = refl

ensure_nssm-Verified_example :
    Verified host
      (codes "C:\\nssm.exe")
      (codes "ABC")
      (ensure_nssm host local (codes "C:\\nssm.exe") (codes "nssm.exe") (codes "ABC") (fresh 0)).0
ensure_nssm-Verified_example =
    ensure_nssm-Verified host local (codes "C:\\nssm.exe") (codes "nssm.exe") (codes "ABC")
      (fresh 0) (codes "C:\\nssm.exe") pin_is_there pin_is_trimmed nssm_installed
