-- ===== src/Config/Servers/Targets.antt =====
-- Which servers are accepted (internal/config/entities.go).
use winify.Common.{
  ◌≡◌, ◌≢◌, ◌⊎◌, inl, inr, refl, sym, ◌∙◌, true, false, not, ◌&&◌, ◌||◌, Option, none, some, arith,
  [], Text, codes, text_eq, text_eq_iff, text_eq→eq, ok, fail_if, ◌>>◌, ok_of_fail_if, ok_of_>>,
  Bool-cases, if_true, if_false,
}
use winify.Config.Entities.{Server, server_type_docker}
use winify.Config.Servers.{
  Url, ParseUrl, require, has_web_scheme, check_endpoint_url, check_endpoint, check_docker,
  check_windows, is_windows_type, check_type, check_fields, validate_server,
}

-- What a remote command needs to reach a server of its type.
pub data IsReachable (srv : Server) : Type 0 where
  by_ssh :
      srv.type ≡ server_type_docker
      → (srv.ssh_host ≢ []) × (srv.ssh_user ≢ []) × (srv.ssh_key_ref ≢ [])
      → IsReachable srv
  here_itself : is_windows_type srv.type ≡ true → srv.local ≡ true → IsReachable srv
  by_winrm :
      is_windows_type srv.type ≡ true
      → (srv.winrm_endpoint ≢ []) × (srv.winrm_user ≢ []) × (srv.credential_ref ≢ [])
      → IsReachable srv

-- An endpoint that sends no credentials in its URL, and goes over plain HTTP only where that is
-- asked for and the transport encrypts.
pub record IsSafeEndpoint (srv : Server) (u : Url) : Type 0 where
  pub host : u.hostname ≢ []
  pub no_user : u.has_user ≡ false
  pub scheme :
      (u.scheme ≡ codes "https")
      ⊎ ((u.scheme ≡ codes "http")
          × (srv.winrm_insecure ≡ true)
          × (srv.winrm_transport ≢ codes "basic"))

required : (field message : Text) → require field message ≡ ok tt → field ≢ []
required field message h e = ground (arith, text_eq_iff field [])

docker_sound :
    (srv : Server)
    → check_docker srv ≡ ok tt
    → (srv.ssh_host ≢ []) × (srv.ssh_user ≢ []) × (srv.ssh_key_ref ≢ [])
docker_sound srv h =
    let (a, k) = ok_of_>> (require srv.ssh_host _) _ h in
    let (b, c) = ok_of_>> (require srv.ssh_user _) _ k in
    (required _ _ a, required _ _ b, required _ _ c)

windows_sound :
    (srv : Server) → is_windows_type srv.type ≡ true → check_windows srv ≡ ok tt → IsReachable srv
windows_sound srv t h = elim (Bool-cases srv.local) [
  | inl e ↦ here_itself t e
  | inr e ↦
      let (a, k) =
        ok_of_>> (require srv.winrm_endpoint _) _ (sym (if_false srv.local (ok tt) _ e) ∙ h) in
      let (b, c) = ok_of_>> (require srv.winrm_user _) _ k in
      by_winrm t (required _ _ a, required _ _ b, required _ _ c)
]

type_sound : (srv : Server) → check_type srv ≡ ok tt → IsReachable srv
type_sound srv h = elim (Bool-cases (text_eq srv.type server_type_docker)) [
  | inl e ↦ by_ssh (text_eq→eq _ _ e) (docker_sound srv (sym (if_true _ _ _ e) ∙ h))
  | inr e ↦
      let k = sym (if_false _ _ _ e) ∙ h in
      elim (Bool-cases (is_windows_type srv.type)) [
        | inl w ↦ windows_sound srv w (sym (if_true _ _ _ w) ∙ k)
        | inr w ↦ let l = sym (if_false _ _ _ w) ∙ k in cc
      ]
]

hosted : (u : Url) → (text_eq u.hostname [] || not (has_web_scheme u)) ≡ false → u.hostname ≢ []
hosted u h e = ground (arith, text_eq_iff u.hostname [])

schemed :
    (srv : Server) (u : Url)
    → (text_eq u.hostname [] || not (has_web_scheme u)) ≡ false
    → (text_eq u.scheme (codes "http") && not srv.winrm_insecure) ≡ false
    → (text_eq srv.winrm_transport (codes "basic") && not (text_eq u.scheme (codes "https")))
      ≡ false
    → (u.scheme ≡ codes "https")
      ⊎ ((u.scheme ≡ codes "http")
          × (srv.winrm_insecure ≡ true)
          × (srv.winrm_transport ≢ codes "basic"))
schemed srv u web opted sealed = elim (Bool-cases (text_eq u.scheme (codes "https"))) [
  | inl e ↦ inl (text_eq→eq _ _ e)
  | inr e ↦ inr (
    text_eq→eq _ _ (ground arith),
    ground arith,
    λ k. ground (arith, text_eq_iff srv.winrm_transport (codes "basic")),
  )
]

endpoint_sound :
    (srv : Server) (o : Option Url)
    → check_endpoint_url srv o ≡ ok tt
    → (u : Url) × (o ≡ some u) × IsSafeEndpoint srv u
endpoint_sound srv none h = cc
endpoint_sound srv (some u) h =
    let (a, h1) = ok_of_>> (fail_if (text_eq u.hostname [] || not (has_web_scheme u)) _) _ h in
    let (b, h2) = ok_of_>> (fail_if u.has_user _) _ h1 in
    let (c, d) =
      ok_of_>> (fail_if (text_eq u.scheme (codes "http") && not srv.winrm_insecure) _) _ h2 in
    let web = ok_of_fail_if (text_eq u.hostname [] || not (has_web_scheme u)) _ tt a in
    let no_user = ok_of_fail_if u.has_user _ tt b in
    let opted = ok_of_fail_if (text_eq u.scheme (codes "http") && not srv.winrm_insecure) _ tt c in
    let sealed =
      ok_of_fail_if
        (text_eq srv.winrm_transport (codes "basic") && not (text_eq u.scheme (codes "https"))) _ tt
        d in
    (
      u,
      refl,
      record { host = hosted u web; no_user = no_user; scheme = schemed srv u web opted sealed },
    )

-- What is said of an endpoint that is given.
abbrev pub HasSafeEndpoint : ParseUrl → Server → Type 0
HasSafeEndpoint parse srv =
    (srv.winrm_endpoint ≢ [])
    → (u : Url) × (parse srv.winrm_endpoint ≡ some u) × IsSafeEndpoint srv u

given_endpoint :
    (parse : ParseUrl) (srv : Server) → check_endpoint parse srv ≡ ok tt → HasSafeEndpoint parse srv
given_endpoint parse srv h ne =
    let full : text_eq srv.winrm_endpoint [] ≡ false =
      ground (arith, text_eq_iff srv.winrm_endpoint []) in
    endpoint_sound srv (parse srv.winrm_endpoint) (sym (if_false _ (ok tt) _ full) ∙ h)

-- An accepted server can be reached in the way of its type (over SSH with a user and a key, over
-- WinRM with a user and a credential, or as the machine itself), and a WinRM endpoint that it
-- gives has a host and no credentials in it, and uses https unless plain http is asked for and
-- the transport is not basic.
pub validate_server-IsReachable :
    (parse : ParseUrl) (srv : Server)
    → validate_server parse srv ≡ ok tt
    → IsReachable srv × HasSafeEndpoint parse srv
unfolding validate_server
validate_server-IsReachable parse srv h =
    let (fields, rest) =
      ok_of_>> (check_fields srv) (check_endpoint parse srv >> check_type srv) h in
    let (endpoint, type) = ok_of_>> (check_endpoint parse srv) (check_type srv) rest in
    (type_sound srv type, given_endpoint parse srv endpoint)
