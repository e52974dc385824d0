-- ===== src/Config/Servers/Repos.antt =====
-- Which repository URLs are accepted (internal/config/entities.go).
use winify.Common.{
  ◌≡◌, ◌≢◌, ◌⊎◌, inl, inr, refl, sym, ◌∙◌, Bool, true, false, ◌&&◌, ◌||◌, Option, none, some, arith,
  if◌then◌else◌, [], Text, codes, text_eq, text_eq_iff, text_eq→eq, has_prefix, contains,
  contains_any, trim_space, ok, fail_if, ok_of_fail_if, ok_of_>>, Bool-cases, if_false,
}
use winify.Config.Rules.{control_bytes, repo_url_control, repo_url_not_approved}
use winify.Config.Servers.{
  Url, ParseUrl, is_local_path, scp_repo_pattern, check_repo_scheme, check_repo_host,
  check_repo_remote, check_repo_place, check_repo_url, validate_repo_url,
}

-- A remote URL with a host, over https without credentials or over ssh without a password.
pub record IsRemote (parse : ParseUrl) (s : Text) : Type 0 where
  pub url : Url
  pub parsed : parse s ≡ some url
  pub host : url.hostname ≢ []
  pub transport :
      ((url.scheme ≡ codes "https") × (url.has_user ≡ false))
      ⊎ ((url.scheme ≡ codes "ssh") × ((url.has_user && url.has_password) ≡ false))

pub data IsApproved (parse : ParseUrl) (s : Text) : Type 0 where
  on_disk : is_local_path s ≡ true → IsApproved parse s
  by_scp : contains s (codes "..") ≡ false → scp_repo_pattern s ≡ true → IsApproved parse s
  by_url : contains s (codes "..") ≡ false → IsRemote parse s → IsApproved parse s

scheme_sound :
    (u : Url)
    → check_repo_scheme u ≡ ok tt
    → ((u.scheme ≡ codes "https") × (u.has_user ≡ false))
      ⊎ ((u.scheme ≡ codes "ssh") × ((u.has_user && u.has_password) ≡ false))
scheme_sound u h = elim (Bool-cases (text_eq u.scheme (codes "https"))) [
  | inl e ↦ inl (text_eq→eq _ _ e, ground arith)
  | inr e ↦ elim (Bool-cases (text_eq u.scheme (codes "ssh"))) [
    | inl k ↦ inr (text_eq→eq _ _ k, ground arith)
    | inr k ↦ absurd (ground arith)
  ]
]

host_sound :
    (parse : ParseUrl) (s : Text) (o : Option Url)
    → parse s ≡ o
    → check_repo_host o ≡ ok tt
    → IsRemote parse s
host_sound parse s none e h = cc
host_sound parse s (some u) e h =
    let (host, scheme) = ok_of_>> _ _ h in
    record {
      url = u;
      parsed = e;
      host = λ k. ground (arith, text_eq_iff u.hostname []);
      transport = scheme_sound u scheme;
    }

remote_sound :
    (parse : ParseUrl) (s : Text)
    → contains s (codes "..") ≡ false
    → (if scp_repo_pattern s then ok tt else check_repo_host (parse s)) ≡ ok tt
    → IsApproved parse s
remote_sound parse s dots h = elim (Bool-cases (scp_repo_pattern s)) [
  | inl e ↦ by_scp dots e
  | inr e ↦
      by_url dots
        (host_sound parse s (parse s) refl (sym (if_false (scp_repo_pattern s) (ok tt) _ e) ∙ h))
]

no_dots : (a b : Bool) → (a || b) ≡ false → b ≡ false
no_dots a b h = ground arith

place_sound : (parse : ParseUrl) (s : Text) → check_repo_place parse s ≡ ok tt → IsApproved parse s
place_sound parse s h = elim (Bool-cases (is_local_path s)) [
  | inl e ↦ on_disk e
  | inr e ↦
      let (a, b) =
        ok_of_>>
          (fail_if (has_prefix s (codes ".") || contains s (codes "..")) repo_url_not_approved)
          (check_repo_remote parse s) (sym (if_false (is_local_path s) (ok tt) _ e) ∙ h) in
      remote_sound parse s (no_dots _ _ (ok_of_fail_if _ _ tt a)) b
]

-- An accepted repository URL that is not blank holds no line break, and is an absolute local path,
-- an scp address or a URL without ".." that has a host and no embedded password, over https or ssh.
pub validate_repo_url-IsApproved :
    (parse : ParseUrl) (repo_url : Text)
    → validate_repo_url parse repo_url ≡ ok tt
    → trim_space repo_url ≢ []
    → (contains_any (trim_space repo_url) control_bytes ≡ false)
      × IsApproved parse (trim_space repo_url)
unfolding validate_repo_url check_repo_url
validate_repo_url-IsApproved parse repo_url h there =
    let s = trim_space repo_url in
    let full : text_eq s [] ≡ false = ground (arith, text_eq_iff s []) in
    let (control, place) =
      ok_of_>> (fail_if (contains_any s control_bytes) repo_url_control) (check_repo_place parse s)
        (sym (if_false (text_eq s []) (ok tt) _ full) ∙ h) in
    (ok_of_fail_if _ _ tt control, place_sound parse s place)
