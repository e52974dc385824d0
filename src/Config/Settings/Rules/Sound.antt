-- ===== src/Config/Settings/Rules/Sound.antt =====
-- What a configuration that Validate accepts guarantees (internal/config/config.go).
use winify.Common.{
  ℕ, ◌≤◌, ◌≡◌, ◌≢◌, refl, sym, ◌⊎◌, inl, inr, Bool, true, false, not, ◌&&◌, Option, none, some, [],
  ◌∷◌, arith, Text, codes, text_eq, text_eq_iff, trim_space, trim_right, ℤ, pos, negsuc,
  is_positive, ok, fail_if, ok_of_fail_if, ok_of_>>, ne_of_text_eq, true_of_and, if_true, if_false,
  contains_any, ◌||◌, ◌∙◌, Bool-cases,
}
use winify.Config.Entities.{atoi}
use winify.Config.Settings.{Config, DeployConfig, MonitoringConfig, ProxyConfig, TunnelConfig}
use winify.Config.Settings.Rules.{
  NetUrl, Net, Refusal, Verdict, url_fits, is_http_url, in_port_range, port_verdict, unless_empty,
  must_fit, check_auth, check_deploy, check_monitoring, check_github, is_loopback_host, with_scheme,
  is_safe_admin, valid_caddy_admin, validate_caddy_admin, check_server, is_guarded, check_proxy,
  check_caddy, check_api_url, check_notify, check_tunnel, validate, server_port, is_supported,
}

-- An admin API over HTTPS, or over HTTP on the loopback interface.
abbrev pub IsProtected : Net → Option NetUrl → Type 0
IsProtected net o =
    (u : NetUrl) × (o ≡ some u)
    × ((u.scheme ≡ codes "https")
        ⊎ ((u.scheme ≡ codes "http") × (is_loopback_host net u.hostname ≡ true)))

pub record IsSound (net : Net) (cfg : Config) : Type 0 where
  pub port :
      (host port : Text) × (n : ℕ) × (net.split_host_port cfg.server.addr ≡ some (host, port))
      × (atoi port ≡ some (pos n))
      × (1 ≤ n)
      × (n ≤ 65535)
  pub session : is_positive cfg.auth.session_ttl_hours ≡ true
  pub health_timeout : is_positive cfg.deploy.health_timeout_seconds ≡ true
  pub health_interval : is_positive cfg.deploy.health_interval_seconds ≡ true
  pub retention : is_positive cfg.deploy.retention_days ≡ true
  pub timeout : is_positive cfg.deploy.timeout_minutes ≡ true
  pub monitoring :
      (cfg.monitoring.enabled ≡ false) ⊎ (is_positive cfg.monitoring.interval_seconds ≡ true)
  pub proxy : (cfg.proxy.enabled ≡ false) ⊎ (trim_space cfg.proxy.admin_url ≢ [])
  pub proxy_admin : (cfg.proxy.admin_url ≡ []) ⊎ IsProtected net (net.parse cfg.proxy.admin_url)
  pub caddy_admin :
      (trim_space cfg.bootstrap.caddy.admin ≡ [])
      ⊎ IsProtected net (net.parse (with_scheme net (trim_space cfg.bootstrap.caddy.admin)))
  pub tunnel :
      (cfg.tunnel.enabled ≡ false)
      ⊎ ((trim_space cfg.tunnel.domain ≢ []) × (trim_space cfg.tunnel.api_token_ref ≢ []))

-- A claim under a condition that is decided.
off_or : {P : Type 0} (b : Bool) → (b ≡ true → P) → (b ≡ false) ⊎ P
off_or true h = inr (h refl)
off_or false h = inl refl

nil_or : {P : Type 0} (s : Text) → (s ≢ [] → P) → (s ≡ []) ⊎ P
nil_or [] h = inl refl
nil_or (c ∷ s) h = inr (h (λ e. cc))

must_fit_ok : (b : Bool) (e : Refusal) → must_fit b e ≡ ok tt → b ≡ true
must_fit_ok true e h = refl
must_fit_ok false e h = cc

unless_empty_ok :
    (value : Text) (v : Verdict) → unless_empty value v ≡ ok tt → value ≢ [] → v ≡ ok tt
unfolding text_eq
unless_empty_ok [] v h ne = absurd (ne refl)
unless_empty_ok (c ∷ s) v h ne = h

range_sound :
    (o : Option ℤ)
    → not (in_port_range o) ≡ false
    → (n : ℕ) × (o ≡ some (pos n)) × (1 ≤ n) × (n ≤ 65535)
range_sound none h = cc
range_sound (some (negsuc n)) h = cc
range_sound (some (pos n)) h = (n, refl, ground arith, ground arith)

port_sound :
    (o : Option (Text × Text))
    → port_verdict o ≡ ok tt
    → (host port : Text) × (n : ℕ) × (o ≡ some (host, port))
      × (atoi port ≡ some (pos n))
      × (1 ≤ n)
      × (n ≤ 65535)
port_sound none h = cc
port_sound (some (host, port)) h =
    let (n, e, lo, hi) = range_sound (atoi port) (ok_of_fail_if _ server_port tt h) in
    (host, port, n, refl, e, lo, hi)

either :
    (net : Net) (u : NetUrl)
    → is_http_url u ≡ true
    → is_guarded net u ≡ true
    → (u.scheme ≡ codes "https")
      ⊎ ((u.scheme ≡ codes "http") × (is_loopback_host net u.hostname ≡ true))
either net u h k = elim (Bool-cases (text_eq u.scheme (codes "https"))) [
  | inl e ↦ inl ((text_eq_iff _ _).0 e)
  | inr e ↦ inr (
      let s : text_eq u.scheme (codes "http") ≡ true = ground arith in
      ((text_eq_iff _ _).0 s, ground arith))
]

safe :
    (net : Net) (u : NetUrl)
    → is_safe_admin net u ≡ true
    → (u.scheme ≡ codes "https")
      ⊎ ((u.scheme ≡ codes "http") × (is_loopback_host net u.hostname ≡ true))
safe net u h = elim (Bool-cases (text_eq u.scheme (codes "https"))) [
  | inl e ↦ inl ((text_eq_iff _ _).0 e)
  | inr e ↦ inr (
      let s : text_eq u.scheme (codes "http") ≡ true = ground arith in
      ((text_eq_iff _ _).0 s, ground arith))
]

guarded_sound :
    (net : Net) (o : Option NetUrl)
    → url_fits is_http_url o ≡ true
    → url_fits (is_guarded net) o ≡ true
    → IsProtected net o
guarded_sound net none h k = cc
guarded_sound net (some u) h k = (u, refl, either net u h k)

safe_sound :
    (net : Net) (o : Option NetUrl) → url_fits (is_safe_admin net) o ≡ true → IsProtected net o
safe_sound net none h = cc
safe_sound net (some u) h = (u, refl, safe net u h)

trimmed_nil : trim_space [] ≡ []
unfolding trim_space trim_right
trimmed_nil = refl

full_of_trimmed : (s : Text) → trim_space s ≢ [] → s ≢ []
full_of_trimmed s ne e = ne (rw e trimmed_nil)

never :
    (p : ProxyConfig)
    → (p.enabled && text_eq (trim_space p.admin_url) []) ≡ false
    → p.enabled ≡ true
    → trim_space p.admin_url ≢ []
never p h e blank = let k = (text_eq_iff (trim_space p.admin_url) []).1 blank in ground arith

deploy_sound :
    (d : DeployConfig)
    → check_deploy d ≡ ok tt
    → (is_positive d.health_timeout_seconds ≡ true)
      × (is_positive d.health_interval_seconds ≡ true)
      × (is_positive d.retention_days ≡ true)
      × (is_positive d.timeout_minutes ≡ true)
unfolding check_deploy
deploy_sound d h =
    let (a, h1) = ok_of_>> (fail_if (text_eq d.work_dir []) _) _ h in
    let (b, h2) = ok_of_>> (fail_if (text_eq (trim_space d.target_root) []) _) _ h1 in
    let (c, h3) =
      ok_of_>>
        (must_fit (is_positive d.health_timeout_seconds && is_positive d.health_interval_seconds) _)
        _ h2 in
    let (e, f) = ok_of_>> (must_fit (is_positive d.retention_days) _) _ h3 in
    let both =
      true_of_and (is_positive d.health_timeout_seconds) (is_positive d.health_interval_seconds)
        (must_fit_ok _ _ c) in
    (both.0, both.1, must_fit_ok _ _ e, must_fit_ok _ _ f)

monitoring_sound :
    (m : MonitoringConfig)
    → check_monitoring m ≡ ok tt
    → m.enabled ≡ true
    → is_positive m.interval_seconds ≡ true
unfolding check_monitoring
monitoring_sound m h e =
    (true_of_and (is_positive m.interval_seconds) _
      (must_fit_ok _ _ (sym (if_true m.enabled _ _ e) ∙ h))).0

caddy_sound :
    (net : Net) (admin url : Text)
    → check_caddy net admin url ≡ ok tt
    → trim_space admin ≢ []
    → IsProtected net (net.parse (with_scheme net (trim_space admin)))
unfolding check_caddy validate_caddy_admin valid_caddy_admin
caddy_sound net admin url h ne =
    let (a, b) = ok_of_>> (unless_empty admin (validate_caddy_admin net admin)) _ h in
    let valid =
      must_fit_ok (valid_caddy_admin net admin) _
        (unless_empty_ok admin _ a (full_of_trimmed admin ne)) in
    elim (Bool-cases (text_eq (trim_space admin) [])) [
      | inl e ↦ absurd (ne ((text_eq_iff _ _).0 e))
      | inr e ↦ safe_sound net _ (sym (if_false (text_eq (trim_space admin) []) _ _ e) ∙ valid)
    ]

proxy_sound :
    (net : Net) (p : ProxyConfig)
    → check_proxy net p ≡ ok tt
    → (p.enabled ≡ true → trim_space p.admin_url ≢ [])
      × (p.admin_url ≢ [] → IsProtected net (net.parse p.admin_url))
unfolding check_proxy
proxy_sound net p h =
    let (a, h1) =
      ok_of_>>
        (fail_if
          (text_eq (trim_space p.server_name) [] || contains_any p.server_name (codes "/\\\r\n "))
          _)
        _ h in
    let (b, c) = ok_of_>> (fail_if (p.enabled && text_eq (trim_space p.admin_url) []) _) _ h1 in
    (
      λ e blank. never p (ok_of_fail_if _ _ tt b) e blank,
      λ ne.
          let (x, y) =
            ok_of_>> (must_fit (url_fits is_http_url (net.parse p.admin_url)) _) _
              (unless_empty_ok p.admin_url _ c ne) in
          guarded_sound net (net.parse p.admin_url) (must_fit_ok _ _ x) (must_fit_ok _ _ y),
    )

tunnel_sound :
    (net : Net) (t : TunnelConfig)
    → check_tunnel net t ≡ ok tt
    → t.enabled ≡ true
    → (trim_space t.domain ≢ []) × (trim_space t.api_token_ref ≢ [])
unfolding check_tunnel
tunnel_sound net t h e =
    let h0 = sym (if_true t.enabled _ (ok tt) e) ∙ h in
    let (a, h1) = ok_of_>> (must_fit (is_supported net (trim_space t.provider)) _) _ h0 in
    let (b, h2) = ok_of_>> (fail_if (text_eq (trim_space t.domain) []) _) _ h1 in
    let (c, h3) = ok_of_>> (fail_if (text_eq (trim_space t.account_id) []) _) _ h2 in
    let (d, f) = ok_of_>> (fail_if (text_eq (trim_space t.api_token_ref) []) _) _ h3 in
    (
      ne_of_text_eq (trim_space t.domain) [] (ok_of_fail_if _ _ tt b),
      ne_of_text_eq (trim_space t.api_token_ref) [] (ok_of_fail_if _ _ tt d),
    )

-- A configuration that Validate accepts is sound.
pub validate-IsSound : (net : Net) (cfg : Config) → validate net cfg ≡ ok tt → IsSound net cfg
unfolding validate check_server check_auth check_deploy check_monitoring check_proxy check_caddy
    validate_caddy_admin check_tunnel
validate-IsSound net cfg h =
    let (server, h1) = ok_of_>> (check_server net cfg.server.addr cfg.server.public_url) _ h in
    let (auth, h2) = ok_of_>> (check_auth cfg.auth) _ h1 in
    let (deploy, h3) = ok_of_>> (check_deploy cfg.deploy) _ h2 in
    let (monitor, h4) = ok_of_>> (check_monitoring cfg.monitoring) _ h3 in
    let (proxy, h5) = ok_of_>> (check_proxy net cfg.proxy) _ h4 in
    let (caddy, h6) =
      ok_of_>> (check_caddy net cfg.bootstrap.caddy.admin cfg.bootstrap.caddy.url) _ h5 in
    let (github, h7) = ok_of_>> (check_github cfg.github) _ h6 in
    let (api, h8) = ok_of_>> (check_api_url net cfg.github.api_url) _ h7 in
    let (notify, tunnel) = ok_of_>> (check_notify net cfg.notify) _ h8 in
    let (port, url) = ok_of_>> (port_verdict (net.split_host_port cfg.server.addr)) _ server in
    let d = deploy_sound cfg.deploy deploy in
    let p = proxy_sound net cfg.proxy proxy in
    record {
      port = port_sound (net.split_host_port cfg.server.addr) port;
      session = must_fit_ok (is_positive cfg.auth.session_ttl_hours) _ auth;
      health_timeout = d.0;
      health_interval = d.1;
      retention = d.2;
      timeout = d.3;
      monitoring = off_or cfg.monitoring.enabled (monitoring_sound cfg.monitoring monitor);
      proxy = off_or cfg.proxy.enabled p.0;
      proxy_admin = nil_or cfg.proxy.admin_url p.1;
      caddy_admin =
          nil_or (trim_space cfg.bootstrap.caddy.admin)
            (caddy_sound net cfg.bootstrap.caddy.admin cfg.bootstrap.caddy.url caddy);
      tunnel = off_or cfg.tunnel.enabled (tunnel_sound net cfg.tunnel tunnel);
    }
