-- ===== src/Config/Settings/Rules.antt =====
-- Config.Validate and the rules for Caddy's admin address (internal/config/config.go). Of a parsed
-- URL the code reads the scheme, the host with its port and the host alone.
pub mod Sound
use winify.Common.{
  ℕ, Bool, true, false, not, ◌&&◌, ◌||◌, Option, none, some, List, [], ◌∷◌, ◌++◌, ◌==◌, leb,
  if◌then◌else◌, Text, codes, text_eq, contains, contains_any, trim_space, equal_fold, ℤ, pos,
  negsuc, is_positive, is_zero, Result, ok, err, ◌>>◌, fail_if, check_all,
}
use winify.Config.Entities.{atoi}
use winify.Config.Settings.{
  Config, AuthConfig, DeployConfig, MonitoringConfig, ProxyConfig, GithubConfig, NotifyConfig,
  TunnelConfig, tunnel_provider_cloudflare, is_enabled,
}

pub record NetUrl : Type 0 where
  pub scheme : Text
  pub host : Text
  pub hostname : Text

-- url.Parse, net.SplitHostPort and net.ParseIP(s).IsLoopback().
pub record Net : Type 0 where
  pub parse : Text → Option NetUrl
  pub split_host_port : Text → Option (Text × Text)
  pub is_loopback_ip : Text → Bool

-- The setting that is refused.
pub data Refusal : Type 0 where
  server_addr server_port public_url session_ttl work_dir target_root health retention timeout :
      Refusal
  monitoring server_name admin_required admin_url admin_insecure caddy_admin caddy_url : Refusal
  github_incomplete github_url tunnel_provider tunnel_domain tunnel_account tunnel_token : Refusal
  tunnel_origin connector_url : Refusal
  notify_url : Text → Refusal

abbrev pub Verdict : Type 0
Verdict = Result Refusal (Unit {0})

abbrev pub is_web : Text → Bool
is_web scheme = text_eq scheme (codes "https") || text_eq scheme (codes "http")

abbrev pub url_fits : (NetUrl → Bool) → Option NetUrl → Bool
url_fits p none = false
url_fits p (some u) = p u

abbrev pub is_http_url : NetUrl → Bool
is_http_url u = not (text_eq u.host []) && is_web u.scheme

abbrev pub is_https_url : NetUrl → Bool
is_https_url u = not (text_eq u.host []) && text_eq u.scheme (codes "https")

abbrev pub in_port_range : Option ℤ → Bool
in_port_range none = false
in_port_range (some (negsuc n)) = false
in_port_range (some (pos n)) = leb 1 n && leb n 65535

abbrev pub port_verdict : Option (Text × Text) → Verdict
port_verdict none = err server_addr
port_verdict (some (host, port)) = fail_if (not (in_port_range (atoi port))) server_port

-- A test that is made only if the setting is there.
abbrev pub unless_empty : Text → Verdict → Verdict
unless_empty value v = if text_eq value [] then ok tt else v

abbrev pub must_fit : Bool → Refusal → Verdict
must_fit b e = fail_if (not b) e

unfoldable pub check_auth : AuthConfig → Verdict
check_auth a = must_fit (is_positive a.session_ttl_hours) session_ttl

unfoldable pub check_deploy : DeployConfig → Verdict
check_deploy d =
    fail_if (text_eq d.work_dir []) work_dir
    >> (fail_if (text_eq (trim_space d.target_root) []) target_root
        >> (must_fit (is_positive d.health_timeout_seconds && is_positive d.health_interval_seconds)
              health
            >> (must_fit (is_positive d.retention_days) retention
                >> must_fit (is_positive d.timeout_minutes) timeout)))

unfoldable pub check_monitoring : MonitoringConfig → Verdict
check_monitoring m =
    if m.enabled
    then must_fit
        (is_positive m.interval_seconds
          && (is_positive m.timeout_seconds
              && (is_positive m.retention_hours && is_positive m.history_points)))
        monitoring
    else ok tt

unfoldable pub check_github : GithubConfig → Verdict
check_github g =
    if not (text_eq g.app_id [])
      || (not (is_zero g.installation_id) || not (text_eq g.private_key_ref []))
    then must_fit (is_enabled g) github_incomplete
    else ok tt

module _ (net : Net) where
  unfoldable pub is_loopback_host : Text → Bool
  is_loopback_host host =
      if equal_fold host (codes "localhost") then true else net.is_loopback_ip host

  abbrev pub with_scheme : Text → Text
  with_scheme value = if contains value (codes "://") then value else codes "http://" ++ value

  abbrev pub is_safe_admin : NetUrl → Bool
  is_safe_admin u =
      not (text_eq u.hostname [])
      && (text_eq u.scheme (codes "https")
          || (text_eq u.scheme (codes "http") && is_loopback_host u.hostname))

  unfoldable pub valid_caddy_admin : Text → Bool
  valid_caddy_admin admin =
      if text_eq (trim_space admin) []
      then true
      else url_fits is_safe_admin (net.parse (with_scheme (trim_space admin)))

  unfoldable pub validate_caddy_admin : Text → Verdict
  validate_caddy_admin admin = must_fit (valid_caddy_admin admin) caddy_admin

  unfoldable pub check_server : Text → Text → Verdict
  check_server addr url =
      port_verdict (net.split_host_port addr)
      >> unless_empty url (must_fit (url_fits is_http_url (net.parse url)) public_url)

  -- A loopback URL, or one over HTTPS.
  abbrev pub is_guarded : NetUrl → Bool
  is_guarded u = not (text_eq u.scheme (codes "http") && not (is_loopback_host u.hostname))

  unfoldable pub check_proxy : ProxyConfig → Verdict
  check_proxy p =
      fail_if
        (text_eq (trim_space p.server_name) [] || contains_any p.server_name (codes "/\\\r\n "))
        server_name
      >> (fail_if (p.enabled && text_eq (trim_space p.admin_url) []) admin_required
          >> unless_empty p.admin_url (
              must_fit (url_fits is_http_url (net.parse p.admin_url)) admin_url
              >> must_fit (url_fits is_guarded (net.parse p.admin_url)) admin_insecure))

  unfoldable pub check_caddy : Text → Text → Verdict
  check_caddy admin url =
      unless_empty admin (validate_caddy_admin admin)
      >> unless_empty url (must_fit (url_fits is_https_url (net.parse url)) caddy_url)

  unfoldable pub check_api_url : Text → Verdict
  check_api_url url = unless_empty url (must_fit (url_fits is_http_url (net.parse url)) github_url)

  abbrev pub check_notify_url : Text × Text → Verdict
  check_notify_url (name, v) =
      unless_empty v (must_fit (url_fits is_http_url (net.parse v)) (notify_url name))

  -- The code ranges over a map of the two, in an order that Go leaves open; here the first comes first.
  unfoldable pub check_notify : NotifyConfig → Verdict
  check_notify n = check_all check_notify_url (
      (codes "notifications.webhook_url", n.webhook_url)
      ∷ ((codes "notifications.slack_webhook_url", n.slack_url) ∷ []))

  abbrev pub is_supported : Text → Bool
  is_supported provider = text_eq provider [] || text_eq provider tunnel_provider_cloudflare

  unfoldable pub check_tunnel : TunnelConfig → Verdict
  check_tunnel t =
      if t.enabled
      then must_fit (is_supported (trim_space t.provider)) tunnel_provider
        >> (fail_if (text_eq (trim_space t.domain) []) tunnel_domain
            >> (fail_if (text_eq (trim_space t.account_id) []) tunnel_account
                >> (fail_if (text_eq (trim_space t.api_token_ref) []) tunnel_token
                    >> (unless_empty (trim_space t.origin) (
                          must_fit (url_fits is_http_url (net.parse (trim_space t.origin)))
                            tunnel_origin)
                        >> unless_empty (trim_space t.connector_url) (
                            must_fit
                              (url_fits is_https_url (net.parse (trim_space t.connector_url)))
                              connector_url)))))
      else ok tt

  -- Config.Validate
  unfoldable pub validate : Config → Verdict
  validate cfg =
      check_server cfg.server.addr cfg.server.public_url
      >> (check_auth cfg.auth
          >> (check_deploy cfg.deploy
              >> (check_monitoring cfg.monitoring
                  >> (check_proxy cfg.proxy
                      >> (check_caddy cfg.bootstrap.caddy.admin cfg.bootstrap.caddy.url
                          >> (check_github cfg.github
                              >> (check_api_url cfg.github.api_url
                                  >> (check_notify cfg.notify >> check_tunnel cfg.tunnel))))))))
