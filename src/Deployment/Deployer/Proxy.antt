-- ===== src/Deployment/Deployer/Proxy.antt =====
-- The routes of a project: registerProxy, warnIfDomainNotPointedHere and cleanupRetiredProxy of
-- internal/deployment/deployer.go.
use winify.Common.{
  Bool, true, false, not, ◌&&◌, Option, none, some, List, [], ◌∷◌, ◌++◌, if◌then◌else◌, any, select,
  Text, codes, text_eq, has_suffix, to_lower, join, Result, ok, err,
}
use winify.Config.Entities.{Server, effective_host_port}
use winify.Deployment.Health.{print_int}
use winify.Deployment.Deployer.{
  Env, Job, ProxyCall, RunError, World, concat, deregistered, logf, no_target_host, register,
  registered, target_host,
}

-- proxyScheme
abbrev pub proxy_scheme : Text → Text
proxy_scheme domain =
    if has_suffix (to_lower domain) (codes ".sslip.io") then codes "http" else codes "https"

abbrev pub proxy_ip : Env → Server → Text
proxy_ip env srv =
    if text_eq env.proxy_public_ip [] && srv.local then srv.public_ip else env.proxy_public_ip

abbrev pub dns_warning : Text → Text → Option (List Text) → Text
dns_warning ip domain none = concat (
    codes "WARNING: "
    ∷ domain
    ∷ codes " does not resolve yet; add a DNS A record pointing to the Caddy host ("
    ∷ ip
    ∷ codes ") for TLS to be issued"
    ∷ [])
dns_warning ip domain (some ips) =
    if any (λ other. text_eq other ip) ips
    then concat (domain ∷ codes " resolves to the Caddy host " ∷ ip ∷ [])
    else concat (
        codes "WARNING: "
        ∷ domain
        ∷ codes " resolves to "
        ∷ join (codes ", ") ips
        ∷ codes ", but the Caddy host is "
        ∷ ip
        ∷ codes "; add an A record pointing at Caddy for TLS to be issued"
        ∷ [])

unfoldable pub warn_if_domain_not_pointed_here : Env → Job → World → World
warn_if_domain_not_pointed_here env job w =
    let ip = proxy_ip env job.server in
    if text_eq ip []
    then w
    else logf env job (dns_warning ip job.project.domain (env.lookup_host job.project.domain) ∷ [])
        w

abbrev pub upstream : Text → Job → Text
upstream host job = host ++ (codes ":" ++ print_int (effective_host_port job.project))

abbrev pub called : ProxyCall → World → World
called c w = record w { calls = c ∷ w.calls }

abbrev pub registered_with :
    Env → Job → Text → World → Result Text (Unit {0}) → World × Result RunError (Unit {0})
registered_with env job host w (err e) = (
  called (registered job.project.domain (upstream host job)) w,
  err (register job.project.domain e),
)
registered_with env job host w (ok _) = (
  warn_if_domain_not_pointed_here env job (
      logf env job
        (codes "registered "
          ∷ proxy_scheme job.project.domain
          ∷ codes "://"
          ∷ job.project.domain
          ∷ codes " -> "
          ∷ upstream host job
          ∷ [])
        (called (registered job.project.domain (upstream host job)) w)),
  ok tt,
)

abbrev pub registered_at : Env → Job → Text → World → World × Result RunError (Unit {0})
registered_at env job host w =
    registered_with env job host w (env.register_route job.project.domain (upstream host job))

unfoldable pub register_proxy : Env → Job → World → World × Result RunError (Unit {0})
register_proxy env job w =
    if text_eq job.project.domain []
    then (logf env job (codes "no domain configured; skipping proxy registration" ∷ []) w, ok tt)
    else if not env.proxy_enabled
    then (
      logf env job (codes "proxy disabled; skipping registration for " ∷ job.project.domain ∷ []) w,
      ok tt,
    )
    else if text_eq (target_host env job.server) []
    then (w, err no_target_host)
    else registered_at env job (target_host env job.server) w

abbrev pub not_retired : Text → Text → Text × Text → Bool
not_retired project domain row = not (text_eq row.0 project && text_eq row.1 domain)

abbrev pub retired_with : Env → Job → Text → World → Result Text (Unit {0}) → World
retired_with env job domain w (err e) =
    logf env job (codes "WARNING: remove retired proxy domain " ∷ domain ∷ codes ": " ∷ e ∷ [])
      (called (deregistered domain) w)
retired_with env job domain w (ok _) =
    let w' = called (deregistered domain) w in
    if env.delete_retired_ok
    then record w' { retired = select (not_retired job.project.id domain) w'.retired }
    else logf env job
        (codes "WARNING: clear retired proxy domain "
          ∷ domain
          ∷ codes ": "
          ∷ env.database_error
          ∷ [])
        w'

-- One round of the loop of cleanupRetiredProxy.
unfoldable pub retire_route : Env → Job → Text → World → World
retire_route env job domain w = retired_with env job domain w (env.deregister_route domain)

unfoldable pub retire_routes : Env → Job → List Text → World → World
retire_routes env job [] w = w
retire_routes env job (d ∷ ds) w = retire_routes env job ds (retire_route env job d w)

-- ListRetiredProxyDomains; the rows of a project stand in the order of their domains.
unfoldable pub retired_domains : Text → List (Text × Text) → List Text
retired_domains project [] = []
retired_domains project ((p, d) ∷ rows) =
    let rest = retired_domains project rows in
    elim (text_eq p project) [ true ↦ d ∷ rest | false ↦ rest ]

unfoldable pub cleanup_retired_proxy : Env → Job → World → World
cleanup_retired_proxy env job w =
    if not env.proxy_enabled
    then w
    else if not env.list_retired_ok
    then logf env job (codes "WARNING: list retired proxy domains: " ∷ env.database_error ∷ []) w
    else retire_routes env job (retired_domains job.project.id w.retired) w
