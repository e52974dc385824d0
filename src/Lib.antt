-- ===== src/Lib.antt =====
-- Winify is a control center for small Windows and Linux hosts: projects are deployed to servers
-- by hand or by webhook, their history is kept in a database, routes are registered with a
-- reverse proxy, and a setup provisions the machine itself. This library models the parts that
-- decide and keep state; what a remote host answers is left to parameters.
--
-- The parts, the files that model them, and the code:
--   Common: texts as lists of bytes, results, integers, pattern matches and the lemmas on them.
--   Config/Entities, Config/Rules, Config/Paths, Config/Servers, Config/Projects:
--     internal/config/entities.go and constants of config.go. Servers, projects and port mappings;
--     the rules for ids, domains and environments; paths in a repository and below a target's
--     root; servers, repository URLs and projects.
--   Config/Settings: internal/config/config.go. The settings with their defaults, the environment,
--     the rules of Validate, and Load over a file system that is given.
--   Models/Variables: the table shared_variables of internal/models/store.go with the encryption of
--     its values. The deployer reads it through `Env.shared_variables_for`, which is not fixed.
--   Models/Projects: the tables servers and projects of the same file.
--   Models/Deployments, Models/Deliveries: the tables deployments and webhook_deliveries of
--     internal/models/store.go, with one function for each statement (CreateDeployment,
--     FinishDeployment, FailInterruptedDeployments, RecordWebhookDelivery and so on).
--   Deployment/Audit, Revision, Health, SharedVars: internal/deployment/audit.go, target.go,
--     docker.go, webhook.go and sharedvars.go.
--   Deployment/Shell: internal/deployment/target.go and gitcred.go. Commands on a host, the log
--     and the audit label of each, quoting for both shells, and git credentials.
--   Deployment/Docker: internal/deployment/docker.go. The files and commands of the Docker target;
--     Pipeline has its Deploy and Rollback as actions on a session with any host.
--   Deployment/Upload: internal/deployment/winservice.go, the upload of binaries to a Windows host.
--   Deployment/BlueGreen: internal/deployment/iis.go, the deployments between two slots.
--   Deployment/Deployer: internal/deployment/deployer.go. A `World` holds the table, the retired
--     domains, the events that were sent and the calls of the proxy; an `Env` answers for the
--     target, the proxy, DNS and each database write. Proxy has registerProxy and
--     cleanupRetiredProxy, Run has run. Guard has Trigger, Rollback and the goroutines that
--     they start, as steps that may interleave in every order.
--   Proxy/Caddy: internal/proxy/caddy.go, the client of the proxy, as functions on a state of the
--     proxy's admin API. The run above takes any registrar and does not fix this one.
--   Server/Webhook: internal/server/webhook.go with the signatures and payloads of
--     internal/deployment/webhook.go. The handler reads through a `WebhookEnv`, and changes the
--     deliveries table and the deployer, whose Trigger it calls.
--   Server/Login: handleLogin and handleRegister of internal/server/handlers.go, which call the
--     two parts of Auth.
--   Auth/Throttle, Auth/Accounts: internal/auth/auth.go on the users and sessions tables.
--   Bootstrap: internal/bootstrap/bootstrap.go and state.go, over any steps that implement the
--     Step interface.
--   Tests: the same functions on concrete data.
--
-- How the code is represented. A string is a list of bytes. Case folding and white space are those
-- of ASCII. A Go map is a list of keys and values or a function. A Go pattern is a function that
-- says what matches at the head of a text. An error is a constructor with what its message
-- quotes, and the text of a run's error is the parameter `Env.describe`. Times are natural
-- numbers: seconds in the tables, nanoseconds in the login backoff. Rows of the deployments
-- table stand newest first, as `ORDER BY id DESC` lists them.
--
-- Loops are structural recursion over lists, but for two on fuel: `decimal`, where the number
-- itself plus one is enough, and `upload_from`, where the text's length plus one is. Text that is
-- stored is cut at the limits of store.go: 4 MiB of log, 16 KiB of error.
--
-- Parameters: the target of a run, the runner of commands, base64, `%q`, the YAML decoder, the
-- file system, net.SplitHostPort and net.ParseIP, the proxy's answers, the admin API of Caddy,
-- DNS, url.Parse, bcrypt, HMAC, SHA-256, JSON, the codec of secrets and the vault. The notifier
-- is taken to be there, and the process's own log is not modelled. A failing database write
-- leaves its table as it was.
--
-- Not modelled: the command line, HTML pages, migrations, the runners over SSH and WinRM, the IIS
-- pipeline without slots, the service pipeline, detection, monitoring, the tunnel, the GitHub App
-- and the assistant: they build commands for remote hosts or call external services.
mod Common
pub mod Config
pub mod Models
pub mod Deployment
pub mod Server
pub mod Auth
pub mod Bootstrap
pub mod Proxy
mod Tests
