-- ===== src/Proxy/Caddy.antt =====
-- The client of Caddy's admin API: internal/proxy/caddy.go. The API is a function on a state of
-- any type; json.Marshal and the hash are parameters.
pub mod Api
pub mod Compensation
pub mod Frame
pub mod Outcome
use winify.Common.{
  ℕ, Bool, true, false, not, ◌||◌, Option, none, some, List, [], ◌∷◌, ◌++◌, if◌then◌else◌, ◌==◌,
  any, take, Text, codes, text_eq, contains_any, trim_space, trim_suffix, to_lower, Result, ok, err,
}

pub data Method : Type 0 where
  get put patch post delete : Method

-- A body before it is marshalled.
pub data Body : Type 0 where
  server_object https_skip : List Text → Body
  new_route : Text → Text → Text → Body
  raw : Text → Body

pub data CaddyError : Type 0 where
  empty_host invalid_host empty_upstream : CaddyError
  unreachable : CaddyError
  status : ℕ → CaddyError
  create_server unexpected_status set_skip : CaddyError
  read_old remove_old register_failed not_restored : CaddyError

-- The status and the body of an answer, if there is one.
abbrev pub Answer : Type 0
Answer = Option (ℕ × Text)

pub record Admin (S : Type 0) : Type 0 where
  pub exchange : Method → Text → Option Text → S → S × Answer
  pub marshal : Body → Text
  pub sha256_hex : Text → Text
  pub server : Text
  pub skip : List Text

abbrev pub Done : Type 0
Done = Result CaddyError (Unit {0})

abbrev pub max_snapshot : ℕ
max_snapshot = 1048576

-- io.LimitReader
unfoldable pub limited_body : Text → Text
limited_body body = take max_snapshot body

abbrev pub snapshot_result : ℕ → Text → Result CaddyError (Option Text)
snapshot_result code body =
    if code == 404
    then ok none
    else if code == 200
    then ok (some (limited_body body))
    else err (status code)

module _ {S : Type 0} (api : Admin S) where
  unfoldable pub route_id : Text → Text
  route_id host =
      codes "cc-route-"
      ++ take 24 (api.sha256_hex (to_lower (trim_suffix (trim_space host) (codes "."))))

  abbrev pub skip_patterns : List Text
  skip_patterns = elim api.skip [ [] ↦ codes "*.sslip.io" ∷ [] | s ∷ ss ↦ s ∷ ss ]

  abbrev pub server_path : Text
  server_path = codes "/config/apps/http/servers/" ++ api.server

  abbrev pub routes_path : Text
  routes_path = server_path ++ codes "/routes"

  abbrev pub https_path : Text
  https_path = server_path ++ codes "/automatic_https"

  abbrev pub id_path : Text → Text
  id_path id = codes "/id/" ++ id

  abbrev pub wanted : List ℕ → Answer → Done
  wanted want none = err unreachable
  wanted want (some (code, body)) = if any (λ w. code == w) want then ok tt else err (status code)

  abbrev pub answered : List ℕ → S × Answer → S × Done
  answered want (s, a) = (s, wanted want a)

  -- The method `do`.
  unfoldable pub do_request : Method → Text → Option Body → List ℕ → S → S × Done
  do_request method path none want s = answered want (api.exchange method path none s)
  do_request method path (some b) want s =
      answered want (api.exchange method path (some (api.marshal b)) s)

  -- `fmt.Errorf` round an error.
  abbrev pub blame : CaddyError → S × Done → S × Done
  blame e (s, ok u) = (s, ok u)
  blame e (s, err e') = (s, err e)

  abbrev pub or_put : S × Done → S × Done
  or_put (s, ok u) = (s, ok u)
  or_put (s, err e) =
      blame set_skip (do_request put https_path (some (https_skip skip_patterns)) (200 ∷ []) s)

  unfoldable pub ensure_auto_https_skip : S → S × Done
  ensure_auto_https_skip s =
      or_put (do_request patch https_path (some (https_skip skip_patterns)) (200 ∷ []) s)

  abbrev pub then_skip : S × Done → S × Done
  then_skip (s, ok u) = ensure_auto_https_skip s
  then_skip (s, err e) = (s, err e)

  abbrev pub is_absent : Answer → Bool
  is_absent none = false
  is_absent (some (code, body)) = code == 404 || code == 400

  abbrev pub created_server : S → S × Done
  created_server s =
      blame create_server
        (do_request put server_path (some (server_object skip_patterns)) (200 ∷ []) s)

  abbrev pub with_server_answer : S × Answer → S × Done
  with_server_answer (s, none) = (s, err unreachable)
  with_server_answer (s, some (code, body)) =
      if code == 200
      then ensure_auto_https_skip s
      else if is_absent (some (code, body))
      then then_skip (created_server s)
      else (s, err unexpected_status)

  unfoldable pub ensure_server : S → S × Done
  ensure_server s = with_server_answer (api.exchange get server_path none s)

  abbrev pub snapshot_of : S × Answer → S × Result CaddyError (Option Text)
  snapshot_of (s, none) = (s, err unreachable)
  snapshot_of (s, some (code, body)) = (s, snapshot_result code body)

  unfoldable pub route_snapshot : Text → S → S × Result CaddyError (Option Text)
  route_snapshot id s = snapshot_of (api.exchange get (id_path id) none s)

  abbrev pub restored : S × Done → S × Done
  restored (s, ok u) = (s, err register_failed)
  restored (s, err e) = (s, err not_restored)

  abbrev pub posted : Option Text → S × Done → S × Done
  posted old (s, ok u) = (s, ok u)
  posted none (s, err e) = (s, err register_failed)
  posted (some route) (s, err e) =
      restored (do_request post routes_path (some (raw route)) (200 ∷ []) s)

  abbrev pub removed : Text → Text → Text → Option Text → S × Done → S × Done
  removed id host upstream old (s, err e) = (s, err remove_old)
  removed id host upstream old (s, ok u) =
      posted old (do_request post routes_path (some (new_route id host upstream)) (200 ∷ []) s)

  abbrev pub with_snapshot : Text → Text → Text → S × Result CaddyError (Option Text) → S × Done
  with_snapshot id host upstream (s, err e) = (s, err read_old)
  with_snapshot id host upstream (s, ok old) =
      removed id host upstream old (do_request delete (id_path id) none (200 ∷ 404 ∷ []) s)

  abbrev pub with_server : Text → Text → Text → S × Done → S × Done
  with_server id host upstream (s, err e) = (s, err e)
  with_server id host upstream (s, ok u) = with_snapshot id host upstream (route_snapshot id s)

  unfoldable pub register_route : Text → Text → S → S × Done
  register_route host upstream s =
      if text_eq host []
      then (s, err empty_host)
      else if contains_any host (codes "\r\n/")
      then (s, err invalid_host)
      else if text_eq (trim_space upstream) []
      then (s, err empty_upstream)
      else with_server (route_id host) host upstream (ensure_server s)

  unfoldable pub deregister_route : Text → S → S × Done
  deregister_route host s =
      if text_eq host []
      then (s, ok tt)
      else do_request delete (id_path (route_id host)) none (200 ∷ 404 ∷ []) s
