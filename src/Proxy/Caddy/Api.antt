-- ===== src/Proxy/Caddy/Api.antt =====
-- What the client of internal/proxy/caddy.go relies on of the admin API.
use winify.Common.{◌≤◌, ◌≡◌, ◌≢◌, true, Option, none, some, length, Text, ok, err}
use winify.Proxy.Caddy.{
  get, put, patch, post, delete, new_route, raw, CaddyError, remove_old, not_restored, Admin, Done,
  max_snapshot, is_absent, server_path, routes_path, https_path, id_path,
}

-- The documented behaviour of the admin API that the client relies on, for what a state holds as
-- routes by "@id". `content` reads a JSON text and `id_of` the "@id" in it.
pub record IsCaddy {S J : Type 0} (api : Admin S) (routes : S → Text → Option J)
    (content : Text → J) (id_of : J → Text) : Type 0 where
  pub get_keeps :
      (p : Text) (s : S) (j : Text) → routes (api.exchange get p none s).0 j ≡ routes s j
  pub patch_keeps :
      (b : Text) (s : S) (j : Text)
      → routes (api.exchange patch (https_path api) (some b) s).0 j ≡ routes s j
  pub put_keeps :
      (b : Text) (s : S) (j : Text)
      → routes (api.exchange put (https_path api) (some b) s).0 j ≡ routes s j
  -- A server that does not exist has no routes to lose.
  pub create_keeps :
      (b : Text) (s : S) (j : Text)
      → is_absent api (api.exchange get (server_path api) none s).1 ≡ true
      → routes
          (api.exchange put
            (server_path api)
            (some b)
            (api.exchange get (server_path api) none s).0).0
          j
        ≡ routes s j
  pub found :
      (id body : Text) (s : S)
      → (api.exchange get (id_path api id) none s).1 ≡ some (200, body)
      → (routes s id ≡ some (content body))
        × (length body ≤ max_snapshot)
        × (id_of (content body) ≡ id)
  pub missing :
      (id body : Text) (s : S)
      → (api.exchange get (id_path api id) none s).1 ≡ some (404, body)
      → routes s id ≡ none
  pub delete_frame :
      (id j : Text) (s : S)
      → id ≢ j
      → routes (api.exchange delete (id_path api id) none s).0 j ≡ routes s j
  pub post_frame :
      (b j : Text) (s : S)
      → id_of (content b) ≢ j
      → routes (api.exchange post (routes_path api) (some b) s).0 j ≡ routes s j
  pub post_adds :
      (b body : Text) (s : S)
      → (api.exchange post (routes_path api) (some b) s).1 ≡ some (200, body)
      → routes (api.exchange post (routes_path api) (some b) s).0 (id_of (content b))
        ≡ some (content b)
  pub raw_content : (t : Text) → content (api.marshal (raw t)) ≡ content t
  pub route_content :
      (id host upstream : Text) → id_of (content (api.marshal (new_route id host upstream))) ≡ id

-- No route has changed.
pub record Same {S J : Type 0} (routes : S → Text → Option J) (s t : S) : Type 0 where
  pub same : (j : Text) → routes t j ≡ routes s j

-- How a registration of `id` from `s` has ended in `t`.
pub record Ended {S J : Type 0} (routes : S → Text → Option J) (id : Text) (new : J) (s t : S)
    (r : Done) : Type 0 where
  pub others : (j : Text) → id ≢ j → routes t j ≡ routes s j
  pub replaced : r ≡ ok tt → routes t id ≡ some new
  pub kept :
      (e : CaddyError) (old : J)
      → r ≡ err e
      → e ≢ remove_old
      → e ≢ not_restored
      → routes s id ≡ some old
      → routes t id ≡ some old
