-- ===== src/Proxy/Caddy/Outcome.antt =====
-- Removing, adding and restoring a route (internal/proxy/caddy.go).
use winify.Common.{
  ℕ, ◌≡◌, ◌≢◌, refl, sym, ap, ◌∙◌, Option, none, some, [], ◌∷◌, ◌==◌, ==_iff, Text, ok, err,
  Bool-cases, inl, inr,
}
use mathlib.Core.Path.{subst}
use winify.Proxy.Caddy.{
  post, new_route, raw, CaddyError, Answer, Admin, Done, wanted, do_request, restored, posted,
  removed, route_id, routes_path,
}
use winify.Proxy.Caddy.Api.{IsCaddy, Ended}

-- What the snapshot says of the route that stood before.
abbrev pub IsSnapshot :
    {S J : Type 0}
    → (S → Text → Option J)
    → (Text → J)
    → (J → Text)
    → Text
    → S
    → Option Text
    → Type 0
IsSnapshot routes content id_of id s none = routes s id ≡ none
IsSnapshot routes content id_of id s (some route) =
    (routes s id ≡ some (content route)) × (id_of (content route) ≡ id)

abbrev pub new_content : {S J : Type 0} → Admin S → (Text → J) → Text → Text → J
new_content api content host upstream =
    content (api.marshal (new_route (route_id api host) host upstream))

abbrev failing : CaddyError → Done
failing e = err e

module _ {S J : Type 0} (api : Admin S) (routes : S → Text → Option J) (content : Text → J)
    (id_of : J → Text) (caddy : IsCaddy api routes content id_of) where
  wanted_200 :
      (a : Answer) → wanted api (200 ∷ []) a ≡ ok tt → (body : Text) × (a ≡ some (200, body))
  wanted_200 none h = cc
  wanted_200 (some (code, body)) h = elim (Bool-cases (code == 200)) [
    | inl e ↦ (body, ap (λ (n : ℕ). some (n, body)) ((==_iff code 200).0 e))
    | inr e ↦ let k = rw e at h in cc
  ]

  pub error_of : {a b : CaddyError} → failing a ≡ failing b → b ≡ a
  error_of h = cc

  restored_done :
      (id route : Text) (new : J) (s t : S) (w : Done)
      → ((j : Text) → id ≢ j → routes t j ≡ routes s j)
      → (w ≡ ok tt → routes t id ≡ some (content route))
      → routes s id ≡ some (content route)
      → Ended routes id new s (restored api (t, w)).0 (restored api (t, w)).1
  restored_done id route new s t (ok u) frame put_back held = record {
    others = frame;
    replaced = λ k. cc;
    kept = λ e old k n1 n2 h. put_back refl ∙ sym held ∙ h;
  }
  restored_done id route new s t (err e) frame put_back held = record {
    others = frame;
    replaced = λ k. cc;
    kept = λ e' old k n1 n2 h. absurd (n2 (error_of k));
  }

  -- A POST of a body that reads as a route of `id`.
  post_others :
      (id b : Text) (s t : S)
      → id_of (content b) ≡ id
      → ((j : Text) → id ≢ j → routes t j ≡ routes s j)
      → (j : Text) → id ≢ j
      → routes (api.exchange post (routes_path api) (some b) t).0 j ≡ routes s j
  post_others id b s t own frame j ne = caddy.post_frame b j t (λ k. ne (sym own ∙ k)) ∙ frame j ne

  post_done :
      (id b : Text) (t : S)
      → id_of (content b) ≡ id
      → wanted api (200 ∷ []) (api.exchange post (routes_path api) (some b) t).1 ≡ ok tt
      → routes (api.exchange post (routes_path api) (some b) t).0 id ≡ some (content b)
  post_done id b t own h =
      let (body, e) = wanted_200 (api.exchange post (routes_path api) (some b) t).1 h in
      subst (λ k. routes (api.exchange post (routes_path api) (some b) t).0 k ≡ some (content b))
        own (caddy.post_adds b body t e)

  restoring :
      (id route : Text) (new : J) (s t : S)
      → ((j : Text) → id ≢ j → routes t j ≡ routes s j)
      → id_of (content route) ≡ id
      → routes s id ≡ some (content route)
      → Ended routes id new s
          (restored api (do_request api post (routes_path api) (some (raw route)) (200 ∷ []) t)).0
          (restored api (do_request api post (routes_path api) (some (raw route)) (200 ∷ []) t)).1
  unfolding do_request
  restoring id route new s t frame own held =
      let b = api.marshal (raw route) in
      let owned : id_of (content b) ≡ id = ap id_of (caddy.raw_content route) ∙ own in
      let sent = api.exchange post (routes_path api) (some b) t in
      restored_done id route new s sent.0 (wanted api (200 ∷ []) sent.1)
        (post_others id b s t owned frame)
        (λ h. post_done id b t owned h ∙ ap some (caddy.raw_content route)) held

  posted_done :
      (id : Text) (new : J) (old : Option Text) (s t : S) (w : Done)
      → IsSnapshot routes content id_of id s old
      → ((j : Text) → id ≢ j → routes t j ≡ routes s j)
      → (w ≡ ok tt → routes t id ≡ some new)
      → Ended routes id new s (posted api old (t, w)).0 (posted api old (t, w)).1
  posted_done id new old s t (ok u) snap frame added = record {
    others = frame;
    replaced = λ k. added refl;
    kept = λ e o k n1 n2 h. cc;
  }
  posted_done id new none s t (err e) snap frame added = record {
    others = frame;
    replaced = λ k. cc;
    kept = λ e' o k n1 n2 h. let no = snap in cc;
  }
  posted_done id new (some route) s t (err e) (held, own) frame added =
      restoring id route new s t frame own held

  pub removed_done :
      (host upstream : Text) (old : Option Text) (s t : S) (w : Done)
      → IsSnapshot routes content id_of (route_id api host) s old
      → ((j : Text) → route_id api host ≢ j → routes t j ≡ routes s j)
      → Ended routes
          (route_id api host)
          (new_content api content host upstream)
          s
          (removed api (route_id api host) host upstream old (t, w)).0
          (removed api (route_id api host) host upstream old (t, w)).1
  unfolding do_request
  removed_done host upstream old s t (err e) snap frame = record {
    others = frame;
    replaced = λ k. cc;
    kept = λ e' o k n1 n2 h. absurd (n1 (error_of k));
  }
  removed_done host upstream old s t (ok u) snap frame =
      let id = route_id api host in
      let b = api.marshal (new_route id host upstream) in
      let own = caddy.route_content id host upstream in
      let sent = api.exchange post (routes_path api) (some b) t in
      posted_done id (new_content api content host upstream) old s sent.0
        (wanted api (200 ∷ []) sent.1) snap (post_others id b s t own frame) (post_done id b t own)
