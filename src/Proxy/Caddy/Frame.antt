-- ===== src/Proxy/Caddy/Frame.antt =====
-- The calls of internal/proxy/caddy.go that leave every route alone.
use winify.Common.{
  ◌≡◌, refl, ◌∙◌, true, Option, none, some, [], ◌∷◌, ◌==◌, Text, ok, err, Bool-cases, inl, inr,
}
use winify.Proxy.Caddy.{
  get, put, patch, server_object, https_skip, CaddyError, set_skip, create_server, Answer, Admin,
  Done, do_request, blame, or_put, ensure_auto_https_skip, then_skip, is_absent, created_server,
  with_server_answer, ensure_server, server_path, https_path, skip_patterns,
}
use winify.Proxy.Caddy.Api.{IsCaddy, Same}

module _ {S J : Type 0} (api : Admin S) (routes : S → Text → Option J) (content : Text → J)
    (id_of : J → Text) (caddy : IsCaddy api routes content id_of) where
  Same-refl : (s : S) → Same routes s s
  Same-refl s = record { same = λ j. refl }

  Same-trans : (s t u : S) → Same routes s t → Same routes t u → Same routes s u
  Same-trans s t u a b = record { same = λ j. b.same j ∙ a.same j }

  Same-blame :
      (e : CaddyError) (s : S) (p : S × Done) → Same routes s p.0 → Same routes s (blame api e p).0
  Same-blame e s (t, ok u) a = a
  Same-blame e s (t, err e') a = a

  Same-or_put : (s : S) (p : S × Done) → Same routes s p.0 → Same routes s (or_put api p).0
  unfolding do_request
  Same-or_put s (t, ok u) a = a
  Same-or_put s (t, err e) a =
      let body = https_skip (skip_patterns api) in
      let sent = do_request api put (https_path api) (some body) (200 ∷ []) t in
      Same-trans s t (blame api set_skip sent).0 a
        (Same-blame set_skip t sent (record { same = λ j. caddy.put_keeps (api.marshal body) t j }))

  Same-skip : (s : S) → Same routes s (ensure_auto_https_skip api s).0
  unfolding ensure_auto_https_skip do_request
  Same-skip s =
      let body = https_skip (skip_patterns api) in
      Same-or_put s (do_request api patch (https_path api) (some body) (200 ∷ []) s)
        (record { same = λ j. caddy.patch_keeps (api.marshal body) s j })

  Same-then_skip : (s : S) (p : S × Done) → Same routes s p.0 → Same routes s (then_skip api p).0
  Same-then_skip s (t, ok u) a = Same-trans s t (ensure_auto_https_skip api t).0 a (Same-skip t)
  Same-then_skip s (t, err e) a = a

  Same-server_answer :
      (s t : S) (a : Answer)
      → Same routes s t
      → (is_absent api a ≡ true → Same routes s (created_server api t).0)
      → Same routes s (with_server_answer api (t, a)).0
  Same-server_answer s t none x y = x
  Same-server_answer s t (some (code, body)) x y = elim (Bool-cases (code == 200)) [
    | inl e ↦ rw e (Same-trans s t (ensure_auto_https_skip api t).0 x (Same-skip t))
    | inr e ↦ elim (Bool-cases (is_absent api (some (code, body)))) [
      | inl k ↦ rw e (rw k (Same-then_skip s (created_server api t) (y k)))
      | inr k ↦ rw e (rw k x)
    ]
  ]

  pub Same-ensure_server : (s : S) → Same routes s (ensure_server api s).0
  unfolding ensure_server do_request
  Same-ensure_server s =
      let got = api.exchange get (server_path api) none s in
      let body = server_object (skip_patterns api) in
      Same-server_answer s got.0 got.1
        (record { same = λ j. caddy.get_keeps (server_path api) s j })
        (λ absent.
          Same-blame create_server s
            (do_request api put (server_path api) (some body) (200 ∷ []) got.0)
            (record { same = λ j. caddy.create_keeps (api.marshal body) s j absent }))
