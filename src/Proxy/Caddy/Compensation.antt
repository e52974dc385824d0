-- ===== src/Proxy/Caddy/Compensation.antt =====
-- What a registration leaves behind (internal/proxy/caddy.go).
use winify.Common.{
  ℕ, zero, suc, ◌≤◌, ◌≡◌, ◌≢◌, refl, sym, ap, ◌∙◌, Bool, true, false, Option, none, some, [], ◌∷◌,
  arith, if◌then◌else◌, ◌==◌, take, length, ==_iff, Text, codes, text_eq, contains_any, trim_space,
  Result, ok, err, Bool-cases, if_true, if_false, inl, inr,
}
use mathlib.Core.Path.{subst}
use winify.Proxy.Caddy.{
  get, delete, new_route, CaddyError, remove_old, not_restored, read_old, status, Answer, Admin,
  Done, max_snapshot, wanted, do_request, ensure_server, limited_body, snapshot_result, snapshot_of,
  route_snapshot, with_snapshot, with_server, register_route, route_id, id_path, empty_host,
  invalid_host, empty_upstream,
}
use winify.Proxy.Caddy.Api.{IsCaddy, Same, Ended}
use winify.Proxy.Caddy.Frame.{Same-ensure_server}
use winify.Proxy.Caddy.Outcome.{IsSnapshot, new_content, removed_done}

abbrev snapped : Option Text → Result CaddyError (Option Text)
snapped o = ok o

some_of : {a b : Option Text} → snapped a ≡ snapped b → a ≡ b
some_of h = cc

take_all : (n : ℕ) (s : Text) → length s ≤ n → take n s ≡ s
take_all zero [] h = refl
take_all zero (c ∷ s) h = absurd (omega arith)
take_all (suc n) [] h = refl
take_all (suc n) (c ∷ s) h = ap (λ (t : Text). c ∷ t) (take_all n s (omega arith))

limited_all : (body : Text) → length body ≤ max_snapshot → limited_body body ≡ body
unfolding limited_body
limited_all body h = take_all max_snapshot body h

module _ {S J : Type 0} (api : Admin S) (routes : S → Text → Option J) (content : Text → J)
    (id_of : J → Text) (caddy : IsCaddy api routes content id_of) where
  Ended-after :
      (id : Text) (new : J) (s t u : S) (r : Done)
      → Same routes s t
      → Ended routes id new t u r
      → Ended routes id new s u r
  Ended-after id new s t u r a x = record {
    others = λ j ne. x.others j ne ∙ a.same j;
    replaced = x.replaced;
    kept = λ e old k n1 n2 h. x.kept e old k n1 n2 (a.same id ∙ h);
  }

  Ended-refused :
      (id : Text) (new : J) (s t : S) (e : CaddyError)
      → Same routes s t
      → Ended routes id new s t (err e)
  Ended-refused id new s t e a = record {
    others = λ j ne. a.same j;
    replaced = λ k. cc;
    kept = λ e' old k n1 n2 h. a.same id ∙ h;
  }

  Same-refl : (s : S) → Same routes s s
  Same-refl s = record { same = λ j. refl }

  snapshot_done :
      (host upstream : Text) (s t : S) (r : Result CaddyError (Option Text))
      → Same routes s t
      → ((old : Option Text)
          → r ≡ ok old
          → IsSnapshot routes content id_of (route_id api host) s old)
      → Ended routes
          (route_id api host)
          (new_content api content host upstream)
          s
          (with_snapshot api (route_id api host) host upstream (t, r)).0
          (with_snapshot api (route_id api host) host upstream (t, r)).1
  unfolding do_request
  snapshot_done host upstream s t (err e) a snap =
      Ended-refused (route_id api host) (new_content api content host upstream) s t read_old a
  snapshot_done host upstream s t (ok old) a snap =
      let id = route_id api host in
      let sent = api.exchange delete (id_path api id) none t in
      removed_done api routes content id_of caddy host upstream old s sent.0
        (wanted api (200 ∷ 404 ∷ []) sent.1) (snap old refl)
        (λ j ne. caddy.delete_frame id j t ne ∙ a.same j)

  -- The snapshot by its answer.
  snapshot_of-IsSnapshot :
      (id : Text) (s t : S) (a : Answer)
      → (api.exchange get (id_path api id) none s).1 ≡ a
      → (old : Option Text) → (snapshot_of api (t, a)).1 ≡ ok old
      → IsSnapshot routes content id_of id s old
  snapshot_of-IsSnapshot id s t none e old h = cc
  snapshot_of-IsSnapshot id s t (some (code, body)) e old h = elim (Bool-cases (code == 404)) [
    | inl k ↦
        let gone =
          caddy.missing id body s (e ∙ ap (λ (n : ℕ). some (n, body)) ((==_iff code 404).0 k)) in
        let same : none ≡ old = some_of (sym (if_true (code == 404) _ _ k) ∙ h) in
        subst (IsSnapshot routes content id_of id s) same gone
    | inr k ↦
        let rest = sym (if_false (code == 404) (ok none) _ k) ∙ h in
        elim (Bool-cases (code == 200)) [
          | inl l ↦
              let (held, small, own) =
                caddy.found id body s
                  (e ∙ ap (λ (n : ℕ). some (n, body)) ((==_iff code 200).0 l)) in
              let whole = limited_all body small in
              let same : some (limited_body body) ≡ old =
                some_of (sym (if_true (code == 200) _ _ l) ∙ rest) in
              subst (IsSnapshot routes content id_of id s) same (
                held ∙ ap (λ (b : Text). some (content b)) (sym whole),
                ap (λ (b : Text). id_of (content b)) whole ∙ own,
              )
          | inr l ↦
              let none_left = sym (if_false (code == 200) _ (err (status code)) l) ∙ rest in cc
        ]
  ]

  with_answer_done :
      (host upstream : Text) (s t : S) (a : Answer)
      → Same routes s t
      → (api.exchange get (id_path api (route_id api host)) none s).1 ≡ a
      → Ended routes
          (route_id api host)
          (new_content api content host upstream)
          s
          (with_snapshot api (route_id api host) host upstream (snapshot_of api (t, a))).0
          (with_snapshot api (route_id api host) host upstream (snapshot_of api (t, a))).1
  with_answer_done host upstream s t none same e =
      Ended-refused (route_id api host) (new_content api content host upstream) s t read_old same
  with_answer_done host upstream s t (some (code, body)) same e =
      snapshot_done host upstream s t (snapshot_result code body) same
        (snapshot_of-IsSnapshot (route_id api host) s t (some (code, body)) e)

  with_server_done :
      (host upstream : Text) (s t : S) (w : Done)
      → Same routes s t
      → Ended routes
          (route_id api host)
          (new_content api content host upstream)
          s
          (with_server api (route_id api host) host upstream (t, w)).0
          (with_server api (route_id api host) host upstream (t, w)).1
  unfolding route_snapshot
  with_server_done host upstream s t (err e) a =
      Ended-refused (route_id api host) (new_content api content host upstream) s t e a
  with_server_done host upstream s t (ok u) a =
      let id = route_id api host in
      let got = api.exchange get (id_path api id) none t in
      Ended-after id (new_content api content host upstream) s t
        (with_snapshot api id host upstream (route_snapshot api id t)).0
        (with_snapshot api id host upstream (route_snapshot api id t)).1 a
        (with_answer_done host upstream t got.0 got.1
          (record { same = λ j. caddy.get_keeps (id_path api id) t j }) refl)

  Ended-if :
      (b : Bool) (id : Text) (new : J) (s : S) (p q : S × Done)
      → Ended routes id new s p.0 p.1
      → Ended routes id new s q.0 q.1
      → Ended routes id new s (if b then p else q).0 (if b then p else q).1
  Ended-if true id new s p q x y = x
  Ended-if false id new s p q x y = y

  register_done :
      (host upstream : Text) (s : S)
      → Ended routes
          (route_id api host)
          (new_content api content host upstream)
          s
          (register_route api host upstream s).0
          (register_route api host upstream s).1
  unfolding register_route
  register_done host upstream s =
      let id = route_id api host in
      let new = new_content api content host upstream in
      Ended-if (text_eq host []) id new s (s, err empty_host) _
        (Ended-refused id new s s empty_host (Same-refl s))
        (Ended-if (contains_any host (codes "\r\n/")) id new s (s, err invalid_host) _
          (Ended-refused id new s s invalid_host (Same-refl s))
          (Ended-if (text_eq (trim_space upstream) []) id new s (s, err empty_upstream) _
            (Ended-refused id new s s empty_upstream (Same-refl s))
            (with_server_done host upstream s (ensure_server api s).0 (ensure_server api s).1
              (Same-ensure_server api routes content id_of caddy s))))

-- For an admin API that behaves as documented, whose routes are at most 1 MiB long as JSON: a
-- registration that reports success leaves the new route in place of the host's old one. One that
-- fails leaves the old route, if there was one, as it was, unless the error says that the old
-- route could not be removed or not be restored. No registration touches the route of another id.
pub register_route-compensates :
    {S J : Type 0} (api : Admin S) (routes : S → Text → Option J) (content : Text → J)
    (id_of : J → Text) (host upstream : Text) (s : S)
    → IsCaddy api routes content id_of
    → ((register_route api host upstream s).1 ≡ ok tt
        → routes (register_route api host upstream s).0 (route_id api host)
          ≡ some (content (api.marshal (new_route (route_id api host) host upstream))))
      × ((e : CaddyError) (old : J)
          → (register_route api host upstream s).1 ≡ err e
          → e ≢ remove_old
          → e ≢ not_restored
          → routes s (route_id api host) ≡ some old
          → routes (register_route api host upstream s).0 (route_id api host) ≡ some old)
      × ((j : Text)
          → route_id api host ≢ j
          → routes (register_route api host upstream s).0 j ≡ routes s j)
register_route-compensates api routes content id_of host upstream s caddy =
    let x = register_done api routes content id_of caddy host upstream s in
    (x.replaced, x.kept, x.others)
