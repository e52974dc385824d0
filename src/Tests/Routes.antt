-- ===== src/Tests/Routes.antt =====
-- An admin API in memory, which holds the ids of its routes and nothing else of them.
use winify.Common.{
  arith, ℕ, ◌≤◌, ◌≡◌, ◌≢◌, refl, sym, ap, ◌∙◌, if_true, if_false, leb→le, Bool, true, false, Option,
  none, some, [], if◌then◌else◌, leb, length, drop, Text, codes, text_eq, text_eq_iff, text_eq_refl,
  ok, err, Bool-cases, inl, inr,
}
use mathlib.Core.Path.{subst}
use winify.Proxy.Caddy.{
  Method, get, put, patch, post, delete, Body, server_object, https_skip, new_route, raw,
  CaddyError, remove_old, not_restored, Answer, Admin, max_snapshot, register_route, route_id,
}
use winify.Proxy.Caddy.Api.{IsCaddy}
use winify.Proxy.Caddy.Compensation.{register_route-compensates}

abbrev Ids : Type 0
Ids = Text → Bool

abbrev with_id : Text → Bool → Ids → Ids
with_id id b s j = if text_eq id j then b else s j

abbrev read_id : Ids → Text → Answer
read_id s id =
    if s id then (if leb (length id) max_snapshot then some (200, id) else none) else some (404, [])

abbrev text_of : Option Text → Text
text_of none = []
text_of (some t) = t

abbrev exchange : Method → Text → Option Text → Ids → Ids × Answer
exchange get path body s = (s, read_id s (drop 4 path))
exchange put path body s = (s, some (200, []))
exchange patch path body s = (s, some (200, []))
exchange post path body s = (with_id (text_of body) true s, some (200, []))
exchange delete path body s = (with_id (drop 4 path) false s, some (200, []))

abbrev marshal : Body → Text
marshal (server_object skip) = []
marshal (https_skip skip) = []
marshal (new_route id host upstream) = id
marshal (raw t) = t

abbrev memory : Admin Ids
memory = record {
  exchange = exchange;
  marshal = marshal;
  sha256_hex = λ t. t;
  server = codes "srv0";
  skip = [];
}

abbrev routes : Ids → Text → Option Text
routes s j = if s j then some j else none

abbrev same_text : Text → Text
same_text t = t

read_none : (s : Ids) (id : Text) → s id ≡ false → read_id s id ≡ some (404, [])
read_none s id e = if_false (s id) _ _ e

read_large :
    (s : Ids) (id : Text) → s id ≡ true → leb (length id) max_snapshot ≡ false → read_id s id ≡ none
read_large s id e k =
    if_true (s id) _ _ e ∙ if_false (leb (length id) max_snapshot) (some (200, id)) none k

read_small :
    (s : Ids) (id : Text)
    → s id ≡ true
    → leb (length id) max_snapshot ≡ true
    → read_id s id ≡ some (200, id)
read_small s id e k =
    if_true (s id) _ _ e ∙ if_true (leb (length id) max_snapshot) (some (200, id)) none k

abbrev code_of : Answer → ℕ
code_of none = 0
code_of (some (n, t)) = n

abbrev full : Text → Answer
full t = some (200, t)

body_of : {a b : Text} → full a ≡ full b → a ≡ b
body_of h = ap (λ (x : Answer). elim x [ none ↦ [] | some (n, t) ↦ t ]) h

found :
    (s : Ids) (id body : Text)
    → read_id s id ≡ some (200, body)
    → (routes s id ≡ some body) × (length body ≤ max_snapshot) × (body ≡ id)
found s id body h = elim (Bool-cases (s id)) [
  | inl e ↦ elim (Bool-cases (leb (length id) max_snapshot)) [
    | inl k ↦
        let same : full id ≡ full body = sym (read_small s id e k) ∙ h in
        let own : id ≡ body = body_of same in
        (
          if_true (s id) _ _ e ∙ ap some own,
          subst (λ (t : Text). length t ≤ max_snapshot) own (leb→le (length id) max_snapshot k),
          sym own,
        )
    | inr k ↦ let never = sym (read_large s id e k) ∙ h in cc
  ]
  | inr e ↦ let never = ap code_of (sym (read_none s id e) ∙ h) in absurd (omega arith)
]

memory-IsCaddy : IsCaddy memory routes same_text same_text
memory-IsCaddy = record {
  get_keeps = λ p s j. refl;
  patch_keeps = λ b s j. refl;
  put_keeps = λ b s j. refl;
  create_keeps = λ b s j absent. refl;
  found = λ id body s h. found s id body h;
  missing = λ id body s h. ground arith;
  delete_frame = λ id j s ne. ground (arith, text_eq_iff id j);
  post_frame = λ b j s ne. ground (arith, text_eq_iff b j);
  post_adds = λ b body s h. ground (arith, text_eq_refl b);
  raw_content = λ t. refl;
  route_content = λ id host upstream. refl;
}

abbrev shop_host : Text
shop_host = codes "shop.example.com"

abbrev shop_upstream : Text
shop_upstream = codes "10.0.0.5:8080"

-- The host has a route already.
abbrev one_route : Ids
one_route = with_id (route_id memory shop_host) true (λ j. false)

register_route-compensates_example :
    ((register_route memory shop_host shop_upstream one_route).1 ≡ ok tt
      → routes
          (register_route memory shop_host shop_upstream one_route).0
          (route_id memory shop_host)
        ≡ some (
            same_text
              (memory.marshal (new_route (route_id memory shop_host) shop_host shop_upstream))))
    × ((e : CaddyError) (old : Text)
        → (register_route memory shop_host shop_upstream one_route).1 ≡ err e
        → e ≢ remove_old
        → e ≢ not_restored
        → routes one_route (route_id memory shop_host) ≡ some old
        → routes
            (register_route memory shop_host shop_upstream one_route).0
            (route_id memory shop_host)
          ≡ some old)
    × ((j : Text)
        → route_id memory shop_host ≢ j
        → routes (register_route memory shop_host shop_upstream one_route).0 j ≡ routes one_route j)
register_route-compensates_example =
    register_route-compensates memory routes same_text same_text shop_host shop_upstream one_route
      memory-IsCaddy
