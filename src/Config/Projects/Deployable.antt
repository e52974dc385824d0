-- ===== src/Config/Projects/Deployable.antt =====
-- What an accepted Docker project guarantees to the pipeline that deploys it
-- (internal/config/entities.go).
use winify.Common.{
  ℕ, ◌≤◌, ◌≡◌, ◌≢◌, refl, sym, ◌∙◌, ◌⊎◌, inl, inr, Bool, true, false, not, ◌&&◌, ◌||◌, Bool-cases,
  [], All, Text, codes, text_eq, text_eq_iff, trim_space, ℤ, pos, negsuc, is_zero, is_negative,
  exceeds, arith, ok, ok_of_fail_if, ok_of_>>, check_all, ne_of_text_eq, if_true, if_false,
  contains, has_suffix,
}
use winify.Config.Entities.{
  Server, Project, server_type_docker, project_source_image, effective_host_port,
}
use winify.Config.Projects.{
  image_ref_pattern, bad, bad_ports, check_identity, check_paths, check_mapping, check_ports,
  is_repo_source, check_docker_project, check_target_type, validate_project,
}
use winify.Config.Rules.Env.{IsEnvEntry, validate_env_values_sound}
use winify.Config.Rules.{
  resource_id_pattern, validate_resource_id, validate_env_map, validate_env_values,
}
use winify.Config.Servers.{ParseUrl}

-- There is something to run: an image reference or a repository.
pub data IsSourced (p : Project) : Type 0 where
  by_image :
      p.source ≡ project_source_image
      → trim_space p.image ≢ []
      → image_ref_pattern (trim_space p.image) ≡ true
      → IsSourced p
  by_repository : is_repo_source p.source ≡ true → p.repo_url ≢ [] → IsSourced p

-- A port that can be probed, or no port, no probe and no domain.
abbrev pub IsProbed : Project → Type 0
IsProbed p =
    (n : ℕ) × (effective_host_port p ≡ pos n)
    × (n ≤ 65535)
    × ((1 ≤ n) ⊎ ((p.disable_health_check ≡ true) × (p.domain ≡ [])))

pub record IsDeployable (p : Project) : Type 0 where
  pub id : (kind : Text) → validate_resource_id kind p.id ≡ ok tt
  pub port : IsProbed p
  pub env : All IsEnvEntry p.env
  pub build_env : All IsEnvEntry p.build_env
  pub source : IsSourced p

same_for_kinds :
    (kind other id : Text)
    → validate_resource_id kind id ≡ ok tt
    → validate_resource_id other id ≡ ok tt
unfolding validate_resource_id
same_for_kinds kind other id h =
    let refused =
      not (resource_id_pattern id) || (contains id (codes "..") || has_suffix id (codes ".")) in
    let e : refused ≡ false = ok_of_fail_if _ _ tt h in rw e refl

probed_port :
    (n : ℤ) (off : Bool) (domain : Text)
    → (is_negative n || exceeds n 65535) ≡ false
    → (is_zero n && (not off || not (text_eq domain []))) ≡ false
    → (m : ℕ) × (n ≡ pos m) × (m ≤ 65535) × ((1 ≤ m) ⊎ ((off ≡ true) × (domain ≡ [])))
probed_port (negsuc m) off domain h k = cc
probed_port (pos m) off domain h k = elim (Bool-cases (is_zero (pos m))) [
  | inl e ↦
      let on : off ≡ true = ground arith in
      let blank : text_eq domain [] ≡ true = ground arith in
      (m, refl, ground arith, inr (on, (text_eq_iff domain []).0 blank))
  | inr e ↦ (m, refl, ground arith, inl (ground arith))
]

ports_sound : (p : Project) → check_ports p ≡ ok tt → IsProbed p
unfolding check_ports
ports_sound p h =
    let port = effective_host_port p in
    let (a, h1) = ok_of_>> (check_all check_mapping p.ports_mappings) _ h in
    let (b, h2) =
      ok_of_>> (bad (is_negative p.ports_exposes || exceeds p.ports_exposes 65535) bad_ports) _
        h1 in
    let (c, d) = ok_of_>> (bad (is_negative port || exceeds port 65535) bad_ports) _ h2 in
    probed_port port p.disable_health_check p.domain (ok_of_fail_if _ _ tt c)
      (ok_of_fail_if _ _ tt d)

true_of_not : (b : Bool) → not b ≡ false → b ≡ true
true_of_not true h = refl
true_of_not false h = cc

docker_check :
    (type : Text) (p : Project)
    → type ≡ server_type_docker
    → check_target_type type p ≡ check_docker_project p
unfolding text_eq
docker_check type p e = rw e refl

source_sound : (p : Project) → check_docker_project p ≡ ok tt → IsSourced p
unfolding check_docker_project
source_sound p h = elim (Bool-cases (text_eq p.source project_source_image)) [
  | inl e ↦
      let k = sym (if_true (text_eq p.source project_source_image) _ _ e) ∙ h in
      let (a, b) = ok_of_>> (bad (text_eq (trim_space p.image) []) _) _ k in
      let fits : image_ref_pattern (trim_space p.image) ≡ true =
        true_of_not (image_ref_pattern (trim_space p.image)) (ok_of_fail_if _ _ tt b) in
      by_image ((text_eq_iff p.source project_source_image).0 e)
        (ne_of_text_eq (trim_space p.image) [] (ok_of_fail_if _ _ tt a)) fits
  | inr e ↦
      let k = sym (if_false (text_eq p.source project_source_image) _ _ e) ∙ h in
      elim (Bool-cases (is_repo_source p.source)) [
        | inl r ↦ by_repository r (
            ne_of_text_eq p.repo_url []
              (ok_of_fail_if _ _ tt (sym (if_true (is_repo_source p.source) _ _ r) ∙ k)))
        | inr r ↦ let no = sym (if_false (is_repo_source p.source) _ _ r) ∙ k in cc
      ]
]

-- A Docker project that ValidateProject accepts can be deployed: the id passes the pipeline's own
-- check, its environments are one line for each entry, there is an image reference or a
-- repository, and its port is one that can be probed, or it has no port, no probe and no domain.
pub validate_project-IsDeployable :
    (parse : ParseUrl) (p : Project) (srv : Server)
    → srv.type ≡ server_type_docker
    → validate_project parse p srv ≡ ok tt
    → IsDeployable p
unfolding validate_project validate_env_values
validate_project-IsDeployable parse p srv docker h =
    let (id, h1) = ok_of_>> (validate_resource_id (codes "id") p.id) _ h in
    let (identity, h2) = ok_of_>> (check_identity parse p) _ h1 in
    let (paths, h3) = ok_of_>> (check_paths p) _ h2 in
    let (env, h4) = ok_of_>> (validate_env_map (codes "env") p.env) _ h3 in
    let (build, h5) = ok_of_>> (validate_env_map (codes "build_env") p.build_env) _ h4 in
    let (ports, h6) = ok_of_>> (check_ports p) _ h5 in
    let (target, runtime) = ok_of_>> (check_target_type srv.type p) _ h6 in
    record {
      id = λ kind. same_for_kinds (codes "id") kind p.id id;
      port = ports_sound p ports;
      env = validate_env_values_sound (codes "env") p.env env;
      build_env = validate_env_values_sound (codes "build_env") p.build_env build;
      source = source_sound p (sym (docker_check srv.type p docker) ∙ target);
    }
