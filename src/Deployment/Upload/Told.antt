-- ===== src/Deployment/Upload/Told.antt =====
-- What a host answers when it is asked for a hash (RemoteFileSHA256 of
-- internal/deployment/winservice.go).
use winify.Common.{
  ◌≡◌, refl, sym, ap, ◌∙◌, Option-cases, inl, inr, none, some, Text, codes, ◌++◌, trim_space,
  Result, ok, err, ◌⊎◌,
}
use mathlib.Core.Path.{subst}
use winify.Deployment.Shell.Yields.{Yields}
use winify.Deployment.Shell.{
  Host, Exit, Session, Act, and_then, ◌>>=◌, refused, exec_cmd, last_line,
}
use winify.Deployment.Upload.{Local, file_hash_script, answer_of, remote_file_sha256, ran, step}

module _ {S : Type 0} (h : Host S) (path : Text) where
  -- The last command asked for the hash of the file at `path`, and the answer was `got`.
  abbrev pub Told : Text → Session S → Type 0
  Told got t =
      (before : S) × ((h.run (file_hash_script path) before).1.error ≡ none)
      × (t.host ≡ (h.run (file_hash_script path) before).0)
      × (trim_space (last_line (h.run (file_hash_script path) before).1.out) ≡ got)

  module _ (l : Local) where
    answer_cases :
        (exit : Exit)
        → ((exit.error ≡ none) × (answer_of path exit ≡ ok (trim_space (last_line exit.out))))
          ⊎ ((e : Text) × (answer_of path exit ≡ err e))
    answer_cases exit = elim (Option-cases exit.error) [
      | inl e ↦ inl (e, rw e refl)
      | inr (c, e) ↦ inr (codes "hash " ++ (path ++ (codes ": " ++ c)), rw e refl)
    ]

    pub Yields-remote :
        {A : Type 0} {R : Session S → Type 0} (k : Result Text Text → Act S A)
        → ((got : Text) (t : Session S) (a : A)
            → Told got t
            → (k (ok got) t).1 ≡ ok a
            → R (k (ok got) t).0)
        → ((e : Text) → Yields R (k (err e)))
        → Yields R (remote_file_sha256 h l path >>= k)
    unfolding remote_file_sha256
    Yields-remote {A = A} {R = R} k told failed = record {
      at = λ s a q.
          let exit = (h.run (file_hash_script path) s.host).1 in
          let t = (remote_file_sha256 h l path s).0 in
          elim (answer_cases exit) [
            | inl (e, r) ↦
                subst (λ x. R (k x t).0) (sym r)
                  (told _ t a (s.host, e, refl, refl) (sym (ap (λ x. (k x t).1) r) ∙ q))
            | inr (c, r) ↦
                subst (λ x. R (k x t).0) (sym r)
                  ((failed c).at t a (sym (ap (λ x. (k x t).1) r) ∙ q))
          ];
    }

    ran-none :
        (stage : Text) (exit : Exit) (t : Session S)
        → exit.error ≡ none
        → ran h l stage exit t ≡ (t, ok exit.out)
    ran-none stage exit t e = rw e refl

    ran-some :
        (stage : Text) (exit : Exit) (t : Session S) (cause : Text)
        → exit.error ≡ some cause
        → ran h l stage exit t ≡ (t, err (refused (stage ++ (codes ": " ++ cause))))
    ran-some stage exit t cause e = rw e refl

    pub Yields-step :
        {A : Type 0} {R : Session S → Type 0} (stage : Text) (k : Text → Act S A)
        → ((out : Text) (t : Session S) (a : A)
            → Told (trim_space (last_line out)) t
            → (k out t).1 ≡ ok a
            → R (k out t).0)
        → Yields R (step h l stage none (file_hash_script path) >>= k)
    unfolding step exec_cmd
    Yields-step {A = A} {R = R} stage k told = record {
      at = λ s a q.
          let exit = (h.run (file_hash_script path) s.host).1 in
          let t = (exec_cmd h none (file_hash_script path) stage s).0 in
          elim (Option-cases exit.error) [
            | inl e ↦
                let r = ran-none stage exit t e in
                subst (λ x. R (and_then x k).0) (sym r)
                  (told exit.out t a (s.host, e, refl, refl)
                    (sym (ap (λ x. (and_then x k).1) r) ∙ q))
            | inr (c, e) ↦
                let no = sym (ap (λ x. (and_then x k).1) (ran-some stage exit t c e)) ∙ q in cc
          ];
    }
