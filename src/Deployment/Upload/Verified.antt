-- ===== src/Deployment/Upload/Verified.antt =====
-- The hash that a host reports after EnsureBinary and EnsureNSSM
-- (internal/deployment/winservice.go).
use winify.Common.{
  ◌≡◌, ◌≢◌, [], ◌∷◌, arith, refl, sym, ◌∙◌, Bool, true, false, not, ◌&&◌, none, if◌then◌else◌, Text,
  codes, ◌++◌, text_eq, text_eq_iff, trim_space, equal_fold, to_lower, Result, ok, err,
}
use mathlib.Core.Path.{subst}
use winify.Deployment.Shell.Yields.{Yields, Yields-raise, Yields-if, Yields-last, Yields-first}
use winify.Deployment.Shell.Keeps.{Keeps-pure}
use winify.Deployment.Shell.{Host, Session, Act, ◌>>=◌, say, last_line}
use winify.Deployment.Upload.{
  Local, begin_upload_script, finish_upload_script, win_dir, remote_file_sha256, step, check_upload,
  upload_chunks, upload_binary, unless_present, ensure_binary, check_existing, use_existing,
  install_source, ensure_trimmed, ensure_nssm, pin_error,
}
use winify.Deployment.Upload.Told.{Told, Yields-remote, Yields-step}

equal_fold_trans :
    (a b c : Text) → equal_fold a b ≡ true → equal_fold c b ≡ true → equal_fold a c ≡ true
unfolding equal_fold
equal_fold_trans a b c h k = (text_eq_iff (to_lower a) (to_lower c)).1 (
    (text_eq_iff (to_lower a) (to_lower b)).0 h ∙ sym ((text_eq_iff (to_lower c) (to_lower b)).0 k))

text_eq-nil : (s : Text) → s ≢ [] → text_eq s [] ≡ false
unfolding text_eq
text_eq-nil [] ne = absurd (ne refl)
text_eq-nil (c ∷ s) ne = refl

pinned_hash :
    (pin hash : Text)
    → pin ≢ []
    → trim_space pin ≡ pin
    → (not (text_eq (trim_space pin) []) && not (equal_fold (trim_space pin) hash)) ≡ false
    → equal_fold pin hash ≡ true
pinned_hash pin hash ne trimmed e =
    let e2 : (not (text_eq pin []) && not (equal_fold pin hash)) ≡ false =
      subst (λ p. (not (text_eq p []) && not (equal_fold p hash)) ≡ false) trimmed e in
    let set = text_eq-nil pin ne in ground arith

module _ {S : Type 0} (h : Host S) (path : Text) where
  -- The same, and the answer is `value` up to case.
  abbrev pub Verified : Text → Session S → Type 0
  Verified value t = (got : Text) × Told h path got t × (equal_fold got value ≡ true)

  module _ (l : Local) where
    -- A test decides between two actions that both establish it from `t`.
    decided :
        (value : Text) (b : Bool) (m n : Act S Text) (t : Session S) (a : Text)
        → (b ≡ true → (m t).1 ≡ ok a → Verified value (m t).0)
        → (b ≡ false → (n t).1 ≡ ok a → Verified value (n t).0)
        → ((if b then m else n) t).1 ≡ ok a
        → Verified value ((if b then m else n) t).0
    decided value true m n t a one other q = one refl q
    decided value false m n t a one other q = other refl q

    Yields-check :
        (value want out : Text) (t : Session S) (a : Text)
        → Told h path (trim_space (last_line out)) t
        → equal_fold value want ≡ true
        → (check_upload h l path want out t).1 ≡ ok a
        → Verified value (check_upload h l path want out t).0
    unfolding say
    Yields-check value want out t a told same q =
        decided value (equal_fold (trim_space (last_line out)) want) _ _ t a
          (λ e k. (
            trim_space (last_line out),
            told,
            equal_fold_trans (trim_space (last_line out)) want value e same,
          ))
          (λ e k. cc) q

    Yields-upload_binary :
        (value content : Text)
        → equal_fold value (l.sha256hex content) ≡ true
        → Yields (Verified value) (upload_binary h l path content)
    unfolding upload_binary
    Yields-upload_binary value content same =
        let tmp = path ++ codes ".b64" in
        Yields-last
          (step h l (codes "prepare upload") none (begin_upload_script (win_dir path) tmp)) _
          (λ begun. Yields-last (upload_chunks h l tmp (h.base64 content)) _ (λ sent.
            Yields-last (step h l (codes "assemble upload") none (finish_upload_script tmp path)) _
              (λ assembled.
                Yields-step h path l (codes "verify upload")
                  (check_upload h l path (l.sha256hex content))
                  (λ out t a told q.
                    Yields-check value (l.sha256hex content) out t a told same q))))

    Yields-ensure_binary :
        (value content : Text)
        → equal_fold value (l.sha256hex content) ≡ true
        → Yields (Verified value) (ensure_binary h l path content)
    unfolding ensure_binary say
    Yields-ensure_binary value content same =
        Yields-remote h path l (unless_present h l path content)
          (λ got t a told q.
            decided value (equal_fold got (l.sha256hex content)) _ _ t a
              (λ e k. (got, told, equal_fold_trans got (l.sha256hex content) value e same))
              (λ e k. (Yields-upload_binary value content same).at t a k) q)
          (λ e. Yields-upload_binary value content same)

    pin_error_refuses :
        (value got pin : Text) (t : Session S) (a : Text)
        → (pin_error h l got pin t).1 ≡ ok a
        → Verified value (pin_error h l got pin t).0
    pin_error_refuses value got pin t a q = cc

    Yields-check_existing :
        (pin : Text)
        → Yields (Verified pin) (remote_file_sha256 h l path >>= check_existing h l path pin)
    Yields-check_existing pin =
        Yields-remote h path l (check_existing h l path pin)
          (λ got t a told q.
            decided pin (equal_fold got pin) _ _ t a (λ e k. (got, told, e))
              (λ e k. pin_error_refuses pin got pin t a k) q)
          (λ e. Yields-raise _)

    Yields-use_existing :
        (source pin cause : Text)
        → pin ≢ []
        → Yields
            (Verified pin)
            (remote_file_sha256 h l path >>= use_existing h l path source pin cause)
    unfolding say
    Yields-use_existing source pin cause ne =
        let some_pin = text_eq-nil pin ne in
        Yields-remote h path l (use_existing h l path source pin cause)
          (λ got t a told q.
            decided pin (text_eq got []) _ _ t a (λ e k. cc)
              (λ e k.
                decided pin (not (text_eq pin []) && not (equal_fold got pin)) _ _ t a
                  (λ e k. pin_error_refuses pin got pin t a k) (λ e k. (got, told, ground arith)) k)
              q)
          (λ e. Yields-raise _)

    Yields-install_source :
        (source pin : Text) (read : Result Text Text)
        → pin ≢ []
        → trim_space pin ≡ pin
        → Yields (Verified pin) (install_source h l path source pin read)
    Yields-install_source source pin (err cause) ne trimmed =
        Yields-use_existing source pin cause ne
    Yields-install_source source pin (ok content) ne trimmed =
        Yields-if
          (not (text_eq (trim_space pin) [])
            && not (equal_fold (trim_space pin) (l.sha256hex content)))
          _ _ (λ e. Yields-raise _)
          (λ e.
            Yields-first (ensure_binary h l path content) _
              (Yields-ensure_binary pin content
                (pinned_hash pin (l.sha256hex content) ne trimmed e))
              (λ want. Keeps-pure _))

    Yields-ensure_trimmed :
        (source pin : Text)
        → pin ≢ []
        → trim_space pin ≡ pin
        → Yields (Verified pin) (ensure_trimmed h l path source pin)
    Yields-ensure_trimmed source pin ne trimmed =
        Yields-if (text_eq source []) _ _
          (λ e.
            Yields-if (text_eq pin []) _ _ (λ blank. let set = text_eq-nil pin ne in cc)
              (λ set. Yields-check_existing pin))
          (λ e. Yields-install_source source pin (l.read_file source) ne trimmed)

-- When a hash is pinned, and EnsureNSSM returns, then the last command on the host asked for the
-- hash of nssm.exe, and the host answered with the pinned hash: whether a source is configured or
-- not, can be read or not, and was uploaded or was there.
pub ensure_nssm-Verified :
    {S : Type 0} (h : Host S) (l : Local) (path source pin : Text) (s : Session S)
    (installed : Text)
    → pin ≢ []
    → trim_space pin ≡ pin
    → (ensure_nssm h l path source pin s).1 ≡ ok installed
    → Verified h path pin (ensure_nssm h l path source pin s).0
unfolding ensure_nssm
ensure_nssm-Verified h l path source pin s installed ne trimmed q =
    subst
      (λ p.
        (ensure_trimmed h l path (trim_space source) p s).1 ≡ ok installed
        → Verified h path pin (ensure_trimmed h l path (trim_space source) p s).0)
      (sym trimmed)
      (λ k. (Yields-ensure_trimmed h path l (trim_space source) pin ne trimmed).at s installed k) q
