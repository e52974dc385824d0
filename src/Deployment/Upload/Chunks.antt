-- ===== src/Deployment/Upload/Chunks.antt =====
-- The chunks of an upload (EnsureBinary of internal/deployment/winservice.go).
use winify.Common.{
  ℕ, zero, suc, ◌+◌, ◌-◌, ◌≤◌, ◌<◌, ◌≡◌, refl, sym, ap, ◌∙◌, arith, List, [], ◌∷◌, ◌++◌, ltb, All,
  Bool, true, false, Bool-cases, inl, inr, if◌then◌else◌, length, drop, length-take, length-drop,
  take-append-drop, Text, Result, ok, err, if_true, if_false,
}
use winify.Deployment.Deployer.{concat}
use winify.Deployment.Shell.{Host, StepError, Session, Act, and_then, ◌>>◌, pure}
use winify.Deployment.Upload.{
  Local, nssm_upload_chunk, slice, chunk_end, send_chunk, upload_from, upload_chunks,
}

module _ {A : Type 0} where
  drop_all : (n : ℕ) (xs : List A) → length xs ≤ n → drop n xs ≡ []
  drop_all zero [] h = refl
  drop_all zero (x ∷ xs) h = absurd (omega (arith, h))
  drop_all (suc n) [] h = refl
  drop_all (suc n) (x ∷ xs) h = drop_all n xs (omega (arith, h))

  abbrev no_items : List A
  no_items = []

  drop_nil : (n : ℕ) → drop n no_items ≡ no_items
  drop_nil zero = refl
  drop_nil (suc n) = refl

  drop-drop : (n m : ℕ) (xs : List A) → drop n (drop m xs) ≡ drop (m + n) xs
  drop-drop n zero xs = ap (λ k. drop k xs) (omega arith)
  drop-drop n (suc m) [] = drop_nil n ∙ sym (drop_nil (suc m + n))
  drop-drop n (suc m) (x ∷ xs) =
      let e : suc (m + n) ≡ suc m + n = omega arith in
      drop-drop n m xs ∙ ap (λ k. drop k (x ∷ xs)) e

-- A chunk that one command may carry.
abbrev pub IsChunk : Text → Type 0
IsChunk chunk = (1 ≤ length chunk) × (length chunk ≤ nssm_upload_chunk)

chunk_end_bounds :
    (i size : ℕ)
    → i < size
    → (i < chunk_end i size)
      × (chunk_end i size ≤ size)
      × (chunk_end i size ≤ i + nssm_upload_chunk)
unfolding chunk_end
chunk_end_bounds i size h = ground arith

chunk_end_next :
    (i : ℕ) (encoded : Text)
    → drop (chunk_end i (length encoded)) encoded ≡ drop (i + nssm_upload_chunk) encoded
unfolding chunk_end
chunk_end_next i encoded = elim (Bool-cases (ltb (length encoded) (i + nssm_upload_chunk))) [
  | inl e ↦
      ap (λ k. drop k encoded) (if_true _ (length encoded) _ e)
      ∙ drop_all _ encoded (omega arith)
      ∙ sym (drop_all (i + nssm_upload_chunk) encoded (ground arith))
  | inr e ↦ ap (λ k. drop k encoded) (if_false _ (length encoded) _ e)
]

slice-drop :
    (i : ℕ) (encoded : Text)
    → i < length encoded
    → slice i (chunk_end i (length encoded)) encoded ++ drop (i + nssm_upload_chunk) encoded
      ≡ drop i encoded
slice-drop i encoded h =
    let stop = chunk_end i (length encoded) in
    let (lo, mid, hi) = chunk_end_bounds i (length encoded) h in
    ap (λ (t : Text). slice i stop encoded ++ t)
      (sym (chunk_end_next i encoded)
        ∙ ap (λ k. drop k encoded) (omega (arith, lo))
        ∙ sym (drop-drop (stop - i) i encoded))
    ∙ take-append-drop (stop - i) (drop i encoded)

slice-IsChunk :
    (i : ℕ) (encoded : Text)
    → i < length encoded
    → IsChunk (slice i (chunk_end i (length encoded)) encoded)
slice-IsChunk i encoded h =
    let stop = chunk_end i (length encoded) in
    let (lo, mid, hi) = chunk_end_bounds i (length encoded) h in
    let size = length-take (stop - i) (drop i encoded) in
    let rest = length-drop i encoded in
    (omega (arith, size, rest, lo, mid, hi), omega (arith, size, rest, lo, mid, hi))

module _ {S : Type 0} (h : Host S) (l : Local) where
  -- The chunks are sent one after the other; the first command that fails ends it.
  abbrev pub send_all : Text → List Text → Act S (Unit {0})
  send_all tmp [] = pure tt
  send_all tmp (c ∷ cs) = send_chunk h l tmp c >> send_all tmp cs

  and_then_same :
      (p : Session S × Result StepError Text) (m n : Act S (Unit {0}))
      → ((s : Session S) → m s ≡ n s)
      → and_then p (λ u. m) ≡ and_then p (λ u. n)
  and_then_same (s, ok a) m n same = same s
  and_then_same (s, err e) m n same = refl

  if_true_at :
      (b : Bool) (m n : Act S (Unit {0}))
      → b ≡ true
      → (s : Session S) → (if b then m else n) s ≡ m s
  if_true_at b m n e s = rw e refl

  if_false_at :
      (b : Bool) (m n : Act S (Unit {0}))
      → b ≡ false
      → (s : Session S) → (if b then m else n) s ≡ n s
  if_false_at b m n e s = rw e refl

  -- The text from `i` on, in chunks that are sent in order.
  abbrev SendsFrom : ℕ → ℕ → Text → Text → Type 0
  SendsFrom n i tmp encoded =
      (cs : List Text) × (concat cs ≡ drop i encoded)
      × All IsChunk cs
      × ((s : Session S) → upload_from h l n i tmp encoded s ≡ send_all tmp cs s)

  upload_from_sends :
      (n i : ℕ) (tmp encoded : Text) → length encoded - i < n → SendsFrom n i tmp encoded
  unfolding upload_from
  upload_from_sends zero i tmp encoded k = absurd (omega (arith, k))
  upload_from_sends (suc n) i tmp encoded k = elim (Bool-cases (ltb i (length encoded))) [
    | inl e ↦
        let less : i < length encoded = ground arith in
        let (cs, whole, fit, same) =
          upload_from_sends n (i + nssm_upload_chunk) tmp encoded (omega (arith, k, less)) in
        let c = slice i (chunk_end i (length encoded)) encoded in
        (
          c ∷ cs,
          ap (λ (t : Text). c ++ t) whole ∙ slice-drop i encoded less,
          (slice-IsChunk i encoded less, fit),
          λ s.
              if_true_at (ltb i (length encoded)) _ _ e s
              ∙ and_then_same (send_chunk h l tmp c s) _ _ same,
        )
    | inr e ↦
        let over : length encoded ≤ i = ground arith in
        ([], sym (drop_all i encoded over), tt, λ s. if_false_at (ltb i (length encoded)) _ _ e s)
  ]

  -- The loop of an upload ends within its fuel. What it does is to send the encoded text in
  -- chunks of at least one and at most 100000 bytes, in order and without a gap, until a command
  -- fails.
  pub upload_chunks_sends :
      (tmp encoded : Text)
      → (cs : List Text) × (concat cs ≡ encoded)
        × All IsChunk cs
        × ((s : Session S) → upload_chunks h l tmp encoded s ≡ send_all tmp cs s)
  upload_chunks_sends tmp encoded =
      upload_from_sends (suc (length encoded)) zero tmp encoded (omega arith)
