-- ===== src/Models/Variables/Secrets.antt =====
-- Values that are stored encrypted are read back (encodeSecret and decodeSecret of
-- internal/models/store.go).
use winify.Common.{
  ◌≡◌, refl, sym, ap, ◌∙◌, true, ◌||◌, Bool-cases, inl, inr, some, [], ◌++◌, Text, codes, text_eq,
  text_eq_iff, has_prefix, trim_prefix, Result, ok, err, arith, if_true, if_false,
}
use mathlib.Core.Path.{subst}
use winify.Models.Variables.{
  SecretCodec, StoreError, encrypted_secret_prefix, sealed, encode_secret, opened, decode_secret,
}

-- What is encrypted under a name is decrypted under that name.
pub record IsLossless (codec : SecretCodec) : Type 0 where
  pub decrypts :
      (name value encoded : Text)
      → codec.encrypt name value ≡ ok encoded
      → codec.decrypt name encoded ≡ ok value

abbrev text_or : Text → Result StoreError Text → Text
text_or s (ok t) = t
text_or s (err e) = s

abbrev result_of : Text → Result StoreError Text
result_of s = ok s

text_of_ok : (s t : Text) → result_of s ≡ ok t → s ≡ t
text_of_ok s t h = ap (text_or s) h

decode-prefixed :
    (codec : SecretCodec) (name encoded : Text)
    → decode_secret (some codec) name (encrypted_secret_prefix ++ encoded)
      ≡ opened name (codec.decrypt name encoded)
unfolding decode_secret has_prefix trim_prefix
decode-prefixed codec name encoded = refl

decode-sealed :
    (codec : SecretCodec) (name value stored : Text) (r : Result Text Text)
    → ((encoded : Text) → r ≡ ok encoded → codec.decrypt name encoded ≡ ok value)
    → sealed name r ≡ ok stored
    → decode_secret (some codec) name stored ≡ ok value
decode-sealed codec name value stored (ok encoded) h e =
    subst (λ t. decode_secret (some codec) name t ≡ ok value)
      (text_of_ok (encrypted_secret_prefix ++ encoded) stored e)
      (decode-prefixed codec name encoded ∙ ap (opened name) (h encoded refl))
decode-sealed codec name value stored (err c) h e = cc

plain_value :
    (codec : SecretCodec) (name value : Text)
    → (text_eq value [] || text_eq value (codes "null")) ≡ true
    → decode_secret (some codec) name value ≡ ok value
unfolding decode_secret has_prefix
plain_value codec name value h = elim (Bool-cases (text_eq value [])) [
  | inl e ↦ rw ((text_eq_iff value []).0 e) refl
  | inr e ↦
      let n : text_eq value (codes "null") ≡ true = ground arith in
      rw ((text_eq_iff value (codes "null")).0 n) refl
]

-- With a master key, what encodeSecret stores for a value is read back as that value by
-- decodeSecret, whatever the value holds, if the key's codec loses nothing.
pub decode-encode_secret :
    (codec : SecretCodec) (name value stored : Text)
    → IsLossless codec
    → encode_secret (some codec) name value ≡ ok stored
    → decode_secret (some codec) name stored ≡ ok value
unfolding encode_secret
decode-encode_secret codec name value stored lossless h =
    elim (Bool-cases (text_eq value [] || text_eq value (codes "null"))) [
      | inl e ↦
          subst (λ t. decode_secret (some codec) name t ≡ ok value)
            (text_of_ok value stored
              (sym (if_true (text_eq value [] || text_eq value (codes "null")) _ _ e) ∙ h))
            (plain_value codec name value e)
      | inr e ↦
          decode-sealed codec name value stored (codec.encrypt name value)
            (lossless.decrypts name value)
            (sym (if_false (text_eq value [] || text_eq value (codes "null")) _ _ e) ∙ h)
    ]
