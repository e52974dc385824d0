-- ===== src/Config/Settings/Load/Order.antt =====
-- The order in which Load takes its sources (internal/config/config.go).
use winify.Common.{
  ◌≡◌, sym, ap, ◌∙◌, Bool, true, false, Option, none, some, List, [], ◌∷◌, ◌++◌, if◌then◌else◌, All,
  Text, text_eq, ℤ, Result, ok, err, >>=-eq-ok, Bool-cases, inl, inr,
}
use winify.Config.Entities.{atoi}
use winify.Config.Settings.Environment.{
  Setting, text, flag, number, EnvError, parse_bool, set_flag, set_number, apply_setting,
  apply_settings,
}

abbrev config_of : {C : Type 0} → C → Result EnvError C → C
config_of c (ok d) = d
config_of c (err e) = c

abbrev came : {C : Type 0} → C → Result EnvError C
came c = ok c

-- What a variable makes of a setting.
abbrev pub override : (Text → Text) → Text → Text → Text
override getenv name old = if text_eq (getenv name) [] then old else getenv name

module _ {C : Type 0} (getenv : Text → Text) (g : C → Text) where
  abbrev pub Leaves : Setting C → Type 0
  Leaves (text name set) = (v : Text) (c : C) → g (set v c) ≡ g c
  Leaves (flag name set) = (v : Bool) (c : C) → g (set v c) ≡ g c
  Leaves (number name set) = (v : ℤ) (c : C) → g (set v c) ≡ g c

  same_if : (b : Bool) (c e d : C) → g e ≡ g c → (if b then came c else came e) ≡ came d → g d ≡ g c
  same_if true c e d same h = ap (λ r. g (config_of c r)) (sym h)
  same_if false c e d same h = ap (λ r. g (config_of c r)) (sym h) ∙ same

  flag-Leaves :
      (b : Bool) (o : Option Bool) (name : Text) (set : Bool → C → C) (c d : C)
      → Leaves (flag name set)
      → (if b then came c else set_flag name set c o) ≡ came d
      → g d ≡ g c
  flag-Leaves true none name set c d same h = ap (λ r. g (config_of c r)) (sym h)
  flag-Leaves false none name set c d same h = cc
  flag-Leaves b (some v) name set c d same h = same_if b c (set v c) d (same v c) h

  number-Leaves :
      (b : Bool) (o : Option ℤ) (name : Text) (set : ℤ → C → C) (c d : C)
      → Leaves (number name set)
      → (if b then came c else set_number name set c o) ≡ came d
      → g d ≡ g c
  number-Leaves true none name set c d same h = ap (λ r. g (config_of c r)) (sym h)
  number-Leaves false none name set c d same h = cc
  number-Leaves b (some v) name set c d same h = same_if b c (set v c) d (same v c) h

  apply_setting-Leaves :
      (s : Setting C) (c d : C) → Leaves s → apply_setting getenv s c ≡ ok d → g d ≡ g c
  unfolding apply_setting
  apply_setting-Leaves (text name set) c d same h =
      same_if (text_eq (getenv name) []) c (set (getenv name) c) d (same _ c) h
  apply_setting-Leaves (flag name set) c d same h =
      flag-Leaves (text_eq (getenv name) []) (parse_bool (getenv name)) name set c d same h
  apply_setting-Leaves (number name set) c d same h =
      number-Leaves (text_eq (getenv name) []) (atoi (getenv name)) name set c d same h

  apply_settings-Leaves :
      (ss : List (Setting C)) (c d : C)
      → All Leaves ss
      → apply_settings getenv ss c ≡ ok d
      → g d ≡ g c
  unfolding apply_settings
  apply_settings-Leaves [] c d same h = ap (λ r. g (config_of c r)) (sym h)
  apply_settings-Leaves (s ∷ ss) c d (first, same) h =
      let (m, one, rest) = >>=-eq-ok (apply_setting getenv s c) (apply_settings getenv ss) h in
      apply_settings-Leaves ss m d same rest ∙ apply_setting-Leaves s c m first one

  apply_text :
      (name : Text) (set : Text → C → C) (c d : C)
      → ((v : Text) (c : C) → g (set v c) ≡ v)
      → apply_setting getenv (text name set) c ≡ ok d
      → g d ≡ override getenv name (g c)
  unfolding apply_setting
  apply_text name set c d own h = elim (Bool-cases (text_eq (getenv name) [])) [
    | inl e ↦ rw e (ap (λ r. g (config_of c r)) (sym (rw e at h)))
    | inr e ↦ rw e (ap (λ r. g (config_of c r)) (sym (rw e at h)) ∙ own (getenv name) c)
  ]

  -- A setting whose field no other setting of the list writes.
  pub apply_settings_text :
      (before after : List (Setting C)) (name : Text) (set : Text → C → C) (c d : C)
      → All Leaves before
      → All Leaves after
      → ((v : Text) (c : C) → g (set v c) ≡ v)
      → apply_settings getenv (before ++ (text name set ∷ after)) c ≡ ok d
      → g d ≡ override getenv name (g c)
  unfolding apply_settings
  apply_settings_text [] after name set c d _ later own h =
      let (m, one, rest) =
        >>=-eq-ok (apply_setting getenv (text name set) c) (apply_settings getenv after) h in
      apply_settings-Leaves after m d later rest ∙ apply_text name set c m own one
  apply_settings_text (s ∷ ss) after name set c d (first, sooner) later own h =
      let (m, one, rest) =
        >>=-eq-ok (apply_setting getenv s c) (apply_settings getenv (ss ++ (text name set ∷ after)))
          h in
      apply_settings_text ss after name set m d sooner later own rest
      ∙ ap (override getenv name) (apply_setting-Leaves s c m first one)
