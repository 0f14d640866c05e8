-- ===== src/Installer/Settings/Fields.antt =====
-- The fields of settings.json and the settings that they become.
use new_cli_installer.Base.{
  String, ◌==◌, ◌≡◌, refl, ◌∙◌, Bool, true, false, ◌&&◌, some, List, [], ◌∷◌, ◌⊎◌, All,
  Option-cases, Bool-cases, inl, inr, eq_refl,
}
use new_cli_installer.Installer.State.{Config, Value, text, put}
use new_cli_installer.Installer.Settings.{
  RapidJson, Reading, going, refused, ended, ◌and_thence◌, Field, Entries, all_ready, some_invalid,
  some_failed, string_member, read_text, read_texts,
}

pub and_thence_going :
    (r : Reading) (f : Config → Reading) {c' : Config}
    → (r and_thence f) ≡ going c'
    → (c : Config) × (r ≡ going c) × (f c ≡ going c')
and_thence_going (going c) f h = (c, refl, h)
and_thence_going (refused c) f h = cc
and_thence_going (ended c) f h = cc

pub put_other : (key k : String) (v : Value) (c : Config) → (k == key) ≡ false → put key v c k ≡ c k
put_other key k v c h = rw h

pub put_same : (key : String) (v : Value) (c : Config) → put key v c key ≡ v
put_same key v c = rw (eq_refl key)

pub Entries-cases :
    (r : Entries)
    → ((l : List String) × (r ≡ all_ready l)) ⊎ ((r ≡ some_invalid) ⊎ (r ≡ some_failed))
Entries-cases (all_ready l) = inl (l, refl)
Entries-cases some_invalid = inr (inl refl)
Entries-cases some_failed = inr (inr refl)

module _ (json : RapidJson) (doc : json.Json) where
  -- The document has a text under the field's name, and it is the field's setting.
  abbrev pub Holds : Config → Field → Type 0
  Holds c field =
      (t : String) × (string_member json doc field.name ≡ some t) × (c field.key ≡ text t)

  -- The same for the fields that are required.
  abbrev pub IfRequired : Bool → Config → Field → Type 0
  IfRequired true c field = Holds c field
  IfRequired false c field = Unit

  abbrev pub Held : Config → Field → Type 0
  Held c field = IfRequired field.required c field

  -- No field has this key.
  abbrev pub Other : String → List Field → Type 0
  Other k = All (λ field. (k == field.key) ≡ false)

  abbrev pub AllOther : List Field → Type 0
  AllOther [] = Unit
  AllOther (field ∷ fields) = Other field.key fields × AllOther fields

  read_text_cases :
      (headless : Bool) (field : Field) (c : Config) {c' : Config}
      → read_text json doc headless field c ≡ going c'
      → ((t : String) × (string_member json doc field.name ≡ some t)
          × (c' ≡ put field.key (text t) c))
        ⊎ ((c' ≡ c) × ((field.required && headless) ≡ false))
  unfolding read_text string_member
  read_text_cases headless field c h = elim (Option-cases (json.find_member doc field.name)) [
    | inl gone ↦ elim (Bool-cases (field.required && headless)) [
      | inl needed ↦ absurd (cc (rw (read_text, gone, needed) at h))
      | inr free ↦ inr (cc (rw (read_text, gone, free) at h), free)
    ]
    | inr (v, there) ↦ elim (Option-cases (json.as_string v)) [
      | inl other ↦ absurd (cc (rw (read_text, there, other) at h))
      | inr (t, e) ↦ inl (t, rw (string_member, there) e, cc (rw (read_text, there, e) at h))
    ]
  ]

  read_text_keeps :
      (headless : Bool) (field : Field) (c : Config) {c' : Config} (k : String)
      → read_text json doc headless field c ≡ going c'
      → (k == field.key) ≡ false
      → c' k ≡ c k
  read_text_keeps headless field c k h other = elim (read_text_cases headless field c h) [
    | inl (t, _, e) ↦ rw e (put_other field.key k (text t) c other)
    | inr (e, _) ↦ rw e refl
  ]

  -- Reading fields changes no other setting.
  pub read_texts_keeps :
      (headless : Bool) (fields : List Field) (c : Config) {c' : Config} (k : String)
      → read_texts json doc headless fields c ≡ going c'
      → Other k fields
      → c' k ≡ c k
  unfolding read_texts
  read_texts_keeps headless [] c k h other = cc
  read_texts_keeps headless (field ∷ fields) c k h other =
      let (c1, e, rest) =
        and_thence_going (read_text json doc headless field c) (read_texts json doc headless fields)
          h in
      read_texts_keeps headless fields c1 k rest other.1
      ∙ read_text_keeps headless field c k e other.0

  Held-keep :
      (c c' : Config) (field : Field) → c' field.key ≡ c field.key → Held c field → Held c' field
  Held-keep c c' field e h = elim (Bool-cases field.required) [
    | inl needed ↦
        rw needed (let holds : Holds c field = rw needed at h in (holds.0, holds.1, e ∙ holds.2))
    | inr free ↦ rw free tt
  ]

  read_text-Held :
      (field : Field) (c : Config) {c' : Config}
      → read_text json doc true field c ≡ going c'
      → Held c' field
  read_text-Held field c h = elim (Bool-cases field.required) [
    | inl needed ↦ rw needed (elim (read_text_cases true field c h) [
      | inl (t, there, e) ↦ (t, there, rw e (put_same field.key (text t) c))
      | inr (_, free) ↦ absurd (cc (rw needed at free))
    ])
    | inr free ↦ rw free tt
  ]

  -- In HEADLESS mode the fields that are required are there behind the loop over them.
  pub read_texts-Held :
      (fields : List Field) (c : Config) {c' : Config}
      → read_texts json doc true fields c ≡ going c'
      → AllOther fields
      → All (Held c') fields
  unfolding read_texts
  read_texts-Held [] c h apart = tt
  read_texts-Held (field ∷ fields) c {c'} h apart =
      let (c1, e, rest) =
        and_thence_going (read_text json doc true field c) (read_texts json doc true fields) h in
      (
        Held-keep c1 c' field (read_texts_keeps true fields c1 field.key rest apart.0)
            (read_text-Held field c e),
        read_texts-Held fields c1 rest apart.1,
      )

  pub All-Held-keep :
      (c c' : Config) (fields : List Field)
      → All (λ field. c' field.key ≡ c field.key) fields
      → All (Held c) fields
      → All (Held c') fields
  All-Held-keep c c' [] e h = tt
  All-Held-keep c c' (field ∷ fields) e h =
      (Held-keep c c' field e.0 h.0, All-Held-keep c c' fields e.1 h.1)

  pub texts_keep :
      (headless : Bool) (fields keys : List Field) (c : Config) {c' : Config}
      → read_texts json doc headless fields c ≡ going c'
      → All (λ field. Other field.key fields) keys
      → All (λ field. c' field.key ≡ c field.key) keys
  texts_keep headless fields [] c h o = tt
  texts_keep headless fields (k ∷ ks) c h o =
      (read_texts_keeps headless fields c k.key h o.0, texts_keep headless fields ks c h o.1)
