-- ===== src/Lines/Trim.antt =====
-- gucc/src/string_utils.cpp: what trimming takes off a text.
use Prim.Native.Char.{Char}
use new_cli_installer.Base.{
  String, ◌<>◌, same_char, ◌||◌, ◌∙◌, sym, ◌≡◌, refl, ap, Bool, true, false, not, ◌&&◌, arith,
  Bool-cases, inl, inr, is_empty,
}
use new_cli_installer.Lines.{is_space, trim_start, trim_end, trim}

abbrev pub has_char : Char → String → Bool
has_char c String.[] = false
has_char c (String.◌∷◌ d s) = same_char c d || has_char c s

-- The blanks, and texts that have nothing else.
abbrev pub is_blank : Char → Bool
is_blank c = has_char c " \t\n\r"

abbrev pub all_blank : String → Bool
all_blank String.[] = true
all_blank (String.◌∷◌ c s) = is_blank c && all_blank s

is_space-is_blank : (c : Char) → is_space c ≡ is_blank c
unfolding is_space
is_space-is_blank c = ground arith

-- The text does not start with a blank.
abbrev pub starts_clean : String → Bool
starts_clean String.[] = true
starts_clean (String.◌∷◌ c s) = not (is_blank c)

-- The text does not end with a blank.
abbrev pub ends_clean : String → Bool
ends_clean String.[] = true
ends_clean (String.◌∷◌ c s) = ends_clean s && not (is_empty s && is_blank c)

trim_start-starts_clean : (s : String) → starts_clean (trim_start s) ≡ true
unfolding trim_start
trim_start-starts_clean String.[] = refl
trim_start-starts_clean (String.◌∷◌ c s) = elim (Bool-cases (is_space c)) [
  | inl e ↦ rw e (trim_start-starts_clean s)
  | inr n ↦ rw (n, sym (is_space-is_blank c)) (ap not n)
]

trim_end-ends_clean : (s : String) → ends_clean (trim_end s) ≡ true
unfolding trim_end
trim_end-ends_clean String.[] = refl
trim_end-ends_clean (String.◌∷◌ c s) = elim (Bool-cases (is_empty (trim_end s) && is_space c)) [
  | inl e ↦ rw e refl
  | inr n ↦ rw (n, trim_end-ends_clean s, sym (is_space-is_blank c)) (ap not n)
]

trim_end-starts_clean : (s : String) → starts_clean s ≡ true → starts_clean (trim_end s) ≡ true
unfolding trim_end
trim_end-starts_clean String.[] h = refl
trim_end-starts_clean (String.◌∷◌ c s) h = elim (Bool-cases (is_empty (trim_end s) && is_space c)) [
  | inl e ↦ rw e refl
  | inr n ↦ rw n h
]

trim_start-cut : (s : String) → (pre : String) × (s ≡ pre <> trim_start s) × (all_blank pre ≡ true)
unfolding trim_start ◌<>◌
trim_start-cut String.[] = ("", refl, refl)
trim_start-cut (String.◌∷◌ c s) = elim (Bool-cases (is_space c)) [
  | inl e ↦
      let (pre, cut, blank) = trim_start-cut s in
      (
        String.◌∷◌ c pre,
        rw e (ap (λ t. String.◌∷◌ c t) cut),
        rw (sym (is_space-is_blank c), e) blank,
      )
  | inr n ↦ ("", rw n refl, refl)
]

no_chars : (s : String) → is_empty s ≡ true → s ≡ ""
no_chars String.[] h = refl
no_chars (String.◌∷◌ c s) h = absurd (cc)

trim_end-cut : (s : String) → (post : String) × (s ≡ trim_end s <> post) × (all_blank post ≡ true)
unfolding trim_end ◌<>◌
trim_end-cut String.[] = ("", refl, refl)
trim_end-cut (String.◌∷◌ c s) =
    let (post, cut, blank) = trim_end-cut s in
    elim (Bool-cases (is_empty (trim_end s) && is_space c)) [
      | inl e ↦
          let space : is_space c ≡ true = ground arith in
          let nothing : trim_end s ≡ "" = no_chars (trim_end s) (ground arith) in
          let same : s ≡ post = cut ∙ ap (λ t. t <> post) nothing in
          (
            String.◌∷◌ c s,
            rw e refl,
            rw (sym (is_space-is_blank c), space) (ap all_blank same ∙ blank),
          )
      | inr n ↦ (post, rw n (ap (λ t. String.◌∷◌ c t) cut), blank)
    ]

-- A text is blanks, its trimmed text, and blanks again, where the blanks are spaces, tabs, newlines and
-- carriage returns; the trimmed text neither starts nor ends with one.
pub trim-cut :
    (s : String)
    → (pre : String) × (post : String) × (s ≡ pre <> trim s <> post)
      × (all_blank pre ≡ true)
      × (all_blank post ≡ true)
      × (starts_clean (trim s) ≡ true)
      × (ends_clean (trim s) ≡ true)
unfolding trim
trim-cut s =
    let (pre, front, blank) = trim_start-cut s in
    let (post, back, blank') = trim_end-cut (trim_start s) in
    (
      pre,
      post,
      front ∙ ap (λ t. pre <> t) back,
      blank,
      blank',
      trim_end-starts_clean (trim_start s) (trim_start-starts_clean s),
      trim_end-ends_clean (trim_start s),
    )
