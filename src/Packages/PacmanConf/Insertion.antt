-- ===== src/Packages/PacmanConf/Insertion.antt =====
-- Where `push_repos_front` puts its text.
use new_cli_installer.Base.{
  String, Char, ◌<>◌, ◌≡◌, refl, sym, ap, true, some, Bool-cases, Option-cases, inl, inr,
  starts_with,
}
use new_cli_installer.Packages.PacmanConf.{insert_later, insert_one_before}

abbrev pub remove_first : String → String
remove_first String.[] = ""
remove_first (String.◌∷◌ c s) = s

-- The text was put at some place of the content, one character in front of the line.
pub record Inserted (line text content after : String) : Type 0 where
  pub front : String
  pub back : String
  pub was : content ≡ front <> back
  pub now : after ≡ front <> (text <> back)
  pub begins : starts_with (remove_first back) line ≡ true

Inserted-cons :
    (line text content : String) (c : Char) {after : String}
    → Inserted line text content after
    → Inserted line text (String.◌∷◌ c content) (String.◌∷◌ c after)
unfolding ◌<>◌
Inserted-cons line text content c r = record {
  front = String.◌∷◌ c r.front;
  back = r.back;
  was = ap (String.◌∷◌ c) r.was;
  now = ap (String.◌∷◌ c) r.now;
  begins = r.begins;
}

Inserted-here :
    (line text s : String) (c : Char)
    → starts_with s line ≡ true
    → Inserted line text (String.◌∷◌ c s) (text <> String.◌∷◌ c s)
unfolding ◌<>◌
Inserted-here line text s c h = record {
  front = "";
  back = String.◌∷◌ c s;
  was = refl;
  now = refl;
  begins = h;
}

insert_later-Inserted :
    (line text content : String) {after : String}
    → insert_later line text content ≡ some after
    → Inserted line text content after
unfolding insert_later
insert_later-Inserted line text String.[] h = absurd (cc)
insert_later-Inserted line text (String.◌∷◌ c s) {after} h =
    elim (Bool-cases (starts_with s line)) [
      | inl here ↦
          let e : text <> String.◌∷◌ c s ≡ after = cc (rw here at h) in
          rw (sym e) (Inserted-here line text s c here)
      | inr later ↦ elim (Option-cases (insert_later line text s)) [
        | inl gone ↦ absurd (cc (rw (later, gone) at h))
        | inr (out, e) ↦
            let e' : String.◌∷◌ c out ≡ after = cc (rw (later, e) at h) in
            rw (sym e') (Inserted-cons line text s c (insert_later-Inserted line text s e))
      ]
    ]

-- Whatever is put in front of a line leaves the rest of the content as it was: the content is cut at
-- one place, one character in front of an occurrence of the line, and the text stands at the cut.
pub insert_one_before-Inserted :
    (line text content : String) {after : String}
    → insert_one_before line text content ≡ some after
    → Inserted line text content after
unfolding insert_one_before
insert_one_before-Inserted line text content h = elim (Bool-cases (starts_with content line)) [
  | inl first ↦ absurd (cc (rw first at h))
  | inr later ↦ insert_later-Inserted line text content (rw later at h)
]
