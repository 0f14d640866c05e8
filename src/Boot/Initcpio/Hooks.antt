-- ===== src/Boot/Initcpio/Hooks.antt =====
-- What the operations do to the fields of mkinitcpio.conf.
use mathlib.Core.Path.{subst}
use new_cli_installer.Base.{
  String, ◌==◌, ◌≡◌, refl, sym, ap, ◌∙◌, true, false, ◌||◌, some, List, [], ◌∷◌, ◌++◌, arith,
  Bool-cases, inl, inr, contains, eq_iff, eq_refl,
}
use new_cli_installer.Boot.Initcpio.{
  Initcpio, missing, insert_before, erase_first, add_hook, place_hooks, drop_hook,
}

contains-append :
    (xs ys : List String) (h : String) → contains (xs ++ ys) h ≡ (contains xs h || contains ys h)
contains-append [] ys h = refl
contains-append (x ∷ xs) ys h = ground (arith, contains-append xs ys h)

insert_before-contains :
    (needle : String) (elements xs : List String) (h : String)
    → contains (insert_before needle elements xs) h ≡ (contains xs h || contains elements h)
unfolding insert_before
insert_before-contains needle elements [] h = refl
insert_before-contains needle elements (x ∷ xs) h = elim (Bool-cases (x == needle)) [
  | inl e ↦ rw e (contains-append elements (x ∷ xs) h ∙ ground arith)
  | inr n ↦ rw n (ground (arith, insert_before-contains needle elements xs h))
]

contains_same :
    (present : List String) (x h : String)
    → (x == h) ≡ true
    → contains present x ≡ contains present h
contains_same present x h e = ap (contains present) ((eq_iff x h).0 e)

missing-contains :
    (present elements : List String) (h : String)
    → (contains present h || contains (missing present elements) h)
      ≡ (contains present h || contains elements h)
unfolding missing
missing-contains present [] h = refl
missing-contains present (x ∷ xs) h = elim (Bool-cases (contains present x)) [
  | inl e ↦ rw e (ground (arith, missing-contains present xs h, contains_same present x h))
  | inr n ↦ rw n (ground (arith, missing-contains present xs h))
]

-- After hooks were put in front of another, the hooks are exactly those that were there and those that
-- were given.
pub place_hooks-contains :
    (needle : String) (hooks : List String) (s : Initcpio) {s' : Initcpio} (h : String)
    → place_hooks needle hooks s ≡ some s'
    → contains s'.hooks h ≡ (contains s.hooks h || contains hooks h)
unfolding place_hooks
place_hooks-contains needle hooks s {s'} h e = go (missing s.hooks hooks) refl e
  where
    go :
        (ms : List String)
        → missing s.hooks hooks ≡ ms
        → place_hooks needle hooks s ≡ some s'
        → contains s'.hooks h ≡ (contains s.hooks h || contains hooks h)
    go [] m e' = absurd (cc (rw (place_hooks, m) at e'))
    go (el ∷ els) m e' =
        let r : record s { hooks = insert_before needle (el ∷ els) s.hooks } ≡ s' =
          cc (rw (place_hooks, m) at e') in
        rw (sym r) (
          insert_before-contains needle (el ∷ els) s.hooks h
          ∙ ap (λ l. contains s.hooks h || contains l h) (sym m)
          ∙ missing-contains s.hooks hooks h)

erase_first-append :
    (xs : List String) (h : String) → contains xs h ≡ false → erase_first h (xs ++ h ∷ []) ≡ some xs
unfolding erase_first
erase_first-append [] h n = rw (eq_refl h)
erase_first-append (x ∷ xs) h n =
    let first : (x == h) ≡ false = ground arith in
    rw (first, erase_first-append xs h (ground arith))

drop_appended :
    (hook : String) (s : Initcpio)
    → contains s.hooks hook ≡ false
    → drop_hook hook (record s { hooks = s.hooks ++ hook ∷ [] }) ≡ some s
unfolding drop_hook
drop_appended hook s n = rw (drop_hook, erase_first-append s.hooks hook n)

-- Removing a hook that was just appended gives the fields back.
pub drop_hook-add_hook :
    (hook : String) (s : Initcpio) {s' : Initcpio}
    → add_hook hook s ≡ some s'
    → drop_hook hook s' ≡ some s
unfolding add_hook
drop_hook-add_hook hook s {s'} e = elim (Bool-cases (contains s.hooks hook)) [
  | inl there ↦ absurd (cc (rw there at e))
  | inr n ↦
      let r : record s { hooks = s.hooks ++ hook ∷ [] } ≡ s' = cc (rw n at e) in
      subst (λ x. drop_hook hook x ≡ some s) r (drop_appended hook s n)
]
