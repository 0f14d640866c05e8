-- ===== src/Base/Sort/Insertion.antt =====
-- Insertion sort, which shows that the promises of a `Sorter` can be kept.
use mathlib.Core.Path.{◌≡◌}
use mathlib.Core.Logic.{inl, inr}
use mathlib.Core.Bool.{Bool, false}
use mathlib.Core.List.{List, [], ◌∷◌, Perm}
use mathlib.Core.List.Perm
use native.Mathlib.Omega.{arith}
use new_cli_installer.Base.Tests.{if◌then◌else◌, Bool-cases}
use new_cli_installer.Base.Lists.{All}
use new_cli_installer.Base.Sort.{StrictWeak, Sorted, Sorter}

module _ {A : Type 0} (lt : A → A → Bool) where
  insert : A → List A → List A
  insert x [] = x ∷ []
  insert x (y ∷ ys) = let rest = y ∷ insert x ys in if lt y x then rest else x ∷ y ∷ ys

  unfoldable pub insertion_sort : List A → List A
  unfolding insert
  insertion_sort [] = []
  insertion_sort (x ∷ xs) = insert x (insertion_sort xs)

  insert-perm : (x : A) (ys : List A) → Perm (insert x ys) (x ∷ ys)
  unfolding insert
  insert-perm x [] = Perm.refl _
  insert-perm x (y ∷ ys) = elim (Bool-cases (lt y x)) [
    | inl past ↦ rw past (Perm.trans (Perm.cons y (insert-perm x ys)) (Perm.swap x y ys))
    | inr here ↦ rw here (Perm.refl _)
  ]

  pub sort-perm : (xs : List A) → Perm (insertion_sort xs) xs
  unfolding insertion_sort
  sort-perm [] = Perm.refl _
  sort-perm (x ∷ xs) = Perm.trans (insert-perm x (insertion_sort xs)) (Perm.cons x (sort-perm xs))

  insert-All : (P : A → Type 0) (x : A) (ys : List A) → P x → All P ys → All P (insert x ys)
  unfolding insert
  insert-All P x [] p h = (p, tt)
  insert-All P x (y ∷ ys) p (q, h) = ground (arith, insert-All P x ys p h)

  below :
      StrictWeak lt
      → (x y : A) (ys : List A) → lt y x ≡ false
      → All (λ z. lt z y ≡ false) ys
      → All (λ z. lt z x ≡ false) ys
  below w x y [] p h = tt
  below w x y (z ∷ ys) p (q, h) = (w.transitive x y z p q, below w x y ys p h)

  insert-Sorted : StrictWeak lt → (x : A) (ys : List A) → Sorted lt ys → Sorted lt (insert x ys)
  unfolding insert
  insert-Sorted w x [] h = (tt, tt)
  insert-Sorted w x (y ∷ ys) (p, h) = elim (Bool-cases (lt y x)) [
    | inl past ↦
        rw past (insert-All (λ z. lt z y ≡ false) x ys (w.asym y x past) p, insert-Sorted w x ys h)
    | inr here ↦ rw here ((here, below w x y ys here p), (p, h))
  ]

  pub sort-Sorted : StrictWeak lt → (xs : List A) → Sorted lt (insertion_sort xs)
  unfolding insertion_sort
  sort-Sorted w [] = tt
  sort-Sorted w (x ∷ xs) = insert-Sorted w x (insertion_sort xs) (sort-Sorted w xs)

unfoldable pub insertion_sorter : Sorter
unfolding insertion_sort
insertion_sorter = record {
  sort = λ A lt. insertion_sort lt;
  sort-perm = λ A lt. sort-perm lt;
  sort-Sorted = λ A lt. sort-Sorted lt;
}
