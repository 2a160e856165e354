-- ===== src/Base/Sort.antt =====
-- The sorts of the source over a strict "less" test, as the stable insertion sort.
use mathlib.Core.Path.{◌≡◌}
use mathlib.Core.Logic.{inl, inr}
use mathlib.Core.Bool.{Bool, true, false}
use mathlib.Core.List.{List, [], ◌∷◌, Perm}
use mathlib.Core.List.Perm
use ccx.Base.Tests.{if◌then◌else◌, Bool-cases}
use ccx.Base.Lists.{All, filter, All-filter}

module _ {ℓ} {A : Type ℓ} (less : A → A → Bool) where
  -- `x` goes in front of the first element that it is not behind: equal elements keep their order.
  unfoldable pub insert_sorted : A → List A → List A
  insert_sorted x [] = x ∷ []
  insert_sorted x (y ∷ ys) = if less y x then y ∷ insert_sorted x ys else x ∷ y ∷ ys

  unfoldable pub sort_stable : List A → List A
  unfolding insert_sorted
  sort_stable [] = []
  sort_stable (x ∷ xs) = insert_sorted x (sort_stable xs)

  insert_sorted-perm : (x : A) (xs : List A) → Perm (insert_sorted x xs) (x ∷ xs)
  unfolding insert_sorted
  insert_sorted-perm x [] = Perm.refl (x ∷ [])
  insert_sorted-perm x (y ∷ ys) = elim (Bool-cases (less y x)) [
    | inl e ↦ rw e (Perm.trans (Perm.cons y (insert_sorted-perm x ys)) (Perm.swap x y ys))
    | inr e ↦ rw e (Perm.refl (x ∷ y ∷ ys))
  ]

  pub sort_stable-perm : (xs : List A) → Perm (sort_stable xs) xs
  unfolding sort_stable
  sort_stable-perm [] = Perm.refl []
  sort_stable-perm (x ∷ xs) =
      Perm.trans (insert_sorted-perm x (sort_stable xs)) (Perm.cons x (sort_stable-perm xs))

  module _ {κ} (P : A → Type κ) where
    All-insert : (x : A) (xs : List A) → P x → All P xs → All P (insert_sorted x xs)
    unfolding insert_sorted
    All-insert x [] h t = (h, tt)
    All-insert x (y ∷ ys) h t = elim (Bool-cases (less y x)) [
      | inl e ↦ rw e (t.0, All-insert x ys h t.1)
      | inr e ↦ rw e (h, t)
    ]

    pub All-sort_stable : (xs : List A) → All P xs → All P (sort_stable xs)
    unfolding sort_stable
    All-sort_stable [] t = tt
    All-sort_stable (x ∷ xs) t = All-insert x (sort_stable xs) t.0 (All-sort_stable xs t.1)

    -- What holds of the sorted list holds of the list.
    insert_sorted-All : (x : A) (xs : List A) → All P (insert_sorted x xs) → P x × All P xs
    unfolding insert_sorted
    insert_sorted-All x [] t = t
    insert_sorted-All x (y ∷ ys) t = elim (Bool-cases (less y x)) [
      | inl e ↦
          let t' : All P (y ∷ insert_sorted x ys) = rw e at t in
          let rest = insert_sorted-All x ys t'.1 in (rest.0, (t'.0, rest.1))
      | inr e ↦ rw e at t
    ]

    pub sort_stable-All : (xs : List A) → All P (sort_stable xs) → All P xs
    unfolding sort_stable
    sort_stable-All [] t = tt
    sort_stable-All (x ∷ xs) t =
        let rest = insert_sorted-All x (sort_stable xs) t in (rest.0, sort_stable-All xs rest.1)

  -- No later element is less than an earlier one.
  abbrev pub IsSorted : List A → Type ℓ
  IsSorted [] = Unit
  IsSorted (x ∷ xs) = All (λ y. less y x ≡ false) xs × IsSorted xs

  module _ (asym : (a b : A) → less a b ≡ true → less b a ≡ false)
      (trans : (a b c : A) → less b a ≡ false → less c b ≡ false → less c a ≡ false) where
    All-insert_sorted :
        (x y : A) (xs : List A)
        → less x y ≡ false
        → All (λ z. less z y ≡ false) xs
        → All (λ z. less z y ≡ false) (insert_sorted x xs)
    unfolding insert_sorted
    All-insert_sorted x y [] h t = (h, tt)
    All-insert_sorted x y (z ∷ zs) h t = elim (Bool-cases (less z x)) [
      | inl e ↦ rw e (t.0, All-insert_sorted x y zs h t.1)
      | inr e ↦ rw e (h, t)
    ]

    All-trans :
        (x y : A) (zs : List A)
        → less y x ≡ false
        → All (λ z. less z y ≡ false) zs
        → All (λ z. less z x ≡ false) zs
    All-trans x y [] h t = tt
    All-trans x y (z ∷ zs) h t = (trans x y z h t.0, All-trans x y zs h t.1)

    insert_sorted-IsSorted : (x : A) (xs : List A) → IsSorted xs → IsSorted (insert_sorted x xs)
    unfolding insert_sorted
    insert_sorted-IsSorted x [] s = (tt, tt)
    insert_sorted-IsSorted x (y ∷ ys) s = elim (Bool-cases (less y x)) [
      | inl e ↦ rw e (All-insert_sorted x y ys (asym y x e) s.0, insert_sorted-IsSorted x ys s.1)
      | inr e ↦ rw e ((e, All-trans x y ys e s.0), s)
    ]

    pub sort_stable-IsSorted : (xs : List A) → IsSorted (sort_stable xs)
    unfolding sort_stable
    sort_stable-IsSorted [] = tt
    sort_stable-IsSorted (x ∷ xs) =
        insert_sorted-IsSorted x (sort_stable xs) (sort_stable-IsSorted xs)

  pub filter-IsSorted : (p : A → Bool) (xs : List A) → IsSorted xs → IsSorted (filter p xs)
  filter-IsSorted p [] s = tt
  filter-IsSorted p (x ∷ xs) s = elim (Bool-cases (p x)) [
    | inl e ↦ rw e (All-filter (λ y. less y x ≡ false) p xs s.0, filter-IsSorted p xs s.1)
    | inr e ↦ rw e (filter-IsSorted p xs s.1)
  ]
