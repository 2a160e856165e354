-- ===== src/Base/Dict.antt =====
-- Go maps as association lists. No operation depends on the order of the entries.
use mathlib.Core.Path.{◌≡◌, refl}
use mathlib.Core.List.{List, [], ◌∷◌}
use mathlib.Core.Option.{Option, none, some}
use native.Mathlib.Omega.{arith}
use ccx.Base.Tests.{MapKey, ◌==◌, if◌then◌else◌}

abbrev pub Dict {ℓ κ} : Type ℓ → Type κ → Type (ℓ ⊔ κ)
Dict K V = List (K × V)

module _ {ℓ κ} {K : Type ℓ} {V : Type κ} ⦃e : MapKey K⦄ where
  unfoldable pub lookup : K → Dict K V → Option V
  lookup k [] = none
  lookup k ((j, v) ∷ m) = if j == k then some v else lookup k m

  -- `m[k] = v`
  unfoldable pub insert : K → V → Dict K V → Dict K V
  insert k v [] = (k, v) ∷ []
  insert k v ((j, w) ∷ m) = if j == k then (k, v) ∷ m else (j, w) ∷ insert k v m

  -- `delete(m, k)`
  unfoldable pub delete : K → Dict K V → Dict K V
  delete k [] = []
  delete k ((j, w) ∷ m) = let rest = delete k m in if j == k then rest else (j, w) ∷ rest

  -- No key twice.
  abbrev pub IsDistinct : Dict K V → Type κ
  IsDistinct [] = Unit
  IsDistinct ((k, v) ∷ m) = (lookup k m ≡ none) × IsDistinct m

  pub lookup-insert :
      (key other : K) (new : V) (d : Dict K V)
      → lookup other (insert key new d) ≡ (if key == other then some new else lookup other d)
  unfolding insert lookup
  lookup-insert key other new [] = refl
  lookup-insert key other new ((first, old) ∷ rest) = ground (
    arith,
    e.is_same_iff key other,
    e.is_same_iff first key,
    e.is_same_iff first other,
    lookup-insert key other new rest,
  )

  pub lookup-delete :
      (k j : K) (m : Dict K V) → lookup j (delete k m) ≡ (if k == j then none else lookup j m)
  unfolding lookup delete
  lookup-delete k j [] = ground arith
  lookup-delete k j ((i, w) ∷ m) =
      ground (arith, e.is_same_iff k j, e.is_same_iff i k, e.is_same_iff i j, lookup-delete k j m)

  pub insert-IsDistinct : (k : K) (v : V) (m : Dict K V) → IsDistinct m → IsDistinct (insert k v m)
  unfolding lookup insert
  insert-IsDistinct k v [] h = (refl, tt)
  insert-IsDistinct k v ((i, w) ∷ m) h = ground (
    arith,
    e.is_same_iff i k,
    e.is_same_iff k i,
    lookup-insert k i v m,
    insert-IsDistinct k v m h.1,
  )

  pub delete-IsDistinct : (k : K) (m : Dict K V) → IsDistinct m → IsDistinct (delete k m)
  unfolding lookup delete
  delete-IsDistinct k [] h = tt
  delete-IsDistinct k ((i, w) ∷ m) h =
      ground (arith, e.is_same_iff i k, lookup-delete k i m, delete-IsDistinct k m h.1)

-- `for k, v := range m` with a `delete` or a new value for some of the entries.
module _ {ℓ κ} {K : Type ℓ} {V : Type κ} where
  unfoldable pub update_all : (K → V → Option V) → Dict K V → Dict K V
  update_all f [] = []
  update_all f ((k, v) ∷ m) =
      let rest = update_all f m in elim (f k v) [ none ↦ rest | some w ↦ (k, w) ∷ rest ]

abbrev pub bind {ℓ κ} : {A : Type ℓ} {B : Type κ} → Option A → (A → Option B) → Option B
bind none f = none
bind (some a) f = f a

module _ {ℓ κ} {K : Type ℓ} {V : Type κ} ⦃e : MapKey K⦄ where
  pub lookup-update_all-none :
      (f : K → V → Option V) (k : K) (m : Dict K V)
      → lookup k m ≡ none
      → lookup k (update_all f m) ≡ none
  unfolding lookup update_all
  lookup-update_all-none f k [] h = refl
  lookup-update_all-none f k ((i, w) ∷ m) h = ground (arith, lookup-update_all-none f k m)

  pub lookup-update_all :
      (f : K → V → Option V) (k : K) (m : Dict K V)
      → IsDistinct m
      → lookup k (update_all f m) ≡ bind (lookup k m) (f k)
  unfolding lookup update_all
  lookup-update_all f k [] h = refl
  lookup-update_all f k ((i, w) ∷ m) h =
      ground (arith, e.is_same_iff i k, lookup-update_all f k m h.1, lookup-update_all-none f k m)

  pub update_all-IsDistinct :
      (f : K → V → Option V) (m : Dict K V) → IsDistinct m → IsDistinct (update_all f m)
  unfolding update_all
  update_all-IsDistinct f [] h = tt
  update_all-IsDistinct f ((i, w) ∷ m) h =
      ground (arith, lookup-update_all-none f i m h.0, update_all-IsDistinct f m h.1)
