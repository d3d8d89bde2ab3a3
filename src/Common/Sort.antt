-- ===== src/Common/Sort.antt =====
-- JavaScript's `sort(cmp)`, which is stable since ES2019: an insertion sort that places an item
-- before the first item that the comparator does not put strictly before it.
use Prim.Native.Nat.{ℕ, suc, ◌+◌}
use mathlib.Core.Path.{◌≡◌, refl, ap, subst, ◌∙◌}
use mathlib.Core.Logic.{◌⊎◌, inl, inr, ◌↔◌}
use mathlib.Core.Bool.{Bool, true, false}
use mathlib.Core.List.{List, [], ◌∷◌, Perm}
use mathlib.Core.List.Perm
use native.Mathlib.Omega.{arith}
use donnav.Common.Tests.{if◌then◌else◌, Bool-cases}
use donnav.Common.Lists.{All, All-In, In, sum_by, length}
use donnav.Common.Int.{ℤ, pos, leb_ℤ}

module _ {ℓ} {A : Type ℓ} where
  -- `cmp(a, b) <= 0`: `a` may stand before `b`.
  abbrev pub before : (A → A → ℤ) → A → A → Bool
  before cmp a b = leb_ℤ (cmp a b) (pos 0)

  pub insert_by : (A → A → ℤ) → A → List A → List A
  insert_by cmp a [] = a ∷ []
  insert_by cmp a (x ∷ xs) =
      let rest = insert_by cmp a xs in if before cmp a x then a ∷ x ∷ xs else x ∷ rest

  unfoldable pub sort_by : (A → A → ℤ) → List A → List A
  unfolding insert_by
  sort_by cmp [] = []
  sort_by cmp (x ∷ xs) = insert_by cmp x (sort_by cmp xs)

  -- Each item may stand before all that follow it.
  abbrev pub IsSorted : (A → A → ℤ) → List A → Type 0
  IsSorted cmp [] = Unit
  IsSorted cmp (x ∷ xs) = All (λ y. before cmp x y ≡ true) xs × IsSorted cmp xs

  insert_by-perm : (cmp : A → A → ℤ) (a : A) (xs : List A) → Perm (insert_by cmp a xs) (a ∷ xs)
  unfolding insert_by
  insert_by-perm cmp a [] = Perm.refl (a ∷ [])
  insert_by-perm cmp a (x ∷ xs) = elim (Bool-cases (before cmp a x)) [
    | inl e ↦ rw e (Perm.refl _)
    | inr e ↦ rw e (Perm.trans (Perm.cons x (insert_by-perm cmp a xs)) (Perm.swap a x xs))
  ]

  -- Sorting rearranges the items.
  pub sort_by-perm : (cmp : A → A → ℤ) (xs : List A) → Perm (sort_by cmp xs) xs
  unfolding sort_by
  sort_by-perm cmp [] = Perm.refl []
  sort_by-perm cmp (x ∷ xs) =
      Perm.trans (insert_by-perm cmp x (sort_by cmp xs)) (Perm.cons x (sort_by-perm cmp xs))

  insert_by-All :
      (P : A → Type 0) (cmp : A → A → ℤ) (a : A) (xs : List A)
      → P a
      → All P xs
      → All P (insert_by cmp a xs)
  unfolding insert_by
  insert_by-All P cmp a [] p h = (p, tt)
  insert_by-All P cmp a (x ∷ xs) p h = ground (arith, insert_by-All P cmp a xs p h.1)

  -- What holds of every item holds of every item of the sorted list.
  pub sort_by-All :
      (P : A → Type 0) (cmp : A → A → ℤ) (xs : List A) → All P xs → All P (sort_by cmp xs)
  unfolding sort_by
  sort_by-All P cmp [] h = tt
  sort_by-All P cmp (x ∷ xs) h =
      insert_by-All P cmp x (sort_by cmp xs) h.0 (sort_by-All P cmp xs h.1)

  insert_by-ne_nil : (cmp : A → A → ℤ) (a : A) (xs : List A) → ¬ (insert_by cmp a xs ≡ [])
  unfolding insert_by
  insert_by-ne_nil cmp a [] h = cc
  insert_by-ne_nil cmp a (x ∷ xs) h = ground arith

  pub sort_by-ne_nil : (cmp : A → A → ℤ) (xs : List A) → sort_by cmp xs ≡ [] → xs ≡ []
  unfolding sort_by
  sort_by-ne_nil cmp [] h = refl
  sort_by-ne_nil cmp (x ∷ xs) h = absurd (insert_by-ne_nil cmp x (sort_by cmp xs) h)

  length-insert_by :
      (cmp : A → A → ℤ) (a : A) (xs : List A) → length (insert_by cmp a xs) ≡ suc (length xs)
  unfolding insert_by
  length-insert_by cmp a [] = refl
  length-insert_by cmp a (x ∷ xs) = ground (arith, length-insert_by cmp a xs)

  pub length-sort_by : (cmp : A → A → ℤ) (xs : List A) → length (sort_by cmp xs) ≡ length xs
  unfolding sort_by
  length-sort_by cmp [] = refl
  length-sort_by cmp (x ∷ xs) =
      length-insert_by cmp x (sort_by cmp xs) ∙ ap suc (length-sort_by cmp xs)

-- A comparator that `sort` may be called with: of two items one may stand first, and
-- "may stand before" is transitive.
pub record IsOrder {ℓ} {A : Type ℓ} (cmp : A → A → ℤ) : Type ℓ where
  pub total : (a b : A) → before cmp a b ≡ false → before cmp b a ≡ true
  pub trans : (a b c : A) → before cmp a b ≡ true → before cmp b c ≡ true → before cmp a c ≡ true

module _ {ℓ} {A : Type ℓ} {cmp : A → A → ℤ} (order : IsOrder cmp) where
  All-before :
      (a x : A) (xs : List A)
      → before cmp a x ≡ true
      → All (λ y. before cmp x y ≡ true) xs
      → All (λ y. before cmp a y ≡ true) xs
  All-before a x [] e h = tt
  All-before a x (y ∷ ys) e h = (order.trans a x y e h.0, All-before a x ys e h.1)

  insert_by-IsSorted : (a : A) (xs : List A) → IsSorted cmp xs → IsSorted cmp (insert_by cmp a xs)
  unfolding insert_by
  insert_by-IsSorted a [] h = (tt, tt)
  insert_by-IsSorted a (x ∷ xs) h = elim (Bool-cases (before cmp a x)) [
    | inl e ↦ rw e ((e, All-before a x xs e h.0), h)
    | inr e ↦ rw e (
      insert_by-All (λ y. before cmp x y ≡ true) cmp a xs (order.total a x e) h.0,
      insert_by-IsSorted a xs h.1,
    )
  ]

  -- The sorted list is in order.
  pub sort_by-IsSorted : (xs : List A) → IsSorted cmp (sort_by cmp xs)
  unfolding sort_by
  sort_by-IsSorted [] = tt
  sort_by-IsSorted (x ∷ xs) = insert_by-IsSorted x (sort_by cmp xs) (sort_by-IsSorted xs)

module _ {A : Type 0} where
  In-insert_by :
      (cmp : A → A → ℤ) (b a : A) (xs : List A) → In b (insert_by cmp a xs) ↔ ((b ≡ a) ⊎ In b xs)
  unfolding insert_by
  In-insert_by cmp b a [] = (λ h. h, λ h. h)
  In-insert_by cmp b a (x ∷ xs) = ground (arith, In-insert_by cmp b a xs)

  pub In-sort_by : (cmp : A → A → ℤ) (b : A) (xs : List A) → In b (sort_by cmp xs) ↔ In b xs
  unfolding sort_by
  In-sort_by cmp b [] = (λ h. h, λ h. h)
  In-sort_by cmp b (x ∷ xs) =
      ground (arith, In-insert_by cmp b x (sort_by cmp xs), In-sort_by cmp b xs)

-- The first item of a sorted list stands before every item of the list that was sorted.
module _ {A : Type 0} {cmp : A → A → ℤ} (order : IsOrder cmp) where
  pub sort_by-head :
      (xs : List A) (x : A) (rest : List A) (b : A)
      → sort_by cmp xs ≡ x ∷ rest
      → In b xs
      → (b ≡ x) ⊎ (before cmp x b ≡ true)
  sort_by-head xs x rest b e i = place ((In-sort_by cmp b xs).1 i)
    where
      sorted : IsSorted cmp (x ∷ rest)
      sorted = subst (IsSorted cmp) e (sort_by-IsSorted order xs)

      place : In b (sort_by cmp xs) → (b ≡ x) ⊎ (before cmp x b ≡ true)
      place j = elim (subst (In b) e j) [
        | inl p ↦ inl p
        | inr k ↦ inr (All-In (λ y. before cmp x y ≡ true) rest sorted.0 k)
      ]

module _ {ℓ} {A : Type ℓ} (f : A → ℕ) where
  sum_by-insert_by :
      (cmp : A → A → ℤ) (a : A) (xs : List A) → sum_by f (insert_by cmp a xs) ≡ f a + sum_by f xs
  unfolding insert_by
  sum_by-insert_by cmp a [] = refl
  sum_by-insert_by cmp a (x ∷ xs) = elim (Bool-cases (before cmp a x)) [
    | inl e ↦ rw e refl
    | inr e ↦ rw e (omega (arith, sum_by-insert_by cmp a xs))
  ]

  pub sum_by-sort_by : (cmp : A → A → ℤ) (xs : List A) → sum_by f (sort_by cmp xs) ≡ sum_by f xs
  unfolding sort_by
  sum_by-sort_by cmp [] = refl
  sum_by-sort_by cmp (x ∷ xs) =
      omega (arith, sum_by-insert_by cmp x (sort_by cmp xs), sum_by-sort_by cmp xs)
