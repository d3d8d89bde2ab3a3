-- ===== src/Common/Arrays.antt =====
-- The methods of JavaScript's arrays that the program calls: `includes`, `filter`, `every`.
use mathlib.Core.Path.{◌≡◌, refl, sym, subst}
use mathlib.Core.Logic.{◌↔◌, inl, inr}
use mathlib.Core.Bool.{Bool, true, false, ◌&&◌, ◌||◌}
use mathlib.Core.List.{List, [], ◌∷◌, ◌++◌, map}
use mathlib.Core.Option
use mathlib.Core.Option.{Option, none, some}
use native.Mathlib.Omega.{arith}
use donnav.Common.Tests.{Option-cases, string_eq, Eq, ◌==◌, if◌then◌else◌}
use Prim.Native.String.{String}
use donnav.Common.Int.{ℤ, pos, negsuc}
use Prim.Native.Nat.{suc}
use donnav.Common.Lists.{In-map, In, All}

module _ {ℓ} {A : Type ℓ} where
  -- `xs.filter(p)`
  abbrev pub filter : (A → Bool) → List A → List A
  filter p [] = []
  filter p (x ∷ xs) = let rest = filter p xs in if p x then x ∷ rest else rest

  -- `xs.every(p)`
  abbrev pub every : (A → Bool) → List A → Bool
  every p [] = true
  every p (x ∷ xs) = p x && every p xs

module _ {A : Type 0} where
  pub In-filter :
      (p : A → Bool) (a : A) (xs : List A) → In a (filter p xs) ↔ (In a xs × (p a ≡ true))
  In-filter p a [] = (λ h. absurd h, λ h. absurd h.0)
  In-filter p a (x ∷ xs) = ground (arith, In-filter p a xs)

  pub filter-All : (p : A → Bool) (xs : List A) → All (λ a. p a ≡ true) (filter p xs)
  filter-All p [] = tt
  filter-All p (x ∷ xs) = ground (arith, filter-All p xs)

module _ {A : Type 0} ⦃e : Eq A⦄ where
  -- `xs.includes(a)`
  abbrev pub includes : List A → A → Bool
  includes [] a = false
  includes (x ∷ xs) a = (a == x) || includes xs a

  pub includes_iff : (xs : List A) (a : A) → (includes xs a ≡ true) ↔ In a xs
  includes_iff [] a = (λ h. cc, λ h. absurd h)
  includes_iff (x ∷ xs) a = ground (arith, e.same_iff a x, includes_iff xs a)

  pub every-includes_iff :
      (xs ys : List A) → (every (includes ys) xs ≡ true) ↔ All (λ a. In a ys) xs
  every-includes_iff [] ys = (λ h. tt, λ h. refl)
  every-includes_iff (x ∷ xs) ys = ground (arith, includes_iff ys x, every-includes_iff xs ys)

-- `xs.indexOf(a)`
abbrev pub index_of {ℓ} : {A : Type ℓ} ⦃e : Eq A⦄ → List A → A → ℤ
index_of [] a = negsuc 0
index_of (x ∷ xs) a =
    if a == x then pos 0 else elim (index_of xs a) [ pos n ↦ pos (suc n) | negsuc n ↦ negsuc n ]

-- `(NAMES as readonly string[]).includes(value)`, where `NAMES` lists all values of an enum.
module _ {A : Type 0} (name : A → String) (listed : List A) (complete : (a : A) → In a listed) where
  pub named_iff : (s : String) → (includes (map name listed) s ≡ true) ↔ ((a : A) × (s ≡ name a))
  named_iff s = (
    λ h.
        let (a, _, e) = (In-map name s listed).0 ((includes_iff (map name listed) s).0 h) in (a, e),
    λ t. (includes_iff (map name listed) s).1 ((In-map name s listed).1 (t.0, complete t.0, t.1)),
  )

module _ {A : Type 0} where
  -- `xs.find(p)`
  abbrev pub find : (A → Bool) → List A → Option A
  find p [] = none
  find p (x ∷ xs) = let rest = find p xs in if p x then some x else rest

  pub find-snoc :
      (p : A → Bool) (xs : List A) (a : A)
      → find p xs ≡ none
      → p a ≡ true
      → find p (xs ++ a ∷ []) ≡ some a
  find-snoc p [] a h e = ground arith
  find-snoc p (x ∷ xs) a h e = ground (arith, find-snoc p xs a)

  -- A change of the items that the test does not see changes what is found, not where.
  pub find-map :
      (p : A → Bool) (f : A → A) (xs : List A)
      → ((a : A) → p (f a) ≡ p a)
      → find p (map f xs) ≡ Option.map f (find p xs)
  find-map p f [] h = refl
  find-map p f (x ∷ xs) h = ground (arith, h x, find-map p f xs h)

  pub find-filter :
      (p q : A → Bool) (xs : List A) → find q (filter p xs) ≡ find (λ a. p a && q a) xs
  find-filter p q [] = refl
  find-filter p q (x ∷ xs) = ground (arith, find-filter p q xs)

  pub find-accepts : (p : A → Bool) (xs : List A) (a : A) → find p xs ≡ some a → p a ≡ true
  find-accepts p [] a e = ground arith
  find-accepts p (x ∷ xs) a e = ground (arith, find-accepts p xs a)

  pub find-In : (p : A → Bool) (xs : List A) (a : A) → find p xs ≡ some a → In a xs
  find-In p [] a e = cc
  find-In p (x ∷ xs) a e = ground (arith, find-In p xs a)

  pub find-none :
      (p : A → Bool) (xs : List A) → ((a : A) → In a xs → p a ≡ false) → find p xs ≡ none
  find-none p [] n = refl
  find-none p (x ∷ xs) n = rw (n x (inl refl)) (find-none p xs (λ a i. n a (inr i)))

  pub find-absent :
      (p : A → Bool) (xs : List A) → find p xs ≡ none → (a : A) → In a xs → p a ≡ false
  find-absent p [] e a i = elim i [ ]
  find-absent p (x ∷ xs) e a (inl same) =
      subst (λ y. p y ≡ false) (sym same) (find-rejects p x xs e)
    where
      find-rejects : (p : A → Bool) (x : A) (xs : List A) → find p (x ∷ xs) ≡ none → p x ≡ false
      find-rejects p x xs e = ground arith
  find-absent p (x ∷ xs) e a (inr i) = find-absent p xs (later p x xs e) a i
    where
      later : (p : A → Bool) (x : A) (xs : List A) → find p (x ∷ xs) ≡ none → find p xs ≡ none
      later p x xs e = ground arith

  -- Where an item passes, one that passes is found.
  pub find-found :
      (p : A → Bool) (xs : List A) (a : A)
      → In a xs
      → p a ≡ true
      → (b : A) × (find p xs ≡ some b) × In b xs × (p b ≡ true)
  find-found p xs a i h = elim (Option-cases (find p xs)) [
    | inl e ↦ absurd (both (find-absent p xs e a i) h)
    | inr (b, e) ↦ (b, e, find-In p xs b e, find-accepts p xs b e)
  ]
    where
      both : {t : Bool} → t ≡ false → t ≡ true → ⊥
      both e f = cc
