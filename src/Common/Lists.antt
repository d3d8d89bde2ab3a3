-- ===== src/Common/Lists.antt =====
-- Lists measured by native numbers, under the library's names, and predicates on their items.
use Prim.Native.Nat.{ℕ, zero, suc, ◌+◌}
use mathlib.Core.Path.{◌≡◌, refl, sym, ap, subst, ◌∙◌}
use mathlib.Core.List.{List, [], ◌∷◌, ◌++◌, map}
use mathlib.Core.Logic.{◌↔◌, ◌⊎◌, inl, inr}
use native.Mathlib.Omega.{arith}

module _ {ℓ} {A : Type ℓ} where
  abbrev pub length : List A → ℕ
  length [] = 0
  length (x ∷ xs) = suc (length xs)

  -- `xs.slice(0, n)`
  abbrev pub take : ℕ → List A → List A
  take zero xs = []
  take (suc n) [] = []
  take (suc n) (x ∷ xs) = x ∷ take n xs

  pub length-append : (xs ys : List A) → length (xs ++ ys) ≡ length xs + length ys
  length-append [] ys = omega arith
  length-append (x ∷ xs) ys = omega (arith, length-append xs ys)

  pub append-nil_lem : (xs : List A) → xs ++ [] ≡ xs
  append-nil_lem [] = refl
  append-nil_lem (x ∷ xs) = ap (◌∷◌ x) (append-nil_lem xs)

  pub append_assoc_lem : (xs ys zs : List A) → (xs ++ ys) ++ zs ≡ xs ++ (ys ++ zs)
  append_assoc_lem [] ys zs = refl
  append_assoc_lem (x ∷ xs) ys zs = ap (◌∷◌ x) (append_assoc_lem xs ys zs)

module _ {ℓ κ} {A : Type ℓ} where
  abbrev pub All : (A → Type κ) → List A → Type κ
  All P [] = Unit
  All P (x ∷ xs) = P x × All P xs

  pub All-append : (P : A → Type κ) (xs ys : List A) → All P xs → All P ys → All P (xs ++ ys)
  All-append P [] ys h k = k
  All-append P (x ∷ xs) ys h k = (h.0, All-append P xs ys h.1 k)

-- `a` occurs in the list; the evidence is the place. Items are values of small types.
abbrev pub In : {A : Type 0} → A → List A → Type 0
In a [] = ⊥
In a (x ∷ xs) = (a ≡ x) ⊎ In a xs

module _ {κ} {A : Type 0} where
  pub All-In : (P : A → Type κ) (xs : List A) {a : A} → All P xs → In a xs → P a
  All-In P [] h i = absurd i
  All-In P (x ∷ xs) h (inl e) = subst P (sym e) h.0
  All-In P (x ∷ xs) h (inr i) = All-In P xs h.1 i

  pub All-of_In : (P : A → Type κ) (xs : List A) → ((a : A) → In a xs → P a) → All P xs
  All-of_In P [] h = tt
  All-of_In P (x ∷ xs) h = (h x (inl refl), All-of_In P xs (λ a i. h a (inr i)))

module _ {A B : Type 0} where
  In-map_forth :
      (f : A → B) (b : B) (x : A) (xs : List A)
      → (In b (map f xs) → (a : A) × In a xs × (b ≡ f a))
      → In b (map f (x ∷ xs))
      → (a : A) × In a (x ∷ xs) × (b ≡ f a)
  In-map_forth f b x xs ih (inl e) = (x, inl refl, e)
  In-map_forth f b x xs ih (inr i) = let (a, j, e) = ih i in (a, inr j, e)

  In-map_back :
      (f : A → B) (b : B) (x : A) (xs : List A)
      → ((a : A) × In a xs × (b ≡ f a) → In b (map f xs))
      → (a : A) × In a (x ∷ xs) × (b ≡ f a)
      → In b (map f (x ∷ xs))
  In-map_back f b x xs ih (a, inl p, e) = inl (e ∙ ap f p)
  In-map_back f b x xs ih (a, inr i, e) = inr (ih (a, i, e))

  pub In-map : (f : A → B) (b : B) (xs : List A) → In b (map f xs) ↔ ((a : A) × In a xs × (b ≡ f a))
  In-map f b [] = (λ h. absurd h, λ h. absurd h.1)
  In-map f b (x ∷ xs) =
      (In-map_forth f b x xs (In-map f b xs).0, In-map_back f b x xs (In-map f b xs).1)

pub List-cases {ℓ} :
    {A : Type ℓ} (xs : List A) → (xs ≡ []) ⊎ ((x : A) × (rest : List A) × (xs ≡ x ∷ rest))
List-cases [] = inl refl
List-cases (x ∷ xs) = inr (x, xs, refl)

pub nil_of_none : {A : Type 0} (xs : List A) → ((a : A) → ¬ In a xs) → xs ≡ []
nil_of_none [] n = refl
nil_of_none (x ∷ xs) n = absurd (n x (inl refl))

-- The sum of a measure over the items.
abbrev pub sum_by {ℓ} : {A : Type ℓ} → (A → ℕ) → List A → ℕ
sum_by f [] = 0
sum_by f (x ∷ xs) = f x + sum_by f xs

pub sum_by-append {ℓ} :
    {A : Type ℓ} (f : A → ℕ) (xs ys : List A) → sum_by f (xs ++ ys) ≡ sum_by f xs + sum_by f ys
sum_by-append f [] ys = omega arith
sum_by-append f (x ∷ xs) ys = omega (arith, sum_by-append f xs ys)

pub In-snoc : {A : Type 0} (a b : A) (xs : List A) → In a (xs ++ b ∷ []) ↔ (In a xs ⊎ (a ≡ b))
In-snoc a b [] = ground arith
In-snoc a b (x ∷ xs) = ground (arith, In-snoc a b xs)
