-- ===== src/Deletion/Rows.antt =====
-- Predicates on every row of a table, and the updates and deletes that keep them.
use lifeflow.Prelude.{
  Bool, true, false, ◌≡◌, refl, String, List, [], ◌∷◌, ◌++◌, ◌||◌, Option, none, some, map, find?,
  select, contains, subst, arith, if-cases, Eq, string_eq,
}
use lifeflow.Deletion.Tables.{meets, survivors}

abbrev pub All {ℓ κ} : {A : Type ℓ} (P : A → Type κ) → List A → Type κ
All P [] = Unit
All P (x ∷ xs) = P x × All P xs

module _ {ℓ κ} {A : Type ℓ} (P : A → Type κ) where
  pub All-imp {μ} : (Q : A → Type μ) → ((x : A) → P x → Q x) → (xs : List A) → All P xs → All Q xs
  All-imp Q f [] a = tt
  All-imp Q f (x ∷ xs) (p, a) = (f x p, All-imp Q f xs a)

  pub All-both {μ ν} :
      (Q : A → Type μ) (R : A → Type ν)
      → ((x : A) → P x → Q x → R x)
      → (xs : List A) → All P xs
      → All Q xs
      → All R xs
  All-both Q R f [] a b = tt
  All-both Q R f (x ∷ xs) (p, a) (q, b) = (f x p q, All-both Q R f xs a b)

  pub All-map {μ ν} :
      {B : Type μ} (Q : B → Type ν) (g : A → B)
      → ((x : A) → P x → Q (g x))
      → (xs : List A) → All P xs
      → All Q (map g xs)
  All-map Q g f [] a = tt
  All-map Q g f (x ∷ xs) (p, a) = (f x p, All-map Q g f xs a)

  pub All-append : (xs ys : List A) → All P xs → All P ys → All P (xs ++ ys)
  All-append [] ys a b = b
  All-append (x ∷ xs) ys (p, a) b = (p, All-append xs ys a b)

  -- What a `DELETE` leaves has not met its test.
  pub All-select {μ} :
      (Q : A → Type μ) (keep : A → Bool)
      → ((x : A) → keep x ≡ true → P x → Q x)
      → (xs : List A) → All P xs
      → All Q (select keep xs)
  All-select Q keep f [] a = tt
  All-select Q keep f (x ∷ xs) (p, a) =
      if-cases (All Q) (keep x) (λ e. (f x e p, All-select Q keep f xs a))
        (λ e. All-select Q keep f xs a)

module _ {ℓ} {A : Type ℓ} where
  pub select-All :
      (keep : A → Bool) (xs : List A) → All (λ x. keep x ≡ true) xs → select keep xs ≡ xs
  select-All keep [] a = refl
  select-All keep (x ∷ xs) (e, a) = ground (arith, select-All keep xs a)

  pub map-same {κ} :
      {B : Type κ} (f g : A → B) (xs : List A) → All (λ x. f x ≡ g x) xs → map f xs ≡ map g xs
  map-same f g [] a = refl
  map-same f g (x ∷ xs) (e, a) = rw (e, map-same f g xs a)

  pub find?-none : (p : A → Bool) (xs : List A) → find? p xs ≡ none → All (λ x. p x ≡ false) xs
  find?-none p [] h = tt
  find?-none p (x ∷ xs) h = ground (arith, find?-none p xs)

pub contains-append {ℓ} :
    {A : Type ℓ} ⦃e : Eq A⦄ (xs ys : List A) (a : A)
    → contains (xs ++ ys) a ≡ (contains xs a || contains ys a)
contains-append [] ys a = refl
contains-append (x ∷ xs) ys a = ground (arith, contains-append xs ys a)

-- The row that a query finds.
module _ {ℓ κ} {A : Type ℓ} (P : A → Type κ) (p : A → Bool) where
  abbrev Found : Option A → Type κ
  Found none = Unit
  Found (some x) = P x × (p x ≡ true)

  find?-Found : (xs : List A) → All P xs → Found (find? p xs)
  find?-Found [] a = tt
  find?-Found (x ∷ xs) (h, a) = if-cases Found (p x) (λ e. (h, e)) (λ e. find?-Found xs a)

  pub find?-All : (xs : List A) {x : A} → All P xs → find? p xs ≡ some x → P x × (p x ≡ true)
  find?-All xs a h = subst Found h (find?-Found xs a)

-- No surviving reference is a removed one.
abbrev pub Apart : List String → List String → Type 0
Apart removed surviving = (r : String) → contains surviving r ≡ true → contains removed r ≡ false

pub survivors-meets :
    (removed surviving : List String)
    → Apart removed surviving
    → (refs : List String) → meets (survivors surviving refs) removed ≡ false
survivors-meets removed surviving apart [] = refl
survivors-meets removed surviving apart (r ∷ refs) =
    ground (arith, survivors-meets removed surviving apart refs, apart r)
