-- ===== src/Base/Table.antt =====
-- A table as a list of rows, and what a statement does to it: select, update, delete and the first
-- row of a result.
use mathlib.Core.Path.{◌≡◌, refl}
use mathlib.Core.Logic.{inl, inr}
use mathlib.Core.Bool.{Bool, true, false, ◌&&◌}
use mathlib.Core.Option.{Option, none, some}
use mathlib.Core.List.{List, [], ◌∷◌, ◌++◌, map, Perm, perm_middle}
use mathlib.Core.List.Perm
use native.Mathlib.Omega.{arith}
use ovp_data_api.Base.Tests.{if◌then◌else◌, Bool-cases}
use ovp_data_api.Base.Lists.{All, any}

module _ {ℓ} {A : Type ℓ} where
  -- SELECT … WHERE p
  unfoldable pub select : (A → Bool) → List A → List A
  select p [] = []
  select p (x ∷ xs) = if p x then x ∷ select p xs else select p xs

  -- DELETE … WHERE p
  unfoldable pub delete : (A → Bool) → List A → List A
  delete p [] = []
  delete p (x ∷ xs) = if p x then delete p xs else x ∷ delete p xs

  -- UPDATE … SET f WHERE p
  unfoldable pub update : (A → Bool) → (A → A) → List A → List A
  update p f [] = []
  update p f (x ∷ xs) = (if p x then f x else x) ∷ update p f xs

  unfoldable pub first : List A → Option A
  first [] = none
  first (x ∷ xs) = some x

  pub All-select : (p : A → Bool) (xs : List A) → All (λ x. p x ≡ true) (select p xs)
  unfolding select
  All-select p [] = tt
  All-select p (x ∷ xs) = elim (Bool-cases (p x)) [
    | inl e ↦ rw e (e, All-select p xs)
    | inr e ↦ rw e (All-select p xs)
  ]

  -- Every row is selected or left.
  pub select-delete-perm : (p : A → Bool) (xs : List A) → Perm (select p xs ++ delete p xs) xs
  unfolding select delete
  select-delete-perm p [] = Perm.rfl
  select-delete-perm p (x ∷ xs) = elim (Bool-cases (p x)) [
    | inl e ↦ rw e (Perm.cons x (select-delete-perm p xs))
    | inr e ↦ rw e (
        Perm.trans (perm_middle (select p xs) (delete p xs))
          (Perm.cons x (select-delete-perm p xs)))
  ]

  -- No row that `p` selects is left after its deletion.
  pub select-delete : (p : A → Bool) (xs : List A) → select p (delete p xs) ≡ []
  unfolding select delete
  select-delete p [] = refl
  select-delete p (x ∷ xs) = ground (arith, select-delete p xs)

  -- A deletion keeps the rows of another selection.
  pub select-delete_other :
      (p q : A → Bool) (xs : List A)
      → ((x : A) → q x ≡ true → p x ≡ false)
      → select q (delete p xs) ≡ select q xs
  unfolding select delete
  select-delete_other p q [] h = refl
  select-delete_other p q (x ∷ xs) h = ground (arith, select-delete_other p q xs h, h x)

  pub any-delete : (p : A → Bool) (xs : List A) → any p (delete p xs) ≡ false
  unfolding delete
  any-delete p [] = refl
  any-delete p (x ∷ xs) = ground (arith, any-delete p xs)

  pub All-delete {κ} :
      (P : A → Type κ) (p : A → Bool) (xs : List A) → All P xs → All P (delete p xs)
  unfolding delete
  All-delete P p [] h = h
  All-delete P p (x ∷ xs) h = elim (Bool-cases (p x)) [
    | inl e ↦ rw e (All-delete P p xs h.1)
    | inr e ↦ rw e (h.0, All-delete P p xs h.1)
  ]

  pub All-delete_unselected : (p : A → Bool) (xs : List A) → All (λ x. p x ≡ false) (delete p xs)
  unfolding delete
  All-delete_unselected p [] = tt
  All-delete_unselected p (x ∷ xs) = elim (Bool-cases (p x)) [
    | inl e ↦ rw e (All-delete_unselected p xs)
    | inr e ↦ rw e (e, All-delete_unselected p xs)
  ]

  -- The rows that are left are those that the deletion does not select.
  pub All-delete-false {κ} :
      (P : A → Type κ) (p : A → Bool) (xs : List A)
      → All P xs
      → All (λ x. (p x ≡ false) × P x) (delete p xs)
  unfolding delete
  All-delete-false P p [] h = tt
  All-delete-false P p (x ∷ xs) h = elim (Bool-cases (p x)) [
    | inl e ↦ rw e (All-delete-false P p xs h.1)
    | inr e ↦ rw e ((e, h.0), All-delete-false P p xs h.1)
  ]

  -- A row that is looked for is left where no row that goes is looked for.
  pub any-delete_other :
      (p q : A → Bool) (xs : List A)
      → any q xs ≡ true
      → any (λ x. p x && q x) xs ≡ false
      → any q (delete p xs) ≡ true
  unfolding delete
  any-delete_other p q [] h k = h
  any-delete_other p q (x ∷ xs) h k = ground (arith, any-delete_other p q xs)

  pub any-append_left : (p : A → Bool) (xs ys : List A) → any p xs ≡ true → any p (xs ++ ys) ≡ true
  any-append_left p [] ys h = cc
  any-append_left p (x ∷ xs) ys h = ground (arith, any-append_left p xs ys)

  pub All-update {κ} :
      (P : A → Type κ) (p : A → Bool) (f : A → A) (xs : List A)
      → ((x : A) → p x ≡ true → P x → P (f x))
      → All P xs
      → All P (update p f xs)
  unfolding update
  All-update P p f [] k h = h
  All-update P p f (x ∷ xs) k h = elim (Bool-cases (p x)) [
    | inl e ↦ rw e (k x e h.0, All-update P p f xs k h.1)
    | inr e ↦ rw e (h.0, All-update P p f xs k h.1)
  ]

  pub select-append :
      (p : A → Bool) (xs ys : List A) → select p (xs ++ ys) ≡ select p xs ++ select p ys
  unfolding select
  select-append p [] ys = refl
  select-append p (x ∷ xs) ys = ground (arith, select-append p xs ys)

  pub update-append :
      (p : A → Bool) (f : A → A) (xs ys : List A)
      → update p f (xs ++ ys) ≡ update p f xs ++ update p f ys
  unfolding update
  update-append p f [] ys = refl
  update-append p f (x ∷ xs) ys = ground (arith, update-append p f xs ys)

  -- An update of no row changes nothing.
  pub update_none : (p : A → Bool) (f : A → A) (xs : List A) → select p xs ≡ [] → update p f xs ≡ xs
  unfolding select update
  update_none p f [] h = refl
  update_none p f (x ∷ xs) h = ground (arith, update_none p f xs)

  pub any-select : (p : A → Bool) (xs : List A) → any p xs ≡ false → select p xs ≡ []
  unfolding select
  any-select p [] h = refl
  any-select p (x ∷ xs) h = ground (arith, any-select p xs)

  pub select_one : (p : A → Bool) (x : A) → p x ≡ true → select p (x ∷ []) ≡ x ∷ []
  unfolding select
  select_one p x h = rw h

  pub update_one : (p : A → Bool) (f : A → A) (x : A) → p x ≡ true → update p f (x ∷ []) ≡ f x ∷ []
  unfolding update
  update_one p f x h = rw h

  pub select-update :
      (p : A → Bool) (f : A → A) (xs : List A)
      → ((x : A) → p x ≡ true → p (f x) ≡ true)
      → select p (update p f xs) ≡ map f (select p xs)
  unfolding select update
  select-update p f [] keeps = refl
  select-update p f (x ∷ xs) keeps = ground (arith, keeps x, select-update p f xs keeps)
