-- ===== src/Base/Keys.antt =====
-- Rows no two of which a test takes for the same, as the key of a table demands.
use mathlib.Core.Path.{◌≡◌, refl, ap, ◌∙◌, fun_ext}
use mathlib.Core.Logic.{inl, inr}
use mathlib.Core.Bool.{Bool, true, false}
use mathlib.Core.List.{List, [], ◌∷◌, ◌++◌}
use native.Mathlib.Omega.{arith}
use ovp_data_api.Base.Lists.{any}
use ovp_data_api.Base.Table.{select, delete, update}
use ovp_data_api.Base.Tests.{Bool-cases}

module _ {ℓ} {A : Type ℓ} where
  any-append_false :
      (p : A → Bool) (xs : List A) (y : A)
      → any p xs ≡ false
      → p y ≡ false
      → any p (xs ++ y ∷ []) ≡ false
  any-append_false p [] y h k = rw k refl
  any-append_false p (x ∷ xs) y h k = ground (arith, any-append_false p xs y)

  any-delete-false : (q p : A → Bool) (xs : List A) → any q xs ≡ false → any q (delete p xs) ≡ false
  unfolding delete
  any-delete-false q p [] h = refl
  any-delete-false q p (x ∷ xs) h = ground (arith, any-delete-false q p xs)

  any-select-false : (q p : A → Bool) (xs : List A) → any q xs ≡ false → any q (select p xs) ≡ false
  unfolding select
  any-select-false q p [] h = refl
  any-select-false q p (x ∷ xs) h = ground (arith, any-select-false q p xs)

  pub any-update :
      (q p : A → Bool) (f : A → A) (xs : List A)
      → ((x : A) → p x ≡ true → q (f x) ≡ q x)
      → any q (update p f xs) ≡ any q xs
  unfolding update
  any-update q p f [] keeps = refl
  any-update q p f (x ∷ xs) keeps = ground (arith, keeps x, any-update q p f xs keeps)

  module _ (same : A → A → Bool) where
    abbrev pub Unique : List A → Type 0
    Unique [] = Unit
    Unique (x ∷ xs) = (any (same x) xs ≡ false) × Unique xs

    pub Unique-append :
        (xs : List A) (y : A) → any (λ x. same x y) xs ≡ false → Unique xs → Unique (xs ++ y ∷ [])
    Unique-append [] y h u = (refl, tt)
    Unique-append (x ∷ xs) y h u =
        (any-append_false (same x) xs y u.0 (ground arith), Unique-append xs y (ground arith) u.1)

    pub Unique-delete : (p : A → Bool) (xs : List A) → Unique xs → Unique (delete p xs)
    unfolding delete
    Unique-delete p [] u = u
    Unique-delete p (x ∷ xs) u = elim (Bool-cases (p x)) [
      | inl e ↦ rw e (Unique-delete p xs u.1)
      | inr e ↦ rw e (any-delete-false (same x) p xs u.0, Unique-delete p xs u.1)
    ]

    pub Unique-select : (p : A → Bool) (xs : List A) → Unique xs → Unique (select p xs)
    unfolding select
    Unique-select p [] u = u
    Unique-select p (x ∷ xs) u = elim (Bool-cases (p x)) [
      | inl e ↦ rw e (any-select-false (same x) p xs u.0, Unique-select p xs u.1)
      | inr e ↦ rw e (Unique-select p xs u.1)
    ]

    -- An update that leaves alone what the test looks at.
    pub Unique-update :
        (p : A → Bool) (f : A → A) (xs : List A)
        → ((x y : A) → p x ≡ true → same (f x) y ≡ same x y)
        → ((x y : A) → p y ≡ true → same x (f y) ≡ same x y)
        → Unique xs
        → Unique (update p f xs)
    unfolding update
    Unique-update p f [] left right u = u
    Unique-update p f (x ∷ xs) left right u = elim (Bool-cases (p x)) [
      | inl e ↦ rw e (
        any-update (same (f x)) p f xs (λ y k. right (f x) y k)
            ∙ (ap (λ q. any q xs) (fun_ext (λ y. left x y e)) ∙ u.0),
        Unique-update p f xs left right u.1,
      )
      | inr e ↦ rw e (
        any-update (same x) p f xs (λ y k. right x y k) ∙ u.0,
        Unique-update p f xs left right u.1,
      )
    ]
