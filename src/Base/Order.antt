-- ===== src/Base/Order.antt =====
-- ORDER BY: rows by a test that says which of two comes strictly before the other. Rows of which
-- neither does stay in the order of the table.
use mathlib.Core.Path.{◌≡◌, refl, ◌∙◌}
use mathlib.Core.Logic.{inl, inr}
use mathlib.Core.Bool.{Bool, true, false, ◌||◌}
use mathlib.Core.List.{List, [], ◌∷◌, Perm}
use mathlib.Core.List.Perm
use native.Mathlib.Omega.{arith}
use ovp_data_api.Base.Keys.{Unique}
use ovp_data_api.Base.Lists.{All, All-map, any}
use ovp_data_api.Base.Tests.{if◌then◌else◌, Bool-cases}

module _ {ℓ} {A : Type ℓ} (before : A → A → Bool) where
  unfoldable pub insert_by : A → List A → List A
  insert_by x [] = x ∷ []
  insert_by x (y ∷ ys) = if before y x then y ∷ insert_by x ys else x ∷ y ∷ ys

  unfoldable pub order_by : List A → List A
  unfolding insert_by
  order_by [] = []
  order_by (x ∷ xs) = insert_by x (order_by xs)

  -- No row comes before an earlier one.
  abbrev pub IsOrdered : List A → Type 0
  IsOrdered [] = Unit
  IsOrdered (x ∷ xs) = All (λ y. before y x ≡ false) xs × IsOrdered xs

  insert_by-perm : (x : A) (ys : List A) → Perm (insert_by x ys) (x ∷ ys)
  unfolding insert_by
  insert_by-perm x [] = Perm.rfl
  insert_by-perm x (y ∷ ys) = elim (Bool-cases (before y x)) [
    | inl e ↦ rw e (Perm.trans (Perm.cons y (insert_by-perm x ys)) (Perm.swap x y ys))
    | inr e ↦ rw e Perm.rfl
  ]

  pub order_by-perm : (xs : List A) → Perm (order_by xs) xs
  unfolding order_by
  order_by-perm [] = Perm.rfl
  order_by-perm (x ∷ xs) =
      Perm.trans (insert_by-perm x (order_by xs)) (Perm.cons x (order_by-perm xs))

  All-insert_by {κ} :
      (P : A → Type κ) (x : A) (ys : List A) → P x → All P ys → All P (insert_by x ys)
  unfolding insert_by
  All-insert_by P x [] h k = (h, tt)
  All-insert_by P x (y ∷ ys) h k = elim (Bool-cases (before y x)) [
    | inl e ↦ rw e (k.0, All-insert_by P x ys h k.1)
    | inr e ↦ rw e (h, k)
  ]

  pub All-order_by {κ} : (P : A → Type κ) (xs : List A) → All P xs → All P (order_by xs)
  unfolding order_by
  All-order_by P [] h = h
  All-order_by P (x ∷ xs) h = All-insert_by P x (order_by xs) h.0 (All-order_by P xs h.1)

  any-insert_by : (p : A → Bool) (x : A) (ys : List A) → any p (insert_by x ys) ≡ (p x || any p ys)
  unfolding insert_by
  any-insert_by p x [] = refl
  any-insert_by p x (y ∷ ys) = ground (arith, any-insert_by p x ys)

  any-order_by : (p : A → Bool) (xs : List A) → any p (order_by xs) ≡ any p xs
  unfolding order_by
  any-order_by p [] = refl
  any-order_by p (x ∷ xs) = ground (arith, any-insert_by p x (order_by xs), any-order_by p xs)

  -- Rows with a key of their own keep it.
  module _ (same : A → A → Bool) (symmetric : (a b : A) → same a b ≡ same b a) where
    Unique-insert_by :
        (x : A) (ys : List A)
        → any (same x) ys ≡ false
        → Unique same ys
        → Unique same (insert_by x ys)
    unfolding insert_by
    Unique-insert_by x [] h u = (refl, tt)
    Unique-insert_by x (y ∷ ys) h u = elim (Bool-cases (before y x)) [
      | inl e ↦ rw e (
        any-insert_by (same y) x ys ∙ ground (arith, symmetric x y),
        Unique-insert_by x ys (ground arith) u.1,
      )
      | inr e ↦ rw e (h, u)
    ]

    pub Unique-order_by : (xs : List A) → Unique same xs → Unique same (order_by xs)
    unfolding order_by
    Unique-order_by [] u = u
    Unique-order_by (x ∷ xs) u =
        Unique-insert_by x (order_by xs) (any-order_by (same x) xs ∙ u.0) (Unique-order_by xs u.1)

  -- A row that comes before no row which comes before no other comes before none of these.
  module _ (transitive : (x y z : A) → before z y ≡ false → before y x ≡ false → before z x ≡ false)
      (asymmetric : (x y : A) → before y x ≡ true → before x y ≡ false) where
    insert_by-IsOrdered : (x : A) (ys : List A) → IsOrdered ys → IsOrdered (insert_by x ys)
    unfolding insert_by
    insert_by-IsOrdered x [] h = (tt, tt)
    insert_by-IsOrdered x (y ∷ ys) h = elim (Bool-cases (before y x)) [
      | inl e ↦ rw e (
        All-insert_by (λ z. before z y ≡ false) x ys (asymmetric x y e) h.0,
        insert_by-IsOrdered x ys h.1,
      )
      | inr e ↦ rw e (
        (
          e,
          All-map (λ z. before z y ≡ false) (λ z. before z x ≡ false) ys
              (λ z k. transitive x y z k e) h.0,
        ),
        h,
      )
    ]

    pub order_by-IsOrdered : (xs : List A) → IsOrdered (order_by xs)
    unfolding order_by
    order_by-IsOrdered [] = tt
    order_by-IsOrdered (x ∷ xs) = insert_by-IsOrdered x (order_by xs) (order_by-IsOrdered xs)
