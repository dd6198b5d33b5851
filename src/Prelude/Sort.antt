-- ===== src/Prelude/Sort.antt =====
-- `items.sort(key=..., reverse=True)`: by falling keys, and items of one key stay in their order. The
-- list is built by insertion from the right.
pub mod Ascending
use Prim.Native.Nat.{ℕ, suc, ◌≤◌}
use mathlib.Core.Path.{◌≡◌, refl, ◌∙◌}
use mathlib.Core.Logic.{inl, inr}
use mathlib.Core.List.{List, [], ◌∷◌, Perm}
use mathlib.Core.List.Perm
use native.Mathlib.Omega.{arith}
use trino_gateway.Prelude.Tests.{leb, ◌==◌, if◌then◌else◌, Bool-cases}
use trino_gateway.Prelude.Lists.{select, Each, length}

module _ {ℓ} {A : Type ℓ} (key : A → ℕ) where
  insert_desc : A → List A → List A
  insert_desc x [] = x ∷ []
  insert_desc x (y ∷ ys) = if leb (key y) (key x) then x ∷ y ∷ ys else y ∷ insert_desc x ys

  unfoldable pub sort_desc : List A → List A
  unfolding insert_desc
  sort_desc [] = []
  sort_desc (x ∷ xs) = insert_desc x (sort_desc xs)

  -- No key is above the first one, and so on down the list.
  abbrev pub IsDescending : List A → Type 0
  IsDescending [] = Unit
  IsDescending (x ∷ xs) = Each (λ y. key y ≤ key x) xs × IsDescending xs

  insert_desc-perm : (x : A) (xs : List A) → Perm (insert_desc x xs) (x ∷ xs)
  unfolding insert_desc
  insert_desc-perm x [] = Perm.refl (x ∷ [])
  insert_desc-perm x (y ∷ ys) = elim (Bool-cases (leb (key y) (key x))) [
    | inl here ↦ rw here (Perm.refl (x ∷ y ∷ ys))
    | inr later ↦ rw later (Perm.trans (Perm.cons y (insert_desc-perm x ys)) (Perm.swap x y ys))
  ]

  -- The sorted list holds the items that were given, each as often.
  pub sort_desc-perm : (xs : List A) → Perm (sort_desc xs) xs
  unfolding sort_desc
  sort_desc-perm [] = Perm.refl []
  sort_desc-perm (x ∷ xs) =
      Perm.trans (insert_desc-perm x (sort_desc xs)) (Perm.cons x (sort_desc-perm xs))

  Each-insert_desc :
      (b : ℕ) (x : A) (xs : List A)
      → key x ≤ b
      → Each (λ y. key y ≤ b) xs
      → Each (λ y. key y ≤ b) (insert_desc x xs)
  unfolding insert_desc
  Each-insert_desc b x [] h each = (h, tt)
  Each-insert_desc b x (y ∷ ys) h each = elim (Bool-cases (leb (key y) (key x))) [
    | inl here ↦ rw here (h, each)
    | inr later ↦ rw later (each.0, Each-insert_desc b x ys h each.1)
  ]

  Each-weaken :
      (b c : ℕ) (xs : List A) → b ≤ c → Each (λ y. key y ≤ b) xs → Each (λ y. key y ≤ c) xs
  Each-weaken b c [] h each = tt
  Each-weaken b c (x ∷ xs) h each = (omega arith, Each-weaken b c xs h each.1)

  insert_desc-sorted : (x : A) (xs : List A) → IsDescending xs → IsDescending (insert_desc x xs)
  unfolding insert_desc
  insert_desc-sorted x [] h = (tt, tt)
  insert_desc-sorted x (y ∷ ys) h = elim (Bool-cases (leb (key y) (key x))) [
    | inl here ↦
        let le : key y ≤ key x = ground arith in
        rw here ((le, Each-weaken (key y) (key x) ys le h.0), h)
    | inr later ↦
        rw later (Each-insert_desc (key y) x ys (ground arith) h.0, insert_desc-sorted x ys h.1)
  ]

  -- The keys of the sorted list never rise.
  pub sort_desc-sorted : (xs : List A) → IsDescending (sort_desc xs)
  unfolding sort_desc
  sort_desc-sorted [] = tt
  sort_desc-sorted (x ∷ xs) = insert_desc-sorted x (sort_desc xs) (sort_desc-sorted xs)

  insert_desc-stable :
      (k : ℕ) (x : A) (xs : List A)
      → select (λ y. key y == k) (insert_desc x xs) ≡ select (λ y. key y == k) (x ∷ xs)
  unfolding insert_desc
  insert_desc-stable k x [] = refl
  insert_desc-stable k x (y ∷ ys) = ground (arith, insert_desc-stable k x ys)

  -- The items of one key keep their order.
  pub sort_desc-stable :
      (k : ℕ) (xs : List A) → select (λ y. key y == k) (sort_desc xs) ≡ select (λ y. key y == k) xs
  unfolding sort_desc
  sort_desc-stable k [] = refl
  sort_desc-stable k (x ∷ xs) =
      insert_desc-stable k x (sort_desc xs) ∙ (ground (arith, sort_desc-stable k xs))

  length-insert_desc : (x : A) (xs : List A) → length (insert_desc x xs) ≡ suc (length xs)
  unfolding insert_desc
  length-insert_desc x [] = refl
  length-insert_desc x (y ∷ ys) = ground (arith, length-insert_desc x ys)

  pub length-sort_desc : (xs : List A) → length (sort_desc xs) ≡ length xs
  unfolding sort_desc
  length-sort_desc [] = refl
  length-sort_desc (x ∷ xs) =
      omega (arith, length-insert_desc x (sort_desc xs), length-sort_desc xs)

module _ {ℓ} {A : Type ℓ} (key : A → ℕ) (P : A → Type 0) where
  Each-insert : (x : A) (xs : List A) → P x → Each P xs → Each P (insert_desc key x xs)
  unfolding insert_desc
  Each-insert x [] h each = (h, tt)
  Each-insert x (y ∷ ys) h each = elim (Bool-cases (leb (key y) (key x))) [
    | inl here ↦ rw here (h, each)
    | inr later ↦ rw later (each.0, Each-insert x ys h each.1)
  ]

  -- What each item satisfies, each item of the sorted list does.
  pub Each-sort_desc : (xs : List A) → Each P xs → Each P (sort_desc key xs)
  unfolding sort_desc
  Each-sort_desc [] each = tt
  Each-sort_desc (x ∷ xs) each = Each-insert x (sort_desc key xs) each.0 (Each-sort_desc xs each.1)
