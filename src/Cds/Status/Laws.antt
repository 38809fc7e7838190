-- ===== src/Cds/Status/Laws.antt =====
-- The sort of `statusesInt64Range` sorts.
use mathlib.Core.List.{Permᴰ}
use mathlib.Core.List.Permᴰ
use example_envoy_xds.Base.{
  ℕ, suc, ◌≤◌, List, [], ◌∷◌, ◌≡◌, refl, inl, inr, Bool-cases, All, All-imp, ltb, length, arith,
}
use example_envoy_xds.Cds.Status.{insert, sort}

abbrev pub IsSorted : List ℕ → Type 0
IsSorted [] = Unit
IsSorted (x ∷ xs) = All (λ y. x ≤ y) xs × IsSorted xs

insert-All : (P : ℕ → Type 0) (x : ℕ) (ys : List ℕ) → P x → All P ys → All P (insert x ys)
unfolding insert
insert-All P x [] px h = (px, tt)
insert-All P x (y ∷ ys) px (py, h) = elim (Bool-cases (ltb y x)) [
  | inl e ↦ rw e (py, insert-All P x ys px h)
  | inr e ↦ rw e (px, (py, h))
]

insert-IsSorted : (x : ℕ) (ys : List ℕ) → IsSorted ys → IsSorted (insert x ys)
unfolding insert
insert-IsSorted x [] h = (tt, tt)
insert-IsSorted x (y ∷ ys) (hy, h) = elim (Bool-cases (ltb y x)) [
  | inl e ↦ rw e (insert-All (λ z. y ≤ z) x ys (ground arith) hy, insert-IsSorted x ys h)
  | inr e ↦
      rw e ((ground arith, All-imp (λ z. y ≤ z) (λ z. x ≤ z) ys (λ z yz. ground arith) hy), (hy, h))
]

pub sort-IsSorted : (xs : List ℕ) → IsSorted (sort xs)
unfolding sort
sort-IsSorted [] = tt
sort-IsSorted (x ∷ xs) = insert-IsSorted x (sort xs) (sort-IsSorted xs)

insert-perm : (x : ℕ) (ys : List ℕ) → Permᴰ (insert x ys) (x ∷ ys)
unfolding insert
insert-perm x [] = Permᴰ.refl (x ∷ [])
insert-perm x (y ∷ ys) = elim (Bool-cases (ltb y x)) [
  | inl e ↦ rw e (Permᴰ.trans (Permᴰ.cons refl (insert-perm x ys)) (Permᴰ.swap refl refl))
  | inr e ↦ rw e (Permᴰ.refl (x ∷ y ∷ ys))
]

-- `sort` is a sort: with `sort-IsSorted`, the ascending order of the same numbers
pub sort-perm : (xs : List ℕ) → Permᴰ (sort xs) xs
unfolding sort
sort-perm [] = Permᴰ.nil
sort-perm (x ∷ xs) = Permᴰ.trans (insert-perm x (sort xs)) (Permᴰ.cons refl (sort-perm xs))

length-insert : (x : ℕ) (ys : List ℕ) → length (insert x ys) ≡ suc (length ys)
unfolding insert
length-insert x [] = refl
length-insert x (y ∷ ys) = ground (arith, length-insert x ys)

pub length-sort : (xs : List ℕ) → length (sort xs) ≡ length xs
unfolding sort
length-sort [] = refl
length-sort (x ∷ xs) = omega (arith, length-insert x (sort xs), length-sort xs)
