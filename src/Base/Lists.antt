-- ===== src/Base/Lists.antt =====
-- Lists measured by native numbers, selections by a Boolean test, and predicates on all elements.
use Prim.Native.Nat.{ℕ, suc, ◌+◌}
use mathlib.Core.Path.{◌≡◌, refl, ap, sym, subst, ◌∙◌}
use mathlib.Core.Logic.{◌≢◌}
use mathlib.Core.Bool.{Bool}
use mathlib.Core.List.{List, [], ◌∷◌, ◌++◌, map, Permᴰ, Memᴰ}
use native.Mathlib.Omega.{arith}
use example_envoy_xds.Base.Tests.{if◌then◌else◌}

module _ {ℓ} {A : Type ℓ} where
  abbrev pub length : List A → ℕ
  length [] = 0
  length (x ∷ xs) = suc (length xs)

  pub length-append : (xs ys : List A) → length (xs ++ ys) ≡ length xs + length ys
  length-append [] ys = omega arith
  length-append (x ∷ xs) ys = omega (arith, length-append xs ys)

  -- The elements that pass a test, in their order.
  unfoldable pub select : (A → Bool) → List A → List A
  select p [] = []
  select p (x ∷ xs) = if p x then x ∷ select p xs else select p xs

  pub select-append :
      (p : A → Bool) (xs ys : List A) → select p (xs ++ ys) ≡ select p xs ++ select p ys
  unfolding select
  select-append p [] ys = refl
  select-append p (x ∷ xs) ys = ground (arith, select-append p xs ys)

module _ {ℓ κ} {A : Type ℓ} (P : A → Type κ) where
  abbrev pub All : List A → Type κ
  All [] = Unit
  All (x ∷ xs) = P x × All xs

  pub All-append : (xs ys : List A) → All xs → All ys → All (xs ++ ys)
  All-append [] ys _ hy = hy
  All-append (x ∷ xs) ys (px, hx) hy = (px, All-append xs ys hx hy)

module _ {ℓ κ} {A : Type ℓ} {B : Type κ} (f : A → B) where
  pub length-map : (xs : List A) → length (map f xs) ≡ length xs
  length-map [] = refl
  length-map (x ∷ xs) = ap suc (length-map xs)

  pub map-append_lem : (xs ys : List A) → map f (xs ++ ys) ≡ map f xs ++ map f ys
  map-append_lem [] ys = refl
  map-append_lem (x ∷ xs) ys = ap (◌∷◌ (f x)) (map-append_lem xs ys)

module _ {ℓ} {A : Type ℓ} where
  -- No element stands twice.
  abbrev pub Distinct : List A → Type ℓ
  Distinct [] = Unit
  Distinct (x ∷ xs) = All (λ y. x ≢ y) xs × Distinct xs

  pub Distinct-append :
      (xs ys : List A)
      → Distinct xs
      → Distinct ys
      → All (λ x. All (λ y. x ≢ y) ys) xs
      → Distinct (xs ++ ys)
  Distinct-append [] ys _ hy _ = hy
  Distinct-append (x ∷ xs) ys (hx, hxs) hy (cx, cxs) =
      (All-append (λ y. x ≢ y) xs ys hx cx, Distinct-append xs ys hxs hy cxs)

module _ {ℓ κ μ} {A : Type ℓ} (P : A → Type κ) (Q : A → Type μ) where
  pub All-imp : (xs : List A) → ((x : A) → P x → Q x) → All P xs → All Q xs
  All-imp [] f h = tt
  All-imp (x ∷ xs) f (hx, hxs) = (f x hx, All-imp xs f hxs)

  pub All-zip : (xs : List A) → All P xs → All Q xs → All (λ x. P x × Q x) xs
  All-zip [] _ _ = tt
  All-zip (x ∷ xs) (px, pxs) (qx, qxs) = ((px, qx), All-zip xs pxs qxs)

module _ {ℓ κ μ} {A : Type ℓ} {B : Type κ} (P : B → Type μ) (f : A → B) where
  pub All-map : (xs : List A) → All (λ x. P (f x)) xs → All P (map f xs)
  All-map [] _ = tt
  All-map (x ∷ xs) (px, pxs) = (px, All-map xs pxs)

module _ {ℓ κ} {A : Type ℓ} (P : A → Type κ) where
  pub All-every : ((x : A) → P x) → (xs : List A) → All P xs
  All-every h [] = tt
  All-every h (x ∷ xs) = (h x, All-every h xs)

  pub All-perm : {xs ys : List A} → Permᴰ xs ys → All P xs → All P ys
  All-perm Permᴰ.nil h = tt
  All-perm (Permᴰ.cons e p) (hx, hxs) = (subst P e hx, All-perm p hxs)
  All-perm (Permᴰ.swap e f) (ha, (hb, h)) = (subst P f hb, (subst P e ha, h))
  All-perm (Permᴰ.trans p q) h = All-perm q (All-perm p h)

module _ {ℓ} {A : Type ℓ} where
  pub Distinct-perm : {xs ys : List A} → Permᴰ xs ys → Distinct xs → Distinct ys
  Distinct-perm Permᴰ.nil h = tt
  Distinct-perm (Permᴰ.cons {a = a} {b = b} {l₂ = l} e p) (hx, hxs) =
      (subst (λ c. All (λ y. c ≢ y) l) e (All-perm (λ y. a ≢ y) p hx), Distinct-perm p hxs)
  Distinct-perm (Permᴰ.swap {l = l} e f) ((ne, ha), (hb, h)) = (
    (λ q. ne (e ∙ sym q ∙ sym f), subst (λ c. All (λ y. c ≢ y) l) f hb),
    (subst (λ c. All (λ y. c ≢ y) l) e ha, h),
  )
  Distinct-perm (Permᴰ.trans p q) h = Distinct-perm q (Distinct-perm p h)

-- `for _, fn := range funcs { fn(opt) }`: the options act on the object one after the other.
unfoldable pub apply_all {ℓ} : {A : Type ℓ} → List (A → A) → A → A
apply_all [] a = a
apply_all (f ∷ fs) a = apply_all fs (f a)

module _ {ℓ κ} {A : Type ℓ} (P : A → Type κ) where
  pub All-Mem : {x : A} (xs : List A) → Memᴰ x xs → All P xs → P x
  All-Mem [] m _ = elim m [ ]
  All-Mem (y ∷ ys) (Memᴰ.head e) (hy, _) = subst P (sym e) hy
  All-Mem (y ∷ ys) (Memᴰ.tail m) (_, hys) = All-Mem ys m hys
