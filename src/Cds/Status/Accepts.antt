-- ===== src/Cds/Status/Accepts.antt =====
-- Which status codes the ranges of a health check accept. A range holds its start and not its end.
use mathlib.Core.List.{Permᴰ}
use mathlib.Core.List.Permᴰ
use example_envoy_xds.Base.{
  ℕ, ◌+◌, ◌%◌, ◌≤◌, ◌<◌, List, [], ◌∷◌, map, Text, ◌≡◌, ◌≢◌, ◌↔◌, ◌⊎◌, refl, sym, inl, inr,
  Bool-cases, All, ◌==◌, length, pos, int64, int64-pos, u32_mod, u64_mod, arith, Option-cases,
  All-perm, All-imp, All-map, ap, subst, ◌∙◌,
}
use example_envoy_xds.Decimal.{parse_uint}
use example_envoy_xds.Decimal.Parse.{parse_uint_iff}
use example_envoy_xds.Cds.Status.{
  Int64Range, expected_http_status_ok, status_uint, sort, last, bump_last, avoid_same, status_range,
  ranges_of, statuses_int64_range,
}
use example_envoy_xds.Cds.Status.Laws.{IsSorted, sort-IsSorted, sort-perm, length-sort}

abbrev pub Covers : Int64Range → ℕ → Type 0
Covers r n = (a : ℕ) × (b : ℕ) × (r.start ≡ pos a) × (r.end ≡ pos b) × (a ≤ n) × (n < b)

abbrev pub Accepts : List Int64Range → ℕ → Type 0
Accepts [] n = ⊥
Accepts (r ∷ rs) n = Covers r n ⊎ Accepts rs n

abbrev pub In : ℕ → List ℕ → Type 0
In m [] = ⊥
In m (x ∷ xs) = (m ≡ x) ⊎ In m xs

In-perm : (m : ℕ) {xs ys : List ℕ} → Permᴰ xs ys → In m xs → In m ys
In-perm m Permᴰ.nil h = h
In-perm m (Permᴰ.cons e p) (inl h) = inl (h ∙ e)
In-perm m (Permᴰ.cons e p) (inr h) = inr (In-perm m p h)
In-perm m (Permᴰ.swap e f) (inl h) = inr (inl (h ∙ e))
In-perm m (Permᴰ.swap e f) (inr (inl h)) = inl (h ∙ f)
In-perm m (Permᴰ.swap e f) (inr (inr h)) = inr (inr h)
In-perm m (Permᴰ.trans p q) h = In-perm m q (In-perm m p h)

In-All : (P : ℕ → Type 0) (m : ℕ) (xs : List ℕ) → All P xs → In m xs → P m
In-All P m (x ∷ xs) (px, h) (inl e) = subst P (sym e) px
In-All P m (x ∷ xs) (px, h) (inr i) = In-All P m xs h i
In-All P m [] h i = absurd i

-- a range of one code, in 64-bit arithmetic
status_range-Covers : (n m : ℕ) → n ≤ u32_mod → Covers (status_range n) m ↔ (m ≡ n)
unfolding status_range
status_range-Covers n m fits = (
  λ (a, b, start, end, lo, hi).
      let p : a ≡ n = pos_inj (sym start ∙ int64-pos n (omega arith)) in
      let q : b ≡ n + 1 =
        pos_inj (sym end ∙ ap int64 (omega arith) ∙ int64-pos (n + 1) (omega arith)) in
      omega arith,
  λ e. (
    n,
    n + 1,
    int64-pos n (omega arith),
    ap int64 (omega arith) ∙ int64-pos (n + 1) (omega arith),
    omega arith,
    omega arith,
  ),
)
  where
    pos_inj : {x y : ℕ} → pos x ≡ pos y → x ≡ y
    pos_inj e = cc

ranges-Accepts :
    (xs : List ℕ) (m : ℕ) → All (λ x. x ≤ u32_mod) xs → Accepts (map status_range xs) m ↔ In m xs
ranges-Accepts [] m h = (λ a. a, λ a. a)
ranges-Accepts (x ∷ xs) m (hx, h) = (
  λ a. elim a [
    | inl c ↦ inl ((status_range-Covers x m hx).0 c)
    | inr c ↦ inr ((ranges-Accepts xs m h).0 c)
  ],
  λ a. elim a [
    | inl c ↦ inl ((status_range-Covers x m hx).1 c)
    | inr c ↦ inr ((ranges-Accepts xs m h).1 c)
  ],
)

status_uint-lt : (s : Text) → status_uint s < u32_mod
unfolding status_uint
status_uint-lt s = elim (Option-cases (parse_uint s)) [
  | inl e ↦ rw (e, status_uint) (omega arith)
  | inr (n, e) ↦ rw (e, status_uint) (omega (arith, (parse_uint_iff s n).0 e))
]

pub map-status_uint-lt : (ss : List Text) → All (λ x. x < u32_mod) (map status_uint ss)
map-status_uint-lt [] = tt
map-status_uint-lt (s ∷ ss) = (status_uint-lt s, map-status_uint-lt ss)

le-last : (x : ℕ) (xs : List ℕ) → IsSorted (x ∷ xs) → All (λ y. y ≤ last x xs) (x ∷ xs)
unfolding last
le-last x [] h = (omega arith, tt)
le-last x (y ∷ ys) ((xy, hx), hy) = let h = le-last y ys hy in (omega (arith, h.0), h)

-- numbers that are not all the same are left as they are
avoid_same-other :
    (a b : ℕ) (ns : List ℕ) → IsSorted ns → In a ns → In b ns → a ≢ b → avoid_same ns ≡ ns
unfolding avoid_same
avoid_same-other a b [] h i j ne = refl
avoid_same-other a b (x ∷ xs) h i j ne = elim (Bool-cases (x == last x xs)) [
  | inl e ↦
      let top = le-last x xs h in
      let low : All (λ y. x ≤ y) (x ∷ xs) = (omega arith, h.0) in
      let a1 = In-All (λ y. y ≤ last x xs) a (x ∷ xs) top i in
      let a2 = In-All (λ y. x ≤ y) a (x ∷ xs) low i in
      let b1 = In-All (λ y. y ≤ last x xs) b (x ∷ xs) top j in
      let b2 = In-All (λ y. x ≤ y) b (x ∷ xs) low j in absurd (ne (ground arith))
  | inr e ↦ rw e refl
]

-- The ranges for a list of statuses of which two stand for different numbers accept a code
-- exactly when one of the statuses stands for it.
pub statuses_int64_range-Accepts :
    (ss : List Text) (a b m : ℕ)
    → In a (map status_uint ss)
    → In b (map status_uint ss)
    → a ≢ b
    → Accepts (statuses_int64_range ss) m ↔ In m (map status_uint ss)
unfolding statuses_int64_range ranges_of
statuses_int64_range-Accepts [] a b m i j ne = absurd i
statuses_int64_range-Accepts (s ∷ []) a b m (inl i) (inl j) ne = absurd (ne (i ∙ sym j))
statuses_int64_range-Accepts (s ∷ []) a b m (inl i) (inr j) ne = absurd j
statuses_int64_range-Accepts (s ∷ []) a b m (inr i) j ne = absurd i
statuses_int64_range-Accepts (s ∷ t ∷ ss) a b m i j ne =
    let ns = map status_uint (s ∷ t ∷ ss) in
    let p = sort-perm ns in
    let q = Permᴰ.symm p in
    let fits =
      All-imp (λ x. x < u32_mod) (λ x. x ≤ u32_mod) ns (λ x h. omega (arith, h))
        (map-status_uint-lt (s ∷ t ∷ ss)) in
    let exact = ranges-Accepts (sort ns) m (All-perm (λ x. x ≤ u32_mod) q fits) in
    rw (avoid_same-other a b (sort ns) (sort-IsSorted ns) (In-perm a q i) (In-perm b q j) ne)
      (λ h. In-perm m p (exact.0 h), λ h. exact.1 (In-perm m q h))

pos_inj : {x y : ℕ} → pos x ≡ pos y → x ≡ y
pos_inj e = cc

covered_by : (m a b : ℕ) → Covers (record { start = pos a; end = pos b }) m → (a ≤ m) × (m < b)
covered_by m a b (c, d, e, f, lo, hi) =
    let p = pos_inj e in let q = pos_inj f in (omega arith, omega arith)

default_range : (m : ℕ) → Accepts (ranges_of (200 ∷ [])) m ↔ ((200 ≤ m) × (m < 299))
unfolding ranges_of expected_http_status_ok
default_range m = (
  λ h. elim h [ inl c ↦ covered_by m 200 299 c | inr n ↦ absurd n ],
  λ c. inl (200, 299, refl, refl, c.0, c.1),
)

other_range : (n m : ℕ) → n < u32_mod → n ≢ 200 → Accepts (ranges_of (n ∷ [])) m ↔ (m ≡ n)
unfolding ranges_of
other_range n m fits ne = elim (Bool-cases (n == 200)) [
  | inl e ↦ absurd (ne (ground arith))
  | inr e ↦
      let c = status_range-Covers n m (omega arith) in
      rw e (λ h. elim h [ inl x ↦ c.0 x | inr z ↦ absurd z ], λ x. inl (c.1 x))
]

-- The ranges for one status that stands for 200 accept exactly the codes from 200 to 298.
pub statuses_int64_range_default :
    (s : Text) (m : ℕ)
    → status_uint s ≡ 200
    → Accepts (statuses_int64_range (s ∷ [])) m ↔ ((200 ≤ m) × (m < 299))
unfolding statuses_int64_range ranges_of expected_http_status_ok
statuses_int64_range_default s m e = rw (e, ranges_of, expected_http_status_ok) (default_range m)

-- The ranges for one status that stands for another number than 200 accept exactly that code.
pub statuses_int64_range_one :
    (s : Text) (m : ℕ)
    → status_uint s ≢ 200
    → Accepts (statuses_int64_range (s ∷ [])) m ↔ (m ≡ status_uint s)
unfolding statuses_int64_range ranges_of expected_http_status_ok
statuses_int64_range_one s m ne = other_range (status_uint s) m (status_uint-lt s) ne

last_same : (n x : ℕ) (xs : List ℕ) → All (λ y. y ≡ n) (x ∷ xs) → last x xs ≡ n
unfolding last
last_same n x [] (e, h) = e
last_same n x (y ∷ ys) (e, h) = last_same n y ys h

bump_last-Accepts :
    (n m x y : ℕ) (ys : List ℕ)
    → n < u32_mod
    → All (λ z. z ≡ n) (x ∷ y ∷ ys)
    → Accepts (map status_range (bump_last (x ∷ y ∷ ys))) m ↔ ((m ≡ n) ⊎ (m ≡ n + 1))
unfolding bump_last
bump_last-Accepts n m x y [] fits (hx, (hy, _)) =
    let r = ranges-Accepts (x ∷ ((y + 1) % u64_mod) ∷ []) m (omega arith, (omega arith, tt)) in
    (
      λ h. elim (r.0 h) [
        | inl e ↦ inl (e ∙ hx)
        | inr e ↦ elim e [ inl f ↦ inr (omega arith) | inr z ↦ absurd z ]
      ],
      λ h. r.1 (elim h [ inl e ↦ inl (omega arith) | inr e ↦ inr (inl (omega arith)) ]),
    )
bump_last-Accepts n m x y (z ∷ zs) fits (hx, h) =
    let c = status_range-Covers x m (omega arith) in
    let r = bump_last-Accepts n m y z zs fits h in
    (
      λ h. elim h [ inl e ↦ inl (c.0 e ∙ hx) | inr e ↦ r.0 e ],
      λ h. elim h [ inl e ↦ inl (c.1 (e ∙ sym hx)) | inr e ↦ inr (r.1 (inr e)) ],
    )

avoid_same-Accepts :
    (n m : ℕ) (xs : List ℕ)
    → n < u32_mod
    → 2 ≤ length xs
    → All (λ z. z ≡ n) xs
    → Accepts (map status_range (avoid_same xs)) m ↔ ((m ≡ n) ⊎ (m ≡ n + 1))
unfolding avoid_same
avoid_same-Accepts n m [] fits long h = absurd (omega arith)
avoid_same-Accepts n m (x ∷ []) fits long h = absurd (omega arith)
avoid_same-Accepts n m (x ∷ y ∷ ys) fits long h = elim (Bool-cases (x == last x (y ∷ ys))) [
  | inl e ↦ rw e (bump_last-Accepts n m x y ys fits h)
  | inr e ↦ let l = last_same n x (y ∷ ys) h in absurd (ground arith)
]

-- The ranges for two or more statuses that all stand for one number accept that number and the
-- next one.
pub statuses_int64_range_same :
    (s t : Text) (ss : List Text) (n m : ℕ)
    → All (λ u. status_uint u ≡ n) (s ∷ t ∷ ss)
    → Accepts (statuses_int64_range (s ∷ t ∷ ss)) m ↔ ((m ≡ n) ⊎ (m ≡ n + 1))
unfolding statuses_int64_range ranges_of
statuses_int64_range_same s t ss n m h =
    let ns = map status_uint (s ∷ t ∷ ss) in
    let fits = status_uint-lt s in
    avoid_same-Accepts n m (sort ns) (omega (arith, h.0)) (omega (arith, length-sort ns)) (
      All-perm (λ x. x ≡ n) (Permᴰ.symm (sort-perm ns))
        (All-map (λ x. x ≡ n) status_uint (s ∷ t ∷ ss) h))
