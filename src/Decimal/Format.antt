-- ===== src/Decimal/Format.antt =====
-- What `format_uint` prints: digits only, and the number is read off them.
use Prim.Native.Nat.{◌/◌}
use mathlib.Core.List.{cons-ne-nil}
use mathlib.Core.WellFounded.{Acc}
use native.Mathlib.Decide.{dec_lt}
use native.Mathlib.Bridge.{le_prop}
use mathlib.Core.Logic.{dif_pos, dif_neg}
use example_envoy_xds.Base.{
  ℕ, ◌+◌, ◌-◌, ◌*◌, ◌%◌, ◌≤◌, ◌<◌, [], ◌∷◌, ◌≡◌, ◌≢◌, sym, ap, subst, ◌∙◌, Text, All, inl, inr,
  Bool-cases, ◌==◌, arith,
}
use example_envoy_xds.Decimal.{emit, digits, format_uint, lt_wf, tenth_lt}

abbrev pub IsDigit : ℕ → Type 0
IsDigit c = (b'0' ≤ c) × (c ≤ b'9')

-- the number that digits spell after the digits of `a`, with no bound
unfoldable pub value : ℕ → Text → ℕ
value a [] = a
value a (c ∷ s) = value (a * 10 + (c - b'0')) s

value-emit : (n : ℕ) (out : Text) (w : Acc ◌<◌ n) → value 0 (emit n out w) ≡ value n out
unfolding emit value
value-emit n out (Acc.intro _ smaller) = elim (dec_lt 0 n) [
  | yes h ↦ rw (dif_pos (dec_lt 0 n) le_prop h) (
      value-emit (n / 10) ((b'0' + n % 10) ∷ out) (smaller (n / 10) (tenth_lt h))
      ∙ ap (λ m. value m out) (omega arith))
  | no h ↦ rw (dif_neg (dec_lt 0 n) h) (ap (λ m. value m out) (omega arith))
]

emit-IsDigit : (n : ℕ) (out : Text) (w : Acc ◌<◌ n) → All IsDigit out → All IsDigit (emit n out w)
unfolding emit
emit-IsDigit n out (Acc.intro _ smaller) h = elim (dec_lt 0 n) [
  | yes p ↦ rw (dif_pos (dec_lt 0 n) le_prop p) (
      emit-IsDigit (n / 10) ((b'0' + n % 10) ∷ out) (smaller (n / 10) (tenth_lt p))
        ((omega arith, omega arith), h))
  | no p ↦ rw (dif_neg (dec_lt 0 n) p) h
]

pub value-format_uint : (n : ℕ) → value 0 (format_uint n) ≡ n
unfolding format_uint digits value
value-format_uint n = elim (Bool-cases (n == 0)) [
  | inl e ↦ rw e (ground arith)
  | inr e ↦ rw e (value-emit n [] (lt_wf.apply n))
]

pub format_uint-IsDigit : (n : ℕ) → All IsDigit (format_uint n)
unfolding format_uint digits
format_uint-IsDigit n = elim (Bool-cases (n == 0)) [
  | inl e ↦ rw e ((omega arith, omega arith), tt)
  | inr e ↦ rw e (emit-IsDigit n [] (lt_wf.apply n) tt)
]

pub format_uint-ne-nil : (n : ℕ) → format_uint n ≢ []
unfolding format_uint value
format_uint-ne-nil n h =
    let z : n ≡ 0 = sym (value-format_uint n) ∙ ap (value 0) h in
    cons-ne-nil b'0' [] (subst (λ m. format_uint m ≡ []) z h)

-- Different numbers print differently.
pub format_uint_inj : {n m : ℕ} → format_uint n ≡ format_uint m → n ≡ m
format_uint_inj {n} {m} e = sym (value-format_uint n) ∙ ap (value 0) e ∙ value-format_uint m
