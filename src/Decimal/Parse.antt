-- ===== src/Decimal/Parse.antt =====
-- What `parse_uint` accepts, and what it returns.
use mathlib.Core.List.{cons-ne-nil}
use example_envoy_xds.Base.{
  ℕ, ◌+◌, ◌-◌, ◌*◌, ◌≤◌, ◌<◌, [], ◌∷◌, ◌≡◌, ◌≢◌, ◌↔◌, refl, ap, sym, ◌∙◌, some, Text, All, u32_mod,
  arith,
}
use example_envoy_xds.Decimal.{scan, parse_uint, format_uint}
use example_envoy_xds.Decimal.Format.{
  IsDigit, value, value-format_uint, format_uint-IsDigit, format_uint-ne-nil,
}

-- A status text that `ParseUint` accepts.
abbrev pub IsNumber : Text → Type 0
IsNumber s = (s ≢ []) × All IsDigit s × (value 0 s < u32_mod)

scan_sound :
    (s : Text) (n r : ℕ)
    → n < u32_mod
    → scan s n ≡ some r
    → All IsDigit s × (r ≡ value n s) × (r < u32_mod)
unfolding scan value
scan_sound [] n r fits h = ground arith
scan_sound (c ∷ s) n r fits h = ground (arith, scan_sound s (n * 10 + (c - b'0')) r)

-- more digits never make a number smaller
le-value : (n : ℕ) (s : Text) → n ≤ value n s
unfolding value
le-value n [] = omega arith
le-value n (c ∷ s) = omega (arith, le-value (n * 10 + (c - b'0')) s)

scan_complete :
    (n : ℕ) (s : Text) → value n s < u32_mod → All IsDigit s → scan s n ≡ some (value n s)
unfolding scan value
scan_complete n [] fits digits = refl
scan_complete n (c ∷ s) fits (digit, digits) =
    let next = n * 10 + (c - b'0') in
    let tail = scan_complete next s fits digits in ground (arith, le-value next s, tail)

-- Exactly the non-empty texts of digits whose number fits in 32 bits are accepted, and the result
-- is that number.
pub parse_uint_iff : (s : Text) (r : ℕ) → (parse_uint s ≡ some r) ↔ (IsNumber s × (r ≡ value 0 s))
unfolding parse_uint
parse_uint_iff [] r = (λ h. cc, λ h. absurd (h.0.0 refl))
parse_uint_iff (c ∷ s) r = (
  λ h.
      let (digits, exact, fits) = scan_sound (c ∷ s) 0 r (omega arith) h in
      ((cons-ne-nil c s, digits, rw (← exact) fits), exact),
  λ h. scan_complete 0 (c ∷ s) h.0.2 h.0.1 ∙ ap some (sym h.1),
)

-- A 32-bit number is read back from its decimal print.
pub parse_uint-format_uint : (n : ℕ) → n < u32_mod → parse_uint (format_uint n) ≡ some n
parse_uint-format_uint n fits = (parse_uint_iff (format_uint n) n).1 (
  (format_uint-ne-nil n, format_uint-IsDigit n, rw value-format_uint fits),
  sym (value-format_uint n),
)
