-- ===== src/Decimal.antt =====
-- Decimal numbers, as `strconv.FormatUint(n, 10)` and `strconv.ParseUint(s, 10, 32)` of the
-- standard library print and read them.
pub mod Format
pub mod Parse
use Prim.Native.Nat.{◌/◌}
use mathlib.Core.WellFounded.{Acc, WellFounded}
use mathlib.Core.Logic.{dite}
use native.Mathlib.Decide.{dec_lt}
use example_envoy_xds.Base.{
  ℕ, zero, suc, ◌+◌, ◌-◌, ◌*◌, ◌%◌, ◌<◌, [], ◌∷◌, Option, none, some, ◌||◌, ltb, ◌==◌,
  if◌then◌else◌, Text, u32_mod, arith,
}

pub tenth_lt : {n : ℕ} → 0 < n → n / 10 < n
tenth_lt positive = omega arith

below : (bound n : ℕ) → n < bound → Acc ◌<◌ n
below zero n less = elim less [ ]
below (suc bound) n less = Acc.intro n (λ k k-lt. below bound k (omega arith))

unfoldable pub lt_wf : WellFounded ◌<◌
unfolding below
lt_wf = record { apply = λ n. below (suc n) n (omega arith) }

-- the digits of `n` in front of `out`; none for zero
unfoldable pub emit : (n : ℕ) → Text → Acc ◌<◌ n → Text
emit n out (Acc.intro _ smaller) =
    let digit = b'0' + n % 10 in
    dite (dec_lt 0 n)
      (λ positive. emit (n / 10) (digit ∷ out) (smaller (n / 10) (tenth_lt positive))) (λ _. out)

unfoldable pub digits : ℕ → Text → Text
unfolding emit lt_wf
digits n out = emit n out (lt_wf.apply n)

-- `strconv.FormatUint(n, 10)`
unfoldable pub format_uint : ℕ → Text
format_uint n = if n == 0 then b'0' ∷ [] else digits n []

-- `none` is a syntax error or a range error: base 10, 32 bits
unfoldable pub scan : Text → ℕ → Option ℕ
scan [] n = some n
scan (c ∷ s) n =
    let next = n * 10 + (c - b'0') in
    let rest = scan s next in
    if ltb c b'0' || ltb b'9' c then none else if ltb next u32_mod then rest else none

-- `strconv.ParseUint(s, 10, 32)`
unfoldable pub parse_uint : Text → Option ℕ
unfolding scan
parse_uint [] = none
parse_uint (c ∷ s) = scan (c ∷ s) 0
