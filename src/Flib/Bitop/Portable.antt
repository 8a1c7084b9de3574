-- ===== src/Flib/Bitop/Portable.antt =====
-- The portable branch of the signed right shift computes the arithmetic shift.
use native.Mathlib.Nat.{
  pow-suc, one-le-pow, zero-add, suc-add, div-lt_iff_lt-mul, div-eq_of_lt-le, div-add-mod', mod-lt,
  mod-eq_of_lt, add-zero, add-mul-mod_self_left, pow-le-pow_right,
}
use slake.Prelude.{
  ℕ, zero, suc, ◌+◌, ◌-◌, ◌*◌, ◌/◌, ◌%◌, ◌^◌, ◌≤◌, ◌<◌, ◌≡◌, ap, arith, Option, none, some, Bool,
  true, false, ◌==◌, leb, ◌&&◌, ◌∙◌,
}
use Prim.Native.Nat.{bit_or}
use native.Mathlib.Decide.{dec_lt}
use slake.Words.{negsuc, wrap, div_floor}
use slake.Words.Bits.{bit_or-shifted}
use slake.Flib.Bitop.{Width, w8, w16, w32, w64, bits, promoted, shr_signed, shr_signed_portable}

-- 2 ^ r * 2 ^ k ≡ 2 ^ (r + k)
pow-add : (r k : ℕ) → 2 ^ r * 2 ^ k ≡ 2 ^ (r + k)
pow-add zero k = simp (zero-add) (omega arith)
pow-add (suc r) k = omega (
  arith,
  ap (λ (t : ℕ). t * 2 ^ k) (pow-suc 2 r),
  pow-add r k,
  ap (λ (t : ℕ). 2 ^ t) (suc-add r k),
  pow-suc 2 (r + k),
)

-- The complement of x below M * P, divided by P.
complement-div : (x P M : ℕ) → 0 < P → x < M * P → (M * P - 1 - x) / P ≡ M - 1 - x / P
complement-div x P M p fits =
    let q : ℕ = x / P in
    let k : ℕ = M - 1 - q in
    let below : q < M = (div-lt_iff_lt-mul p).1 fits in
    let split : M ≡ k + 1 + q = omega arith in
    let whole : M * P ≡ (k + 1 + q) * P = ap (λ (t : ℕ). t * P) split in
    let parts : q * P + x % P ≡ x = div-add-mod' x P in
    let rest : x % P < P = mod-lt x p in div-eq_of_lt-le P (omega arith) (omega arith)

-- A mask of ones above a field q, cut to the width.
ones-mod : (q M P : ℕ) → q < M → 0 < P → (q + (M * P - 1) * M) % (M * P) ≡ M * P - M + q
ones-mod q M P h p =
    let m : ℕ = M - 1 in
    let t : ℕ = M * P - 1 in
    let large : M ≤ M * P = grind arith in
    let eM : M ≡ m + 1 = omega arith in
    let eN : M * P ≡ t + 1 = omega arith in
    let left : t * M ≡ t * (m + 1) = ap (λ (y : ℕ). t * y) eM in
    let right : M * P * m ≡ (t + 1) * m = ap (λ (y : ℕ). y * m) eN in
    let regroup : q + t * M ≡ (M * P - M + q) + M * P * m = omega arith in
    rw (regroup, add-mul-mod_self_left (M * P - M + q) (M * P) m) (mod-eq_of_lt (omega arith))

pub pow-product : (n r : ℕ) → r ≤ n → 2 ^ (n - r) * 2 ^ r ≡ 2 ^ n
pow-product n r small = rw (pow-add (n - r) r) (ap (λ (t : ℕ). 2 ^ t) (omega arith))

module _ (n r x : ℕ) (small : r ≤ n) (fits : x < 2 ^ n) where
  product : 2 ^ (n - r) * 2 ^ r ≡ 2 ^ n
  product = pow-product n r small

  field : x / 2 ^ r < 2 ^ (n - r)
  field = (div-lt_iff_lt-mul (one-le-pow r 2 (omega arith))).1 (rw product fits)

  -- What every branch computes for a negative number.
  abbrev filled : ℕ
  filled = 2 ^ n - 2 ^ (n - r) + x / 2 ^ r

  bound : filled < 2 ^ n
  bound =
      omega (arith, field, pow-le-pow_right {n = 2} (omega arith) {i = n - r} {j = n} (omega arith))

  low : 2 ^ (n - r) ≤ 2 ^ n
  low = pow-le-pow_right {n = 2} (omega arith) {i = n - r} {j = n} (omega arith)

  pos-P : 0 < 2 ^ r
  pos-P = one-le-pow r 2 (omega arith)

  quotient : (2 ^ n - 1 - x) / 2 ^ r ≡ 2 ^ (n - r) - 1 - x / 2 ^ r
  quotient = rw product at (complement-div x (2 ^ r) (2 ^ (n - r)) pos-P (rw product fits))

  native-filled : wrap n (div_floor (negsuc (2 ^ n - 1 - x)) (2 ^ r)) ≡ filled
  native-filled =
      rw
        (
          quotient,
          mod-eq_of_lt {n = 2 ^ (n - r) - 1 - x / 2 ^ r} {m = 2 ^ n} (omega (arith, low, field)),
        )
        (omega (arith, field, low))

  ones :
      (q : ℕ) → q < 2 ^ (n - r) → (q + (2 ^ n - 1) * 2 ^ (n - r)) % 2 ^ n ≡ 2 ^ n - 2 ^ (n - r) + q
  ones q h = rw product at (ones-mod q (2 ^ (n - r)) (2 ^ r) h pos-P)

  wide-filled : bit_or (x / 2 ^ r) ((2 ^ n - 1) * 2 ^ (n - r)) % 2 ^ n ≡ filled
  wide-filled = rw (bit_or-shifted (n - r) (2 ^ n - 1) (x / 2 ^ r) field) (ones (x / 2 ^ r) field)

  high : (2 ^ r - 1) * 2 ^ (n - r) ≡ 2 ^ n - 2 ^ (n - r)
  high =
      let t : ℕ = 2 ^ r - 1 in
      let split : 2 ^ (n - r) * 2 ^ r ≡ 2 ^ (n - r) * (t + 1) =
        ap (λ (y : ℕ). 2 ^ (n - r) * y) (omega (arith, pos-P)) in
      omega (arith, product, split)

  narrow_mask : (2 ^ n - 1) * 2 ^ (n - r) % 2 ^ n ≡ (2 ^ r - 1) * 2 ^ (n - r)
  narrow_mask =
      rw (high, ← zero-add ((2 ^ n - 1) * 2 ^ (n - r)))
        (ones 0 (one-le-pow (n - r) 2 (omega arith)) ∙ add-zero _)

  narrow-filled : bit_or (x / 2 ^ r) ((2 ^ n - 1) * 2 ^ (n - r) % 2 ^ n) % 2 ^ n ≡ filled
  narrow-filled =
      rw (narrow_mask, bit_or-shifted (n - r) (2 ^ r - 1) (x / 2 ^ r) field, high)
        (mod-eq_of_lt (omega (arith, bound)) ∙ omega arith)

-- Where C leaves the portable branch undefined: a negative 32- or 64-bit number shifted by 0.
abbrev pub undefined_shift : Width → ℕ → ℕ → Bool
undefined_shift w lhs rhs = rhs == 0 && leb (promoted w) (bits w) && leb (2 ^ (bits w - 1)) lhs

abbrev pub defined_as : Bool → ℕ → Option ℕ
defined_as true v = none
defined_as false v = some v

-- At every width, the branch for other machines computes the arithmetic shift of the x86 branch,
-- but for a negative 32- or 64-bit number shifted by 0, where its mask shift is undefined.
pub shr_signed_portable-eq-shr_signed :
    (w : Width) (lhs rhs : ℕ)
    → lhs < 2 ^ bits w
    → shr_signed_portable w lhs rhs ≡ defined_as (undefined_shift w lhs rhs) (shr_signed w lhs rhs)
unfolding shr_signed_portable shr_signed
shr_signed_portable-eq-shr_signed w8 x r h = elim (dec_lt r 8) [
  | yes p ↦ ground (
    arith,
    native-filled 8 r x (omega arith) h,
    wide-filled 8 r x (omega arith) h,
    low 8 r x (omega arith) h,
  )
  | no p ↦ ground arith
]
shr_signed_portable-eq-shr_signed w16 x r h = elim (dec_lt r 16) [
  | yes p ↦ ground (
    arith,
    native-filled 16 r x (omega arith) h,
    wide-filled 16 r x (omega arith) h,
    low 16 r x (omega arith) h,
  )
  | no p ↦ ground arith
]
shr_signed_portable-eq-shr_signed w32 x r h = elim (dec_lt r 32) [
  | yes p ↦ ground (
    arith,
    native-filled 32 r x (omega arith) h,
    narrow-filled 32 r x (omega arith) h,
    low 32 r x (omega arith) h,
  )
  | no p ↦ ground arith
]
shr_signed_portable-eq-shr_signed w64 x r h = elim (dec_lt r 64) [
  | yes p ↦ ground (
    arith,
    native-filled 64 r x (omega arith) h,
    narrow-filled 64 r x (omega arith) h,
    low 64 r x (omega arith) h,
  )
  | no p ↦ ground arith
]
