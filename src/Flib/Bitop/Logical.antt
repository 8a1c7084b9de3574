-- ===== src/Flib/Bitop/Logical.antt =====
-- The logical shifts undo one another up to the bits that they lose.
use native.Mathlib.Nat.{
  one-le-pow, pow-le-pow_right, div-add-mod, div-add-mod', mod-lt, mod-eq_of_lt, mul-div_cancel,
  add-mul-mod_self_right, div-le_self,
}
use native.Mathlib.Decide.{dec_lt}
use slake.Prelude.{ℕ, ◌+◌, ◌-◌, ◌*◌, ◌/◌, ◌%◌, ◌^◌, ◌≤◌, ◌<◌, ◌≡◌, ◌≢◌, ap, arith}
use slake.Flib.Bitop.{Width, bits, shr_unsigned_at, shl_unsigned_at, shr_unsigned_overload}
use slake.Flib.Bitop.Portable.{pow-product}

-- Reducing a multiple of P modulo M * P.
mul-mod-mul : (x M P : ℕ) → 0 < M → 0 < P → x * P % (M * P) ≡ x % M * P
mul-mod-mul x M P m p =
    let b : ℕ = x % M in
    let a : ℕ = x / M in
    let split : M * a + b ≡ x = div-add-mod x M in
    let scaled : (M * a + b) * P ≡ x * P = ap (λ (t : ℕ). t * P) split in
    let regroup : x * P ≡ b * P + a * (M * P) = omega (arith, scaled) in
    let small : b < M = mod-lt x m in
    let below : b * P < M * P = grind arith in
    rw (regroup, add-mul-mod_self_right (b * P) a (M * P)) (mod-eq_of_lt below)

module _ (n r x : ℕ) (small : r ≤ n) where
  there : x * 2 ^ r % 2 ^ n / 2 ^ r ≡ x % 2 ^ (n - r)
  there =
      rw
        (
          ← pow-product n r small,
          mul-mod-mul x (2 ^ (n - r)) (2 ^ r) (one-le-pow (n - r) 2 (omega arith))
              (one-le-pow r 2 (omega arith)),
        )
        (mul-div_cancel (x % 2 ^ (n - r)) (one-le-pow r 2 (omega arith)))

  less : x % 2 ^ (n - r) < 2 ^ n
  less = omega (
    arith,
    mod-lt x (one-le-pow (n - r) 2 (omega arith)),
    pow-le-pow_right {n = 2} (omega arith) {i = n - r} {j = n} (omega arith),
  )

-- Shifting left and back right leaves the bits that fit: the value modulo 2 ^ (N - count), for
-- every count.
pub shr_unsigned-shl_unsigned :
    (w : Width) (lhs rhs : ℕ)
    → shr_unsigned_at w (shl_unsigned_at w lhs rhs) rhs ≡ lhs % 2 ^ (bits w - rhs)
unfolding shr_unsigned_at shl_unsigned_at
shr_unsigned-shl_unsigned w x r = elim (dec_lt r (bits w)) [
  | yes p ↦ ground (arith, there (bits w) r x (omega arith), less (bits w) r x (omega arith))
  | no p ↦ ground (arith, ap (λ (t : ℕ). 2 ^ t) (gone p))
]
  where
    gone : ¬ (r < bits w) → bits w - r ≡ 0
    gone p = omega arith

-- Shifting right and back left clears the low bits, for every count.
pub shl_unsigned-shr_unsigned :
    (w : Width) (lhs rhs : ℕ)
    → lhs < 2 ^ bits w
    → shl_unsigned_at w (shr_unsigned_at w lhs rhs) rhs ≡ lhs - lhs % 2 ^ rhs
unfolding shr_unsigned_at shl_unsigned_at
shl_unsigned-shr_unsigned w x r h = elim (dec_lt r (bits w)) [
  | yes p ↦ ground (arith, div-add-mod' x (2 ^ r), div-le_self x (2 ^ r))
  | no p ↦ ground (arith, unchanged p)
]
  where
    unchanged : ¬ (r < bits w) → x % 2 ^ r ≡ x
    unchanged p = mod-eq_of_lt (
        omega (arith, h, pow-le-pow_right {n = 2} (omega arith) {i = bits w} {j = r} (omega arith)))

-- The overload `shr_unsigned` shifts to the left: where no bit is lost it multiplies, and so it
-- is not the right shift of any number but 0 by any count but 0.
pub shr_unsigned_overload-multiplies :
    (w : Width) (lhs rhs : ℕ)
    → 0 < lhs
    → 0 < rhs
    → rhs < bits w
    → lhs * 2 ^ rhs < 2 ^ bits w
    → (shr_unsigned_overload w lhs rhs ≡ lhs * 2 ^ rhs)
      × (shr_unsigned_overload w lhs rhs ≢ shr_unsigned_at w lhs rhs)
unfolding shr_unsigned_overload shr_unsigned_at shl_unsigned_at
shr_unsigned_overload-multiplies w x r px pr small fits = (
  ground (arith, mod-eq_of_lt fits),
  λ e. ground (
    arith,
    mod-eq_of_lt fits,
    div-le_self x (2 ^ r),
    grows,
    mod-eq_of_lt {n = x / 2 ^ r} {m = 2 ^ bits w} (omega (arith, div-le_self x (2 ^ r), grows)),
  ),
)
  where
    two : 2 ≤ 2 ^ r
    two = pow-le-pow_right {n = 2} (omega arith) {i = 1} {j = r} pr

    grows : x < x * 2 ^ r
    grows = grind (arith, two)
