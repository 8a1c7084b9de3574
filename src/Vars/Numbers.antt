-- ===== src/Vars/Numbers.antt =====
-- The numbers of variables of slake/rt/var_access.cc in memory.
use native.Mathlib.Nat.{mod-eq_of_lt}
use slake.Prelude.{
  ℕ, zero, suc, ◌+◌, ◌≤◌, ◌<◌, ◌^◌, ◌%◌, ◌-◌, ◌≡◌, ◌⊎◌, refl, ap, ◌∙◌, inl, Bool, true, false, some,
  ◌==◌, if◌then◌else◌, ltb, arith,
}
use slake.Words.{ℤ, signed, wrap}
use slake.Types.Value.{Value, Payload}
use slake.Exec.Memory.{Memory, load, store, store-other, load-store, load-same}
use slake.Exec.Scalars.{
  IntType, FloatType, ScalarType, int, float, scalar_size, get_scalar, scalar_payload,
}
use slake.Exec.Arith.{bool_pattern}
use slake.Vars.Objects.{World}
use slake.Vars.Read.{read_local_scalar}
use slake.Vars.Values.{read_scalar_at, null_value}
use slake.Vars.Write.{Written, is_null, put_scalar, local_number, write_local_scalar}

wrap-if :
    (w x : ℕ) (b : Bool) → x < 2 ^ w → wrap w (if b then ℤ.pos x else ℤ.negsuc (2 ^ w - 1 - x)) ≡ x
wrap-if w x true h = mod-eq_of_lt h
wrap-if w x false h =
    let same : (2 ^ w - 1 - x) % 2 ^ w ≡ 2 ^ w - 1 - x = mod-eq_of_lt (omega (arith, h)) in
    omega (arith, h, same)

wrap-signed : (w x : ℕ) → x < 2 ^ w → wrap w (signed w x) ≡ x
wrap-signed w x h = wrap-if w x (ltb x (2 ^ (w - 1))) h

-- Getting the number of a value that was made from a pattern of its size
pub get_scalar-scalar_payload :
    (s : ScalarType) (x : ℕ)
    → x < 256 ^ scalar_size s
    → (y : ℕ) × (get_scalar s (scalar_payload s x) ≡ some y)
      × (y < 256 ^ scalar_size s)
      × (scalar_payload s y ≡ scalar_payload s x)
unfolding get_scalar scalar_payload
get_scalar-scalar_payload (int IntType.i8) x h = (x, ap some (wrap-signed 8 x h), h, refl)
get_scalar-scalar_payload (int IntType.i16) x h = (x, ap some (wrap-signed 16 x h), h, refl)
get_scalar-scalar_payload (int IntType.i32) x h = (x, ap some (wrap-signed 32 x h), h, refl)
get_scalar-scalar_payload (int IntType.i64) x h = (x, ap some (wrap-signed 64 x h), h, refl)
get_scalar-scalar_payload (int IntType.isize) x h = (x, ap some (wrap-signed 64 x h), h, refl)
get_scalar-scalar_payload (int IntType.u8) x h = (x, refl, h, refl)
get_scalar-scalar_payload (int _) x h = (x, refl, h, refl)
get_scalar-scalar_payload (float FloatType.f32) x h = (x, refl, h, refl)
get_scalar-scalar_payload (float FloatType.f64) x h = (x, refl, h, refl)
get_scalar-scalar_payload ScalarType.bool zero h = (0, refl, h, refl)
get_scalar-scalar_payload ScalarType.bool (suc x) h = (1, ground arith, omega arith, ground arith)

-- A number is not null.
is_null-scalar_payload : (s : ScalarType) (x : ℕ) → is_null (scalar_payload s x) ≡ false
unfolding scalar_payload
is_null-scalar_payload (int IntType.i8) x = refl
is_null-scalar_payload (int _) x = refl
is_null-scalar_payload (float FloatType.f32) x = refl
is_null-scalar_payload (float FloatType.f64) x = refl
is_null-scalar_payload ScalarType.bool x = refl

abbrev pub is_isize : ScalarType → Bool
is_isize (int IntType.isize) = true
is_isize _ = false

local_number-get_scalar :
    (s : ScalarType) (p : Payload) → is_isize s ≡ false → local_number s p ≡ get_scalar s p
local_number-get_scalar (int IntType.isize) p h = cc h
local_number-get_scalar (int IntType.i8) p h = refl
local_number-get_scalar (int _) p h = refl
local_number-get_scalar (float t) p h = refl
local_number-get_scalar ScalarType.bool p h = refl

-- What a store at `a` leaves of the memory before `a`
abbrev pub SameBelow : ℕ → Memory → Memory → Type 0
SameBelow a m k = (b : ℕ) → b < a → k b ≡ m b

-- A number that is put is read back.
pub read_scalar_at-put_scalar :
    (s : ScalarType) (a x : ℕ) (old : Value) (m : Memory)
    → x < 256 ^ scalar_size s
    → (k : Memory) × (put_scalar s a (get_scalar s (scalar_payload s x)) m ≡ (true, k))
      × (read_scalar_at s a old k ≡ record old { payload = scalar_payload s x })
      × ((b : ℕ) → (b < a) ⊎ (a + scalar_size s ≤ b) → k b ≡ m b)
unfolding put_scalar read_scalar_at
read_scalar_at-put_scalar s a x old m h =
    let (y, got, small, same) = get_scalar-scalar_payload s x h in
    (
      store (scalar_size s) a y m,
      ap (λ o. put_scalar s a o m) got,
      ap (λ (p : Payload). record old { payload = p })
          (ap (scalar_payload s) (load-store (scalar_size s) a y m small) ∙ same),
      store-other (scalar_size s) a y m,
    )

module _ (world : World) where
  -- A local number that is written is read back, with or without a flag before it.
  pub read_local_scalar-write_local_scalar :
      (s : ScalarType) (a x : ℕ) (nullable : Bool) (old : Value) (m : Memory)
      → is_isize s ≡ false
      → x < 256 ^ scalar_size s
      → (k : Memory) × (write_local_scalar world s a nullable (scalar_payload s x) m ≡ (true, k))
        × (read_local_scalar world s a nullable old k ≡ record old { payload = scalar_payload s x })
        × SameBelow a m k
  unfolding write_local_scalar read_local_scalar
  read_local_scalar-write_local_scalar s a x false old m n h =
      let (k, put, got, same) = read_scalar_at-put_scalar s a x old m h in
      (
        k,
        ap (λ o. put_scalar s a o m) (local_number-get_scalar s _ n) ∙ put,
        got,
        λ b p. same b (inl p),
      )
  read_local_scalar-write_local_scalar s a x true old m n h =
      let flagged = store 1 a 0 m in
      let (k, put, got, same) = read_scalar_at-put_scalar s (a + 1) x old flagged h in
      let flag : load 1 a k ≡ 0 =
        load-same 1 a k flagged (λ b p q. same b (inl (omega (arith, q))))
        ∙ load-store 1 a 0 m (omega arith) in
      (
        k,
        ap
              (λ (b : Bool).
                let l : Memory = store 1 a (bool_pattern b) m in
                let out : Written =
                  if b
                  then (true, l)
                  else put_scalar s (a + 1) (local_number s (scalar_payload s x)) l in
                out)
              (is_null-scalar_payload s x)
            ∙ (ap (λ o. put_scalar s (a + 1) o flagged) (local_number-get_scalar s _ n) ∙ put),
        ap (λ l. if l == 0 then read_scalar_at s (a + 1) old k else null_value) flag ∙ got,
        λ b p. same b (inl (omega (arith, p))) ∙ store-other 1 a 0 m b (inl p),
      )
