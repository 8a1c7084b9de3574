-- ===== src/Types/Value/Compare.antt =====
-- Which values `Value::compares_to` tells apart.
use Prim.Native.Nat.Ordering.{eq}
use slake.Prelude.{ℕ, ◌≡◌, ◌↔◌, refl, Bool, true, false, Option, some, Ordering, arith, ap}
use slake.Words.{ℤ}
use slake.Types.Value.{
  Payload, Value, value_type, compare_payload, compares_to, equals, invalid, i8, i16, i32, i64,
  isize, u8, u16, u32, u64, usize, f32, f64, bool, object, reg_index, natural_way, integer_way,
  bool_number,
}

-- Payloads that are numbers or Booleans, or carry nothing: compared in full.
abbrev pub is_plain : Payload → Bool
is_plain (i8 _) = true
is_plain (i16 _) = true
is_plain (i32 _) = true
is_plain (i64 _) = true
is_plain (isize _) = true
is_plain (u8 _) = true
is_plain (u16 _) = true
is_plain (u32 _) = true
is_plain (u64 _) = true
is_plain (usize _) = true
is_plain (reg_index _) = true
is_plain (bool _) = true
is_plain invalid = true
is_plain _ = false

integer_way-eq : (a b : ℤ) → integer_way a b (some eq) ≡ some eq → a ≡ b
integer_way-eq a b e = ground arith

natural_way-eq : (a b : ℕ) → natural_way a b (some eq) ≡ some eq → a ≡ b
natural_way-eq a b e = ground arith

bool_number-injective : (a b : Bool) → bool_number a ≡ bool_number b → a ≡ b
bool_number-injective a b e = ground arith

-- Behind equal value types, plain payloads that compare equal are the same.
compare_payload-eq :
    (p q : Payload)
    → is_plain p ≡ true
    → value_type p ≡ value_type q
    → compare_payload p q ≡ some eq
    → p ≡ q
unfolding compare_payload
compare_payload-eq (i8 a) (i8 b) h v e = ap i8 (integer_way-eq a b e)
compare_payload-eq (i16 a) (i16 b) h v e = ap i16 (integer_way-eq a b e)
compare_payload-eq (i32 a) (i32 b) h v e = ap i32 (integer_way-eq a b e)
compare_payload-eq (i64 a) (i64 b) h v e = ap i64 (integer_way-eq a b e)
compare_payload-eq (isize a) (isize b) h v e = ap isize (integer_way-eq a b e)
compare_payload-eq (u8 a) (u8 b) h v e = ap u8 (natural_way-eq a b e)
compare_payload-eq (u16 a) (u16 b) h v e = ap u16 (natural_way-eq a b e)
compare_payload-eq (u32 a) (u32 b) h v e = ap u32 (natural_way-eq a b e)
compare_payload-eq (u64 a) (u64 b) h v e = ap u64 (natural_way-eq a b e)
compare_payload-eq (usize a) (usize b) h v e = ap usize (natural_way-eq a b e)
compare_payload-eq (reg_index a) (reg_index b) h v e = ap reg_index (natural_way-eq a b e)
compare_payload-eq (bool a) (bool b) h v e =
    ap bool (bool_number-injective a b (natural_way-eq (bool_number a) (bool_number b) e))
compare_payload-eq invalid invalid h v e = refl
compare_payload-eq _ _ h v e = ground arith

compare_payload_refl : (p : Payload) → is_plain p ≡ true → compare_payload p p ≡ some eq
unfolding compare_payload
compare_payload_refl (i8 a) h = ground arith
compare_payload_refl (i16 a) h = ground arith
compare_payload_refl (i32 a) h = ground arith
compare_payload_refl (i64 a) h = ground arith
compare_payload_refl (isize a) h = ground arith
compare_payload_refl (u8 a) h = ground arith
compare_payload_refl (u16 a) h = ground arith
compare_payload_refl (u32 a) h = ground arith
compare_payload_refl (u64 a) h = ground arith
compare_payload_refl (usize a) h = ground arith
compare_payload_refl (reg_index a) h = ground arith
compare_payload_refl (bool a) h = ground arith
compare_payload_refl invalid h = refl
compare_payload_refl _ h = cc

natural_way-some :
    (a b : ℕ) (rest : Option Ordering) → natural_way a b rest ≡ some eq → (a ≡ b) × (rest ≡ some eq)
natural_way-some a b rest e = (ground arith, ground arith)

-- A value that is a number, a Boolean or invalid compares equal to a value exactly if both have
-- the same payload and the same flags.
pub value_compares_to-eq_iff :
    (a b : Value)
    → is_plain a.payload ≡ true
    → (compares_to a b ≡ some eq) ↔ ((a.payload ≡ b.payload) × (a.value_flags ≡ b.value_flags))
unfolding compares_to
value_compares_to-eq_iff a b h = (
  λ e.
      let flags = natural_way-some a.value_flags b.value_flags _ e in
      let types = natural_way-some (value_type a.payload) (value_type b.payload) _ flags.1 in
      (compare_payload-eq a.payload b.payload h types.0 types.1, flags.0),
  λ e. rw (← e.0, ← e.1) (ground (arith, compare_payload_refl a.payload h)),
)

-- Any two objects with the same flags compare equal, and so do any two floats of one type.
pub equals-objects :
    (p q flags : ℕ)
    → (equals
          (record { payload = object p; value_flags = flags })
          (record { payload = object q; value_flags = flags })
        ≡ some true)
      × (equals
            (record { payload = f32 p; value_flags = flags })
            (record { payload = f32 q; value_flags = flags })
          ≡ some true)
      × (equals
            (record { payload = f64 p; value_flags = flags })
            (record { payload = f64 q; value_flags = flags })
          ≡ some true)
unfolding equals
equals-objects p q flags = (ground arith, ground arith, ground arith)
