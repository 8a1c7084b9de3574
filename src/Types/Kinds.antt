-- ===== src/Types/Kinds.antt =====
-- The enumerations of slake/type.h with their numbers, by which the code compares them.
use slake.Prelude.{ℕ, ◌≡◌, refl, ap, ◌∙◌, sym, List, [], ◌∷◌, Bool, true, false, get_or}

pub data TypeId : Type 0 where
  invalid void i8 i16 i32 i64 isize u8 : TypeId
  u16 u32 u64 usize f32 f64 bool object : TypeId
  string instance struct_instance scoped_enum typeless_scoped_enum union_enum union_enum_item
        generic_arg :
      TypeId
  array ref temp_ref tuple simd fn param_type_list unpacking : TypeId
  any unknown : TypeId

-- The underlying uint8_t.
abbrev pub type_code : TypeId → ℕ
type_code invalid = 0
type_code void = 1
type_code i8 = 2
type_code i16 = 3
type_code i32 = 4
type_code i64 = 5
type_code isize = 6
type_code u8 = 7
type_code u16 = 8
type_code u32 = 9
type_code u64 = 10
type_code usize = 11
type_code f32 = 12
type_code f64 = 13
type_code bool = 14
type_code object = 15
type_code string = 16
type_code instance = 17
type_code struct_instance = 18
type_code scoped_enum = 19
type_code typeless_scoped_enum = 20
type_code union_enum = 21
type_code union_enum_item = 22
type_code generic_arg = 23
type_code array = 24
type_code ref = 25
type_code temp_ref = 26
type_code tuple = 27
type_code simd = 28
type_code fn = 29
type_code param_type_list = 30
type_code unpacking = 31
type_code any = 32
type_code unknown = 33

abbrev pub all_types : List TypeId
all_types =
    invalid ∷ void ∷ i8 ∷ i16 ∷ i32 ∷ i64 ∷ isize ∷ u8 ∷ u16 ∷ u32 ∷ u64 ∷ usize ∷ f32 ∷ f64 ∷ bool
    ∷ object ∷ string ∷ instance ∷ struct_instance ∷ scoped_enum ∷ typeless_scoped_enum ∷ union_enum
    ∷ union_enum_item ∷ generic_arg ∷ array ∷ ref ∷ temp_ref ∷ tuple ∷ simd ∷ fn ∷ param_type_list
    ∷ unpacking ∷ any ∷ unknown ∷ []

type_at-type_code : (t : TypeId) → get_or all_types (type_code t) invalid ≡ t
type_at-type_code invalid = refl
type_at-type_code _ = refl

-- Different type ids have different numbers.
pub type_code-injective : (s t : TypeId) → type_code s ≡ type_code t → s ≡ t
type_code-injective s t e =
    sym (type_at-type_code s) ∙ (ap (λ (n : ℕ). get_or all_types n invalid) e ∙ type_at-type_code t)

-- Runtime::is_basic_type: the types that no type definition object describes.
abbrev pub is_basic_type : TypeId → Bool
is_basic_type void = true
is_basic_type i8 = true
is_basic_type i16 = true
is_basic_type i32 = true
is_basic_type i64 = true
is_basic_type isize = true
is_basic_type u8 = true
is_basic_type u16 = true
is_basic_type u32 = true
is_basic_type u64 = true
is_basic_type usize = true
is_basic_type f32 = true
is_basic_type f64 = true
is_basic_type bool = true
is_basic_type object = true
is_basic_type string = true
is_basic_type any = true
is_basic_type unknown = true
is_basic_type _ = false
