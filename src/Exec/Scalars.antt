-- ===== src/Exec/Scalars.antt =====
-- The number types of the instructions of slake/rt/exec.cc: their banks of registers and their
-- members of Value. A number is its bit pattern.
use slake.Prelude.{ℕ, Bool, true, false, not, Option, none, some, ◌==◌, if◌then◌else◌}
use slake.Words.{ℤ, signed, wrap}
use slake.Types.Value.{Payload}
use slake.Frames.Major.{InsRegType}

pub data IntType : Type 0 where
  i8 i16 i32 i64 isize u8 u16 u32 u64 usize : IntType

pub data FloatType : Type 0 where
  f32 f64 : FloatType

pub data ScalarType : Type 0 where
  int : IntType → ScalarType
  float : FloatType → ScalarType
  bool : ScalarType

abbrev pub int_bits : IntType → ℕ
int_bits i8 = 8
int_bits i16 = 16
int_bits i32 = 32
int_bits i64 = 64
int_bits isize = 64
int_bits u8 = 8
int_bits u16 = 16
int_bits u32 = 32
int_bits u64 = 64
int_bits usize = 64

abbrev pub is_signed : IntType → Bool
is_signed i8 = true
is_signed i16 = true
is_signed i32 = true
is_signed i64 = true
is_signed isize = true
is_signed _ = false

-- The integer that a pattern stands for.
abbrev pub int_value : IntType → ℕ → ℤ
int_value t x = if is_signed t then signed (int_bits t) x else ℤ.pos x

abbrev pub int_size : IntType → ℕ
int_size i8 = 1
int_size i16 = 2
int_size i32 = 4
int_size i64 = 8
int_size isize = 8
int_size u8 = 1
int_size u16 = 2
int_size u32 = 4
int_size u64 = 8
int_size usize = 8

-- sizeof
abbrev pub scalar_size : ScalarType → ℕ
scalar_size (int t) = int_size t
scalar_size (float f32) = 4
scalar_size (float f64) = 8
scalar_size bool = 1

abbrev pub int_bank : IntType → InsRegType
int_bank i8 = InsRegType.i8
int_bank i16 = InsRegType.i16
int_bank i32 = InsRegType.i32
int_bank i64 = InsRegType.i64
int_bank isize = InsRegType.isize
int_bank u8 = InsRegType.u8
int_bank u16 = InsRegType.u16
int_bank u32 = InsRegType.u32
int_bank u64 = InsRegType.u64
int_bank usize = InsRegType.usize

abbrev pub scalar_bank : ScalarType → InsRegType
scalar_bank (int t) = int_bank t
scalar_bank (float f32) = InsRegType.f32
scalar_bank (float f64) = InsRegType.f64
scalar_bank bool = InsRegType.bool

-- get_i8 .. get_bool of Value, which assert that the value has the type; `none` where it has not.
-- is_i8 .. is_bool tell whether there is a pattern.
unfoldable pub get_scalar : ScalarType → Payload → Option ℕ
get_scalar (int i8) (Payload.i8 z) = some (wrap 8 z)
get_scalar (int i16) (Payload.i16 z) = some (wrap 16 z)
get_scalar (int i32) (Payload.i32 z) = some (wrap 32 z)
get_scalar (int i64) (Payload.i64 z) = some (wrap 64 z)
get_scalar (int isize) (Payload.isize z) = some (wrap 64 z)
get_scalar (int u8) (Payload.u8 n) = some n
get_scalar (int u16) (Payload.u16 n) = some n
get_scalar (int u32) (Payload.u32 n) = some n
get_scalar (int u64) (Payload.u64 n) = some n
get_scalar (int usize) (Payload.usize n) = some n
get_scalar (float f32) (Payload.f32 n) = some n
get_scalar (float f64) (Payload.f64 n) = some n
get_scalar bool (Payload.bool b) = some (if b then 1 else 0)
get_scalar _ _ = none

-- The constructors of Value and its assignments from numbers. A bool is a byte that is not 0.
unfoldable pub scalar_payload : ScalarType → ℕ → Payload
scalar_payload (int i8) x = Payload.i8 (signed 8 x)
scalar_payload (int i16) x = Payload.i16 (signed 16 x)
scalar_payload (int i32) x = Payload.i32 (signed 32 x)
scalar_payload (int i64) x = Payload.i64 (signed 64 x)
scalar_payload (int isize) x = Payload.isize (signed 64 x)
scalar_payload (int u8) x = Payload.u8 x
scalar_payload (int u16) x = Payload.u16 x
scalar_payload (int u32) x = Payload.u32 x
scalar_payload (int u64) x = Payload.u64 x
scalar_payload (int usize) x = Payload.usize x
scalar_payload (float f32) x = Payload.f32 x
scalar_payload (float f64) x = Payload.f64 x
scalar_payload bool x = Payload.bool (not (x == 0))
