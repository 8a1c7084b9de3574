-- ===== src/Vars/Write.antt =====
-- write_var, _write_local_var and _write_field of slake/rt/var_access.cc. The result is whether the
-- value was written, and the memory.
use Prim.Native.Nat.{bit_and}
use slake.Prelude.{
  ℕ, ◌+◌, ◌*◌, Bool, true, false, not, ◌&&◌, ◌||◌, Option, none, some, ◌==◌, if◌then◌else◌,
}
use slake.Types.Kinds.{TypeId}
use slake.Types.TypeRef.{TypeRef}
use slake.Types.Reference.{Reference, ReferenceKind}
use slake.Types.Value.{Value, Payload, value_type}
use slake.Exec.Memory.{Memory, load, store}
use slake.Exec.Scalars.{IntType, ScalarType, int, scalar_size, get_scalar}
use slake.Exec.Arith.{bool_pattern}
use slake.Vars.Objects.{World, ArrayObject, ◌>>=◌, ◌>>◌, require, header, inner_kind}
use slake.Vars.Locate.{local_base, coroutine_base, locate_value_base_ptr, typeof_var}
use slake.Vars.Read.{coroutine_arg_addr, frame_arg_addr}
use slake.Vars.Values.{scalar_of, sized_scalar_of, is_nullable, is_local, is_object_type}

-- Value::is_null, is_local and the asserting get_object and get_reference
abbrev pub is_null : Payload → Bool
is_null (Payload.object a) = a == 0
is_null _ = false

abbrev pub is_local_payload : ℕ → Payload → Bool
is_local_payload flags (Payload.reference r) = not (bit_and flags 1 == 0)
is_local_payload flags _ = false

abbrev pub is_local_value : Value → Bool
is_local_value v = is_local_payload v.value_flags v.payload

abbrev pub get_object : Payload → Option ℕ
get_object (Payload.object a) = some a
get_object _ = none

abbrev pub get_reference : Payload → Option Reference
get_reference (Payload.reference r) = some r
get_reference _ = none

abbrev pub Written : Type 0
Written = Bool × Memory

-- The number of a value of the type, or no change
unfoldable pub put_scalar : ScalarType → ℕ → Option ℕ → Memory → Written
unfolding store
put_scalar s a none m = (false, m)
put_scalar s a (some x) m = (true, store (scalar_size s) a x m)

-- What a local variable of a number type gets: for ISize it is value.is_null().
abbrev pub local_number : ScalarType → Payload → Option ℕ
local_number (int IntType.isize) (Payload.isize z) = some 0
local_number s p = get_scalar s p

abbrev pub is_struct_type : TypeId → Bool
is_struct_type TypeId.struct_instance = true
is_struct_type TypeId.union_enum = true
is_struct_type TypeId.union_enum_item = true
is_struct_type _ = false

-- The types of the objects that a field or an element is written with
abbrev pub is_field_object : TypeId → Bool
is_field_object TypeId.string = true
is_field_object TypeId.instance = true
is_field_object TypeId.array = true
is_field_object _ = false

module _ (world : World) where
  unfoldable pub write_local_scalar : ScalarType → ℕ → Bool → Payload → Memory → Written
  unfolding put_scalar get_scalar store
  write_local_scalar s a false p m = put_scalar s a (local_number s p) m
  write_local_scalar s a true p m =
      let flagged = store 1 a (bool_pattern (is_null p)) m in
      if is_null p then (true, flagged) else put_scalar s (a + 1) (local_number s p) flagged

  -- The object, behind the type definition at `a`
  unfoldable pub write_local_object : Bool → ℕ → Value → Memory → Option Written
  unfolding store
  write_local_object false a v m = some (false, m)
  write_local_object true a v m = do o ← get_object v.payload; some (true, store 8 (a + 8) o m)

  -- memcpy from the value's variable
  unfoldable pub write_local_struct : Bool → TypeRef → ℕ → Value → Memory → Option Written
  unfolding load store locate_value_base_ptr
  write_local_struct false t a v m = some (false, m)
  write_local_struct true t a v m = do
    r ← get_reference v.payload
    source ← locate_value_base_ptr world m r
    size ← world.sizeof_type t
    some (true, store size (a + 8) (load size source m) m)

  abbrev pub with_def : TypeRef → ℕ → Memory → TypeRef
  with_def t a m = record t { type_def = load 8 a m }

  unfoldable pub write_local_by :
      TypeRef → TypeId → Option ScalarType → ℕ → Value → Memory → Option Written
  unfolding write_local_scalar write_local_object write_local_struct is_nullable load
  write_local_by t id (some s) a v m = some (write_local_scalar s a (is_nullable t) v.payload m)
  write_local_by t TypeId.ref none a v m = some (world.is_compatible (with_def t a m) v, m)
  write_local_by t id none a v m =
      if is_object_type id
      then write_local_object (world.is_compatible (with_def t a m) v) a v m
      else if is_struct_type id
      then write_local_struct (world.is_compatible (with_def t a m) v) (with_def t a m) a v m
      else none

  -- _write_local_var
  unfoldable pub write_local_var : TypeRef → ℕ → Value → Memory → Option Written
  unfolding write_local_by
  write_local_var t a v m = write_local_by t t.type_id (scalar_of t.type_id) a v m

  -- The flag of a nullable field is set; for all types but I8 the test of it is negated.
  unfoldable pub write_field_scalar : ScalarType → ℕ → Bool → Payload → Memory → Written
  unfolding put_scalar get_scalar store
  write_field_scalar s a false p m = put_scalar s a (get_scalar s p) m
  write_field_scalar (int IntType.i8) a true p m =
      let flagged = store 1 (a + 1) (bool_pattern (is_null p)) m in
      if is_null p
      then (true, flagged)
      else put_scalar (int IntType.i8) a (get_scalar (int IntType.i8) p) flagged
  write_field_scalar s a true p m =
      let flagged = store 1 (a + scalar_size s) (bool_pattern (is_null p)) m in
      if not (is_null p) then (true, flagged) else put_scalar s a (get_scalar s p) flagged

  unfoldable pub put_object : ℕ → Payload → Memory → Option Written
  unfolding store
  put_object a p m = do o ← get_object p; some (true, store 8 a o m)

  unfoldable pub write_field_by :
      TypeRef → TypeId → Option ScalarType → ℕ → Value → Memory → Option Written
  unfolding write_field_scalar put_object is_nullable is_local
  write_field_by t id (some s) a v m = some (write_field_scalar s a (is_nullable t) v.payload m)
  write_field_by t id none a v m = do
    require (is_field_object id && not (is_local t) && not (is_local_value v))
    (if world.is_compatible_type t (value_type v.payload)
        then put_object a v.payload m
        else some (false, m))

  -- _write_field
  unfoldable pub write_field : Reference → Value → Memory → Option Written
  unfolding typeof_var locate_value_base_ptr write_field_by
  write_field r v m = do
    t ← typeof_var world m r
    a ← locate_value_base_ptr world m r
    write_field_by t t.type_id (sized_scalar_of t.type_id) a v m

  unfoldable pub write_element_by :
      Reference → ArrayObject → TypeId → Option ScalarType → Value → Memory → Option Written
  unfolding put_scalar get_scalar put_object is_local
  write_element_by r o id (some s) v m =
      some (put_scalar s (o.elements + scalar_size s * r.index) (get_scalar s v.payload) m)
  write_element_by r o id none v m = do
    require (is_field_object id && not (is_local o.element_type) && not (is_local_value v))
    put_object (o.elements + 8 * r.index) v.payload m

  -- The index is not checked.
  unfoldable pub write_element : Reference → Value → Memory → Option Written
  unfolding write_element_by is_nullable
  write_element r v m = do
    let o = world.array r.pointer
    require (not (is_nullable o.element_type) || is_null v.payload)
    write_element_by r o o.element_type.type_id (sized_scalar_of o.element_type.type_id) v m

  abbrev pub may_be_local : Bool → Option TypeRef → Option (Unit {0})
  may_be_local false t = some tt
  may_be_local true none = none
  may_be_local true (some t) = require (is_local t)

  unfoldable pub write_arg : Reference → Option ℕ → Value → Memory → Option Written
  unfolding typeof_var is_local
  write_arg r a v m = do
    may_be_local (is_local_value v) (typeof_var world m r)
    at ← a
    some (true, world.value_bytes.store_value at v m)

  unfoldable pub write_by : Reference → ReferenceKind → Value → Memory → Option Written
  unfolding write_local_var write_element write_arg write_field
  write_by r ReferenceKind.local_var_ref v m =
      let base = local_base world r in write_local_var (header base m) (base + 2) v m
  write_by r ReferenceKind.coroutine_local_var_ref v m =
      let base = coroutine_base world r in write_local_var (header base m) (base + 2) v m
  write_by r ReferenceKind.array_element_ref v m = write_element r v m
  write_by r ReferenceKind.arg_ref v m = write_arg r (some (frame_arg_addr world r)) v m
  write_by r ReferenceKind.coroutine_arg_ref v m =
      write_arg r (coroutine_arg_addr world r (world.coroutine r.pointer).cur_context) v m
  write_by r ReferenceKind.static_field_ref v m = write_field r v m
  write_by r ReferenceKind.object_field_ref v m = write_field r v m
  write_by r ReferenceKind.init_object_layout_field_ref v m = write_field r v m
  write_by r kind v m = elim (inner_kind kind) [ some inner ↦ write_field r v m | none ↦ none ]

  -- write_var
  unfoldable pub write_var : Reference → Value → Memory → Option Written
  unfolding write_by
  write_var r v m = write_by r r.kind v m
