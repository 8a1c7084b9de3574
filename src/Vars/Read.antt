-- ===== src/Vars/Read.antt =====
-- read_var, _read_local_var and _read_field of slake/rt/var_access.cc. What a value keeps of the
-- one that it overwrites are its flags.
use slake.Prelude.{
  ℕ, ◌+◌, ◌*◌, Bool, true, false, not, ◌&&◌, Option, none, some, ◌==◌, ltb, if◌then◌else◌,
}
use slake.Types.Kinds.{TypeId}
use slake.Types.TypeRef.{TypeRef}
use slake.Types.Reference.{Reference, ReferenceKind}
use slake.Types.Value.{Value, Payload}
use slake.Frames.Stack.{DataStack, calc_stack_addr}
use slake.Exec.Memory.{Memory, load}
use slake.Exec.Scalars.{ScalarType, scalar_size}
use slake.Vars.Objects.{
  World, ArgFrame, ArrayObject, Binding, bound, unbound, ◌>>=◌, ◌>>◌, require, type_at, inner_kind,
}
use slake.Vars.Locate.{
  is_typed_with_def, local_base, coroutine_base, local_type, locate_value_base_ptr, typeof_var,
}
use slake.Vars.Values.{
  scalar_of, sized_scalar_of, is_nullable, is_local, null_value, with_local, is_object_type,
  read_scalar_at, object_at,
}

module _ (world : World) where
  abbrev pub reference_at : ℕ → Value → Memory → Value
  reference_at a old m = record old { payload = Payload.reference (world.load_reference a m) }

  -- A nullable local number has a flag before it.
  unfoldable pub read_local_scalar : ScalarType → ℕ → Bool → Value → Memory → Value
  unfolding read_scalar_at
  read_local_scalar s a false old m = read_scalar_at s a old m
  read_local_scalar s a true old m =
      if load 1 a m == 0 then read_scalar_at s (a + 1) old m else null_value

  unfoldable pub read_local_by :
      Reference → TypeRef → TypeId → Option ScalarType → ℕ → Value → Memory → Option Value
  unfolding read_local_scalar is_nullable with_local
  read_local_by r t id (some s) a old m = some (read_local_scalar s a (is_nullable t) old m)
  read_local_by r t TypeId.struct_instance none a old m =
      if is_nullable t && not (load 1 a m == 0)
      then some null_value
      else with_local t (record old { payload = Payload.reference r })
  read_local_by r t TypeId.ref none a old m = with_local t (reference_at a old m)
  read_local_by r t TypeId.any none a old m = with_local t (world.value_bytes.load_value a m)
  read_local_by r t id none a old m =
      if is_object_type id then with_local t (object_at a old m) else none

  -- _read_local_var
  unfoldable pub read_local_var : Reference → ℕ → TypeRef → Value → Memory → Option Value
  unfolding read_local_by
  read_local_var r a t old m = read_local_by r t t.type_id (scalar_of t.type_id) a old m

  -- A nullable number in a field has a flag behind it.
  unfoldable pub read_field_scalar : ScalarType → ℕ → Bool → Value → Memory → Value
  unfolding read_scalar_at
  read_field_scalar s a nullable old m =
      if nullable && not (load 1 (a + scalar_size s) m == 0)
      then null_value
      else read_scalar_at s a old m

  unfoldable pub read_enum :
      TypeRef → TypeRef → Option ScalarType → ℕ → Value → Memory → Option Value
  unfolding read_field_scalar is_nullable
  read_enum t base (some s) a old m = some (read_field_scalar s a (is_nullable t) old m)
  read_enum t base none a old m = elim base.type_id [ TypeId.invalid ↦ some old | _ ↦ none ]

  unfoldable pub read_field_by :
      Reference → TypeRef → TypeId → Option ScalarType → ℕ → Value → Memory → Option Value
  unfolding read_field_scalar read_enum is_nullable is_local
  read_field_by r t id (some s) a old m = some (read_field_scalar s a (is_nullable t) old m)
  read_field_by r t TypeId.struct_instance none a old m = do
    flag ←
        (if is_nullable t then (world.sizeof_type t >>= λ n. some (load 1 (a + n) m)) else some 0)
    some (if flag == 0 then record old { payload = Payload.reference r } else null_value)
  read_field_by r t TypeId.scoped_enum none a old m = do
    base ← world.enum_base t.type_def
    read_enum t base (scalar_of base.type_id) a old m
  read_field_by r t TypeId.typeless_scoped_enum none a old m = some (
      if is_nullable t && not (load 1 (a + 4) m == 0)
      then null_value
      else record old { payload = Payload.typeless_scoped_enum (load 4 a m) t })
  read_field_by r t TypeId.ref none a old m = do
    require (not (is_local t))
    some (reference_at a old m)
  read_field_by r t TypeId.any none a old m = do
    require (not (is_local t))
    some (world.value_bytes.load_value a m)
  read_field_by r t id none a old m = do
    require (is_object_type id && not (is_local t))
    some (object_at a old m)

  -- _read_field
  unfoldable pub read_field : Reference → Value → Memory → Option Value
  unfolding locate_value_base_ptr typeof_var read_field_by
  read_field r old m = do
    a ← locate_value_base_ptr world m r
    t ← typeof_var world m r
    read_field_by r t t.type_id (scalar_of t.type_id) a old m

  abbrev pub cleared : Payload → Value
  cleared p = record { payload = p; value_flags = 0 }

  unfoldable pub read_element_by :
      Reference → ArrayObject → TypeId → Option ScalarType → Value → Memory → Option Value
  unfolding is_local read_scalar_at
  read_element_by r o id (some s) old m =
      some (read_scalar_at s (o.elements + scalar_size s * r.index) old m)
  read_element_by r o TypeId.struct_instance none old m = do
    require (not (is_local o.element_type))
    some (cleared (Payload.reference r))
  read_element_by r o TypeId.ref none old m = do
    require (not (is_local o.element_type))
    some (
        cleared (
          Payload.reference
            (world.load_reference (o.elements + world.sizeof_reference * r.index) m)))
  read_element_by r o TypeId.any none old m = do
    require (not (is_local o.element_type))
    some (world.value_bytes.load_value (o.elements + world.sizeof_value * r.index) m)
  read_element_by r o id none old m = do
    require (is_object_type id && not (is_local o.element_type))
    some (cleared (Payload.object (load 8 (o.elements + 8 * r.index) m)))

  unfoldable pub read_element : Reference → Value → Memory → Option Value
  unfolding read_element_by is_nullable
  read_element r old m = do
    let o = world.array r.pointer
    require (ltb r.index o.length)
    require (not (is_nullable o.element_type))
    read_element_by r o o.element_type.type_id (sized_scalar_of o.element_type.type_id) old m

  -- _fetch_arg_stack and the index of the argument
  abbrev pub arg_addr : DataStack → ArgFrame → ℕ → ℕ
  arg_addr s f i = calc_stack_addr s (f.off_args + f.off_stack_top) + world.sizeof_value * i

  unfoldable pub read_arg : Reference → Option ℕ → Memory → Option Value
  unfolding typeof_var with_local
  read_arg r a m = do
    t ← typeof_var world m r
    at ← a
    with_local t (world.value_bytes.load_value at m)

  abbrev pub coroutine_arg_addr : Reference → Binding → Option ℕ
  coroutine_arg_addr r (bound s fn f) = some (arg_addr s f r.index)
  coroutine_arg_addr r (unbound s fn) = none

  abbrev pub frame_arg_addr : Reference → ℕ
  frame_arg_addr r = arg_addr (world.frame r.pointer).stack (world.frame r.pointer) r.index

  -- The data of a local variable as read_var finds it, behind the type definition
  abbrev pub read_data : ℕ → Memory → ℕ
  read_data base m = (if is_typed_with_def (type_at base m) then base + 8 else base) + 2

  unfoldable pub read_by : Reference → ReferenceKind → Value → Memory → Option Value
  unfolding read_local_var read_element read_arg read_field
  read_by r ReferenceKind.local_var_ref old m =
      let base = local_base world r in
      read_local_var r (read_data base m) (local_type world base base m) old m
  read_by r ReferenceKind.coroutine_local_var_ref old m =
      let base = coroutine_base world r in
      read_local_var r (read_data base m) (local_type world base base m) old m
  read_by r ReferenceKind.array_element_ref old m = read_element r old m
  read_by r ReferenceKind.arg_ref old m = read_arg r (some (frame_arg_addr r)) m
  read_by r ReferenceKind.coroutine_arg_ref old m =
      read_arg r (coroutine_arg_addr r (world.coroutine r.pointer).cur_context) m
  read_by r ReferenceKind.static_field_ref old m = read_field r old m
  read_by r ReferenceKind.object_field_ref old m = read_field r old m
  read_by r ReferenceKind.init_object_layout_field_ref old m = read_field r old m
  read_by r kind old m = elim (inner_kind kind) [ some inner ↦ read_field r old m | none ↦ none ]

  -- read_var
  unfoldable pub read_var : Reference → Value → Memory → Option Value
  unfolding read_by
  read_var r old m = read_by r r.kind old m
