-- ===== src/Exec/Moves.antt =====
-- The instructions of _exec_ins of slake/rt/exec.cc that move values, objects and references.
pub mod Defects
use slake.Prelude.{
  ℕ, ◌%◌, ◌^◌, Bool, true, false, not, ◌&&◌, Option, none, some, ◌==◌, ltb, if◌then◌else◌, length,
  get_elem?,
}
use slake.Flib.Operand.{ins_operand_as_unsigned}
use slake.Types.Kinds.{TypeId}
use slake.Types.TypeRef.{TypeRef}
use slake.Types.Reference.{Reference, ReferenceKind}
use slake.Types.Value.{Value, Payload}
use slake.Frames.Stack.{calc_stack_addr}
use slake.Frames.Major.{InsRegType, FnOverloadingObject}
use slake.Exec.Scalars.{ScalarType, scalar_bank, get_scalar, scalar_payload}
use slake.Exec.Arith.{bool_pattern}
use slake.Exec.Opcode.{Instruction}
use slake.Exec.Machine.{
  Machine, Action, Env, RegularFn, ObjectKind, is_found, Error, ◌>>=◌, ◌>>◌, pure, throw, gets,
  defined, or_throw, require, invalid_operands, frame_at, check_reg_index, read_scalar,
  write_scalar, read_object, read_value, write_value, reg_addr,
}
use slake.Exec.Numeric.{any_number, bank_scalar}

-- is_reference with get_reference, is_object with get_object, is_type_name with get_type_name
abbrev pub reference_of : Payload → Option Reference
reference_of (Payload.reference r) = some r
reference_of _ = none

abbrev pub object_of : Payload → Option ℕ
object_of (Payload.object a) = some a
object_of _ = none

abbrev pub type_name_of : Payload → Option TypeRef
type_name_of (Payload.type_name t) = some t
type_name_of _ = none

-- An object that is not null
abbrev pub non_null : Option ℕ → Option ℕ
non_null none = none
non_null (some a) = if a == 0 then none else some a

abbrev pub has_value : Option ℕ → Bool
has_value none = false
has_value (some x) = true

-- A value that a constructor of Value or an assignment makes, without flags.
abbrev pub plain : Payload → Value
plain p = record { payload = p; value_flags = 0 }

-- get_object_kind() == ObjectKind::IdRef
abbrev pub is_id_ref : ObjectKind → Bool
is_id_ref ObjectKind.id_ref = true
is_id_ref _ = false

abbrev pub address_of : Option FnOverloadingObject → ℕ
address_of none = 0
address_of (some f) = f.address

-- ArgRef
abbrev pub arg_ref : ℕ → ℕ → Reference
arg_ref frame index = record {
  kind = ReferenceKind.arg_ref;
  pointer = frame;
  index = index;
  struct_field_index = 0;
}

module _ (env : Env) (ol : RegularFn) (off : ℕ) where
  -- The value in an Any register, after the check of its index.
  unfoldable pub any_register : ℕ → Action Value
  unfolding read_value
  any_register reg = do check_reg_index env ol off reg InsRegType.any; read_value env ol off reg

  -- _lvalue_opcode. The test of the type is made on the reference, not on the value read.
  unfoldable pub exec_lvalue_scalar : ScalarType → Instruction → Action (Unit {0})
  unfolding any_register write_scalar get_scalar
  exec_lvalue_scalar t ins = do
    check_reg_index env ol off ins.reg_out (scalar_bank t)
    source ← any_register ins.reg0
    r ← or_throw (reference_of source.payload) invalid_operands
    v ← env.read_var r
    require (not (has_value (get_scalar t source.payload)))
    x ← defined (get_scalar t v.payload)
    write_scalar env ol off t ins.reg_out x

  -- LVALUE
  unfoldable pub exec_lvalue : Instruction → Action (Unit {0})
  unfolding any_register write_value
  exec_lvalue ins = do
    check_reg_index env ol off ins.reg_out InsRegType.any
    source ← any_register ins.reg0
    r ← or_throw (reference_of source.payload) invalid_operands
    v ← env.read_var r
    write_value env ol off ins.reg_out v

  -- _basic_type_store_opcode, STOREISIZE and STOREUSIZE
  unfoldable pub exec_store_scalar : ScalarType → Instruction → Action (Unit {0})
  unfolding read_value read_scalar scalar_payload
  exec_store_scalar t ins = do
    check_reg_index env ol off ins.reg0 InsRegType.any
    check_reg_index env ol off ins.reg1 (scalar_bank t)
    dest ← read_value env ol off ins.reg0
    r ← or_throw (reference_of dest.payload) invalid_operands
    x ← read_scalar env ol off t ins.reg1
    written ← env.write_var r (plain (scalar_payload t x))
    require written

  -- STORE
  unfoldable pub exec_store : Instruction → Action (Unit {0})
  unfolding read_value
  exec_store ins = do
    check_reg_index env ol off ins.reg0 InsRegType.any
    check_reg_index env ol off ins.reg1 InsRegType.any
    dest ← read_value env ol off ins.reg0
    source ← read_value env ol off ins.reg1
    r ← or_throw (reference_of dest.payload) invalid_operands
    written ← env.write_var r source
    require written

  -- LOBJ. The output register is checked as an Object and written as an Any.
  unfoldable pub exec_lobj : Instruction → Action (Unit {0})
  unfolding write_value ins_operand_as_unsigned
  exec_lobj ins = do
    check_reg_index env ol off ins.reg_out InsRegType.object
    o ←
        or_throw (get_elem? ol.ins_object_set (ins_operand_as_unsigned 32 ins.operand0))
          invalid_operands
    write_value env ol off ins.reg_out (plain (Payload.object o))

  -- LTYPE
  unfoldable pub exec_ltype : Instruction → Action (Unit {0})
  unfolding write_value ins_operand_as_unsigned
  exec_ltype ins = do
    check_reg_index env ol off ins.reg_out InsRegType.any
    t ←
        or_throw (get_elem? ol.ins_type_set (ins_operand_as_unsigned 32 ins.operand0))
          invalid_operands
    write_value env ol off ins.reg_out (plain (Payload.type_name t))

  -- EQTYPE and NEQTYPE. What is compared is the addresses of the registers.
  unfoldable pub exec_compare_types : (Bool → Bool) → Instruction → Action (Unit {0})
  unfolding read_value write_scalar
  exec_compare_types result ins = do
    check_reg_index env ol off ins.reg0 InsRegType.any
    a ← read_value env ol off ins.reg0
    check_reg_index env ol off ins.reg1 InsRegType.object
    _ ← or_throw (type_name_of a.payload) invalid_operands
    b ← read_value env ol off ins.reg1
    _ ← or_throw (type_name_of b.payload) invalid_operands
    check_reg_index env ol off ins.reg_out InsRegType.bool
    p ← gets (reg_addr off InsRegType.any env.sizes.sizeof_value ins.reg0)
    q ← gets (reg_addr off InsRegType.any env.sizes.sizeof_value ins.reg1)
    write_scalar env ol off ScalarType.bool ins.reg_out (bool_pattern (result (p == q)))

  -- The rest of LOAD and RLOAD. The result is converted to a bool, which is what the register
  -- gets; its flags stay.
  unfoldable pub resolved : ℕ → Option ℕ → ℕ → Action (Unit {0})
  unfolding read_value write_value
  resolved id scope reg_out = do
    require (is_id_ref (env.object_at id))
    found ← env.resolve_id_ref id scope
    _ ←
        or_throw (if is_found found then some found else none)
          (Error.referenced_member_not_found id)
    old ← read_value env ol off reg_out
    write_value env ol off reg_out (record old { payload = Payload.bool true })

  -- LOAD. The value must be a reference, and the object in it is read.
  unfoldable pub exec_load : Instruction → Action (Unit {0})
  unfolding any_register resolved
  exec_load ins = do
    check_reg_index env ol off ins.reg_out InsRegType.any
    source ← any_register ins.reg0
    _ ← or_throw (reference_of source.payload) invalid_operands
    o ← defined (object_of source.payload)
    id ← or_throw (non_null (some o)) invalid_operands
    resolved id none ins.reg_out

  -- RLOAD
  unfoldable pub exec_rload : Instruction → Action (Unit {0})
  unfolding any_register resolved
  exec_rload ins = do
    check_reg_index env ol off ins.reg_out InsRegType.any
    base ← any_register ins.reg0
    scope ← or_throw (non_null (object_of base.payload)) invalid_operands
    source ← any_register ins.reg1
    id ← or_throw (non_null (object_of source.payload)) invalid_operands
    resolved id (some scope) ins.reg_out

  -- LCURFN
  unfoldable pub exec_lcurfn : Instruction → Action (Unit {0})
  unfolding write_value
  exec_lcurfn ins = do
    check_reg_index env ol off ins.reg_out InsRegType.any
    f ← gets (frame_at off)
    write_value env ol off ins.reg_out (plain (Payload.object (address_of f.cur_fn)))

  -- LARG with larg. The register is written also where the argument is not there.
  unfoldable pub exec_larg : Instruction → Action (Unit {0})
  unfolding write_value ins_operand_as_unsigned
  exec_larg ins = do
    check_reg_index env ol off ins.reg_out InsRegType.any
    let index = ins_operand_as_unsigned 32 ins.operand0
    write_value env ol off ins.reg_out (plain (Payload.reference (arg_ref 0 4294967295)))
    f ← gets (frame_at off)
    require (ltb index f.num_args)
    frame ← gets (λ m. calc_stack_addr m.context.stack off)
    write_value env ol off ins.reg_out (plain (Payload.reference (arg_ref frame index)))

  -- LVAR
  unfoldable pub exec_lvar : Instruction → Action (Unit {0})
  unfolding any_register write_value
  exec_lvar ins = do
    check_reg_index env ol off ins.reg_out InsRegType.any
    source ← any_register ins.reg0
    t ← or_throw (type_name_of source.payload) invalid_operands
    r ← env.add_local_var off t ins.reg_out
    write_value env ol off ins.reg_out (plain (Payload.reference r))

  -- LTHIS
  unfoldable pub exec_lthis : Instruction → Action (Unit {0})
  unfolding write_value
  exec_lthis ins = do
    check_reg_index env ol off ins.reg_out InsRegType.any
    f ← gets (frame_at off)
    write_value env ol off ins.reg_out (plain (Payload.object f.this_object))

  abbrev pub class_type : TypeRef → TypeId → Option TypeRef
  class_type t TypeId.instance = some t
  class_type t _ = none

  -- NEW. The instance is written to the register of the type.
  unfoldable pub exec_new : Instruction → Action (Unit {0})
  unfolding any_register write_value
  exec_new ins = do
    source ← any_register ins.reg0
    t ← or_throw (type_name_of source.payload) invalid_operands
    check_reg_index env ol off ins.reg_out InsRegType.any
    c ← or_throw (class_type t t.type_id) invalid_operands
    made ← env.new_class_instance c
    o ← or_throw made invalid_operands
    write_value env ol off ins.reg0 (plain (Payload.object o))
