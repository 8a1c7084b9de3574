-- ===== src/Vars/Creation.antt =====
-- Runtime::_add_local_var and _alloc_alloca_record of slake/rt/exec.cc, in a frame of no coroutine.
pub mod Throws
pub mod Errors
pub mod Allocates
pub mod Begins
pub mod Initial
use Prim.Native.Nat.{bit_and}
use slake.Prelude.{ℕ, ◌+◌, Bool, true, false, not, Option, none, some, ◌==◌, if◌then◌else◌}
use slake.Types.Kinds.{TypeId, type_code}
use slake.Types.TypeRef.{TypeRef}
use slake.Types.Reference.{Reference, ReferenceKind}
use slake.Types.Value.{Value}
use slake.Frames.Stack.{DataStack, calc_stack_addr, stack_alloc, aligned_stack_alloc}
use slake.Frames.Major.{FrameError}
use slake.Exec.Memory.{store}
use slake.Exec.Machine.{
  Machine, Action, Error, Result, MinorFrame, AllocaRecord, ◌>>=◌, ◌>>◌, pure, throw, gets, modify,
  frame_at,
}
use slake.Vars.Objects.{World}
use slake.Vars.Values.{is_nullable}
use slake.Vars.Write.{Written, write_var}
use slake.Vars.Defaults.{default_value_of}

-- The sizes of types and records, the preparation of the object behind the type of a struct, a
-- union enumeration or an item, and the layout of a struct by its type definition
pub record Creation : Type 0 where
  pub sizeof_type : TypeRef → Option ℕ
  pub alignof_type : TypeRef → Option ℕ
  pub prepare : TypeRef → Action (Unit {0})
  pub layout : ℕ → Option ℕ
  pub sizeof_alloca_record : ℕ
  pub alignof_alloca_record : ℕ

abbrev pub set_stack : DataStack → Machine → Machine
set_stack s m = record m { context = record m.context { stack = s } }

-- An address of the stack, or StackOverflowError
abbrev pub allocated : Option ℕ × DataStack → Action ℕ
allocated (none, s) m = (Result.thrown (Error.frame_error FrameError.stack_overflow), set_stack s m)
allocated (some a, s) m = (Result.ok a, set_stack s m)

unfoldable pub alloc : ℕ → Action ℕ
unfolding stack_alloc
alloc size m = allocated (stack_alloc size m.context.stack) m

unfoldable pub alloc_aligned : ℕ → ℕ → Action ℕ
unfolding aligned_stack_alloc
alloc_aligned size align m = allocated (aligned_stack_alloc size align m.context.stack) m

-- `context->stack_alloc(sizeof(bool))`, whose result is not looked at
unfoldable pub alloc_flag : TypeRef → Action (Unit {0})
unfolding stack_alloc is_nullable
alloc_flag t =
    if is_nullable t then modify (λ m. set_stack (stack_alloc 1 m.context.stack).1 m) else pure tt

abbrev pub put : ℕ → ℕ → ℕ → Action (Unit {0})
put size a v = modify (λ m. record m { memory = store size a v m.memory })

abbrev pub or_terminate : {A : Type 0} → Option A → Action A
or_terminate none m = (Result.terminated, m)
or_terminate (some a) m = (Result.ok a, m)

abbrev pub assert_or_terminate : Bool → Action (Unit {0})
assert_or_terminate true m = (Result.ok tt, m)
assert_or_terminate false m = (Result.terminated, m)

-- The type definition in the header, and the assertion on its alignment
unfoldable pub alloc_type_def : TypeRef → Action (Unit {0})
unfolding alloc
alloc_type_def t = do a ← alloc 8; put 8 a t.type_def

unfoldable pub alloc_aligned_type_def : TypeRef → Action (Unit {0})
unfolding alloc
alloc_aligned_type_def t = do
  a ← alloc 8
  assert_or_terminate (bit_and a 7 == 0)
  put 8 a t.type_def

unfoldable pub flagged_type_def : TypeRef → Action (Unit {0})
unfolding alloc_flag alloc_type_def
flagged_type_def t = do alloc_flag t; alloc_type_def t

-- The switch on the type behind the allocation of its data
unfoldable pub alloc_type_info : TypeId → TypeRef → Action (Unit {0})
unfolding alloc_flag alloc_aligned_type_def flagged_type_def
alloc_type_info TypeId.i8 t = alloc_flag t
alloc_type_info TypeId.i16 t = alloc_flag t
alloc_type_info TypeId.i32 t = alloc_flag t
alloc_type_info TypeId.i64 t = alloc_flag t
alloc_type_info TypeId.u8 t = alloc_flag t
alloc_type_info TypeId.u16 t = alloc_flag t
alloc_type_info TypeId.u32 t = alloc_flag t
alloc_type_info TypeId.u64 t = alloc_flag t
alloc_type_info TypeId.f32 t = alloc_flag t
alloc_type_info TypeId.f64 t = alloc_flag t
alloc_type_info TypeId.bool t = alloc_flag t
alloc_type_info TypeId.string t = alloc_flag t
alloc_type_info TypeId.any t = alloc_flag t
alloc_type_info TypeId.instance t = alloc_aligned_type_def t
alloc_type_info TypeId.generic_arg t = alloc_aligned_type_def t
alloc_type_info TypeId.array t = alloc_aligned_type_def t
alloc_type_info TypeId.ref t = alloc_aligned_type_def t
alloc_type_info TypeId.scoped_enum t = flagged_type_def t
alloc_type_info TypeId.typeless_scoped_enum t = flagged_type_def t
alloc_type_info TypeId.struct_instance t = flagged_type_def t
alloc_type_info TypeId.union_enum t = flagged_type_def t
alloc_type_info TypeId.union_enum_item t = flagged_type_def t
alloc_type_info _ t = or_terminate none

abbrev pub is_prepared : TypeId → Bool
is_prepared TypeId.struct_instance = true
is_prepared TypeId.union_enum = true
is_prepared TypeId.union_enum_item = true
is_prepared _ = false

-- The types of the variables that begin with a default value
abbrev pub begins_with_default : TypeId → Bool
begins_with_default TypeId.i8 = true
begins_with_default TypeId.i16 = true
begins_with_default TypeId.i32 = true
begins_with_default TypeId.i64 = true
begins_with_default TypeId.u8 = true
begins_with_default TypeId.u16 = true
begins_with_default TypeId.u32 = true
begins_with_default TypeId.u64 = true
begins_with_default TypeId.f32 = true
begins_with_default TypeId.f64 = true
begins_with_default TypeId.bool = true
begins_with_default TypeId.string = true
begins_with_default TypeId.any = true
begins_with_default TypeId.instance = true
begins_with_default TypeId.array = true
begins_with_default TypeId.ref = true
begins_with_default TypeId.struct_instance = true
begins_with_default _ = false

abbrev pub set_minor_frame : ℕ → MinorFrame → Machine → Machine
set_minor_frame o f m = record m { minor_frames = λ p. if p == o then f else m.minor_frames p }

abbrev pub set_alloca_record : ℕ → AllocaRecord → Machine → Machine
set_alloca_record o r m = record m {
  alloca_records = λ p. if p == o then r else m.alloca_records p;
}

-- The record of the frame at `mf_off` in the bytes that are allocated last
unfoldable pub link_alloca_record : ℕ → ℕ → Action (Unit {0})
link_alloca_record mf_off output_reg = do
  top ← gets (λ m. m.context.stack.stack_top)
  mf ← gets (λ m. m.minor_frames mf_off)
  modify (set_alloca_record top (record { off_next = mf.off_alloca_records; def_reg = output_reg }))
  modify (set_minor_frame mf_off (record mf { off_alloca_records = top }))

-- The modifier and the type id in the header of a variable
unfoldable pub alloc_header : TypeRef → Action (Unit {0})
unfolding alloc
alloc_header t = do
  modifier ← alloc 1
  put 1 modifier t.type_modifier
  type_id ← alloc 1
  put 1 type_id (type_code t.type_id)

module _ (c : Creation) (off : ℕ) where
  -- _alloc_alloca_record
  unfoldable pub alloc_alloca_record : ℕ → Action (Unit {0})
  unfolding alloc_aligned link_alloca_record
  alloc_alloca_record output_reg = do
    mf_off ← gets (λ m. (frame_at off m).off_cur_minor_frame)
    _ ← alloc_aligned c.sizeof_alloca_record c.alignof_alloca_record
    link_alloca_record mf_off output_reg

  unfoldable pub alloc_data : TypeRef → Action ℕ
  unfolding alloc_aligned
  alloc_data t = do
    size ← or_terminate (c.sizeof_type t)
    align ← or_terminate (c.alignof_type t)
    alloc_aligned size align

  -- The offset of the variable, and its record
  unfoldable pub alloc_variable_record : ℕ → Action ℕ
  unfolding alloc_alloca_record
  alloc_variable_record output_reg = do
    off_out ← gets (λ m. m.context.stack.stack_top)
    alloc_alloca_record output_reg
    pure off_out

  -- What is done before the guard of the stack's top is released: the offset of the variable
  unfoldable pub alloc_local_var : TypeRef → ℕ → Action ℕ
  unfolding alloc_data alloc_type_info alloc_header alloc_variable_record
  alloc_local_var t output_reg = do
    (if is_prepared t.type_id then c.prepare t else pure tt)
    _ ← alloc_data t
    alloc_type_info t.type_id t
    alloc_header t
    alloc_variable_record output_reg

-- restore_stack_top_guard: where an exception is thrown, the top of the stack is set back.
abbrev pub guarded_result : {A : Type 0} → ℕ → Result A × Machine → Result A × Machine
guarded_result top (Result.thrown e, k) =
    (Result.thrown e, set_stack (record k.context.stack { stack_top = top }) k)
guarded_result top r = r

abbrev pub guarded : {A : Type 0} → Action A → Action A
guarded a m = guarded_result m.context.stack.stack_top (a m)

abbrev pub local_var_ref : ℕ → ℕ → Reference
local_var_ref context o = record {
  kind = ReferenceKind.local_var_ref;
  pointer = context;
  index = o;
  struct_field_index = 0;
}

-- `if(!write_var(object_ref_out, default_value_of(type))) std::terminate();`
abbrev pub written : Option Written → Action (Unit {0})
written none m = (Result.terminated, m)
written (some (true, k)) m = (Result.ok tt, record m { memory = k })
written (some (false, k)) m = (Result.terminated, record m { memory = k })

module _ (world : World) (c : Creation) where
  unfoldable pub write_default : Reference → TypeRef → Action (Unit {0})
  unfolding default_value_of write_var
  write_default r t =
      if begins_with_default t.type_id
      then (do
        v ← or_terminate (default_value_of c.layout t)
        (λ m. written (write_var world r v m.memory) m))
      else pure tt

  -- _add_local_var in the context at `context`
  unfoldable pub add_local_var : ℕ → ℕ → TypeRef → ℕ → Action Reference
  unfolding alloc_local_var write_default
  add_local_var context off t output_reg = do
    o ← guarded (alloc_local_var c off t output_reg)
    write_default (local_var_ref context o) t
    pure (local_var_ref context o)
