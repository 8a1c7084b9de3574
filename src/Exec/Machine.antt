-- ===== src/Exec/Machine.antt =====
-- The state that _exec_ins of slake/rt/exec.cc works on, and the registers of a frame.
pub mod Banks
use slake.Prelude.{
  ℕ, ◌+◌, ◌*◌, ◌≡◌, ◌<◌, Bool, true, false, Option, none, some, List, ◌==◌, ltb, if◌then◌else◌,
}
use slake.Types.TypeRef.{TypeRef}
use slake.Types.Reference.{Reference}
use slake.Types.Value.{Value}
use slake.Frames.Stack.{DataStack, calc_stack_addr}
use slake.Frames.Major.{
  FrameSizes, InsRegType, FnOverloadingObject, MajorFrame, Context, FrameError,
}
use slake.Exec.Memory.{Memory, load, store}
use slake.Exec.Scalars.{ScalarType, scalar_size, scalar_bank}
use slake.Exec.Arith.{Floats}
use slake.Exec.Opcode.{Instruction}

pub record MinorFrame : Type 0 where
  pub off_last_minor_frame : ℕ
  pub stack_base : ℕ
  pub off_alloca_records : ℕ

pub record AllocaRecord : Type 0 where
  pub off_next : ℕ
  pub def_reg : ℕ

pub data ContextChangeType : Type 0 where
  no_change major_frame_changed fn_changed fn_kind_changed : ContextChangeType

-- The bytes of the registers, the frames and records at their offsets in the data stack, the index
-- of the next instruction and context_changes_out.
pub record Machine : Type 0 where
  pub memory : Memory
  pub context : Context
  pub minor_frames : ℕ → MinorFrame
  pub alloca_records : ℕ → AllocaRecord
  pub cur_ins_ptr : ℕ
  pub context_changes : ContextChangeType

pub data Error : Type 0 where
  invalid_operands : Error
  invalid_opcode : ℕ → Error
  frame_error : FrameError → Error
  frame_boundary_exceeded : Error
  referenced_member_not_found : ℕ → Error
  other_error : ℕ → Error

-- An exception, a call of std::terminate, and what C++ or an assertion leaves undefined.
pub data Result (A : Type 0) : Type 0 where
  ok : A → Result A
  thrown : Error → Result A
  terminated undefined : Result A

-- The state stays as it is written, also where an exception is thrown.
abbrev pub Action : Type 0 → Type 0
Action A = Machine → Result A × Machine

module _ {A : Type 0} where
  abbrev pub pure : A → Action A
  pure a m = (ok a, m)

  abbrev pub throw : Error → Action A
  throw e m = (thrown e, m)

  abbrev pub gets : (Machine → A) → Action A
  gets f m = (ok (f m), m)

  abbrev pub defined : Option A → Action A
  defined none m = (undefined, m)
  defined (some a) m = (ok a, m)

  abbrev pub or_throw : Option A → Error → Action A
  or_throw none e m = (thrown e, m)
  or_throw (some a) e m = (ok a, m)

abbrev pub modify : (Machine → Machine) → Action (Unit {0})
modify f m = (ok tt, f m)

infixl 5 ◌>>=◌ ◌>>◌
abbrev pub ◌>>=◌ : {A B : Type 0} → Action A → (A → Action B) → Action B
◌>>=◌ a f m =
    let (r, m') = a m in
    elim r [
      | ok x ↦ f x m'
      | thrown e ↦ (thrown e, m')
      | terminated ↦ (terminated, m')
      | undefined ↦ (undefined, m')
    ]

abbrev pub ◌>>◌ : {B : Type 0} → Action (Unit {0}) → Action B → Action B
a >> b = a >>= λ _. b

-- `if (!test) goto throw_invalid_operands_error;`
abbrev pub require : Bool → Action (Unit {0})
require true m = (ok tt, m)
require false m = (thrown invalid_operands, m)

-- RegularFnOverloadingObject
pub record RegularFn : Type 0 where
  pub num_registers : InsRegType → ℕ
  pub instructions : List Instruction
  pub ins_object_set : List ℕ
  pub ins_type_set : List TypeRef

-- MemberQueryResult of slake/obj/object.h
pub data MemberQueryResult : Type 0 where
  none_found : MemberQueryResult
  object_found : ℕ → MemberQueryResult
  reference_found : Reference → MemberQueryResult

-- MemberQueryResult::operator bool. The enumerators None and Object are both 0.
abbrev pub is_found : MemberQueryResult → Bool
is_found (reference_found r) = true
is_found _ = false

-- The objects as an instruction tells them apart.
pub data ObjectKind : Type 0 where
  fn_overloading : FnOverloadingObject → ObjectKind
  id_ref other : ObjectKind

-- The bytes of a Value, which are the compiler's: a value that is written is read back, and what is
-- read is up to the bytes of the value alone.
pub record ValueBytes (sizeof_value : ℕ) : Type 0 where
  pub load_value : ℕ → Memory → Value
  pub store_value : ℕ → Value → Memory → Memory
  pub load-store : (a : ℕ) (v : Value) (b : Memory) → load_value a (store_value a v b) ≡ v
  pub load-agrees :
      (a : ℕ) (b c : Memory)
      → ((i : ℕ) → i < sizeof_value → b (a + i) ≡ c (a + i))
      → load_value a b ≡ load_value a c

-- What the instructions call: the machine's floats and the layout of Value, and of the runtime the
-- tests of values and types, the objects, the variables, members, locals and instances, and the
-- bytes that the construction of a frame leaves.
pub record Env : Type 0 where
  pub sizes : FrameSizes
  pub floats : Floats
  pub value_bytes : ValueBytes sizes.sizeof_value
  pub is_compatible : TypeRef → Value → Bool
  pub object_at : ℕ → ObjectKind
  pub read_var : Reference → Action Value
  pub write_var : Reference → Value → Action Bool
  pub resolve_id_ref : ℕ → Option ℕ → Action MemberQueryResult
  pub new_class_instance : TypeRef → Action (Option ℕ)
  pub frame_bytes : Context → Memory → Memory
  pub add_local_var : ℕ → TypeRef → ℕ → Action Reference

-- A frame at an offset and a change of it
abbrev pub frame_at : ℕ → Machine → MajorFrame
frame_at off m = m.context.frames off

abbrev pub set_frame_at : ℕ → MajorFrame → Machine → Machine
set_frame_at off f m = record m {
  context = record m.context { frames = λ o. if o == off then f else m.context.frames o };
}

-- _access_typed_reg and _access_nonlocal_typed_reg
abbrev pub reg_addr : ℕ → InsRegType → ℕ → ℕ → Machine → ℕ
reg_addr off bank size index m =
    calc_stack_addr m.context.stack ((frame_at off m).regs_base_off bank + size * index)

module _ (env : Env) (ol : RegularFn) (off : ℕ) where
  -- _check_reg_index
  abbrev pub check_reg_index : ℕ → InsRegType → Action (Unit {0})
  check_reg_index index bank = require (ltb index (ol.num_registers bank))

  unfoldable pub read_bank : InsRegType → ℕ → ℕ → Action ℕ
  read_bank bank size index m = (ok (load size (reg_addr off bank size index m) m.memory), m)

  unfoldable pub write_bank : InsRegType → ℕ → ℕ → ℕ → Action (Unit {0})
  write_bank bank size index v m =
      (ok tt, record m { memory = store size (reg_addr off bank size index m) v m.memory })

  unfoldable pub read_scalar : ScalarType → ℕ → Action ℕ
  unfolding read_bank
  read_scalar t index = read_bank (scalar_bank t) (scalar_size t) index

  unfoldable pub write_scalar : ScalarType → ℕ → ℕ → Action (Unit {0})
  unfolding write_bank
  write_scalar t index v = write_bank (scalar_bank t) (scalar_size t) index v

  -- The registers of Object, which are pointers
  unfoldable pub read_object : ℕ → Action ℕ
  unfolding read_bank
  read_object index = read_bank InsRegType.object 8 index

  unfoldable pub read_value : ℕ → Action Value
  read_value index m = (
    ok (
        env.value_bytes.load_value (reg_addr off InsRegType.any env.sizes.sizeof_value index m)
          m.memory),
    m,
  )

  unfoldable pub write_value : ℕ → Value → Action (Unit {0})
  write_value index v m = (
    ok tt,
    record m {
      memory =
          env.value_bytes.store_value (reg_addr off InsRegType.any env.sizes.sizeof_value index m) v
            m.memory;
    },
  )
