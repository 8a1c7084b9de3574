-- ===== src/Tests/Storage.antt =====
-- Examples for the layouts, the data stack and the major frames.
use slake.Prelude.{ℕ, ◌≡◌, refl, Bool, true, Option, none, some, List, [], ◌∷◌, arith}
use slake.Types.Kinds.{TypeId}
use slake.Types.TypeRef.{TypeRef}
use slake.Types.Value.{Value}
use slake.Layout.Sizes.{Platform, TypeObjects, sizeof_type, sizeof_kind, alignof_type}
use slake.Layout.Sizes.Bounds.{is_some, alignof_type-is_some}
use slake.Layout.Fields.{FieldRecord, ObjectLayout, init_object_layout, realloc_field_spaces}
use slake.Layout.Fields.Objects.{Placed, init_object_layout-Placed}
use slake.Layout.Fields.Statics.{Disjoint, realloc_field_spaces-Disjoint}
use slake.Frames.Stack.{DataStack, stack_alloc}
use slake.Frames.Stack.Bounds.{IsAllocated, stack_alloc-IsAllocated}
use slake.Frames.Major.{
  FrameSizes, InsRegType, FnOverloadingKind, FnOverloadingObject, MajorFrame, Context,
}

abbrev platform : Platform
platform = record { sizeof_pointer = 8; sizeof_value = 32 }

abbrev plain_type : TypeId → TypeRef
plain_type t = record { type_id = t; type_modifier = 0; type_def = 0 }

abbrev type_objects : TypeObjects
type_objects = record {
  cached_object_layout = λ d. none;
  base_type = λ d. plain_type TypeId.i32;
  cached_max_size = λ d. 0;
  cached_max_align = λ d. 0;
}

has_size : is_some (sizeof_type 2 platform type_objects (plain_type TypeId.scoped_enum)) ≡ true
unfolding sizeof_type sizeof_kind
has_size = refl

alignof_type-is_some_example :
    is_some (alignof_type 2 platform type_objects (plain_type TypeId.scoped_enum)) ≡ true
alignof_type-is_some_example =
    alignof_type-is_some platform type_objects (λ d e. e) (λ d. refl) 2
      (plain_type TypeId.scoped_enum) refl has_size

abbrev byte_size : TypeRef → ℕ
byte_size t = elim t.type_id [ TypeId.i64 ↦ 8 | _ ↦ 1 ]

abbrev given_size : TypeRef → Option ℕ
given_size t = some (byte_size t)

abbrev field : ℕ → ℕ → TypeId → FieldRecord
field name access t = record {
  name = name;
  access_modifier = access;
  offset = 0;
  type = plain_type t;
}

abbrev fields : List FieldRecord
fields = field 1 0 TypeId.bool ∷ field 2 4 TypeId.bool ∷ field 3 0 TypeId.i64 ∷ []

abbrev empty_layout : ObjectLayout
empty_layout = record { field_records = []; field_name_map = []; total_size = 0; alignment = 1 }

init_object_layout-Placed_example :
    (m : ObjectLayout) × (init_object_layout given_size given_size 0 fields empty_layout ≡ some m)
    × Placed byte_size byte_size 0 m.field_records m.total_size
init_object_layout-Placed_example =
    init_object_layout-Placed byte_size byte_size given_size given_size 0 fields empty_layout
      (
        (λ e. (refl, (refl, refl))),
        ((λ e. (refl, (refl, refl))), ((λ e. (refl, (refl, refl))), tt)),
      )
      (omega arith)

realloc_field_spaces-Disjoint_example :
    (total : ℕ) × (placed : List FieldRecord) × (realloc_field_spaces given_size given_size 0 fields
      ≡ some (total, placed))
    × Disjoint byte_size byte_size 0 placed total
realloc_field_spaces-Disjoint_example =
    realloc_field_spaces-Disjoint byte_size byte_size given_size given_size 0 fields
      ((refl, refl), ((refl, refl), ((refl, refl), tt)))

abbrev small_stack : DataStack
small_stack = record { data_stack = 4096; stack_size = 1024; stack_top = 16 }

stack_alloc-IsAllocated_example :
    (a : Option ℕ) × (t : DataStack) × (stack_alloc 24 small_stack ≡ (a, t))
    × IsAllocated 24 small_stack a t
stack_alloc-IsAllocated_example =
    stack_alloc-IsAllocated 24 small_stack (omega arith, omega arith) (omega arith)

abbrev frame_sizes : FrameSizes
frame_sizes = record {
  sizeof_major_frame = 320;
  alignof_major_frame = 8;
  sizeof_minor_frame = 40;
  alignof_minor_frame = 8;
  sizeof_value = 32;
  alignof_value = 8;
}

abbrev any_value : TypeRef → Value → Bool
any_value t v = true

abbrev two_registers : InsRegType → ℕ
two_registers t = 2

abbrev function : FnOverloadingObject
function = record {
  address = 4096;
  overloading_kind = FnOverloadingKind.regular;
  return_type = record { type_id = TypeId.void; type_modifier = 0; type_def = 0 };
  param_types = [];
  num_registers = some two_registers;
}

abbrev no_frame : MajorFrame
no_frame = record {
  off_prev_frame = 0;
  off_next_frame = 0;
  cur_fn = none;
  this_object = 0;
  off_args = 0;
  num_args = 0;
  cur_ins = 0;
  off_next_args = 0;
  off_next_args_begin = 0;
  num_next_args = 0;
  off_cur_minor_frame = 0;
  minor_stack_base = 0;
  regs_base_off = λ t. 0;
  return_value_out_reg = 0;
  prev_stack_top = 0;
}

abbrev context : Context
context = record {
  stack = small_stack;
  frames = λ o. no_frame;
  off_cur_major_frame = 16;
  num_major_frames = 1;
}
