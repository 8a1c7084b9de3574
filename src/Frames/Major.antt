-- ===== src/Frames/Major.antt =====
-- Runtime::_create_new_major_frame, _fill_args and _leave_major_frame of slake/rt/exec.cc. The
-- contents of the registers and of the argument stack are left out, and there is no coroutine.
-- is_compatible, of type.cc, is a parameter.
pub mod Balance
pub mod Registers
pub mod Results
pub mod Functions
use slake.Prelude.{
  ℕ, ◌+◌, ◌-◌, ◌*◌, ◌%◌, ◌^◌, Bool, true, false, Option, none, some, List, [], ◌∷◌, ◌==◌, ltb,
  if◌then◌else◌, length, get_elem?,
}
use slake.Types.TypeRef.{TypeRef}
use slake.Types.Value.{Value}
use slake.Frames.Stack.{DataStack, size_max, aligned_stack_alloc}

-- InsRegType
pub data InsRegType : Type 0 where
  i8 i16 i32 i64 isize u8 u16 u32 u64 usize f32 f64 bool object any : InsRegType

abbrev pub reg_code : InsRegType → ℕ
reg_code i8 = 0
reg_code i16 = 1
reg_code i32 = 2
reg_code i64 = 3
reg_code isize = 4
reg_code u8 = 5
reg_code u16 = 6
reg_code u32 = 7
reg_code u64 = 8
reg_code usize = 9
reg_code f32 = 10
reg_code f64 = 11
reg_code bool = 12
reg_code object = 13
reg_code any = 14

-- sizeof and alignof of the structures that go on the stack
pub record FrameSizes : Type 0 where
  pub sizeof_major_frame : ℕ
  pub alignof_major_frame : ℕ
  pub sizeof_minor_frame : ℕ
  pub alignof_minor_frame : ℕ
  pub sizeof_value : ℕ
  pub alignof_value : ℕ

pub data FnOverloadingKind : Type 0 where
  regular native jit_compiled : FnOverloadingKind

-- FnOverloadingObject: its address, its kind and types and, of a regular one, its register numbers.
pub record FnOverloadingObject : Type 0 where
  pub address : ℕ
  pub overloading_kind : FnOverloadingKind
  pub return_type : TypeRef
  pub param_types : List TypeRef
  pub num_registers : Option (InsRegType → ℕ)

-- MajorFrame with its ResumableContextData and its first MinorFrame
pub record MajorFrame : Type 0 where
  pub off_prev_frame : ℕ
  pub off_next_frame : ℕ
  pub cur_fn : Option FnOverloadingObject
  pub this_object : ℕ
  pub cur_ins : ℕ
  pub off_args : ℕ
  pub off_next_args : ℕ
  pub off_next_args_begin : ℕ
  pub num_args : ℕ
  pub num_next_args : ℕ
  pub off_cur_minor_frame : ℕ
  pub minor_stack_base : ℕ
  pub regs_base_off : InsRegType → ℕ
  pub return_value_out_reg : ℕ
  pub prev_stack_top : ℕ

-- Context: its stack and the frames at their offsets.
pub record Context : Type 0 where
  pub stack : DataStack
  pub frames : ℕ → MajorFrame
  pub off_cur_major_frame : ℕ
  pub num_major_frames : ℕ

pub data FrameError : Type 0 where
  stack_overflow : FrameError
  invalid_argument_number : ℕ → FrameError
  mismatched_var_type : TypeRef → FrameError

abbrev pub set_frame : ℕ → MajorFrame → (ℕ → MajorFrame) → ℕ → MajorFrame
set_frame off f frames o = if o == off then f else frames o

abbrev pub set_base : InsRegType → ℕ → (InsRegType → ℕ) → InsRegType → ℕ
set_base t off bases u = if reg_code u == reg_code t then off else bases u

-- A step on the stack and the new frame, or an error
abbrev pub Step : Type 0
Step = Option FrameError × (DataStack × MajorFrame)

-- Go on with the stack behind a successful allocation.
abbrev pub allocated : Option ℕ × DataStack → MajorFrame → (DataStack → Step) → Step
allocated (none, s) f next = (some stack_overflow, (s, f))
allocated (some a, s) f next = next s

abbrev pub and_step : Step → (DataStack → MajorFrame → Step) → Step
and_step (some e, (s, f)) next = (some e, (s, f))
and_step (none, (s, f)) next = next s f

module _ (sizes : FrameSizes) (is_compatible : TypeRef → Value → Bool) where
  -- The loop of _fill_args over the parameter types
  abbrev pub first_mismatch : List TypeRef → List Value → Option TypeRef
  first_mismatch [] args = none
  first_mismatch (t ∷ ts) [] = some t
  first_mismatch (t ∷ ts) (v ∷ vs) = if is_compatible t v then first_mismatch ts vs else some t

  abbrev pub matched : Option TypeRef → DataStack → MajorFrame → Step → Step
  matched none s f rest = rest
  matched (some t) s f rest = (some (mismatched_var_type t), (s, f))

  unfoldable pub fill_args : FnOverloadingObject → List Value → DataStack → MajorFrame → Step
  fill_args fn args s f =
      if ltb (length args) (length fn.param_types)
      then (some (invalid_argument_number (length args)), (s, f))
      else matched (first_mismatch fn.param_types args) s f (
          allocated (aligned_stack_alloc (sizes.sizeof_value * length args) sizes.alignof_value s) f
            (λ t. (none, (t, record f { off_args = t.stack_top; num_args = length args }))))

  -- The register banks in the order of the code: the registers' type, the entry of regs_base_off
  -- that is set, the size and the alignment. The bank of the Object registers sets the entry of Any.
  unfoldable pub banks : List (InsRegType × (InsRegType × (ℕ × ℕ)))
  banks =
      (any, (any, (sizes.sizeof_value, sizes.alignof_value)))
      ∷ (object, (any, (8, 8)))
      ∷ (isize, (isize, (8, 8)))
      ∷ (usize, (usize, (8, 8)))
      ∷ (f64, (f64, (8, 8)))
      ∷ (i64, (i64, (8, 8)))
      ∷ (u64, (u64, (8, 8)))
      ∷ (f32, (f32, (4, 4)))
      ∷ (i32, (i32, (4, 4)))
      ∷ (u32, (u32, (4, 4)))
      ∷ (i16, (i16, (2, 2)))
      ∷ (u16, (u16, (2, 2)))
      ∷ (i8, (i8, (1, 1)))
      ∷ (u8, (u8, (1, 1)))
      ∷ (bool, (bool, (1, 1)))
      ∷ []

  unfoldable pub alloc_bank :
      (InsRegType → ℕ) → InsRegType × (InsRegType × (ℕ × ℕ)) → DataStack → MajorFrame → Step
  alloc_bank num_registers (t, (slot, (size, alignment))) s f =
      if num_registers t == 0
      then (none, (s, f))
      else allocated (aligned_stack_alloc (size * num_registers t) alignment s) f
          (λ u. (none, (u, record f { regs_base_off = set_base slot u.stack_top f.regs_base_off })))

  unfoldable pub alloc_banks :
      (InsRegType → ℕ) → List (InsRegType × (InsRegType × (ℕ × ℕ))) → DataStack → MajorFrame → Step
  unfolding alloc_bank
  alloc_banks num_registers [] s f = (none, (s, f))
  alloc_banks num_registers (b ∷ rest) s f =
      and_step (alloc_bank num_registers b s f) (λ t g. alloc_banks num_registers rest t g)

  -- The switch over the overloading kind
  unfoldable pub alloc_regular : Option (InsRegType → ℕ) → DataStack → MajorFrame → Step
  unfolding alloc_banks banks
  alloc_regular none s f = (none, (s, f))
  alloc_regular (some num_registers) s f = alloc_banks num_registers banks s f

  -- The registers of a frame. The Any register of a frame without a function is not checked.
  unfoldable pub alloc_registers : Option FnOverloadingObject → DataStack → MajorFrame → Step
  unfolding alloc_regular
  alloc_registers none s f =
      let t = (aligned_stack_alloc sizes.sizeof_value sizes.alignof_value s).1 in
      (none, (t, record f { regs_base_off = set_base any t.stack_top f.regs_base_off }))
  alloc_registers (some fn) s f = alloc_regular fn.num_registers s f

  -- The arguments that are given, or those that lie on the stack already at `off_args`
  unfoldable pub set_args :
      Option FnOverloadingObject → ℕ → Option (List Value) → ℕ → ℕ → DataStack → MajorFrame → Step
  unfolding fill_args
  set_args none this_object args off_args num_args s f = (none, (s, f))
  set_args (some fn) this_object (some args) off_args num_args s f =
      fill_args fn args s (record f { this_object = this_object })
  set_args (some fn) this_object none off_args num_args s f = (
    none,
    (
      s,
      record f {
        this_object = this_object;
        num_args = num_args;
        off_args = if num_args == 0 then f.off_args else off_args;
      },
    ),
  )

  -- MajorFrame(Runtime *), with the fields that are set up to the minor frame at `off_minor_frame`
  abbrev pub new_frame : Context → Option FnOverloadingObject → ℕ → MajorFrame
  new_frame c fn off_minor_frame = record {
    off_prev_frame = c.off_cur_major_frame;
    off_next_frame = size_max;
    cur_fn = fn;
    this_object = 0;
    cur_ins = 0;
    off_args = size_max;
    off_next_args = size_max;
    off_next_args_begin = size_max;
    num_args = 0;
    num_next_args = 0;
    off_cur_minor_frame = off_minor_frame;
    minor_stack_base = c.stack.stack_top;
    regs_base_off = λ t. 0;
    return_value_out_reg = 4294967295;
    prev_stack_top = 0;
  }

  -- The minor frame, the arguments and the registers, behind the major frame on the stack `s`
  unfoldable pub build_frame :
      Context → ℕ → Option FnOverloadingObject → Option (List Value) → ℕ → ℕ → DataStack → Step
  unfolding set_args alloc_registers
  build_frame c this_object fn args off_args num_args s =
      allocated (aligned_stack_alloc sizes.sizeof_minor_frame sizes.alignof_minor_frame s)
        (new_frame c fn size_max)
        (λ t.
          and_step (set_args fn this_object args off_args num_args t (new_frame c fn t.stack_top))
            (λ u g. alloc_registers fn u g))

  -- What is left when the frame is built: it is linked behind the current one.
  unfoldable pub link_frame : Context → ℕ → ℕ → DataStack → MajorFrame → Context
  link_frame c off return_value_out s f =
      let g = record f {
        return_value_out_reg = return_value_out;
        prev_stack_top = c.stack.stack_top;
      } in
      let prev = c.frames c.off_cur_major_frame in
      record {
        stack = s;
        frames =
            if c.off_cur_major_frame == size_max
            then set_frame off g c.frames
            else set_frame off (record g { minor_stack_base = prev.off_next_args_begin })
                (set_frame c.off_cur_major_frame
                  (record prev { off_next_frame = off; off_next_args_begin = size_max }) c.frames);
        off_cur_major_frame = off;
        num_major_frames = c.num_major_frames + 1;
      }

  -- The end of _create_new_major_frame, and its guard, which sets the top of the stack back.
  unfoldable pub finish_frame : Context → ℕ → ℕ → Step → Option FrameError × Context
  unfolding link_frame
  finish_frame c off return_value_out (some e, (s, f)) =
      (some e, record c { stack = record s { stack_top = c.stack.stack_top } })
  finish_frame c off return_value_out (none, (s, f)) = (none, link_frame c off return_value_out s f)

  abbrev pub with_major_frame :
      Context
      → Option ℕ × DataStack
      → (DataStack → Option FrameError × Context)
      → Option FrameError × Context
  with_major_frame c (none, s) next =
      (some stack_overflow, record c { stack = record s { stack_top = c.stack.stack_top } })
  with_major_frame c (some a, s) next = next s

  -- _create_new_major_frame
  unfoldable pub create_new_major_frame :
      ℕ
      → Option FnOverloadingObject
      → Option (List Value)
      → ℕ
      → ℕ
      → ℕ
      → Context
      → Option FrameError × Context
  unfolding build_frame finish_frame
  create_new_major_frame this_object fn args off_args num_args return_value_out c =
      with_major_frame c
        (aligned_stack_alloc sizes.sizeof_major_frame sizes.alignof_major_frame c.stack)
        (λ s.
          finish_frame c s.stack_top return_value_out
            (build_frame c this_object fn args off_args num_args s))

-- _leave_major_frame
unfoldable pub leave_major_frame : Context → Context
leave_major_frame c =
    let mf = c.frames c.off_cur_major_frame in
    record {
      stack = record c.stack { stack_top = mf.prev_stack_top };
      frames =
          if mf.off_prev_frame == size_max
          then c.frames
          else set_frame mf.off_prev_frame
              (record (c.frames mf.off_prev_frame) { off_next_frame = size_max }) c.frames;
      off_cur_major_frame = mf.off_prev_frame;
      num_major_frames = c.num_major_frames - 1;
    }
