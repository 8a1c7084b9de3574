-- ===== src/Frames/Stack.antt =====
-- Context::stack_alloc, align_stack and aligned_stack_alloc of slake/obj/context.cc. Sizes are
-- 64-bit; what is kept in the stack's memory is left out.
pub mod Bounds
use Prim.Native.Nat.{bit_and}
use slake.Prelude.{ℕ, ◌+◌, ◌-◌, ◌%◌, ◌^◌, Option, none, some, ◌==◌, ltb, if◌then◌else◌}

-- data_stack is the address of the stack's first byte.
pub record DataStack : Type 0 where
  pub data_stack : ℕ
  pub stack_size : ℕ
  pub stack_top : ℕ

-- calc_stack_addr
abbrev pub calc_stack_addr : DataStack → ℕ → ℕ
calc_stack_addr s offset = s.data_stack + s.stack_size - offset

abbrev pub size_max : ℕ
size_max = 18446744073709551615

-- The address with the stack behind the allocation, or nullptr and the stack as it was
unfoldable pub stack_alloc : ℕ → DataStack → Option ℕ × DataStack
stack_alloc size s =
    let new_stack_top = (s.stack_top + size) % 2 ^ 64 in
    if ltb s.stack_size new_stack_top
    then (none, s)
    else (some (calc_stack_addr s new_stack_top), record s { stack_top = new_stack_top })

abbrev pub addr_diff : ℕ → DataStack → ℕ
addr_diff alignment s = bit_and (calc_stack_addr s s.stack_top) (alignment - 1)

unfoldable pub align_stack : ℕ → DataStack → Option ℕ × DataStack
unfolding stack_alloc
align_stack alignment s =
    if addr_diff alignment s == 0
    then (some (calc_stack_addr s s.stack_top), s)
    else stack_alloc (addr_diff alignment s) s

unfoldable pub aligned_stack_alloc : ℕ → ℕ → DataStack → Option ℕ × DataStack
unfolding stack_alloc
aligned_stack_alloc size alignment s = stack_alloc ((size + addr_diff alignment s) % 2 ^ 64) s
