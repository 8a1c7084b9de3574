-- ===== src/Frames/Stack/Bounds.antt =====
-- The allocations on the data stack of slake/obj/context.cc.
use native.Mathlib.Nat.{mod-eq_of_lt}
use slake.Prelude.{
  ℕ, ◌+◌, ◌^◌, ◌≤◌, ◌<◌, ◌≡◌, refl, true, false, inl, inr, Option, none, some, ltb, Bool-cases,
  ltb→lt, ltb→ge, arith,
}
use slake.Frames.Stack.{DataStack, calc_stack_addr, stack_alloc}

-- The stack pointer lies in the stack, and the stack in the 64-bit address space.
abbrev pub IsStack : DataStack → Type 0
IsStack s = (s.stack_top ≤ s.stack_size) × (s.data_stack + s.stack_size < 2 ^ 64)

pub stack_alloc-fits :
    (size : ℕ) (s : DataStack)
    → s.stack_top + size < 2 ^ 64
    → ltb s.stack_size (s.stack_top + size) ≡ false
    → stack_alloc size s
      ≡ (some (calc_stack_addr s (s.stack_top + size)), record s { stack_top = s.stack_top + size })
unfolding stack_alloc
stack_alloc-fits size s f h = simp (mod-eq_of_lt f, h)

stack_alloc-full :
    (size : ℕ) (s : DataStack)
    → s.stack_top + size < 2 ^ 64
    → ltb s.stack_size (s.stack_top + size) ≡ true
    → stack_alloc size s ≡ (none, s)
unfolding stack_alloc
stack_alloc-full size s f h = simp (mod-eq_of_lt f, h)

-- What an allocation of `size` bytes does to a stack: it is the stack as before where the bytes do
-- not fit, or else the bytes lie between its new top and its old one.
abbrev pub IsAllocated : ℕ → DataStack → Option ℕ → DataStack → Type 0
IsAllocated size s none t = (t ≡ s) × (s.stack_size < s.stack_top + size)
IsAllocated size s (some a) t =
    IsStack t
    × ((s.data_stack ≤ a)
        × ((a + size ≡ calc_stack_addr s s.stack_top) × (a ≡ calc_stack_addr t t.stack_top)))

-- An allocation whose size does not overflow either fails and leaves the stack as it is, because
-- it does not fit, or returns an address with `size` bytes behind it that lie between the new top
-- and the old one, inside the stack.
pub stack_alloc-IsAllocated :
    (size : ℕ) (s : DataStack)
    → IsStack s
    → s.stack_top + size < 2 ^ 64
    → (a : Option ℕ) × (t : DataStack) × (stack_alloc size s ≡ (a, t)) × IsAllocated size s a t
stack_alloc-IsAllocated size s (t, b) f =
    elim (Bool-cases (ltb s.stack_size (s.stack_top + size))) [
      | inl h ↦ (none, s, stack_alloc-full size s f h, (refl, ltb→lt _ _ h))
      | inr h ↦
          let room = ltb→ge _ _ h in
          (
            some (calc_stack_addr s (s.stack_top + size)),
            record s { stack_top = s.stack_top + size },
            stack_alloc-fits size s f h,
            ((room, b), (omega (arith, room), (omega (arith, room), refl))),
          )
    ]
