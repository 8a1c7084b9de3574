-- ===== src/Vars/Creation/Allocates.antt =====
-- What the allocations of _add_local_var of slake/rt/exec.cc do where they fit.
use mathlib.Core.Path.{subst}
use slake.Prelude.{
  ℕ, ◌+◌, ◌%◌, ◌^◌, ◌≤◌, ◌<◌, ◌≡◌, refl, if◌then◌else◌, ap, ◌∙◌, Bool, false, Option, some, inl,
  inr, Bool-cases, ltb, arith,
}
use slake.Types.Kinds.{TypeId, type_code}
use slake.Types.TypeRef.{TypeRef}
use slake.Frames.Stack.{DataStack, calc_stack_addr, addr_diff, aligned_stack_alloc}
use slake.Frames.Stack.Bounds.{stack_alloc-fits}
use slake.Exec.Memory.{store}
use slake.Exec.Machine.{Machine, Action, Result, ◌>>=◌}
use slake.Exec.Scalars.{ScalarType}
use slake.Vars.Values.{sized_scalar_of, is_nullable}
use slake.Vars.Creation.{
  set_stack, alloc, alloc_aligned, alloc_flag, alloc_type_info, is_prepared, or_terminate,
}

abbrev pub with_stack_top : ℕ → Machine → Machine
with_stack_top top m = set_stack (record m.context.stack { stack_top = top }) m

-- The bytes that an aligned allocation takes
abbrev pub padded : ℕ → ℕ → DataStack → ℕ
padded size align s = (size + addr_diff align s) % 2 ^ 64

-- The state behind the modifier and the type id of a variable
abbrev pub with_header : TypeRef → Machine → Machine
with_header t m =
    let top = m.context.stack.stack_top in
    record (with_stack_top (top + 1 + 1) m) {
      memory =
          store 1 (calc_stack_addr m.context.stack (top + 1 + 1)) (type_code t.type_id)
            (store 1 (calc_stack_addr m.context.stack (top + 1)) t.type_modifier m.memory);
    }

not-ltb : (a b : ℕ) → a ≤ b → ltb b a ≡ false
not-ltb a b h = ground (arith, h)

-- What an action makes of a state
unfoldable pub Yields : {A : Type 0} → Action A → Machine → Result A × Machine → Type 0
Yields a m r = a m ≡ r

pub >>=-Yields :
    {A B : Type 0} (x : A) (k : Machine) (r : Result B × Machine) (a : Action A) (f : A → Action B)
    (m : Machine)
    → Yields a m (Result.ok x, k)
    → Yields (f x) k r
    → Yields (a >>= f) m r
unfolding Yields
>>=-Yields x k r a f m p q = ap (λ s. ((λ (l : Machine). s) >>= f) m) p ∙ q

if_false-Yields :
    {A : Type 0} (b : Bool) (x y : Action A) (m : Machine) (r : Result A × Machine)
    → b ≡ false
    → Yields y m r
    → Yields (if b then x else y) m r
unfolding Yields
if_false-Yields b x y m r h p = ap (λ c. (if c then x else y) m) h ∙ p

or_terminate-Yields :
    {A : Type 0} (o : Option A) (x : A) (m : Machine)
    → o ≡ some x
    → Yields (or_terminate o) m (Result.ok x, m)
unfolding Yields
or_terminate-Yields o x m h = ap (λ p. or_terminate p m) h

pub Yields-refl : {A : Type 0} (a : Action A) (m : Machine) → Yields a m (a m)
unfolding Yields
Yields-refl a m = refl

pub alloc-fits :
    (n : ℕ) (m : Machine)
    → m.context.stack.stack_top + n ≤ m.context.stack.stack_size
    → m.context.stack.stack_size < 2 ^ 64
    → Yields (alloc n) m (
      Result.ok (calc_stack_addr m.context.stack (m.context.stack.stack_top + n)),
      with_stack_top (m.context.stack.stack_top + n) m,
    )
unfolding alloc Yields
alloc-fits n m h w = simp (stack_alloc-fits n m.context.stack (omega (arith, h, w)) (not-ltb _ _ h))

pub alloc_aligned-fits :
    (n align : ℕ) (m : Machine)
    → m.context.stack.stack_top + padded n align m.context.stack ≤ m.context.stack.stack_size
    → m.context.stack.stack_size < 2 ^ 64
    → Yields (alloc_aligned n align) m (
      Result.ok (
          calc_stack_addr m.context.stack
            (m.context.stack.stack_top + padded n align m.context.stack)),
      with_stack_top (m.context.stack.stack_top + padded n align m.context.stack) m,
    )
unfolding alloc_aligned aligned_stack_alloc alloc Yields
alloc_aligned-fits n align m h w = alloc-fits (padded n align m.context.stack) m h w

pub scalar-not_prepared :
    (t : TypeId) (s : ScalarType) → sized_scalar_of t ≡ some s → is_prepared t ≡ false
scalar-not_prepared TypeId.struct_instance s e = cc e
scalar-not_prepared TypeId.union_enum s e = cc e
scalar-not_prepared TypeId.union_enum_item s e = cc e
scalar-not_prepared _ s e = refl

-- The byte of a nullable variable that tells whether it is null
abbrev pub flag_size : TypeRef → ℕ
flag_size t = if is_nullable t then 1 else 0

module _ (t : TypeRef) (m : Machine)
    (room : m.context.stack.stack_top + flag_size t ≤ m.context.stack.stack_size)
    (w : m.context.stack.stack_size < 2 ^ 64) where
  alloc_flag-fits :
      Yields
        (alloc_flag t)
        m
        (Result.ok tt, with_stack_top (m.context.stack.stack_top + flag_size t) m)
  unfolding alloc_flag Yields
  alloc_flag-fits = elim (Bool-cases (is_nullable t)) [
    | inl h ↦
        let one : m.context.stack.stack_top + 1 ≤ m.context.stack.stack_size =
          subst (λ b. m.context.stack.stack_top + (if b then 1 else 0) ≤ m.context.stack.stack_size)
            h room in
        simp (h, stack_alloc-fits 1 m.context.stack (omega (arith, one, w)) (not-ltb _ _ one))
    | inr h ↦
        let same : m.context.stack.stack_top + 0 ≡ m.context.stack.stack_top = omega arith in
        simp (h, same)
  ]

  pub alloc_type_info-scalar :
      (id : TypeId) (s : ScalarType)
      → sized_scalar_of id ≡ some s
      → Yields
          (alloc_type_info id t)
          m
          (Result.ok tt, with_stack_top (m.context.stack.stack_top + flag_size t) m)
  unfolding alloc_type_info
  alloc_type_info-scalar TypeId.i8 s e = alloc_flag-fits
  alloc_type_info-scalar TypeId.i16 s e = alloc_flag-fits
  alloc_type_info-scalar TypeId.i32 s e = alloc_flag-fits
  alloc_type_info-scalar TypeId.i64 s e = alloc_flag-fits
  alloc_type_info-scalar TypeId.u8 s e = alloc_flag-fits
  alloc_type_info-scalar TypeId.u16 s e = alloc_flag-fits
  alloc_type_info-scalar TypeId.u32 s e = alloc_flag-fits
  alloc_type_info-scalar TypeId.u64 s e = alloc_flag-fits
  alloc_type_info-scalar TypeId.f32 s e = alloc_flag-fits
  alloc_type_info-scalar TypeId.f64 s e = alloc_flag-fits
  alloc_type_info-scalar TypeId.bool s e = alloc_flag-fits
  alloc_type_info-scalar _ s e = cc e
