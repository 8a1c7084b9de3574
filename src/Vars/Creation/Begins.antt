-- ===== src/Vars/Creation/Begins.antt =====
-- What a local variable of a number type of slake/rt/exec.cc holds when _add_local_var is done.
use mathlib.Core.Path.{subst}
use slake.Prelude.{ℕ, ◌+◌, ◌^◌, ◌≤◌, ◌<◌, ◌≡◌, refl, sym, if◌then◌else◌, ap, ◌∙◌, some, arith}
use slake.Types.Kinds.{type_code}
use slake.Types.TypeRef.{TypeRef}
use slake.Frames.Stack.{calc_stack_addr}
use slake.Exec.Memory.{store}
use slake.Exec.Machine.{Machine, Result, ◌>>=◌, ◌>>◌, pure, frame_at}
use slake.Exec.Scalars.{ScalarType}
use slake.Vars.Values.{sized_scalar_of}
use slake.Vars.Creation.{
  Creation, alloc, alloc_aligned, alloc_type_info, set_alloca_record, set_minor_frame, or_terminate,
  put, alloc_alloca_record, alloc_local_var, alloc_data, alloc_header, link_alloca_record,
  alloc_variable_record,
}
use slake.Vars.Creation.Allocates.{
  Yields, >>=-Yields, with_stack_top, with_header, padded, flag_size, alloc-fits,
  alloc_aligned-fits, alloc_type_info-scalar, scalar-not_prepared,
}

alloc_alloca_record-fits :
    (c : Creation) (off reg : ℕ) (m : Machine)
    → m.context.stack.stack_top
        + padded c.sizeof_alloca_record c.alignof_alloca_record m.context.stack
      ≤ m.context.stack.stack_size
    → m.context.stack.stack_size < 2 ^ 64
    → (k : Machine) × Yields (alloc_alloca_record c off reg) m (Result.ok tt, k)
      × (k.memory ≡ m.memory)
unfolding alloc_alloca_record Yields
alloc_alloca_record-fits c off reg m h w =
    let mf_off = (frame_at off m).off_cur_minor_frame in
    let top =
      m.context.stack.stack_top
      + padded c.sizeof_alloca_record c.alignof_alloca_record m.context.stack in
    let m1 = with_stack_top top m in
    let mf = m1.minor_frames mf_off in
    let m2 =
      set_alloca_record top (record { off_next = mf.off_alloca_records; def_reg = reg }) m1 in
    let m3 = set_minor_frame mf_off (record mf { off_alloca_records = top }) m2 in
    let fits = alloc_aligned-fits c.sizeof_alloca_record c.alignof_alloca_record m h w in
    (
      m3,
      >>=-Yields _ _ _ (alloc_aligned c.sizeof_alloca_record c.alignof_alloca_record)
          (λ _. link_alloca_record mf_off reg) m fits refl,
      refl,
    )

alloc_header-fits :
    (t : TypeRef) (m : Machine)
    → m.context.stack.stack_top + 1 + 1 ≤ m.context.stack.stack_size
    → m.context.stack.stack_size < 2 ^ 64
    → Yields (alloc_header t) m (Result.ok tt, with_header t m)
unfolding alloc_header Yields
alloc_header-fits t m room w =
    let top = m.context.stack.stack_top in
    let stack = m.context.stack in
    let a = calc_stack_addr stack (top + 1) in
    let m1 = record (with_stack_top (top + 1) m) { memory = store 1 a t.type_modifier m.memory } in
    >>=-Yields _ _ _ (alloc 1)
      (λ modifier.
        put 1 modifier t.type_modifier
        >> (alloc 1 >>= λ type_id. put 1 type_id (type_code t.type_id)))
      m (alloc-fits 1 m (omega (arith, room)) w)
      (>>=-Yields _ _ _ (alloc 1) (λ type_id. put 1 type_id (type_code t.type_id)) m1
        (alloc-fits 1 m1 (omega (arith, room)) w) refl)

module _ (c : Creation) (t : TypeRef) (m : Machine) where
  -- A context with room for a variable of a number type: its data, the byte of a nullable one, the
  -- header and the record. `top` is the stack's top behind the data.
  pub record HasRoom (size align top : ℕ) : Type 0 where
    pub sized : c.sizeof_type t ≡ some size
    pub aligned : c.alignof_type t ≡ some align
    pub start : top ≡ m.context.stack.stack_top + padded size align m.context.stack
    pub room :
        top
          + flag_size t
          + 1
          + 1
          + padded c.sizeof_alloca_record c.alignof_alloca_record
              (record m.context.stack { stack_top = top + flag_size t + 1 + 1 })
        ≤ m.context.stack.stack_size
    pub bounded : m.context.stack.stack_size < 2 ^ 64

module _ (c : Creation) (off : ℕ) (t : TypeRef) (reg : ℕ) (m : Machine) where
  alloc_data-fits :
      (size align top : ℕ)
      → c.sizeof_type t ≡ some size
      → c.alignof_type t ≡ some align
      → top ≡ m.context.stack.stack_top + padded size align m.context.stack
      → top ≤ m.context.stack.stack_size
      → m.context.stack.stack_size < 2 ^ 64
      → Yields
          (alloc_data c off t)
          m
          (Result.ok (calc_stack_addr m.context.stack top), with_stack_top top m)
  unfolding alloc_data Yields
  alloc_data-fits size align top hs ha start room w =
      ap
        (λ o.
          (or_terminate o >>= λ size.
          or_terminate (c.alignof_type t) >>= λ align. alloc_aligned size align)
            m)
        hs
      ∙ (ap (λ o. (or_terminate o >>= λ align. alloc_aligned size align) m) ha
          ∙ subst
              (λ o.
                alloc_aligned size align m
                ≡ (Result.ok (calc_stack_addr m.context.stack o), with_stack_top o m))
              (sym start)
              (alloc_aligned-fits size align m
                (subst (λ o. o ≤ m.context.stack.stack_size) start room) w))

  pub alloc_local_var-scalar :
      (s : ScalarType) (size align top : ℕ)
      → sized_scalar_of t.type_id ≡ some s
      → HasRoom c t m size align top
      → (k : Machine) × Yields
          (alloc_local_var c off t reg)
          m
          (Result.ok (top + flag_size t + 1 + 1), k)
        × (k.memory ≡ (with_header t (with_stack_top (top + flag_size t) m)).memory)
  unfolding alloc_local_var alloc_variable_record Yields
  alloc_local_var-scalar s size align top n fits =
      let room = fits.room in
      let w = fits.bounded in
      let m1 = with_stack_top top m in
      let m2 = with_stack_top (top + flag_size t) m in
      let m3 = with_header t m2 in
      let (k, recorded, same) = alloc_alloca_record-fits c off reg m3 room w in
      let variable = λ (_ : Unit {0}). alloc_variable_record c off reg in
      let header = λ (_ : Unit {0}). alloc_header t >>= variable in
      let info = λ (_ : ℕ). alloc_type_info t.type_id t >>= header in
      (
        k,
        ap (λ b. ((if b then c.prepare t else pure tt) >>= λ _. alloc_data c off t >>= info) m)
              (scalar-not_prepared t.type_id s n)
            ∙ >>=-Yields _ _ _ (alloc_data c off t) info m
                (alloc_data-fits size align top fits.sized fits.aligned fits.start
                  (omega (arith, room)) w)
                (>>=-Yields _ _ _ (alloc_type_info t.type_id t) header m1
                  (alloc_type_info-scalar t m1 (omega (arith, room)) w t.type_id s n)
                  (>>=-Yields _ _ _ (alloc_header t) variable m2
                    (alloc_header-fits t m2 (omega (arith, room)) w)
                    (>>=-Yields _ _ _ (alloc_alloca_record c off reg)
                      (λ _. pure (top + flag_size t + 1 + 1)) m3 recorded refl))),
        same,
      )
