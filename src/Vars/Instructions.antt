-- ===== src/Vars/Instructions.antt =====
-- STOREI8 .. STOREBOOL and LVALUEI8 .. LVALUEBOOL of slake/rt/exec.cc with write_var and read_var
-- of slake/rt/var_access.cc.
use slake.Prelude.{
  ℕ, ◌+◌, ◌≤◌, ◌≡◌, ◌⊎◌, refl, ap, ◌∙◌, Bool, true, false, Option, none, some, ltb, arith,
}
use mathlib.Core.Path.{subst}
use slake.Types.Reference.{Reference}
use slake.Types.Value.{Value, Payload}
use slake.Layout.Fields.{FieldRecord}
use slake.Exec.Memory.{Memory, load, store, store-other, load-store, load-lt}
use slake.Exec.Scalars.{
  ScalarType, IntType, FloatType, int, float, scalar_bank, scalar_size, get_scalar, scalar_payload,
}
use slake.Exec.Opcode.{Instruction}
use slake.Exec.Machine.{
  Machine, Env, RegularFn, Result, reg_addr, read_scalar, read_bank, write_scalar, write_bank,
  read_value, ◌>>=◌, require, defined,
}
use slake.Frames.Major.{InsRegType}
use slake.Exec.Moves.{exec_store_scalar, exec_lvalue_scalar, any_register}
use slake.Exec.Numeric.Results.{HasBytes}
use slake.Vars.Objects.{World}
use slake.Vars.Values.{sized_scalar_of, is_nullable}
use slake.Vars.Read.{read_var}
use slake.Vars.Write.{Written, write_var}
use slake.Vars.Numbers.{get_scalar-scalar_payload}
use slake.Vars.Fields.{IsStatic, static_addr}
use slake.Vars.Fields.Results.{write_var-read_var_static, write_var-stored}

-- The value that read_var gives out, and the memory that write_var leaves
abbrev read_into : Option Value → Machine → Result Value × Machine
read_into none m = (Result.undefined, m)
read_into (some v) m = (Result.ok v, m)

abbrev written_to : Option Written → Machine → Result Bool × Machine
written_to none m = (Result.undefined, m)
written_to (some (done, k)) m = (Result.ok done, record m { memory = k })

-- The interpreter on variables in its memory. A value that read_var writes to holds `old` before.
abbrev pub with_vars : World → Value → Env → Env
with_vars world old env = record env {
  read_var = λ r m. read_into (read_var world r old m.memory) m;
  write_var = λ r v m. written_to (write_var world r v m.memory) m;
}

-- What a register holds, in the frame at `off`
abbrev pub register : ℕ → ScalarType → ℕ → Machine → ℕ
register off s reg m =
    load (scalar_size s) (reg_addr off (scalar_bank s) (scalar_size s) reg m) m.memory

module _ (world : World) (old : Value) (base : Env) (ol : RegularFn) (off : ℕ) where
  abbrev pub env : Env
  env = with_vars world old base

  abbrev pub HoldsReference : ℕ → Reference → Machine → Type 0
  HoldsReference reg r m =
      (base.value_bytes.load_value (reg_addr off InsRegType.any base.sizes.sizeof_value reg m)
        m.memory).payload
      ≡ Payload.reference r

  stored :
      (s : ScalarType) (ins : Instruction) (r : Reference) (m : Machine) (k : Memory)
      → ltb ins.reg0 (ol.num_registers InsRegType.any) ≡ true
      → ltb ins.reg1 (ol.num_registers (scalar_bank s)) ≡ true
      → HoldsReference ins.reg0 r m
      → write_var world r
          (record { payload = scalar_payload s (register off s ins.reg1 m); value_flags = 0 })
          m.memory
        ≡ some (true, k)
      → exec_store_scalar env ol off s ins m ≡ (Result.ok tt, record m { memory = k })
  unfolding exec_store_scalar read_value read_scalar read_bank
  stored s ins r m k a b ref w =
      simp (a, b, ref)
        (ap (λ (o : Option Written). ((λ (z : Machine). written_to o z) >>= require) m) w)

  loaded :
      (s : ScalarType) (ins : Instruction) (r : Reference) (v : Value) (y : ℕ) (m : Machine)
      → ltb ins.reg_out (ol.num_registers (scalar_bank s)) ≡ true
      → ltb ins.reg0 (ol.num_registers InsRegType.any) ≡ true
      → HoldsReference ins.reg0 r m
      → read_var world r old m.memory ≡ some v
      → get_scalar s (Payload.reference r) ≡ none
      → get_scalar s v.payload ≡ some y
      → exec_lvalue_scalar env ol off s ins m ≡ (
        Result.ok tt,
        record m {
          memory =
              store
                (scalar_size s)
                (reg_addr off (scalar_bank s) (scalar_size s) ins.reg_out m)
                y
                m.memory;
        },
      )
  unfolding exec_lvalue_scalar any_register read_value write_scalar write_bank
  loaded s ins r v y m a b ref w n e =
      let put = λ (x : ℕ). write_scalar env ol off s ins.reg_out x in
      simp (a, b, ref, n)
        (ap
            (λ (o : Option Value).
              ((λ (z : Machine). read_into o z) >>= λ u. defined (get_scalar s u.payload) >>= put)
                m)
            w
          ∙ ap (λ (o : Option ℕ). (defined o >>= put) m) e)

  no_number : (s : ScalarType) (r : Reference) → get_scalar s (Payload.reference r) ≡ none
  unfolding get_scalar
  no_number (int IntType.i8) r = refl
  no_number (int _) r = refl
  no_number (float FloatType.f32) r = refl
  no_number (float FloatType.f64) r = refl
  no_number ScalarType.bool r = refl

  abbrev pub Apart : ℕ → ℕ → ℕ → ℕ → Type 0
  Apart a n b k = (a + n ≤ b) ⊎ (b + k ≤ a)

  -- A store apart from an Any register keeps the reference in it.
  still_held :
      (reg : ℕ) (r : Reference) (n a y : ℕ) (m : Machine)
      → Apart
          (reg_addr off InsRegType.any base.sizes.sizeof_value reg m)
          base.sizes.sizeof_value
          a
          n
      → HoldsReference reg r m
      → HoldsReference reg r (record m { memory = store n a y m.memory })
  still_held reg r n a y m apart h =
      ap (λ (v : Value). v.payload)
        (base.value_bytes.load-agrees _ _ _
          (λ i l. store-other n a y m.memory _ (ground (arith, apart, l))))
      ∙ h

  -- STOREI8 .. STOREBOOL through a reference to a static field of that number type that is not
  -- ISize, USize or nullable, and then LVALUEI8 .. LVALUEBOOL through a register that holds the
  -- same reference and does not overlap with the field: both succeed, and the output register of
  -- the second stands for the number that the source register of the first held.
  pub exec_store_scalar-exec_lvalue_scalar :
      (r : Reference) (f : FieldRecord) (s : ScalarType) (st ld : Instruction) (m : Machine)
      → HasBytes m.memory
      → ltb st.reg0 (ol.num_registers InsRegType.any) ≡ true
      → ltb st.reg1 (ol.num_registers (scalar_bank s)) ≡ true
      → ltb ld.reg_out (ol.num_registers (scalar_bank s)) ≡ true
      → ltb ld.reg0 (ol.num_registers InsRegType.any) ≡ true
      → HoldsReference st.reg0 r m
      → HoldsReference ld.reg0 r m
      → Apart
          (reg_addr off InsRegType.any base.sizes.sizeof_value ld.reg0 m)
          base.sizes.sizeof_value
          (static_addr world r f)
          (scalar_size s)
      → IsStatic world r f
      → sized_scalar_of f.type.type_id ≡ some s
      → is_nullable f.type ≡ false
      → (k l : Machine) × (exec_store_scalar env ol off s st m ≡ (Result.ok tt, k))
        × (exec_lvalue_scalar env ol off s ld k ≡ (Result.ok tt, l))
        × (scalar_payload s (register off s ld.reg_out l)
            ≡ scalar_payload s (register off s st.reg1 m))
  exec_store_scalar-exec_lvalue_scalar r f s st ld m bytes a b c d from to apart static n plain =
      let x = register off s st.reg1 m in
      let small = load-lt (scalar_size s) _ m.memory bytes in
      let (k, w, got) =
        write_var-read_var_static world r f s x 0 old m.memory static n plain small in
      let (z, is) = write_var-stored world r f s _ m.memory k static n plain w in
      let (y, e, y_small, same) = get_scalar-scalar_payload s x small in
      let held =
        subst (λ (h : Memory). HoldsReference ld.reg0 r (record m { memory = h })) is
          (still_held ld.reg0 r (scalar_size s) (static_addr world r f) z m apart to) in
      (
        record m { memory = k },
        _,
        stored s st r m k a b from w,
        loaded s ld r (record old { payload = scalar_payload s x }) y (record m { memory = k }) c d
            held got (no_number s r) e,
        ap (scalar_payload s) (load-store (scalar_size s) _ y k y_small) ∙ same,
      )
