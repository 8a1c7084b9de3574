-- ===== src/Vars/Locals.antt =====
-- Local variables of slake/rt/var_access.cc that hold numbers.
use slake.Prelude.{
  ℕ, ◌+◌, ◌<◌, ◌^◌, ◌≡◌, inl, refl, ap, ◌∙◌, Bool, true, false, Option, some, get_or, if◌then◌else◌,
  arith,
}
use slake.Types.Kinds.{TypeId, all_types}
use slake.Types.TypeRef.{TypeRef}
use slake.Types.Reference.{Reference, ReferenceKind}
use slake.Types.Value.{Value, Payload}
use slake.Words.{ℤ}
use slake.Exec.Memory.{Memory, load, store, store-other, load-store}
use slake.Exec.Scalars.{IntType, ScalarType, int, scalar_size, scalar_payload}
use slake.Vars.Objects.{World, type_at, header}
use slake.Vars.Locate.{is_typed_with_def, local_base}
use slake.Vars.Read.{read_local_scalar, read_local_by, read_local_var, read_by, read_var}
use slake.Vars.Values.{scalar_of, is_nullable, read_scalar_at}
use slake.Vars.Write.{
  put_scalar, write_local_scalar, write_local_by, write_local_var, write_by, write_var,
}
use slake.Vars.Numbers.{is_isize, SameBelow, read_local_scalar-write_local_scalar}

-- A variable of a number type has no type definition in its header.
scalar_of-typed : (t : TypeId) (s : ScalarType) → scalar_of t ≡ some s → is_typed_with_def t ≡ false
scalar_of-typed TypeId.instance s e = cc e
scalar_of-typed TypeId.array s e = cc e
scalar_of-typed TypeId.fn s e = cc e
scalar_of-typed TypeId.struct_instance s e = cc e
scalar_of-typed TypeId.ref s e = cc e
scalar_of-typed TypeId.union_enum s e = cc e
scalar_of-typed TypeId.union_enum_item s e = cc e
scalar_of-typed TypeId.typeless_scoped_enum s e = cc e
scalar_of-typed _ s e = refl

module _ (world : World) where
  -- What read_var does with a local variable of a number type
  read_var-local_scalar :
      (r : Reference) (s : ScalarType) (old : Value) (m : Memory)
      → r.kind ≡ ReferenceKind.local_var_ref
      → scalar_of (type_at (local_base world r) m) ≡ some s
      → read_var world r old m
        ≡ some (
            read_local_scalar world s
              (local_base world r + 2)
              (is_nullable (header (local_base world r) m))
              old
              m)
  unfolding read_var read_by read_local_var read_local_by
  read_var-local_scalar r s old m k e =
      let base = local_base world r in
      ap (λ kind. read_by world r kind old m) k
      ∙ (ap
            (λ (b : Bool).
              read_local_var world r ((if b then base + 8 else base) + 2)
                (if b then record (header base m) { type_def = load 8 base m } else header base m)
                old m)
            (scalar_of-typed (type_at base m) s e)
          ∙ ap
              (λ (o : Option ScalarType).
                read_local_by world r (header base m) (type_at base m) o (base + 2) old m)
              e)

  pub write_var-local_scalar :
      (r : Reference) (s : ScalarType) (v : Value) (m : Memory)
      → r.kind ≡ ReferenceKind.local_var_ref
      → scalar_of (type_at (local_base world r) m) ≡ some s
      → write_var world r v m
        ≡ some (
            write_local_scalar world s
              (local_base world r + 2)
              (is_nullable (header (local_base world r) m))
              v.payload
              m)
  unfolding write_var write_by write_local_var write_local_by
  write_var-local_scalar r s v m k e =
      let base = local_base world r in
      ap (λ kind. write_by world r kind v m) k
      ∙ ap
          (λ (o : Option ScalarType).
            write_local_by world (header base m) (type_at base m) o (base + 2) v m)
          e

  -- What lies behind the header of a local variable does not change its type.
  header-same : (base : ℕ) (m k : Memory) → SameBelow (base + 2) m k → header base k ≡ header base m
  header-same base m k same = λ i. record {
    type_id = get_or all_types (same base (omega arith) i) TypeId.unknown;
    type_modifier = same (base + 1) (omega arith) i;
    type_def = 0;
  }

  -- A local variable of any number type but ISize, nullable or not: writing a number of its type
  -- succeeds, and reading the variable then gives the number.
  pub write_var-read_var_local :
      (r : Reference) (s : ScalarType) (x flags : ℕ) (old : Value) (m : Memory)
      → r.kind ≡ ReferenceKind.local_var_ref
      → scalar_of (type_at (local_base world r) m) ≡ some s
      → is_isize s ≡ false
      → x < 256 ^ scalar_size s
      → (k : Memory) × (write_var world r
            (record { payload = scalar_payload s x; value_flags = flags })
            m
          ≡ some (true, k))
        × (read_var world r old k ≡ some (record old { payload = scalar_payload s x }))
  write_var-read_var_local r s x flags old m kind e n h =
      let base = local_base world r in
      let nullable = is_nullable (header base m) in
      let (k, put, got, same) =
        read_local_scalar-write_local_scalar world s (base + 2) x nullable old m n h in
      let type = header-same base m k same in
      (
        k,
        write_var-local_scalar r s (record { payload = scalar_payload s x; value_flags = flags }) m
              kind e
            ∙ ap some put,
        read_var-local_scalar r s old k kind (ap (λ (t : TypeRef). scalar_of t.type_id) type ∙ e)
            ∙ (ap
                  (λ (t : TypeRef).
                    some (read_local_scalar world s (base + 2) (is_nullable t) old k))
                  type
                ∙ ap some got),
      )

  -- A local variable of type ISize that is not nullable: writing any number of its type succeeds,
  -- and reading the variable then gives 0.
  pub write_var-read_var_isize :
      (r : Reference) (z : ℤ) (flags : ℕ) (old : Value) (m : Memory)
      → r.kind ≡ ReferenceKind.local_var_ref
      → type_at (local_base world r) m ≡ TypeId.isize
      → is_nullable (header (local_base world r) m) ≡ false
      → (k : Memory) × (write_var world r
            (record { payload = Payload.isize z; value_flags = flags })
            m
          ≡ some (true, k))
        × (read_var world r old k ≡ some (record old { payload = Payload.isize (ℤ.pos 0) }))
  unfolding write_local_scalar read_local_scalar put_scalar read_scalar_at scalar_payload
  write_var-read_var_isize r z flags old m kind e n =
      let base = local_base world r in
      let v : Value = record { payload = Payload.isize z; value_flags = flags } in
      let k = store 8 (base + 2) 0 m in
      let type = header-same base m k (λ b p. store-other 8 (base + 2) 0 m b (inl p)) in
      let number = int IntType.isize in
      let zero : load 8 (base + 2) k ≡ 0 = load-store 8 (base + 2) 0 m (omega arith) in
      (
        k,
        write_var-local_scalar r number v m kind (ap scalar_of e)
            ∙ ap (λ b. some (write_local_scalar world number (base + 2) b v.payload m)) n,
        read_var-local_scalar r number old k kind
              (ap (λ (t : TypeRef). scalar_of t.type_id) type ∙ ap scalar_of e)
            ∙ (ap
                  (λ (t : TypeRef).
                    some (read_local_scalar world number (base + 2) (is_nullable t) old k))
                  type
                ∙ (ap (λ b. some (read_local_scalar world number (base + 2) b old k)) n
                    ∙ ap (λ y. some (record old { payload = scalar_payload number y })) zero)),
      )
