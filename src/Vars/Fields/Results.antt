-- ===== src/Vars/Fields/Results.antt =====
-- Writing and reading static fields of slake/rt/var_access.cc that hold numbers.
use slake.Prelude.{
  ℕ, ◌+◌, ◌<◌, ◌^◌, ◌≡◌, inl, refl, ap, ◌∙◌, sym, Bool, true, false, not, Option, none, some,
  if◌then◌else◌, arith,
}
use slake.Types.Reference.{Reference}
use slake.Types.Value.{Value, Payload}
use slake.Layout.Fields.{FieldRecord}
use slake.Exec.Memory.{Memory, load, store, load-store_other}
use slake.Exec.Scalars.{IntType, ScalarType, int, float, scalar_size, get_scalar, scalar_payload}
use slake.Exec.Arith.{bool_pattern}
use slake.Vars.Objects.{World}
use slake.Vars.Read.{read_field_scalar, read_var}
use slake.Vars.Values.{sized_scalar_of, is_nullable}
use slake.Vars.Write.{Written, is_null, put_scalar, write_field_scalar, write_var}
use slake.Vars.Numbers.{read_scalar_at-put_scalar}
use slake.Vars.Fields.{IsStatic, static_addr, read_var-static, write_var-static}

abbrev pub is_i8 : ScalarType → Bool
is_i8 (int IntType.i8) = true
is_i8 _ = false

module _ (world : World) where
  -- A static field of a number type that is not ISize, USize or nullable: writing a number of its
  -- type succeeds, and reading the field then gives the number.
  pub write_var-read_var_static :
      (r : Reference) (f : FieldRecord) (s : ScalarType) (x flags : ℕ) (old : Value) (m : Memory)
      → IsStatic world r f
      → sized_scalar_of f.type.type_id ≡ some s
      → is_nullable f.type ≡ false
      → x < 256 ^ scalar_size s
      → (k : Memory) × (write_var world r
            (record { payload = scalar_payload s x; value_flags = flags })
            m
          ≡ some (true, k))
        × (read_var world r old k ≡ some (record old { payload = scalar_payload s x }))
  unfolding read_field_scalar write_field_scalar
  write_var-read_var_static r f s x flags old m static n plain h =
      let (k, put, got, same) = read_scalar_at-put_scalar s (static_addr world r f) x old m h in
      (
        k,
        write_var-static world r f s (record { payload = scalar_payload s x; value_flags = flags })
              m static n
            ∙ (ap
                  (λ b.
                    some
                      (write_field_scalar world s (static_addr world r f) b (scalar_payload s x) m))
                  plain
                ∙ ap some put),
        read_var-static world r f s old k static n
            ∙ (ap (λ b. some (read_field_scalar world s (static_addr world r f) b old k)) plain
                ∙ ap some got),
      )

  put_scalar-stored :
      (s : ScalarType) (a : ℕ) (o : Option ℕ) (m k : Memory)
      → put_scalar s a o m ≡ (true, k)
      → (y : ℕ) × (store (scalar_size s) a y m ≡ k)
  unfolding put_scalar
  put_scalar-stored s a none m k e = cc (ap (λ (w : Written). w.0) e)
  put_scalar-stored s a (some y) m k e = (y, ap (λ (w : Written). w.1) e)

  -- A write to a static field of a number type stores a number there.
  pub write_var-stored :
      (r : Reference) (f : FieldRecord) (s : ScalarType) (v : Value) (m k : Memory)
      → IsStatic world r f
      → sized_scalar_of f.type.type_id ≡ some s
      → is_nullable f.type ≡ false
      → write_var world r v m ≡ some (true, k)
      → (y : ℕ) × (store (scalar_size s) (static_addr world r f) y m ≡ k)
  unfolding write_field_scalar
  write_var-stored r f s v m k static n plain w =
      let written =
        sym (
          write_var-static world r f s v m static n
          ∙ ap (λ b. some (write_field_scalar world s (static_addr world r f) b v.payload m)) plain)
        ∙ w in
      let done = ap (λ (o : Option Written). elim o [ some z ↦ z | none ↦ (true, k) ]) written in
      put_scalar-stored s (static_addr world r f) (get_scalar s v.payload) m k done

  negated :
      (s : ScalarType) (a : ℕ) (p : Payload) (m : Memory)
      → is_i8 s ≡ false
      → write_field_scalar world s a true p m ≡ (
          if not (is_null p)
          then (true, store 1 (a + scalar_size s) (bool_pattern (is_null p)) m)
          else put_scalar s a
              (get_scalar s p)
              (store 1 (a + scalar_size s) (bool_pattern (is_null p)) m))
  unfolding write_field_scalar
  negated (int IntType.i8) a p m h = cc h
  negated (int IntType.i16) a p m h = refl
  negated (int _) a p m h = refl
  negated (float t) a p m h = refl
  negated ScalarType.bool a p m h = refl

  -- A nullable static field of a number type that is not ISize, USize or I8: writing a value that
  -- is not null is said to succeed, whatever its type, and the bytes of the number stay as they were.
  pub write_var-nullable :
      (r : Reference) (f : FieldRecord) (s : ScalarType) (v : Value) (m : Memory)
      → IsStatic world r f
      → sized_scalar_of f.type.type_id ≡ some s
      → is_i8 s ≡ false
      → is_nullable f.type ≡ true
      → is_null v.payload ≡ false
      → (k : Memory) × (write_var world r v m ≡ some (true, k))
        × (load (scalar_size s) (static_addr world r f) k
            ≡ load (scalar_size s) (static_addr world r f) m)
  write_var-nullable r f s v m static n wide nullable value =
      let a = static_addr world r f in
      let k = store 1 (a + scalar_size s) 0 m in
      (
        k,
        write_var-static world r f s v m static n
            ∙ (ap (λ b. some (write_field_scalar world s a b v.payload m)) nullable
                ∙ (ap some (negated s a v.payload m wide)
                    ∙ ap
                        (λ (b : Bool).
                          let flagged : Memory = store 1 (a + scalar_size s) (bool_pattern b) m in
                          let out : Written =
                            if not b
                            then (true, flagged)
                            else put_scalar s a (get_scalar s v.payload) flagged in
                          some out)
                        value)),
        load-store_other (scalar_size s) a 1 (a + scalar_size s) 0 m (inl (omega arith)),
      )
