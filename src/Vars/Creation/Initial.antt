-- ===== src/Vars/Creation/Initial.antt =====
-- The value of a local variable of a number type when _add_local_var of slake/rt/exec.cc is done.
use slake.Prelude.{
  ℕ, ◌+◌, ◌≤◌, ◌<◌, ◌≡◌, refl, ap, ◌∙◌, sym, true, false, Option, none, some, inr, get_or, arith,
  if◌then◌else◌,
}
use slake.Types.Kinds.{TypeId, type_code, all_types}
use slake.Types.TypeRef.{TypeRef}
use slake.Types.Reference.{Reference, ReferenceKind}
use slake.Types.Value.{Value}
use slake.Frames.Stack.{calc_stack_addr}
use slake.Exec.Memory.{Memory, store, store-other}
use slake.Exec.Machine.{Machine, Result, ◌>>=◌, pure}
use slake.Exec.Scalars.{IntType, FloatType, ScalarType, int, float, get_scalar, scalar_payload}
use slake.Vars.Objects.{World, header, type_at}
use slake.Vars.Values.{scalar_of, sized_scalar_of, is_nullable, null_value}
use slake.Vars.Locate.{local_base}
use slake.Vars.Read.{read_var}
use slake.Vars.Write.{Written, write_var, local_number, put_scalar, write_local_scalar}
use slake.Vars.Numbers.{is_isize}
use slake.Vars.Locals.{write_var-read_var_local, write_var-local_scalar}
use slake.Vars.Defaults.{default_number, default_object, default_value_of}
use slake.Vars.Defaults.Results.{zero-small}
use slake.Vars.Creation.{
  Creation, or_terminate, begins_with_default, guarded_result, local_var_ref, written,
  write_default, add_local_var,
}
use slake.Vars.Creation.Allocates.{Yields, with_header, with_stack_top, flag_size}
use slake.Vars.Creation.Begins.{HasRoom, alloc_local_var-scalar}

type_of_code : (t : TypeId) → get_or all_types (type_code t) TypeId.unknown ≡ t
type_of_code TypeId.i8 = refl
type_of_code _ = refl

type_code-lt : (t : TypeId) → type_code t < 256
type_code-lt TypeId.i8 = omega arith
type_code-lt _ = omega arith

store-byte : (a v : ℕ) (m : Memory) → v < 256 → store 1 a v m a ≡ v
unfolding store
store-byte a v m h = ground (arith, h)

scalar-begins :
    (t : TypeId) (s : ScalarType) → sized_scalar_of t ≡ some s → begins_with_default t ≡ true
scalar-begins TypeId.i8 s e = refl
scalar-begins TypeId.i16 s e = refl
scalar-begins TypeId.i32 s e = refl
scalar-begins TypeId.i64 s e = refl
scalar-begins TypeId.u8 s e = refl
scalar-begins TypeId.u16 s e = refl
scalar-begins TypeId.u32 s e = refl
scalar-begins TypeId.u64 s e = refl
scalar-begins TypeId.f32 s e = refl
scalar-begins TypeId.f64 s e = refl
scalar-begins TypeId.bool s e = refl
scalar-begins _ s e = cc e

sized-scalar :
    (t : TypeId) (s : ScalarType)
    → sized_scalar_of t ≡ some s
    → (scalar_of t ≡ some s) × (is_isize s ≡ false)
sized-scalar TypeId.i8 s e = (e, cc e)
sized-scalar _ s e = (cc e, cc e)

-- The two bytes of a header tell the type of the variable.
header-with_header :
    (t : TypeRef) (m : Machine)
    → t.type_modifier < 256
    → m.context.stack.stack_top + 1 + 1 ≤ m.context.stack.stack_size
    → header
        (calc_stack_addr m.context.stack (m.context.stack.stack_top + 1 + 1))
        (with_header t m).memory
      ≡ record t { type_def = 0 }
header-with_header t m byte room =
    let stack = m.context.stack in
    let base = calc_stack_addr stack (stack.stack_top + 1 + 1) in
    let next : calc_stack_addr stack (stack.stack_top + 1) ≡ base + 1 = omega (arith, room) in
    let k = store 1 (calc_stack_addr stack (stack.stack_top + 1)) t.type_modifier m.memory in
    let code = store-byte base (type_code t.type_id) k (type_code-lt t.type_id) in
    let modifier =
      store-other 1 base (type_code t.type_id) k (base + 1) (inr (omega arith))
      ∙ (ap k (sym next) ∙ store-byte _ t.type_modifier m.memory byte) in
    λ i. record {
      type_id = (ap (λ n. get_or all_types n TypeId.unknown) code ∙ type_of_code t.type_id) i;
      type_modifier = modifier i;
      type_def = 0;
    }

-- nullptr is no number.
null-number : (s : ScalarType) → local_number s null_value.payload ≡ none
unfolding get_scalar
null-number (int IntType.i8) = refl
null-number (int _) = refl
null-number (float FloatType.f32) = refl
null-number (float FloatType.f64) = refl
null-number ScalarType.bool = refl

-- The context at `context` has the data stack of the machine.
abbrev pub IsContext : World → ℕ → Machine → Type 0
IsContext world context m =
    ((world.context_stack context).data_stack ≡ m.context.stack.data_stack)
    × ((world.context_stack context).stack_size ≡ m.context.stack.stack_size)

-- The reference to a variable whose data ends at the top `top`
abbrev pub new_ref : ℕ → TypeRef → ℕ → Reference
new_ref context t top = local_var_ref context (top + flag_size t + 1 + 1)

module _ (world : World) (c : Creation) (context off : ℕ) (t : TypeRef) (reg : ℕ)
    (m : Machine) where
  created :
      (s : ScalarType) (size align top : ℕ)
      → sized_scalar_of t.type_id ≡ some s
      → t.type_modifier < 256
      → IsContext world context m
      → HasRoom c t m size align top
      → (k : Machine) × (add_local_var world c context off t reg m
          ≡ (write_default world c (new_ref context t top) t >>= λ _. pure (new_ref context t top))
              k)
        × (header (local_base world (new_ref context t top)) k.memory ≡ record t { type_def = 0 })
  unfolding add_local_var Yields
  created s size align top n byte (d, e) fits =
      let (k, made, same) = alloc_local_var-scalar c off t reg m s size align top n fits in
      let after = λ (o : ℕ).
        write_default world c (local_var_ref context o) t >>= λ _. pure (local_var_ref context o) in
      let base : local_base world (new_ref context t top)
          ≡ calc_stack_addr m.context.stack (top + flag_size t + 1 + 1) =
        omega (arith, d, e) in
      (
        k,
        ap (λ r. ((λ (l : Machine). guarded_result m.context.stack.stack_top r) >>= after) m) made,
        ap (λ a. header a k.memory) base
            ∙ (ap (header _) same
                ∙ header-with_header t (with_stack_top (top + flag_size t) m) byte
                    (omega (arith, fits.room))),
      )

  -- The tail of _add_local_var behind a value that is written, or that is not
  write_default-value :
      (s : ScalarType) (r : Reference) (v : Value) (w : Option Written) (k : Machine)
      → sized_scalar_of t.type_id ≡ some s
      → default_value_of c.layout t ≡ some v
      → write_var world r v k.memory ≡ w
      → (write_default world c r t >>= λ _. pure r) k ≡ (written w >>= λ _. pure r) k
  unfolding write_default
  write_default-value s r v w k n d h =
      ap
        (λ b.
          ((if b
                then (or_terminate (default_value_of c.layout t) >>= λ v m.
                    written (write_var world r v m.memory) m)
                else pure tt)
              >>= λ _. pure r)
            k)
        (scalar-begins t.type_id s n)
      ∙ (ap
            (λ o.
              ((or_terminate o >>= λ v m. written (write_var world r v m.memory) m) >>= λ _. pure r)
                k)
            d
          ∙ ap (λ o. (written o >>= λ _. pure r) k) h)

  default_value-scalar :
      (s : ScalarType)
      → sized_scalar_of t.type_id ≡ some s
      → is_nullable t ≡ false
      → default_value_of c.layout t
        ≡ some (record { payload = scalar_payload s 0; value_flags = 0 })
  unfolding default_value_of
  default_value-scalar s n plain =
      let object = default_object c.layout t.type_id t.type_def in
      ap (λ b. if b then some null_value else default_number (sized_scalar_of t.type_id) object)
        plain
      ∙ ap (λ o. default_number o object) n

  -- A local variable of a number type that is not ISize, USize or nullable, whose modifier is a byte,
  -- in a context with room for it: _add_local_var returns the reference to the bytes behind the data and the header, and
  -- read_var of the reference gives the number 0 of the type.
  pub add_local_var-read_var :
      (s : ScalarType) (size align top : ℕ) (old : Value)
      → sized_scalar_of t.type_id ≡ some s
      → is_nullable t ≡ false
      → t.type_modifier < 256
      → IsContext world context m
      → HasRoom c t m size align top
      → (k : Machine) × (add_local_var world c context off t reg m
          ≡ (Result.ok (new_ref context t top), k))
        × (read_var world (new_ref context t top) old k.memory
            ≡ some (record old { payload = scalar_payload s 0 }))
  add_local_var-read_var s size align top old n plain byte same fits =
      let (k, made, head) = created s size align top n byte same fits in
      let (number, narrow) = sized-scalar t.type_id s n in
      let r = new_ref context t top in
      let typed : scalar_of (type_at (local_base world r) k.memory) ≡ some s =
        ap (λ (h : TypeRef). scalar_of h.type_id) head ∙ number in
      let (l, put, got) =
        write_var-read_var_local world r s 0 0 old k.memory refl typed narrow (zero-small s) in
      (
        record k { memory = l },
        made ∙ write_default-value s r _ _ k n (default_value-scalar s n plain) put,
        got,
      )

  null_default :
      (s : ScalarType) (r : Reference) (k : Memory)
      → r.kind ≡ ReferenceKind.local_var_ref
      → scalar_of (type_at (local_base world r) k) ≡ some s
      → is_nullable (header (local_base world r) k) ≡ true
      → (l : Memory) × (write_var world r null_value k ≡ some (false, l))
  unfolding write_local_scalar put_scalar
  null_default s r k kind e n =
      let a = local_base world r + 2 in
      let nothing : local_number s null_value.payload ≡ none = null-number s in
      (
        store 1 a 0 k,
        write_var-local_scalar world r s null_value k kind e
            ∙ (ap (λ b. some (write_local_scalar world s a b null_value.payload k)) n
                ∙ ap (λ o. some (put_scalar s (a + 1) o (store 1 a 0 k))) nothing),
      )

  -- A local variable of a number type that is nullable, but not ISize or USize, whose modifier is a
  -- byte, in a context with room for it: _add_local_var ends the program.
  pub add_local_var-terminates :
      (s : ScalarType) (size align top : ℕ)
      → sized_scalar_of t.type_id ≡ some s
      → is_nullable t ≡ true
      → t.type_modifier < 256
      → IsContext world context m
      → HasRoom c t m size align top
      → (k : Machine) × (add_local_var world c context off t reg m ≡ (Result.terminated, k))
  unfolding is_nullable default_value_of
  add_local_var-terminates s size align top n nullable byte same fits =
      let (k, made, head) = created s size align top n byte same fits in
      let (number, narrow) = sized-scalar t.type_id s n in
      let r = new_ref context t top in
      let (l, put) =
        null_default s r k.memory refl (ap (λ (h : TypeRef). scalar_of h.type_id) head ∙ number)
          (ap is_nullable head ∙ nullable) in
      let default : default_value_of c.layout t ≡ some null_value =
        ap
          (λ b.
            if b
            then some null_value
            else default_number (sized_scalar_of t.type_id)
                (default_object c.layout t.type_id t.type_def))
          nullable in
      (record k { memory = l }, made ∙ write_default-value s r _ _ k n default put)
