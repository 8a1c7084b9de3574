-- ===== src/Vars/Elements.antt =====
-- Elements of arrays of numbers, in slake/rt/var_access.cc.
use slake.Prelude.{
  ℕ, ◌+◌, ◌*◌, ◌≤◌, ◌<◌, ◌^◌, ◌≡◌, ◌≢◌, ◌⊎◌, inl, inr, ap, ◌∙◌, sym, Bool, true, false, not, ◌||◌,
  Option, some, ltb, arith,
}
use slake.Types.Reference.{Reference, ReferenceKind}
use slake.Types.Value.{Value}
use slake.Exec.Memory.{Memory, load-same}
use slake.Exec.Scalars.{ScalarType, scalar_size, get_scalar, scalar_payload}
use slake.Vars.Objects.{World, ◌>>◌, require}
use slake.Vars.Read.{read_element_by, read_element, read_by, read_var}
use slake.Vars.Values.{sized_scalar_of, is_nullable, read_scalar_at}
use slake.Vars.Write.{is_null, put_scalar, write_element_by, write_element, write_by, write_var}
use slake.Vars.Numbers.{read_scalar_at-put_scalar}

after : (n i j : ℕ) → i < j → n * i + n ≤ n * j
after n i j h = grind (arith, h)

-- A byte of one element is none of another.
other_element :
    (n a i j b : ℕ)
    → i ≢ j
    → a + n * i ≤ b
    → b < a + n * i + n
    → (b < a + n * j) ⊎ (a + n * j + n ≤ b)
other_element n a i j b d p q = elim (lt-cases i j d) [
  | inl l ↦ inl (omega (arith, after n i j l, q))
  | inr g ↦ inr (omega (arith, after n j i g, p))
]
  where
    lt-cases : (i j : ℕ) → i ≢ j → (i < j) ⊎ (j < i)
    lt-cases i j d = grind (arith, d)

module _ (world : World) where
  -- A reference into an array of numbers of a type other than ISize and USize, not nullable
  abbrev pub IsElement : Reference → ScalarType → Type 0
  IsElement r s =
      (r.kind ≡ ReferenceKind.array_element_ref)
      × (sized_scalar_of (world.array r.pointer).element_type.type_id ≡ some s)
      × (is_nullable (world.array r.pointer).element_type ≡ false)

  abbrev pub element_addr : Reference → ScalarType → ℕ
  element_addr r s = (world.array r.pointer).elements + scalar_size s * r.index

  read_var-element :
      (r : Reference) (s : ScalarType) (old : Value) (m : Memory)
      → IsElement r s
      → ltb r.index (world.array r.pointer).length ≡ true
      → read_var world r old m ≡ some (read_scalar_at s (element_addr r s) old m)
  unfolding read_var read_by read_element read_element_by
  read_var-element r s old m (k, e, n) h =
      let o = world.array r.pointer in
      ap (λ kind. read_by world r kind old m) k
      ∙ (ap
            (λ (b : Bool).
              require b
              >> (require (not (is_nullable o.element_type))
                  >> read_element_by world r o o.element_type.type_id
                      (sized_scalar_of o.element_type.type_id) old m))
            h
          ∙ (ap
                (λ (b : Bool).
                  require (not b)
                  >> read_element_by world r o o.element_type.type_id
                      (sized_scalar_of o.element_type.type_id) old m)
                n
              ∙ ap
                  (λ (t : Option ScalarType).
                    read_element_by world r o o.element_type.type_id t old m)
                  e))

  write_var-element :
      (r : Reference) (s : ScalarType) (v : Value) (m : Memory)
      → IsElement r s
      → write_var world r v m ≡ some (put_scalar s (element_addr r s) (get_scalar s v.payload) m)
  unfolding write_var write_by write_element write_element_by
  write_var-element r s v m (k, e, n) =
      let o = world.array r.pointer in
      ap (λ kind. write_by world r kind v m) k
      ∙ (ap
            (λ (b : Bool).
              require (not b || is_null v.payload)
              >> write_element_by world r o o.element_type.type_id
                  (sized_scalar_of o.element_type.type_id) v m)
            n
          ∙ ap (λ (t : Option ScalarType). write_element_by world r o o.element_type.type_id t v m)
              e)

  -- An element of an array of numbers, not nullable and not ISize or USize: writing a number of the
  -- array's type at an index of the array succeeds, reading that element then gives the number, and
  -- reading another element of the same array gives what it gave before.
  pub write_var-read_var_element :
      (r q : Reference) (s : ScalarType) (x flags : ℕ) (old : Value) (m : Memory)
      → IsElement r s
      → ltb r.index (world.array r.pointer).length ≡ true
      → IsElement q s
      → ltb q.index (world.array q.pointer).length ≡ true
      → q.pointer ≡ r.pointer
      → q.index ≢ r.index
      → x < 256 ^ scalar_size s
      → (k : Memory) × (write_var world r
            (record { payload = scalar_payload s x; value_flags = flags })
            m
          ≡ some (true, k))
        × (read_var world r old k ≡ some (record old { payload = scalar_payload s x }))
        × (read_var world q old k ≡ read_var world q old m)
  unfolding read_scalar_at
  write_var-read_var_element r q s x flags old m element h element' h' same apart small =
      let (k, put, got, others) = read_scalar_at-put_scalar s (element_addr r s) x old m small in
      let base = ap (λ o. (world.array o).elements) same in
      let placed : (b : ℕ)
          → element_addr q s ≤ b
          → b < element_addr q s + scalar_size s
          → (b < element_addr r s) ⊎ (element_addr r s + scalar_size s ≤ b) =
        λ b low high.
          other_element (scalar_size s) (world.array r.pointer).elements q.index r.index b apart
            (omega (arith, base, low)) (omega (arith, base, high)) in
      (
        k,
        write_var-element r s (record { payload = scalar_payload s x; value_flags = flags }) m
              element
            ∙ ap some put,
        read_var-element r s old k element h ∙ ap some got,
        read_var-element q s old k element' h'
            ∙ (ap (λ l. some (record old { payload = scalar_payload s l }))
                  (load-same (scalar_size s) (element_addr q s) k m
                    (λ b low high. others b (placed b low high)))
                ∙ sym (read_var-element q s old m element' h')),
      )
