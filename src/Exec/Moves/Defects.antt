-- ===== src/Exec/Moves/Defects.antt =====
-- What LOAD and RLOAD of slake/rt/exec.cc come to.
use slake.Prelude.{ℕ, ◌≡◌, ap, ◌∙◌, sym, true, Option, none, some, if◌then◌else◌}
use slake.Types.Value.{Value, Payload}
use slake.Frames.Major.{InsRegType}
use slake.Exec.Opcode.{Instruction}
use slake.Exec.Machine.{
  Machine, Action, Env, RegularFn, Result, Error, MemberQueryResult, is_found, ◌>>=◌, require,
  check_reg_index, read_value, write_value, reg_addr, or_throw, defined, invalid_operands,
}
use slake.Exec.Moves.{
  is_id_ref, reference_of, object_of, non_null, any_register, resolved, exec_load, exec_rload,
}

-- Wherever the action succeeds, the state behind it has the property.
abbrev pub Leaves : {A : Type 0} → (Machine → Type 0) → Action A → Type 0
Leaves {A} P a = (m k : Machine) (y : A) → a m ≡ (Result.ok y, k) → P k

-- A bind leaves what its second part leaves.
>>=-Leaves :
    {A B : Type 0} {P : Machine → Type 0} (a : Action A) (f : A → Action B)
    → ((x : A) → Leaves P (f x))
    → Leaves P (a >>= f)
>>=-Leaves {A} {B} {P} a f h m k y e = by_result (a m) e
  where
    by_result : (p : Result A × Machine) → ((λ (l : Machine). p) >>= f) m ≡ (Result.ok y, k) → P k
    by_result (Result.ok x, l) e = h x l k y e
    by_result (Result.thrown x, l) e = cc e
    by_result (Result.terminated, l) e = cc e
    by_result (Result.undefined, l) e = cc e

-- A value is not both a reference and an object.
one_kind :
    (p : Payload) (f : ℕ → Action (Unit {0}))
    → Leaves
        (λ m. ⊥)
        (or_throw (reference_of p) invalid_operands >>= λ r. defined (object_of p) >>= f)
one_kind (Payload.object a) f m k y e = cc e
one_kind (Payload.reference r) f m k y e = cc e
one_kind _ f m k y e = cc e

module _ (env : Env) (ol : RegularFn) (off : ℕ) where
  exec_load-Leaves : (ins : Instruction) → Leaves (λ m. ⊥) (exec_load env ol off ins)
  unfolding exec_load
  exec_load-Leaves ins =
      let rest = λ (o : ℕ). or_throw (non_null (some o)) invalid_operands >>= λ id.
      resolved env ol off id none ins.reg_out in
      let found = λ (source : Value).
        or_throw (reference_of source.payload) invalid_operands >>= λ r.
        defined (object_of source.payload) >>= rest in
      let value = λ (x : Unit {0}). any_register env ol off ins.reg0 >>= found in
      >>=-Leaves (check_reg_index env ol off ins.reg_out InsRegType.any) value (λ x.
        >>=-Leaves (any_register env ol off ins.reg0) found
          (λ source. one_kind source.payload rest))

  -- LOAD never succeeds, whatever the registers hold.
  pub exec_load-ok :
      (ins : Instruction) (m k : Machine) → ¬ (exec_load env ol off ins m ≡ (Result.ok tt, k))
  exec_load-ok ins m k = exec_load-Leaves ins m k tt

  abbrev pub payload_at : ℕ → Machine → Payload
  payload_at reg m =
      (env.value_bytes.load_value (reg_addr off InsRegType.any env.sizes.sizeof_value reg m)
        m.memory).payload

  resolved-Leaves :
      (id : ℕ) (scope : Option ℕ) (reg : ℕ)
      → Leaves (λ m. payload_at reg m ≡ Payload.bool true) (resolved env ol off id scope reg)
  unfolding resolved read_value write_value
  resolved-Leaves id scope reg =
      let put =
        λ (old : Value). write_value env ol off reg (record old { payload = Payload.bool true }) in
      let get = λ (x : MemberQueryResult). read_value env ol off reg >>= put in
      let check = λ (found : MemberQueryResult).
        or_throw (if is_found found then some found else none)
          (Error.referenced_member_not_found id)
        >>= get in
      let ask = λ (x : Unit {0}). env.resolve_id_ref id scope >>= check in
      >>=-Leaves (require (is_id_ref (env.object_at id))) ask (λ x.
        >>=-Leaves (env.resolve_id_ref id scope) check (λ found.
          >>=-Leaves (or_throw (if is_found found then some found else none) _) get (λ x.
            >>=-Leaves (read_value env ol off reg) put (λ old m k y e.
              sym (ap (λ (p : Result (Unit {0}) × Machine). payload_at reg p.1) e)
              ∙ ap (λ (v : Value). v.payload) (env.value_bytes.load-store _ _ m.memory)))))

  exec_rload-Leaves :
      (ins : Instruction)
      → Leaves (λ m. payload_at ins.reg_out m ≡ Payload.bool true) (exec_rload env ol off ins)
  unfolding exec_rload
  exec_rload-Leaves ins =
      let end = λ (scope id : ℕ). resolved env ol off id (some scope) ins.reg_out in
      let ident = λ (scope : ℕ) (source : Value).
        or_throw (non_null (object_of source.payload)) invalid_operands >>= end scope in
      let second = λ (scope : ℕ). any_register env ol off ins.reg1 >>= ident scope in
      let object = λ (base : Value).
        or_throw (non_null (object_of base.payload)) invalid_operands >>= second in
      let first = λ (x : Unit {0}). any_register env ol off ins.reg0 >>= object in
      >>=-Leaves (check_reg_index env ol off ins.reg_out InsRegType.any) first (λ x.
        >>=-Leaves (any_register env ol off ins.reg0) object (λ base.
          >>=-Leaves (or_throw (non_null (object_of base.payload)) _) second (λ scope.
            >>=-Leaves (any_register env ol off ins.reg1) (ident scope) (λ source.
              >>=-Leaves (or_throw (non_null (object_of source.payload)) _) (end scope)
                (λ id. resolved-Leaves id (some scope) ins.reg_out)))))

  -- Where RLOAD succeeds, its output register holds the bool true, whatever member was found.
  pub exec_rload-payload_at :
      (ins : Instruction) (m k : Machine)
      → exec_rload env ol off ins m ≡ (Result.ok tt, k)
      → payload_at ins.reg_out k ≡ Payload.bool true
  exec_rload-payload_at ins m k = exec_rload-Leaves ins m k tt
