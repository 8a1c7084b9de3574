-- ===== src/Vars/Creation/Throws.antt =====
-- Where actions of _add_local_var of slake/rt/exec.cc throw, they change the bytes and the top of
-- the data stack alone.
use mathlib.Core.Path.{subst}
use slake.Prelude.{
  ℕ, ◌+◌, ◌%◌, ◌^◌, ◌≡◌, refl, ap, ◌∙◌, sym, Bool, true, false, Option, none, some, if◌then◌else◌,
  ltb, Bool-cases, inl, inr,
}
use slake.Types.Kinds.{TypeId}
use slake.Types.TypeRef.{TypeRef}
use slake.Frames.Stack.{DataStack, stack_alloc, aligned_stack_alloc}
use slake.Exec.Machine.{Machine, Action, Error, Result, ◌>>=◌, pure, modify, gets}
use slake.Exec.Effects.{Relates, Reads}
use slake.Vars.Values.{is_nullable}
use slake.Vars.Creation.{
  Creation, set_stack, allocated, alloc, alloc_aligned, alloc_flag, put, or_terminate,
  assert_or_terminate, alloc_type_def, alloc_aligned_type_def, flagged_type_def, alloc_type_info,
  is_prepared, alloc_alloca_record, alloc_local_var, alloc_data, alloc_header, link_alloca_record,
  alloc_variable_record,
}

-- The state with another top of the stack and other bytes
abbrev pub with_top : ℕ → (ℕ → ℕ) → Machine → Machine
with_top top bytes k =
    set_stack (record k.context.stack { stack_top = top }) (record k { memory = bytes })

-- The states that differ in the bytes and the top of the stack at most
abbrev pub SameBut : Machine → Machine → Type 0
SameBut m k = with_top m.context.stack.stack_top m.memory k ≡ m

SameBut-trans : (m k l : Machine) → SameBut m k → SameBut k l → SameBut m l
SameBut-trans m k l p q = ap (with_top m.context.stack.stack_top m.memory) q ∙ p

abbrev pub Same : {A : Type 0} → Action A → Type 0
Same a = Relates SameBut a

-- An action that differs from such a one only where it throws no exception
unfoldable pub Throws : {A : Type 0} → Action A → Type 0
Throws {A} a = (m : Machine) (e : Error) (k : Machine) → a m ≡ (Result.thrown e, k) → SameBut m k

>>=-Same :
    {A B : Type 0} (a : Action A) (f : A → Action B)
    → Same a
    → ((x : A) → Same (f x))
    → Same (a >>= f)
unfolding Relates
>>=-Same {A} {B} a f p q m = by_result (a m) (p m)
  where
    by_result :
        (s : Result A × Machine) → SameBut m s.1 → SameBut m (((λ (l : Machine). s) >>= f) m).1
    by_result (Result.ok x, l) e = SameBut-trans m l (f x l).1 e (q x l)
    by_result (Result.thrown x, l) e = e
    by_result (Result.terminated, l) e = e
    by_result (Result.undefined, l) e = e

>>=-Throws :
    {A B : Type 0} (a : Action A) (f : A → Action B)
    → Same a
    → ((x : A) → Throws (f x))
    → Throws (a >>= f)
unfolding Relates Throws
>>=-Throws {A} {B} a f p q m e k = by_result (a m) (p m)
  where
    by_result :
        (s : Result A × Machine)
        → SameBut m s.1
        → ((λ (l : Machine). s) >>= f) m ≡ (Result.thrown e, k)
        → SameBut m k
    by_result (Result.ok x, l) s h = SameBut-trans m l k s (q x l e k h)
    by_result (Result.thrown x, l) s h =
        subst (SameBut m) (ap (λ (z : Result B × Machine). z.1) h) s
    by_result (Result.terminated, l) s h = cc h
    by_result (Result.undefined, l) s h = cc h

-- An allocation changes the top of the stack alone.
stack_alloc-top :
    (size : ℕ) (s : DataStack) → record (stack_alloc size s).1 { stack_top = s.stack_top } ≡ s
unfolding stack_alloc
stack_alloc-top size s = elim (Bool-cases (ltb s.stack_size ((s.stack_top + size) % 2 ^ 64))) [
  | inl h ↦ simp h
  | inr h ↦ simp h
]

allocated-SameBut :
    (p : Option ℕ × DataStack) (m : Machine)
    → record p.1 { stack_top = m.context.stack.stack_top } ≡ m.context.stack
    → SameBut m (allocated p m).1
allocated-SameBut (none, s) m h = ap (λ t. set_stack t m) h
allocated-SameBut (some a, s) m h = ap (λ t. set_stack t m) h

alloc-Same : (size : ℕ) → Same (alloc size)
unfolding alloc Relates
alloc-Same size m =
    allocated-SameBut (stack_alloc size m.context.stack) m (stack_alloc-top size m.context.stack)

alloc_aligned-Same : (size align : ℕ) → Same (alloc_aligned size align)
unfolding alloc_aligned aligned_stack_alloc Relates
alloc_aligned-Same size align m =
    allocated-SameBut (aligned_stack_alloc size align m.context.stack) m
      (stack_alloc-top _ m.context.stack)

pure-Same : {A : Type 0} (x : A) → Same (pure x)
unfolding Relates
pure-Same x m = refl

put-Same : (size a v : ℕ) → Same (put size a v)
unfolding Relates
put-Same size a v m = refl

or_terminate-Same : {A : Type 0} (o : Option A) → Same (or_terminate o)
unfolding Relates
or_terminate-Same none m = refl
or_terminate-Same (some x) m = refl

assert-Same : (b : Bool) → Same (assert_or_terminate b)
unfolding Relates
assert-Same true m = refl
assert-Same false m = refl

gets-Same : {A : Type 0} (f : Machine → A) → Same (gets f)
unfolding Relates
gets-Same f m = refl

alloc_flag-Same : (t : TypeRef) → Same (alloc_flag t)
unfolding alloc_flag Relates
alloc_flag-Same t m = elim (Bool-cases (is_nullable t)) [
  | inl h ↦ simp h (ap (λ s. set_stack s m) (stack_alloc-top 1 m.context.stack))
  | inr h ↦ simp h
]

ruleset same_rules = (
  >>=-Same, alloc-Same, alloc_aligned-Same, pure-Same, put-Same, or_terminate-Same, assert-Same,
  gets-Same, alloc_flag-Same,
)

alloc_type_def-Same : (t : TypeRef) → Same (alloc_type_def t)
unfolding alloc_type_def
alloc_type_def-Same t = search same_rules

alloc_aligned_type_def-Same : (t : TypeRef) → Same (alloc_aligned_type_def t)
unfolding alloc_aligned_type_def
alloc_aligned_type_def-Same t = search same_rules

flagged_type_def-Same : (t : TypeRef) → Same (flagged_type_def t)
unfolding flagged_type_def
flagged_type_def-Same t = search (same_rules, alloc_type_def-Same)

alloc_type_info-Same : (id : TypeId) (t : TypeRef) → Same (alloc_type_info id t)
unfolding alloc_type_info
alloc_type_info-Same TypeId.i8 t = alloc_flag-Same t
alloc_type_info-Same _ t = search (same_rules, alloc_aligned_type_def-Same, flagged_type_def-Same)

Same-Throws : {A : Type 0} (a : Action A) → Same a → Throws a
unfolding Relates Throws
Same-Throws {A} a p m e k h = subst (SameBut m) (ap (λ (z : Result A × Machine). z.1) h) (p m)

modify-Throws : (f : Machine → Machine) → Throws (modify f)
unfolding Throws
modify-Throws f m e k h = cc h

modify_both-Throws : (f g : Machine → Machine) → Throws (modify f >>= λ _. modify g)
unfolding Throws
modify_both-Throws f g m e k h = cc h

pure_behind-Throws :
    {A : Type 0} (x : A) (a : Action (Unit {0})) → Throws a → Throws (a >>= λ _. pure x)
unfolding Throws
pure_behind-Throws {A} x a p m e k h = by_result (a m) refl h
  where
    by_result :
        (s : Result (Unit {0}) × Machine)
        → a m ≡ s
        → ((λ (l : Machine). s) >>= λ _. pure x) m ≡ (Result.thrown e, k)
        → SameBut m k
    by_result (Result.ok y, l) q h = cc h
    by_result (Result.thrown y, l) q h =
        let back : Result A × Machine → Result (Unit {0}) × Machine =
          λ z. elim z.0 [ Result.thrown x ↦ (Result.thrown x, z.1) | _ ↦ (Result.thrown y, l) ] in
        p m e k (q ∙ ap back h)
    by_result (Result.terminated, l) q h = cc h
    by_result (Result.undefined, l) q h = cc h

alloc_header-Same : (t : TypeRef) → Same (alloc_header t)
unfolding alloc_header
alloc_header-Same t = search same_rules

link_alloca_record-Throws : (mf_off reg : ℕ) → Throws (link_alloca_record mf_off reg)
unfolding link_alloca_record
link_alloca_record-Throws mf_off reg = search (same_rules, >>=-Throws, modify_both-Throws)

module _ (c : Creation) (off : ℕ) where
  alloc_data-Same : (t : TypeRef) → Same (alloc_data c off t)
  unfolding alloc_data
  alloc_data-Same t = search same_rules

  alloc_alloca_record-Throws : (reg : ℕ) → Throws (alloc_alloca_record c off reg)
  unfolding alloc_alloca_record
  alloc_alloca_record-Throws reg = search (same_rules, >>=-Throws, link_alloca_record-Throws)

  alloc_variable_record-Throws : (reg : ℕ) → Throws (alloc_variable_record c off reg)
  unfolding alloc_variable_record
  alloc_variable_record-Throws reg =
      search (same_rules, >>=-Throws, pure_behind-Throws, alloc_alloca_record-Throws)

  prepare-Same :
      (t : TypeRef) (b : Bool) → Reads (c.prepare t) → Same (if b then c.prepare t else pure tt)
  unfolding Reads Relates
  prepare-Same t true h m = subst (SameBut m) (sym (h m)) refl
  prepare-Same t false h m = refl

  pub alloc_local_var-Throws :
      (t : TypeRef) (reg : ℕ) → Reads (c.prepare t) → Throws (alloc_local_var c off t reg)
  unfolding alloc_local_var
  alloc_local_var-Throws t reg h = search (
    same_rules,
    >>=-Throws,
    alloc_type_info-Same,
    alloc_data-Same,
    alloc_header-Same,
    alloc_variable_record-Throws,
    prepare-Same t (is_prepared t.type_id) h,
  )
