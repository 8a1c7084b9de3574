-- ===== src/Vars/Creation/Errors.antt =====
-- What _add_local_var of slake/rt/exec.cc leaves behind where it throws an exception.
use slake.Prelude.{ℕ, ◌≡◌, refl, ap, ◌∙◌, sym, Bool, true, false, Option, none, some, if◌then◌else◌}
use slake.Types.TypeRef.{TypeRef}
use slake.Types.Reference.{Reference}
use slake.Types.Value.{Value}
use slake.Exec.Machine.{Machine, Action, Error, Result, ◌>>=◌, pure}
use slake.Exec.Effects.{Reads}
use slake.Vars.Objects.{World}
use slake.Vars.Write.{Written, write_var}
use slake.Vars.Defaults.{default_value_of}
use slake.Vars.Creation.{
  Creation, or_terminate, begins_with_default, guarded, guarded_result, local_var_ref, written,
  write_default, add_local_var,
}
use slake.Vars.Creation.Throws.{Throws, alloc_local_var-Throws}

-- What is left of the state behind an exception that the guard has seen
abbrev pub Unchanged : {A : Type 0} → Action A → Type 0
Unchanged {A} a =
    (m : Machine) (e : Error) (k : Machine)
    → a m ≡ (Result.thrown e, k)
    → record k { memory = m.memory } ≡ m

guarded-Unchanged : {A : Type 0} (a : Action A) → Throws a → Unchanged (guarded a)
unfolding Throws
guarded-Unchanged {A} a p m e k h = by_result (a m) refl h
  where
    by_result :
        (s : Result A × Machine)
        → a m ≡ s
        → guarded_result m.context.stack.stack_top s ≡ (Result.thrown e, k)
        → record k { memory = m.memory } ≡ m
    by_result (Result.ok x, l) q h = cc h
    by_result (Result.thrown x, l) q h =
        ap (λ (z : Result A × Machine). record z.1 { memory = m.memory }) (sym h) ∙ p m x l q
    by_result (Result.terminated, l) q h = cc h
    by_result (Result.undefined, l) q h = cc h

-- The actions that end in no exception
unfoldable pub NeverThrows : {A : Type 0} → Action A → Type 0
NeverThrows {A} a = (m : Machine) (e : Error) (k : Machine) → ¬ (a m ≡ (Result.thrown e, k))

written-NeverThrows : (o : Option Written) → NeverThrows (written o)
unfolding NeverThrows
written-NeverThrows none m e k h = cc h
written-NeverThrows (some (true, l)) m e k h = cc h
written-NeverThrows (some (false, l)) m e k h = cc h

default-NeverThrows :
    (f : Value → Machine → Option Written) (o : Option Value)
    → NeverThrows (or_terminate o >>= λ v m. written (f v m) m)
unfolding NeverThrows
default-NeverThrows f none m e k h = cc h
default-NeverThrows f (some v) m e k h = written-NeverThrows (f v m) m e k h

if-NeverThrows :
    {A : Type 0} (b : Bool) (x y : Action A)
    → NeverThrows x
    → NeverThrows y
    → NeverThrows (if b then x else y)
if-NeverThrows true x y p q = p
if-NeverThrows false x y p q = q

pure-NeverThrows : {A : Type 0} (x : A) → NeverThrows (pure x)
unfolding NeverThrows
pure-NeverThrows x m e k h = cc h

>>=-NeverThrows :
    {A B : Type 0} (a : Action A) (f : A → Action B)
    → NeverThrows a
    → ((x : A) → NeverThrows (f x))
    → NeverThrows (a >>= f)
unfolding NeverThrows
>>=-NeverThrows {A} {B} a f p q m e k = by_result (a m) refl
  where
    by_result :
        (s : Result A × Machine)
        → a m ≡ s
        → ¬ (((λ (l : Machine). s) >>= f) m ≡ (Result.thrown e, k))
    by_result (Result.ok x, l) s h = q x l e k h
    by_result (Result.thrown x, l) s h = p m x l s
    by_result (Result.terminated, l) s h = cc h
    by_result (Result.undefined, l) s h = cc h

-- An action of which only the first step throws leaves behind what that step does.
>>=-Unchanged :
    {A B : Type 0} (a : Action A) (f : A → Action B)
    → Unchanged a
    → ((x : A) → NeverThrows (f x))
    → Unchanged (a >>= f)
unfolding NeverThrows
>>=-Unchanged {A} {B} a f p q m e k = by_result (a m) refl
  where
    by_result :
        (s : Result A × Machine)
        → a m ≡ s
        → ((λ (l : Machine). s) >>= f) m ≡ (Result.thrown e, k)
        → record k { memory = m.memory } ≡ m
    by_result (Result.ok x, l) s h = absurd (q x l e k h)
    by_result (Result.thrown x, l) s h =
        ap (λ (z : Result B × Machine). record z.1 { memory = m.memory }) (sym h) ∙ p m x l s
    by_result (Result.terminated, l) s h = cc h
    by_result (Result.undefined, l) s h = cc h

module _ (world : World) (c : Creation) where
  write_default-NeverThrows :
      (r : Reference) (t : TypeRef) → NeverThrows (write_default world c r t)
  unfolding write_default
  write_default-NeverThrows r t =
      if-NeverThrows (begins_with_default t.type_id) _ _
        (default-NeverThrows (λ v m. write_var world r v m.memory) (default_value_of c.layout t))
        (pure-NeverThrows tt)

  -- Where _add_local_var throws an exception, for a type of any kind whose preparation leaves the
  -- machine as it was, all of the machine but the bytes of its memory is as before: the stack's top,
  -- the frames and the alloca records.
  pub add_local_var-Unchanged :
      (context off : ℕ) (t : TypeRef) (reg : ℕ)
      → Reads (c.prepare t)
      → (m : Machine) (e : Error) (k : Machine)
      → add_local_var world c context off t reg m ≡ (Result.thrown e, k)
      → record k { memory = m.memory } ≡ m
  unfolding add_local_var
  add_local_var-Unchanged context off t reg h =
      >>=-Unchanged _ _ (guarded-Unchanged _ (alloc_local_var-Throws c off t reg h)) (λ o.
        let r = local_var_ref context o in
        >>=-NeverThrows _ _ (write_default-NeverThrows r t) (λ _. pure-NeverThrows r))
