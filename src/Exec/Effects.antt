-- ===== src/Exec/Effects.antt =====
-- What actions on the state of slake/rt/exec.cc read and write: rules that follow their binds.
use mathlib.Core.Path.{subst}
use slake.Prelude.{
  ℕ, ◌+◌, ◌≤◌, ◌<◌, ◌≡◌, ◌⊎◌, refl, sym, Bool, true, false, Option, none, some, ltb,
}
use slake.Frames.Major.{InsRegType}
use slake.Exec.Memory.{store-other}
use slake.Exec.Scalars.{ScalarType, scalar_bank, scalar_size}
use slake.Exec.Machine.{
  Machine, Action, Env, RegularFn, Result, Error, ◌>>=◌, pure, defined, or_throw, require,
  check_reg_index, read_bank, read_scalar, write_scalar, write_bank, read_object, read_value, gets,
  reg_addr, throw,
}

-- The state behind an action, successful or not, is in a relation with the state before it.
unfoldable pub Relates : {A : Type 0} → (Machine → Machine → Type 0) → Action A → Type 0
Relates R a = (m : Machine) → R m (a m).1

-- An action that changes nothing
unfoldable pub Reads : {A : Type 0} → Action A → Type 0
Reads a = (m : Machine) → (a m).1 ≡ m

-- The states that differ in at most the `n` bytes from `a` on
abbrev pub Within : ℕ → ℕ → Machine → Machine → Type 0
Within a n m k =
    ((b : ℕ) → (b < a) ⊎ (a + n ≤ b) → k.memory b ≡ m.memory b)
    × (record k { memory = m.memory } ≡ m)

pub >>=-Relates :
    {A B : Type 0} (R : Machine → Machine → Type 0) (a : Action A) (f : A → Action B)
    → ((m : Machine) → R m m)
    → Reads a
    → ((x : A) → Relates R (f x))
    → Relates R (a >>= f)
unfolding Reads Relates
>>=-Relates {A} R a f r p q m = by_result (a m) (p m)
  where
    by_result : (s : Result A × Machine) → s.1 ≡ m → R m (((λ (l : Machine). s) >>= f) m).1
    by_result (Result.ok x, l) e = subst (λ z. R m (f x z).1) (sym e) (q x m)
    by_result (Result.thrown x, l) e = subst (λ z. R m z) (sym e) (r m)
    by_result (Result.terminated, l) e = subst (λ z. R m z) (sym e) (r m)
    by_result (Result.undefined, l) e = subst (λ z. R m z) (sym e) (r m)

pub >>=-Reads :
    {A B : Type 0} (a : Action A) (f : A → Action B)
    → Reads a
    → ((x : A) → Reads (f x))
    → Reads (a >>= f)
unfolding Reads Relates
>>=-Reads a f p q = >>=-Relates (λ m k. k ≡ m) a f (λ m. refl) p q

pub require-Reads : (b : Bool) → Reads (require b)
unfolding Reads
require-Reads true m = refl
require-Reads false m = refl

pub defined-Reads : {A : Type 0} (o : Option A) → Reads (defined o)
unfolding Reads
defined-Reads none m = refl
defined-Reads (some a) m = refl

pub or_throw-Reads : {A : Type 0} (o : Option A) (e : Error) → Reads (or_throw o e)
unfolding Reads
or_throw-Reads none e m = refl
or_throw-Reads (some a) e m = refl

module _ (env : Env) (ol : RegularFn) (off : ℕ) where
  -- The bytes of a register
  abbrev pub Register : InsRegType → ℕ → ℕ → Machine → Machine → Type 0
  Register bank size reg m k = Within (reg_addr off bank size reg m) size m k

  pub write_scalar-Register :
      (t : ScalarType) (reg v : ℕ)
      → Relates (Register (scalar_bank t) (scalar_size t) reg) (write_scalar env ol off t reg v)
  unfolding write_scalar write_bank Relates
  write_scalar-Register t reg v m = (
    store-other (scalar_size t) (reg_addr off (scalar_bank t) (scalar_size t) reg m) v m.memory,
    refl,
  )

  pub check-Reads : (reg : ℕ) (bank : InsRegType) → Reads (check_reg_index env ol off reg bank)
  check-Reads reg bank = require-Reads (ltb reg (ol.num_registers bank))

  pub read_scalar-Reads : (t : ScalarType) (reg : ℕ) → Reads (read_scalar env ol off t reg)
  unfolding read_scalar read_bank Reads
  read_scalar-Reads t reg m = refl

  pub pure-Reads : {A : Type 0} (x : A) → Reads (pure x)
  unfolding Reads
  pure-Reads x m = refl

  pub ruleset reads_rules =
      (>>=-Reads, check-Reads, read_scalar-Reads, pure-Reads, defined-Reads, or_throw-Reads)

  pub read_object-Reads : (reg : ℕ) → Reads (read_object env ol off reg)
  unfolding read_object read_bank Reads
  read_object-Reads reg m = refl

  pub read_value-Reads : (reg : ℕ) → Reads (read_value env ol off reg)
  unfolding read_value Reads
  read_value-Reads reg m = refl

  pub gets-Reads : {A : Type 0} (f : Machine → A) → Reads (gets f)
  unfolding Reads
  gets-Reads f m = refl

  pub Within-refl : (a n : ℕ) (m : Machine) → Within a n m m
  Within-refl a n m = (λ b h. refl, refl)

  pub throw-Relates :
      (A : Type 0) (R : Machine → Machine → Type 0) (e : Error)
      → ((m : Machine) → R m m)
      → Relates R (throw {A = A} e)
  unfolding Relates
  throw-Relates A R e r m = r m

  pub ruleset write_rules = (
    >>=-Relates, reads_rules, read_object-Reads, read_value-Reads, gets-Reads, Within-refl,
    throw-Relates, write_scalar-Register,
  )
