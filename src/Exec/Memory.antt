-- ===== src/Exec/Memory.antt =====
-- The bytes of a data stack, by address, with loads and stores of little-endian numbers.
use native.Mathlib.Nat.{pow-suc}
use slake.Prelude.{
  ℕ, zero, suc, ◌+◌, ◌*◌, ◌/◌, ◌%◌, ◌^◌, ◌≤◌, ◌<◌, ◌≡◌, ◌⊎◌, refl, inl, inr, arith, ◌==◌,
  if◌then◌else◌,
}

abbrev pub Memory : Type 0
Memory = ℕ → ℕ

abbrev pub set_byte : ℕ → ℕ → Memory → Memory
set_byte a v m b = if b == a then v else m b

-- The number in the `n` bytes from `a` on.
unfoldable pub load : ℕ → ℕ → Memory → ℕ
load zero a m = 0
load (suc n) a m = m a + 256 * load n (suc a) m

unfoldable pub store : ℕ → ℕ → ℕ → Memory → Memory
store zero a v m = m
store (suc n) a v m = store n (suc a) (v / 256) (set_byte a (v % 256) m)

-- A store changes no byte outside of its own.
pub store-other : (n a v : ℕ) (m : Memory) (b : ℕ) → (b < a) ⊎ (a + n ≤ b) → store n a v m b ≡ m b
unfolding store
store-other zero a v m b h = refl
store-other (suc n) a v m b (inl h) =
    ground (
      arith,
      h,
      store-other n (suc a) (v / 256) (set_byte a (v % 256) m) b (inl (omega (arith, h))),
    )
store-other (suc n) a v m b (inr h) =
    ground (
      arith,
      h,
      store-other n (suc a) (v / 256) (set_byte a (v % 256) m) b (inr (omega (arith, h))),
    )

-- What is stored is loaded back.
pub load-store : (n a v : ℕ) (m : Memory) → v < 256 ^ n → load n a (store n a v m) ≡ v
unfolding load store
load-store zero a v m h = omega (arith, h)
load-store (suc n) a v m h =
    let first = store-other n (suc a) (v / 256) (set_byte a (v % 256) m) a (inl (omega arith)) in
    let rest =
      load-store n (suc a) (v / 256) (set_byte a (v % 256) m) (omega (arith, h, pow-suc 256 n)) in
    ground (arith, first, rest)

-- A load reads the same from two memories that agree on its bytes.
pub load-same :
    (n a : ℕ) (m k : Memory) → ((b : ℕ) → a ≤ b → b < a + n → m b ≡ k b) → load n a m ≡ load n a k
unfolding load
load-same zero a m k h = refl
load-same (suc n) a m k h =
    let first = h a (omega arith) (omega arith) in
    let rest = load-same n (suc a) m k (λ b p q. h b (omega (arith, p)) (omega (arith, q))) in
    omega (arith, first, rest)

-- A store leaves the number in bytes that it does not touch.
pub load-store_other :
    (n a k b v : ℕ) (m : Memory) → (a + n ≤ b) ⊎ (b + k ≤ a) → load n a (store k b v m) ≡ load n a m
load-store_other n a k b v m (inl h) =
    load-same n a _ m (λ c p q. store-other k b v m c (inl (omega (arith, h, q))))
load-store_other n a k b v m (inr h) =
    load-same n a _ m (λ c p q. store-other k b v m c (inr (omega (arith, h, p))))

-- Where the memory holds bytes, a number of `n` bytes is below 256 ^ n.
pub load-lt : (n a : ℕ) (m : Memory) → ((b : ℕ) → m b < 256) → load n a m < 256 ^ n
unfolding load
load-lt zero a m h = omega arith
load-lt (suc n) a m h = omega (arith, h a, load-lt n (suc a) m h, pow-suc 256 n)
