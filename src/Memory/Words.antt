-- ===== src/Memory/Words.antt =====
-- Words in memory, the lowest byte first, as the processor stores and loads them.
use alphix.Base.{
  ℕ, zero, suc, ◌+◌, ◌*◌, ◌/◌, ◌%◌, ◌≤◌, ◌<◌, ◌≡◌, refl, ◌∙◌, ◌⊎◌, inl, arith, ==_self, ==_ne,
}
use alphix.Memory.{Bytes, poke}
use alphix.Printf.Digits.{power}

-- The `n` bytes of `v` from `a` on.
pub store : ℕ → Bytes → ℕ → ℕ → Bytes
store zero m a v = m
store (suc n) m a v = store n (poke m a (v % 256)) (a + 1) (v / 256)

unfoldable pub load : ℕ → Bytes → ℕ → ℕ
load zero m a = 0
load (suc n) m a = m a + 256 * load n m (a + 1)

pub store-frame : (n : ℕ) (m : Bytes) (a v x : ℕ) → (x < a) ⊎ (a + n ≤ x) → store n m a v x ≡ m x
unfolding store
store-frame zero m a v x out = refl
store-frame (suc n) m a v x out =
    store-frame n (poke m a (v % 256)) (a + 1) (v / 256) x (omega arith)
    ∙ rw (==_ne x a (omega arith)) refl

pub load-same :
    (n : ℕ) (m m' : Bytes) (a : ℕ)
    → ((x : ℕ) → a ≤ x → x < a + n → m' x ≡ m x)
    → load n m' a ≡ load n m a
unfolding load
load-same zero m m' a same = refl
load-same (suc n) m m' a same =
    rw
      (
        same a (omega arith) (omega arith),
        load-same n m m' (a + 1) (λ x lo hi. same x (omega arith) (omega arith)),
      )
      refl

-- A word that fits is read back.
pub load-store : (n : ℕ) (m : Bytes) (a v : ℕ) → v < power 256 n → load n (store n m a v) a ≡ v
unfolding load store
load-store zero m a v fits = omega arith
load-store (suc n) m a v fits =
    let m1 : Bytes = poke m a (v % 256) in
    let first : store n m1 (a + 1) (v / 256) a ≡ v % 256 =
      store-frame n m1 (a + 1) (v / 256) a (inl (omega arith)) ∙ rw (==_self a) refl in
    rw (first, load-store n m1 (a + 1) (v / 256) (omega arith)) (omega arith)
