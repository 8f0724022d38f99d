-- ===== src/Heap/Chain.antt =====
-- The doubly linked chain of headers in memory, read as a list of cells that lie side by side.
use alphix.Base.{
  ℕ, ◌+◌, ◌*◌, ◌%◌, ◌≤◌, ◌<◌, ◌≡◌, refl, Bool, true, false, List, [], ◌∷◌, ◌++◌, arith, ◌∙◌, length,
}
use alphix.Heap.{HeapBlock, heap_magic, header_size, null}
use native.Mathlib.Nat.{add-zero, add_assoc}

-- The size of a block, and whether it is in use.
abbrev pub Cell : Type 0
Cell = ℕ × Bool

abbrev pub flag : Bool → ℕ
flag true = 1
flag false = 0

abbrev pub header : ℕ → Bool → ℕ → ℕ → HeapBlock
header s u prv nxt = record { magic = heap_magic; size = s; used = flag u; next = nxt; prev = prv }

-- The address of the first of the cells that begin at `a`, or `nxt` where there is none.
abbrev pub head_or : ℕ → List Cell → ℕ → ℕ
head_or a [] nxt = nxt
head_or a (c ∷ cs) nxt = a

-- The address of the last of the cells that begin at `a`, or `prv` where there is none.
abbrev pub last_or : ℕ → ℕ → List Cell → ℕ
last_or prv a [] = prv
last_or prv a ((s, u) ∷ cs) = last_or a (a + s) cs

abbrev pub total : List Cell → ℕ
total [] = 0
total ((s, u) ∷ cs) = s + total cs

-- From `a` on memory holds the headers of the cells, each linked to its neighbours; the first is
-- linked back to `prv`, and the last on to `nxt`.
abbrev pub Chain : (ℕ → HeapBlock) → ℕ → ℕ → List Cell → ℕ → Type 0
Chain m prv a [] nxt = Unit {0}
Chain m prv a ((s, u) ∷ cs) nxt =
    (m a ≡ header s u prv (head_or (a + s) cs nxt)) × Chain m a (a + s) cs nxt

-- Every cell has room for its header, and is a multiple of eight bytes.
abbrev pub Sized : List Cell → Type 0
Sized [] = Unit {0}
Sized ((s, u) ∷ cs) = (header_size ≤ s) × (s % 8 ≡ 0) × Sized cs

pub length-le-total : (cs : List Cell) → Sized cs → length cs * 32 ≤ total cs
length-le-total [] z = omega arith
length-le-total ((s, u) ∷ cs) z = omega (arith, length-le-total cs z.2)

pub total-append : (xs ys : List Cell) → total (xs ++ ys) ≡ total xs + total ys
total-append [] ys = omega arith
total-append ((s, u) ∷ xs) ys = omega (arith, total-append xs ys)

pub total-mod : (cs : List Cell) → Sized cs → total cs % 8 ≡ 0
total-mod [] z = refl
total-mod ((s, u) ∷ cs) z = omega (arith, total-mod cs z.2)

pub Sized-append : (xs ys : List Cell) → Sized xs → Sized ys → Sized (xs ++ ys)
Sized-append [] ys z w = w
Sized-append ((s, u) ∷ xs) ys z w = (z.0, z.1, Sized-append xs ys z.2 w)

pub Sized-left : (xs ys : List Cell) → Sized (xs ++ ys) → Sized xs
Sized-left [] ys z = tt
Sized-left ((s, u) ∷ xs) ys z = (z.0, z.1, Sized-left xs ys z.2)

pub Sized-right : (xs ys : List Cell) → Sized (xs ++ ys) → Sized ys
Sized-right [] ys z = z
Sized-right ((s, u) ∷ xs) ys z = Sized-right xs ys z.2

-- A chain does not see what changes outside its own addresses.
pub Chain-frame :
    (m m' : ℕ → HeapBlock) (prv a : ℕ) (cs : List Cell) (nxt : ℕ)
    → Sized cs
    → ((b : ℕ) → a ≤ b → b < a + total cs → m' b ≡ m b)
    → Chain m prv a cs nxt
    → Chain m' prv a cs nxt
Chain-frame m m' prv a [] nxt z same c = tt
Chain-frame m m' prv a ((s, u) ∷ cs) nxt z same c = (
  same a (omega arith) (omega arith) ∙ c.0,
  Chain-frame m m' a (a + s) cs nxt z.2 (λ b lo hi. same b (omega arith) (omega arith)) c.1,
)

head_or-append :
    (a : ℕ) (xs ys : List Cell) (nxt : ℕ)
    → head_or a (xs ++ ys) nxt ≡ head_or a xs (head_or (a + total xs) ys nxt)
head_or-append a [] ys nxt = rw add-zero refl
head_or-append a (c ∷ xs) ys nxt = refl

module _ (m : ℕ → HeapBlock) where
  pub Chain-left :
      (prv a : ℕ) (xs ys : List Cell) (nxt : ℕ)
      → Chain m prv a (xs ++ ys) nxt
      → Chain m prv a xs (head_or (a + total xs) ys nxt)
  Chain-left prv a [] ys nxt c = tt
  Chain-left prv a ((s, u) ∷ xs) ys nxt c = (
    rw (head_or-append (a + s) xs ys nxt, add_assoc) at c.0,
    rw (← add_assoc) (Chain-left a (a + s) xs ys nxt c.1),
  )

  pub Chain-right :
      (prv a : ℕ) (xs ys : List Cell) (nxt : ℕ)
      → Chain m prv a (xs ++ ys) nxt
      → Chain m (last_or prv a xs) (a + total xs) ys nxt
  Chain-right prv a [] ys nxt c = rw add-zero c
  Chain-right prv a ((s, u) ∷ xs) ys nxt c = rw (← add_assoc) (Chain-right a (a + s) xs ys nxt c.1)

  pub Chain-append :
      (prv a : ℕ) (xs ys : List Cell) (nxt : ℕ)
      → Chain m prv a xs (head_or (a + total xs) ys nxt)
      → Chain m (last_or prv a xs) (a + total xs) ys nxt
      → Chain m prv a (xs ++ ys) nxt
  Chain-append prv a [] ys nxt c d = rw add-zero at d
  Chain-append prv a ((s, u) ∷ xs) ys nxt c d = (
    rw (head_or-append (a + s) xs ys nxt, add_assoc) c.0,
    Chain-append a (a + s) xs ys nxt (rw (← add_assoc) at c.1) (rw (← add_assoc) at d),
  )

-- The cells behind `xs` may be rewritten, as long as one of them still begins there.
pub Chain-rewrite :
    (m m' : ℕ → HeapBlock) (prv a : ℕ) (xs : List Cell) (x y : Cell) (ys zs : List Cell)
    → Sized xs
    → ((b : ℕ) → b < a + total xs → m' b ≡ m b)
    → Chain m prv a (xs ++ x ∷ ys) null
    → Chain m' (last_or prv a xs) (a + total xs) (y ∷ zs) null
    → Chain m' prv a (xs ++ y ∷ zs) null
Chain-rewrite m m' prv a xs x y ys zs z same c d =
    Chain-append m' prv a xs (y ∷ zs) null
      (Chain-frame m m' prv a xs (a + total xs) z (λ b lo hi. same b hi)
        (Chain-left m prv a xs (x ∷ ys) null c))
      d
