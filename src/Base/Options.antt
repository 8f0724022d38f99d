-- ===== src/Base/Options.antt =====
-- Chains of operations that may not return.
use mathlib.Core.Option.{Option, none, some, some-injective, none-ne-some}
use mathlib.Core.Path.{◌≡◌}
use mathlib.Core.Logic.{◌≢◌}

infixl 20 ◌>>=◌
abbrev pub ◌>>=◌ {ℓ κ} : {A : Type ℓ} {B : Type κ} → Option A → (A → Option B) → Option B
none >>= f = none
some a >>= f = f a

pub some_of {ℓ} : {A : Type ℓ} {x y : A} → some x ≡ some y → x ≡ y
some_of {x} {y} e = some-injective x y e

pub not_none {ℓ} : {A : Type ℓ} {x : A} → none ≢ some x
not_none {x} e = none-ne-some x e
