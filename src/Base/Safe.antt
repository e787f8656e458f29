-- ===== src/Base/Safe.antt =====
-- Code that stays within its arrays: what it returns has a property, or an assertion stops it.
use mathlib.Core.Bool.{Bool, true, false}
use so_ii.Base.Tests.{if◌then◌else◌}
use mathlib.Core.List.{List, [], ◌∷◌}
use mathlib.Core.Path.{◌≡◌, refl}
use Prim.Native.Nat.{ℕ, zero, suc, ◌<◌}
use native.Mathlib.Omega.{arith}
use so_ii.Base.Lists.{length}
use so_ii.Base.Faults.{Run, ok, fault, assertion, out_of_bounds, undefined, ◌>>=◌, assert, read_at}

abbrev pub Safe {ℓ κ} : {A : Type ℓ} → (A → Type κ) → Run A → Type κ
Safe P (ok a) = P a
Safe P (fault assertion) = Unit
Safe P (fault undefined) = Unit
Safe P (fault out_of_bounds) = (⊥) × Unit

pub bind-Safe {ℓ κ} :
    {A B : Type ℓ} (P : A → Type κ) (Q : B → Type κ) (r : Run A) (f : A → Run B)
    → Safe P r
    → ((a : A) → P a → Safe Q (f a))
    → Safe Q (r >>= f)
bind-Safe P Q (ok a) f h k = k a h
bind-Safe P Q (fault assertion) f h k = tt
bind-Safe P Q (fault undefined) f h k = tt
bind-Safe P Q (fault out_of_bounds) f h k = absurd h.0

pub read_at-Safe {ℓ κ} :
    {A B : Type ℓ} (Q : B → Type κ) (xs : List A) (i : ℕ) (f : A → Run B)
    → i < length xs
    → ((a : A) → read_at xs i ≡ ok a → Safe Q (f a))
    → Safe Q (read_at xs i >>= f)
read_at-Safe Q [] i f h k = absurd (omega arith)
read_at-Safe Q (x ∷ xs) zero f h k = k x refl
read_at-Safe Q (x ∷ xs) (suc i) f h k = read_at-Safe Q xs i f (omega arith) k

pub assert-Safe {ℓ κ} :
    {B : Type ℓ} (Q : B → Type κ) (b : Bool) (r : Run B)
    → (b ≡ true → Safe Q r)
    → Safe Q (assert b >>= λ _. r)
assert-Safe Q true r k = k refl
assert-Safe Q false r k = tt

pub if-Safe {ℓ κ} :
    {B : Type ℓ} (Q : B → Type κ) (b : Bool) (r s : Run B)
    → Safe Q r
    → Safe Q s
    → Safe Q (if b then r else s)
if-Safe Q true r s h k = h
if-Safe Q false r s h k = k

-- Code that returns, with a value that has a property.
abbrev pub Returns {ℓ} : {A : Type ℓ} → (A → Type 0) → Run A → Type 0
Returns P (ok a) = P a
Returns P (fault e) = ⊥

pub bind-Returns {ℓ} :
    {A B : Type ℓ} (P : A → Type 0) (Q : B → Type 0) (r : Run A) (f : A → Run B)
    → Returns P r
    → ((a : A) → P a → Returns Q (f a))
    → Returns Q (r >>= f)
bind-Returns P Q (ok a) f h k = k a h
bind-Returns P Q (fault e) f h k = absurd h
