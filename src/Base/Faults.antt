-- ===== src/Base/Faults.antt =====
-- How C++ code ends: with a value, in a failed `ASSERT` (lib/assert.cc aborts the process), or in
-- an access outside of an array, which C++ leaves undefined.
use Prim.Native.Nat.{ℕ, zero, suc, ◌<◌}
use mathlib.Core.Bool.{Bool, true, false}
use mathlib.Core.List.{List, [], ◌∷◌}
use mathlib.Core.Path.{◌≡◌, refl}
use native.Mathlib.Omega.{arith}
use so_ii.Base.Lists.{length, get_or, set}

pub data Fault : Type 0 where
  assertion out_of_bounds undefined : Fault

pub data Run {ℓ} (A : Type ℓ) : Type ℓ where
  ok : A → Run A
  fault : Fault → Run A

infixl 5 ◌>>=◌ ◌>>◌
abbrev pub ◌>>=◌ {ℓ κ} : {A : Type ℓ} {B : Type κ} → Run A → (A → Run B) → Run B
ok a >>= f = f a
fault e >>= f = fault e

abbrev pub ◌>>◌ {ℓ} : {B : Type ℓ} → Run (Unit {0}) → Run B → Run B
m >> k = m >>= λ _. k

-- lib/assert.cc: `Assert` returns if the condition holds, and aborts if not.
abbrev pub assert : Bool → Run (Unit {0})
assert true = ok tt
assert false = fault assertion

module _ {ℓ} {A : Type ℓ} where
  abbrev pub read_at : List A → ℕ → Run A
  read_at [] i = fault out_of_bounds
  read_at (x ∷ xs) zero = ok x
  read_at (x ∷ xs) (suc i) = read_at xs i

  abbrev pub cons_run : A → Run (List A) → Run (List A)
  cons_run x (ok xs) = ok (x ∷ xs)
  cons_run x (fault e) = fault e

  abbrev pub write_at : List A → ℕ → A → Run (List A)
  write_at [] i v = fault out_of_bounds
  write_at (x ∷ xs) zero v = ok (v ∷ xs)
  write_at (x ∷ xs) (suc i) v = cons_run x (write_at xs i v)

module _ {ℓ} {A : Type ℓ} where
  pub read_at-get_or :
      (xs : List A) (i : ℕ) (d : A) → i < length xs → read_at xs i ≡ ok (get_or xs i d)
  read_at-get_or [] i d h = absurd (omega arith)
  read_at-get_or (x ∷ xs) zero d h = refl
  read_at-get_or (x ∷ xs) (suc i) d h = read_at-get_or xs i d (omega arith)

  pub write_at-set :
      (xs : List A) (i : ℕ) (v : A) → i < length xs → write_at xs i v ≡ ok (set xs i v)
  write_at-set [] i v h = absurd (omega arith)
  write_at-set (x ∷ xs) zero v h = refl
  write_at-set (x ∷ xs) (suc i) v h = ground (arith, write_at-set xs i v)
