-- ===== src/CString.antt =====
-- The functions of C's <string.h> that the sources call, on strings of bytes. A string is the list
-- of the bytes in memory from its address on; past the end of the list stands a null byte, except
-- in `strlen` and `strcmp` of arrays, which fault where the array holds no null byte.
use so_ii.Base.{
  ℕ, zero, suc, ◌+◌, ◌≤◌, ◌≡◌, refl, Bool, true, false, List, [], ◌∷◌, ◌==◌, if◌then◌else◌, length,
  inl, inr, Bool-cases, Run, ok, fault, out_of_bounds, ◌>>=◌, arith,
}

abbrev pub head : List ℕ → ℕ
head [] = 0
head (c ∷ cs) = c

abbrev pub tail : List ℕ → List ℕ
tail [] = []
tail (c ∷ cs) = cs

-- `!strncmp(a, b, n)`
unfoldable pub strn_equal : ℕ → List ℕ → List ℕ → Bool
strn_equal zero a b = true
strn_equal (suc n) a b =
    let rest = strn_equal n (tail a) (tail b) in
    if head a == head b then (if head a == 0 then true else rest) else false

-- The array `to` after `strncpy(to, from, n)`: the bytes of `from`, then null bytes up to `n`.
unfoldable pub strncpy : ℕ → List ℕ → List ℕ → List ℕ
strncpy zero to from = to
strncpy (suc n) [] from = []
strncpy (suc n) (c ∷ to) from = head from ∷ strncpy n to (if head from == 0 then [] else tail from)

-- `strlen(a)`
unfoldable pub strlen : List ℕ → Run ℕ
strlen [] = fault out_of_bounds
strlen (c ∷ cs) = let rest = (do n ← strlen cs; ok (n + 1)) in if c == 0 then ok 0 else rest

-- `strcmp(a, b) == 0`
unfoldable pub str_equal : List ℕ → List ℕ → Run Bool
str_equal [] b = fault out_of_bounds
str_equal (c ∷ cs) [] = fault out_of_bounds
str_equal (c ∷ cs) (d ∷ ds) =
    let rest = str_equal cs ds in if c == d then (if c == 0 then ok true else rest) else ok false

pub strn_equal_refl : (n : ℕ) (a : List ℕ) → strn_equal n a a ≡ true
unfolding strn_equal
strn_equal_refl zero a = refl
strn_equal_refl (suc n) a = ground (arith, strn_equal_refl n (tail a))

pub strn_equal_symm : (n : ℕ) (a b : List ℕ) → strn_equal n a b ≡ strn_equal n b a
unfolding strn_equal
strn_equal_symm zero a b = refl
strn_equal_symm (suc n) a b = ground (arith, strn_equal_symm n (tail a) (tail b))

pub strn_equal_trans :
    (n : ℕ) (a b c : List ℕ)
    → strn_equal n a b ≡ true
    → strn_equal n b c ≡ true
    → strn_equal n a c ≡ true
unfolding strn_equal
strn_equal_trans zero a b c p q = refl
strn_equal_trans (suc n) a b c p q = ground (arith, strn_equal_trans n (tail a) (tail b) (tail c))

-- Strings that agree compare alike.
pub strn_equal_congr :
    (n : ℕ) (a b c : List ℕ) → strn_equal n a b ≡ true → strn_equal n a c ≡ strn_equal n b c
strn_equal_congr n a b c h =
    ground (arith, strn_equal_symm n a b, strn_equal_trans n a b c, strn_equal_trans n b a c)

pub length-strncpy : (n : ℕ) (to from : List ℕ) → length (strncpy n to from) ≡ length to
unfolding strncpy
length-strncpy zero to from = refl
length-strncpy (suc n) [] from = refl
length-strncpy (suc n) (c ∷ to) from =
    omega (arith, length-strncpy n to (if head from == 0 then [] else tail from))

-- A copied string compares like the original.
pub strn_equal-strncpy :
    (n : ℕ) (to from : List ℕ) → n ≤ length to → strn_equal n (strncpy n to from) from ≡ true
unfolding strn_equal strncpy
strn_equal-strncpy zero to from h = refl
strn_equal-strncpy (suc n) [] from h = absurd (omega arith)
strn_equal-strncpy (suc n) (c ∷ to) from h =
    ground (arith, strn_equal-strncpy n to (if head from == 0 then [] else tail from))

-- An array that holds a null byte: the functions on it read no stray memory.
abbrev pub IsTerminated : List ℕ → Type 0
IsTerminated a = (n : ℕ) × (strlen a ≡ ok n)

IsTerminated-tail : (c : ℕ) (a : List ℕ) → (c == 0) ≡ false → IsTerminated (c ∷ a) → IsTerminated a
unfolding strlen
IsTerminated-tail c a h (n, e) = go (strlen a) refl
  where
    go : (r : Run ℕ) → strlen a ≡ r → IsTerminated a
    go (ok m) p = (m, p)
    go (fault f) p = absurd (ground (arith, p, e, h))

pub str_equal_runs :
    (a b : List ℕ) → IsTerminated a → IsTerminated b → (r : Bool) × (str_equal a b ≡ ok r)
unfolding str_equal strlen
str_equal_runs [] b (n, e) t = cc
str_equal_runs (c ∷ a) [] s (n, e) = cc
str_equal_runs (c ∷ a) (d ∷ b) s t = elim (Bool-cases (c == d)) [
  | inr differ ↦ (false, rw differ)
  | inl same ↦ elim (Bool-cases (c == 0)) [
    | inl done ↦ (true, rw (same, done))
    | inr more ↦
        let (r, run) =
          str_equal_runs a b (IsTerminated-tail c a more s)
            (IsTerminated-tail d b (ground arith) t) in
        (r, rw (same, more) run)
  ]
]
