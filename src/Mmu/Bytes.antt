-- ===== src/Mmu/Bytes.antt =====
-- Numbers in memory: what is written byte by byte is read again.
use so_ii.Base.{
  ℕ, zero, suc, ◌+◌, ◌/◌, ◌%◌, ◌^◌, ◌≤◌, ◌<◌, ◌≡◌, refl, ap, sym, ◌∙◌, List, [], ◌∷◌, length,
  length-set, set, get_or, ok, read_at, read_at-get_or, write_at-set, arith,
}
use native.Mathlib.Nat.{mod-one, pow-succ', one-le-pow}
use so_ii.Base.Digits.{mod-mul_lem}
use so_ii.Mmu.{read_bytes, write_bytes}

get_or-set_same : (xs : List ℕ) (i v d : ℕ) → i < length xs → get_or (set xs i v) i d ≡ v
get_or-set_same [] i v d h = absurd (omega arith)
get_or-set_same (x ∷ xs) zero v d h = refl
get_or-set_same (x ∷ xs) (suc i) v d h = get_or-set_same xs i v d (omega arith)

get_or-set_below : (xs : List ℕ) (i j v d : ℕ) → j < i → get_or (set xs i v) j d ≡ get_or xs j d
get_or-set_below [] i j v d h = refl
get_or-set_below (x ∷ xs) zero j v d h = absurd (omega arith)
get_or-set_below (x ∷ xs) (suc i) zero v d h = refl
get_or-set_below (x ∷ xs) (suc i) (suc j) v d h = get_or-set_below xs i j v d (omega arith)

-- `n` bytes written from an address on, all of them in the memory, are read again as the number
-- modulo 256 ^ n; the memory keeps its length and the bytes below the address.
pub read_bytes-write_bytes :
    (n : ℕ) (memory : List ℕ) (addr value : ℕ)
    → addr + n ≤ length memory
    → (memory' : List ℕ) × (write_bytes n memory addr value ≡ ok memory')
      × (length memory' ≡ length memory)
      × ((j : ℕ) → j < addr → get_or memory' j 0 ≡ get_or memory j 0)
      × (read_bytes n memory' addr ≡ ok (value % 256 ^ n))
unfolding read_bytes write_bytes
read_bytes-write_bytes zero memory addr value h =
    (memory, refl, refl, λ j p. refl, rw (mod-one value) refl)
read_bytes-write_bytes (suc n) memory addr value h =
    let memory₁ = set memory addr (value % 256) in
    let same₁ = length-set memory addr (value % 256) in
    let (memory', run, same, below, read) =
      read_bytes-write_bytes n memory₁ (addr + 1) (value / 256) (omega (arith, same₁)) in
    (
      memory',
      rw (write_at-set memory addr (value % 256) (omega arith)) run,
      same ∙ same₁,
      λ j p. below j (omega arith) ∙ get_or-set_below memory addr j (value % 256) 0 p,
      let here : read_at memory' addr ≡ ok (value % 256) =
            read_at-get_or memory' addr 0 (omega (arith, same, same₁))
            ∙ ap ok (
                below addr (omega arith)
                ∙ get_or-set_same memory addr (value % 256) 0 (omega arith)) in
          rw (here, read, pow-succ' 256 n)
            (ap ok (
              sym
                (mod-mul_lem 256 value (256 ^ n) (omega arith) (one-le-pow n 256 (omega arith))))),
    )
