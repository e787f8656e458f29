-- ===== src/Bitmap/Takes.antt =====
-- What it is to take sectors from a bitmap: what `Allocate` does, and what `Check` checks for.
use so_ii.Base.{
  ℕ, ◌+◌, ◌≤◌, ◌<◌, ◌≡◌, refl, ◌∙◌, false, List, [], ◌∷◌, ◌++◌, to_nat, length, length-append,
  count, count-append, All, All-append, All-append_right, arith,
}
use mathlib.Core.Path.{subst}
use so_ii.Bitmap.{Bitmap}
use so_ii.Bitmap.View.{IsValid, is_set, marked, marked-IsValid, is_set-marked}
use so_ii.Bitmap.Find.{free_bits, clears-marked, FindsAt}

-- From the free map `bm` the sectors `taken` are taken, which leaves `bm'`: they lie on the disk,
-- and each sector that is marked in `bm'` was marked before or is taken once, and not both.
pub record Takes (bm : Bitmap) (taken : List ℕ) (bm' : Bitmap) : Type 0 where
  pub valid : IsValid bm'
  pub width : bm'.num_bits ≡ bm.num_bits
  pub in_range : All (λ s. s < bm.num_bits) taken
  pub exact : (s : ℕ) → count s taken + to_nat (is_set bm s) ≡ to_nat (is_set bm' s)
  pub fewer : free_bits bm' + length taken ≡ free_bits bm

-- A free sector, and those taken once it is marked.
pub mark-Takes :
    {bm bm' : Bitmap} {taken : List ℕ} {k : ℕ}
    → IsValid bm
    → k < bm.num_bits
    → is_set bm k ≡ false
    → Takes (marked bm k) taken bm'
    → Takes bm (k ∷ taken) bm'
mark-Takes {bm} {bm'} {taken} {k} v lt unused t = record {
  valid = t.valid;
  width = t.width;
  in_range = (lt, t.in_range);
  exact = λ s. ground (arith, t.exact s, is_set-marked bm k v lt s, unused);
  fewer = omega (
    arith,
    t.fewer,
    clears-marked bm k v lt bm.num_bits 0 (omega arith) (omega (arith, lt)) unused,
  );
}

-- Conversely, the first of the sectors that are taken is free, and may be marked first.
pub head-Takes :
    {bm bm' : Bitmap} {taken : List ℕ} {k : ℕ}
    → IsValid bm
    → Takes bm (k ∷ taken) bm'
    → (is_set bm k ≡ false) × Takes (marked bm k) taken bm'
head-Takes {bm} {bm'} {taken} {k} v t =
    let unused : is_set bm k ≡ false = ground (arith, t.exact k) in
    (
      unused,
      record {
        valid = t.valid;
        width = t.width;
        in_range = t.in_range.1;
        exact = λ s. ground (arith, t.exact s, is_set-marked bm k v t.in_range.0 s, unused);
        fewer = omega (
          arith,
          t.fewer,
          clears-marked bm k v t.in_range.0 bm.num_bits 0 (omega arith)
              (omega (arith, t.in_range.0)) unused,
        );
      },
    )

pub cons-Takes :
    {bm bm' : Bitmap} {taken : List ℕ} {k : ℕ}
    → IsValid bm
    → FindsAt bm k
    → Takes (marked bm k) taken bm'
    → Takes bm (k ∷ taken) bm'
cons-Takes v f t = mark-Takes v f.in_range f.was_clear t

pub nil-Takes : {bm : Bitmap} → IsValid bm → Takes bm [] bm
nil-Takes v = record {
  valid = v;
  width = refl;
  in_range = tt;
  exact = λ s. omega arith;
  fewer = omega arith;
}

module _ {a b c : Bitmap} (xs ys : List ℕ) where
  pub append-Takes : Takes a xs b → Takes b ys c → Takes a (xs ++ ys) c
  append-Takes t u = record {
    valid = u.valid;
    width = u.width ∙ t.width;
    in_range =
        All-append (λ s. s < a.num_bits) xs ys t.in_range
          (subst (λ n. All (λ s. s < n) ys) t.width u.in_range);
    exact = λ s. omega (arith, t.exact s, u.exact s, count-append s xs ys);
    fewer = omega (arith, t.fewer, u.fewer, length-append xs ys);
  }

  -- Taking the first part first, the rest remains to be taken.
  pub cancel-Takes : Takes a xs b → Takes a (xs ++ ys) c → Takes b ys c
  cancel-Takes t u = record {
    valid = u.valid;
    width = omega (arith, u.width, t.width);
    in_range =
        subst (λ n. All (λ s. s < n) ys) (omega (arith, t.width))
          (All-append_right (λ s. s < a.num_bits) xs ys u.in_range);
    exact = λ s. omega (arith, t.exact s, u.exact s, count-append s xs ys);
    fewer = omega (arith, t.fewer, u.fewer, length-append xs ys);
  }

-- A part of what can be taken can be taken.
pub prefix-Takes :
    (xs ys : List ℕ) {a c : Bitmap} → IsValid a → Takes a (xs ++ ys) c → (b : Bitmap) × Takes a xs b
prefix-Takes [] ys {a} v t = (a, nil-Takes v)
prefix-Takes (x ∷ xs) ys {a} v t =
    let (unused, u) = head-Takes v t in
    let (b, w) = prefix-Takes xs ys (marked-IsValid a x v) u in
    (b, mark-Takes v t.in_range.0 unused w)

-- Sectors of the disk that are free and all different can be taken.
pub build-Takes :
    (l : List ℕ) {a : Bitmap}
    → IsValid a
    → All (λ s. s < a.num_bits) l
    → ((s : ℕ) → s < a.num_bits → count s l + to_nat (is_set a s) ≤ 1)
    → (b : Bitmap) × Takes a l b
build-Takes [] {a} v h f = (a, nil-Takes v)
build-Takes (x ∷ l) {a} v h f =
    let unused : is_set a x ≡ false = ground (arith, f x h.0) in
    let (b, t) =
      build-Takes l (marked-IsValid a x v) h.1
        (λ s p. ground (arith, f s p, is_set-marked a x v h.0 s)) in
    (b, mark-Takes v h.0 unused t)
