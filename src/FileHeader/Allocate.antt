-- ===== src/FileHeader/Allocate.antt =====
-- `Allocate` takes sectors that were free, all different, and marks just these.
use mathlib.Core.List.{append-nil, append_assoc}
use native.Mathlib.Nat.{add-zero, zero-add}
use mathlib.Core.Path.{subst}
use so_ii.Base.{
  ℕ, zero, suc, ◌+◌, ◌≤◌, ◌<◌, ◌≡◌, refl, sym, ◌∙◌, ap, inl, inr, true, false, List, [], ◌∷◌, ◌++◌,
  ltb, le→ltb, lt→ltb, Bool-cases, ◌⊎◌, length, set, take, length-set, take-set_self, ok,
  write_at-set, arith,
}
use so_ii.Bitmap.{Bitmap, div_round_up}
use so_ii.Bitmap.View.{IsValid, marked, marked-IsValid}
use so_ii.Bitmap.Find.{free_bits, count_clear-free_bits, find_lem}
use so_ii.Bitmap.Takes.{Takes, nil-Takes, cons-Takes}
use so_ii.FileHeader.{FileHeader, sector_size, num_direct, max_file_size, allocate_from, allocate}

abbrev pub sectors_of : FileHeader → List ℕ
sectors_of h = take h.num_sectors h.data_sectors

allocate_from_lem :
    (rounds i : ℕ) (h : FileHeader) (bm : Bitmap)
    → IsValid bm
    → rounds ≤ free_bits bm
    → i + rounds ≤ length h.data_sectors
    → (sectors taken : List ℕ) × (bm' : Bitmap) × (allocate_from rounds i h bm
        ≡ ok (record h { data_sectors = sectors }, bm'))
      × (length sectors ≡ length h.data_sectors)
      × (take (i + rounds) sectors ≡ take i h.data_sectors ++ taken)
      × (length taken ≡ rounds)
      × Takes bm taken bm'
unfolding allocate_from
allocate_from_lem zero i h bm v enough fits =
    (h.data_sectors, [], bm, refl, refl, rw (append-nil, add-zero), refl, nil-Takes v)
allocate_from_lem (suc rounds) i h bm v enough fits = elim (find_lem bm v) [
  | inl (full, _) ↦ absurd (omega arith)
  | inr (k, f) ↦
      let h' = record h { data_sectors = set h.data_sectors i k } in
      let (sectors, taken, bm', run, len, prefix, n, t) =
        allocate_from_lem rounds (i + 1) h' (marked bm k) (marked-IsValid bm k v)
          (omega (arith, f.fewer)) (rw (length-set h.data_sectors i k) (omega arith)) in
      (
        sectors,
        k ∷ taken,
        bm',
        rw (f.returns, write_at-set h.data_sectors i k (omega arith)) run,
        len ∙ length-set h.data_sectors i k,
        ap (λ (n : ℕ). take n sectors) (let e : i + suc rounds ≡ i + 1 + rounds = omega arith in e)
            ∙ prefix
            ∙ ap (λ (n : ℕ). take n (set h.data_sectors i k) ++ taken)
                (let e : i + 1 ≡ suc i = omega arith in e)
            ∙ ap (λ (xs : List ℕ). xs ++ taken) (take-set_self h.data_sectors i k (omega arith))
            ∙ append_assoc (take i h.data_sectors) (k ∷ []) taken,
        ap suc n,
        cons-Takes v f t,
      )
]

-- A header in memory has an array of `NUM_DIRECT` sectors.
abbrev pub IsShaped : FileHeader → Type 0
IsShaped h = length h.data_sectors ≡ num_direct

-- What a successful `Allocate` leaves: a header with the size and the sectors for it, which were
-- free, are all different, and are all that is marked anew.
pub record Allocates (bm : Bitmap) (size : ℕ) (h' : FileHeader) (bm' : Bitmap) : Type 0 where
  pub bytes : h'.num_bytes ≡ size
  pub sectors : h'.num_sectors ≡ div_round_up size sector_size
  pub shaped : IsShaped h'
  pub takes : Takes bm (sectors_of h') bm'

-- With a header's array of `NUM_DIRECT` sectors, a size of at most the largest file's, and enough
-- clear bits in the free map, `Allocate` returns true: the header has the size and the sectors for
-- it, which were free, are all different, and are all that is marked anew.
pub allocate-Allocates :
    (h : FileHeader) (bm : Bitmap) (size : ℕ)
    → IsShaped h
    → IsValid bm
    → size ≤ max_file_size
    → div_round_up size sector_size ≤ free_bits bm
    → (h' : FileHeader) × (bm' : Bitmap) × (allocate h bm size ≡ ok (true, h', bm'))
      × Allocates bm size h' bm'
unfolding allocate
allocate-Allocates h bm size shaped v fits enough =
    let n = div_round_up size sector_size in
    let h₁ = record h { num_bytes = size; num_sectors = n } in
    let (sectors, taken, bm', run, len, prefix, _, t) =
      allocate_from_lem n 0 h₁ bm v enough (ground arith) in
    (
      record h₁ { data_sectors = sectors },
      bm',
      rw (
        le→ltb max_file_size size fits,
        count_clear-free_bits bm v,
        le→ltb (free_bits bm) n enough,
        run,
      ),
      record {
        bytes = refl;
        sectors = refl;
        shaped = len ∙ shaped;
        takes =
            subst (λ xs. Takes bm xs bm')
              (sym (ap (λ (m : ℕ). take m sectors) (sym (zero-add n)) ∙ prefix)) t;
      },
    )

-- Too large a file, or too few free sectors: `Allocate` returns false and leaves the free map.
pub allocate_refuses :
    (h : FileHeader) (bm : Bitmap) (size : ℕ)
    → IsValid bm
    → (max_file_size < size) ⊎ (free_bits bm < div_round_up size sector_size)
    → (h' : FileHeader) × (allocate h bm size ≡ ok (false, h', bm))
unfolding allocate
allocate_refuses h bm size v (inl large) = (h, rw (lt→ltb max_file_size size large))
allocate_refuses h bm size v (inr few) = elim (Bool-cases (ltb max_file_size size)) [
  | inl e ↦ (h, rw e)
  | inr e ↦ (
    record h { num_bytes = size; num_sectors = div_round_up size sector_size },
    rw (e, count_clear-free_bits bm v, lt→ltb (free_bits bm) _ few),
  )
]
