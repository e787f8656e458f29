-- ===== src/FileSystem/Check/Bitmaps.antt =====
-- `CheckBitmaps` compares two bitmaps bit by bit.
use so_ii.Base.{
  ℕ, zero, suc, ◌+◌, ◌≤◌, ◌<◌, ◌≡◌, refl, ap, Bool, false, not, ◌||◌, if◌then◌else◌, ◌==◌,
  Bool-cases, inl, inr, ok, arith,
}
use so_ii.Bitmap.{Bitmap}
use so_ii.Bitmap.View.{is_set, test-is_set}
use so_ii.FileSystem.{num_sectors}
use so_ii.FileSystem.Check.{check_bits, check_bitmaps}
use so_ii.FileSystem.Check.Sectors.{IsShadow}

module _ (a b : Bitmap) (v : IsShadow a) (w : IsShadow b) where
  -- An error is met exactly if a bit of the range differs.
  check_bits_lem :
      (rounds i : ℕ) (error : Bool)
      → i + rounds ≤ num_sectors
      → (e : Bool) × (check_bits rounds i error a b ≡ ok (error || e))
        × (e ≡ false → (x : ℕ) → i ≤ x → x < i + rounds → is_set a x ≡ is_set b x)
        × (((x : ℕ) → i ≤ x → x < i + rounds → is_set a x ≡ is_set b x) → e ≡ false)
  unfolding check_bits
  check_bits_lem zero i error h =
      (false, ap ok (ground arith), (λ p x q r. absurd (omega arith)), λ _. refl)
  check_bits_lem (suc rounds) i error h =
      let d = not (if is_set a i then is_set b i else not (is_set b i)) in
      let (e, run, sound, complete) = check_bits_lem rounds (i + 1) (error || d) (omega arith) in
      (
        d || e,
        rw
            (
              test-is_set a i v.valid (omega (arith, v.width)),
              test-is_set b i w.valid (omega (arith, w.width)),
              run,
            )
            (ap ok (ground arith)),
        (λ p x q r. elim (Bool-cases (i == x)) [
          | inl here ↦ ground arith
          | inr later ↦ sound (ground arith) x (ground arith) (omega arith)
        ]),
        λ all.
            let rest = complete (λ x q r. all x (omega arith) (omega arith)) in
            let here = all i (omega arith) (omega arith) in ground arith,
      )

  pub check_bitmaps_lem :
      (e : Bool) × (check_bitmaps a b ≡ ok e)
      × (e ≡ false → (x : ℕ) → x < num_sectors → is_set a x ≡ is_set b x)
      × (((x : ℕ) → x < num_sectors → is_set a x ≡ is_set b x) → e ≡ false)
  unfolding check_bitmaps
  check_bitmaps_lem =
      let (e, run, sound, complete) = check_bits_lem num_sectors 0 false (omega arith) in
      (
        e,
        run,
        (λ p x h. sound p x (omega arith) (omega arith)),
        λ all. complete (λ x _ h. all x (omega arith)),
      )
