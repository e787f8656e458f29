-- ===== src/FileSystem/Check/Sectors.antt =====
-- The checks of sectors: a list of sectors passes them exactly if they can be taken, each from the
-- sectors that the shadow bitmap has not marked.
use so_ii.Base.{
  ℕ, zero, suc, ◌+◌, ◌≤◌, ◌<◌, ◌≡◌, refl, sym, ap, Bool, true, false, not, ◌||◌, List, [], ◌∷◌,
  ◌++◌, ltb, leb, Bool-cases, inl, inr, length, get_or, slice, slice-suc, ok, read_at-get_or, arith,
}
use mathlib.Core.Path.{subst}
use so_ii.Bitmap.{Bitmap, div_round_up}
use so_ii.Bitmap.View.{IsValid, is_set, marked, marked-IsValid, mark-marked, test-is_set}
use so_ii.FileHeader.{FileHeader, num_direct, sector_size}
use so_ii.Bitmap.Takes.{Takes, nil-Takes, mark-Takes, append-Takes, cancel-Takes, prefix-Takes}
use so_ii.FileHeader.Allocate.{IsShaped, sectors_of}
use so_ii.FileSystem.{num_sectors}
use so_ii.FileSystem.Check.{check_sector, check_sectors, check_file_header}

-- A shadow bitmap has a bit for each sector.
pub record IsShadow (bm : Bitmap) : Type 0 where
  pub valid : IsValid bm
  pub width : bm.num_bits ≡ num_sectors

-- What a check of sectors returns: the shadow bitmap after it, and whether it met an error. It met
-- none exactly if the sectors can be taken.
pub record Checks (shadow : Bitmap) (sectors : List ℕ) (error : Bool) (shadow' : Bitmap)
    : Type 0 where
  pub is_shadow : IsShadow shadow'
  pub sound : error ≡ false → Takes shadow sectors shadow'
  pub complete : (bm : Bitmap) → Takes shadow sectors bm → error ≡ false

pub check_sector-Checks :
    (s : ℕ) (shadow : Bitmap)
    → IsShadow shadow
    → (e : Bool) × (shadow' : Bitmap) × (check_sector s shadow ≡ ok (e, shadow'))
      × Checks shadow (s ∷ []) e shadow'
unfolding check_sector
check_sector-Checks s shadow v = elim (Bool-cases (ltb s num_sectors)) [
  | inr past ↦ (
    true,
    shadow,
    rw past,
    record {
      is_shadow = v;
      sound = λ p. cc;
      complete = λ bm t. ground (arith, t.in_range.0, v.width);
    },
  )
  | inl inside ↦
      let lt : s < shadow.num_bits = ground (arith, v.width) in
      elim (Bool-cases (is_set shadow s)) [
        | inl used ↦ (
          true,
          shadow,
          rw (inside, test-is_set shadow s v.valid lt, used),
          record { is_shadow = v; sound = λ p. cc; complete = λ bm t. ground (arith, t.exact s) },
        )
        | inr unused ↦ (
          false,
          marked shadow s,
          rw (inside, test-is_set shadow s v.valid lt, unused, mark-marked shadow s v.valid lt),
          record {
            is_shadow = record { valid = marked-IsValid shadow s v.valid; width = v.width };
            sound = λ _. mark-Takes v.valid lt unused (nil-Takes (marked-IsValid shadow s v.valid));
            complete = λ bm t. refl;
          },
        )
      ]
]

pub nil-Checks : {shadow : Bitmap} → IsShadow shadow → Checks shadow [] false shadow
nil-Checks v = record { is_shadow = v; sound = λ _. nil-Takes v.valid; complete = λ bm t. refl }

-- Two checks in a row are a check of both lists.
pub append-Checks :
    {a b c : Bitmap} {e f : Bool} (xs ys : List ℕ)
    → IsShadow a
    → Checks a xs e b
    → Checks b ys f c
    → Checks a (xs ++ ys) (e || f) c
append-Checks {a} {b} {c} {e} {f} xs ys v p q = record {
  is_shadow = q.is_shadow;
  sound = λ h. append-Takes xs ys (p.sound (ground arith)) (q.sound (ground arith));
  complete = λ bm t.
      let e_false = p.complete _ (prefix-Takes xs ys v.valid t).1 in
      let f_false = q.complete bm (cancel-Takes xs ys (p.sound e_false) t) in ground arith;
}

check_sectors-Checks :
    (rounds i : ℕ) (rh : FileHeader) (error : Bool) (shadow : Bitmap)
    → IsShadow shadow
    → i + rounds ≤ length rh.data_sectors
    → (e : Bool) × (shadow' : Bitmap) × (check_sectors rounds i rh error shadow
        ≡ ok (error || e, shadow'))
      × Checks shadow (slice i rounds rh.data_sectors) e shadow'
unfolding check_sectors
check_sectors-Checks zero i rh error shadow v h = (false, shadow, ground arith, nil-Checks v)
check_sectors-Checks (suc rounds) i rh error shadow v h =
    let s = get_or rh.data_sectors i 0 in
    let (e, shadow₁, run, p) = check_sector-Checks s shadow v in
    let (f, shadow₂, later, q) =
      check_sectors-Checks rounds (i + 1) rh (error || e) shadow₁ p.is_shadow (omega arith) in
    (
      e || f,
      shadow₂,
      rw (read_at-get_or rh.data_sectors i 0 (omega arith), run, later) (ap ok (ground arith)),
      subst (λ l. Checks shadow l (e || f) shadow₂)
          (sym (slice-suc i rounds rh.data_sectors 0 (omega arith)))
          (append-Checks (s ∷ []) (slice (i + 1) rounds rh.data_sectors) v p q),
    )

-- The two tests of sizes in `CheckFileHeader`.
abbrev pub has_size_error : FileHeader → Bool
has_size_error rh =
    not (leb (div_round_up rh.num_bytes sector_size) rh.num_sectors)
    || not (ltb rh.num_sectors num_direct)

-- `CheckFileHeader` of a header of at most `NUM_DIRECT` sectors reads no stray memory.
pub check_file_header-Checks :
    (rh : FileHeader) (shadow : Bitmap)
    → IsShadow shadow
    → IsShaped rh
    → rh.num_sectors ≤ num_direct
    → (e : Bool) × (shadow' : Bitmap) × (check_file_header rh shadow
        ≡ ok (has_size_error rh || e, shadow'))
      × Checks shadow (sectors_of rh) e shadow'
unfolding check_file_header
check_file_header-Checks rh shadow v shaped fits =
    check_sectors-Checks rh.num_sectors 0 rh (has_size_error rh) shadow v (omega (arith, shaped))
