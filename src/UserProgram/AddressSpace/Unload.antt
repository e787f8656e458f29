-- ===== src/UserProgram/AddressSpace/Unload.antt =====
-- What is left of a program of userprog/address_space.cc after it, and what it does to another one.
use mathlib.Core.Path.{subst}
use so_ii.Base.{
  ℕ, suc, ◌-◌, ◌≤◌, ◌<◌, ◌≡◌, ◌≢◌, refl, sym, ap, ◌∙◌, true, false, List, [], ◌∷◌, length, get_or,
  take, ok, arith, All,
}
use so_ii.Bitmap.{Bitmap}
use so_ii.Bitmap.View.{IsValid, is_set}
use so_ii.Bitmap.Find.{free_bits}
use so_ii.Bitmap.Takes.{Takes}
use so_ii.FileHeader.Deallocate.{IsHeld}
use so_ii.FileSystem.{OpenFile}
use so_ii.Mmu.{TranslationEntry, page_size, num_phys_pages, memory_size}
use so_ii.UserProgram.AddressSpace.{AddressSpace, new_address_space, delete_address_space}
use so_ii.UserProgram.AddressSpace.Frames.{last_or, frames, entry_at, clear_pages_lem}
use so_ii.UserProgram.AddressSpace.Mapped.{count-get_or, length-frames, get_or-frames}
use so_ii.UserProgram.AddressSpace.Program.{noff_in, pages_of, IsProgram}
use so_ii.UserProgram.AddressSpace.Load.{new_address_space-Loads}

Takes-IsHeld : {bm bm' : Bitmap} {taken : List ℕ} → Takes bm taken bm' → IsHeld bm' taken
Takes-IsHeld {bm} {bm'} {taken} t = record {
  in_range = subst (λ n. All (λ s. s < n) taken) (sym t.width) t.in_range;
  once = λ s. omega (arith, t.exact s);
}

take-length {ℓ} : {A : Type ℓ} (xs : List A) → take (length xs) xs ≡ xs
take-length [] = refl
take-length (x ∷ xs) = ap (λ ys. x ∷ ys) (take-length xs)

-- What can be taken from two bitmaps to the same effect was free in both.
same_bits :
    {a b c : Bitmap} {taken : List ℕ}
    → Takes a taken c
    → Takes b taken c
    → (s : ℕ) → is_set a s ≡ is_set b s
same_bits {a} {b} {c} {taken} t u s = ground (arith, t.exact s, u.exact s)

abbrev get_or_from : List ℕ → ℕ → ℕ
get_or_from xs i = get_or xs i 0

last_or-get_or : (xs : List ℕ) (d : ℕ) → 0 < length xs → last_or d xs ≡ get_or xs (length xs - 1) 0
last_or-get_or [] d h = absurd (omega arith)
last_or-get_or (x ∷ []) d h = refl
last_or-get_or (x ∷ y ∷ xs) d h =
    last_or-get_or (y ∷ xs) x (omega arith)
    ∙ ap (get_or_from (x ∷ y ∷ xs))
        (let e : suc (suc (length xs) - 1) ≡ suc (suc (length xs)) - 1 = omega arith in e)

taken_free :
    {bm bm' : Bitmap} (taken : List ℕ) (i : ℕ)
    → Takes bm taken bm'
    → i < length taken
    → is_set bm (get_or taken i 0) ≡ false
taken_free {bm} {bm'} taken i t h =
    ground (arith, t.exact (get_or taken i 0), count-get_or taken i h)

taken_marked :
    {bm bm' : Bitmap} (taken : List ℕ) (i : ℕ)
    → Takes bm taken bm'
    → i < length taken
    → is_set bm' (get_or taken i 0) ≡ true
taken_marked {bm} {bm'} taken i t h =
    ground (arith, t.exact (get_or taken i 0), count-get_or taken i h)

-- The frame of the last page.
abbrev pub last_frame : AddressSpace → ℕ
last_frame space = (entry_at space.page_table (space.num_pages - 1)).physical_page

module _ (garbage : ℕ → ℕ) (disk : List (List ℕ)) (f : OpenFile) (bm : Bitmap) (memory : List ℕ)
    (program : IsProgram f.header disk) (v : IsValid bm) (width : bm.num_bits ≡ num_phys_pages)
    (size : length memory ≡ memory_size)
    (enough : pages_of (noff_in f.header disk) ≤ free_bits bm) where
  -- With a valid bitmap of the frames, a whole memory and a good program for whose pages there are
  -- frames, the constructor and then the destructor trip no assertion, and just the frames are free
  -- that were free before.
  pub delete_address_space-new_address_space :
      (space : AddressSpace) × (bm₁ bm₂ : Bitmap) × (memory₁ : List ℕ) × (new_address_space garbage
          disk f bm memory
        ≡ ok (space, bm₁, memory₁))
      × (delete_address_space space bm₁ ≡ ok bm₂)
      × ((s : ℕ) → is_set bm₂ s ≡ is_set bm s)
  unfolding delete_address_space
  delete_address_space-new_address_space =
      let l = new_address_space-Loads garbage disk f bm memory program v width size enough in
      let whole = ap frames (sym (take-length l.table)) in
      let (bm₂, run, t) =
        clear_pages_lem (length l.table) 0 l.table l.after l.takes.valid (omega arith)
          (subst (IsHeld l.after) whole (Takes-IsHeld l.takes)) in
      (
        record { page_table = l.table; num_pages = length l.table },
        l.after,
        bm₂,
        l.memory_after,
        l.runs,
        run,
        same_bits (subst (λ xs. Takes bm₂ xs l.after) (sym whole) t) l.takes,
      )

  -- With a valid bitmap of the frames, a whole memory and a good program for whose pages there are
  -- frames: if the frame 0 belongs to another program, the constructor fills it with the number of the
  -- frame of its last page, one that was free before and is taken then.
  pub new_address_space_damages :
      is_set bm 0 ≡ true
      → (space : AddressSpace) × (bm₁ : Bitmap) × (memory₁ : List ℕ) × (new_address_space garbage
            disk f bm memory
          ≡ ok (space, bm₁, memory₁))
        × (0 < space.num_pages)
        × (is_set bm (last_frame space) ≡ false)
        × (is_set bm₁ (last_frame space) ≡ true)
        × ((j : ℕ) → j < page_size → get_or memory₁ j 0 ≡ last_frame space)
  new_address_space_damages used =
      let l = new_address_space-Loads garbage disk f bm memory program v width size enough in
      let some : 0 < length (frames l.table) = omega (arith, length-frames l.table, l.pages) in
      let last = length l.table - 1 in
      let there : last < length l.table = omega (arith, l.pages) in
      let inside : last < length (frames l.table) = omega (arith, length-frames l.table, there) in
      let same = get_or-frames l.table last there in
      (
        record { page_table = l.table; num_pages = length l.table },
        l.after,
        l.memory_after,
        l.runs,
        omega (arith, there),
        ap (is_set bm) (sym same) ∙ taken_free (frames l.table) last l.takes inside,
        ap (is_set l.after) (sym same) ∙ taken_marked (frames l.table) last l.takes inside,
        λ j inside.
            l.frame_zero j inside (elsewhere l.table l.after l.takes)
            ∙ last_or-get_or (frames l.table) (get_or memory j 0) some
            ∙ ap (λ i. get_or (frames l.table) i 0) (ap (λ n. n - 1) (length-frames l.table))
            ∙ same,
      )
    where
      elsewhere :
          (table : List TranslationEntry) (after : Bitmap)
          → Takes bm (frames table) after
          → (i : ℕ) → i < length table
          → (entry_at table i).physical_page ≢ 0
      elsewhere table after t i h zero_frame = absurd (
          ground (
            arith,
            used,
            ap (is_set bm) (get_or-frames table i h ∙ zero_frame),
            taken_free (frames table) i t (omega (arith, length-frames table)),
          ))
