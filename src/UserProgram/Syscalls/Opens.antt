-- ===== src/UserProgram/Syscalls/Opens.antt =====
-- How `SC_OPEN` of userprog/exception.cc enters a file in the table of lib/table.hh.
use so_ii.Base.{
  ℕ, ◌+◌, ◌-◌, ◌%◌, ◌^◌, ◌<◌, ◌≡◌, ◌⊎◌, refl, sym, ap, ◌∙◌, Bool, true, false, Option, none, some,
  [], inl, inr, Bool-cases, ltb, Run, ok, fault, arith,
}
use so_ii.Base.Int.{pos, ◌+ℤ◌}
use so_ii.FileHeader.{FileHeader}
use so_ii.FileSystem.{OpenFile}
use so_ii.Processor.{Handlers}
use so_ii.Table.{Table, get, has_key}
use so_ii.Table.Add.{IsValid, Adds, add-Adds}
use so_ii.UserProgram.Syscalls.{Kernel, console_output, set_result, get_file_opened, enter_file}

is_full_run : Run (Option OpenFile) → Bool
is_full_run (ok (some file)) = true
is_full_run (ok none) = false
is_full_run (fault e) = false

-- What is found is below the bound.
found_below :
    (t : Table (Option OpenFile)) (i : ℕ) (file : OpenFile)
    → IsValid t
    → get none t (pos i) ≡ ok (some file)
    → i < 20
unfolding get has_key is_full_run
found_below t i file valid found = elim (Bool-cases (ltb i valid.bound)) [
  | inl inside ↦ ground (arith, valid.small)
  | inr past ↦ absurd (absent past)
]
  where
    below : ltb i valid.bound ≡ false → ltb (i + 0) (valid.bound + 0) ≡ false
    below past = ground arith

    nothing : ltb i valid.bound ≡ false → get none t (pos i) ≡ ok none
    nothing past = rw (valid.current, below past) refl

    absent : ltb i valid.bound ≡ false → ⊥
    absent past = ground (arith, ap is_full_run (sym found ∙ nothing past))

plus_two : (i : ℕ) → pos i +ℤ pos 2 ≡ pos (i + 2)
unfolding ◌+ℤ◌
plus_two i = ground arith

module _ (handlers : Handlers) (garbage : ℕ → ℕ) (fresh : FileHeader) where
  -- A file is entered in a valid table of open files: if the table is full, the result is the number of
  -- the console's output; if not, the result is a number that had no file, the file is found under
  -- it, and all other numbers give the files that they gave before.
  pub enter_file-Adds :
      (s : Kernel) (file : OpenFile)
      → IsValid s.opened_files
      → ((s.opened_files.freed.nodes ≡ [])
          × (s.opened_files.current ≡ pos 20)
          × (enter_file handlers garbage fresh s (some file) ≡ set_result s console_output))
        ⊎ ((i : ℕ) × (table : Table (Option OpenFile)) × Adds none s.opened_files
              (some file)
              i
              table
            × (get_file_opened (record s { opened_files = table }) (i + 2) ≡ ok (some file))
            × (enter_file handlers garbage fresh s (some file)
                ≡ set_result (record s { opened_files = table }) (i + 2)))
  unfolding enter_file ◌+ℤ◌
  enter_file-Adds s file valid = elim (add-Adds none (some file) s.opened_files valid) [
    | inl (empty, full, run) ↦ inl (empty, full, rw run refl)
    | inr (i, table, adds) ↦ inr (
      i,
      table,
      adds,
      ap (λ k. get none table (pos k)) (let e : i + 2 - 2 ≡ i = omega arith in e) ∙ adds.there,
      rw
          (
            adds.runs,
            plus_two i,
            not_negative i,
            small i (found_below table i file adds.valid adds.there),
          )
          refl,
    )
  ]
    where
      not_negative : (i : ℕ) → ltb (i + 2 + 0) (0 + 0) ≡ false
      not_negative i = ground arith

      small : (i : ℕ) → i < 20 → (i + 2) % 2 ^ 32 ≡ i + 2
      small i h = omega arith
