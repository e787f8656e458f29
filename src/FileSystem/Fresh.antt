-- ===== src/FileSystem/Fresh.antt =====
-- A freshly formatted disk, as `Check` sees it.
use so_ii.Base.{ℕ, ◌≡◌, refl, Bool, true, false, ◌↔◌, List, [], ◌∷◌, All, length, ok, arith}
use so_ii.Bitmap.{bits_in_word, div_round_up}
use so_ii.FileHeader.{FileHeader}
use so_ii.Directory.{DirectoryEntry}
use so_ii.FileSystem.{FileSystem, num_sectors}
use so_ii.FileSystem.Consistent.{owned, All_of_count}
use so_ii.FileSystem.Format.{IsFormatted}
use so_ii.FileSystem.Check.{check}
use so_ii.FileSystem.Check.Entries.{has_entry_error, IsReadable}
use so_ii.FileSystem.Check.Passes.{IsCheckable, Passes, check_iff}

has_entry_error-unused :
    (hs : ℕ → FileHeader) (t : List DirectoryEntry)
    → All (λ e. e.in_use ≡ false) t
    → has_entry_error hs [] t ≡ false
unfolding has_entry_error
has_entry_error-unused hs [] u = refl
has_entry_error-unused hs (e ∷ t) u = rw (u.0) (has_entry_error-unused hs t u.1)

pub IsReadable-unused :
    (hs : ℕ → FileHeader) (t : List DirectoryEntry)
    → All (λ e. e.in_use ≡ false) t
    → IsReadable hs t
IsReadable-unused hs [] u = tt
IsReadable-unused hs (e ∷ t) u = (λ used. absurd (ground (arith, u.0)), IsReadable-unused hs t u.1)

formatted-IsCheckable : (fs : FileSystem) → IsFormatted fs → IsCheckable fs
formatted-IsCheckable fs f = record {
  is_shadow = record { valid = f.consistent.valid; width = f.consistent.width };
  sized = f.consistent.sized;
  ten = f.consistent.ten;
  shaped = f.consistent.shaped;
  map_fits = omega (arith, f.map_sectors);
  dir_fits = omega (arith, f.dir_sectors);
  readable = IsReadable-unused fs.headers fs.directory.table f.unused;
}

formatted-Passes : (fs : FileSystem) → IsFormatted fs → Passes fs
formatted-Passes fs f = record {
  map_bytes = f.map_bytes;
  map_sectors = f.map_sectors;
  map_size = rw (f.map_sectors, f.map_bytes) refl;
  dir_size = rw (f.dir_sectors, f.dir_bytes) refl;
  entries = has_entry_error-unused fs.headers fs.directory.table f.unused;
  in_range = All_of_count num_sectors (owned fs) (λ x h. ground (arith, f.consistent.exact x));
  exact = λ s h. ground (arith, f.consistent.exact s);
}

-- `Check` returns true on a freshly formatted disk, whatever its scratch memory holds at first.
pub check-formatted :
    (words : List ℕ) (fs : FileSystem)
    → length words ≡ div_round_up num_sectors bits_in_word
    → IsFormatted fs
    → check words fs ≡ ok true
check-formatted words fs full f = accepted (check_iff words fs full (formatted-IsCheckable fs f))
  where
    accepted :
        (b : Bool) × (check words fs ≡ ok b) × ((b ≡ true) ↔ Passes fs) → check words fs ≡ ok true
    accepted (true, run, i) = run
    accepted (false, run, i) = absurd (ground (arith, i.1 (formatted-Passes fs f)))
