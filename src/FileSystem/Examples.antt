-- ===== src/FileSystem/Examples.antt =====
-- Examples of file systems, on a disk that was just formatted.
use so_ii.Base.{
  ℕ, zero, suc, ◌<◌, ◌≡◌, refl, Bool, true, false, some, List, [], ◌∷◌, ◌↔◌, length, replicate, All,
  ok, arith,
}
use so_ii.CString.{strlen, strn_equal}
use so_ii.FileHeader.{FileHeader}
use so_ii.Directory.{DirectoryEntry}
use so_ii.Directory.Table.{lookup}
use so_ii.FileSystem.{FileSystem, format, create, remove}
use so_ii.FileSystem.Consistent.{IsConsistent, file}
use so_ii.FileSystem.Format.{IsFormatted, format-IsFormatted}
use so_ii.FileSystem.Create.{Creates, create-Creates}
use so_ii.FileSystem.Refuse.{exists, create_refuses}
use so_ii.FileSystem.Remove.{Removes, remove-Removes}
use so_ii.FileSystem.History.{Call, creates, opens, removes, run, run-IsConsistent}
use so_ii.FileSystem.Check.{check}
use so_ii.FileSystem.Check.Passes.{IsCheckable, Passes, check_iff}
use so_ii.FileSystem.Check.FullFile.{check_rejects_full}
use so_ii.FileSystem.Fresh.{IsReadable-unused, check-formatted}

All-replicate {ℓ} : {A : Type ℓ} (P : A → Type 0) (n : ℕ) (a : A) → P a → All P (replicate n a)
All-replicate P zero a p = tt
All-replicate P (suc n) a p = (p, All-replicate P n a p)

abbrev words : List ℕ
words = replicate 32 7

abbrev entry : DirectoryEntry
entry = record { in_use = true; sector = 7; name = replicate 10 1 }

abbrev blank : FileHeader
blank = record { num_bytes = 0; num_sectors = 0; data_sectors = replicate 30 0 }

-- "a" and "b"
abbrev name_a : List ℕ
name_a = 97 ∷ 0 ∷ []

abbrev name_b : List ℕ
name_b = 98 ∷ 0 ∷ []

formatted_entries : All (λ (e : DirectoryEntry). 9 < length e.name) (replicate 10 entry)
formatted_entries = All-replicate (λ (e : DirectoryEntry). 9 < length e.name) 10 entry (omega arith)

format-IsFormatted_example :
    (fs : FileSystem) × (format words (replicate 10 entry) blank blank (λ s. blank) ≡ ok fs)
    × IsFormatted fs
format-IsFormatted_example =
    format-IsFormatted words (replicate 10 entry) blank blank (λ s. blank) refl refl
      formatted_entries refl refl (λ s. refl)

-- The formatted disk.
disk : FileSystem
disk =
    (format-IsFormatted words (replicate 10 entry) blank blank (λ s. blank) refl refl
      formatted_entries refl refl (λ s. refl)).0

disk-IsFormatted : IsFormatted disk
unfolding disk
disk-IsFormatted =
    (format-IsFormatted words (replicate 10 entry) blank blank (λ s. blank) refl refl
      formatted_entries refl refl (λ s. refl)).2

check-formatted_example : check words disk ≡ ok true
check-formatted_example = check-formatted words disk refl disk-IsFormatted

create-Creates_example :
    (fs : FileSystem) × (create blank disk name_a 300 ≡ ok (true, fs)) × Creates disk name_a 300 fs
create-Creates_example =
    create-Creates blank disk name_a 300 refl disk-IsFormatted.consistent (omega arith)
      (disk-IsFormatted.empty name_a) disk-IsFormatted.room (omega (arith, disk-IsFormatted.free))

-- The disk with a file "a" of 300 bytes.
with_a : FileSystem
with_a =
    (create-Creates blank disk name_a 300 refl disk-IsFormatted.consistent (omega arith)
      (disk-IsFormatted.empty name_a) disk-IsFormatted.room
      (omega (arith, disk-IsFormatted.free))).0

with_a-Creates : Creates disk name_a 300 with_a
unfolding with_a
with_a-Creates =
    (create-Creates blank disk name_a 300 refl disk-IsFormatted.consistent (omega arith)
      (disk-IsFormatted.empty name_a) disk-IsFormatted.room
      (omega (arith, disk-IsFormatted.free))).2

with_a-a : file with_a name_a ≡ some with_a-Creates.header
unfolding strn_equal
with_a-a = with_a-Creates.files name_a

remove-Removes_example :
    (fs : FileSystem) × (remove with_a name_a ≡ ok (true, fs))
    × Removes with_a name_a with_a-Creates.header fs
remove-Removes_example =
    remove-Removes with_a name_a with_a-Creates.header with_a-Creates.consistent with_a-a

create_refuses_example : create blank with_a name_a 500 ≡ ok (false, with_a)
create_refuses_example =
    create_refuses blank with_a name_a 500 with_a-Creates.consistent (omega arith)
      (exists with_a-Creates.header with_a-a)

abbrev calls : List Call
calls = creates blank name_a 200 ∷ opens name_a ∷ creates blank name_b 3000 ∷ removes name_a ∷ []

run-IsConsistent_example : (fs : FileSystem) × (run disk calls ≡ ok fs) × IsConsistent fs
run-IsConsistent_example =
    run-IsConsistent calls disk disk-IsFormatted.consistent
      ((refl, omega arith), (tt, ((refl, omega arith), (tt, tt))))

-- A disk with a file "a" whose header, like every other, has all thirty sectors.
abbrev full_header : FileHeader
full_header = record { num_bytes = 3800; num_sectors = 30; data_sectors = replicate 30 5 }

abbrev unused_entry : DirectoryEntry
unused_entry = record { in_use = false; sector = 0; name = replicate 10 0 }

abbrev full_disk : FileSystem
full_disk = record {
  free_map = record { num_bits = 1024; num_words = 32; words = replicate 32 0 };
  directory = record {
    table_size = 10;
    table =
        record { in_use = true; sector = 5; name = 97 ∷ 0 ∷ replicate 8 0 }
        ∷ replicate 9 unused_entry;
  };
  headers = λ s. full_header;
}

full_disk-IsCheckable : IsCheckable full_disk
unfolding strlen
full_disk-IsCheckable = record {
  is_shadow = record { valid = record { sized = refl; full = refl }; width = refl };
  sized = refl;
  ten = refl;
  shaped = λ s. refl;
  map_fits = omega arith;
  dir_fits = omega arith;
  readable = (
    λ used. ((1, refl), omega arith, omega arith),
    IsReadable-unused (λ s. full_header) (replicate 9 unused_entry)
        (All-replicate (λ (e : DirectoryEntry). e.in_use ≡ false) 9 unused_entry refl),
  );
}

full_disk-a : file full_disk name_a ≡ some full_header
unfolding file lookup strn_equal
full_disk-a = refl

check_iff_example : (b : Bool) × (check words full_disk ≡ ok b) × ((b ≡ true) ↔ Passes full_disk)
check_iff_example = check_iff words full_disk refl full_disk-IsCheckable

check_rejects_full_example : check words full_disk ≡ ok false
check_rejects_full_example =
    check_rejects_full words full_disk name_a full_header refl full_disk-IsCheckable full_disk-a
      refl
