-- ===== src/FileSystem/Create.antt =====
-- `Create` keeps the file system consistent, and adds just the named file.
use so_ii.Base.{
  ℕ, ◌+◌, ◌≤◌, ◌<◌, ◌≡◌, ◌∙◌, true, false, none, some, List, ◌∷◌, ◌++◌, lt→ltb, ◌==◌, if◌then◌else◌,
  length-take, count, count-append, All, ok, arith, Option-cases, inl, inr,
}
use mathlib.Core.Path.{subst}
use so_ii.CString.{strn_equal}
use so_ii.Bitmap.{Bitmap, div_round_up}
use so_ii.Bitmap.View.{marked, marked-IsValid}
use so_ii.Bitmap.Find.{free_bits, FindsAt, find_lem}
use so_ii.FileHeader.{FileHeader, num_direct, sector_size, max_file_size, allocate}
use so_ii.Bitmap.Takes.{Takes, cons-Takes}
use so_ii.FileHeader.Allocate.{IsShaped, sectors_of, Allocates, allocate-Allocates}
use so_ii.Directory.Table.{length-fill, lookup, has_free, fill, lookup-fill, fill-Distinct}
use so_ii.Directory.Loops.{find-lookup, add-fill}
use so_ii.FileSystem.{FileSystem, num_sectors, update, create, create_entry}
use so_ii.FileSystem.Consistent.{
  owned_by, owned, IsConsistent, file, lookup-owned, owned_by-fill, owned_by-update, count_past,
}

-- A file system in which sector `k` is the first free one, the name is absent, and an entry free.
module _ (fs : FileSystem) (name : List ℕ) (k : ℕ) (c : IsConsistent fs) (f : FindsAt fs.free_map k)
    (absent : lookup fs.directory.table name ≡ none)
    (room : has_free fs.directory.table ≡ true) where
  -- No file uses the sector.
  unused : count k (owned fs) ≡ 0
  unused = ground (arith, c.exact k, f.was_clear)

  unused_by_files : count k (owned_by fs.headers fs.directory.table) ≡ 0
  unused_by_files = omega (
    arith,
    unused,
    count-append k (sectors_of (fs.headers 0))
        (sectors_of (fs.headers 1) ++ owned_by fs.headers fs.directory.table),
    count-append k (sectors_of (fs.headers 1)) (owned_by fs.headers fs.directory.table),
  )

  not_fixed : (k == 0 ≡ false) × (k == 1 ≡ false)
  not_fixed = (ground (arith, unused), ground (arith, unused))

  module _ (size : ℕ) (small : size < max_file_size) (h : FileHeader) (bm : Bitmap)
      (a : Allocates (marked fs.free_map k) size h bm) where
    created_state : FileSystem
    created_state = record {
      free_map = bm;
      directory = record fs.directory { table = fill fs.directory.table name k };
      headers = update fs.headers k h;
    }

    taken_together : Takes fs.free_map (k ∷ sectors_of h) bm
    taken_together = cons-Takes c.valid f a.takes

    -- The sectors in use are those from before, and the ones taken.
    owned_grows :
        (x : ℕ) → count x (owned created_state) ≡ count x (owned fs) + count x (k ∷ sectors_of h)
    unfolding created_state
    owned_grows x =
        let table = fs.directory.table in
        let hs = update fs.headers k h in
        rw (not_fixed.0, not_fixed.1)
          (ground (
            arith,
            count-append x (sectors_of (fs.headers 0))
                (sectors_of (fs.headers 1) ++ owned_by fs.headers table),
            count-append x (sectors_of (fs.headers 1)) (owned_by fs.headers table),
            count-append x (sectors_of (fs.headers 0))
                (sectors_of (fs.headers 1) ++ owned_by hs (fill table name k)),
            count-append x (sectors_of (fs.headers 1)) (owned_by hs (fill table name k)),
            owned_by-fill hs table name k x room,
            owned_by-update fs.headers table k h unused_by_files,
          ))

    -- A file that was there has another sector for its header.
    other_sector :
        (other : List ℕ) (x : ℕ) → lookup fs.directory.table other ≡ some x → (k == x) ≡ false
    other_sector other x e =
        ground (arith, lookup-owned fs.headers fs.directory.table other x k e, unused_by_files)

    created_lookup :
        (other : List ℕ)
        → lookup created_state.directory.table other
          ≡ (if strn_equal 9 name other then some k else lookup fs.directory.table other)
    unfolding created_state
    created_lookup other = lookup-fill fs.directory.table name other k c.distinct room absent

    created_state-file :
        (other : List ℕ)
        → file created_state other ≡ (if strn_equal 9 name other then some h else file fs other)
    unfolding created_state file
    created_state-file other = elim (Option-cases (lookup fs.directory.table other)) [
      | inl e ↦ ground (arith, created_lookup other, e)
      | inr (x, e) ↦ ground (arith, created_lookup other, e, other_sector other x e)
    ]

    created_fits :
        (other : List ℕ) (x : ℕ)
        → lookup created_state.directory.table other ≡ some x
        → (created_state.headers x).num_sectors ≤ num_direct
    unfolding created_state
    created_fits other x e = elim (Option-cases (lookup fs.directory.table other)) [
      | inl e' ↦ ground (arith, created_lookup other, e', a.sectors)
      | inr (y, e') ↦
          ground
            (arith, created_lookup other, e', a.sectors, other_sector other y e', c.fits other y e')
    ]

    header_fits : h.num_sectors ≤ num_direct
    header_fits = ground (arith, a.sectors)

    created_state-taken :
        free_bits created_state.free_map + (1 + h.num_sectors) ≡ free_bits fs.free_map
    unfolding created_state
    created_state-taken = omega (
      arith,
      taken_together.fewer,
      length-take h.num_sectors h.data_sectors,
      header_fits,
      a.shaped,
    )

    past_end : (x : ℕ) → num_sectors ≤ x → count x (k ∷ sectors_of h) ≡ 0
    past_end x p =
        count_past num_sectors x (k ∷ sectors_of h)
          (subst (λ n. All (λ s. s < n) (k ∷ sectors_of h)) c.width taken_together.in_range) p

    created_state-IsConsistent : IsConsistent created_state
    unfolding created_state
    created_state-IsConsistent = record {
      valid = taken_together.valid;
      width = taken_together.width ∙ c.width;
      sized = length-fill fs.directory.table name k ∙ c.sized;
      ten = c.ten;
      distinct = fill-Distinct fs.directory.table name k c.distinct room absent;
      shaped = λ s. ground (arith, c.shaped s, a.shaped);
      fits = created_fits;
      exact = λ x. ground (arith, c.exact x, owned_grows x, taken_together.exact x, past_end x);
    }

  create_entry-run :
      (fresh : FileHeader) (size : ℕ) (h : FileHeader) (bm : Bitmap) (small : size < max_file_size)
      (a : Allocates (marked fs.free_map k) size h bm)
      → allocate fresh (marked fs.free_map k) size ≡ ok (true, h, bm)
      → create_entry fresh fs name size (marked fs.free_map k, some k)
        ≡ ok (true, created_state size small h bm a)
  unfolding created_state
  create_entry-run fresh size h bm small a run = simp (
    add-fill fs.directory name k c.sized,
    absent,
    room,
    run,
    lt→ltb k num_sectors (ground (arith, f.in_range, c.width)),
  )

-- What a successful `Create` did: the named file is there with the size and all others are as they
-- were, and the free sectors are fewer by the header's and the data's.
pub record Creates (fs : FileSystem) (name : List ℕ) (size : ℕ) (fs' : FileSystem) : Type 0 where
  pub consistent : IsConsistent fs'
  pub header : FileHeader
  pub bytes : header.num_bytes ≡ size
  pub sectors : header.num_sectors ≡ div_round_up size sector_size
  pub files :
      (other : List ℕ)
      → file fs' other ≡ (if strn_equal 9 name other then some header else file fs other)
  pub taken : free_bits fs'.free_map + (1 + header.num_sectors) ≡ free_bits fs.free_map

absent_lookup :
    (fs : FileSystem) (name : List ℕ) → file fs name ≡ none → lookup fs.directory.table name ≡ none
unfolding file
absent_lookup fs name absent = ground arith

-- In a consistent file system, `Create` of a file that does not exist, of less than the largest
-- size, with a free entry in the directory and enough free sectors for the header and the data,
-- trips no assertion and returns true. It leaves the file system consistent, the new file there
-- with its size and every other file as it was, and takes just those sectors.
pub create-Creates :
    (fresh : FileHeader) (fs : FileSystem) (name : List ℕ) (size : ℕ)
    → IsShaped fresh
    → IsConsistent fs
    → size < max_file_size
    → file fs name ≡ none
    → has_free fs.directory.table ≡ true
    → 1 + div_round_up size sector_size ≤ free_bits fs.free_map
    → (fs' : FileSystem) × (create fresh fs name size ≡ ok (true, fs')) × Creates fs name size fs'
unfolding create
create-Creates fresh fs name size shaped c small absent room enough =
    elim (find_lem fs.free_map c.valid) [
      | inl (full, _) ↦ absurd (omega arith)
      | inr (k, f) ↦
          let e = absent_lookup fs name absent in
          let (h, bm, run, a) =
            allocate-Allocates fresh (marked fs.free_map k) size shaped
              (marked-IsValid fs.free_map k c.valid) (omega arith) (omega (arith, f.fewer)) in
          (
            created_state fs name k c f e room size small h bm a,
            rw
                (
                  lt→ltb size max_file_size small,
                  find-lookup fs.directory name c.sized,
                  e,
                  f.returns,
                )
                (create_entry-run fs name k c f e room fresh size h bm small a run),
            record {
              consistent = created_state-IsConsistent fs name k c f e room size small h bm a;
              header = h;
              bytes = a.bytes;
              sectors = a.sectors;
              files = created_state-file fs name k c f e room size small h bm a;
              taken = created_state-taken fs name k c f e room size small h bm a;
            },
          )
    ]
