-- ===== src/FileSystem/Check/Entries.antt =====
-- `CheckDirectory`: the names and sizes that it objects to, and the sectors that it checks.
use mathlib.Core.List.{append_assoc}
use so_ii.Base.{
  ℕ, ◌+◌, ◌≤◌, ◌<◌, ◌≡◌, refl, sym, ◌∙◌, ap, Bool, true, false, ◌||◌, List, [], ◌∷◌, ◌++◌, ltb,
  lt→ltb, if◌then◌else◌, length, length-append, All, All-append, Bool-cases, inl, inr, Run, ok,
  fault, read_at, arith,
}
use so_ii.CString.{strlen, str_equal, IsTerminated, str_equal_runs}
use so_ii.Bitmap.{Bitmap}
use so_ii.FileHeader.{FileHeader, num_direct}
use so_ii.FileHeader.Allocate.{IsShaped, sectors_of}
use so_ii.Directory.{Directory, DirectoryEntry, file_name_max_len}
use so_ii.Directory.Loops.{read_at-append}
use so_ii.FileSystem.{FileSystem, num_sectors}
use so_ii.FileSystem.Consistent.{owned_by}
use so_ii.FileSystem.Check.{is_repeated, check_entries, check_entry}
use so_ii.FileSystem.Check.Sectors.{
  IsShadow, Checks, nil-Checks, append-Checks, check_sector-Checks, has_size_error,
  check_file_header-Checks,
}

abbrev pub value_or_true : Run Bool → Bool
value_or_true (ok b) = b
value_or_true (fault f) = true

abbrev pub same_name : List ℕ → List ℕ → Bool
same_name a b = value_or_true (str_equal a b)

abbrev pub is_known : List (List ℕ) → List ℕ → Bool
is_known [] name = false
is_known (known ∷ names) name = same_name known name || is_known names name

abbrev pub is_too_long : List ℕ → Bool
is_too_long name = elim (strlen name) [ ok n ↦ ltb file_name_max_len n | fault f ↦ true ]

-- Whether a table has a name that is too long or stands in it twice, or a header with a bad size.
unfoldable pub has_entry_error : (ℕ → FileHeader) → List (List ℕ) → List DirectoryEntry → Bool
has_entry_error hs names [] = false
has_entry_error hs names (e ∷ t) =
    let used =
      is_too_long e.name
      || (is_known names e.name
          || (has_size_error (hs e.sector)
              || has_entry_error hs (if is_known names e.name then names else names ++ e.name ∷ [])
                  t)) in
    if e.in_use then used else has_entry_error hs names t

-- The entries in use have null-terminated names, and name sectors of the disk with headers that
-- stay within their array. On others the code reads stray memory or trips the disk's assertion.
abbrev pub IsReadable : (ℕ → FileHeader) → List DirectoryEntry → Type 0
IsReadable hs [] = Unit {0}
IsReadable hs (e ∷ t) =
    (e.in_use ≡ true
      → IsTerminated e.name × (e.sector < num_sectors) × ((hs e.sector).num_sectors ≤ num_direct))
    × IsReadable hs t

is_repeated-is_known :
    (names : List (List ℕ)) (name : List ℕ)
    → All IsTerminated names
    → IsTerminated name
    → is_repeated names name ≡ ok (is_known names name)
unfolding is_repeated
is_repeated-is_known [] name h t = refl
is_repeated-is_known (known ∷ names) name h t =
    let (r, run) = str_equal_runs known name h.0 t in
    rw (run, is_repeated-is_known names name h.1 t)

-- The errors of an entry in the order of the code, and in the order of `has_entry_error`.
regroup : (l l' k b s c : Bool) → l' ≡ l → l || k || b || (s || c) ≡ l' || (k || s) || (b || c)
regroup l l' k b s c h = ground arith

regroup_next :
    (x l k s b t c : Bool)
    → x || (l || (k || s) || b) || (t || c) ≡ x || (l || (k || (s || t)) || (b || c))
regroup_next x l k s b t c = ground arith

module _ (fs : FileSystem) (shaped : (s : ℕ) → IsShaped (fs.headers s)) where
  check_entry-Checks :
      (e : DirectoryEntry) (names : List (List ℕ)) (shadow : Bitmap)
      → IsShadow shadow
      → All IsTerminated names
      → IsTerminated e.name
      → e.sector < num_sectors
      → (fs.headers e.sector).num_sectors ≤ num_direct
      → (bad : Bool) × (shadow' : Bitmap) × (check_entry fs e names shadow
          ≡ ok (
            (is_too_long e.name || (is_known names e.name || has_size_error (fs.headers e.sector)))
                || bad,
            (if is_known names e.name then names else names ++ e.name ∷ []),
            shadow',
          ))
        × Checks shadow (e.sector ∷ sectors_of (fs.headers e.sector)) bad shadow'
  check_entry-Checks e names shadow v known (n, len) lt fits =
      let (b₁, s₁, run₁, c₁) = check_sector-Checks e.sector shadow v in
      let (b₂, s₂, run₂, c₂) =
        check_file_header-Checks (fs.headers e.sector) s₁ c₁.is_shadow (shaped e.sector) fits in
      (
        b₁ || b₂,
        s₂,
        rw
            (
              len,
              is_repeated-is_known names e.name known (n, len),
              run₁,
              lt→ltb e.sector num_sectors lt,
              run₂,
            )
            (ap
              (λ (x : Bool).
                ok (x, (if is_known names e.name then names else names ++ e.name ∷ []), s₂))
              (regroup (ltb file_name_max_len n) (is_too_long e.name) (is_known names e.name) b₁
                (has_size_error (fs.headers e.sector)) b₂ (rw (len, is_too_long)))),
        append-Checks (e.sector ∷ []) (sectors_of (fs.headers e.sector)) v c₁ c₂,
      )

  pub check_entries-Checks :
      (back front : List DirectoryEntry) (i : ℕ) (rd : Directory) (error : Bool)
      (names : List (List ℕ)) (shadow : Bitmap)
      → rd.table ≡ front ++ back
      → i ≡ length front
      → IsShadow shadow
      → All IsTerminated names
      → IsReadable fs.headers back
      → (e : Bool) × (shadow' : Bitmap) × (check_entries fs (length back) i rd error names shadow
          ≡ ok (error || (has_entry_error fs.headers names back || e), shadow'))
        × Checks shadow (owned_by fs.headers back) e shadow'
  unfolding check_entries has_entry_error owned_by
  check_entries-Checks [] front i rd error names shadow whole here v known r =
      (false, shadow, ground arith, nil-Checks v)
  check_entries-Checks (e ∷ back) front i rd error names shadow whole here v known r =
      elim (Bool-cases e.in_use) [
        | inr unused ↦
            let (f, s₁, run, c) =
              check_entries-Checks back (front ++ e ∷ []) (i + 1) rd error names shadow whole' here'
                v known r.1 in
            (f, s₁, simp (current, unused) run, simp unused c)
        | inl used ↦
            let (term, lt, fits) = r.0 used in
            let (bad, s₁, run, c) = check_entry-Checks e names shadow v known term lt fits in
            let names' = (if is_known names e.name then names else names ++ e.name ∷ []) in
            let (f, s₂, later, d) =
              check_entries-Checks back (front ++ e ∷ []) (i + 1) rd
                (error
                  || ((is_too_long e.name
                        || (is_known names e.name || has_size_error (fs.headers e.sector)))
                      || bad))
                names' s₁ whole' here' c.is_shadow (known' term) r.1 in
            (
              bad || f,
              s₂,
              simp (current, used, run, later)
                  (ap (λ (x : Bool). ok (x, s₂))
                    (regroup_next error (is_too_long e.name) (is_known names e.name)
                      (has_size_error (fs.headers e.sector)) bad
                      (has_entry_error fs.headers names' back) f)),
              simp used (
                  append-Checks (e.sector ∷ sectors_of (fs.headers e.sector))
                    (owned_by fs.headers back) v c d),
            )
      ]
    where
      whole' : rd.table ≡ (front ++ e ∷ []) ++ back
      whole' = whole ∙ sym (append_assoc front (e ∷ []) back)

      here' : i + 1 ≡ length (front ++ e ∷ [])
      here' = rw (here, length-append front (e ∷ [])) (omega arith)

      current : read_at rd.table i ≡ ok e
      current = rw (whole, here) (read_at-append front e back)

      known' :
          IsTerminated e.name
          → All IsTerminated (if is_known names e.name then names else names ++ e.name ∷ [])
      known' t = elim (Bool-cases (is_known names e.name)) [
        | inl old ↦ rw old known
        | inr new ↦ rw new (All-append IsTerminated names (e.name ∷ []) known (t, tt))
      ]
