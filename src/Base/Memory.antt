-- ===== src/Base/Memory.antt =====
-- Bytes that C++ code moves between buffers, as lists.
use Prim.Native.Nat.{ℕ, zero, suc, ◌+◌, ◌-◌, ◌%◌, ◌≤◌, ◌<◌}
use mathlib.Core.Bool.{Bool, ◌&&◌}
use mathlib.Core.List.{List, [], ◌∷◌}
use mathlib.Core.Path.{◌≡◌, refl, ap, ◌∙◌}
use native.Mathlib.Omega.{arith}
use so_ii.Base.Tests.{ltb, leb, ◌==◌, if◌then◌else◌}
use so_ii.Base.Lists.{length, replicate, get_or, set, length-set, get_or-set}
use so_ii.Base.Faults.{Run, ok, ◌>>=◌, read_at, write_at, read_at-get_or, write_at-set}

-- `memcpy` into a buffer, from an index on.
unfoldable pub memcpy : List ℕ → ℕ → List ℕ → Run (List ℕ)
memcpy buffer i [] = ok buffer
memcpy buffer i (byte ∷ bytes) = do buffer' ← write_at buffer i byte; memcpy buffer' (i + 1) bytes

-- `memset`, which converts its value to an `unsigned char`.
abbrev pub memset : List ℕ → ℕ → ℕ → Run (List ℕ)
memset buffer value n = memcpy buffer 0 (replicate n (value % 256))

-- The `n` bytes of a buffer from an index on.
unfoldable pub bytes_at : ℕ → List ℕ → ℕ → Run (List ℕ)
bytes_at zero buffer i = ok []
bytes_at (suc n) buffer i = do
  byte ← read_at buffer i
  bytes ← bytes_at n buffer (i + 1)
  ok (byte ∷ bytes)

-- A new buffer, with what the memory holds.
abbrev pub new_buffer : (ℕ → ℕ) → ℕ → List ℕ
new_buffer garbage zero = []
new_buffer garbage (suc n) = garbage n ∷ new_buffer garbage n

pub length-new_buffer : (garbage : ℕ → ℕ) (n : ℕ) → length (new_buffer garbage n) ≡ n
length-new_buffer garbage zero = refl
length-new_buffer garbage (suc n) = omega (arith, length-new_buffer garbage n)

abbrev pub is_within : ℕ → ℕ → ℕ → Bool
is_within i n j = leb i j && ltb j (i + n)

get_or-cons :
    (byte : ℕ) (bytes : List ℕ) (k : ℕ)
    → get_or (byte ∷ bytes) k 0 ≡ (if k == 0 then byte else get_or bytes (k - 1) 0)
get_or-cons byte bytes zero = refl
get_or-cons byte bytes (suc k) = ground arith

sub-suc : (i j : ℕ) → j - i - 1 ≡ j - (i + 1)
sub-suc i j = omega arith

-- A copy that fits changes just the bytes that it is about.
pub record Copies (buffer : List ℕ) (i : ℕ) (bytes : List ℕ) : Type 0 where
  pub after : List ℕ
  pub runs : memcpy buffer i bytes ≡ ok after
  pub same_length : length after ≡ length buffer
  pub bytes_in :
      (j : ℕ)
      → get_or after j 0
        ≡ (if is_within i (length bytes) j then get_or bytes (j - i) 0 else get_or buffer j 0)

pub memcpy-Copies :
    (buffer : List ℕ) (i : ℕ) (bytes : List ℕ)
    → i + length bytes ≤ length buffer
    → Copies buffer i bytes
unfolding memcpy
memcpy-Copies buffer i [] h = record {
  after = buffer;
  runs = refl;
  same_length = refl;
  bytes_in = λ j. ground arith;
}
memcpy-Copies buffer i (byte ∷ bytes) h =
    let c =
      memcpy-Copies (set buffer i byte) (i + 1) bytes (omega (arith, length-set buffer i byte)) in
    record {
      after = c.after;
      runs = rw (write_at-set buffer i byte (omega arith)) c.runs;
      same_length = c.same_length ∙ length-set buffer i byte;
      bytes_in = λ j. c.bytes_in j ∙ shifted j;
    }
  where
    shifted :
        (j : ℕ)
        → (if is_within (i + 1) (length bytes) j
            then get_or bytes (j - (i + 1)) 0
            else get_or (set buffer i byte) j 0)
          ≡ (if is_within i (suc (length bytes)) j
              then get_or (byte ∷ bytes) (j - i) 0
              else get_or buffer j 0)
    shifted j = ground (
      arith,
      get_or-set buffer i j byte 0 (omega arith),
      get_or-cons byte bytes (j - i),
      ap (λ k. get_or bytes k 0) (sub-suc i j),
    )

pub record Reads (n : ℕ) (buffer : List ℕ) (i : ℕ) : Type 0 where
  pub bytes : List ℕ
  pub runs : bytes_at n buffer i ≡ ok bytes
  pub same_length : length bytes ≡ n
  pub bytes_in : (j : ℕ) → j < n → get_or bytes j 0 ≡ get_or buffer (i + j) 0

pub bytes_at-Reads : (n : ℕ) (buffer : List ℕ) (i : ℕ) → i + n ≤ length buffer → Reads n buffer i
unfolding bytes_at
bytes_at-Reads zero buffer i h = record {
  bytes = [];
  runs = refl;
  same_length = refl;
  bytes_in = λ j less. absurd (omega arith);
}
bytes_at-Reads (suc n) buffer i h =
    let r = bytes_at-Reads n buffer (i + 1) (omega arith) in
    record {
      bytes = get_or buffer i 0 ∷ r.bytes;
      runs = rw (read_at-get_or buffer i 0 (omega arith), r.runs) refl;
      same_length = omega (arith, r.same_length);
      bytes_in = each r;
    }
  where
    each :
        (r : Reads n buffer (i + 1)) (j : ℕ)
        → j < suc n
        → get_or (get_or buffer i 0 ∷ r.bytes) j 0 ≡ get_or buffer (i + j) 0
    each r zero less = ap (λ k. get_or buffer k 0) (omega arith)
    each r (suc j) less = r.bytes_in j (omega arith) ∙ ap (λ k. get_or buffer k 0) (omega arith)
