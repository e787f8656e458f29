-- ===== src/Table.antt =====
-- lib/table.hh: `Table<T>`, a map from small indices to items. `zero_item` is `T()`. The items of
-- `freed` are indices, inserted under themselves as keys.
pub mod Add
mod Examples
use so_ii.Base.{
  ℕ, zero, suc, ◌+◌, ◌-◌, Bool, true, false, not, ◌&&◌, ◌||◌, Option, none, some, List, [], ◌∷◌,
  ◌++◌, length, ltb, leb, ◌==◌, if◌then◌else◌, Run, ok, fault, out_of_bounds, ◌>>=◌, ◌>>◌, assert,
  read_at, write_at,
}
use so_ii.Base.Int.{ℤ, pos, negsuc, ltb_ℤ, ◌+ℤ◌, ◌-ℤ◌}
use so_ii.LinkedList
use so_ii.LinkedList.{
  LinkedList, ListElement, is_empty, pop, sorted_pop, sorted_insert, has, append, get_size,
}

abbrev pub table_size : ℤ
table_size = pos 20

pub record Table {ℓ} (A : Type ℓ) : Type ℓ where
  pub data_items : List A
  pub current : ℤ
  pub freed : LinkedList ℤ

abbrev pub equal_ℤ : ℤ → ℤ → Bool
equal_ℤ (pos a) (pos b) = a == b
equal_ℤ (pos a) (negsuc b) = false
equal_ℤ (negsuc a) (pos b) = false
equal_ℤ (negsuc a) (negsuc b) = a == b

-- `i >= 0`
abbrev pub is_index : ℤ → Bool
is_index (pos i) = true
is_index (negsuc i) = false

abbrev pub holds : ℤ → LinkedList ℤ → ℤ → Bool
holds current freed i = ltb_ℤ i current && not (has equal_ℤ freed i)

-- What `SortedPop` leaves in `j`.
abbrev pub key_or : ℤ → Option ℤ → ℤ
key_or j none = j
key_or j (some key) = key

-- The loop of `Remove`. Each round takes an index from `freed`, and the assertion fails when none
-- is left: one round more than there are indices is enough.
unfoldable pub shrink : ℕ → ℤ → ℤ → LinkedList ℤ → Run (ℤ × LinkedList ℤ)
shrink zero j current freed = ok (current, freed)
shrink (suc rounds) j current freed =
    let (_, key, freed') = sorted_pop (pos 0) freed in
    let j' = key_or j key in
    let rest = shrink rounds (j' -ℤ pos 1) (current -ℤ pos 1) freed' in
    let again : Run (ℤ × LinkedList ℤ) = (do assert (has equal_ℤ freed j); rest) in
    if is_index j && not (holds current freed j) then again else ok (current, freed)

abbrev pub rounds_to : ℤ → ℕ
rounds_to (pos n) = n
rounds_to (negsuc n) = 0

module _ {ℓ} {A : Type ℓ} where
  -- `data[i]`
  abbrev pub read_item : List A → ℤ → Run A
  read_item items (pos i) = read_at items i
  read_item items (negsuc i) = fault out_of_bounds

  abbrev pub write_item : List A → ℤ → A → Run (List A)
  write_item items (pos i) item = write_at items i item
  write_item items (negsuc i) item = fault out_of_bounds

  -- The constructor leaves the items unset.
  pub new_table : List A → Table A
  new_table garbage = record { data_items = garbage; current = pos 0; freed = LinkedList.empty }

  unfoldable pub add : Table A → A → Run (ℤ × Table A)
  add t item =
      let (first, freed') = pop (pos 0) t.freed in
      let reuse : Run (ℤ × Table A) = (do
        items ← write_item t.data_items first item
        ok (first, record t { data_items = items; freed = freed' })) in
      let extend : Run (ℤ × Table A) = (do
        items ← write_item t.data_items t.current item
        ok (t.current, record t { data_items = items; current = t.current +ℤ pos 1 })) in
      if not (is_empty t.freed)
      then reuse
      else if ltb_ℤ t.current table_size
      then extend
      else ok (negsuc 0, t)

  unfoldable pub has_key : Table A → ℤ → Run Bool
  has_key t i = do assert (is_index i); ok (holds t.current t.freed i)

  unfoldable pub get : A → Table A → ℤ → Run A
  get zero_item t i = do
    assert (is_index i)
    is_key ← has_key t i
    if is_key then read_item t.data_items i else ok zero_item

  pub is_empty_table : Table A → Bool
  is_empty_table t = equal_ℤ t.current (pos 0)

  abbrev pub forget : Table A → ℤ → Run (Table A)
  forget t i =
      let last = t.current -ℤ pos 1 in
      let shrunk : Run (Table A) = (do
        (current, freed) ← shrink (suc (length t.freed.nodes)) (last -ℤ pos 1) last t.freed
        ok (record t { current = current; freed = freed })) in
      if equal_ℤ i last then shrunk else ok (record t { freed = sorted_insert t.freed i i })

  unfoldable pub remove : A → Table A → ℤ → Run (A × Table A)
  remove zero_item t i = do
    assert (is_index i)
    is_key ← has_key t i
    let removed : Run (A × Table A) = (do
      t' ← forget t i
      item ← read_item t'.data_items i
      ok (item, t'))
    if not is_key then ok (zero_item, t) else removed

  unfoldable pub update : Table A → ℤ → A → Run (A × Table A)
  update t i item = do
    assert (is_index i)
    assert (ltb_ℤ i t.current)
    assert (not (has equal_ℤ t.freed i))
    previous ← read_item t.data_items i
    items ← write_item t.data_items i item
    ok (previous, record t { data_items = items })

  pub get_table_size : Table A → ℤ
  get_table_size t = t.current -ℤ get_size t.freed

  -- The loop of `getValues`, with the rounds left.
  unfoldable pub values_from : ℕ → ℕ → Table A → LinkedList A → Run (LinkedList A)
  values_from zero i t values = ok values
  values_from (suc rounds) i t values =
      let kept : Run (LinkedList A) = (do
        item ← read_item t.data_items (pos i)
        values_from rounds (i + 1) t (append values item)) in
      let skipped = values_from rounds (i + 1) t values in
      if not (has equal_ℤ t.freed (pos i)) then kept else skipped

  pub get_values : Table A → Run (LinkedList A)
  unfolding values_from
  get_values t = values_from (rounds_to t.current) 0 t LinkedList.empty
