-- ===== src/Malloc/Realloc.antt =====
-- `dorealloc`, `realloc`, `reallocz` and `mallocz` of src/lib/malloc.c. Memory is a function from the
-- number of a quadword, its address over 8, to its value.
use dar_os.Base.{
  ◌-◌, ℕ, zero, suc, ◌+◌, ◌*◌, ◌/◌, Bool, true, false, Option, none, some, ◌==◌, if◌then◌else◌,
  write,
}
use dar_os.Malloc.{Heap, blk_sz, per_quad, bpart, bend, blocks_per, clear, is_outside, free, malloc}

-- How the loops of `dorealloc` over the block's entries end: the block stays where it is, with the map
-- that they leave; it has `count` entries and has to move; or no `BEND` came in `fuel` entries.
pub data Scanned : Type 0 where
  stay : (ℕ → ℕ) → Scanned
  move : (count : ℕ) → (ℕ → ℕ) → Scanned
  lost : Scanned

-- `nbc` is the number of blocks wanted. `map[n] &= ~(1ull << o)` makes a `BPART` a `BEND`.
unfoldable pub scan : (fuel e : ℕ) (count : ℕ) (freeing : Bool) (nbc : ℕ) → (ℕ → ℕ) → Scanned
scan zero e count freeing nbc f = lost
scan (suc fuel) e count freeing nbc f =
    let cut = count + 1 == nbc in
    let drop = scan fuel (e + 1) (count + 1) true nbc (clear f e) in
    let begin = scan fuel (e + 1) (count + 1) true nbc (write f e bend) in
    let keep = scan fuel (e + 1) (count + 1) false nbc f in
    let skip = scan fuel ((e / per_quad + 1) * per_quad) count freeing nbc f in
    if f e == bpart
    then if freeing then drop else if cut then begin else keep
    else if f e == bend
    then if freeing then stay (clear f e) else if cut then stay f else move (count + 1) f
    else skip

-- `q[i] = p[i]`, and `q[i] = 0`, for `n` quadwords from number `i` on.
unfoldable pub copy_quads : (n q p i : ℕ) → (ℕ → ℕ) → ℕ → ℕ
copy_quads zero q p i mem = mem
copy_quads (suc n) q p i mem = copy_quads n q p (i + 1) (write mem (q / 8 + i) (mem (p / 8 + i)))

unfoldable pub zero_quads : (n q i : ℕ) → (ℕ → ℕ) → ℕ → ℕ
zero_quads zero q i mem = mem
zero_quads (suc n) q i mem = zero_quads n q (i + 1) (write mem (q / 8 + i) 0)

-- The rounds of `for (; i < n; i++)`.
abbrev pub rounds_from : (i n : ℕ) → ℕ
rounds_from i n = n - i

-- The branch that moves a block of `count` entries. `none` is a write through the null pointer that
-- `malloc` may return, or a loop of `free` that does not end.
unfoldable pub move_block :
    (p new_size : ℕ) (zeroed : Bool) (count : ℕ) → Heap → (ℕ → ℕ) → Option (ℕ × Heap × (ℕ → ℕ))
move_block p new_size zeroed count h mem =
    let (q, h') = malloc new_size h in
    let n = count * blk_sz / 8 in
    let copied = copy_quads n q p 0 mem in
    let filled = if zeroed then zero_quads (rounds_from n (new_size / 8)) q n copied else copied in
    if q == 0 then none else elim (free p h') [ none ↦ none | some h'' ↦ some (q, h'', filled) ]

unfoldable pub do_realloc :
    (p new_size : ℕ) (zeroed : Bool) → Heap → (ℕ → ℕ) → Option (ℕ × Heap × (ℕ → ℕ))
do_realloc p new_size zeroed h mem =
    if is_outside p h
    then some (0, h, mem)
    else elim (scan (per_quad * h.map_size + 1) ((p - h.heap) / blk_sz) 0 false
        (blocks_per new_size blk_sz) h.entry) [
          | stay f ↦ some (p, record h { entry = f }, mem)
          | move count f ↦ move_block p new_size zeroed count (record h { entry = f }) mem
          | lost ↦ none
        ]

unfoldable pub realloc : (p new_size : ℕ) → Heap → (ℕ → ℕ) → Option (ℕ × Heap × (ℕ → ℕ))
realloc p new_size h mem = do_realloc p new_size false h mem

unfoldable pub reallocz : (p new_size : ℕ) → Heap → (ℕ → ℕ) → Option (ℕ × Heap × (ℕ → ℕ))
reallocz p new_size h mem = do_realloc p new_size true h mem

unfoldable pub mallocz : ℕ → Heap → (ℕ → ℕ) → ℕ × Heap × (ℕ → ℕ)
mallocz n_bytes h mem =
    let (p, h') = malloc n_bytes h in
    if p == 0 then (0, h', mem) else (p, h', zero_quads (blocks_per n_bytes 8) p 0 mem)
