-- ===== src/Malloc.antt =====
-- The allocator of src/lib/malloc.c: the heap's state, `init_heap`, `heapUsed`, `heapSize`, `malloc` and
-- `free`.
--
-- A quadword of the map holds 32 entries of two bits, so entry `e` of the map is bits 2 (e % 32) and
-- 2 (e % 32) + 1 of quadword `e / 32`, and a mask of `n` pairs of ones is a run of `n` entries. `entry`
-- is defined at every index: behind the map it is the memory that lies there, which the code can reach.
-- Addresses are bounded by the memory, so sums of them do not wrap.
pub mod Runs
pub mod Fit
pub mod Free
pub mod Used
pub mod Palloc
pub mod Realloc
pub mod Shrink
pub mod Init
pub mod Overrun
mod Tests
use Prim.Native.Nat.{bit_or}
use dar_os.Base.{
  ℕ, zero, suc, ◌+◌, ◌-◌, ◌*◌, ◌/◌, ◌%◌, Bool, true, false, not, ◌&&◌, ◌||◌, Option, none, some,
  ◌==◌, ltb, leb, if◌then◌else◌,
}

abbrev pub blk_sz : ℕ
blk_sz = 128

-- The entries of a quadword, `64 / MAP_ENTRY_SZ`, and the bytes that they stand for.
abbrev pub per_quad : ℕ
per_quad = 32

abbrev pub qblk_sz : ℕ
qblk_sz = 4096

abbrev pub bfree : ℕ
bfree = 0

abbrev pub bpart : ℕ
bpart = 3

abbrev pub bend : ℕ
bend = 2

abbrev pub blocks_per : (region_sz block_sz : ℕ) → ℕ
blocks_per region_sz block_sz = region_sz / block_sz + (if region_sz % block_sz == 0 then 0 else 1)

pub record Heap : Type 0 where
  pub entry : ℕ → ℕ
  pub map_size : ℕ
  pub heap : ℕ

-- `kernel` says whether KERNEL is defined. What the memory holds at first is `junk`.
unfoldable pub init_heap : (kernel : Bool) (junk : ℕ → ℕ) (start size : ℕ) → Heap
init_heap kernel junk start size =
    let map_size = size / (qblk_sz / 8 + 1) / 8 in
    let heap = start + 8 * map_size in
    record {
      entry = λ e. if ltb e (per_quad * map_size) then 0 else junk e;
      map_size = map_size;
      heap = if kernel && not (heap % 0x1000 == 0) then (heap + 0x1000) / 0x1000 * 0x1000 else heap;
    }

-- The entries in use among `n` from `e` on. The source goes through them quadword by quadword, and
-- passes over a quadword of zeros at once.
unfoldable pub count_used : (n e : ℕ) → (ℕ → ℕ) → ℕ
count_used zero e f = 0
count_used (suc n) e f = (if f e == 0 then 0 else 1) + count_used n (e + 1) f

unfoldable pub heap_used : Heap → ℕ
unfolding count_used
heap_used h = count_used (per_quad * h.map_size) 0 h.entry * blk_sz

unfoldable pub heap_size : Heap → ℕ
heap_size h = h.map_size * qblk_sz

-- `!(map[i] & mask)` for a mask of `n` entries from entry `e` on.
unfoldable pub is_free : (ℕ → ℕ) → (e n : ℕ) → Bool
is_free f e zero = true
is_free f e (suc n) = f e == 0 && is_free f (e + 1) n

-- The loop over `need > 64 / MAP_ENTRY_SZ`: `rounds` quadwords from `i` on have to be free. It gives
-- `i` where it stops, and whether all of them are free.
unfoldable pub whole_quads : (rounds i : ℕ) → (ℕ → ℕ) → Bool × ℕ
whole_quads zero i f = (true, i)
whole_quads (suc n) i f =
    let rest = whole_quads n (i + 1) f in
    if is_free f (per_quad * i) per_quad then rest else (false, i)

-- The loop over `j`, with `n` rounds left: a place for `need` entries in quadword `i`. Where more than
-- a quadword is needed, it is entry 0 or none.
unfoldable pub place : (n j : ℕ) (needed need i : ℕ) → (ℕ → ℕ) → Option ℕ
place zero j needed need i f = none
place (suc n) j needed need i f =
    let rest = place n (j + 1) needed need i f in
    if is_free f (per_quad * i + j) need then some j else if ltb per_quad needed then none else rest

-- `map[i] |= mask`, where the mask has `need` entries from `j` on, all ones but for the last entry's low
-- bit.
unfoldable pub set_mask : (i j need : ℕ) → (ℕ → ℕ) → ℕ → ℕ
set_mask i j need f e =
    if leb (per_quad * i + j) e && ltb e (per_quad * i + j + need)
    then bit_or (f e) (if e + 1 == per_quad * i + j + need then bend else bpart)
    else f e

-- `for (; needed > 32; needed -= 32, i--) map[i-1] = -1`, with `n` rounds.
unfoldable pub fill_quads : (n i : ℕ) → (ℕ → ℕ) → ℕ → ℕ
fill_quads zero i f = f
fill_quads (suc n) i f = fill_quads n (i - 1) (λ e. if e / per_quad == i - 1 then bpart else f e)

-- The loop over `i`: where the block of `needed` entries is, and the map with the block in it. The
-- quadwords that remain bound its rounds, since `i` grows in each.
unfoldable pub search_quads : (fuel i : ℕ) (map_size needed : ℕ) → (ℕ → ℕ) → Option (ℕ × (ℕ → ℕ))
search_quads zero i map_size needed f = none
search_quads (suc fuel) i map_size needed f =
    let whole = (needed - 1) / per_quad in
    let need = needed - per_quad * whole in
    let (found, k) = whole_quads whole i f in
    let next = search_quads fuel (k + 1) map_size needed f in
    if leb map_size i
    then none
    else if found
    then elim (place (per_quad - (need - 1)) 0 needed need k f) [
      | none ↦ next
      | some j ↦ some (
        if whole == 0 then per_quad * k + j else per_quad * (k - whole),
        fill_quads whole k (set_mask k j need f),
      )
    ]
    else next

-- The pointer that `malloc` returns, 0 if there is no room, and the heap that it leaves. The mask that
-- its first loop makes is overwritten before it is used.
unfoldable pub malloc : (n_bytes : ℕ) → Heap → ℕ × Heap
malloc n_bytes h =
    if h.heap == 0 || n_bytes == 0
    then (0, h)
    else elim (search_quads h.map_size 0 h.map_size (blocks_per n_bytes blk_sz) h.entry) [
      | none ↦ (0, h)
      | some (e, f) ↦ (h.heap + e * blk_sz, record h { entry = f })
    ]

abbrev pub clear : (ℕ → ℕ) → ℕ → ℕ → ℕ
clear f e j = if j == e then bfree else f j

-- The loops of `free` from entry `e` on: it clears entries up to the first `BEND`; from an entry that
-- is neither `BPART` nor `BEND` it goes on at the next quadword. `none` means that `fuel` entries were
-- looked at and no `BEND` came.
unfoldable pub free_from : (fuel e : ℕ) → (ℕ → ℕ) → Option (ℕ → ℕ)
free_from zero e f = none
free_from (suc fuel) e f =
    let on = free_from fuel (e + 1) (clear f e) in
    let skip = free_from fuel ((e / per_quad + 1) * per_quad) f in
    if f e == bpart then on else if f e == bend then some (clear f e) else skip

-- The test on a pointer with which `free` and `dorealloc` begin: `p > heap + (n - 1) * BLK_SZ`, for a map
-- of `n` entries, is written without the difference.
unfoldable pub is_outside : ℕ → Heap → Bool
is_outside p h =
    h.heap == 0 || ltb p h.heap || ltb (h.heap + h.map_size * per_quad * blk_sz) (p + blk_sz)

unfoldable pub free : ℕ → Heap → Option Heap
free p h =
    if is_outside p h
    then some h
    else elim (free_from (per_quad * h.map_size + 1) ((p - h.heap) / blk_sz) h.entry) [
      | none ↦ none
      | some f ↦ some (record h { entry = f })
    ]
