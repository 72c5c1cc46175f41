-- ===== src/Malloc/Shrink.antt =====
-- `realloc` of src/lib/malloc.c to a smaller size.
use dar_os.Base.{
  ℕ, zero, suc, ◌+◌, ◌-◌, ◌*◌, ◌/◌, ◌≤◌, ◌<◌, ◌≡◌, ◌≢◌, ◌⊎◌, sym, ap, ap₂, fun_ext, ◌∙◌, true,
  false, some, arith, ◌==◌, write,
}
use dar_os.Malloc.{Heap, blk_sz, per_quad, bpart, bend, is_outside, malloc, heap_size}
use dar_os.Malloc.Runs.{with_block, FreeRun}
use dar_os.Malloc.Free.{
  pos_suc, blocks, Granted, malloc-Granted, head-part, head-end, clear-last, clear-with_block,
  entry-block, pointer-entry, inside-Granted,
}
use dar_os.Malloc.Realloc.{stay, scan, do_realloc, realloc}

-- Once it frees, the scan clears what is left of the block.
scan-freeing :
    (n fuel e count nbc : ℕ) (f : ℕ → ℕ)
    → FreeRun f e (suc n)
    → n < fuel
    → scan fuel e count true nbc (with_block f e (suc n)) ≡ stay f
unfolding scan
scan-freeing n zero e count nbc f run lt = absurd (omega arith)
scan-freeing zero (suc fuel) e count nbc f run lt =
    rw (head-end f e) (ap stay (fun_ext (clear-last f e (run e (omega arith) (omega arith)))))
scan-freeing (suc n) (suc fuel) e count nbc f run lt = rw (head-part f e n) (
    ap (scan fuel (e + 1) (count + 1) true nbc)
      (fun_ext (clear-with_block f e n (run e (omega arith) (omega arith))))
    ∙ scan-freeing n fuel (e + 1) (count + 1) nbc f (λ j p q. run j (omega arith) (omega arith))
        (omega arith))

-- A block's first entry may as well be counted to the map behind it.
end-first :
    (f : ℕ → ℕ) (e n j : ℕ)
    → write (with_block f e (suc (suc n))) e bend j ≡ with_block (write f e bend) (e + 1) (suc n) j
unfolding with_block
end-first f e n j = ground arith

part-first :
    (f : ℕ → ℕ) (e n j : ℕ)
    → with_block f e (suc (suc n)) j ≡ with_block (write f e bpart) (e + 1) (suc n) j
unfolding with_block
part-first f e n j = ground arith

block-one : (f : ℕ → ℕ) (e j : ℕ) → write f e bend j ≡ with_block f e 1 j
unfolding with_block
block-one f e j = ground arith

write-FreeRun : (f : ℕ → ℕ) (e n v : ℕ) → FreeRun f e (suc n) → FreeRun (write f e v) (e + 1) n
write-FreeRun f e n v run j p q = ground (arith, run j)

cut_now : (count nbc : ℕ) → nbc ≡ suc (count + 0) → (count + 1 == nbc) ≡ true
cut_now count nbc e = ground arith

cut_later : (count nbc m : ℕ) → nbc ≡ suc (count + suc m) → (count + 1 == nbc) ≡ false
cut_later count nbc m e = ground arith

-- With `m + 1` blocks still to keep out of more, the scan leaves a block of `m + 1` entries.
scan-cut :
    (m k fuel e count nbc : ℕ) (f : ℕ → ℕ)
    → FreeRun f e (suc k)
    → m < k
    → k < fuel
    → nbc ≡ suc (count + m)
    → scan fuel e count false nbc (with_block f e (suc k)) ≡ stay (with_block f e (suc m))
unfolding scan
scan-cut m k zero e count nbc f run lt enough en = absurd (omega arith)
scan-cut m zero (suc fuel) e count nbc f run lt enough en = absurd (omega arith)
scan-cut zero (suc k) (suc fuel) e count nbc f run lt enough en =
    rw (head-part f e k, cut_now count nbc en)
      (ap (scan fuel (e + 1) (count + 1) true nbc) (fun_ext (end-first f e k))
        ∙ scan-freeing k fuel (e + 1) (count + 1) nbc (write f e bend)
            (write-FreeRun f e (suc k) bend run) (omega arith)
        ∙ ap stay (fun_ext (block-one f e)))
scan-cut (suc m) (suc k) (suc fuel) e count nbc f run lt enough en =
    rw (head-part f e k, cut_later count nbc m en)
      (ap (scan fuel (e + 1) (count + 1) false nbc) (fun_ext (part-first f e k))
        ∙ scan-cut m k fuel (e + 1) (count + 1) nbc (write f e bpart)
            (write-FreeRun f e (suc k) bpart run) (omega arith) (omega arith) (omega arith)
        ∙ ap stay (fun_ext (λ j. sym (part-first f e m j))))

realloc-stay :
    (p new_size : ℕ) (h : Heap) (mem : ℕ → ℕ) (f : ℕ → ℕ)
    → is_outside p h ≡ false
    → scan (per_quad * h.map_size + 1) ((p - h.heap) / blk_sz) 0 false (blocks new_size) h.entry
      ≡ stay f
    → realloc p new_size h mem ≡ some (p, record h { entry = f }, mem)
unfolding realloc do_realloc
realloc-stay p new_size h mem f o s = rw (o, s)

module _ {n_bytes : ℕ} {h : Heap} {e : ℕ} {r : ℕ × Heap} (g : Granted n_bytes h e r)
    (new_size : ℕ) where
  module _ (pos : 0 < new_size) (less : blocks new_size < blocks n_bytes) where
    some-blocks : 0 < blocks new_size
    some-blocks = ground arith

    scan-Granted :
        e + blocks n_bytes ≤ per_quad * h.map_size
        → scan
            (per_quad * r.1.map_size + 1)
            ((r.0 - r.1.heap) / blk_sz)
            0
            false
            (blocks new_size)
            r.1.entry
          ≡ stay (with_block h.entry e (suc (blocks new_size - 1)))
    scan-Granted fit =
        ap₂ (λ x f. scan (per_quad * r.1.map_size + 1) x 0 false (blocks new_size) f)
          (pointer-entry g) (entry-block g)
        ∙ scan-cut (blocks new_size - 1) (blocks n_bytes - 1) (per_quad * r.1.map_size + 1) e 0
            (blocks new_size) h.entry (λ j p q. g.fits.run j p (omega (arith, g.nonempty)))
            (omega (arith, some-blocks)) (omega (arith, g.nonempty, g.unmoved.1))
            (omega (arith, some-blocks))

    cut-heap :
        record r.1 { entry = with_block h.entry e (suc (blocks new_size - 1)) }
        ≡ record h { entry = with_block h.entry e (blocks new_size) }
    cut-heap =
        ground
          (arith, g.unmoved.0, g.unmoved.1, ap (with_block h.entry e) (sym (pos_suc some-blocks)))

-- Making a block smaller as soon as `malloc` has returned it keeps its pointer and all of memory, and
-- leaves the heap with a block of the blocks that the new size needs: the others are free again. The new
-- size is not 0 and needs fewer blocks, and the
-- request is for a quadword's blocks at most, or the block that was granted ends within the heap.
pub realloc-shrink :
    (n_bytes new_size : ℕ) (h : Heap) (mem : ℕ → ℕ)
    → (malloc n_bytes h).0 ≢ 0
    → (n_bytes ≤ 4096) ⊎ ((malloc n_bytes h).0 + blocks n_bytes * blk_sz ≤ h.heap + heap_size h)
    → 0 < new_size
    → blocks new_size < blocks n_bytes
    → (e : ℕ) × ((malloc n_bytes h).0 ≡ h.heap + e * blk_sz)
      × (realloc (malloc n_bytes h).0 new_size (malloc n_bytes h).1 mem
          ≡ some (
            (malloc n_bytes h).0,
            record h { entry = with_block h.entry e (blocks new_size) },
            mem,
          ))
unfolding heap_size
realloc-shrink n_bytes new_size h mem ne fit pos less =
    let (e, g) = malloc-Granted n_bytes h ne in
    (
      e,
      g.pointer,
      realloc-stay (malloc n_bytes h).0 new_size (malloc n_bytes h).1 mem _ (inside-Granted g)
            (scan-Granted g new_size pos less (ground (arith, g.fits.inside, g.pointer)))
          ∙ ap (λ k. some ((malloc n_bytes h).0, k, mem)) (cut-heap g new_size pos less),
    )
