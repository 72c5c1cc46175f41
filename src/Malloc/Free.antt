-- ===== src/Malloc/Free.antt =====
-- `free` of src/lib/malloc.c on what `malloc` has returned, and what that is.
use dar_os.Base.{
  ℕ, zero, suc, ◌+◌, ◌-◌, ◌*◌, ◌/◌, ◌≤◌, ◌<◌, ◌≡◌, ◌≢◌, ◌⊎◌, refl, ap, ap₂, fun_ext, ◌∙◌, true,
  false, none, some, ◌||◌, arith, ◌==◌, Bool-cases, Option-cases, inl, inr,
}
use dar_os.Malloc.{
  Heap, blk_sz, per_quad, bfree, bpart, bend, blocks_per, clear, free_from, is_outside, free,
  malloc, search_quads, heap_size,
}
use dar_os.Malloc.Runs.{with_block, FreeRun}
use dar_os.Malloc.Fit.{Fits, search_quads-Fits}

pub pos_suc : {n : ℕ} → 0 < n → n ≡ suc (n - 1)
pos_suc h = omega arith

pub clear-with_block :
    (f : ℕ → ℕ) (e n : ℕ)
    → f e ≡ bfree
    → (j : ℕ) → clear (with_block f e (suc (suc n))) e j ≡ with_block f (e + 1) (suc n) j
unfolding with_block
clear-with_block f e n z j = ground arith

pub clear-last : (f : ℕ → ℕ) (e : ℕ) → f e ≡ bfree → (j : ℕ) → clear (with_block f e 1) e j ≡ f j
unfolding with_block
clear-last f e z j = ground arith

pub head-part : (f : ℕ → ℕ) (e n : ℕ) → with_block f e (suc (suc n)) e ≡ bpart
unfolding with_block
head-part f e n = ground arith

pub head-end : (f : ℕ → ℕ) (e : ℕ) → with_block f e 1 e ≡ bend
unfolding with_block
head-end f e = ground arith

-- With fuel for its entries, freeing a block that was put on a free run leaves the map as it was.
pub free_from-with_block :
    (n fuel e : ℕ) (f : ℕ → ℕ)
    → FreeRun f e (suc n)
    → n < fuel
    → free_from fuel e (with_block f e (suc n)) ≡ some f
unfolding free_from
free_from-with_block n zero e f run lt = absurd (omega arith)
free_from-with_block zero (suc fuel) e f run lt =
    rw (head-end f e) (ap some (fun_ext (clear-last f e (run e (omega arith) (omega arith)))))
free_from-with_block (suc n) (suc fuel) e f run lt = rw (head-part f e n) (
    ap (free_from fuel (e + 1))
      (fun_ext (clear-with_block f e n (run e (omega arith) (omega arith))))
    ∙ free_from-with_block n fuel (e + 1) f (λ j p q. run j (omega arith) (omega arith))
        (omega arith))

abbrev pub blocks : ℕ → ℕ
blocks n_bytes = blocks_per n_bytes blk_sz

-- What a call of `malloc` that returns a pointer has done: `e` is the entry of the pointer.
pub record Granted (n_bytes : ℕ) (h : Heap) (e : ℕ) (r : ℕ × Heap) : Type 0 where
  pub set_up : h.heap ≢ 0
  pub pointer : r.0 ≡ h.heap + e * blk_sz
  pub unmoved : (r.1.heap ≡ h.heap) × (r.1.map_size ≡ h.map_size)
  pub nonempty : 0 < blocks n_bytes
  pub fits : Fits h.map_size h.entry (blocks n_bytes) e r.1.entry

malloc-null :
    (n_bytes : ℕ) (h : Heap) → (h.heap == 0 || n_bytes == 0) ≡ true → (malloc n_bytes h).0 ≡ 0
unfolding malloc
malloc-null n_bytes h e = rw e

malloc-full :
    (n_bytes : ℕ) (h : Heap)
    → (h.heap == 0 || n_bytes == 0) ≡ false
    → search_quads h.map_size 0 h.map_size (blocks n_bytes) h.entry ≡ none
    → malloc n_bytes h ≡ (0, h)
unfolding malloc
malloc-full n_bytes h e s = rw (e, s)

pub malloc-found :
    (n_bytes : ℕ) (h : Heap) (e : ℕ) (g : ℕ → ℕ)
    → (h.heap == 0 || n_bytes == 0) ≡ false
    → search_quads h.map_size 0 h.map_size (blocks n_bytes) h.entry ≡ some (e, g)
    → malloc n_bytes h ≡ (h.heap + e * blk_sz, record h { entry = g })
unfolding malloc
malloc-found n_bytes h e g t s = rw (t, s)

-- A pointer that `malloc` returns is that of a run of entries that were free, as many as the request
-- needs; afterwards they are marked as a block, all other entries are as before, and a block of up to
-- a quadword's entries lies within the map.
pub malloc-Granted :
    (n_bytes : ℕ) (h : Heap)
    → (malloc n_bytes h).0 ≢ 0
    → (e : ℕ) × Granted n_bytes h e (malloc n_bytes h)
malloc-Granted n_bytes h ne = elim (Bool-cases (h.heap == 0 || n_bytes == 0)) [
  | inl null ↦ absurd (ne (malloc-null n_bytes h null))
  | inr t ↦ elim (Option-cases (search_quads h.map_size 0 h.map_size (blocks n_bytes) h.entry)) [
    | inl full ↦ absurd (ne (ap (λ r. r.0) (malloc-full n_bytes h t full)))
    | inr ((e, g), s) ↦ (
      e,
      rw (malloc-found n_bytes h e g t s) (record {
        set_up = ground arith;
        pointer = refl;
        unmoved = (refl, refl);
        nonempty = some_blocks n_bytes h t;
        fits =
            search_quads-Fits h.map_size 0 h.map_size (blocks n_bytes) h.entry e g
              (some_blocks n_bytes h t) s;
      }),
    )
  ]
]
  where
    some_blocks : (n : ℕ) (k : Heap) → (k.heap == 0 || n == 0) ≡ false → 0 < blocks n
    some_blocks n k t = ground arith

pub free-found :
    (p : ℕ) (h : Heap) (f : ℕ → ℕ)
    → is_outside p h ≡ false
    → free_from (per_quad * h.map_size + 1) ((p - h.heap) / blk_sz) h.entry ≡ some f
    → free p h ≡ some (record h { entry = f })
unfolding free
free-found p h f o s = rw (o, s)

module _ {n_bytes : ℕ} {h : Heap} {e : ℕ} {r : ℕ × Heap} (g : Granted n_bytes h e r) where
  pub entry-block : r.1.entry ≡ with_block h.entry e (suc (blocks n_bytes - 1))
  entry-block =
      fun_ext λ j. g.fits.block j ∙ ap (λ n. with_block h.entry e n j) (pos_suc g.nonempty)

  pub pointer-entry : (r.0 - r.1.heap) / blk_sz ≡ e
  pointer-entry = omega (arith, g.pointer, g.unmoved.0)

  free_from-Granted :
      e + blocks n_bytes ≤ per_quad * h.map_size
      → free_from (per_quad * r.1.map_size + 1) ((r.0 - r.1.heap) / blk_sz) r.1.entry ≡ some h.entry
  free_from-Granted fit =
      ap₂ (free_from (per_quad * r.1.map_size + 1)) pointer-entry entry-block
      ∙ free_from-with_block (blocks n_bytes - 1) (per_quad * r.1.map_size + 1) e h.entry
          (λ j p q. g.fits.run j p (omega (arith, g.nonempty)))
          (omega (arith, g.nonempty, g.unmoved.1))

  pub inside-Granted : is_outside r.0 r.1 ≡ false
  unfolding is_outside
  inside-Granted = ground (arith, g.pointer, g.unmoved.0, g.unmoved.1, g.fits.start, g.set_up)

  free-Granted : e + blocks n_bytes ≤ per_quad * h.map_size → free r.0 r.1 ≡ some h
  free-Granted fit =
      free-found r.0 r.1 h.entry inside-Granted (free_from-Granted fit)
      ∙ ap some (ground (arith, g.unmoved.0, g.unmoved.1))

-- Freeing a pointer as soon as `malloc` has returned it gives back the heap from before, if the request
-- is for a quadword's blocks at most, or if the block that was granted ends within the heap.
pub free-malloc :
    (n_bytes : ℕ) (h : Heap)
    → (malloc n_bytes h).0 ≢ 0
    → (n_bytes ≤ 4096) ⊎ ((malloc n_bytes h).0 + blocks n_bytes * blk_sz ≤ h.heap + heap_size h)
    → free (malloc n_bytes h).0 (malloc n_bytes h).1 ≡ some h
unfolding heap_size
free-malloc n_bytes h ne fit =
    let (e, g) = malloc-Granted n_bytes h ne in
    free-Granted g (ground (arith, g.fits.inside, g.pointer))
