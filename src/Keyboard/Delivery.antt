-- ===== src/Keyboard/Delivery.antt =====
-- The bytes of the keyboard on their way from the interrupt of src/kernel/interrupt.c to `keyScanned`.
use dar_os.Base.{
  ℕ, zero, suc, ◌≤◌, ◌≡◌, ◌≢◌, refl, ap, ◌∙◌, sym, subst, ◌==◌, true, false, List, [], ◌∷◌, ◌++◌,
  map, length, length-append, append_assoc, append-nil, arith,
}
use dar_os.Queue.{pop, push}
use dar_os.Queue.Fifo.{contents, dequeue, not_full, push-count, pop-count, push-room, pop_refines}
use dar_os.Keyboard.Scan.{scan_all}
use dar_os.Keyboard.Work.{
  Pending, Event, scanned, due, work, irq1_kbd, process_keys, run, step, handle_all,
}
use dar_os.Keyboard.Matched.{
  codes_of, rounds, empty-nil, dequeue-shorter, byte, after, total, keys_in, Matched, Other, Others,
  keys_in-snoc, keys_in-dequeue, Kept, run-Kept,
}

module _ (keys : ℕ) (junk : ℕ → ℕ) (ne : keys ≢ 0) where
  key-Kept :
      (n code : ℕ) (s : Pending)
      → Matched keys (suc n) s
      → Kept keys n s (irq1_kbd keys junk code s) (code ∷ [])
  unfolding irq1_kbd
  key-Kept n code s m =
      let work_free = not_full s.wq m.wq (omega (arith, m.wq_room)) in
      let buf_free = not_full s.kbd_buf m.kbd_buf (omega (arith, m.buf_room)) in
      let (fs, wq) = push-room junk keys m.wq work_free in
      let (cs, buf) = push-room junk code m.kbd_buf buf_free in
      let wq_more = push-count junk s.wq keys m.wq work_free in
      let buf_more = push-count junk s.kbd_buf code m.kbd_buf buf_free in
      let self : (keys == keys) ≡ true = ground arith in
      let more = keys_in-snoc keys (contents s.wq) keys in
      let len = length-append (contents s.kbd_buf) (code ∷ []) in
      record {
        total_same = λ xs.
            ap (λ ys. after s.acts s.kbd (map byte ys))
              (ap (λ ys. ys ++ xs) cs ∙ append_assoc (contents s.kbd_buf) (code ∷ []) xs);
        matched = record {
          wq = wq;
          kbd_buf = buf;
          wq_room = omega (arith, wq_more.0, wq_more.1, m.wq_room);
          buf_room = omega (arith, buf_more.0, buf_more.1, m.buf_room);
          same =
              ap (keys_in keys) fs
              ∙ more
              ∙ rw self (omega (arith, m.same, len))
              ∙ sym (ap length cs);
        };
      }

  due-Kept :
      (n f : ℕ) (s : Pending)
      → f ≢ keys
      → Matched keys (suc n) s
      → Kept keys n s (record s { wq = push junk s.wq f }) []
  due-Kept n f s other m =
      let free = not_full s.wq m.wq (omega (arith, m.wq_room)) in
      let (fs, wq) = push-room junk f m.wq free in
      let more = push-count junk s.wq f m.wq free in
      let differs : (f == keys) ≡ false = ground arith in
      let kept = keys_in-snoc keys (contents s.wq) f in
      record {
        total_same = λ xs. refl;
        matched = record {
          wq = wq;
          kbd_buf = m.kbd_buf;
          wq_room = omega (arith, more.0, more.1, m.wq_room);
          buf_room = omega (arith, m.buf_room);
          same = ap (keys_in keys) fs ∙ kept ∙ rw differs (omega (arith, m.same));
        };
      }

  work-Kept : (n : ℕ) (s : Pending) → Matched keys n s → Kept keys n s (step keys junk work s) []
  unfolding step
  work-Kept n s m =
      let (e, wq, _) = pop_refines m.wq in
      let less = pop-count s.wq m.wq in
      let same : keys_in keys ((pop s.wq).0 ∷ contents (pop s.wq).1) ≡ length (contents s.kbd_buf) =
        ap (λ p. keys_in keys (p.0 ∷ p.1)) e ∙ keys_in-dequeue keys (contents s.wq) ne ∙ m.same in
      let kept =
        run-Kept keys n (pop s.wq).0 (record s { wq = (pop s.wq).1 }) wq m.kbd_buf
          (omega (arith, less.0, less.1, m.wq_room)) m.buf_room ne same in
      record { total_same = kept.total_same; matched = kept.matched }

  step-Kept :
      (n : ℕ) (e : Event) (s : Pending)
      → Other keys e
      → Matched keys (suc n) s
      → Kept keys n s (step keys junk e s) (codes_of (e ∷ []))
  unfolding step codes_of Other
  step-Kept n (scanned code) s o m = key-Kept n code s m
  step-Kept n (due f) s o m = due-Kept n f s o m
  step-Kept n work s o m = work-Kept n s (record {
    wq = m.wq;
    kbd_buf = m.kbd_buf;
    wq_room = omega (arith, m.wq_room);
    buf_room = omega (arith, m.buf_room);
    same = m.same;
  })

  codes_of-cons :
      (e : Event) (es : List Event) → codes_of (e ∷ es) ≡ codes_of (e ∷ []) ++ codes_of es
  unfolding codes_of
  codes_of-cons (scanned code) es = refl
  codes_of-cons (due f) es = refl
  codes_of-cons work es = refl

  -- Any events, for which the queues have room, keep the total and the invariant.
  handle_all-total :
      (es : List Event) (s : Pending)
      → Others keys es
      → Matched keys (length es) s
      → (total (handle_all keys junk es s) [] ≡ total s (codes_of es))
        × Matched keys 0 (handle_all keys junk es s)
  unfolding handle_all Others codes_of
  handle_all-total [] s o m = (refl, m)
  handle_all-total (e ∷ es) s (o, os) m =
      let kept = step-Kept (length es) e s o m in
      let (same, m') = handle_all-total es (step keys junk e s) os kept.matched in
      (same ∙ kept.total_same (codes_of es) ∙ ap (λ cs. total s cs) (sym (codes_of-cons e es)), m')

  rounds-total :
      (n m : ℕ) (s : Pending)
      → Matched keys m s
      → let s' = handle_all keys junk (rounds n) s in (total s' [] ≡ total s []) × Matched keys m s'
  unfolding rounds handle_all
  rounds-total zero m s matched = (refl, matched)
  rounds-total (suc n) m s matched =
      let kept = work-Kept m s matched in
      let (same, m') = rounds-total n m (step keys junk work s) kept.matched in
      (same ∙ kept.total_same [], m')

  step-wq : (s : Pending) → (step keys junk work s).wq ≡ (pop s.wq).1
  unfolding step run process_keys
  step-wq s = ground arith

  rounds-drained :
      (n m : ℕ) (s : Pending)
      → Matched keys m s
      → length (contents s.wq) ≤ n
      → contents (handle_all keys junk (rounds n) s).wq ≡ []
  unfolding rounds handle_all
  rounds-drained zero m s matched le = empty-nil (contents s.wq) (omega (arith, le))
  rounds-drained (suc n) m s matched le =
      let kept = work-Kept m s matched in
      let (e, _, _) = pop_refines matched.wq in
      let rest : contents (step keys junk work s).wq ≡ (dequeue (contents s.wq)).1 =
        ap contents (step-wq s) ∙ ap (λ p. p.1) e in
      rounds-drained n m (step keys junk work s) kept.matched
        (subst (λ fs. length fs ≤ n) (sym rest) (dequeue-shorter (contents s.wq) n le))

  drained-total :
      (s : Pending) → Matched keys 0 s → contents s.wq ≡ [] → total s [] ≡ (s.kbd, s.acts)
  unfolding keys_in scan_all
  drained-total s m e =
      let none : length (contents s.kbd_buf) ≡ 0 = sym m.same ∙ ap (keys_in keys) e in
      let empty = empty-nil (contents s.kbd_buf) (omega (arith, none)) in
      ap (λ cs. after s.acts s.kbd (map byte (cs ++ []))) empty
      ∙ ap (λ xs. (s.kbd, xs)) (append-nil s.acts)

  -- From a state in which `process_keys` is queued once for each byte that waits, after any interrupts of the keyboard and the
  -- timer and rounds of `waitloop` between them, for which the queues have room, and as many rounds more as work is queued
  -- then, the keyboard and all that scanning has done are as if the bytes that waited at first and those that came had
  -- been scanned one after another. Other work is not `process_keys`, whose address is not null.
  pub handle_all-scanned :
      (es : List Event) (s : Pending) (n : ℕ)
      → Others keys es
      → Matched keys (length es) s
      → length (contents (handle_all keys junk es s).wq) ≤ n
      → let s' = handle_all keys junk (rounds n) (handle_all keys junk es s) in
        (s'.kbd, s'.acts) ≡ total s (codes_of es)
  handle_all-scanned es s n o m le =
      let s1 = handle_all keys junk es s in
      let s2 = handle_all keys junk (rounds n) s1 in
      let (same, m1) = handle_all-total es s o m in
      let (kept, m2) = rounds-total n 0 s1 m1 in
      sym (drained-total s2 m2 (rounds-drained n 0 s1 m1 le)) ∙ kept ∙ same
