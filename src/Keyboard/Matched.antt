-- ===== src/Keyboard/Matched.antt =====
-- The bytes of the keyboard that wait in src/kernel/interrupt.c, and how often `process_keys` is queued for them.
use dar_os.Base.{
  ℕ, zero, suc, ◌+◌, ◌%◌, ◌<◌, ◌≤◌, ◌≡◌, ◌≢◌, refl, ap, ◌∙◌, sym, ◌==◌, false, if◌then◌else◌, List,
  [], ◌∷◌, ◌++◌, map, length, append_assoc, arith, Bool-cases, inl, inr,
}
use dar_os.Queue.{pop}
use dar_os.Queue.Fifo
use dar_os.Queue.Fifo.{
  contents, count, dequeue, not_full, push-count, pop-count, push-room, pop_refines,
}
use dar_os.Keyboard.Scan.{Kbd, Act, key_scanned, scan_all}
use dar_os.Keyboard.Work.{Pending, Event, scanned, due, work, process_keys, run}

-- The bytes that interrupts bring, in order.
unfoldable pub codes_of : List Event → List ℕ
codes_of [] = []
codes_of (scanned code ∷ es) = code ∷ codes_of es
codes_of (due f ∷ es) = codes_of es
codes_of (work ∷ es) = codes_of es

-- Rounds of the loop without an interrupt.
unfoldable pub rounds : ℕ → List Event
rounds zero = []
rounds (suc n) = work ∷ rounds n

pub empty-nil : (xs : List ℕ) → length xs ≤ 0 → xs ≡ []
empty-nil [] le = refl
empty-nil (x ∷ xs) le = absurd (omega arith)

pub dequeue-shorter : (fs : List ℕ) (n : ℕ) → length fs ≤ suc n → length (dequeue fs).1 ≤ n
unfolding dequeue
dequeue-shorter [] n le = omega arith
dequeue-shorter (f ∷ fs) n le = omega (arith, le)

abbrev pub byte : ℕ → ℕ
byte c = c % 256

-- The keyboard and all that scanning has done once these bytes are scanned too.
abbrev pub after : List Act → Kbd → List ℕ → Kbd × List Act
after acts k cs = ((scan_all cs k).0, acts ++ (scan_all cs k).1)

-- The same for the bytes that are waiting and then those given.
abbrev pub total : Pending → List ℕ → Kbd × List Act
total s cs = after s.acts s.kbd (map byte (contents s.kbd_buf ++ cs))

after-scanned :
    (acts : List Act) (k : Kbd) (c : ℕ) (cs : List ℕ)
    → after acts k (c ∷ cs) ≡ after (acts ++ (key_scanned c k).1) (key_scanned c k).0 cs
unfolding scan_all
after-scanned acts k c cs =
    let k' = (key_scanned c k).0 in
    ap (λ xs. ((scan_all cs k').0, xs))
      (sym (append_assoc acts (key_scanned c k).1 (scan_all cs k').1))

module _ (keys : ℕ) where
  -- How often `process_keys` is queued.
  unfoldable pub keys_in : List ℕ → ℕ
  keys_in [] = 0
  keys_in (f ∷ fs) = (if f == keys then 1 else 0) + keys_in fs

  -- It is queued as often as there are bytes, and both queues have room for `n` more.
  pub record Matched (n : ℕ) (s : Pending) : Type 0 where
    pub wq : Fifo.IsValid s.wq
    pub kbd_buf : Fifo.IsValid s.kbd_buf
    pub wq_room : count s.wq + n < s.wq.cap
    pub buf_room : count s.kbd_buf + n < s.kbd_buf.cap
    pub same : keys_in (contents s.wq) ≡ length (contents s.kbd_buf)

  -- Other work is not `process_keys`.
  unfoldable pub Other : Event → Type 0
  Other (scanned code) = Unit
  Other (due f) = f ≢ keys
  Other work = Unit

  unfoldable pub Others : List Event → Type 0
  Others [] = Unit
  Others (e ∷ es) = Other e × Others es

  pub keys_in-snoc :
      (fs : List ℕ) (f : ℕ) → keys_in (fs ++ (f ∷ [])) ≡ keys_in fs + (if f == keys then 1 else 0)
  unfolding keys_in
  keys_in-snoc [] f = omega arith
  keys_in-snoc (x ∷ fs) f = omega (arith, keys_in-snoc fs f)

  pub keys_in-dequeue :
      (fs : List ℕ) → keys ≢ 0 → keys_in ((dequeue fs).0 ∷ (dequeue fs).1) ≡ keys_in fs
  unfolding keys_in dequeue
  keys_in-dequeue [] ne = ground arith
  keys_in-dequeue (f ∷ fs) ne = refl

  dequeue-cons : (fs : List ℕ) → 0 < length fs → (dequeue fs).0 ∷ (dequeue fs).1 ≡ fs
  unfolding dequeue
  dequeue-cons [] lt = absurd (omega arith)
  dequeue-cons (f ∷ fs) lt = refl

  -- What an event keeps: the total and the invariant.
  pub record Kept (n : ℕ) (s s' : Pending) (codes : List ℕ) : Type 0 where
    pub total_same : (cs : List ℕ) → total s' cs ≡ total s (codes ++ cs)
    pub matched : Matched n s'

  process_keys-Kept :
      (n m : ℕ) (s : Pending)
      → Fifo.IsValid s.wq
      → Fifo.IsValid s.kbd_buf
      → count s.wq + n < s.wq.cap
      → count s.kbd_buf + n < s.kbd_buf.cap
      → length (contents s.kbd_buf) ≡ suc m
      → m ≡ keys_in (contents s.wq)
      → Kept n s (process_keys s) []
  unfolding process_keys
  process_keys-Kept n m s wq buf wq_room buf_room len same =
      let (e, v, _) = pop_refines buf in
      let code = (pop s.kbd_buf).0 in
      let rest = contents (pop s.kbd_buf).1 in
      let less = pop-count s.kbd_buf buf in
      let whole : code ∷ rest ≡ contents s.kbd_buf =
        ap (λ p. p.0 ∷ p.1) e ∙ dequeue-cons (contents s.kbd_buf) (omega (arith, len)) in
      record {
        total_same = λ cs.
            sym (after-scanned s.acts s.kbd (byte code) (map byte (rest ++ cs)))
            ∙ ap (λ xs. after s.acts s.kbd (map byte (xs ++ cs))) whole;
        matched = record {
          wq = wq;
          kbd_buf = v;
          wq_room = wq_room;
          buf_room = omega (arith, less);
          same = let l = ap length whole in omega (arith, l, len, same);
        };
      }

  pub run-Kept :
      (n f : ℕ) (s : Pending)
      → Fifo.IsValid s.wq
      → Fifo.IsValid s.kbd_buf
      → count s.wq + n < s.wq.cap
      → count s.kbd_buf + n < s.kbd_buf.cap
      → keys ≢ 0
      → keys_in (f ∷ contents s.wq) ≡ length (contents s.kbd_buf)
      → Kept n s (run keys f s) []
  unfolding run keys_in
  run-Kept n f s wq buf wq_room buf_room ne same = elim (Bool-cases (f == keys)) [
    | inl e ↦
        let some : (f == 0) ≡ false = ground arith in
        let len : length (contents s.kbd_buf) ≡ suc (keys_in (contents s.wq)) = ground arith in
        rw (some, e)
          (process_keys-Kept n (keys_in (contents s.wq)) s wq buf wq_room buf_room len refl)
    | inr other ↦
        let rest : keys_in (contents s.wq) ≡ length (contents s.kbd_buf) = ground arith in
        let matched : Matched n s = record {
          wq = wq;
          kbd_buf = buf;
          wq_room = wq_room;
          buf_room = buf_room;
          same = rest;
        } in
        elim (Bool-cases (f == 0)) [
          | inl z ↦ rw z (record { total_same = λ cs. refl; matched = matched })
          | inr some ↦
              rw (some, other)
                (record {
                  total_same = λ cs. refl;
                  matched = record {
                    wq = wq;
                    kbd_buf = buf;
                    wq_room = wq_room;
                    buf_room = buf_room;
                    same = rest;
                  };
                })
        ]
  ]
