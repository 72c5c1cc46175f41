-- ===== src/Proc/Forget.antt =====
-- A pid that `killProc` of src/kernel/interrupt.c takes out of the table.
use dar_os.Base.{
  ℕ, suc, ◌+◌, ◌%◌, ◌≡◌, ◌≢◌, ◌≤◌, ◌<◌, ◌^◌, refl, subst, ap, ◌∙◌, sym, ◌==◌, inl, inr, Bool, true,
  false, List, [], ◌∷◌, length, arith, Bool-cases, Option, none, some,
}
use dar_os.LinkedList.{Node, LinkedList, remove_from_list_with_equality}
use dar_os.LinkedList.Chain.{mem, items}
use dar_os.LinkedList.Walk.{list_len}
use dar_os.LinkedList.Reject.{reject, remove_from_list_with_equality-reject}
use dar_os.Proc.{PidMap, Kernel, pids_sz}
use dar_os.Proc.Table.{proc_by_pid}
use dar_os.Proc.Wake.{remove_map, forget_pid}
use dar_os.Proc.Lookup.{Holds, Bucket, proc_by_pid-lookup, lookup-forgotten, lookup-remembered}

length-items : (node : ℕ → Node) (ns : List ℕ) → length (items node ns) ≡ length ns
unfolding items
length-items node [] = refl
length-items node (n ∷ ns) = ap suc (length-items node ns)

reject-mem :
    (equals : ℕ → Bool) (x : ℕ) (xs : List ℕ) → mem x xs ≡ false → mem x (reject equals xs) ≡ false
unfolding reject mem
reject-mem equals x [] out = refl
reject-mem equals x (y ∷ ys) out =
    let rest = reject-mem equals x ys ground arith in
    elim (Bool-cases (equals y)) [ inl e ↦ rw e rest | inr e ↦ rw e (ground arith) ]

reject-at_most : (equals : ℕ → Bool) (xs : List ℕ) → length (reject equals xs) ≤ length xs
unfolding reject
reject-at_most equals [] = omega arith
reject-at_most equals (x ∷ xs) =
    let rest = reject-at_most equals xs in
    elim (Bool-cases (equals x)) [ inl e ↦ rw e (omega arith) | inr e ↦ rw e (omega arith) ]

reject-fewer :
    (equals : ℕ → Bool) (x : ℕ) (xs : List ℕ)
    → mem x xs ≡ true
    → equals x ≡ true
    → length (reject equals xs) + 1 ≤ length xs
unfolding reject mem
reject-fewer equals x [] m e = absurd (ground arith)
reject-fewer equals x (y ∷ ys) m e = elim (Bool-cases (x == y)) [
  | inl same ↦
      let at : equals y ≡ true = ap equals (ground arith) ∙ e in
      rw at (omega (arith, reject-at_most equals ys))
  | inr other ↦
      let rest = reject-fewer equals x ys (ground arith) e in
      elim (Bool-cases (equals y)) [ inl at ↦ rw at (omega arith) | inr at ↦ rw at (omega arith) ]
]

remove_map-Holds :
    (maps : ℕ → PidMap) (pid x : ℕ) (o : Option LinkedList) (ns xs : List ℕ)
    → mem x xs ≡ true
    → (maps x).pid ≡ pid
    → list_len o < 2 ^ 64
    → Holds o ns xs
    → (zs : List ℕ) × Holds (remove_map maps pid o) zs (reject (λ y. (maps y).pid == pid) xs)
unfolding Holds remove_map list_len mem
remove_map-Holds maps pid x none ns xs m e small (n, at) =
    let none_there : mem x [] ≡ true = subst (λ l. mem x l ≡ true) at m in absurd (ground arith)
remove_map-Holds maps pid x (some l) ns xs m e small h =
    let equals : ℕ → Bool = λ y. (maps y).pid == pid in
    let ((zs, goes, contents), len) =
      remove_from_list_with_equality-reject l.len equals l ns h.counted h.goes in
    let kept = ap (reject equals) h.contents in
    let fewer = reject-fewer equals x xs m (ground arith) in
    (
      zs,
      record {
        goes = goes;
        contents = contents ∙ kept;
        counted = ground (
          arith,
          len,
          fewer,
          h.counted,
          length-items l.node ns,
          length-items (remove_from_list_with_equality l.len equals l).node zs,
          ap length h.contents,
          ap length (contents ∙ kept),
        );
      },
    )

-- A pid that is taken out is not found, and any other is found as before. The pid is that of an entry, so that the
-- bucket's count, which goes down by one whether or not there is one, is not too low.
pub forget_pid-lost :
    (pid x : ℕ) (k : Kernel) (ns xs : List ℕ) (q : ℕ) (ms ys : List ℕ)
    → Bucket k pid ns xs
    → mem x xs ≡ true
    → (k.maps x).pid ≡ pid
    → list_len (k.pids (pid % pids_sz)) < 2 ^ 64
    → Bucket k q ms ys
    → q ≢ pid
    → (proc_by_pid pid (forget_pid pid k) ≡ 0)
      × (proc_by_pid q (forget_pid pid k) ≡ proc_by_pid q k)
unfolding forget_pid
forget_pid-lost pid x k ns xs q ms ys b m e small b' ne =
    let k' = forget_pid pid k in
    let i = pid % pids_sz in
    let equals : ℕ → Bool = λ y. (k.maps y).pid == pid in
    let (zs, h) = remove_map-Holds k.maps pid x (k.pids i) ns xs m e small b.holds in
    let self : (i == i) ≡ true = ground arith in
    let real = reject-mem equals 0 xs b.real in
    let now : Holds (k'.pids i) zs (reject equals xs) = rw self h in
    (
      proc_by_pid-lookup pid k' zs (reject equals xs) (record { holds = now; real = real })
          ∙ lookup-forgotten k.maps pid xs,
      elim (Bool-cases (q % pids_sz == i)) [
        | inl same ↦
            let at : q % pids_sz ≡ i = ground arith in
            let was : Bucket k q ns xs = record {
              holds = subst (λ j. Holds (k.pids j) ns xs) (sym at) b.holds;
              real = b.real;
            } in
            let is : Bucket k' q zs (reject equals xs) = record {
              holds = subst (λ j. Holds (k'.pids j) zs (reject equals xs)) (sym at) now;
              real = real;
            } in
            proc_by_pid-lookup q k' zs (reject equals xs) is
            ∙ lookup-remembered k.maps pid q xs ne
            ∙ sym (proc_by_pid-lookup q k ns xs was)
        | inr other ↦
            let is : Bucket k' q ms ys = record { holds = rw other b'.holds; real = b'.real } in
            proc_by_pid-lookup q k' ms ys is ∙ sym (proc_by_pid-lookup q k ms ys b')
      ],
    )
