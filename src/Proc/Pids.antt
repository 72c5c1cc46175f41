-- ===== src/Proc/Pids.antt =====
-- The pids of src/kernel/interrupt.c: the one that `createProc` gives, and `procByPid`.
use dar_os.Base.{
  ℕ, ◌+◌, ◌%◌, ◌≡◌, ◌≢◌, ◌<◌, ◌^◌, refl, subst, ap, ◌∙◌, sym, ◌==◌, inl, inr, true, false, List, [],
  ◌∷◌, ◌++◌, length, length-append, arith, Bool-cases, Option, none, some, add64,
}
use dar_os.LinkedList.{Node, LinkedList, push_list_tail, new_list}
use dar_os.LinkedList.Chain.{mem, mem-append, Linked, first, last, items}
use dar_os.LinkedList.Walk.{list_len}
use dar_os.LinkedList.Once.{push_list_tail-Goes}
use dar_os.Proc.{App, Kernel, Blocks, pids_sz, set_proc}
use dar_os.Proc.Table.{
  proc_by_pid, list_or_new, make_runnable, new_process, load_code, add_child, add_pid, create_proc,
}
use dar_os.Proc.Lookup.{
  Entries, Holds, Bucket, proc_by_pid-lookup, Absent, lookup-added, lookup-kept, lookup-other,
}

-- What there is to say of the addresses of a new entry, for the bucket that it comes into.
pub record NewEntry (k : Kernel) (map entry : ℕ) (ns xs : List ℕ) : Type 0 where
  pub entry_real : entry ≢ 0
  pub entry_new : mem entry ns ≡ false
  pub map_real : map ≢ 0
  pub map_new : mem map xs ≡ false
  pub small : length ns + 1 < 2 ^ 64
  pub unused : Absent k.maps (add64 k.last_pid 1) xs
  pub bucket : Bucket k (add64 k.last_pid 1) ns xs
  pub counts : list_len (k.pids (add64 k.last_pid 1 % pids_sz)) + 1 < 2 ^ 64

list_or_new-Entries :
    (junk : ℕ → Node) (o : Option LinkedList) (ns xs : List ℕ)
    → Holds o ns xs
    → Entries (list_or_new junk o) ns xs
unfolding Holds list_or_new new_list Linked items first last
list_or_new-Entries junk none ns xs (n, e) =
    rw (n, e)
      (record {
        goes = record { linked = tt; head = refl; tail = refl };
        contents = refl;
        counted = omega arith;
      })
list_or_new-Entries junk (some l) ns xs h = h

pushed-len : (n item : ℕ) (l : LinkedList) → (push_list_tail n item l).len ≡ add64 l.len 1
unfolding push_list_tail
pushed-len n item l = refl

pushed-Entries :
    (l : LinkedList) (n item : ℕ) (ns xs : List ℕ)
    → n ≢ 0
    → mem n ns ≡ false
    → length ns + 1 < 2 ^ 64
    → l.len + 1 < 2 ^ 64
    → Entries l ns xs
    → Entries (push_list_tail n item l) (ns ++ (n ∷ [])) (xs ++ (item ∷ []))
pushed-Entries l n item ns xs nz new small counts h =
    let (goes, contents) = push_list_tail-Goes n item l ns xs nz new small h.goes h.contents in
    record {
      goes = goes;
      contents = contents;
      counted = omega (arith, h.counted, pushed-len n item l, length-append ns (n ∷ []));
    }

list_or_new-len : (junk : ℕ → Node) (o : Option LinkedList) → (list_or_new junk o).len ≡ list_len o
unfolding list_or_new new_list list_len
list_or_new-len junk none = refl
list_or_new-len junk (some l) = refl

-- The buckets after a new entry.
module _ (k : Kernel) (map entry p : ℕ) (ns xs : List ℕ) (fresh : NewEntry k map entry ns xs) where
  abbrev pid : ℕ
  pid = add64 k.last_pid 1

  added-Bucket : Bucket (add_pid map entry p k) pid (ns ++ (entry ∷ [])) (xs ++ (map ∷ []))
  unfolding add_pid Holds mem
  added-Bucket =
      let o = k.pids (pid % pids_sz) in
      let at : (pid % pids_sz == pid % pids_sz) ≡ true = ground arith in
      let l = list_or_new k.junk o in
      let h = list_or_new-Entries k.junk o ns xs fresh.bucket.holds in
      let h' =
        pushed-Entries l entry map ns xs fresh.entry_real fresh.entry_new fresh.small
          (omega (arith, list_or_new-len k.junk o, fresh.counts)) h in
      record {
        holds = rw at h';
        real = mem-append 0 xs (map ∷ []) ∙ ground (arith, fresh.bucket.real, fresh.map_real);
      }

  -- The process is found.
  add_pid-new : proc_by_pid pid (add_pid map entry p k) ≡ p
  unfolding add_pid
  add_pid-new =
      proc_by_pid-lookup pid (add_pid map entry p k) (ns ++ (entry ∷ [])) (xs ++ (map ∷ []))
        added-Bucket
      ∙ lookup-added k.maps map p pid xs fresh.map_new fresh.unused

  -- Any other pid is looked up as before.
  add_pid-others :
      (q : ℕ) (ms ys : List ℕ)
      → q ≢ pid
      → Bucket k q ms ys
      → mem map ys ≡ false
      → proc_by_pid q (add_pid map entry p k) ≡ proc_by_pid q k
  unfolding add_pid
  add_pid-others q ms ys ne b new = elim (Bool-cases (q % pids_sz == pid % pids_sz)) [
    | inl same ↦
        let k' = add_pid map entry p k in
        let at : q % pids_sz ≡ pid % pids_sz = ground arith in
        let old : Bucket k q ns xs = record {
          holds = subst (λ i. Holds (k.pids i) ns xs) (sym at) fresh.bucket.holds;
          real = fresh.bucket.real;
        } in
        let now : Bucket k' q (ns ++ (entry ∷ [])) (xs ++ (map ∷ [])) = record {
          holds =
              subst (λ i. Holds (k'.pids i) (ns ++ (entry ∷ [])) (xs ++ (map ∷ []))) (sym at)
                added-Bucket.holds;
          real = added-Bucket.real;
        } in
        proc_by_pid-lookup q k' (ns ++ (entry ∷ [])) (xs ++ (map ∷ [])) now
        ∙ lookup-other k.maps map p pid q xs fresh.map_new ne
        ∙ sym (proc_by_pid-lookup q k ns xs old)
    | inr other ↦
        let k' = add_pid map entry p k in
        let now : Bucket k' q ms ys = record { holds = rw other b.holds; real = b.real } in
        proc_by_pid-lookup q k' ms ys now
        ∙ lookup-kept k.maps map p pid q ys new
        ∙ sym (proc_by_pid-lookup q k ms ys b)
  ]

add_pid-pid :
    (map entry p : ℕ) (k : Kernel) → ((add_pid map entry p k).proc p).pid ≡ add64 k.last_pid 1
unfolding add_pid
add_pid-pid map entry p k = let self : (p == p) ≡ true = ground arith in rw self refl

add_child-table :
    (parent n p : ℕ) (k : Kernel)
    → let k' = add_child parent n p k in
      (k'.pids ≡ k.pids) × (k'.maps ≡ k.maps) × (k'.last_pid ≡ k.last_pid)
unfolding add_child
add_child-table parent n p k = elim (Bool-cases (parent == 0)) [
  | inl e ↦ rw e (refl, refl, refl)
  | inr e ↦ rw e (refl, refl, refl)
]

-- States with the same table.
pub record SameTable (k k' : Kernel) : Type 0 where
  pub pids : k'.pids ≡ k.pids
  pub maps : k'.maps ≡ k.maps
  pub last_pid : k'.last_pid ≡ k.last_pid

Bucket-same :
    (k k' : Kernel) (pid : ℕ) (ns xs : List ℕ)
    → SameTable k k'
    → Bucket k pid ns xs
    → Bucket k' pid ns xs
Bucket-same k k' pid ns xs s b = record {
  holds = subst (λ f. Holds (f (pid % pids_sz)) ns xs) (sym s.pids) b.holds;
  real = b.real;
}

proc_by_pid-same :
    (k k' : Kernel) (pid : ℕ) → SameTable k k' → proc_by_pid pid k' ≡ proc_by_pid pid k
unfolding proc_by_pid
proc_by_pid-same k k' pid s = rw (s.pids, s.maps) refl

NewEntry-same :
    (k k' : Kernel) (map entry : ℕ) (ns xs : List ℕ)
    → SameTable k k'
    → NewEntry k map entry ns xs
    → NewEntry k' map entry ns xs
NewEntry-same k k' map entry ns xs s f = record {
  entry_real = f.entry_real;
  entry_new = f.entry_new;
  map_real = f.map_real;
  map_new = f.map_new;
  small = f.small;
  unused = rw (s.maps, s.last_pid) f.unused;
  bucket =
      subst (λ i. Bucket k' (add64 i 1) ns xs) (sym s.last_pid)
        (Bucket-same k k' (add64 k.last_pid 1) ns xs s f.bucket);
  counts = rw (s.last_pid, s.pids) f.counts;
}

-- A new process gets a pid under which it is found, and any other pid is found as before: the entry is at a fresh address
-- and node of its bucket, and no entry there has the pid yet.
pub create_proc-found :
    (a : App) (stdout parent flags : ℕ) (b : Blocks) (k : Kernel) (ns xs : List ℕ) (q : ℕ)
    (ms ys : List ℕ)
    → NewEntry k b.map b.entry ns xs
    → q ≢ add64 k.last_pid 1
    → Bucket k q ms ys
    → mem b.map ys ≡ false
    → let (pid, k') = create_proc a stdout parent flags b k in
      (pid ≡ add64 k.last_pid 1)
      × (proc_by_pid pid k' ≡ b.process)
      × (proc_by_pid q k' ≡ proc_by_pid q k)
unfolding create_proc make_runnable
create_proc-found a stdout parent flags b k ns xs q ms ys fresh ne bucket new =
    let p = b.process in
    let k0 = set_proc p (new_process stdout parent b.page flags) k in
    let k1 = make_runnable b.node p (record k0 { ram = load_code a.code b.page k0.ram }) in
    let k2 = add_child parent b.child p k1 in
    let (pids, maps, last_pid) = add_child-table parent b.child p k1 in
    let same : SameTable k k2 = record { pids = pids; maps = maps; last_pid = last_pid } in
    let fresh' = NewEntry-same k k2 b.map b.entry ns xs same fresh in
    let next = ap (λ i. add64 i 1) last_pid in
    let given = add_pid-pid b.map b.entry p k2 in
    let k3 = add_pid b.map b.entry p k2 in
    (
      given ∙ next,
      ap (λ i. proc_by_pid i k3) given ∙ add_pid-new k2 b.map b.entry p ns xs fresh',
      add_pid-others k2 b.map b.entry p ns xs fresh' q ms ys (λ e. ne (e ∙ next))
            (Bucket-same k k2 q ms ys same bucket) new
          ∙ proc_by_pid-same k k2 q same,
    )
