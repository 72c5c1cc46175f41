-- ===== src/Proc/Lookup.antt =====
-- The table of processes of src/kernel/interrupt.c as a map from pids: its entries, and how `procByPid` looks for one.
use dar_os.Base.{
  ℕ, ◌%◌, ◌≡◌, ◌≢◌, ◌≤◌, refl, ap, ◌∙◌, ◌==◌, inl, inr, if◌then◌else◌, true, false, List, [], ◌∷◌,
  ◌++◌, length, arith, Bool-cases, Option, none, some, write,
}
use dar_os.LinkedList.{LinkedList}
use dar_os.LinkedList.Chain.{mem, Goes, items}
use dar_os.LinkedList.Reject.{reject}
use dar_os.LinkedList.Find.{find_item, get_node_by_condition-items}
use dar_os.Proc.{PidMap, Kernel, pids_sz}
use dar_os.Proc.Table.{find_map, proc_by_pid}

-- A bucket's entries, as addresses of `struct pidMap`, oldest first, and their nodes.
pub record Entries (l : LinkedList) (ns xs : List ℕ) : Type 0 where
  pub goes : Goes l ns
  pub contents : items l.node ns ≡ xs
  pub counted : length ns ≤ l.len

unfoldable pub Holds : Option LinkedList → (ns xs : List ℕ) → Type 0
Holds none ns xs = (ns ≡ []) × (xs ≡ [])
Holds (some l) ns xs = Entries l ns xs

-- The process that the first entry with this pid has, 0 if there is none.
unfoldable pub lookup : (ℕ → PidMap) → (pid : ℕ) → List ℕ → ℕ
lookup maps pid [] = 0
lookup maps pid (x ∷ xs) = if (maps x).pid == pid then (maps x).process else lookup maps pid xs

find_map-Holds :
    (maps : ℕ → PidMap) (pid : ℕ) (o : Option LinkedList) (ns xs : List ℕ)
    → Holds o ns xs
    → find_map maps pid o ≡ find_item (λ x. (maps x).pid == pid) xs
unfolding Holds find_map find_item
find_map-Holds maps pid none ns xs (n, e) = rw e refl
find_map-Holds maps pid (some l) ns xs h =
    get_node_by_condition-items l.len (λ x. (maps x).pid == pid) l ns h.counted h.goes
    ∙ ap (find_item (λ x. (maps x).pid == pid)) h.contents

lookup-find :
    (maps : ℕ → PidMap) (pid : ℕ) (xs : List ℕ)
    → mem 0 xs ≡ false
    → let pm = find_item (λ x. (maps x).pid == pid) xs in
      (if pm == 0 then 0 else (maps pm).process) ≡ lookup maps pid xs
unfolding lookup find_item mem
lookup-find maps pid [] e = refl
lookup-find maps pid (x ∷ xs) e =
    let nz : (x == 0) ≡ false = ground arith in
    elim (Bool-cases ((maps x).pid == pid)) [
      | inl same ↦ rw (same, nz) refl
      | inr other ↦ rw other (lookup-find maps pid xs ground arith)
    ]

-- The bucket of a pid.
pub record Bucket (k : Kernel) (pid : ℕ) (ns xs : List ℕ) : Type 0 where
  pub holds : Holds (k.pids (pid % pids_sz)) ns xs
  pub real : mem 0 xs ≡ false

-- `procByPid` looks up the pid's bucket.
pub proc_by_pid-lookup :
    (pid : ℕ) (k : Kernel) (ns xs : List ℕ)
    → Bucket k pid ns xs
    → proc_by_pid pid k ≡ lookup k.maps pid xs
unfolding proc_by_pid
proc_by_pid-lookup pid k ns xs b =
    let e = find_map-Holds k.maps pid (k.pids (pid % pids_sz)) ns xs b.holds in
    ap (λ pm. if pm == 0 then 0 else (k.maps pm).process) e ∙ lookup-find k.maps pid xs b.real

-- No entry has the pid.
unfoldable pub Absent : (ℕ → PidMap) → (pid : ℕ) → List ℕ → Type 0
Absent maps pid [] = Unit
Absent maps pid (x ∷ xs) = ((maps x).pid ≢ pid) × Absent maps pid xs

-- One more entry, the latest.
module _ (maps : ℕ → PidMap) (map p pid : ℕ) where
  abbrev added : ℕ → PidMap
  added = write maps map (record { pid = pid; process = p })

  pub lookup-added :
      (xs : List ℕ)
      → mem map xs ≡ false
      → Absent maps pid xs
      → lookup added pid (xs ++ (map ∷ [])) ≡ p
  unfolding lookup mem Absent
  lookup-added [] new absent =
      let self : (map == map) ≡ true = ground arith in
      let same : (pid == pid) ≡ true = ground arith in rw (self, same) refl
  lookup-added (x ∷ xs) new (ne, absent) =
      let other : (x == map) ≡ false = ground arith in
      let differs : ((maps x).pid == pid) ≡ false = ground arith in
      rw (other, differs) (lookup-added xs ground arith absent)

  pub lookup-kept :
      (q : ℕ) (xs : List ℕ) → mem map xs ≡ false → lookup added q xs ≡ lookup maps q xs
  unfolding lookup mem
  lookup-kept q [] new = refl
  lookup-kept q (x ∷ xs) new =
      let other : (x == map) ≡ false = ground arith in
      rw (other, lookup-kept q xs ground arith) refl

  pub lookup-other :
      (q : ℕ) (xs : List ℕ)
      → mem map xs ≡ false
      → q ≢ pid
      → lookup added q (xs ++ (map ∷ [])) ≡ lookup maps q xs
  unfolding lookup mem
  lookup-other q [] new ne =
      let self : (map == map) ≡ true = ground arith in
      let differs : (pid == q) ≡ false = ground arith in rw (self, differs) refl
  lookup-other q (x ∷ xs) new ne =
      let other : (x == map) ≡ false = ground arith in
      rw (other, lookup-other q xs ground arith ne) refl

-- Entries that do not match the pid that is forgotten.
pub lookup-forgotten :
    (maps : ℕ → PidMap) (pid : ℕ) (xs : List ℕ)
    → lookup maps pid (reject (λ x. (maps x).pid == pid) xs) ≡ 0
unfolding lookup reject
lookup-forgotten maps pid [] = refl
lookup-forgotten maps pid (x ∷ xs) = elim (Bool-cases ((maps x).pid == pid)) [
  | inl same ↦ rw same (lookup-forgotten maps pid xs)
  | inr other ↦ rw other (rw other (lookup-forgotten maps pid xs))
]

pub lookup-remembered :
    (maps : ℕ → PidMap) (pid q : ℕ) (xs : List ℕ)
    → q ≢ pid
    → lookup maps q (reject (λ x. (maps x).pid == pid) xs) ≡ lookup maps q xs
unfolding lookup reject
lookup-remembered maps pid q [] ne = refl
lookup-remembered maps pid q (x ∷ xs) ne = elim (Bool-cases ((maps x).pid == pid)) [
  | inl same ↦
      let differs : ((maps x).pid == q) ≡ false = ground arith in
      rw (same, differs) (lookup-remembered maps pid q xs ne)
  | inr other ↦ rw other (rw (lookup-remembered maps pid q xs ne) refl)
]
