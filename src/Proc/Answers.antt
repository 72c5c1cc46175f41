-- ===== src/Proc/Answers.antt =====
-- What the console's calls and the end of a process make of the runnable ones, in src/kernel/interrupt.c.
use dar_os.Base.{
  ℕ, ◌≡◌, ◌≢◌, refl, subst, ◌∙◌, sym, ◌==◌, true, false, List, [], ◌∷◌, ◌++◌, arith, Bool-cases,
  inl, inr, ◌<◌, ◌^◌, length,
}
use dar_os.LinkedList.Chain.{mem, mem-append}
use dar_os.Console.Screen.{Call, Console}
use dar_os.Console.Print.{proc_done}
use dar_os.Proc.{App, Kernel, Blocks, set_proc}
use dar_os.Proc.Table.{
  proc_by_pid, make_runnable, add_pid, new_process, load_code, create_proc, start_sh,
}
use dar_os.Proc.Wake.{
  got_line, answer, console_does, wake_waiting, forget_pid, unschedule, kill_proc,
}
use dar_os.Proc.Turns.{Alike}
use dar_os.Proc.Sane.{Sane, Sane-Alike, make_runnable-Sane, unschedule-Sane, without}
use dar_os.Proc.Made.{create_proc-Sane, got_line-Sane, got_line-nobody, add_child-Alike}
use dar_os.Proc.Steps.{Answered, Does, does, Woken, Killed, killed}

pub mem-more : (p : ℕ) (ps qs : List ℕ) → mem p ps ≡ true → mem p (ps ++ qs) ≡ true
mem-more p ps qs e = mem-append p ps qs ∙ ground arith

module _ (flags : ℕ) (bs : ℕ → Blocks) (k : Kernel) (ps : List ℕ) where
  pub answer-Sane :
      (calls : List Call) (qs : List ℕ)
      → Answered flags bs k ps calls qs
      → Sane k ps
      → Sane (answer calls flags bs k) qs
  unfolding answer start_sh
  answer-Sane [] qs Answered.nothing s = s
  answer-Sane _ _ (Answered.shell t calls qs a f) s =
      let k' = answer calls flags bs k in
      create_proc-Sane k'.sh t 0 flags (bs (length calls)) k' qs f (answer-Sane calls qs a s)
  answer-Sane _ _ (Answered.nobody pid l calls qs a e) s =
      let k' = answer calls flags bs k in
      rw (got_line-nobody pid (bs (length calls)).node l k' e) (answer-Sane calls qs a s)
  answer-Sane _ _ (Answered.reader pid q l calls qs a e f) s =
      let k' = answer calls flags bs k in
      got_line-Sane pid (bs (length calls)).node q l k' qs e f (answer-Sane calls qs a s)

  pub Answered-mem :
      (p : ℕ) (calls : List Call) (qs : List ℕ)
      → Answered flags bs k ps calls qs
      → mem p ps ≡ true
      → mem p qs ≡ true
  Answered-mem p [] qs Answered.nothing e = e
  Answered-mem p _ _ (Answered.shell t calls qs a f) e =
      mem-more p qs ((bs (length calls)).process ∷ []) (Answered-mem p calls qs a e)
  Answered-mem p _ _ (Answered.nobody pid l calls qs a z) e = Answered-mem p calls qs a e
  Answered-mem p _ _ (Answered.reader pid q l calls qs a z f) e =
      mem-more p qs (q ∷ []) (Answered-mem p calls qs a e)

abbrev loaded : App → (stdout parent fl : ℕ) → Blocks → Kernel → Kernel
loaded a stdout parent fl b k =
    let k0 = set_proc b.process (new_process stdout parent b.page fl) k in
    record k0 { ram = load_code a.code b.page k0.ram }

pub create_proc-cur :
    (a : App) (stdout parent fl : ℕ) (b : Blocks) (k : Kernel)
    → (create_proc a stdout parent fl b k).1.cur ≡ k.cur
unfolding create_proc make_runnable add_pid
create_proc-cur a stdout parent fl b k =
    (add_child-Alike parent b.child b.process
      (make_runnable b.node b.process (loaded a stdout parent fl b k))).1

got_line-cur : (pid n : ℕ) (l : List ℕ) (k : Kernel) → (got_line pid l n k).cur ≡ k.cur
unfolding got_line make_runnable
got_line-cur pid n l k = elim (Bool-cases (proc_by_pid pid k == 0)) [
  | inl e ↦ rw e refl
  | inr e ↦ rw e refl
]

answer-cur :
    (calls : List Call) (flags : ℕ) (bs : ℕ → Blocks) (k : Kernel)
    → (answer calls flags bs k).cur ≡ k.cur
unfolding answer start_sh
answer-cur [] flags bs k = refl
answer-cur (Call.start_sh t ∷ calls) flags bs k =
    let k' = answer calls flags bs k in
    create_proc-cur k'.sh t 0 flags (bs (length calls)) k' ∙ answer-cur calls flags bs k
answer-cur (Call.got_line pid l ∷ calls) flags bs k =
    got_line-cur pid (bs (length calls)).node l (answer calls flags bs k)
    ∙ answer-cur calls flags bs k

-- An operation of the console.
pub console_does-Sane :
    (f : Console → Console) (flags : ℕ) (bs : ℕ → Blocks) (k : Kernel) (ps qs : List ℕ)
    → Does f flags bs k ps qs
    → Sane k ps
    → Sane (console_does f flags bs k) qs
unfolding console_does
console_does-Sane f flags bs k ps qs (does a) s =
    let c = f (record k.console { last_pid = k.last_pid; calls = [] }) in
    let k' : Kernel = record k { console = record c { calls = [] } } in
    let alike : Alike k k' = record { runnable = refl; node = λ q. refl } in
    answer-Sane flags bs k' ps c.calls qs a (Sane-Alike k k' ps alike refl s)

pub console_does-cur :
    (f : Console → Console) (flags : ℕ) (bs : ℕ → Blocks) (k : Kernel)
    → (console_does f flags bs k).cur ≡ k.cur
unfolding console_does
console_does-cur f flags bs k =
    let c = f (record k.console { last_pid = k.last_pid; calls = [] }) in
    answer-cur c.calls flags bs (record k { console = record c { calls = [] } })

pub Does-mem :
    (f : Console → Console) (flags : ℕ) (bs : ℕ → Blocks) (k : Kernel) (p : ℕ) (ps qs : List ℕ)
    → Does f flags bs k ps qs
    → mem p ps ≡ true
    → mem p qs ≡ true
Does-mem f flags bs k p ps qs (does a) e =
    let c = f (record k.console { last_pid = k.last_pid; calls = [] }) in
    Answered-mem flags bs (record k { console = record c { calls = [] } }) ps p c.calls qs a e

wake_waiting-Sane :
    (n p : ℕ) (k : Kernel) (ps qs : List ℕ)
    → Woken n p k ps qs
    → Sane k ps
    → Sane (wake_waiting n p k) qs × ((wake_waiting n p k).cur ≡ k.cur)
unfolding wake_waiting make_runnable
wake_waiting-Sane n p k ps _ (Woken.nobody z) s =
    let e : ((k.proc p).waiting == 0) ≡ true = ground arith in rw e (s, refl)
wake_waiting-Sane n p k ps _ (Woken.waiter f) s =
    let w = (k.proc p).waiting in
    let real = f.real in
    let e : (w == 0) ≡ false = ground arith in rw e (make_runnable-Sane n w k ps f s, refl)

Woken-mem :
    (n p q : ℕ) (k : Kernel) (ps qs : List ℕ)
    → Woken n p k ps qs
    → mem q ps ≡ true
    → mem q qs ≡ true
Woken-mem n p q k ps _ (Woken.nobody z) e = e
Woken-mem n p q k ps _ (Woken.waiter f) e = mem-more q ps ((k.proc p).waiting ∷ []) e

forget_pid-Alike :
    (pid : ℕ) (k : Kernel) → Alike k (forget_pid pid k) × ((forget_pid pid k).cur ≡ k.cur)
unfolding forget_pid
forget_pid-Alike pid k = (record { runnable = refl; node = λ q. refl }, refl)

kill_proc-parts :
    (p n flags : ℕ) (bs : ℕ → Blocks) (k : Kernel)
    → p ≢ 0
    → let v = k.proc p in
      kill_proc p n flags bs k
      ≡ unschedule p
          (forget_pid v.pid (wake_waiting n p (console_does (proc_done v.pid v.stdout) flags bs k)))
unfolding kill_proc
kill_proc-parts p n flags bs k ne = let e : (p == 0) ≡ false = ground arith in rw e refl

-- The current process is killed.
pub kill_proc-Sane :
    (n flags : ℕ) (bs : ℕ → Blocks) (k : Kernel) (ps qs : List ℕ)
    → Killed n flags bs k ps qs
    → k.cur ≢ 0
    → mem k.cur ps ≡ true
    → Sane k ps
    → Sane (kill_proc k.cur n flags bs k) qs
kill_proc-Sane n flags bs k ps _ (killed qs rs d w small) ne e s =
    let v = k.proc k.cur in
    let f = proc_done v.pid v.stdout in
    let k1 = console_does f flags bs k in
    let k2 = wake_waiting n k.cur k1 in
    let k3 = forget_pid v.pid k2 in
    let s1 = console_does-Sane f flags bs k ps qs d s in
    let (s2, cur2) = wake_waiting-Sane n k.cur k1 qs rs w s1 in
    let (alike, cur3) = forget_pid-Alike v.pid k2 in
    let s3 = Sane-Alike k2 k3 rs alike cur3 s2 in
    let cur : k3.cur ≡ k.cur = cur3 ∙ cur2 ∙ console_does-cur f flags bs k in
    let in_rs : mem k.cur rs ≡ true =
      Woken-mem n k.cur k.cur k1 qs rs w (Does-mem f flags bs k k.cur ps qs d e) in
    let small3 : k3.runnable.len < 2 ^ 64 = rw alike.runnable small in
    let member : mem k3.cur rs ≡ true = rw cur in_rs in
    rw (kill_proc-parts k.cur n flags bs k ne) (
      subst (λ p. Sane (unschedule p k3) (without p rs)) cur
        (unschedule-Sane k3 rs (λ z. ne (sym cur ∙ z)) small3 s3.ready member))
