-- ===== src/Proc/Steps.antt =====
-- Processes that start, wait and exit in any order.
mod Exits
mod Waits
pub mod Starts
pub mod Sound
use hvos.Common.{
  ℕ, zero, suc, ◌+◌, ◌-◌, ◌*◌, ◌/◌, ◌%◌, ◌^◌, ◌≤◌, ◌<◌, bit_and, bit_or, ◌≡◌, refl, sym, ap, subst,
  ◌∙◌, ◌≢◌, ◌↔◌, ◌⊎◌, inl, inr, Bool, true, false, not, ◌&&◌, ◌||◌, Option, none, some, List, [],
  ◌∷◌, ◌++◌, map, append_assoc, append-nil, arith, ltb, leb, ◌==◌, if◌then◌else◌, Bool-cases,
  Option-cases, every, every-lem, ltb→lt, lt→ltb, le→ltb, ==→eq, ==-ne, ==_refl, u8, u16, u32, u64,
  sub64, ◌<<<◌, ◌>>>◌, length, assign, replicate, take, drop, listed, get_elem?, get_or, set, All,
  length-set, get_or-set_self, get_or-set_ne, length-append, length-replicate, All-replicate,
  get_or-replicate, All-set, All-get_or,
}
use hvos.Common.Loops.{each_from, each_from-keeps}
use hvos.Linked.Search.{first_of}
use hvos.Sched.{
  Thread, Cpu, state_ready, state_waiting, state_running, state_dead, update, schedule,
}
use hvos.Sched.Dispatch.{IsValid, Scheduled, schedule_lem}
use hvos.Sched.Events
use hvos.Proc.{
  Process, System, get_current_process, update_process, process_by_pid, waits_for, leave, yield_to,
  sys_exit, Wait, returns, blocks, fault, begin_wait, sys_waitpid, new_elf_thread, new_process,
  enlist, new_elf_process, adopt_process,
}
use hvos.Proc.Core.{Kept, NoExit, Step-Kept, schedule-Kept}
use hvos.Proc.Exit.{first_of-cong, process_by_pid-cong, Exited, sys_exit_lem}

-- What a process that waits in `sys_waitpid` waits for: a child of its own, which has not exited.
pub record WaitsForChild (s : System) (p : ℕ) : Type 0 where
  pub child : ℕ
  pub found : process_by_pid s (s.process p).wait_target_pid ≡ child
  pub there : child ≢ 0
  pub own : (s.process child).parent ≡ p
  pub thread_there : (s.process child).primary ≢ 0
  pub alive : (s.cpu.thread (s.process child).primary).state ≢ state_dead

pub record IsSound (s : System) (idle : ℕ) : Type 0 where
  pub core : IsValid s.cpu idle
  pub no_null : listed s.process_list 0 ≡ false
  pub threads :
      (p : ℕ)
      → listed s.process_list p ≡ true
      → (s.process p).primary ≢ 0
      → (s.cpu.thread (s.process p).primary).process ≡ p
  pub numbers : (p : ℕ) → listed s.process_list p ≡ true → (s.process p).pid < s.next_pid
  pub parents :
      (p : ℕ)
      → listed s.process_list p ≡ true
      → (s.process p).parent ≢ 0
      → listed s.process_list (s.process p).parent ≡ true
  pub waits :
      (p : ℕ) → listed s.process_list p ≡ true → (s.process p).is_waiting ≡ true → WaitsForChild s p

first_of-cases :
    (f : ℕ → Bool) (ds : List ℕ)
    → first_of f ds ≢ 0
    → (listed ds (first_of f ds) ≡ true) × (f (first_of f ds) ≡ true)
first_of-cases f [] ne = absurd (ne refl)
first_of-cases f (d ∷ ds) ne = ground (arith, first_of-cases f ds)

-- A process that is found is in the list and has the number.
pub process_by_pid-cases :
    (s : System) (pid : ℕ)
    → process_by_pid s pid ≢ 0
    → (listed s.process_list (process_by_pid s pid) ≡ true)
      × ((s.process (process_by_pid s pid)).pid ≡ pid)
unfolding process_by_pid
process_by_pid-cases s pid ne =
    let (there, is) = first_of-cases (λ p. (s.process p).pid == pid) s.process_list ne in
    (there, ==→eq (s.process (process_by_pid s pid)).pid pid is)

-- What starts, waits and exits do, and the steps of the scheduler between them. A process waits for its
-- own children only; a new process and its thread stand where none was.
pub data Step (idle : ℕ) : System → System → Type 0 where
  runs :
      (s : System) (c : Cpu) (st : Events.Step idle s.cpu c)
      → NoExit st
      → Step idle s (record s { cpu = c })
  exits :
      (s t : System) (code rsp from rsp' : ℕ)
      → s.cpu.current_thread ≢ idle
      → from ≢ 1
      → listed s.process_list (get_current_process s) ≡ true
      → (s.process (get_current_process s)).parent ≢ get_current_process s
      → sys_exit s code rsp from ≡ some (rsp', t)
      → Step idle s t
  waits :
      (s t : System) (pid child rsp from rsp' : ℕ)
      → s.cpu.current_thread ≢ idle
      → from ≢ 1
      → (s.process child).parent ≡ get_current_process s
      → sys_waitpid s pid rsp from ≡ blocks child (some (rsp', t))
      → Step idle s t
  starts :
      (s t : System) (p th : ℕ) (console : List ℕ) (entry kstack pml4 proc : ℕ)
      → listed s.process_list p ≡ false
      → listed s.cpu.thread_list th ≡ false
      → ((q : ℕ) → listed s.process_list q ≡ true → (s.process q).primary ≢ th)
      → listed s.process_list (get_current_process s) ≡ true
      → s.next_pid + 1 < 2 ^ 64
      → adopt_process s p th console entry kstack pml4 ≡ some (proc, t)
      → Step idle s t

-- The calls of a process leave the lists and the relations between processes as they are.
pub record SameFamily (s t : System) : Type 0 where
  pub list : t.process_list ≡ s.process_list
  pub next : t.next_pid ≡ s.next_pid
  pub pids : (p : ℕ) → (t.process p).pid ≡ (s.process p).pid
  pub parents : (p : ℕ) → (t.process p).parent ≡ (s.process p).parent
  pub primaries : (p : ℕ) → (t.process p).primary ≡ (s.process p).primary
  pub processes : (u : ℕ) → (t.cpu.thread u).process ≡ (s.cpu.thread u).process

-- A process that waits goes on to wait while its child's thread has not died.
pub WaitsForChild-same :
    {s t : System} {p : ℕ}
    → SameFamily s t
    → (t.process p).wait_target_pid ≡ (s.process p).wait_target_pid
    → (w : WaitsForChild s p) → (t.cpu.thread (s.process w.child).primary).state ≢ state_dead
    → WaitsForChild t p
WaitsForChild-same {s} {t} {p} same target w lives = record {
  child = w.child;
  found =
      ap (process_by_pid t) target
      ∙ process_by_pid-cong s t (s.process p).wait_target_pid same.list same.pids
      ∙ w.found;
  there = w.there;
  own = same.parents w.child ∙ w.own;
  thread_there = λ e. w.thread_there (sym (same.primaries w.child) ∙ e);
  alive = rw (same.primaries w.child) lives;
}

-- Then a system stays sound if those that wait still wait for a child that has not exited.
pub SameFamily-IsSound :
    {s t : System} {idle : ℕ}
    → IsSound s idle
    → SameFamily s t
    → IsValid t.cpu idle
    → ((p : ℕ)
        → listed s.process_list p ≡ true
        → (t.process p).is_waiting ≡ true
        → WaitsForChild t p)
    → IsSound t idle
SameFamily-IsSound {s} {t} {idle} sound same v w = record {
  core = v;
  no_null = rw (same.list) sound.no_null;
  threads = λ p h ne.
      let h' = rw (same.list) at h in
      ap (λ u. (t.cpu.thread u).process) (same.primaries p)
      ∙ same.processes (s.process p).primary
      ∙ sound.threads p h' (λ e. ne (same.primaries p ∙ e));
  numbers = λ p h.
      let h' = rw (same.list) at h in omega (arith, same.pids p, same.next, sound.numbers p h');
  parents = λ p h ne.
      rw (same.list, same.parents p)
        (sound.parents p (rw (same.list) at h) (λ e. ne (same.parents p ∙ e)));
  waits = λ p h. w p (rw (same.list) at h);
}
