-- ===== src/Proc.antt =====
-- src/kernel/multitasking/process.c and thread.c with `sys_exit` and `sys_waitpid` of
-- src/kernel/syscall.c: processes on the scheduler of one core. A process is named by its address,
-- 0 for NULL. The lists of src/kernel/data/list.c are given by their data, the head first.
pub mod Core
pub mod Exit
pub mod Steps
mod Examples
use hvos.Common.{
  ℕ, zero, suc, ◌+◌, ◌-◌, ◌*◌, ◌/◌, ◌%◌, ◌^◌, ◌≤◌, ◌<◌, bit_and, bit_or, ◌≡◌, refl, sym, ap, subst,
  ◌∙◌, ◌≢◌, ◌↔◌, ◌⊎◌, inl, inr, Bool, true, false, not, ◌&&◌, ◌||◌, Option, none, some, List, [],
  ◌∷◌, ◌++◌, map, append_assoc, append-nil, arith, ltb, leb, ◌==◌, if◌then◌else◌, Bool-cases,
  Option-cases, every, every-lem, ltb→lt, lt→ltb, le→ltb, ==→eq, ==-ne, ==_refl, u8, u16, u32, u64,
  sub64, ◌<<<◌, ◌>>>◌, length, assign, replicate, take, drop, listed, get_elem?, get_or, set, All,
  length-set, get_or-set_self, get_or-set_ne, length-append, length-replicate, All-replicate,
  get_or-replicate, All-set, All-get_or,
}
use hvos.Common.Loops.{each_from, each_from-keeps}
use hvos.Linked.Search.{first_of}
use hvos.Sched.{Thread, Cpu, state_ready, state_waiting, state_dead, update, schedule}
use hvos.Sched.Events.{die}

-- `process_t`, but for `cr3`, which is `cr3_of` of the core. Files are addresses.
pub record Process : Type 0 where
  pub pid : ℕ
  pub heap_end : ℕ
  pub parent : ℕ
  pub exit_code : ℕ
  pub is_waiting : Bool
  pub wait_target_pid : ℕ
  pub file_table : List ℕ
  pub primary : ℕ

-- The fields of `new_task_kernel_stack_t` that are not zero.
pub record TaskStack : Type 0 where
  pub rip : ℕ
  pub cs : ℕ
  pub rflags : ℕ
  pub usermode_rsp : ℕ
  pub usermode_ss : ℕ

-- The core, the processes by address, the list of them, the two counters, and the stacks by the
-- address of the frame that a new thread starts from.
pub record System : Type 0 where
  pub cpu : Cpu
  pub process : ℕ → Process
  pub process_list : List ℕ
  pub next_pid : ℕ
  pub next_tid : ℕ
  pub stack : ℕ → TaskStack

abbrev pub get_current_process : System → ℕ
get_current_process s = (s.cpu.thread s.cpu.current_thread).process

abbrev pub update_process : System → ℕ → (Process → Process) → System
update_process s p f = record s { process = λ q. if q == p then f (s.process q) else s.process q }

-- `get_first_match` on the list of processes.
unfoldable pub process_by_pid : System → ℕ → ℕ
process_by_pid s pid = first_of (λ p. (s.process p).pid == pid) s.process_list

-- Whether the parent of `p` waits for it.
abbrev pub waits_for : System → ℕ → Bool
waits_for s p =
    let parent = (s.process p).parent in
    not (parent == 0)
    && ((s.process parent).is_waiting && (s.process parent).wait_target_pid == (s.process p).pid)

unfoldable pub make_ready : System → ℕ → System
make_ready s t =
    if t == 0 then s else record s { cpu = update s.cpu t (λ u. record u { state = state_ready }) }

-- The parent that waits for `p` goes on.
unfoldable pub wake_parent : System → ℕ → System
wake_parent s p =
    let parent = (s.process p).parent in
    if waits_for s p
    then make_ready (update_process s parent (λ q. record q { is_waiting = false }))
        (s.process parent).primary
    else s

-- `sys_exit` up to `kernel_yield`.
unfoldable pub leave : System → ℕ → System
leave s code =
    let p = get_current_process s in
    wake_parent
      (update_process (record s { cpu = die s.cpu }) p (λ q. record q { exit_code = code })) p

-- `kernel_yield`, with the stack pointer and what its second argument holds.
unfoldable pub yield_to : System → ℕ → ℕ → Option (ℕ × System)
yield_to s rsp from = elim (schedule s.cpu rsp from) [
  | none ↦ none
  | some (rsp', c) ↦ some (rsp', record s { cpu = c })
]

unfoldable pub sys_exit : System → ℕ → ℕ → ℕ → Option (ℕ × System)
sys_exit s code rsp from = yield_to (leave s code) rsp from

-- The process goes to sleep until the child `pid` has left.
unfoldable pub begin_wait : System → ℕ → System
begin_wait s pid =
    let s' =
      update_process s (get_current_process s)
        (λ q. record q { is_waiting = true; wait_target_pid = pid }) in
    record s' { cpu = update s.cpu s.cpu.current_thread (λ t. record t { state = state_waiting }) }

-- `blocks` is the call of `kernel_yield`; when it returns, so does `sys_waitpid`, with the exit
-- code that the child at that address then has. `fault` is the read of the tid of a child without a
-- thread.
pub data Wait : Type 0 where
  returns : ℕ → Wait
  blocks : ℕ → Option (ℕ × System) → Wait
  fault : Wait

abbrev pub minus_one : ℕ
minus_one = 2 ^ 32 - 1

unfoldable pub sys_waitpid : System → ℕ → ℕ → ℕ → Wait
sys_waitpid s pid rsp from =
    let child = process_by_pid s pid in
    let primary = (s.process child).primary in
    if child == 0
    then returns minus_one
    else if primary == 0
    then fault
    else if (s.cpu.thread primary).state == state_dead
    then returns (s.process child).exit_code
    else blocks child (yield_to (begin_wait s pid) rsp from)

-- `__USER_CS | 3` and `__USER_DS | 3`
abbrev pub user_cs : ℕ
user_cs = 35

abbrev pub user_ds : ℕ
user_ds = 27

-- `sizeof(new_task_kernel_stack_t)`
abbrev pub task_stack_size : ℕ
task_stack_size = 160

-- The thread at `t`, which `kmalloc` has returned; what is not written stays as the memory had it.
unfoldable pub new_elf_thread : System → ℕ → ℕ → ℕ → ℕ → System
new_elf_thread s t rip ustack kstack =
    let krsp = sub64 kstack task_stack_size in
    let frame : TaskStack = record {
      rip = rip;
      cs = user_cs;
      rflags = 0x202;
      usermode_rsp = ustack;
      usermode_ss = user_ds;
    } in
    record s {
      cpu =
          update s.cpu t
            (λ u. record u { tid = s.next_tid; k_rsp = krsp; kernel_stack_base = kstack });
      next_tid = u64 (s.next_tid + 1);
      stack = λ a. if a == krsp then frame else s.stack a;
    }

-- The process at `p`, which `kzalloc` has returned, with the files of the console.
unfoldable pub new_process : System → ℕ → List ℕ → System
new_process s p console =
    let s' = update_process s p (λ q. record {
      pid = s.next_pid;
      heap_end = 0;
      parent = 0;
      exit_code = 0;
      is_waiting = false;
      wait_target_pid = 0;
      file_table = console ++ replicate 29 0;
      primary = 0;
    }) in
    record s' {
      cpu = record s.cpu { cr3_of = λ q. if q == p then 0 else s.cpu.cr3_of q };
      next_pid = u64 (s.next_pid + 1);
    }

-- The thread is made ready, and both are put into their lists.
unfoldable pub enlist : System → ℕ → ℕ → System
enlist s p t =
    let c =
      update s.cpu t
        (λ u. record u { block_channel = 0; vruntime = 0; state = state_ready; process = p }) in
    let s' = update_process s p (λ q. record q { primary = t }) in
    record s' {
      cpu = record c { thread_list = t ∷ c.thread_list };
      process_list = p ∷ s.process_list;
    }

-- `p` and `t` are what `kzalloc` and `kmalloc` return, 0 for NULL; without memory for the thread the
-- process is freed again. `console` are its files.
unfoldable pub new_elf_process : System → ℕ → ℕ → List ℕ → ℕ → ℕ → ℕ → ℕ × System
new_elf_process s p t console rip ustack kstack =
    if p == 0
    then (0, s)
    else if t == 0
    then (0, new_process s p console)
    else (p, enlist (new_elf_thread (new_process s p console) t rip ustack kstack) p t)

abbrev pub usr_stack_base : ℕ
usr_stack_base = 0x00007FFFFFFFF000

abbrev pub usr_heap_base : ℕ
usr_heap_base = 0x10000000

-- The end of `create_elf_process` of src/kernel/elf.c: the process for a program that is loaded at
-- `pml4_phys`. `none` is the write through the NULL that `new_elf_process` may return.
unfoldable pub adopt_process : System → ℕ → ℕ → List ℕ → ℕ → ℕ → ℕ → Option (ℕ × System)
adopt_process s p t console entry_point kernel_stack_top pml4_phys =
    let (proc, s') = new_elf_process s p t console entry_point usr_stack_base kernel_stack_top in
    if proc == 0
    then none
    else let c : Cpu = record s'.cpu {
      cr3_of = λ q. if q == proc then pml4_phys else s'.cpu.cr3_of q;
    } in
      some (
        proc,
        update_process (record s' { cpu = c }) proc
            (λ q. record q { heap_end = usr_heap_base; parent = get_current_process s' }),
      )
