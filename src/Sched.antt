-- ===== src/Sched.antt =====
-- src/kernel/multitasking: the scheduler of one core. A thread is named by its address, 0 for NULL,
-- and `thread` is the store of the threads; a list's nodes are given by the data they hold, the
-- head first. Allocation of list nodes and entries is taken to succeed.
pub mod Pick
pub mod Dispatch
pub mod Events
pub mod Notify
pub mod Sleep
mod Examples
use hvos.Common.{
  ℕ, zero, suc, ◌+◌, ◌-◌, ◌*◌, ◌/◌, ◌%◌, ◌^◌, ◌≤◌, ◌<◌, bit_and, bit_or, ◌≡◌, refl, sym, ap, subst,
  ◌∙◌, ◌≢◌, ◌↔◌, ◌⊎◌, inl, inr, Bool, true, false, not, ◌&&◌, ◌||◌, Option, none, some, List, [],
  ◌∷◌, ◌++◌, map, arith, ltb, leb, ◌==◌, if◌then◌else◌, Bool-cases, Option-cases, every, every-lem,
  ltb→lt, lt→ltb, le→ltb, ==→eq, ==-ne, ==_refl, u8, u16, u32, u64, sub64, ◌<<<◌, ◌>>>◌, length,
  replicate, take, drop, get_elem?, get_or, set, All, length-set, get_or-set_self, get_or-set_ne,
  length-append, length-replicate, All-replicate, get_or-replicate, All-set, All-get_or,
}
use hvos.Common.Loops.{each_from, each_from-keeps}
use hvos.Mem.Paging.{Tables, copy_kernel_half}

abbrev pub state_ready : ℕ
state_ready = 1

abbrev pub state_running : ℕ
state_running = 2

abbrev pub state_waiting : ℕ
state_waiting = 3

abbrev pub state_dead : ℕ
state_dead = 4

abbrev pub state_sleeping : ℕ
state_sleeping = 5

-- `thread_t`, with the name as bytes. `process` is an address.
pub record Thread : Type 0 where
  pub tid : ℕ
  pub name : List ℕ
  pub state : ℕ
  pub k_rsp : ℕ
  pub kernel_stack_base : ℕ
  pub vruntime : ℕ
  pub sleep_ticks : ℕ
  pub block_channel : ℕ
  pub process : ℕ

-- `delta_queue_entry_t`
pub record DeltaQueueEntry : Type 0 where
  pub delta_tid : ℕ
  pub delta : ℕ

-- `cpu_task_list_t` with what a switch writes besides: `rsp0` of the task state segment,
-- `stack_top` of `cpu_data_t`, the register cr3 and the page tables. `cr3_of` is the field of each
-- process.
pub record Cpu : Type 0 where
  pub thread : ℕ → Thread
  pub thread_list : List ℕ
  pub current_thread : ℕ
  pub sleeping_queue : List DeltaQueueEntry
  pub rsp0 : ℕ
  pub stack_top : ℕ
  pub cr3_of : ℕ → ℕ
  pub cr3 : ℕ
  pub tables : Tables

abbrev pub strcmp_equal : List ℕ → List ℕ → Bool
strcmp_equal [] [] = true
strcmp_equal [] (c ∷ t) = false
strcmp_equal (b ∷ s) [] = false
strcmp_equal (b ∷ s) (c ∷ t) = b == c && strcmp_equal s t

-- "IDLE_THREAD"
abbrev pub idle_name : List ℕ
idle_name = 73 ∷ 68 ∷ 76 ∷ 69 ∷ 95 ∷ 84 ∷ 72 ∷ 82 ∷ 69 ∷ 65 ∷ 68 ∷ []

unfoldable pub is_idle : Thread → Bool
is_idle t = strcmp_equal t.name idle_name

-- A write to the thread at `p`.
unfoldable pub update : Cpu → ℕ → (Thread → Thread) → Cpu
update c p f = record c { thread = λ q. if q == p then f (c.thread q) else c.thread q }

-- The loop of `get_lowest_runtime`, with `next` so far.
unfoldable pub lowest_from : (ℕ → Thread) → List ℕ → ℕ → ℕ
lowest_from thread [] next = next
lowest_from thread (t ∷ ts) next = lowest_from thread ts (
    if (thread t).state == state_ready
    then (if next == 0
        then t
        else if ltb (thread t).vruntime (thread next).vruntime
        then t
        else next)
    else next)

abbrev pub get_lowest_runtime : Cpu → ℕ
get_lowest_runtime c = lowest_from c.thread c.thread_list 0

-- The build chooses `get_next_thread_cfs`.
abbrev pub get_next_thread : Cpu → ℕ
get_next_thread c = get_lowest_runtime c

unfoldable pub find_idle_thread : (ℕ → Thread) → List ℕ → ℕ
find_idle_thread thread [] = 0
find_idle_thread thread (t ∷ ts) =
    let rest = find_idle_thread thread ts in if is_idle (thread t) then t else rest

abbrev pub root_of : Cpu → ℕ → ℕ
root_of c t = c.cr3_of (c.thread t).process

-- The end of `schedule`, from `current_thread == next_thread` on.
unfoldable pub dispatch : Cpu → ℕ → ℕ × Cpu
dispatch c next =
    let current = c.current_thread in
    if current == next
    then ((c.thread current).k_rsp, update c current (λ t. record t { state = state_running }))
    else let c₁ =
        if (c.thread current).state == state_running
        then update c current (λ t. record t { state = state_ready })
        else c in
      let c₂ = update c₁ next (λ t. record t { state = state_running }) in
      (
        (c.thread next).k_rsp,
        record c₂ {
          current_thread = next;
          rsp0 = (c.thread next).kernel_stack_base;
          stack_top = (c.thread next).kernel_stack_base;
          tables = copy_kernel_half c.tables (root_of c next / 4096) (root_of c current / 4096);
          cr3 = if root_of c current == root_of c next then c.cr3 else root_of c next;
        },
      )

-- The stack pointer to go on with; `none` is a write through NULL.
unfoldable pub schedule : Cpu → ℕ → ℕ → Option (ℕ × Cpu)
schedule c old_rsp from =
    if from == 1 || c.current_thread == 0
    then some (old_rsp, c)
    else let saved = update c c.current_thread (λ t. record t { k_rsp = old_rsp }) in
      let next = get_next_thread saved in
      let idle = find_idle_thread saved.thread saved.thread_list in
      if next == 0
      then (if is_idle (saved.thread c.current_thread) || length c.thread_list == 2
          then some (old_rsp, saved)
          else if idle == 0
          then none
          else some (dispatch saved idle))
      else some (dispatch saved next)

unfoldable pub update_curr_thread : Cpu → Cpu
update_curr_thread c =
    if c.current_thread == 0
    then c
    else update c c.current_thread
        (λ t. record t { vruntime = u64 (t.vruntime + 1); sleep_ticks = t.sleep_ticks - 1 })

-- The first thread of the list that waits for the channel, 0 for none.
unfoldable pub first_waiting : (ℕ → Thread) → List ℕ → ℕ → ℕ
first_waiting thread [] channel = 0
first_waiting thread (t ∷ ts) channel =
    let rest = first_waiting thread ts channel in
    if (thread t).state == state_waiting && (thread t).block_channel == channel then t else rest

unfoldable pub notify_wait_channel : Cpu → ℕ → Cpu
notify_wait_channel c channel =
    let t = first_waiting c.thread c.thread_list channel in
    if channel == 0 || t == 0
    then c
    else update c t (λ t. record t { state = state_ready; block_channel = 0 })

-- Every thread of the list with the number `tid` is made ready, whatever its state.
unfoldable pub wake_tid : Cpu → List ℕ → ℕ → Cpu
wake_tid c [] tid = c
wake_tid c (t ∷ ts) tid =
    wake_tid
      (if (c.thread t).tid == tid then update c t (λ t. record t { state = state_ready }) else c) ts
      tid

unfoldable pub sleep_tick : Cpu → List DeltaQueueEntry → Cpu
sleep_tick c [] = c
sleep_tick c (top ∷ rest) =
    if top.delta == 0
    then record (wake_tid c c.thread_list top.delta_tid) { sleeping_queue = rest }
    else record c { sleeping_queue = record top { delta = top.delta - 1 } ∷ rest }

abbrev pub update_sleeping_queue : Cpu → Cpu
update_sleeping_queue c = sleep_tick c c.sleeping_queue

unfoldable pub sum_of_deltas : List DeltaQueueEntry → ℕ
sum_of_deltas [] = 0
sum_of_deltas (d ∷ ds) = u64 (d.delta + sum_of_deltas ds)

abbrev pub get_total_delta : Cpu → ℕ
get_total_delta c = sum_of_deltas c.sleeping_queue

-- Up to the call of `kernel_yield`.
unfoldable pub fall_asleep : Cpu → ℕ → Cpu
fall_asleep c ms =
    let entry : DeltaQueueEntry = record {
      delta_tid = (c.thread c.current_thread).tid;
      delta = sub64 ms (get_total_delta c);
    } in
    record (update c c.current_thread (λ t. record t { state = state_sleeping })) {
      sleeping_queue = entry ∷ c.sleeping_queue;
    }

-- `kernel_yield` passes the stack pointer on; its second argument is what the register holds.
abbrev pub kusleep : Cpu → ℕ → ℕ → ℕ → Option (ℕ × Cpu)
kusleep c ms old_rsp from = schedule (fall_asleep c ms) old_rsp from
