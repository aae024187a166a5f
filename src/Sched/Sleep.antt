-- ===== src/Sched/Sleep.antt =====
-- Sleeping: when the timer wakes the thread at the front of the queue.
use hvos.Common.{
  ℕ, zero, suc, ◌+◌, ◌-◌, ◌≤◌, ◌≡◌, refl, subst, ◌≢◌, true, ◌&&◌, some, List, [], ◌∷◌, arith, ◌==◌,
  if◌then◌else◌, sub64, listed,
}
use hvos.Sched.{
  Cpu, DeltaQueueEntry, state_ready, state_sleeping, update, update_curr_thread, wake_tid,
  sleep_tick, update_sleeping_queue, get_total_delta, fall_asleep, kusleep,
}
use hvos.Sched.Dispatch.{IsValid, Scheduled, schedule_lem}
use hvos.Sched.Events.{fall_asleep-IsValid}

-- The calls of the timer's interrupt.
unfoldable pub ticks : ℕ → Cpu → Cpu
ticks zero c = c
ticks (suc n) c = ticks n (update_sleeping_queue (update_curr_thread c))

wake_tid-state :
    (ts : List ℕ) (c : Cpu) (tid p : ℕ)
    → ((wake_tid c ts tid).thread p).state
      ≡ (if (c.thread p).tid == tid && listed ts p then state_ready else (c.thread p).state)
unfolding wake_tid update
wake_tid-state [] c tid p = ground arith
wake_tid-state (t ∷ ts) c tid p = ground (
  arith,
  wake_tid-state ts
      (if (c.thread t).tid == tid then update c t (λ t. record t { state = state_ready }) else c)
      tid p,
)

-- The thread `p` sleeps with the entry at the front of the queue, which has `d` to go.
record Sleeps (c : Cpu) (p d : ℕ) : Type 0 where
  rest : List DeltaQueueEntry
  front : c.sleeping_queue ≡ record { delta_tid = (c.thread p).tid; delta = d } ∷ rest
  asleep : (c.thread p).state ≡ state_sleeping
  in_list : listed c.thread_list p ≡ true

tick-Sleeps :
    (c : Cpu) (p d : ℕ)
    → Sleeps c p (suc d)
    → Sleeps (update_sleeping_queue (update_curr_thread c)) p d
unfolding update_curr_thread update sleep_tick
tick-Sleeps c p d s = record {
  rest = s.rest;
  front = ground (arith, s.front);
  asleep = ground (arith, s.front, s.asleep);
  in_list = ground (arith, s.front, s.in_list);
}

tick-wakes :
    (c : Cpu) (p : ℕ)
    → Sleeps c p 0
    → ((update_sleeping_queue (update_curr_thread c)).thread p).state ≡ state_ready
unfolding update_curr_thread update sleep_tick
tick-wakes c p s = ground (
  arith,
  s.front,
  s.in_list,
  wake_tid-state c.thread_list (update_curr_thread c) (c.thread p).tid p,
)

ticks-Sleeps : (n d : ℕ) (c : Cpu) (p : ℕ) → Sleeps c p (n + d) → Sleeps (ticks n c) p d
unfolding ticks
ticks-Sleeps zero d c p s = subst (Sleeps c p) (omega arith) s
ticks-Sleeps (suc n) d c p s =
    ticks-Sleeps n d (update_sleeping_queue (update_curr_thread c)) p
      (tick-Sleeps c p (n + d) (subst (Sleeps c p) (omega arith) s))

ticks-last :
    (n : ℕ) (c : Cpu) → ticks (suc n) c ≡ update_sleeping_queue (update_curr_thread (ticks n c))
unfolding ticks
ticks-last zero c = refl
ticks-last (suc n) c = ticks-last n (update_sleeping_queue (update_curr_thread c))

asleep-Sleeps :
    (c d : Cpu) (ms rsp r : ℕ)
    → listed c.thread_list c.current_thread ≡ true
    → Scheduled (fall_asleep c ms) rsp r d
    → Sleeps d c.current_thread (sub64 ms (get_total_delta c))
unfolding fall_asleep update
asleep-Sleeps c d ms rsp r here done = record {
  rest = c.sleeping_queue;
  front = ground (arith, done.queue, done.tids c.current_thread);
  asleep = ground (arith, done.was, done.put_back);
  in_list = rw (done.threads) here;
}

-- On a valid core, let a thread other than the idle one call `kusleep` for `ms` ticks, with a yield
-- that does not find 1 as the second argument of `schedule`, which `kernel_yield` does not set, and
-- let the timer alone act after that. With `total` the sum of the queue that it found, the thread
-- sleeps for `ms - total` further ticks, a difference that wraps round at 2 ^ 64, and the next tick
-- makes it ready: so it sleeps for too short a time when others sleep already, or for about 2 ^ 64
-- ticks.
pub kusleep_lem :
    (c c' : Cpu) (idle ms rsp from rsp' : ℕ)
    → IsValid c idle
    → c.current_thread ≢ idle
    → from ≢ 1
    → kusleep c ms rsp from ≡ some (rsp', c')
    → let delta = sub64 ms (get_total_delta c) in
      ((n : ℕ) → n ≤ delta → ((ticks n c').thread c.current_thread).state ≡ state_sleeping)
      × (((ticks (suc delta) c').thread c.current_thread).state ≡ state_ready)
kusleep_lem c c' idle ms rsp from rsp' v busy ne e =
    let delta = sub64 ms (get_total_delta c) in
    let p = c.current_thread in
    let (r, d, f, valid, done) =
      schedule_lem (fall_asleep c ms) idle rsp from (fall_asleep-IsValid c idle v ms busy) ne in
    let same : d ≡ c' = ground arith in
    let s = asleep-Sleeps c d ms rsp r v.current_listed done in
    let t : Sleeps c' p delta = subst (λ x. Sleeps x p delta) same s in
    (
      λ n le. (ticks-Sleeps n (delta - n) c' p (subst (Sleeps c' p) (omega arith) t)).asleep,
      rw (ticks-last delta c') (
          tick-wakes (ticks delta c') p
            (ticks-Sleeps delta 0 c' p (subst (Sleeps c' p) (omega arith) t))),
    )
