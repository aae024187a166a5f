-- ===== src/Proc/Core.antt =====
-- What the calls of the scheduler keep of the threads: their processes, and that none of them dies.
use hvos.Common.{
  ℕ, ◌≡◌, refl, subst, ◌∙◌, ◌⊎◌, inl, inr, ◌||◌, some, List, [], ◌∷◌, arith, ◌==◌, if◌then◌else◌,
  Bool-cases, length,
}
use hvos.Sched.{
  Cpu, DeltaQueueEntry, is_idle, get_next_thread, find_idle_thread, state_ready, state_dead, update,
  dispatch, schedule, update_curr_thread, notify_wait_channel, wake_tid, sleep_tick,
  update_sleeping_queue, fall_asleep,
}
use hvos.Sched.Events.{block_on, Step, ticks, notifies, yields, waits, sleeps, exits}

-- No thread changes its process, and none dies.
abbrev pub Kept : Cpu → Cpu → Type 0
Kept c c' =
    (t : ℕ)
    → ((c'.thread t).process ≡ (c.thread t).process)
      × ((c'.thread t).state ≡ state_dead → (c.thread t).state ≡ state_dead)

Kept-trans : (c d e : Cpu) → Kept c d → Kept d e → Kept c e
Kept-trans c d e k k' t = ((k' t).0 ∙ (k t).0, λ z. (k t).1 ((k' t).1 z))

dispatch-Kept : (c : Cpu) (next : ℕ) → Kept c (dispatch c next).1
unfolding dispatch update
dispatch-Kept c next t = (ground arith, λ z. ground arith)

save : Cpu → ℕ → Cpu
save c rsp = update c c.current_thread (λ t. record t { k_rsp = rsp })

save-Kept : (c : Cpu) (rsp : ℕ) → Kept c (save c rsp)
unfolding save update
save-Kept c rsp t = (ground arith, λ z. ground arith)

schedule-cases :
    (c c' : Cpu) (rsp from rsp' : ℕ)
    → schedule c rsp from ≡ some (rsp', c')
    → (c ≡ c') ⊎ ((save c rsp ≡ c') ⊎ ((next : ℕ) × ((dispatch (save c rsp) next).1 ≡ c')))
unfolding schedule save
schedule-cases c c' rsp from rsp' h = elim (Bool-cases (from == 1 || c.current_thread == 0)) [
  | inl skips ↦ inl (ground arith)
  | inr goes ↦
      let next = get_next_thread (save c rsp) in
      let idle = find_idle_thread (save c rsp).thread (save c rsp).thread_list in
      elim (Bool-cases (next == 0)) [
        | inr found ↦ inr (inr (next, ground arith))
        | inl null ↦
            elim (Bool-cases
              (is_idle ((save c rsp).thread c.current_thread) || length c.thread_list == 2)) [
                | inl stays ↦ inr (inl (ground arith))
                | inr leaves ↦ elim (Bool-cases (idle == 0)) [
                  | inl no_idle ↦ absurd (ground arith)
                  | inr there ↦ inr (inr (idle, ground arith))
                ]
              ]
      ]
]

pub schedule-Kept :
    (c c' : Cpu) (rsp from rsp' : ℕ) → schedule c rsp from ≡ some (rsp', c') → Kept c c'
schedule-Kept c c' rsp from rsp' h = elim (schedule-cases c c' rsp from rsp' h) [
  | inl same ↦ subst (Kept c) same (λ t. (refl, λ z. z))
  | inr (inl same) ↦ subst (Kept c) same (save-Kept c rsp)
  | inr (inr (next, same)) ↦ subst (Kept c) same (
      Kept-trans c (save c rsp) (dispatch (save c rsp) next).1 (save-Kept c rsp)
        (dispatch-Kept (save c rsp) next))
]

wake_tid-Kept : (ts : List ℕ) (c : Cpu) (tid : ℕ) → Kept c (wake_tid c ts tid)
unfolding wake_tid update
wake_tid-Kept [] c tid = λ t. (refl, λ z. z)
wake_tid-Kept (u ∷ us) c tid =
    let c' : Cpu =
      (if (c.thread u).tid == tid then update c u (λ t. record t { state = state_ready }) else c) in
    Kept-trans c c' (wake_tid c' us tid) (λ t. (ground arith, λ z. ground arith))
      (wake_tid-Kept us c' tid)

tick-Kept : (c : Cpu) → Kept c (update_curr_thread c)
unfolding update_curr_thread update
tick-Kept c t = (ground arith, λ z. ground arith)

sleep_tick-Kept : (c : Cpu) (q : List DeltaQueueEntry) → Kept c (sleep_tick c q)
unfolding sleep_tick
sleep_tick-Kept c [] t = (refl, λ z. z)
sleep_tick-Kept c (top ∷ rest) t = ground (arith, wake_tid-Kept c.thread_list c top.delta_tid t)

notify-Kept : (c : Cpu) (channel : ℕ) → Kept c (notify_wait_channel c channel)
unfolding notify_wait_channel update
notify-Kept c channel t = (ground arith, λ z. ground arith)

block_on-Kept : (c : Cpu) (channel : ℕ) → Kept c (block_on c channel)
unfolding block_on update
block_on-Kept c channel t = (ground arith, λ z. ground arith)

fall_asleep-Kept : (c : Cpu) (ms : ℕ) → Kept c (fall_asleep c ms)
unfolding fall_asleep update
fall_asleep-Kept c ms t = (ground arith, λ z. ground arith)

-- A step of the core in which no thread exits.
abbrev pub NoExit : {idle : ℕ} {c c' : Cpu} → Step idle c c' → Type 0
NoExit (ticks c) = Unit
NoExit (notifies c channel) = Unit
NoExit (yields c c' rsp from rsp' ne e) = Unit
NoExit (waits c c' channel rsp from rsp' busy ne e) = Unit
NoExit (sleeps c c' ms rsp from rsp' busy ne e) = Unit
NoExit (exits c c' rsp from rsp' busy ne e) = ⊥

pub Step-Kept : {idle : ℕ} {c c' : Cpu} (st : Step idle c c') → NoExit st → Kept c c'
Step-Kept (ticks c) ok =
    Kept-trans c (update_curr_thread c) (update_sleeping_queue (update_curr_thread c)) (tick-Kept c)
      (sleep_tick-Kept (update_curr_thread c) (update_curr_thread c).sleeping_queue)
Step-Kept (notifies c channel) ok = notify-Kept c channel
Step-Kept (yields c c' rsp from rsp' ne e) ok = schedule-Kept c c' rsp from rsp' e
Step-Kept (waits c c' channel rsp from rsp' busy ne e) ok =
    Kept-trans c (block_on c channel) c' (block_on-Kept c channel)
      (schedule-Kept (block_on c channel) c' rsp from rsp' e)
Step-Kept (sleeps c c' ms rsp from rsp' busy ne e) ok =
    Kept-trans c (fall_asleep c ms) c' (fall_asleep-Kept c ms)
      (schedule-Kept (fall_asleep c ms) c' rsp from rsp' e)
Step-Kept (exits c c' rsp from rsp' busy ne e) ok = absurd ok
