-- ===== src/Sched/Notify.antt =====
-- Which thread `notify_wait_channel` wakes.
use hvos.Common.{
  ℕ, ◌≡◌, refl, ap, ◌≢◌, ◌⊎◌, inl, inr, Bool, true, false, ◌&&◌, List, [], ◌∷◌, ◌++◌, arith, ◌==◌,
  Bool-cases, ==→eq, ==-ne, ==_refl, listed, All,
}
use hvos.Sched.{Thread, Cpu, state_ready, state_waiting, update, first_waiting, notify_wait_channel}

-- Whether the thread waits for the channel.
abbrev pub waits_for : (ℕ → Thread) → ℕ → ℕ → Bool
waits_for thread channel t =
    (thread t).state == state_waiting && (thread t).block_channel == channel

-- The first thread of a list that waits for the channel.
pub record IsFirstWaiting (thread : ℕ → Thread) (ts : List ℕ) (channel p : ℕ) : Type 0 where
  pub before : List ℕ
  pub after : List ℕ
  pub divided : ts ≡ before ++ p ∷ after
  pub none_before : All (λ t. waits_for thread channel t ≡ false) before
  pub waiting : waits_for thread channel p ≡ true

first_waiting-IsFirst :
    (thread : ℕ → Thread) (ts : List ℕ) (channel : ℕ)
    → listed ts 0 ≡ false
    → let p = first_waiting thread ts channel in
      ((p ≡ 0) × All (λ t. waits_for thread channel t ≡ false) ts)
      ⊎ ((p ≢ 0) × IsFirstWaiting thread ts channel p)
unfolding first_waiting
first_waiting-IsFirst thread [] channel nz = inl (refl, tt)
first_waiting-IsFirst thread (t ∷ ts) channel nz = elim (Bool-cases (waits_for thread channel t)) [
  | inl here ↦ rw here (
      inr (
        (λ z. absurd (ground arith)),
        record { before = []; after = ts; divided = refl; none_before = tt; waiting = here },
      ))
  | inr other ↦ rw other (elim (first_waiting-IsFirst thread ts channel (ground arith)) [
    | inl (none_, all) ↦ inl (none_, (refl, all))
    | inr (some_, r) ↦ inr (
      some_,
      record {
        before = t ∷ r.before;
        after = r.after;
        divided = ap (λ l. t ∷ l) r.divided;
        none_before = (other, r.none_before);
        waiting = r.waiting;
      },
    )
  ])
]

-- With no NULL in the list of threads, `notify_wait_channel` leaves the core as it was if the
-- channel is NULL, or if no thread of the list waits for it. Otherwise the first thread of the list
-- that waits for the channel is made ready and taken off the channel, and nothing else of the core
-- changes.
pub notify_wait_channel_lem :
    (c : Cpu) (channel : ℕ)
    → listed c.thread_list 0 ≡ false
    → let c' = notify_wait_channel c channel in
      ((c' ≡ c) × ((channel ≡ 0) ⊎ All (λ t. waits_for c.thread channel t ≡ false) c.thread_list))
      ⊎ ((p : ℕ) × (channel ≢ 0)
          × IsFirstWaiting c.thread c.thread_list channel p
          × (c'.thread p ≡ record (c.thread p) { state = state_ready; block_channel = 0 })
          × ((t : ℕ) → t ≢ p → c'.thread t ≡ c.thread t)
          × (c' ≡ record c { thread = c'.thread }))
unfolding notify_wait_channel update
notify_wait_channel_lem c channel nz = elim (Bool-cases (channel == 0)) [
  | inl null ↦ rw null (inl (refl, inl (==→eq channel 0 null)))
  | inr given ↦ elim (first_waiting-IsFirst c.thread c.thread_list channel nz) [
    | inl (none_, all) ↦ rw (given, none_) (inl (refl, inr all))
    | inr (some_, first) ↦
        let p = first_waiting c.thread c.thread_list channel in
        rw (given, ==-ne p 0 some_)
          (inr (
            p,
            (λ z. absurd (ground arith)),
            first,
            rw (==_refl p) refl,
            (λ t ne. ground arith),
            refl,
          ))
  ]
]
