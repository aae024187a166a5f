-- ===== src/Drivers/Console/Wakes.antt =====
-- A read that ends lets the others go on, and what a write does to the screen.
use hvos.Common.{
  ℕ, ◌≡◌, refl, ap, ◌∙◌, inl, inr, Bool, true, false, not, ◌&&◌, List, [], ◌∷◌, arith, ◌==◌,
  if◌then◌else◌, Bool-cases, ==_refl, length, All,
}
use hvos.Drivers.Keyboard.{keyboard_get_char}
use hvos.Drivers.Console.{
  Console, Reading, gets, sleeps, wake_readers, take_char, console_read, console_write,
}
use hvos.Drivers.Video.{Screen, put_char, print}
use hvos.Sched.{Cpu, state_ready, state_waiting, update}
use hvos.Sched.Events.{block_on}

abbrev pub waits : Cpu → ℕ → ℕ → Bool
waits c channel t = (c.thread t).state == state_waiting && (c.thread t).block_channel == channel

abbrev wake : Cpu → ℕ → ℕ → Cpu
wake c channel t =
    if waits c channel t
    then update c t (λ u. record u { state = state_ready; block_channel = 0 })
    else c

wake_other :
    (c : Cpu) (channel t other : ℕ)
    → waits c channel other ≡ false
    → waits (wake c channel t) channel other ≡ false
unfolding update
wake_other c channel t other quiet = elim (Bool-cases (waits c channel t)) [
  | inl asleep ↦ elim (Bool-cases (other == t)) [
    | inl same ↦ rw (asleep, same) refl
    | inr differ ↦ rw (asleep, differ) quiet
  ]
  | inr awake ↦ rw awake quiet
]

wake_self : (c : Cpu) (channel t : ℕ) → waits (wake c channel t) channel t ≡ false
unfolding update
wake_self c channel t = elim (Bool-cases (waits c channel t)) [
  | inl asleep ↦ rw (asleep, ==_refl t) refl
  | inr awake ↦ rw (awake, awake) refl
]

wake_readers-quiet :
    (ts : List ℕ) (c : Cpu) (channel other : ℕ)
    → waits c channel other ≡ false
    → waits (wake_readers c channel ts) channel other ≡ false
unfolding wake_readers
wake_readers-quiet [] c channel other quiet = quiet
wake_readers-quiet (t ∷ ts) c channel other quiet =
    wake_readers-quiet ts (wake c channel t) channel other (wake_other c channel t other quiet)

wake_readers-All :
    (ts : List ℕ) (c : Cpu) (channel : ℕ)
    → All (λ t. waits (wake_readers c channel ts) channel t ≡ false) ts
unfolding wake_readers
wake_readers-All [] c channel = tt
wake_readers-All (t ∷ ts) c channel = (
  wake_readers-quiet ts (wake c channel t) channel t (wake_self c channel t),
  wake_readers-All ts (wake c channel t) channel,
)

-- What a call leaves behind.
abbrev pub IsFair : ℕ → Reading → Type 0
IsFair channel (sleeps s) = waits s.cpu channel s.cpu.current_thread ≡ true
IsFair channel (gets c s) =
    ((c == 0) ≡ false) × (s.owner ≡ 0) × All (λ t. waits s.cpu channel t ≡ false) s.cpu.thread_list

block_on-waits :
    (c : Cpu) (channel : ℕ)
    → waits (block_on c channel) channel (block_on c channel).current_thread ≡ true
unfolding block_on update
block_on-waits c channel = rw (==_refl c.current_thread, ==_refl channel) refl

wake_readers-list :
    (ts : List ℕ) (c : Cpu) (channel : ℕ) → (wake_readers c channel ts).thread_list ≡ c.thread_list
unfolding wake_readers update
wake_readers-list [] c channel = refl
wake_readers-list (t ∷ ts) c channel = elim (Bool-cases (waits c channel t)) [
  | inl asleep ↦ wake_readers-list ts (wake c channel t) channel ∙ rw asleep refl
  | inr awake ↦ wake_readers-list ts (wake c channel t) channel ∙ rw awake refl
]

take_char-IsFair : (s : Console) (channel : ℕ) → IsFair channel (take_char s channel)
unfolding take_char
take_char-IsFair s channel = elim (Bool-cases ((keyboard_get_char s.keyboard).0 == 0)) [
  | inl none_ ↦ rw none_ (block_on-waits s.cpu channel)
  | inr some_ ↦ rw some_ (
    some_,
    refl,
    rw (wake_readers-list s.cpu.thread_list s.cpu channel)
        (wake_readers-All s.cpu.thread_list s.cpu channel),
  )
]

-- Whichever way a call of `console_read` ends: a thread that goes to sleep has marked itself as
-- waiting for the console; one that gets a character, which is not 0, leaves the console without an
-- owner and no thread of the list waiting for it.
pub console_read-IsFair : (s : Console) (channel : ℕ) → IsFair channel (console_read s channel)
unfolding console_read
console_read-IsFair s channel =
    elim (Bool-cases (not (s.owner == 0) && not (s.owner == s.cpu.current_thread))) [
      | inl other ↦ rw other (block_on-waits s.cpu channel)
      | inr mine ↦ rw mine (take_char-IsFair (record s { owner = s.cpu.current_thread }) channel)
    ]

-- A write puts every character on the screen in order, and returns how many there were.
pub console_write_lem :
    (font : ℕ → List ℕ) (text : List ℕ) (s : Screen)
    → console_write font s text ≡ (length text, print font s text)
unfolding console_write print
console_write_lem font [] s = refl
console_write_lem font (c ∷ cs) s =
    rw (console_write_lem font cs (put_char font s c))
      (ap (λ n. (n, print font (put_char font s c) cs)) (omega arith))
