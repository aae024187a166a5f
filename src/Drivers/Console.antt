-- ===== src/Drivers/Console.antt =====
-- src/kernel/drivers/console.c: the console as a file, read from the keyboard and written to the
-- screen.
pub mod Readers
pub mod Wakes
mod Examples
use hvos.Common.{
  ℕ, zero, suc, ◌+◌, ◌-◌, ◌*◌, ◌/◌, ◌%◌, ◌^◌, ◌≤◌, ◌<◌, bit_and, bit_or, ◌≡◌, refl, sym, ap, subst,
  ◌∙◌, ◌≢◌, ◌↔◌, ◌⊎◌, inl, inr, Bool, true, false, not, ◌&&◌, ◌||◌, Option, none, some, List, [],
  ◌∷◌, ◌++◌, map, append_assoc, append-nil, arith, ltb, leb, ◌==◌, if◌then◌else◌, Bool-cases,
  Option-cases, every, every-lem, ltb→lt, lt→ltb, le→ltb, ==→eq, ==-ne, ==_refl, u8, u16, u32, u64,
  sub64, ◌<<<◌, ◌>>>◌, length, assign, replicate, take, drop, listed, get_elem?, get_or, set, All,
  length-set, get_or-set_self, get_or-set_ne, length-append, length-replicate, All-replicate,
  get_or-replicate, All-set, All-get_or,
}
use hvos.Common.Loops.{each_from, each_from-keeps}
use hvos.Drivers.Keyboard.{Keyboard, keyboard_get_char}
use hvos.Drivers.Video.{Screen, put_char}
use hvos.Sched.{Thread, Cpu, state_ready, state_waiting, update}
use hvos.Sched.Events.{block_on}

-- The keyboard, `console_read_owner` (0 for NULL), and the core.
pub record Console : Type 0 where
  pub keyboard : Keyboard
  pub owner : ℕ
  pub cpu : Cpu

-- Every thread of the list that waits for the channel is made ready.
unfoldable pub wake_readers : Cpu → ℕ → List ℕ → Cpu
wake_readers c channel [] = c
wake_readers c channel (t ∷ ts) =
    wake_readers
      (if (c.thread t).state == state_waiting && (c.thread t).block_channel == channel
        then update c t (λ u. record u { state = state_ready; block_channel = 0 })
        else c)
      channel ts

-- `sleeps` is a call of `kernel_yield`. When it returns, the thread is at one of the two loops
-- again, and goes on as a call from the start does: only its owner can set `console_read_owner`
-- back to NULL.
pub data Reading : Type 0 where
  gets : ℕ → Console → Reading
  sleeps : Console → Reading

unfoldable pub take_char : Console → ℕ → Reading
take_char s channel =
    let (c, k) = keyboard_get_char s.keyboard in
    if c == 0
    then sleeps (record s { keyboard = k; cpu = block_on s.cpu channel })
    else gets c
        (record { keyboard = k; owner = 0; cpu = wake_readers s.cpu channel s.cpu.thread_list })

-- The current thread reads, up to the byte that it gets or the next yield. `channel` is the address of
-- `console_read` itself.
unfoldable pub console_read : Console → ℕ → Reading
console_read s channel =
    if not (s.owner == 0) && not (s.owner == s.cpu.current_thread)
    then sleeps (record s { cpu = block_on s.cpu channel })
    else take_char (record s { owner = s.cpu.current_thread }) channel

-- The count, and the screen.
unfoldable pub console_write : (ℕ → List ℕ) → Screen → List ℕ → ℕ × Screen
console_write font s [] = (0, s)
console_write font s (c ∷ cs) =
    let (i, s') = console_write font (put_char font s c) cs in (i + 1, s')
