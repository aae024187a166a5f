-- ===== src/Drivers/Console/Examples.antt =====
-- Two readers, and keys that come before, between and after their reads.
use hvos.Common.{ℕ, ◌*◌, ◌≡◌, refl, false, List, [], ◌∷◌, arith, ◌==◌, if◌then◌else◌, replicate}
use hvos.Drivers.Keyboard.{append_to_input_buffer, keyboard_get_char}
use hvos.Drivers.Keyboard.Buffer
use hvos.Drivers.Console.{Console, take_char, console_read}
use hvos.Drivers.Console.Readers.{Event, types, reads, IsKept, happens, happen, happen-IsKept}
use hvos.Drivers.Console.Wakes.{IsFair, console_read-IsFair}
use hvos.Sched.{Thread, state_ready, state_running}
use hvos.Mem.Paging.{zero_entry}

abbrev a_thread : ℕ → Thread
a_thread number = record {
  tid = number;
  name = [];
  state = if number == 2 then state_running else state_ready;
  k_rsp = 0x1000 * number;
  kernel_stack_base = 0x1000 * number;
  vruntime = 0;
  sleep_ticks = 0;
  block_channel = 0;
  process = 0;
}

abbrev two : Console
two = record {
  keyboard = record {
    queue = replicate 256 0;
    head = 0;
    tail = 0;
    occupancy = 0;
    key_pressed = λ i. false;
  };
  owner = 0;
  cpu = record {
    thread = a_thread;
    thread_list = 2 ∷ 3 ∷ [];
    current_thread = 2;
    sleeping_queue = [];
    rsp0 = 0x3000;
    stack_top = 0x3000;
    cr3_of = λ p. 0x5000;
    cr3 = 0x5000;
    tables = record {
      entry = λ t i. zero_entry;
      pmm = record { bitmap = []; total_pages = 0; used_pages = 0 };
    };
  };
}

two-IsValid : Buffer.IsValid two.keyboard
two-IsValid = record {
  room = refl;
  tail_in = omega arith;
  occupied = omega arith;
  head_at = omega arith;
}

abbrev events : List Event
events = reads 2 ∷ types 97 ∷ reads 3 ∷ types 98 ∷ reads 2 ∷ reads 3 ∷ reads 3 ∷ []

-- Thread 3 goes without a character while 2 owns the console.
gets_in_order : (happen 0x77 events two).got ≡ 97 ∷ 98 ∷ []
unfolding happen happens console_read take_char keyboard_get_char append_to_input_buffer
gets_in_order = refl

happen-IsKept_example : IsKept two (happen 0x77 events two)
happen-IsKept_example = happen-IsKept 0x77 events two two-IsValid

console_read-IsFair_example : IsFair 0x77 (console_read two 0x77)
console_read-IsFair_example = console_read-IsFair two 0x77
