-- ===== src/Drivers/Keyboard.antt =====
-- src/kernel/drivers/keyboard.c: the interrupt handler and its character buffer.
pub mod Scancode
pub mod Buffer
pub mod Events
mod Examples
use hvos.Common.{
  ℕ, zero, suc, ◌+◌, ◌-◌, ◌*◌, ◌/◌, ◌%◌, ◌^◌, ◌≤◌, ◌<◌, bit_and, bit_or, ◌≡◌, refl, sym, ap, subst,
  ◌∙◌, ◌≢◌, ◌↔◌, ◌⊎◌, inl, inr, Bool, true, false, not, ◌&&◌, ◌||◌, Option, none, some, List, [],
  ◌∷◌, ◌++◌, map, arith, ltb, leb, ◌==◌, if◌then◌else◌, Bool-cases, Option-cases, ltb→lt, lt→ltb,
  le→ltb, ==→eq, ==-ne, ==_refl, u8, u16, u32, u64, sub64, ◌<<<◌, ◌>>>◌, length, replicate, take,
  drop, get_elem?, get_or, set, All, length-set, get_or-set_self, get_or-set_ne, length-append,
  length-replicate, All-replicate, get_or-replicate, All-set, All-get_or,
}
use hvos.Common.Loops.{each_from, each_from-keeps}
use Scancode.{normal_scan_code_table, shift_scan_code_table}

abbrev pub buffer_size : ℕ
buffer_size = 256

-- `kdb_queue`, `kdb_head`, `kdb_tail`, `kdb_queue_occupancy` and `key_pressed`.
pub record Keyboard : Type 0 where
  pub queue : List ℕ
  pub head : ℕ
  pub tail : ℕ
  pub occupancy : ℕ
  pub key_pressed : ℕ → Bool

-- What the handler asks of the scheduler: to wake a reader of the console, and to yield.
pub data Request : Type 0 where
  notify yields : Request

unfoldable pub append_to_input_buffer : Keyboard → ℕ → Keyboard
append_to_input_buffer k c =
    if ltb k.occupancy buffer_size
    then record k {
      queue = set k.queue k.head c;
      head = u32 (k.head + 1) % buffer_size;
      occupancy = u32 (k.occupancy + 1);
    }
    else k

-- One character and a yield: the end of each branch of the handler.
type_char : Keyboard × List Request → ℕ → Keyboard × List Request
type_char (k, out) c = (append_to_input_buffer k c, out ++ notify ∷ yields ∷ [])

abbrev pub backspace : ℕ
backspace = 0x0E

abbrev pub lctrl : ℕ
lctrl = 0x1D

abbrev pub lshift : ℕ
lshift = 0x2A

abbrev pub rshift : ℕ
rshift = 0x36

abbrev pub cancel : ℕ
cancel = 0x18

abbrev pub clear : ℕ
clear = 0x02

on_backspace : ℕ → Keyboard × List Request → Keyboard × List Request
unfolding type_char
on_backspace scancode s = if scancode == backspace then type_char s 8 else s

on_control : ℕ → Keyboard × List Request → Keyboard × List Request
unfolding type_char normal_scan_code_table
on_control scancode s =
    if s.0.key_pressed lctrl
    then (let c = get_or normal_scan_code_table scancode 0 in
        let s' = if c == b'c' then type_char s cancel else s in
        if c == b'l' then type_char s' clear else s')
    else s

plain : ℕ → Keyboard × List Request → Keyboard × List Request
unfolding type_char normal_scan_code_table shift_scan_code_table
plain scancode s = type_char s (
    if s.0.key_pressed lshift || s.0.key_pressed rshift
    then get_or shift_scan_code_table scancode 0
    else get_or normal_scan_code_table scancode 0)

-- `key_pressed[scancode] = pressed`
note_key : Keyboard → ℕ → Bool → Keyboard
note_key k scancode pressed = record k {
  key_pressed = λ i. if i == scancode then pressed else k.key_pressed i;
}

-- The rest of the handler for a key that goes down; it may enter more than one character.
on_press : ℕ → Keyboard × List Request → Keyboard × List Request
unfolding on_backspace on_control plain
on_press scancode s = plain scancode (on_control scancode (on_backspace scancode s))

-- `raw` is the byte of the data port.
pub keyboard_handler_c : Keyboard → ℕ → Keyboard × List Request
keyboard_handler_c k raw =
    if ltb raw 128
    then on_press raw (note_key k raw true, [])
    else (note_key k (raw - 128) false, [])

-- 0 where there is no character.
unfoldable pub keyboard_get_char : Keyboard → ℕ × Keyboard
keyboard_get_char k =
    if ltb 0 k.occupancy
    then (
      get_or k.queue k.tail 0,
      record k { tail = u32 (k.tail + 1) % buffer_size; occupancy = k.occupancy - 1 },
    )
    else (0, k)
