-- ===== src/Drivers/Keyboard/Events.antt =====
-- Key presses and reads in any order, against a bounded queue of the characters typed.
use hvos.Common.{
  ℕ, ◌-◌, ◌≡◌, Bool, true, false, ◌||◌, List, [], ◌∷◌, ◌++◌, ltb, ◌==◌, if◌then◌else◌, get_or,
}
use hvos.Drivers.Keyboard.{
  Keyboard, keyboard_handler_c, keyboard_get_char, backspace, lctrl, lshift, rshift, cancel, clear,
  Request,
}
use hvos.Drivers.Keyboard.Scancode.{normal_scan_code_table, shift_scan_code_table}
use hvos.Drivers.Keyboard.Buffer.{IsValid, contents, push, pop}

pub data Event : Type 0 where
  press : ℕ → Event
  read : Event

-- The characters that reads return, in order.
pub run : Keyboard → List Event → List ℕ
run k [] = []
run k (press raw ∷ es) = run (keyboard_handler_c k raw).0 es
run k (read ∷ es) = let (c, k') = keyboard_get_char k in c ∷ run k' es

-- The keys that are down after a byte of the data port.
abbrev pub keys_after : (ℕ → Bool) → ℕ → ℕ → Bool
keys_after keys raw =
    if ltb raw 128
    then (λ i. if i == raw then true else keys i)
    else (λ i. if i == raw - 128 then false else keys i)

abbrev control_chars : (ℕ → Bool) → ℕ → List ℕ
control_chars keys code =
    let c = get_or normal_scan_code_table code 0 in
    if keys lctrl
    then (if c == b'c' then cancel ∷ [] else []) ++ (if c == b'l' then clear ∷ [] else [])
    else []

abbrev plain_char : (ℕ → Bool) → ℕ → ℕ
plain_char keys code =
    if keys lshift || keys rshift
    then get_or shift_scan_code_table code 0
    else get_or normal_scan_code_table code 0

-- What a key that goes down types, with these keys down.
pub typed : (ℕ → Bool) → ℕ → List ℕ
typed keys code =
    (if code == backspace then 8 ∷ [] else [])
    ++ control_chars keys code
    ++ plain_char keys code ∷ []

abbrev pub push_all : List ℕ → List ℕ → List ℕ
push_all q [] = q
push_all q (c ∷ cs) = push_all (push q c) cs

-- The same for a bounded queue `q` and the keys that are down.
pub run_queue : (ℕ → Bool) → List ℕ → List Event → List ℕ
run_queue keys q [] = []
run_queue keys q (press raw ∷ es) =
    let keys' = keys_after keys raw in
    let q' = if ltb raw 128 then push_all q (typed keys' raw) else q in run_queue keys' q' es
run_queue keys q (read ∷ es) = let (c, q') = pop q in c ∷ run_queue keys q' es

-- What a part of the handler does: from the characters `cs` on, with the keys left alone.
record Types (s s' : Keyboard × List Request) (cs : List ℕ) : Type 0 where
  valid : IsValid s.0 → IsValid s'.0
  holds : IsValid s.0 → contents s'.0 ≡ push_all (contents s.0) cs
  keys : s'.0.key_pressed ≡ s.0.key_pressed
