-- ===== src/Drivers/Keyboard/Buffer.antt =====
-- The circular buffer holds a queue.
use hvos.Common.{
  ℕ, zero, suc, ◌+◌, ◌-◌, ◌%◌, ◌≤◌, ◌<◌, ◌≡◌, refl, ap, List, [], ◌∷◌, ◌++◌, arith, ltb,
  if◌then◌else◌, length, get_or, set, length-set, get_or-set_self, get_or-set_ne,
}
use hvos.Drivers.Keyboard.{Keyboard, buffer_size, append_to_input_buffer, keyboard_get_char}

pub record IsValid (k : Keyboard) : Type 0 where
  pub room : length k.queue ≡ buffer_size
  pub tail_in : k.tail < buffer_size
  pub occupied : k.occupancy ≤ buffer_size
  pub head_at : k.head ≡ (k.tail + k.occupancy) % buffer_size

-- The `n` characters from index `i` on, going round.
abbrev pub window : List ℕ → ℕ → ℕ → List ℕ
window queue i zero = []
window queue i (suc n) = get_or queue i 0 ∷ window queue ((i + 1) % buffer_size) n

abbrev pub contents : Keyboard → List ℕ
contents k = window k.queue k.tail k.occupancy

pub length-window : (queue : List ℕ) (i n : ℕ) → length (window queue i n) ≡ n
length-window queue i zero = refl
length-window queue i (suc n) = ap suc (length-window queue ((i + 1) % buffer_size) n)

window-pos :
    (queue : List ℕ) (i n : ℕ)
    → 0 < n
    → window queue i n ≡ get_or queue i 0 ∷ window queue ((i + 1) % buffer_size) (n - 1)
window-pos queue i zero h = absurd (omega arith)
window-pos queue i (suc n) h = ap (λ m. window queue i (suc m)) (omega arith)

-- A write just behind a window makes it longer by what is written.
window-set :
    (queue : List ℕ) (c n i j : ℕ)
    → length queue ≡ buffer_size
    → i < buffer_size
    → n < buffer_size
    → j ≡ (i + n) % buffer_size
    → window (set queue j c) i (suc n) ≡ window queue i n ++ c ∷ []
window-set queue c zero i j e hi hn at = ground (arith, get_or-set_self queue i c 0)
window-set queue c (suc n) i j e hi hn at =
    ground (arith, get_or-set_ne queue j i c 0, window-set queue c n ((i + 1) % buffer_size) j)

-- A bounded queue, oldest first; what does not fit is lost.
abbrev pub push : List ℕ → ℕ → List ℕ
push q c = if ltb (length q) buffer_size then q ++ c ∷ [] else q

abbrev pub pop : List ℕ → ℕ × List ℕ
pop [] = (0, [])
pop (c ∷ q) = (c, q)

module _ {k : Keyboard} (v : IsValid k) where
  pub append-IsValid : (c : ℕ) → IsValid (append_to_input_buffer k c)
  unfolding append_to_input_buffer
  append-IsValid c = ground (arith, length-set k.queue k.head c)

  pub append_refines : (c : ℕ) → contents (append_to_input_buffer k c) ≡ push (contents k) c
  unfolding append_to_input_buffer
  append_refines c = ground (
    arith,
    length-window k.queue k.tail k.occupancy,
    window-set k.queue c k.occupancy k.tail k.head,
  )

  pub get-IsValid : IsValid (keyboard_get_char k).1
  unfolding keyboard_get_char
  get-IsValid = ground arith

  pub get_refines : ((keyboard_get_char k).0, contents (keyboard_get_char k).1) ≡ pop (contents k)
  unfolding keyboard_get_char
  get_refines = ground (arith, window-pos k.queue k.tail k.occupancy)
