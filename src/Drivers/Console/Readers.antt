-- ===== src/Drivers/Console/Readers.antt =====
-- Threads that read the console in any order.
use hvos.Common.{
  ℕ, ◌≡◌, refl, sym, ap, ◌∙◌, inl, inr, not, ◌&&◌, List, [], ◌∷◌, ◌++◌, append_assoc, append-nil,
  ltb, ◌==◌, if◌then◌else◌, Bool-cases,
}
use hvos.Drivers.Keyboard.{Keyboard, buffer_size, append_to_input_buffer, keyboard_get_char}
use hvos.Drivers.Keyboard.Buffer
use hvos.Drivers.Keyboard.Buffer.{
  contents, append-IsValid, append_refines, get-IsValid, get_refines, length-window, push, pop,
}
use hvos.Drivers.Console.{Console, Reading, gets, sleeps, take_char, console_read}

-- What happens at the console: a key gives a character, or a thread runs and reads.
pub data Event : Type 0 where
  types : ℕ → Event
  reads : ℕ → Event

-- The characters that the buffer took, those that reads returned, and the console.
pub record Outcome : Type 0 where
  pub taken : List ℕ
  pub got : List ℕ
  pub console : Console

abbrev result_of : Reading → Outcome
result_of (gets c s) = record { taken = []; got = c ∷ []; console = s }
result_of (sleeps s) = record { taken = []; got = []; console = s }

unfoldable pub happens : ℕ → Event → Console → Outcome
happens channel (types c) s = record {
  taken = if ltb s.keyboard.occupancy buffer_size then c ∷ [] else [];
  got = [];
  console = record s { keyboard = append_to_input_buffer s.keyboard c };
}
happens channel (reads t) s =
    result_of (console_read (record s { cpu = record s.cpu { current_thread = t } }) channel)

unfoldable pub happen : ℕ → List Event → Console → Outcome
happen channel [] s = record { taken = []; got = []; console = s }
happen channel (e ∷ es) s =
    let first = happens channel e s in
    let rest = happen channel es first.console in
    record {
      taken = first.taken ++ rest.taken;
      got = first.got ++ rest.got;
      console = rest.console;
    }

-- No read returns the character 0, which stands for none.
abbrev pub nonzero : List ℕ → List ℕ
nonzero [] = []
nonzero (c ∷ cs) = if c == 0 then nonzero cs else c ∷ nonzero cs

nonzero-append : (cs ds : List ℕ) → nonzero (cs ++ ds) ≡ nonzero cs ++ nonzero ds
nonzero-append [] ds = refl
nonzero-append (c ∷ cs) ds = elim (Bool-cases (c == 0)) [
  | inl none_ ↦ rw (none_, nonzero-append cs ds) refl
  | inr some_ ↦ rw (some_, nonzero-append cs ds) refl
]

-- A character and those behind it.
abbrev behind : ℕ × List ℕ → List ℕ
behind (c, q) = if c == 0 then nonzero q else c ∷ nonzero q

behind-pop : (q : List ℕ) → nonzero q ≡ behind (pop q)
behind-pop [] = refl
behind-pop (c ∷ q) = refl

behind-get :
    {k : Keyboard}
    → Buffer.IsValid k
    → nonzero (contents k ++ [])
      ≡ behind ((keyboard_get_char k).0, contents (keyboard_get_char k).1)
behind-get {k} v =
    ap nonzero (append-nil (contents k)) ∙ behind-pop (contents k) ∙ ap behind (sym (get_refines v))

abbrev pub IsKept : Console → Outcome → Type 0
IsKept s o =
    Buffer.IsValid o.console.keyboard
    × (nonzero (contents s.keyboard ++ o.taken) ≡ o.got ++ nonzero (contents o.console.keyboard))

-- A character leaves the buffer only to be returned, or if it is 0.
take_char-IsKept :
    (s : Console) (channel : ℕ)
    → Buffer.IsValid s.keyboard
    → IsKept s (result_of (take_char s channel))
unfolding take_char
take_char-IsKept s channel v = elim (Bool-cases ((keyboard_get_char s.keyboard).0 == 0)) [
  | inl none_ ↦ rw (none_, behind-get v, none_) (get-IsValid v, refl)
  | inr some_ ↦ rw (some_, behind-get v, some_) (get-IsValid v, refl)
]

types-taken :
    {k : Keyboard}
    → Buffer.IsValid k
    → (c : ℕ)
    → contents k ++ (if ltb k.occupancy buffer_size then c ∷ [] else [])
      ≡ contents (append_to_input_buffer k c)
types-taken {k} v c = elim (Bool-cases (ltb k.occupancy buffer_size)) [
  | inl room ↦ rw (append_refines v c, length-window k.queue k.tail k.occupancy, room) refl
  | inr full ↦
      rw (append_refines v c, length-window k.queue k.tail k.occupancy, full)
        (append-nil (contents k))
]

happens-IsKept :
    (channel : ℕ) (e : Event) (s : Console)
    → Buffer.IsValid s.keyboard
    → IsKept s (happens channel e s)
unfolding happens console_read
happens-IsKept channel (types c) s v = (append-IsValid v c, ap nonzero (types-taken v c))
happens-IsKept channel (reads t) s v =
    elim (Bool-cases (not (s.owner == 0) && not (s.owner == t))) [
      | inl other ↦ rw (other, append-nil (contents s.keyboard)) (v, refl)
      | inr mine ↦ rw mine (
          take_char-IsKept (record s { cpu = record s.cpu { current_thread = t }; owner = t })
            channel v)
    ]

nonzero-joins :
    (held taken taken_next between got got_next after : List ℕ)
    → nonzero (held ++ taken) ≡ got ++ nonzero between
    → nonzero (between ++ taken_next) ≡ got_next ++ after
    → nonzero (held ++ (taken ++ taken_next)) ≡ (got ++ got_next) ++ after
nonzero-joins held taken taken_next between got got_next after kept kept_next =
    ap nonzero (sym (append_assoc held taken taken_next))
    ∙ nonzero-append (held ++ taken) taken_next
    ∙ ap (λ l. l ++ nonzero taken_next) kept
    ∙ append_assoc got (nonzero between) (nonzero taken_next)
    ∙ ap (λ l. got ++ l) (sym (nonzero-append between taken_next) ∙ kept_next)
    ∙ sym (append_assoc got got_next after)

-- From a valid buffer, whatever is typed and whichever threads read: the buffer stays valid, and
-- what it held and took, without the zeros, is what the reads returned, in that order, and then
-- what the buffer still holds.
pub happen-IsKept :
    (channel : ℕ) (es : List Event) (s : Console)
    → Buffer.IsValid s.keyboard
    → IsKept s (happen channel es s)
unfolding happen
happen-IsKept channel [] s v = (v, ap nonzero (append-nil (contents s.keyboard)))
happen-IsKept channel (e ∷ es) s v =
    let first = happens channel e s in
    let (v', kept) = happens-IsKept channel e s v in
    let (v'', kept_next) = happen-IsKept channel es first.console v' in
    (
      v'',
      nonzero-joins (contents s.keyboard) first.taken _ (contents first.console.keyboard) first.got
          _ _ kept kept_next,
    )
