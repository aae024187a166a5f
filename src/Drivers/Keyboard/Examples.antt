-- ===== src/Drivers/Keyboard/Examples.antt =====
-- Typing at an empty keyboard.
use hvos.Common.{false, List, [], ◌∷◌, replicate}
use hvos.Drivers.Keyboard.{Keyboard}
use hvos.Drivers.Keyboard.Events.{Event, press, read}

abbrev at_rest : Keyboard
at_rest = record {
  queue = replicate 256 0;
  head = 0;
  tail = 0;
  occupancy = 0;
  key_pressed = λ i. false;
}

-- Shift down, `a` down, shift up, `a` down, and four reads.
abbrev shifted : List Event
shifted = press 0x2A ∷ press 0x1E ∷ press 0xAA ∷ press 0x1E ∷ read ∷ read ∷ read ∷ read ∷ []
