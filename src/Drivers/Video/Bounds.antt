-- ===== src/Drivers/Video/Bounds.antt =====
-- No output writes outside of the frame buffer.
use hvos.Common.{
  ℕ, ◌+◌, ◌-◌, ◌*◌, ◌≡◌, refl, ap, Bool, true, false, List, [], ◌∷◌, arith, ltb, leb, ◌==◌,
  if◌then◌else◌,
}
use hvos.Drivers.Video.{
  Screen, draw_glyph, print_cursor, draw_cursor, hide_cursor, newline, scroll_up, move_cursor_right,
  move_cursor_left, wrap_line, wrap_screen, put_glyph, put_tab, put_char, print, font_width,
  font_height, term_margin,
}
use hvos.Drivers.Video.Pixels.{
  IsFramed, Inside, Inside-refl, Inside-trans, Inside-IsFramed, fill_rect_lem,
}

-- A call that changes nothing outside of the frame buffer.
abbrev pub Safe : (Screen → Screen) → Type 0
Safe op = (s : Screen) → IsFramed s → Inside s (op s)

after : (op next : Screen → Screen) → Safe op → Safe next → Safe (λ s. next (op s))
after op next a b s f = Inside-trans (a s f) (b (op s) (Inside-IsFramed (a s f) f))

-- A change of the other fields only.
abbrev Aside : Screen → Screen → Type 0
Aside s t = (t.width ≡ s.width) × (t.height ≡ s.height) × (t.pitch ≡ s.pitch) × (t.vram ≡ s.vram)

Inside-Aside : {s t u : Screen} → Inside s t → Aside t u → Inside s u
Inside-Aside {s} {t} {u} i (w, h, p, v) =
    Inside-trans i
      (record { same_width = w; same_height = h; same_pitch = p; beyond = λ a k. ap (λ m. m a) v })

if_Inside : {s x y : Screen} (b : Bool) → Inside s x → Inside s y → Inside s (if b then x else y)
if_Inside true i j = i
if_Inside false i j = j

print_cursor-Safe : (show : Bool) → Safe (λ s. print_cursor s show)
unfolding print_cursor
print_cursor-Safe show s f = (fill_rect_lem _ _ _ 2 font_height s f).0

pub hide_cursor-Safe : Safe hide_cursor
unfolding hide_cursor
hide_cursor-Safe s f =
    Inside-Aside (if_Inside s.cursor_visible (print_cursor-Safe false s f) (Inside-refl s))
      (refl, refl, refl, refl)

pub draw_cursor-Safe : Safe draw_cursor
unfolding draw_cursor
draw_cursor-Safe s f =
    Inside-Aside (if_Inside s.cursor_visible (Inside-refl s) (print_cursor-Safe true s f))
      (refl, refl, refl, refl)

-- The cursor is hidden, other fields change, and it is drawn again.
redraw-Safe :
    (change : Screen → Screen)
    → ((s : Screen) → Aside s (change s))
    → Safe (λ s. draw_cursor (change (hide_cursor s)))
redraw-Safe change aside s f =
    let i = Inside-Aside (hide_cursor-Safe s f) (aside (hide_cursor s)) in
    Inside-trans i (draw_cursor-Safe (change (hide_cursor s)) (Inside-IsFramed i f))

newline-Safe : Safe newline
unfolding newline
newline-Safe =
    redraw-Safe (λ h. record h { line = h.line + 1; col = 0 }) (λ s. (refl, refl, refl, refl))

move_cursor_right-Safe : Safe move_cursor_right
unfolding move_cursor_right
move_cursor_right-Safe =
    redraw-Safe (λ h. if ltb h.col h.max_col then record h { col = h.col + 1 } else h)
      (λ s. ground arith)

move_cursor_left-Safe : Safe move_cursor_left
unfolding move_cursor_left
move_cursor_left-Safe =
    redraw-Safe (λ h. if ltb 0 h.col then record h { col = h.col - 1 } else h) (λ s. ground arith)

scroll_up-Safe : Safe scroll_up
unfolding scroll_up
scroll_up-Safe s f = record {
  same_width = refl;
  same_height = refl;
  same_pitch = refl;
  beyond = λ a h. ground arith;
}

wrap_line-Safe : Safe wrap_line
unfolding wrap_line
wrap_line-Safe s f = if_Inside (leb s.max_col s.col) (newline-Safe s f) (Inside-refl s)

wrap_screen-Safe : Safe wrap_screen
unfolding wrap_screen
wrap_screen-Safe s f =
    if_Inside (leb s.max_line s.line) (Inside-Aside (scroll_up-Safe s f) (refl, refl, refl, refl))
      (Inside-refl s)

pub draw_glyph-Safe :
    (x y : Screen → ℕ) (glyph : List ℕ) → Safe (λ s. draw_glyph s (x s) (y s) glyph)
unfolding draw_glyph
draw_glyph-Safe x y glyph s f = (fill_rect_lem _ _ _ font_width font_height s f).0

pub put_glyph-Safe : (glyph : List ℕ) → Safe (λ s. put_glyph s glyph)
unfolding put_glyph
put_glyph-Safe glyph =
    after (λ s. wrap_screen (wrap_line (hide_cursor s))) _
      (after (λ s. wrap_line (hide_cursor s)) wrap_screen
        (after hide_cursor wrap_line hide_cursor-Safe wrap_line-Safe) wrap_screen-Safe)
      (after
        (λ t. move_cursor_right (
          draw_glyph t (t.col * font_width + term_margin) (t.line * font_height + term_margin)
            glyph))
        draw_cursor
        (after
          (λ t.
            draw_glyph t (t.col * font_width + term_margin) (t.line * font_height + term_margin)
              glyph)
          move_cursor_right
          (draw_glyph-Safe (λ t. t.col * font_width + term_margin)
            (λ t. t.line * font_height + term_margin) glyph)
          move_cursor_right-Safe)
        draw_cursor-Safe)

put_char-Safe : (font : ℕ → List ℕ) (c : ℕ) → Safe (λ s. put_char font s c)
unfolding put_char put_tab
put_char-Safe font c s f =
    if_Inside (c == 10) (after hide_cursor newline hide_cursor-Safe newline-Safe s f) (
      if_Inside (c == 9) (Inside-Aside (hide_cursor-Safe s f) (refl, refl, refl, refl)) (
        if_Inside (c == 8)
          (after (λ s. put_glyph (move_cursor_left (hide_cursor s)) (font 32)) move_cursor_left
            (after (λ s. move_cursor_left (hide_cursor s)) (λ s. put_glyph s (font 32))
              (after hide_cursor move_cursor_left hide_cursor-Safe move_cursor_left-Safe)
              (put_glyph-Safe (font 32)))
            move_cursor_left-Safe s f)
          (put_glyph-Safe (font c) s f)))

-- Printing any text, wherever the cursor stands, writes nothing outside of the frame buffer, if its
-- rows hold their pixels and it has at least 16 rows.
pub print-Inside :
    (font : ℕ → List ℕ) (text : List ℕ) (s : Screen) → IsFramed s → Inside s (print font s text)
unfolding print
print-Inside font [] s f = Inside-refl s
print-Inside font (c ∷ cs) s f =
    let i = put_char-Safe font c s f in
    Inside-trans i (print-Inside font cs (put_char font s c) (Inside-IsFramed i f))
