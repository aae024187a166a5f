-- ===== src/Drivers/Video.antt =====
-- src/video.c: the console on the frame buffer. Its memory is a function from the offset of a pixel's
-- four bytes to the colour; offsets are multiples of 4, as is the pitch. Coordinates are taken to
-- stay below 2 ^ 31 and `max_line` to be at least 1, so that nothing wraps round.
pub mod Pixels
pub mod Bounds
pub mod Console
mod Examples
use hvos.Common.{
  ℕ, zero, suc, ◌+◌, ◌-◌, ◌*◌, ◌/◌, ◌%◌, ◌^◌, ◌≤◌, ◌<◌, bit_and, bit_or, ◌≡◌, refl, sym, ap, subst,
  ◌∙◌, ◌≢◌, ◌↔◌, ◌⊎◌, inl, inr, Bool, true, false, not, ◌&&◌, ◌||◌, Option, none, some, List, [],
  ◌∷◌, ◌++◌, map, append_assoc, append-nil, arith, ltb, leb, ◌==◌, if◌then◌else◌, Bool-cases,
  Option-cases, every, every-lem, ltb→lt, lt→ltb, le→ltb, ==→eq, ==-ne, ==_refl, u8, u16, u32, u64,
  sub64, ◌<<<◌, ◌>>>◌, length, assign, replicate, take, drop, listed, get_elem?, get_or, set, All,
  length-set, get_or-set_self, get_or-set_ne, length-append, length-replicate, All-replicate,
  get_or-replicate, All-set, All-get_or,
}
use hvos.Common.Loops.{each_from, each_from-keeps}

-- `width`, `height` and `pitch` are those of `struct limine_framebuffer`.
pub record Screen : Type 0 where
  pub width : ℕ
  pub height : ℕ
  pub pitch : ℕ
  pub vram : ℕ → ℕ
  pub line : ℕ
  pub col : ℕ
  pub max_line : ℕ
  pub max_col : ℕ
  pub fgc : ℕ
  pub bgc : ℕ
  pub cursor_visible : Bool

abbrev pub font_width : ℕ
font_width = 8

abbrev pub font_height : ℕ
font_height = 16

abbrev pub term_margin : ℕ
term_margin = 10

abbrev pub tab_space : ℕ
tab_space = 8

abbrev pub white : ℕ
white = 0xffffffff

abbrev pub black : ℕ
black = 0

unfoldable pub put_pixel : Screen → ℕ → ℕ → ℕ → Screen
put_pixel s x y color =
    if leb s.width x || leb s.height y
    then s
    else record s { vram = assign s.vram (y * s.pitch + x * 4) color }

-- `for (y …) for (x …) put_pixel(…)` over a rectangle, each pixel with its colour.
unfoldable pub fill_row : (ℕ → ℕ) → ℕ → ℕ → ℕ → Screen → Screen
fill_row color x y w s = each_from w 0 (λ dx t. put_pixel t (x + dx) y (color dx)) s

unfoldable pub fill_rect : (ℕ → ℕ → ℕ) → ℕ → ℕ → ℕ → ℕ → Screen → Screen
fill_rect color x y w h s = each_from h 0 (λ dy t. fill_row (λ dx. color dx dy) x (y + dy) w t) s

unfoldable pub draw_rect : Screen → ℕ → ℕ → ℕ → ℕ → ℕ → Screen
draw_rect s x y w h color = fill_rect (λ dx dy. color) x y w h s

-- `row[0] & (0x80 >> dx)`, with the glyph's sixteen rows in a list.
abbrev pub glyph_bit : List ℕ → ℕ → ℕ → Bool
glyph_bit glyph dx dy = (get_or glyph dy 0 / 2 ^ (7 - dx)) % 2 == 1

unfoldable pub draw_glyph : Screen → ℕ → ℕ → List ℕ → Screen
draw_glyph s x y glyph =
    fill_rect (λ dx dy. if glyph_bit glyph dx dy then s.fgc else s.bgc) x y font_width font_height s

unfoldable pub print_cursor : Screen → Bool → Screen
print_cursor s show =
    fill_rect (λ dx dy. if show then s.fgc else s.bgc) (s.col * font_width + term_margin)
      (s.line * font_height + term_margin) 2 font_height s

unfoldable pub draw_cursor : Screen → Screen
draw_cursor s = record (if s.cursor_visible then s else print_cursor s true) {
  cursor_visible = true;
}

unfoldable pub hide_cursor : Screen → Screen
hide_cursor s = record (if s.cursor_visible then print_cursor s false else s) {
  cursor_visible = false;
}

unfoldable pub newline : Screen → Screen
newline s = let h = hide_cursor s in draw_cursor (record h { line = h.line + 1; col = 0 })

-- `memmove`, and then the last sixteen rows in the background's colour up to the pitch.
unfoldable pub scroll_up : Screen → Screen
scroll_up s =
    let dist = font_height * s.pitch in
    let total = s.height * s.pitch in
    record s {
      vram = λ a.
          if ltb a (total - dist)
          then s.vram (a + dist)
          else if ltb a total
          then s.bgc
          else s.vram a;
    }

unfoldable pub move_cursor_right : Screen → Screen
move_cursor_right s =
    let h = hide_cursor s in
    draw_cursor (if ltb h.col h.max_col then record h { col = h.col + 1 } else h)

unfoldable pub move_cursor_left : Screen → Screen
move_cursor_left s =
    let h = hide_cursor s in draw_cursor (if ltb 0 h.col then record h { col = h.col - 1 } else h)

unfoldable pub move_cursor_up : Screen → Screen
move_cursor_up s =
    let h = hide_cursor s in
    draw_cursor (if ltb 0 h.line then record h { line = h.line - 1 } else h)

unfoldable pub move_cursor_down : Screen → Screen
move_cursor_down s =
    let h = hide_cursor s in
    draw_cursor (if ltb h.line h.max_line then record h { line = h.line + 1 } else h)

-- The tests before a character is drawn.
unfoldable pub wrap_line : Screen → Screen
wrap_line s = if leb s.max_col s.col then newline s else s

unfoldable pub wrap_screen : Screen → Screen
wrap_screen s =
    if leb s.max_line s.line then (let t = scroll_up s in record t { line = t.line - 1 }) else s

-- `put_char` of a character that is drawn; `glyph` is its row of `font8x16`.
unfoldable pub put_glyph : Screen → List ℕ → Screen
put_glyph s glyph =
    let t = wrap_screen (wrap_line (hide_cursor s)) in
    draw_cursor (
      move_cursor_right (
        draw_glyph t (t.col * font_width + term_margin) (t.line * font_height + term_margin) glyph))

unfoldable pub put_tab : Screen → Screen
put_tab s = let h = hide_cursor s in record h { col = h.col - h.col % tab_space + tab_space }

-- `font` is the table `font8x16`, with its row for the space at the character's code.
unfoldable pub put_char : (ℕ → List ℕ) → Screen → ℕ → Screen
put_char font s c =
    if c == 10
    then newline (hide_cursor s)
    else if c == 9
    then put_tab s
    else if c == 8
    then move_cursor_left (put_glyph (move_cursor_left (hide_cursor s)) (font 32))
    else put_glyph s (font c)

unfoldable pub print : (ℕ → List ℕ) → Screen → List ℕ → Screen
print font s [] = s
print font s (c ∷ cs) = print font (put_char font s c) cs

-- Rows up to the pitch.
unfoldable pub clear_screen : Screen → Screen
clear_screen s = record s {
  vram = λ a. if ltb a (s.height * s.pitch) then black else s.vram a;
  col = 0;
  line = 0;
}

-- `init_fb` on a frame buffer that the boot loader gives.
unfoldable pub init_fb : Screen → Screen
init_fb s = clear_screen (record s {
  max_col = (s.width - term_margin * 2) / font_width;
  max_line = (s.height - term_margin * 2) / font_height - 1;
})
