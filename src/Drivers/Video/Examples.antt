-- ===== src/Drivers/Video/Examples.antt =====
-- A small screen.
use hvos.Common.{ℕ, ◌+◌, ◌-◌, ◌≡◌, refl, true, List, [], ◌∷◌, arith, if◌then◌else◌}
use hvos.Drivers.Video.{
  Screen, put_glyph, print, init_fb, clear_screen, glyph_bit, white, black, font_width, font_height,
}
use hvos.Drivers.Video.Pixels.{IsFramed, Inside, pixel}
use hvos.Drivers.Video.Bounds.{print-Inside}
use hvos.Drivers.Video.Console.{in_rect, cell_x, cell_y, put_glyph_shows}

-- 64 by 68 pixels: five columns and two lines.
abbrev small : Screen
small = record {
  width = 64;
  height = 68;
  pitch = 256;
  vram = λ _. 7;
  line = 0;
  col = 0;
  max_line = 2;
  max_col = 5;
  fgc = white;
  bgc = black;
  cursor_visible = true;
}

small-IsFramed : IsFramed small
small-IsFramed = record { row_fits = omega arith; tall = omega arith }

-- Every glyph has one dot in its upper left corner.
abbrev dotted : ℕ → List ℕ
dotted c = 128 ∷ []

init_fb_small :
    ((init_fb small).max_col ≡ 5) × ((init_fb small).max_line ≡ 2) × (pixel (init_fb small) 3 4 ≡ 0)
unfolding init_fb clear_screen
init_fb_small = (refl, refl, refl)

print-Inside_example : Inside small (print dotted small (104 ∷ 105 ∷ 10 ∷ 8 ∷ []))
print-Inside_example = print-Inside dotted (104 ∷ 105 ∷ 10 ∷ 8 ∷ []) small small-IsFramed

put_glyph_shows_example :
    let t = put_glyph small (dotted 104) in
    (t.col ≡ small.col + 1)
    × (t.line ≡ small.line)
    × (pixel t 10 10 ≡ (
        if in_rect (cell_x (small.col + 1)) (cell_y small.line) 2 font_height 10 10
        then small.fgc
        else if in_rect (cell_x small.col) (cell_y small.line) font_width font_height 10 10
        then (if glyph_bit (dotted 104) (10 - cell_x small.col) (10 - cell_y small.line)
            then small.fgc
            else small.bgc)
        else pixel small 10 10))
put_glyph_shows_example =
    put_glyph_shows small (dotted 104) 10 10 small-IsFramed (omega arith) (omega arith)
      (omega arith) (omega arith)
