-- ===== src/Drivers/Video/Console.antt =====
-- A character that is drawn: what every pixel shows after.
use hvos.Common.{
  ℕ, ◌+◌, ◌-◌, ◌*◌, ◌<◌, ◌≡◌, refl, ap, ◌∙◌, Bool, true, false, not, ◌&&◌, List, arith, ltb, leb,
  if◌then◌else◌,
}
use hvos.Common.Loops.{each_from, each_from-keeps}
use hvos.Drivers.Video.{
  Screen, put_pixel, fill_row, fill_rect, glyph_bit, draw_glyph, print_cursor, draw_cursor,
  hide_cursor, move_cursor_right, wrap_line, wrap_screen, put_glyph, font_width, font_height,
  term_margin,
}
use hvos.Drivers.Video.Bounds.{hide_cursor-Safe, draw_glyph-Safe}
use hvos.Drivers.Video.Pixels.{IsFramed, Inside-trans, Inside-IsFramed, fill_rect_lem, pixel}

-- The fields that drawing leaves alone.
record SameText (s t : Screen) : Type 0 where
  same_line : t.line ≡ s.line
  same_col : t.col ≡ s.col
  same_max_line : t.max_line ≡ s.max_line
  same_max_col : t.max_col ≡ s.max_col
  same_fgc : t.fgc ≡ s.fgc
  same_bgc : t.bgc ≡ s.bgc
  same_visible : t.cursor_visible ≡ s.cursor_visible

put_pixel-SameText :
    {s t : Screen} (x y color : ℕ) → SameText s t → SameText s (put_pixel t x y color)
unfolding put_pixel
put_pixel-SameText x y color k = ground arith

fill_rect-SameText :
    (color : ℕ → ℕ → ℕ) (x y w h : ℕ) (s : Screen) → SameText s (fill_rect color x y w h s)
unfolding fill_rect fill_row
fill_rect-SameText color x y w h s =
    each_from-keeps (λ k t. SameText s t)
      (λ dy t. each_from w 0 (λ dx u. put_pixel u (x + dx) (y + dy) (color dx dy)) t) h 0 h s
      (omega arith)
      (λ k t lo hi now.
        each_from-keeps (λ j u. SameText s u) (λ dx u. put_pixel u (x + dx) (y + k) (color dx k)) w
          0 w t (omega arith)
          (λ j u lo' hi' now'. put_pixel-SameText (x + j) (y + k) (color j k) now') now)
      (ground arith)

-- Whether a pixel lies in a rectangle.
abbrev pub in_rect : ℕ → ℕ → ℕ → ℕ → ℕ → ℕ → Bool
in_rect x y w h x' y' = leb x x' && ltb x' (x + w) && leb y y' && ltb y' (y + h)

-- The left and the upper edge of a cell.
abbrev pub cell_x : ℕ → ℕ
cell_x col = col * font_width + term_margin

abbrev pub cell_y : ℕ → ℕ
cell_y line = line * font_height + term_margin

pixel_if :
    (b : Bool) (t u : Screen) (x y : ℕ)
    → pixel (if b then t else u) x y ≡ (if b then pixel t x y else pixel u x y)
pixel_if true t u x y = refl
pixel_if false t u x y = refl

if_and :
    (b c : Bool) (m n : ℕ) → (if b then (if c then m else n) else n) ≡ (if b && c then m else n)
if_and true c m n = refl
if_and false c m n = refl

if_not :
    (b c : Bool) (m n : ℕ) → (if b then n else if c then m else n) ≡ (if not b && c then m else n)
if_not true c m n = refl
if_not false c m n = refl

module _ (s : Screen) (f : IsFramed s) (x y : ℕ) (hx : x < s.width) (hy : y < s.height) where
  hide_cursor_lem : pixel (hide_cursor s) x y ≡ (
      if s.cursor_visible && in_rect (cell_x s.col) (cell_y s.line) 2 font_height x y
      then s.bgc
      else pixel s x y)
  unfolding hide_cursor print_cursor
  hide_cursor_lem =
      pixel_if s.cursor_visible (print_cursor s false) s x y
      ∙ ap (λ p. if s.cursor_visible then p else pixel s x y)
          ((fill_rect_lem (λ dx dy. s.bgc) (cell_x s.col) (cell_y s.line) 2 font_height s f).1 x y
            hx hy)
      ∙ if_and s.cursor_visible (in_rect (cell_x s.col) (cell_y s.line) 2 font_height x y) s.bgc
          (pixel s x y)

  draw_cursor_lem : pixel (draw_cursor s) x y ≡ (
      if not s.cursor_visible && in_rect (cell_x s.col) (cell_y s.line) 2 font_height x y
      then s.fgc
      else pixel s x y)
  unfolding draw_cursor print_cursor
  draw_cursor_lem =
      pixel_if s.cursor_visible s (print_cursor s true) x y
      ∙ ap (λ p. if s.cursor_visible then pixel s x y else p)
          ((fill_rect_lem (λ dx dy. s.fgc) (cell_x s.col) (cell_y s.line) 2 font_height s f).1 x y
            hx hy)
      ∙ if_not s.cursor_visible (in_rect (cell_x s.col) (cell_y s.line) 2 font_height x y) s.fgc
          (pixel s x y)

-- The fields after the cursor was hidden or drawn.
record SameBut (visible : Bool) (s t : Screen) : Type 0 where
  kept_line : t.line ≡ s.line
  kept_col : t.col ≡ s.col
  kept_max_line : t.max_line ≡ s.max_line
  kept_max_col : t.max_col ≡ s.max_col
  kept_fgc : t.fgc ≡ s.fgc
  kept_bgc : t.bgc ≡ s.bgc
  now_visible : t.cursor_visible ≡ visible

hide_cursor-SameBut : (s : Screen) → SameBut false s (hide_cursor s)
unfolding hide_cursor print_cursor
hide_cursor-SameBut s =
    let k = fill_rect-SameText (λ dx dy. s.bgc) (cell_x s.col) (cell_y s.line) 2 font_height s in
    ground (arith, k.same_line, k.same_col, k.same_max_line, k.same_max_col, k.same_fgc, k.same_bgc)

draw_cursor-SameBut : (s : Screen) → SameBut true s (draw_cursor s)
unfolding draw_cursor print_cursor
draw_cursor-SameBut s =
    let k = fill_rect-SameText (λ dx dy. s.fgc) (cell_x s.col) (cell_y s.line) 2 font_height s in
    ground (arith, k.same_line, k.same_col, k.same_max_line, k.same_max_col, k.same_fgc, k.same_bgc)

-- The screen behind the tests, when there is room: the cursor is hidden.
wrap_none : (s : Screen) → s.col < s.max_col → s.line < s.max_line → wrap_screen (wrap_line s) ≡ s
unfolding wrap_screen wrap_line
wrap_none s h k = rw (lem1, lem2) refl
  where
    lem1 : leb s.max_col s.col ≡ false
    lem1 = ground arith

    lem2 : leb s.max_line s.line ≡ false
    lem2 = ground arith

-- A hidden cursor is not hidden again; it moves, and is drawn.
move_right_hidden :
    (s : Screen)
    → s.cursor_visible ≡ false
    → s.col < s.max_col
    → move_cursor_right s ≡ draw_cursor (record s { col = s.col + 1; cursor_visible = false })
unfolding move_cursor_right hide_cursor
move_right_hidden s h k = ground arith

draw_visible : (s : Screen) → s.cursor_visible ≡ true → draw_cursor s ≡ s
unfolding draw_cursor
draw_visible s h = ground arith

draw_glyph-SameText : (s : Screen) (x y : ℕ) (glyph : List ℕ) → SameText s (draw_glyph s x y glyph)
unfolding draw_glyph
draw_glyph-SameText s x y glyph =
    fill_rect-SameText (λ dx dy. if glyph_bit glyph dx dy then s.fgc else s.bgc) x y font_width
      font_height s

-- The screen with the glyph drawn and the cursor hidden.
abbrev with_glyph : Screen → List ℕ → Screen
with_glyph s glyph = let h = hide_cursor s in draw_glyph h (cell_x h.col) (cell_y h.line) glyph

put_glyph-eq :
    (s : Screen) (glyph : List ℕ)
    → s.col < s.max_col
    → s.line < s.max_line
    → put_glyph s glyph
      ≡ draw_cursor (record (with_glyph s glyph) { col = s.col + 1; cursor_visible = false })
unfolding put_glyph
put_glyph-eq s glyph hc hl =
    let k = hide_cursor-SameBut s in
    let h = hide_cursor s in
    let g = with_glyph s glyph in
    let t = draw_glyph-SameText h (cell_x h.col) (cell_y h.line) glyph in
    let m : Screen = record g { col = g.col + 1; cursor_visible = false } in
    let at_col : g.col + 1 ≡ s.col + 1 = omega (arith, t.same_col, k.kept_col) in
    ap (λ u. draw_cursor (move_cursor_right (draw_glyph u (cell_x u.col) (cell_y u.line) glyph)))
      (wrap_none h (omega (arith, k.kept_col, k.kept_max_col))
        (omega (arith, k.kept_line, k.kept_max_line)))
    ∙ ap draw_cursor (
        move_right_hidden g (t.same_visible ∙ k.now_visible)
          (omega (arith, k.kept_col, k.kept_max_col, t.same_col, t.same_max_col)))
    ∙ draw_visible (draw_cursor m) (draw_cursor-SameBut m).now_visible
    ∙ ap (λ c. draw_cursor (record g { col = c; cursor_visible = false })) at_col

glyph_at :
    (s : Screen)
    → IsFramed s
    → (x y : ℕ) (glyph : List ℕ) (x' y' : ℕ) → x' < s.width
    → y' < s.height
    → pixel (draw_glyph s x y glyph) x' y' ≡ (
        if in_rect x y font_width font_height x' y'
        then (if glyph_bit glyph (x' - x) (y' - y) then s.fgc else s.bgc)
        else pixel s x' y')
unfolding draw_glyph
glyph_at s f x y glyph x' y' hx hy = (fill_rect_lem _ x y font_width font_height s f).1 x' y' hx hy

-- The bar of the cursor lies in the cell.
covered :
    (cx cy x y m bgc old : ℕ) (visible : Bool)
    → (if in_rect cx cy font_width font_height x y
        then m
        else if visible && in_rect cx cy 2 font_height x y
        then bgc
        else old)
      ≡ (if in_rect cx cy font_width font_height x y then m else old)
covered cx cy x y m bgc old visible = ground arith

-- The layers of the picture: the new bar, the glyph, and the old bar, which the glyph covers.
picture :
    (col line fgc bgc hcol hline hfgc hbgc gline gfgc old hp gp : ℕ) (visible : Bool) (x y : ℕ)
    (glyph : List ℕ)
    → hcol ≡ col
    → hline ≡ line
    → hfgc ≡ fgc
    → hbgc ≡ bgc
    → gline ≡ line
    → gfgc ≡ fgc
    → hp ≡ (if visible && in_rect (cell_x col) (cell_y line) 2 font_height x y then bgc else old)
    → gp ≡ (
        if in_rect (cell_x hcol) (cell_y hline) font_width font_height x y
        then (if glyph_bit glyph (x - cell_x hcol) (y - cell_y hline) then hfgc else hbgc)
        else hp)
    → (if in_rect (cell_x (col + 1)) (cell_y gline) 2 font_height x y then gfgc else gp) ≡ (
        if in_rect (cell_x (col + 1)) (cell_y line) 2 font_height x y
        then fgc
        else if in_rect (cell_x col) (cell_y line) font_width font_height x y
        then (if glyph_bit glyph (x - cell_x col) (y - cell_y line) then fgc else bgc)
        else old)
picture col line fgc bgc hcol hline hfgc hbgc gline gfgc old hp gp visible x y glyph e1 e2 e3 e4 e5
      e6 eh eg =
    rw (e5, e6)
      (ap (λ p. if in_rect (cell_x (col + 1)) (cell_y line) 2 font_height x y then fgc else p)
        (eg
          ∙ rw (e1, e2, e3, e4)
              (ap
                  (λ p.
                    if in_rect (cell_x col) (cell_y line) font_width font_height x y
                    then (if glyph_bit glyph (x - cell_x col) (y - cell_y line) then fgc else bgc)
                    else p)
                  eh
                ∙ covered (cell_x col) (cell_y line) x y
                    (if glyph_bit glyph (x - cell_x col) (y - cell_y line) then fgc else bgc) bgc
                    old visible)))

-- A character that is drawn where the line and the screen have room shows its glyph in the
-- cell of the cursor, in the foreground's colour on the background's; the cursor moves one column
-- to the right and is shown there; and every other pixel on the screen is as before, except that the
-- old bar of the cursor is gone, which lay in the cell.
pub put_glyph_shows :
    (s : Screen) (glyph : List ℕ) (x y : ℕ)
    → IsFramed s
    → s.col < s.max_col
    → s.line < s.max_line
    → x < s.width
    → y < s.height
    → let t = put_glyph s glyph in
      (t.col ≡ s.col + 1)
      × (t.line ≡ s.line)
      × (pixel t x y ≡ (
          if in_rect (cell_x (s.col + 1)) (cell_y s.line) 2 font_height x y
          then s.fgc
          else if in_rect (cell_x s.col) (cell_y s.line) font_width font_height x y
          then (if glyph_bit glyph (x - cell_x s.col) (y - cell_y s.line) then s.fgc else s.bgc)
          else pixel s x y))
put_glyph_shows s glyph x y f hc hl hx hy =
    let k = hide_cursor-SameBut s in
    let h = hide_cursor s in
    let g = with_glyph s glyph in
    let t = draw_glyph-SameText h (cell_x h.col) (cell_y h.line) glyph in
    let m : Screen = record g { col = s.col + 1; cursor_visible = false } in
    let d = draw_cursor-SameBut m in
    let in_h = hide_cursor-Safe s f in
    let in_g =
      Inside-trans in_h (
        draw_glyph-Safe (λ u. cell_x u.col) (λ u. cell_y u.line) glyph h
          (Inside-IsFramed in_h f)) in
    let framed_g = Inside-IsFramed in_g f in
    let framed_m : IsFramed m = record { row_fits = framed_g.row_fits; tall = framed_g.tall } in
    let e = put_glyph-eq s glyph hc hl in
    (
      ap (λ u. u.col) e ∙ d.kept_col,
      ap (λ u. u.line) e ∙ d.kept_line ∙ t.same_line ∙ k.kept_line,
      ap (λ u. pixel u x y) e
          ∙ draw_cursor_lem m framed_m x y (omega (arith, in_g.same_width))
              (omega (arith, in_g.same_height))
          ∙ picture s.col s.line s.fgc s.bgc h.col h.line h.fgc h.bgc g.line g.fgc (pixel s x y)
              (pixel h x y) (pixel g x y) s.cursor_visible x y glyph k.kept_col k.kept_line
              k.kept_fgc k.kept_bgc (t.same_line ∙ k.kept_line) (t.same_fgc ∙ k.kept_fgc)
              (hide_cursor_lem s f x y hx hy)
              (glyph_at h (Inside-IsFramed in_h f) (cell_x h.col) (cell_y h.line) glyph x y
                (omega (arith, in_h.same_width)) (omega (arith, in_h.same_height))),
    )
