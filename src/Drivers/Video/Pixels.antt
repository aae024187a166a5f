-- ===== src/Drivers/Video/Pixels.antt =====
-- What a rectangle of pixels shows, and that it stays inside of the frame buffer.
use hvos.Common.{
  ℕ, ◌+◌, ◌-◌, ◌*◌, ◌≤◌, ◌<◌, ◌≡◌, refl, ap, ◌∙◌, inl, inr, ◌&&◌, arith, ltb, leb, ◌==◌,
  if◌then◌else◌, Bool-cases, ltb→lt, ==→eq,
}
use hvos.Common.Loops.{each_from-keeps}
use hvos.Drivers.Video.{Screen, put_pixel, fill_row, fill_rect}

-- The boot loader's promise on a frame buffer: a row holds its pixels.
pub record IsFramed (s : Screen) : Type 0 where
  pub row_fits : s.width * 4 ≤ s.pitch
  pub tall : 16 ≤ s.height

abbrev pub pixel : Screen → ℕ → ℕ → ℕ
pixel s x y = s.vram (y * s.pitch + x * 4)

-- The same frame buffer, and nothing changed outside of it.
pub record Inside (s t : Screen) : Type 0 where
  pub same_width : t.width ≡ s.width
  pub same_height : t.height ≡ s.height
  pub same_pitch : t.pitch ≡ s.pitch
  pub beyond : (a : ℕ) → s.height * s.pitch ≤ a → t.vram a ≡ s.vram a

pub Inside-refl : (s : Screen) → Inside s s
Inside-refl s = record {
  same_width = refl;
  same_height = refl;
  same_pitch = refl;
  beyond = λ a h. refl;
}

pub Inside-trans : {r s t : Screen} → Inside r s → Inside s t → Inside r t
Inside-trans {r} {s} {t} a b = record {
  same_width = b.same_width ∙ a.same_width;
  same_height = b.same_height ∙ a.same_height;
  same_pitch = b.same_pitch ∙ a.same_pitch;
  beyond = λ d h. b.beyond d (rw (a.same_height, a.same_pitch) h) ∙ a.beyond d h;
}

pub Inside-IsFramed : {s t : Screen} → Inside s t → IsFramed s → IsFramed t
Inside-IsFramed {s} {t} i f = record {
  row_fits = omega (arith, i.same_width, i.same_pitch, f.row_fits);
  tall = omega (arith, i.same_height, f.tall);
}

offset_in : (x y w h p : ℕ) → x < w → y < h → w * 4 ≤ p → y * p + x * 4 < h * p
offset_in x y w h p hx hy fits = grind arith

offset_same :
    (x y x' y' w p : ℕ)
    → x < w
    → x' < w
    → w * 4 ≤ p
    → y * p + x * 4 ≡ y' * p + x' * 4
    → (x ≡ x') × (y ≡ y')
offset_same x y x' y' w p hx hx' fits e = elim (Bool-cases (ltb y y')) [
  | inl less ↦ absurd (omega (arith, offset_in x y w y' p hx (ltb→lt y y' less) fits, e))
  | inr not_less ↦ elim (Bool-cases (ltb y' y)) [
    | inl less ↦ absurd (omega (arith, offset_in x' y' w y p hx' (ltb→lt y' y less) fits, e))
    | inr neither ↦
        let same : y ≡ y' = ground arith in (omega (arith, ap (λ r. r * p) same, e), same)
  ]
]

put_pixel-Inside : (s : Screen) (x y color : ℕ) → IsFramed s → Inside s (put_pixel s x y color)
unfolding put_pixel
put_pixel-Inside s x y color f = record {
  same_width = ground arith;
  same_height = ground arith;
  same_pitch = ground arith;
  beyond = λ a h. ground (arith, offset_in x y s.width s.height s.pitch);
}

put_pixel_lem :
    (s : Screen) (x y color x' y' : ℕ)
    → IsFramed s
    → x' < s.width
    → y' < s.height
    → pixel (put_pixel s x y color) x' y' ≡ (if x == x' && y == y' then color else pixel s x' y')
unfolding put_pixel
put_pixel_lem s x y color x' y' f hx hy =
    ground (arith, offset_same x y x' y' s.width s.pitch, f.row_fits)

-- One more pixel of a row.
row_step :
    (color : ℕ → ℕ) (x y k x' y' old now : ℕ)
    → now ≡ (if leb x x' && ltb x' (x + k) && y == y' then color (x' - x) else old)
    → (if x + k == x' && y == y' then color k else now)
      ≡ (if leb x x' && ltb x' (x + (k + 1)) && y == y' then color (x' - x) else old)
row_step color x y k x' y' old now e = elim (Bool-cases (x + k == x')) [
  | inl here ↦
      let same : x' - x ≡ k = omega (arith, ==→eq (x + k) x' here) in ground (arith, ap color same)
  | inr other ↦ ground arith
]

fill_row_lem :
    (color : ℕ → ℕ) (x y w : ℕ) (s : Screen)
    → IsFramed s
    → Inside s (fill_row color x y w s)
      × ((x' y' : ℕ)
          → x' < s.width
          → y' < s.height
          → pixel (fill_row color x y w s) x' y'
            ≡ (if leb x x' && ltb x' (x + w) && y == y' then color (x' - x) else pixel s x' y'))
unfolding fill_row
fill_row_lem color x y w s f =
    each_from-keeps
      (λ k t.
        Inside s t
        × ((x' y' : ℕ)
            → x' < s.width
            → y' < s.height
            → pixel t x' y'
              ≡ (if leb x x' && ltb x' (x + k) && y == y' then color (x' - x) else pixel s x' y')))
      (λ dx t. put_pixel t (x + dx) y (color dx)) w 0 w s (omega arith)
      (λ k t lo hi now. (
        Inside-trans now.0 (put_pixel-Inside t (x + k) y (color k) (Inside-IsFramed now.0 f)),
        λ x' y' hx hy.
            put_pixel_lem t (x + k) y (color k) x' y' (Inside-IsFramed now.0 f)
              (omega (arith, now.0.same_width)) (omega (arith, now.0.same_height))
            ∙ row_step color x y k x' y' (pixel s x' y') (pixel t x' y') (now.1 x' y' hx hy),
      ))
      (Inside-refl s, λ x' y' hx hy. ground arith)

-- One more row of a rectangle.
rect_step :
    (color : ℕ → ℕ → ℕ) (x y w k x' y' old now : ℕ)
    → now ≡ (
        if leb x x' && ltb x' (x + w) && leb y y' && ltb y' (y + k)
        then color (x' - x) (y' - y)
        else old)
    → (if leb x x' && ltb x' (x + w) && y + k == y' then color (x' - x) k else now) ≡ (
        if leb x x' && ltb x' (x + w) && leb y y' && ltb y' (y + (k + 1))
        then color (x' - x) (y' - y)
        else old)
rect_step color x y w k x' y' old now e = elim (Bool-cases (y + k == y')) [
  | inl here ↦
      let same : y' - y ≡ k = omega (arith, ==→eq (y + k) y' here) in
      ground (arith, ap (color (x' - x)) same)
  | inr other ↦ ground arith
]

-- A rectangle shows its colours, every other pixel is as before, and nothing outside of the frame
-- buffer is written, wherever the rectangle lies.
pub fill_rect_lem :
    (color : ℕ → ℕ → ℕ) (x y w h : ℕ) (s : Screen)
    → IsFramed s
    → Inside s (fill_rect color x y w h s)
      × ((x' y' : ℕ)
          → x' < s.width
          → y' < s.height
          → pixel (fill_rect color x y w h s) x' y' ≡ (
              if leb x x' && ltb x' (x + w) && leb y y' && ltb y' (y + h)
              then color (x' - x) (y' - y)
              else pixel s x' y'))
unfolding fill_rect
fill_rect_lem color x y w h s f =
    each_from-keeps
      (λ k t.
        Inside s t
        × ((x' y' : ℕ)
            → x' < s.width
            → y' < s.height
            → pixel t x' y' ≡ (
                if leb x x' && ltb x' (x + w) && leb y y' && ltb y' (y + k)
                then color (x' - x) (y' - y)
                else pixel s x' y')))
      (λ dy t. fill_row (λ dx. color dx dy) x (y + dy) w t) h 0 h s (omega arith)
      (λ k t lo hi now.
        let framed = Inside-IsFramed now.0 f in
        let (in_, row) = fill_row_lem (λ dx. color dx k) x (y + k) w t framed in
        (
          Inside-trans now.0 in_,
          λ x' y' hx hy.
              row x' y' (omega (arith, now.0.same_width)) (omega (arith, now.0.same_height))
              ∙ rect_step color x y w k x' y' (pixel s x' y') (pixel t x' y') (now.1 x' y' hx hy),
        ))
      (Inside-refl s, λ x' y' hx hy. ground arith)
