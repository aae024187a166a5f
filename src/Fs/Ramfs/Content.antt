-- ===== src/Fs/Ramfs/Content.antt =====
-- What a file holds after a write.
use hvos.Common.{
  ℕ, zero, suc, ◌+◌, ◌-◌, ◌*◌, ◌≤◌, ◌<◌, ◌≡◌, refl, ap, subst, ◌∙◌, ◌⊎◌, inl, inr, false, ◌||◌,
  List, [], ◌∷◌, arith, ltb, leb, ◌==◌, if◌then◌else◌, Bool-cases, length, take, get_or, set,
  length-set, get_or-set_self, get_or-set_ne,
}
use hvos.Fs.Ramfs.{
  FileData, copy_to, double_until, new_capacity, make_room, ramfs_write, ramfs_read,
}

-- A buffer is as long as its capacity, and the file fits it.
pub record IsValid (f : FileData) : Type 0 where
  pub sized : length f.buffer ≡ f.capacity
  pub fits : f.i_size ≤ f.capacity

length-copy_to :
    (buffer : List ℕ) (offset : ℕ) (bytes : List ℕ)
    → length (copy_to buffer offset bytes) ≡ length buffer
unfolding copy_to
length-copy_to buffer offset [] = refl
length-copy_to buffer offset (b ∷ bs) =
    length-copy_to (set buffer offset b) (offset + 1) bs ∙ length-set buffer offset b

copy_to-before :
    (buffer : List ℕ) (offset i : ℕ) (bytes : List ℕ)
    → i < offset
    → get_or (copy_to buffer offset bytes) i 0 ≡ get_or buffer i 0
unfolding copy_to
copy_to-before buffer offset i [] h = refl
copy_to-before buffer offset i (b ∷ bs) h =
    copy_to-before (set buffer offset b) (offset + 1) i bs (omega arith)
    ∙ get_or-set_ne buffer offset i b 0 (λ e. omega arith)

copy_to-inside :
    (buffer : List ℕ) (offset k : ℕ) (bytes : List ℕ)
    → k < length bytes
    → offset + length bytes ≤ length buffer
    → get_or (copy_to buffer offset bytes) (offset + k) 0 ≡ get_or bytes k 0
unfolding copy_to
copy_to-inside buffer offset k [] h fit = absurd (omega arith)
copy_to-inside buffer offset zero (b ∷ bs) h fit =
    let e : offset + 0 ≡ offset = omega arith in
    rw e (
      copy_to-before (set buffer offset b) (offset + 1) offset bs (omega arith)
      ∙ get_or-set_self buffer offset b 0 (omega arith))
copy_to-inside buffer offset (suc k) (b ∷ bs) h fit =
    let e : offset + suc k ≡ offset + 1 + k = omega arith in
    rw e (
      copy_to-inside (set buffer offset b) (offset + 1) k bs (omega arith)
        (omega (arith, length-set buffer offset b)))

copy_to-after :
    (buffer : List ℕ) (offset i : ℕ) (bytes : List ℕ)
    → offset + length bytes ≤ i
    → get_or (copy_to buffer offset bytes) i 0 ≡ get_or buffer i 0
unfolding copy_to
copy_to-after buffer offset i [] h = refl
copy_to-after buffer offset i (b ∷ bs) h =
    copy_to-after (set buffer offset b) (offset + 1) i bs (omega arith)
    ∙ get_or-set_ne buffer offset i b 0 (λ e. omega arith)

-- The rounds given are enough.
double_until-le :
    (fuel cap target : ℕ) → 0 < cap → target ≤ cap + fuel → target ≤ double_until fuel cap target
unfolding double_until
double_until-le zero cap target pos h = omega arith
double_until-le (suc fuel) cap target pos h = ground (arith, double_until-le fuel (cap * 2) target)

get_or-take : (n i : ℕ) (xs : List ℕ) → i < n → get_or (take n xs) i 0 ≡ get_or xs i 0
get_or-take zero i xs h = absurd (omega arith)
get_or-take (suc n) i [] h = refl
get_or-take (suc n) zero (x ∷ xs) h = refl
get_or-take (suc n) (suc i) (x ∷ xs) h = get_or-take n i xs (omega arith)

length-take : (n : ℕ) (xs : List ℕ) → n ≤ length xs → length (take n xs) ≡ n
length-take zero xs h = refl
length-take (suc n) [] h = absurd (omega arith)
length-take (suc n) (x ∷ xs) h = ap suc (length-take n xs (omega arith))

module _ (fresh : ℕ → List ℕ) (given : (n : ℕ) → length (fresh n) ≡ n) (f : FileData)
    (v : IsValid f) (target : ℕ) where
  -- After `make_room` there is room, and the bytes of the file are the same.
  make_room_lem :
      let g = make_room fresh f target in
      (length g.buffer ≡ g.capacity)
      × (target ≤ g.capacity)
      × (g.i_size ≡ f.i_size)
      × (f.capacity ≤ g.capacity)
      × ((i : ℕ) → i < f.i_size → get_or g.buffer i 0 ≡ get_or f.buffer i 0)
  unfolding make_room
  make_room_lem = elim (Bool-cases (ltb f.capacity target)) [
    | inr room ↦ rw room (v.sized, ground arith, refl, omega arith, λ i h. refl)
    | inl short ↦
        let enough : target ≤ new_capacity f target =
          double_until-le target (if f.capacity == 0 then 64 else f.capacity * 2) target
            (ground arith) (omega arith) in
        let less : f.capacity < target = ground arith in
        let part = length-take f.i_size f.buffer (omega (arith, v.sized, v.fits)) in
        rw short (
          length-copy_to (fresh (new_capacity f target)) 0 (take f.i_size f.buffer)
              ∙ given (new_capacity f target),
          enough,
          refl,
          omega (arith, enough, less),
          λ i h.
              subst
                (λ j.
                  get_or (copy_to (fresh (new_capacity f target)) 0 (take f.i_size f.buffer)) j 0
                  ≡ get_or (take f.i_size f.buffer) i 0)
                (omega arith)
                (copy_to-inside (fresh (new_capacity f target)) 0 i (take f.i_size f.buffer)
                  (omega (arith, part))
                  (omega (arith, part, given (new_capacity f target), enough, less, v.fits)))
              ∙ get_or-take f.i_size i f.buffer h,
        )
  ]

pub ramfs_write_lem :
    (fresh : ℕ → List ℕ) (f : FileData) (bytes : List ℕ) (offset : ℕ)
    → ((n : ℕ) → length (fresh n) ≡ n)
    → IsValid f
    → let out = ramfs_write fresh f bytes offset in
      let g = out.1 in
      let end = offset + length bytes in
      (out.0 ≡ length bytes)
      × IsValid g
      × (out.2 ≡ end)
      × (g.i_size ≡ (if ltb f.i_size end then end else f.i_size))
      × ((k : ℕ) → k < length bytes → get_or g.buffer (offset + k) 0 ≡ get_or bytes k 0)
      × ((i : ℕ)
          → i < f.i_size
          → (i < offset) ⊎ (end ≤ i)
          → get_or g.buffer i 0 ≡ get_or f.buffer i 0)
unfolding ramfs_write
ramfs_write_lem fresh f bytes offset given v =
    let end = offset + length bytes in
    let g = make_room fresh f end in
    let (sized, room, same, more, kept) = make_room_lem fresh given f v end in
    (
      refl,
      record {
        sized = length-copy_to g.buffer offset bytes ∙ sized;
        fits = ground (arith, room, same, more, v.fits);
      },
      refl,
      rw same refl,
      λ k h. copy_to-inside g.buffer offset k bytes h (omega (arith, sized, room)),
      λ i h out. elim out [
        | inl before ↦ copy_to-before g.buffer offset i bytes before ∙ kept i h
        | inr after ↦ copy_to-after g.buffer offset i bytes after ∙ kept i h
      ],
    )

-- `ramfs_read` of a file that is not empty, from an offset within it, copies from the start of the
-- file and not from the offset; and when the request goes past the end of the file, the count that
-- it returns is the request plus what is left instead of what is left.
pub ramfs_read_lem :
    (f : FileData) (size offset : ℕ)
    → IsValid f
    → offset < f.i_size
    → let out = ramfs_read f size offset in
      ((i : ℕ) → i < out.0 → get_or out.1 i 0 ≡ get_or f.buffer i 0)
      × (out.0 ≡ (if ltb f.i_size (offset + size) then size + (f.i_size - offset) else size))
      × (out.2 ≡ offset + out.0)
unfolding ramfs_read
ramfs_read_lem f size offset v inside =
    let filled : (f.capacity == 0 || leb f.i_size offset) ≡ false = ground (arith, v.fits) in
    rw filled (λ i h. get_or-take _ i f.buffer h, refl, refl)
