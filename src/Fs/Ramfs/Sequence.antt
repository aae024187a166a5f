-- ===== src/Fs/Ramfs/Sequence.antt =====
-- Writes to a file, one after the other.
use hvos.Common.{
  ℕ, zero, suc, ◌+◌, ◌-◌, ◌≤◌, ◌<◌, ◌≡◌, refl, sym, ap, subst, ◌∙◌, inl, inr, false, ◌&&◌, List, [],
  ◌∷◌, ◌++◌, arith, ltb, leb, if◌then◌else◌, Bool-cases, length, get_or, length-append,
}
use hvos.Fs.Ramfs.{FileData, ramfs_write, ramfs_read}
use hvos.Fs.Ramfs.Content.{IsValid, ramfs_write_lem, ramfs_read_lem}

get_or-append :
    (xs ys : List ℕ) (i : ℕ)
    → get_or (xs ++ ys) i 0
      ≡ (if ltb i (length xs) then get_or xs i 0 else get_or ys (i - length xs) 0)
get_or-append [] ys i = ground arith
get_or-append (x ∷ xs) ys zero = ground arith
get_or-append (x ∷ xs) ys (suc i) = ground (arith, get_or-append xs ys i)

-- Byte `i` of a file where it was `old`, after a write of the bytes at the offset.
abbrev pub written : List ℕ → ℕ → ℕ → ℕ → ℕ
written bytes offset i old =
    if leb offset i && ltb i (offset + length bytes) then get_or bytes (i - offset) 0 else old

written_twice :
    (a b : List ℕ) (offset i old : ℕ)
    → written b (offset + length a) i (written a offset i old) ≡ written (a ++ b) offset i old
written_twice a b offset i old =
    let same : i - offset - length a ≡ i - (offset + length a) = omega arith in
    ground (arith, get_or-append a b (i - offset), length-append a b, ap (λ j. get_or b j 0) same)

written_cong :
    (bytes : List ℕ) (offset i : ℕ) {old other : ℕ}
    → ((leb offset i && ltb i (offset + length bytes)) ≡ false → old ≡ other)
    → written bytes offset i old ≡ written bytes offset i other
written_cong bytes offset i same =
    elim (Bool-cases (leb offset i && ltb i (offset + length bytes))) [
      | inl here ↦ rw here refl
      | inr out ↦ rw out (same out)
    ]

-- One file in two buffers, which may differ behind the end of the file.
pub record SameFile (f g : FileData) : Type 0 where
  pub same_size : f.i_size ≡ g.i_size
  pub same_byte : (i : ℕ) → i < f.i_size → get_or f.buffer i 0 ≡ get_or g.buffer i 0

module _ (fresh : ℕ → List ℕ) (given : (n : ℕ) → length (fresh n) ≡ n) where
  -- Every byte of a file after a write that begins within the file or at its end.
  pub ramfs_write-byte :
      (f : FileData) (bytes : List ℕ) (offset i : ℕ)
      → IsValid f
      → offset ≤ f.i_size
      → i < (ramfs_write fresh f bytes offset).1.i_size
      → get_or (ramfs_write fresh f bytes offset).1.buffer i 0
        ≡ written bytes offset i (get_or f.buffer i 0)
  ramfs_write-byte f bytes offset i v within inside =
      let (_, _, _, size, new, old) = ramfs_write_lem fresh f bytes offset given v in
      elim (Bool-cases (leb offset i && ltb i (offset + length bytes))) [
        | inl here ↦ rw here (
            subst
              (λ j.
                get_or (ramfs_write fresh f bytes offset).1.buffer j 0
                ≡ get_or bytes (i - offset) 0)
              (ground arith) (new (i - offset) (ground arith)))
        | inr there ↦ rw there (old i (ground (arith, size)) (ground arith))
      ]

  pub write-write :
      (f : FileData) (a b : List ℕ) (offset : ℕ)
      → IsValid f
      → offset ≤ f.i_size
      → let g = (ramfs_write fresh f a offset).1 in
        SameFile
          (ramfs_write fresh g b (offset + length a)).1
          (ramfs_write fresh f (a ++ b) offset).1
  write-write f a b offset v within =
      let g = (ramfs_write fresh f a offset).1 in
      let (_, valid, _, size, _, _) = ramfs_write_lem fresh f a offset given v in
      let (_, _, _, size_two, _, _) = ramfs_write_lem fresh g b (offset + length a) given valid in
      let (_, _, _, size_once, _, _) = ramfs_write_lem fresh f (a ++ b) offset given v in
      let total = length-append a b in
      let within_two : offset + length a ≤ g.i_size = ground (arith, size) in
      record {
        same_size = ground (arith, size, size_two, size_once, total);
        same_byte = λ i h.
            ramfs_write-byte g b (offset + length a) i valid within_two h
            ∙ written_cong b (offset + length a) i (λ out.
              ramfs_write-byte f a offset i v within (ground (arith, h, size, size_two, out)))
            ∙ written_twice a b offset i (get_or f.buffer i 0)
            ∙ sym (
                ramfs_write-byte f (a ++ b) offset i v within
                  (ground (arith, h, size, size_two, size_once, total)));
      }

-- A read at the start of a file of what it holds.
pub read_start :
    (f : FileData) (size : ℕ)
    → IsValid f
    → 0 < size
    → size ≤ f.i_size
    → ((ramfs_read f size 0).0 ≡ size)
      × ((k : ℕ) → k < size → get_or (ramfs_read f size 0).1 k 0 ≡ get_or f.buffer k 0)
read_start f size v some_ fits =
    let (bytes, n, _) = ramfs_read_lem f size 0 v (omega arith) in
    let all : (ramfs_read f size 0).0 ≡ size = ground (arith, n) in
    (all, λ k h. bytes k (omega (arith, all)))
