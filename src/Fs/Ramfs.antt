-- ===== src/Fs/Ramfs.antt =====
-- src/kernel/fs/ramfs.c: reading and writing a file. `kmalloc` is taken to succeed, and `fresh` is
-- what a new buffer of that many bytes holds. Sizes are taken to stay below 2 ^ 63, so that nothing
-- wraps round.
pub mod Content
pub mod Sequence
mod Examples
use hvos.Common.{
  ℕ, zero, suc, ◌+◌, ◌-◌, ◌*◌, ◌/◌, ◌%◌, ◌^◌, ◌≤◌, ◌<◌, bit_and, bit_or, ◌≡◌, refl, sym, ap, subst,
  ◌∙◌, ◌≢◌, ◌↔◌, ◌⊎◌, inl, inr, Bool, true, false, not, ◌&&◌, ◌||◌, Option, none, some, List, [],
  ◌∷◌, ◌++◌, map, arith, ltb, leb, ◌==◌, if◌then◌else◌, Bool-cases, Option-cases, every, every-lem,
  ltb→lt, lt→ltb, le→ltb, ==→eq, ==-ne, ==_refl, u8, u16, u32, u64, sub64, ◌<<<◌, ◌>>>◌, length,
  replicate, take, drop, listed, get_elem?, get_or, set, All, length-set, get_or-set_self,
  get_or-set_ne, length-append, length-replicate, All-replicate, get_or-replicate, All-set,
  All-get_or,
}
use hvos.Common.Loops.{each_from, each_from-keeps}

-- `ramfs_file_data_t` with the inode's `i_size`. The buffer has `capacity` bytes; NULL is the
-- empty one.
pub record FileData : Type 0 where
  pub buffer : List ℕ
  pub capacity : ℕ
  pub i_size : ℕ

-- `memcpy(buffer + offset, bytes, …)`
unfoldable pub copy_to : List ℕ → ℕ → List ℕ → List ℕ
copy_to buffer offset [] = buffer
copy_to buffer offset (b ∷ bs) = copy_to (set buffer offset b) (offset + 1) bs

-- `while (new_cap < target_size) new_cap *= 2;`
unfoldable pub double_until : ℕ → ℕ → ℕ → ℕ
double_until zero cap target = cap
double_until (suc fuel) cap target =
    let more = double_until fuel (cap * 2) target in if ltb cap target then more else cap

abbrev pub new_capacity : FileData → ℕ → ℕ
new_capacity f target = double_until target (if f.capacity == 0 then 64 else f.capacity * 2) target

-- The part of `ramfs_write` that makes room.
unfoldable pub make_room : (ℕ → List ℕ) → FileData → ℕ → FileData
make_room fresh f target =
    if ltb f.capacity target
    then record f {
      buffer = copy_to (fresh (new_capacity f target)) 0 (take f.i_size f.buffer);
      capacity = new_capacity f target;
    }
    else f

-- The bytes written, the file and the offset.
unfoldable pub ramfs_write : (ℕ → List ℕ) → FileData → List ℕ → ℕ → ℕ × FileData × ℕ
ramfs_write fresh f bytes offset =
    let target = offset + length bytes in
    let g = make_room fresh f target in
    (
      length bytes,
      record g {
        buffer = copy_to g.buffer offset bytes;
        i_size = if ltb g.i_size target then target else g.i_size;
      },
      target,
    )

-- The count, the bytes copied and the offset. A copy that goes past the buffer's end is cut there.
unfoldable pub ramfs_read : FileData → ℕ → ℕ → ℕ × List ℕ × ℕ
ramfs_read f size offset =
    let size' = if ltb f.i_size (offset + size) then size + (f.i_size - offset) else size in
    if f.capacity == 0 || leb f.i_size offset
    then (0, [], offset)
    else (size', take size' f.buffer, offset + size')
