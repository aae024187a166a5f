-- ===== src/Fs/Tar.antt =====
-- src/kernel/fs/tar.c: the boot archive is unpacked into the file system. `mem` is memory from the
-- archive's address on, and `fresh` is what a new buffer of that many bytes holds.
pub mod Octal
pub mod Unpack
mod Examples
use hvos.Common.{
  ℕ, zero, suc, ◌+◌, ◌-◌, ◌*◌, ◌/◌, ◌%◌, ◌^◌, ◌≤◌, ◌<◌, bit_and, bit_or, ◌≡◌, refl, sym, ap, subst,
  ◌∙◌, ◌≢◌, ◌↔◌, ◌⊎◌, inl, inr, Bool, true, false, not, ◌&&◌, ◌||◌, Option, none, some, List, [],
  ◌∷◌, ◌++◌, map, append_assoc, append-nil, arith, ltb, leb, ◌==◌, if◌then◌else◌, Bool-cases,
  Option-cases, every, every-lem, ltb→lt, lt→ltb, le→ltb, ==→eq, ==-ne, ==_refl, u8, u16, u32, u64,
  sub64, ◌<<<◌, ◌>>>◌, length, assign, replicate, take, drop, listed, get_elem?, get_or, set, All,
  length-set, get_or-set_self, get_or-set_ne, length-append, length-replicate, All-replicate,
  get_or-replicate, All-set, All-get_or,
}
use hvos.Common.Loops.{each_from, each_from-keeps}
use hvos.Fs.Path.{slash}
use hvos.Fs.Ramfs.{FileData, ramfs_write}
use hvos.Fs.Vfs.{Dentry, Inode, Vfs, File, same_name, vfs_open, vfs_create, vfs_mkdir}

-- The loop of `octal_to_int`, which ends at the first character that is no octal digit.
unfoldable pub octal_from : ℕ → List ℕ → ℕ
octal_from n [] = n
octal_from n (c ∷ cs) =
    let more = octal_from (u32 (n * 8 + (c - b'0'))) cs in
    if c == 0 || c == b' ' || ltb c b'0' || ltb b'7' c then n else more

unfoldable pub octal_to_int : List ℕ → ℕ → ℕ
unfolding octal_from
octal_to_int str size = octal_from 0 (take size str)

-- The bytes of memory from an address on.
unfoldable pub bytes_at : (ℕ → ℕ) → ℕ → ℕ → List ℕ
bytes_at mem addr zero = []
bytes_at mem addr (suc n) = mem addr ∷ bytes_at mem (addr + 1) n

-- What stands before the NUL.
unfoldable pub c_string : List ℕ → List ℕ
c_string [] = []
c_string (c ∷ cs) = if c == 0 then [] else c ∷ c_string cs

-- `tar_header_t` at an address; a name that fills its field goes on into the next ones.
pub record TarHeader : Type 0 where
  pub name : List ℕ
  pub size : List ℕ
  pub typeflag : ℕ
  pub magic : List ℕ

unfoldable pub tar_header_at : (ℕ → ℕ) → ℕ → TarHeader
unfolding bytes_at c_string
tar_header_at mem offset = record {
  name = c_string (bytes_at mem offset 254);
  size = bytes_at mem (offset + 124) 12;
  typeflag = mem (offset + 156);
  magic = bytes_at mem (offset + 257) 5;
}

-- `absolute_path[len - 1] = '\0'` for a path that ends with a slash and is more than that.
unfoldable pub strip_slash : List ℕ → List ℕ
strip_slash path =
    if ltb 1 (length path) && get_or path (length path - 1) 0 == slash
    then take (length path - 1) path
    else path

-- `file->f_ops->write` at the start of the file, with `i_size` set after.
unfoldable pub write_file : (ℕ → List ℕ) → Vfs → ℕ → List ℕ → ℕ → Vfs
write_file fresh v d bytes size =
    let i = (v.dentry d).d_inode in
    let (count, written, end_) = ramfs_write fresh (v.inode i).file bytes 0 in
    record v {
      inode = assign v.inode i (record (v.inode i) { file = record written { i_size = size } });
    }

unfoldable pub fill_file : (ℕ → List ℕ) → Option File × Vfs → List ℕ → ℕ → Vfs
fill_file fresh (none, v) bytes size = v
fill_file fresh (some f, v) bytes size = write_file fresh v f.f_dentry bytes size

abbrev pub tar_type_dir : ℕ
tar_type_dir = b'5'

abbrev pub tar_type_normal : ℕ
tar_type_normal = b'0'

-- One member of the archive, with its data.
unfoldable pub unpack_member : (ℕ → List ℕ) → Vfs → TarHeader → List ℕ → ℕ → Vfs
unpack_member fresh v header bytes size =
    let path = slash ∷ header.name in
    if header.typeflag == tar_type_dir
    then (vfs_mkdir v (strip_slash path) 0x1fd).1
    else if header.typeflag == tar_type_normal || header.typeflag == 0
    then fill_file fresh (vfs_open (vfs_create v path 0x1a4).1 path) bytes size
    else v

abbrev pub ustar : List ℕ
ustar = b'u' ∷ b's' ∷ b't' ∷ b'a' ∷ b'r' ∷ []

-- The loop of `ramfs_from_tar`, with fuel for its rounds.
unfoldable pub unpack : ℕ → (ℕ → List ℕ) → (ℕ → ℕ) → ℕ → ℕ → Vfs → Vfs
unpack zero fresh mem tar_size offset v = v
unpack (suc n) fresh mem tar_size offset v =
    let header = tar_header_at mem offset in
    let size = octal_to_int header.size 12 in
    let rest =
      unpack n fresh mem tar_size (offset + 512 + (size + 511) / 512 * 512)
        (unpack_member fresh v header (bytes_at mem (offset + 512) size) size) in
    if ltb tar_size (offset + 512) || mem offset == 0 || not (same_name header.magic ustar)
    then v
    else rest

unfoldable pub ramfs_from_tar : (ℕ → List ℕ) → (ℕ → ℕ) → ℕ → Vfs → Vfs
ramfs_from_tar fresh mem tar_size v = unpack (tar_size / 512 + 1) fresh mem tar_size 0 v
