-- ===== src/Fs/Tar/Unpack.antt =====
-- Unpacking an archive ends, and keeps the tree whatever the archive holds.
use hvos.Common.{
  ℕ, zero, suc, ◌+◌, ◌*◌, ◌/◌, ◌<◌, ◌≡◌, refl, sym, ap, subst, ◌∙◌, ◌≢◌, ◌⊎◌, inl, inr, Bool, true,
  false, not, ◌||◌, Option, none, some, List, [], ◌∷◌, arith, ltb, ◌==◌, if◌then◌else◌, Bool-cases,
  lt→ltb, take, All,
}
use hvos.Fs.Path.{slash}
use hvos.Fs.Path.Parts.{components}
use hvos.Fs.Vfs.{
  Vfs, same_name, name_max, find_child, is_dir, s_ifdir, has_bit, vfs_create, vfs_open, File,
}
use hvos.Fs.Vfs.Nodes.{
  IsNode, IsValid, children_of, resolve, resolve_one, resolve_nil, resolve_gone, resolve_found,
  zero_or_not, All-map,
}
use hvos.Fs.Vfs.Create.{at_path}
use hvos.Fs.Vfs.Calls.{Keeps, Calls-keep, start, later, opens, creates, makes}
use hvos.Fs.Tar.{
  octal_to_int, bytes_at, TarHeader, tar_header_at, strip_slash, tar_type_dir, tar_type_normal,
  ustar, write_file, fill_file, unpack_member, unpack, ramfs_from_tar,
}

-- Two stores with the same tree: files may hold other bytes.
record SameTree (v v' : Vfs) : Type 0 where
  same_root : v'.root_dentry ≡ v.root_dentry
  same_entries : v'.dentry ≡ v.dentry
  same_next : v'.next ≡ v.next
  same_next_inode : v'.next_inode ≡ v.next_inode
  same_freed : v'.freed ≡ v.freed
  same_modes : (i : ℕ) → (v'.inode i).i_mode ≡ (v.inode i).i_mode
  same_children : (i : ℕ) → (v'.inode i).children ≡ (v.inode i).children

module _ {v v' : Vfs} (s : SameTree v v') where
  same-IsNode : {d : ℕ} → IsNode v d → IsNode v' d
  same-IsNode {d} n = record {
    not_null = n.not_null;
    old = rw (s.same_next) n.old;
    has_inode = rw (s.same_entries) n.has_inode;
    in_use = rw (s.same_freed) n.in_use;
  }

  same-IsNode' : {d : ℕ} → IsNode v' d → IsNode v d
  same-IsNode' {d} n = record {
    not_null = n.not_null;
    old = omega (arith, s.same_next, n.old);
    has_inode = subst (λ e. (e d).d_inode ≢ 0) s.same_entries n.has_inode;
    in_use = ap (λ f. f d) (sym s.same_freed) ∙ n.in_use;
  }

  same_children_of : (d : ℕ) → children_of v' d ≡ children_of v d
  same_children_of d =
      ap (λ e. (v'.inode (e d).d_inode).children) s.same_entries
      ∙ s.same_children (v.dentry d).d_inode

  same_is_dir : (d : ℕ) → is_dir v' d ≡ is_dir v d
  same_is_dir d =
      ap (λ e. has_bit (v'.inode (e d).d_inode).i_mode s_ifdir) s.same_entries
      ∙ ap (λ m. has_bit m s_ifdir) (s.same_modes (v.dentry d).d_inode)

  same-IsValid : IsValid v → IsValid v'
  same-IsValid ok = record {
    root_node = subst (IsNode v') (sym s.same_root) (same-IsNode ok.root_node);
    child_nodes = λ d n.
        subst (All (IsNode v')) (sym (same_children_of d))
          (All-map (children_of v d) (λ c m. same-IsNode m) (ok.child_nodes d (same-IsNode' n)));
    parent_node = λ d n.
        subst (λ e. ((e d).d_parent ≡ 0) ⊎ IsNode v' (e d).d_parent) (sym s.same_entries)
          (elim (ok.parent_node d (same-IsNode' n)) [
            | inl z ↦ inl z
            | inr m ↦ inr (same-IsNode m)
          ]);
    inode_old = λ d n. omega (
      arith,
      ap (λ e. (e d).d_inode) s.same_entries,
      ok.inode_old d (same-IsNode' n),
      s.same_next_inode,
    );
  }

  same-resolve_one : (d : ℕ) (name : List ℕ) → resolve_one v' d name ≡ resolve_one v d name
  same-resolve_one d name = ground (
    arith,
    ap (λ e. (e d).d_parent) s.same_entries,
    same_is_dir d,
    ap (λ e. find_child e (children_of v' d) (take name_max name)) s.same_entries,
    ap (λ cs. find_child v.dentry cs (take name_max name)) (same_children_of d),
  )

  same-resolve : (d : ℕ) (names : List (List ℕ)) → resolve v' d names ≡ resolve v d names
  same-resolve d [] = resolve_nil v' d ∙ sym (resolve_nil v d)
  same-resolve d (nm ∷ names) =
      let one = same-resolve_one d nm in
      elim (zero_or_not (resolve_one v d nm)) [
        | inl gone ↦ resolve_gone v' d nm names (one ∙ gone) ∙ sym (resolve_gone v d nm names gone)
        | inr found ↦
            resolve_found v' d nm names (λ z. found (sym one ∙ z))
            ∙ ap (λ x. resolve v' x names) one
            ∙ same-resolve (resolve_one v d nm) names
            ∙ sym (resolve_found v d nm names found)
      ]

  same-Keeps : IsValid v → Keeps v v'
  same-Keeps ok = (
    same-IsValid ok,
    λ path. inr (
        ap (λ r. resolve v' r (components path)) s.same_root
        ∙ same-resolve v.root_dentry (components path)),
  )

Keeps-trans : (u v w : Vfs) → Keeps u v → Keeps v w → Keeps u w
Keeps-trans u v w a b = (b.0, λ path. ground (arith, a.1 path, b.1 path))

write_file-SameTree :
    (fresh : ℕ → List ℕ) (v : Vfs) (d : ℕ) (bytes : List ℕ) (size : ℕ)
    → SameTree v (write_file fresh v d bytes size)
unfolding write_file
write_file-SameTree fresh v d bytes size = record {
  same_root = refl;
  same_entries = refl;
  same_next = refl;
  same_next_inode = refl;
  same_freed = refl;
  same_modes = λ i. ground arith;
  same_children = λ i. ground arith;
}

fill_file-Keeps :
    (fresh : ℕ → List ℕ) (r : Option File × Vfs) (bytes : List ℕ) (size : ℕ)
    → IsValid r.1
    → Keeps r.1 (fill_file fresh r bytes size)
unfolding fill_file
fill_file-Keeps fresh (none, v) bytes size ok = (ok, λ path. inr refl)
fill_file-Keeps fresh (some f, v) bytes size ok =
    same-Keeps (write_file-SameTree fresh v f.f_dentry bytes size) ok

unpack_member-Keeps :
    (fresh : ℕ → List ℕ) (v : Vfs) (header : TarHeader) (bytes : List ℕ) (size : ℕ)
    → IsValid v
    → Keeps v (unpack_member fresh v header bytes size)
unfolding unpack_member
unpack_member-Keeps fresh v header bytes size ok =
    let path = slash ∷ header.name in
    let dir = Calls-keep v _ ok (later v _ start (makes (strip_slash path) 0x1fd)) in
    let r = vfs_open (vfs_create v path 0x1a4).1 path in
    let opened =
      Calls-keep v r.1 ok (later _ _ (later v _ start (creates path 0x1a4)) (opens path)) in
    let filled =
      Keeps-trans v r.1 (fill_file fresh r bytes size) opened
        (fill_file-Keeps fresh r bytes size opened.0) in
    elim (Bool-cases (header.typeflag == tar_type_dir)) [
      | inl is ↦ rw is dir
      | inr other ↦ elim (Bool-cases (header.typeflag == tar_type_normal || header.typeflag == 0)) [
        | inl is ↦ rw (other, is) filled
        | inr neither ↦ rw (other, neither) (ok, λ p. inr refl)
      ]
    ]

if_Keeps : (v x y : Vfs) (b : Bool) → Keeps v x → Keeps v y → Keeps v (if b then x else y)
if_Keeps v x y true kx ky = kx
if_Keeps v x y false kx ky = ky

unpack-Keeps :
    (n : ℕ) (fresh : ℕ → List ℕ) (mem : ℕ → ℕ) (tar_size offset : ℕ) (v : Vfs)
    → IsValid v
    → Keeps v (unpack n fresh mem tar_size offset v)
unfolding unpack
unpack-Keeps zero fresh mem tar_size offset v ok = (ok, λ p. inr refl)
unpack-Keeps (suc n) fresh mem tar_size offset v ok =
    let header = tar_header_at mem offset in
    let size = octal_to_int header.size 12 in
    let v1 = unpack_member fresh v header (bytes_at mem (offset + 512) size) size in
    let next = offset + 512 + (size + 511) / 512 * 512 in
    let one = unpack_member-Keeps fresh v header (bytes_at mem (offset + 512) size) size ok in
    let rest = unpack-Keeps n fresh mem tar_size next v1 one.0 in
    if_Keeps v v (unpack n fresh mem tar_size next v1)
      (ltb tar_size (offset + 512) || mem offset == 0 || not (same_name header.magic ustar))
      (ok, λ p. inr refl) (Keeps-trans v v1 (unpack n fresh mem tar_size next v1) one rest)

-- One round more changes nothing, once the rounds reach the end of the archive.
unpack_enough :
    (n : ℕ) (fresh : ℕ → List ℕ) (mem : ℕ → ℕ) (tar_size offset : ℕ) (v : Vfs)
    → tar_size < offset + n * 512
    → unpack (suc n) fresh mem tar_size offset v ≡ unpack n fresh mem tar_size offset v
unfolding unpack
unpack_enough zero fresh mem tar_size offset v h =
    rw (lt→ltb tar_size (offset + 512) (omega arith)) refl
unpack_enough (suc n) fresh mem tar_size offset v h =
    let header = tar_header_at mem offset in
    let size = octal_to_int header.size 12 in
    ap
      (λ x.
        if ltb tar_size (offset + 512) || mem offset == 0 || not (same_name header.magic ustar)
        then v
        else x)
      (unpack_enough n fresh mem tar_size (offset + 512 + (size + 511) / 512 * 512)
        (unpack_member fresh v header (bytes_at mem (offset + 512) size) size) (omega arith))

-- Unpacking ends: whatever the archive holds, rounds beyond the one for each 512 bytes change
-- nothing. What it leaves of a valid tree is valid, also from an archive that is malformed, cut
-- short, or has members with errors; and every path that led to an entry before leads to the same
-- entry.
pub ramfs_from_tar_lem :
    (fresh : ℕ → List ℕ) (mem : ℕ → ℕ) (tar_size more : ℕ) (v : Vfs)
    → IsValid v
    → (unpack (tar_size / 512 + 1 + more) fresh mem tar_size 0 v
        ≡ ramfs_from_tar fresh mem tar_size v)
      × IsValid (ramfs_from_tar fresh mem tar_size v)
      × ((path : List ℕ)
          → (at_path v path ≡ 0)
            ⊎ (at_path (ramfs_from_tar fresh mem tar_size v) path ≡ at_path v path))
unfolding ramfs_from_tar
ramfs_from_tar_lem fresh mem tar_size more v ok =
    let (valid, paths) = unpack-Keeps (tar_size / 512 + 1) fresh mem tar_size 0 v ok in
    (many more, valid, paths)
  where
    many :
        (k : ℕ)
        → unpack (tar_size / 512 + 1 + k) fresh mem tar_size 0 v
          ≡ unpack (tar_size / 512 + 1) fresh mem tar_size 0 v
    many zero =
        ap (λ n. unpack n fresh mem tar_size 0 v) {x = tar_size / 512 + 1 + 0}
          {y = tar_size / 512 + 1} (omega arith)
    many (suc k) =
        ap (λ n. unpack n fresh mem tar_size 0 v) {x = tar_size / 512 + 1 + suc k}
          {y = suc (tar_size / 512 + 1 + k)} (omega arith)
        ∙ unpack_enough (tar_size / 512 + 1 + k) fresh mem tar_size 0 v (omega arith)
        ∙ many k
