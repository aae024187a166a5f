-- ===== src/Fs/Descriptors/Opening.antt =====
-- Which paths `sys_open` opens.
use hvos.Common.{
  zero, suc, ◌+◌, ◌<◌, refl, ap, ◌≢◌, [], length, get_or, set, ℕ, ◌≡◌, ◌∙◌, ◌⊎◌, inl, inr, false,
  not, ◌&&◌, Option, none, some, List, ◌∷◌, arith, ◌==◌, if◌then◌else◌, Bool-cases, ==-ne,
}
use hvos.Fs.Path.{slash, is_absolute}
use hvos.Fs.Path.Parts.{components}
use hvos.Fs.Vfs.{Vfs, vfs_lookup}
use hvos.Fs.Vfs.Nodes.{IsValid, Kept, Kept-refl, Kept-IsNode, resolve-IsNode, zero_or_not}
use hvos.Fs.Vfs.Lookup.{vfs_lookup_lem}
use hvos.Fs.Vfs.Create.{at_path}
use hvos.Fs.Descriptors.{OpenFile, OpenResult, first_null, skip_first, open_at, sys_open}

-- No slot of the table is NULL.
abbrev pub IsFull : List (Option OpenFile) → Type 0
IsFull table = (k : ℕ) → k < length table → get_or table k none ≢ none

-- The first slot of the table that is NULL.
pub record IsFirstFree (table : List (Option OpenFile)) (fd : ℕ) : Type 0 where
  pub in_table : fd < length table
  pub free : get_or table fd none ≡ none
  pub taken : (k : ℕ) → k < fd → get_or table k none ≢ none

first_null-cases :
    (table : List (Option OpenFile)) (i : ℕ)
    → (IsFull table × (first_null i table ≡ none))
      ⊎ ((fd : ℕ) × IsFirstFree table fd × (first_null i table ≡ some (i + fd)))
unfolding first_null
first_null-cases [] i = inl ((λ k h. absurd (omega arith)), refl)
first_null-cases (none ∷ files) i = inr (
  0,
  record { in_table = omega arith; free = refl; taken = λ k h. absurd (omega arith) },
  ap some (omega arith),
)
first_null-cases (some f ∷ files) i = elim (first_null-cases files (i + 1)) [
  | inl (full, e) ↦ inl (full_cons full, e)
  | inr (fd, first, e) ↦ inr (
    suc fd,
    record {
      in_table = omega (arith, first.in_table);
      free = first.free;
      taken = taken_cons first.taken;
    },
    e ∙ ap some (omega arith),
  )
]
  where
    full_cons : IsFull files → IsFull (some f ∷ files)
    full_cons full zero h = λ e. absurd (ground arith)
    full_cons full (suc k) h = full k (omega arith)

    taken_cons :
        {fd : ℕ}
        → ((k : ℕ) → k < fd → get_or files k none ≢ none)
        → (k : ℕ) → k < suc fd
        → get_or (some f ∷ files) k none ≢ none
    taken_cons taken zero h = λ e. absurd (ground arith)
    taken_cons taken (suc k) h = taken k (omega arith)

-- A file at the start of an entry.
abbrev pub opened : ℕ → ℕ → OpenFile
opened d flags = record { file = record { f_dentry = d; f_pos = 0 }; f_flags = flags }

-- What a path opens at a free descriptor: the entry that it leads to, or nothing.
abbrev pub opens :
    Vfs → List (Option OpenFile) → List ℕ → ℕ → ℕ → OpenResult × List (Option OpenFile)
opens v table path flags fd =
    if is_absolute path && not (at_path v path == 0)
    then (OpenResult.descriptor fd, set table fd (some (opened (at_path v path) flags)))
    else (OpenResult.enoent, table)

open_at_lem :
    (v : Vfs) (table : List (Option OpenFile)) (path : List ℕ) (flags fd : ℕ)
    → IsValid v
    → (((open_at v table path flags fd).0, (open_at v table path flags fd).1)
        ≡ opens v table path flags fd)
      × Kept false v (open_at v table path flags fd).2
unfolding open_at
open_at_lem v table path flags fd ok =
    let (found, kept) = vfs_lookup_lem v path ok in
    elim (Bool-cases (is_absolute path)) [
      | inr relative ↦
          let none_ : (vfs_lookup v path).0 ≡ 0 = found ∙ rw relative refl in
          rw (none_, relative) (refl, kept)
      | inl abs ↦
          let to : (vfs_lookup v path).0 ≡ at_path v path = found ∙ rw abs refl in
          elim (zero_or_not (at_path v path)) [
            | inl gone ↦ rw (to ∙ gone, abs, gone) (refl, kept)
            | inr there ↦
                let n =
                  Kept-IsNode kept
                    (resolve-IsNode v v.root_dentry (components path) ok ok.root_node there) in
                rw (to, abs, ==-ne (at_path v path) 0 there, ==-ne _ 0 n.has_inode) (refl, kept)
          ]
    ]

-- The result and the table of a call, and what it does to the tree.
abbrev Leaves :
    Vfs → List (Option OpenFile) → List ℕ → ℕ → OpenResult × List (Option OpenFile) → Type 0
Leaves v table path flags out =
    (((sys_open v table path flags).0, (sys_open v table path flags).1) ≡ out)
    × Kept false v (sys_open v table path flags).2

sys_open-full :
    (v : Vfs) (table : List (Option OpenFile)) (path : List ℕ) (flags : ℕ)
    → IsValid v
    → first_null 0 table ≡ none
    → Leaves v table path flags (OpenResult.emfile, table)
unfolding sys_open
sys_open-full v table path flags ok full =
    rw (==-ne v.root_dentry 0 (λ z. omega (arith, ok.root_node.not_null)), full) (refl, Kept-refl v)

sys_open-free :
    (v : Vfs) (table : List (Option OpenFile)) (path : List ℕ) (flags fd : ℕ)
    → IsValid v
    → first_null 0 table ≡ some fd
    → Leaves v table path flags (opens v table (skip_first path) flags fd)
unfolding sys_open
sys_open-free v table path flags fd ok free =
    rw (==-ne v.root_dentry 0 (λ z. omega (arith, ok.root_node.not_null)), free)
      (open_at_lem v table (skip_first path) flags fd ok)

-- The results for a path with one slash in front, and with two.
pub record Refuses (v : Vfs) (table : List (Option OpenFile)) (rest : List ℕ) (flags : ℕ)
    : Type 0 where
  pub results :
      (IsFull table
        × Leaves v table (slash ∷ rest) flags (OpenResult.emfile, table)
        × Leaves v table (slash ∷ slash ∷ rest) flags (OpenResult.emfile, table))
      ⊎ ((fd : ℕ) × IsFirstFree table fd
          × Leaves v table (slash ∷ rest) flags (OpenResult.enoent, table)
          × Leaves v table (slash ∷ slash ∷ rest) flags (opens v table (slash ∷ rest) flags fd))

-- On a valid tree, `sys_open` of a path with one slash in front opens nothing, whatever the path
-- leads to: it returns -EMFILE if no slot of the table is NULL, and -ENOENT otherwise, and leaves
-- the table as it was. With a second slash in front it returns -EMFILE likewise; with a slot that
-- is NULL, and where the path leads to an entry, it returns the number of the first such slot,
-- which then has a file with these flags at the start of that entry, and no other slot has changed;
-- where the path leads nowhere it returns -ENOENT and leaves the table as it was. In each case it
-- leaves the tree as it was.
pub sys_open-Refuses :
    (v : Vfs) (table : List (Option OpenFile)) (rest : List ℕ) (flags : ℕ)
    → IsValid v
    → is_absolute rest ≡ false
    → Refuses v table rest flags
unfolding skip_first
sys_open-Refuses v table rest flags ok relative = elim (first_null-cases table 0) [
  | inl (full, e) ↦ record {
    results = inl (
      full,
      sys_open-full v table (slash ∷ rest) flags ok e,
      sys_open-full v table (slash ∷ slash ∷ rest) flags ok e,
    );
  }
  | inr (fd, first, at) ↦
      let e : first_null 0 table ≡ some fd = at ∙ ap some (omega arith) in
      let one = sys_open-free v table (slash ∷ rest) flags fd ok e in
      let none_ : opens v table rest flags fd ≡ (OpenResult.enoent, table) = rw relative refl in
      record {
        results = inr (
          fd,
          first,
          (one.0 ∙ none_, one.1),
          sys_open-free v table (slash ∷ slash ∷ rest) flags fd ok e,
        );
      }
]
