-- ===== src/Mem/Paging/Kernel.antt =====
-- The kernel's half of a top table, which every address space shares.
use hvos.Common.{
  ℕ, ◌*◌, ◌/◌, ◌<◌, ◌≡◌, refl, ◌≢◌, ◌⊎◌, inl, inr, Bool, true, false, ◌&&◌, none, some, arith, ltb,
  leb, ◌==◌, if◌then◌else◌, ==-ne,
}
use hvos.Common.Loops.{each_from-keeps}
use hvos.Mem.Pmm.{pmm_alloc}
use hvos.Mem.Pmm.Alloc.{IsValid, used, Takes, AllUsed}
use hvos.Mem.Paging.Grow.{with_table, alloc_page_table-cases}
use hvos.Mem.Paging.{zero_entry, Tables, set_entry, zero_table, copy_kernel_half, create_new_pml4}

abbrev upper : ℕ → Bool
upper j = leb 256 j && ltb j 512

-- The entries from 256 on are copied, and nothing else is written.
pub copy_kernel_half-entry :
    (s : Tables) (to from u j : ℕ)
    → (copy_kernel_half s to from).entry u j
      ≡ (if u == to && upper j then s.entry from j else s.entry u j)
unfolding copy_kernel_half set_entry
copy_kernel_half-entry s to from u j =
    each_from-keeps
      (λ k t.
        (v i : ℕ)
        → t.entry v i ≡ (if v == to && (leb 256 i && ltb i k) then s.entry from i else s.entry v i))
      (λ i t. set_entry t to i (t.entry from i)) 256 256 512 s (omega arith)
      (λ k t lo hi h v i. ground (arith, h v i, h from i)) (λ v i. ground arith) u j

pub copy_kernel_half-pmm : (s : Tables) (to from : ℕ) → (copy_kernel_half s to from).pmm ≡ s.pmm
unfolding copy_kernel_half set_entry
copy_kernel_half-pmm s to from =
    each_from-keeps (λ k t. t.pmm ≡ s.pmm) (λ i t. set_entry t to i (t.entry from i)) 256 256 512 s
      (omega arith) (λ k t lo hi h. h) refl

module _ (s : Tables) (p kernel : ℕ) where
  new_table :
      p ≢ kernel
      → (i : ℕ) → i < 512
      → (copy_kernel_half (with_table s p) p kernel).entry p i
        ≡ (if ltb i 256 then zero_entry else s.entry kernel i)
  unfolding zero_table
  new_table ne i h = ground (arith, copy_kernel_half-entry (with_table s p) p kernel p i)

  other_table :
      (t i : ℕ) → t ≢ p → (copy_kernel_half (with_table s p) p kernel).entry t i ≡ s.entry t i
  unfolding zero_table
  other_table t i ne = ground (arith, copy_kernel_half-entry (with_table s p) p kernel t i)

marked :
    (s : Tables) (p : ℕ)
    → Takes s.pmm p (pmm_alloc s.pmm)
    → IsValid s.pmm
    → used (with_table s p).pmm p ≡ true
unfolding zero_table
marked s p t v = ground (arith, t.marks p (omega (arith, t.in_range, v.covers)))

-- With a valid allocator and the kernel's table in use, `create_new_pml4` fails only when every
-- page from 1 on is in use. Otherwise it takes a free page for the new table, whose lower half
-- maps nothing and whose upper half is the kernel's, and changes no other table.
pub create_new_pml4_lem :
    (s : Tables) (kernel : ℕ)
    → IsValid s.pmm
    → kernel < s.pmm.total_pages
    → used s.pmm kernel ≡ true
    → (AllUsed s.pmm × (create_new_pml4 s kernel ≡ none))
      ⊎ ((p : ℕ) × (s' : Tables) × (create_new_pml4 s kernel ≡ some (p, s'))
          × (used s.pmm p ≡ false)
          × (used s'.pmm p ≡ true)
          × ((i : ℕ)
              → i < 512
              → s'.entry p i ≡ (if ltb i 256 then zero_entry else s.entry kernel i))
          × ((t i : ℕ) → t ≢ p → s'.entry t i ≡ s.entry t i))
unfolding create_new_pml4
create_new_pml4_lem s kernel v inside taken = elim (alloc_page_table-cases s v) [
  | inr (full, e) ↦ inl (full, rw e)
  | inl (p, t, e) ↦
      let copied = copy_kernel_half-entry (with_table s p) p kernel in
      let page : p * 4096 / 4096 ≡ p = omega arith in
      inr (
        p,
        copy_kernel_half (with_table s p) p kernel,
        rw (e, ==-ne (p * 4096) 0 (omega (arith, t.in_range)), page, create_new_pml4),
        t.was_free,
        rw (copy_kernel_half-pmm (with_table s p) p kernel) (marked s p t v),
        λ i h. new_table s p kernel (λ e. ground (arith, t.was_free)) i h,
        λ u i ne. other_table s p kernel u i ne,
      )
]
