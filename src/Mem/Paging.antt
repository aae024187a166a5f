-- ===== src/Mem/Paging.antt =====
-- src/kernel/mem/mem.c with src/include/mem/paging.h: page tables. A table is named by the number
-- of its frame: the kernel reaches it through PHYS_TO_VIRT, which adds the constant offset of the
-- direct map, so a table's address is its frame number times 4096.
pub mod Walk
pub mod Grow
pub mod Map
pub mod Kernel
mod Examples
use hvos.Common.{
  ℕ, zero, suc, ◌+◌, ◌-◌, ◌*◌, ◌/◌, ◌%◌, ◌^◌, ◌≤◌, ◌<◌, bit_and, bit_or, ◌≡◌, refl, sym, ap, subst,
  ◌∙◌, ◌≢◌, ◌↔◌, ◌⊎◌, inl, inr, Bool, true, false, not, ◌&&◌, ◌||◌, Option, none, some, List, [],
  ◌∷◌, ◌++◌, map, arith, ltb, leb, ◌==◌, if◌then◌else◌, Bool-cases, Option-cases, ltb→lt, lt→ltb,
  le→ltb, ==→eq, ==-ne, ==_refl, u8, u16, u32, u64, sub64, ◌<<<◌, ◌>>>◌, length, replicate, take,
  drop, get_elem?, get_or, set, All, length-set, get_or-set_self, get_or-set_ne, length-append,
  length-replicate, All-replicate, get_or-replicate, All-set, All-get_or,
}
use hvos.Common.Loops.{each_from, each_from-keeps}
use hvos.Mem.Pmm.{Pmm, pmm_alloc}

-- `page_table_entry_t`; `rest` holds the bits that no code here names.
pub record Entry : Type 0 where
  pub present : Bool
  pub rw : Bool
  pub us : Bool
  pub address : ℕ
  pub rest : ℕ

abbrev pub zero_entry : Entry
zero_entry = record { present = false; rw = false; us = false; address = 0; rest = 0 }

-- The entries of every frame, and the allocator that tables come from.
pub record Tables : Type 0 where
  pub entry : ℕ → ℕ → Entry
  pub pmm : Pmm

abbrev pub pte_user : ℕ
pte_user = 4

-- `virtual_address_t`: the four indices of nine bits, the highest first.
abbrev pub indices : ℕ → List ℕ
indices va = va >>> 39 % 512 ∷ va >>> 30 % 512 ∷ va >>> 21 % 512 ∷ va >>> 12 % 512 ∷ []

unfoldable pub set_entry : Tables → ℕ → ℕ → Entry → Tables
set_entry s t i e = record s { entry = λ u j. if u == t && j == i then e else s.entry u j }

-- `memset(table, 0, PAGE_SIZE)`
unfoldable pub zero_table : Tables → ℕ → Tables
zero_table s t = record s { entry = λ u j. if u == t then zero_entry else s.entry u j }

-- The new table's physical address, 0 for NULL.
unfoldable pub alloc_page_table : Tables → ℕ × Tables
alloc_page_table s =
    let (phys_addr, pmm) = pmm_alloc s.pmm in
    let s' : Tables = record s { pmm = pmm } in
    if phys_addr == 0 then (0, s') else (phys_addr, zero_table s' (phys_addr / 4096))

-- The table that entry `i` of table `t` leads to, which is made where the entry is not present;
-- `none` is the halt for want of memory. `map_page` does this at its first three levels.
unfoldable pub next_table : Tables → ℕ → ℕ → ℕ → Option (ℕ × Tables)
next_table s t i flags =
    if (s.entry t i).present
    then some ((s.entry t i).address, s)
    else let (new_table, s') = alloc_page_table s in
      if new_table == 0
      then none
      else let address : ℕ = new_table >>> 12 % 2 ^ 40 in
        some (
          address,
          set_entry s' t i (record (s'.entry t i) {
            present = true;
            rw = true;
            us = not (bit_and flags pte_user == 0);
            address = address;
          }),
        )

unfoldable pub set_leaf : Tables → ℕ → ℕ → ℕ → ℕ → Tables
set_leaf s t i paddr flags = set_entry s t i (record (s.entry t i) {
  present = true;
  rw = true;
  us = not (bit_and flags pte_user == 0);
  address = paddr >>> 12 % 2 ^ 40;
})

infixl 5 ◌>>=◌
abbrev pub ◌>>=◌ {ℓ κ} : {A : Type ℓ} {B : Type κ} → Option A → (A → Option B) → Option B
none >>= f = none
some a >>= f = f a

unfoldable pub map_page : Tables → ℕ → ℕ → ℕ → ℕ → Option Tables
map_page s pml4 va paddr flags = do
  (pdpt, s₁) ← next_table s pml4 (va >>> 39 % 512) flags
  (pd, s₂) ← next_table s₁ pdpt (va >>> 30 % 512) flags
  (pt, s₃) ← next_table s₂ pd (va >>> 21 % 512) flags
  some (set_leaf s₃ pt (va >>> 12 % 512) paddr flags)

-- `to->entries[i] = from->entries[i]` for the kernel's half of a top table.
unfoldable pub copy_kernel_half : Tables → ℕ → ℕ → Tables
copy_kernel_half s to from = each_from 256 256 (λ i t. set_entry t to i (t.entry from i)) s

-- The frame of a new top table with the kernel's upper half, `none` for NULL.
unfoldable pub create_new_pml4 : Tables → ℕ → Option (ℕ × Tables)
create_new_pml4 s kernel_pml4 =
    let (pml4_phys, s') = alloc_page_table s in
    if pml4_phys == 0
    then none
    else some (pml4_phys / 4096, copy_kernel_half s' (pml4_phys / 4096) kernel_pml4)
