-- ===== src/Acpi.antt =====
-- src/kernel/acpi.c: the walk over the entries of the MADT, for the cores and the I/O APIC, and the
-- look-up of an interrupt's override. `mem` is memory from the table's address on, byte by byte.
pub mod Walk
mod Examples
use hvos.Common.{
  ℕ, zero, suc, ◌+◌, ◌-◌, ◌*◌, ◌/◌, ◌%◌, ◌^◌, ◌≤◌, ◌<◌, bit_and, bit_or, ◌≡◌, refl, sym, ap, subst,
  ◌∙◌, ◌≢◌, ◌↔◌, ◌⊎◌, inl, inr, Bool, true, false, not, ◌&&◌, ◌||◌, Option, none, some, List, [],
  ◌∷◌, ◌++◌, map, append_assoc, append-nil, arith, ltb, leb, ◌==◌, if◌then◌else◌, Bool-cases,
  Option-cases, every, every-lem, ltb→lt, lt→ltb, le→ltb, ==→eq, ==-ne, ==_refl, u8, u16, u32, u64,
  sub64, ◌<<<◌, ◌>>>◌, length, assign, replicate, take, drop, listed, get_elem?, get_or, set, All,
  length-set, get_or-set_self, get_or-set_ne, length-append, length-replicate, All-replicate,
  get_or-replicate, All-set, All-get_or,
}
use hvos.Common.Loops.{each_from, each_from-keeps}
use hvos.Mem.Paging.{Tables, map_page, ◌>>=◌}

-- `cpu_ids` is memory from the array `g_acpi_cpu_ids` on, which has 16 elements.
pub record Acpi : Type 0 where
  pub cpu_count : ℕ
  pub cpu_ids : ℕ → ℕ
  pub io_apic_addr : ℕ
  pub local_apic_address : ℕ
  pub tables : Tables

-- A field of 32 bits.
abbrev pub u32_at : (ℕ → ℕ) → ℕ → ℕ
u32_at mem i = mem i + mem (i + 1) * 2 ^ 8 + mem (i + 2) * 2 ^ 16 + mem (i + 3) * 2 ^ 24

unfoldable pub register_cpu_core : Acpi → ℕ → Acpi
register_cpu_core s apic_id = record s {
  cpu_ids = assign s.cpu_ids s.cpu_count apic_id;
  cpu_count = u32 (s.cpu_count + 1);
}

-- `PTE_PRESENT | PTE_WRITABLE | PTE_PCD`
abbrev pub device_flags : ℕ
device_flags = 19

abbrev pub apic_type_local_apic : ℕ
apic_type_local_apic = 0

abbrev pub apic_type_io_apic : ℕ
apic_type_io_apic = 1

abbrev pub apic_type_interrupt_override : ℕ
apic_type_interrupt_override = 2

-- The cases of `acpi_parse_apic` for the entry at an offset; `none` is the halt in `map_page`.
-- `root` and `hhdm` are the kernel's top table and the offset of the direct map.
unfoldable pub parse_entry : ℕ → ℕ → (ℕ → ℕ) → ℕ → Acpi → Option Acpi
parse_entry root hhdm mem off s =
    if mem off == apic_type_local_apic
    then some (if u32_at mem (off + 4) % 4 == 0 then s else register_cpu_core s (mem (off + 3)))
    else if mem off == apic_type_io_apic
    then (let phys = u32_at mem (off + 4) in
        map_page s.tables root (phys + hhdm) phys device_flags >>= λ t.
        some (record s { io_apic_addr = phys + hhdm; tables = t }))
    else some s

-- The loop of `acpi_parse_apic`, which stops at an entry of length 0, with fuel for its rounds.
unfoldable pub parse_entries : ℕ → ℕ → ℕ → (ℕ → ℕ) → ℕ → ℕ → Acpi → Option Acpi
parse_entries zero root hhdm mem madt_len off s = some s
parse_entries (suc n) root hhdm mem madt_len off s =
    if leb madt_len off || mem (off + 1) == 0
    then some s
    else (parse_entry root hhdm mem off s >>= λ t.
        parse_entries n root hhdm mem madt_len (off + mem (off + 1)) t)

-- The table is at its header of 44 bytes, with its length at byte 4 and the local APIC's address at
-- byte 36.
unfoldable pub acpi_parse_apic : ℕ → ℕ → (ℕ → ℕ) → Acpi → Option Acpi
acpi_parse_apic root hhdm mem s =
    map_page s.tables root (u32_at mem 36 + hhdm) (u32_at mem 36) device_flags >>= λ t.
    parse_entries (u32_at mem 4) root hhdm mem (u32_at mem 4) 44
      (record s { tables = t; local_apic_address = u32_at mem 36 + hhdm })

-- The loop of `acpi_remap_irq`; `none` says that it has not returned within the rounds.
unfoldable pub remap_from : ℕ → (ℕ → ℕ) → ℕ → ℕ → ℕ → Option ℕ
remap_from zero mem madt_len irq off = none
remap_from (suc n) mem madt_len irq off =
    let rest = remap_from n mem madt_len irq (off + mem (off + 1)) in
    if leb madt_len off
    then some irq
    else if mem off == apic_type_interrupt_override && mem (off + 3) == irq
    then some (u32_at mem (off + 4))
    else rest

unfoldable pub acpi_remap_irq : ℕ → (ℕ → ℕ) → ℕ → Option ℕ
acpi_remap_irq rounds mem irq = remap_from rounds mem (u32_at mem 4) irq 44
