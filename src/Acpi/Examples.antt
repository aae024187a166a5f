-- ===== src/Acpi/Examples.antt =====
-- A table with one core, the override of the timer, and nothing else.
use hvos.Common.{ℕ, suc, ◌+◌, ◌<◌, ◌≡◌, refl, ◌⊎◌, Option, none, some, [], ◌==◌, if◌then◌else◌}
use hvos.Mem.Paging.{zero_entry}
use hvos.Acpi.{
  Acpi, u32_at, register_cpu_core, parse_entry, parse_entries, remap_from, acpi_remap_irq,
}
use hvos.Acpi.Walk.{acpi_walks}

-- Bytes by offset: the length, a local APIC of 8 bytes with the id 5, and an override of 10 bytes.
abbrev madt : ℕ → ℕ
madt i =
    if i == 4
    then 62
    else if i == 45
    then 8
    else if i == 47
    then 5
    else if i == 48
    then 1
    else if i == 52
    then 2
    else if i == 53
    then 10
    else if i == 56
    then 2
    else 0

abbrev no_cores : Acpi
no_cores = record {
  cpu_count = 0;
  cpu_ids = λ _. 0;
  io_apic_addr = 0;
  local_apic_address = 0;
  tables = record {
    entry = λ t i. zero_entry;
    pmm = record { bitmap = []; total_pages = 0; used_pages = 0 };
  };
}

-- The timer's interrupt 0 comes in at 2, and others as they are.
remapped : (acpi_remap_irq 63 madt 0 ≡ some 2) × (acpi_remap_irq 63 madt 7 ≡ some 7)
unfolding acpi_remap_irq remap_from
remapped = (refl, refl)

abbrev ids_of : Option Acpi → ℕ × ℕ
ids_of none = (0, 0)
ids_of (some s) = (s.cpu_count, s.cpu_ids 0)

one_core : ids_of (parse_entries 62 0 0 madt 62 44 no_cores) ≡ (1, 5)
unfolding parse_entries parse_entry register_cpu_core
one_core = refl

acpi_walks_example :
    (parse_entries (u32_at madt 4 + 9) 0 0 madt (u32_at madt 4) 44 no_cores
      ≡ parse_entries (u32_at madt 4) 0 0 madt (u32_at madt 4) 44 no_cores)
    × (((r : ℕ) × (acpi_remap_irq (suc (u32_at madt 4)) madt 7 ≡ some r))
        ⊎ ((o : ℕ) × (o < u32_at madt 4)
            × (madt (o + 1) ≡ 0)
            × ((rounds : ℕ) → acpi_remap_irq rounds madt 7 ≡ none)))
acpi_walks_example = acpi_walks 0 0 9 7 madt no_cores
