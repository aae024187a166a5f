-- ===== src/Intr.antt =====
-- src/kernel/gdt.c and src/kernel/intr: what the processor finds in its tables.
pub mod Gdt
pub mod Idt
