-- ===== src/Intr/Gdt.antt =====
-- src/kernel/gdt.c: segment descriptors. A mask of `k` low ones, as in `& 0xFFFF`, is written as
-- a remainder, and so is the width of a bit field.
use hvos.Common.{ℕ, ◌+◌, ◌*◌, ◌/◌, ◌%◌, ◌^◌, ◌<◌, ◌≡◌, refl, arith, u32, ◌>>>◌}

-- `seg_descr_t`; `flag_s`, `flag_p` and so on are the fields of one bit.
pub record GdtDesc : Type 0 where
  pub limit0 : ℕ
  pub base0 : ℕ
  pub base1 : ℕ
  pub kind : ℕ
  pub flag_s : ℕ
  pub dpl : ℕ
  pub flag_p : ℕ
  pub limit1 : ℕ
  pub avl : ℕ
  pub flag_l : ℕ
  pub flag_d : ℕ
  pub flag_g : ℕ
  pub base2 : ℕ

pub set_gdt_gate : ℕ → ℕ → ℕ → GdtDesc
set_gdt_gate base limit flags = record {
  base0 = base % 2 ^ 16;
  base1 = base >>> 16 % 2 ^ 8;
  base2 = base >>> 24 % 2 ^ 8;
  limit0 = limit % 2 ^ 16;
  limit1 = limit >>> 16 % 2 ^ 16 % 2 ^ 4;
  kind = flags % 2 ^ 4;
  flag_s = flags >>> 4 % 2;
  dpl = flags >>> 5 % 2 ^ 2;
  flag_p = flags >>> 7 % 2;
  avl = flags >>> 12 % 2;
  flag_l = flags >>> 13 % 2;
  flag_d = flags >>> 14 % 2;
  flag_g = flags >>> 15 % 2;
}

-- The two entries of the task state segment: the second has the upper half of the base.
pub set_gdt_tss_gate : ℕ → ℕ → GdtDesc × ℕ × ℕ
set_gdt_tss_gate base limit = (
  record {
    limit0 = limit % 2 ^ 16;
    base0 = base % 2 ^ 16;
    base1 = base >>> 16 % 2 ^ 8;
    kind = 9;
    flag_s = 0;
    dpl = 0;
    flag_p = 1;
    limit1 = limit >>> 16 % 2 ^ 4;
    avl = 0;
    flag_l = 0;
    flag_d = 0;
    flag_g = 0;
    base2 = base >>> 24 % 2 ^ 8;
  },
  u32 (base >>> 32),
  0,
)

-- What the processor reads out of a descriptor.
abbrev pub base_of : GdtDesc → ℕ
base_of e = e.base0 + e.base1 * 2 ^ 16 + e.base2 * 2 ^ 24

abbrev pub limit_of : GdtDesc → ℕ
limit_of e = e.limit0 + e.limit1 * 2 ^ 16

abbrev pub access_of : GdtDesc → ℕ
access_of e = e.kind + e.flag_s * 2 ^ 4 + e.dpl * 2 ^ 5 + e.flag_p * 2 ^ 7

abbrev pub size_flags_of : GdtDesc → ℕ
size_flags_of e = e.avl + e.flag_l * 2 + e.flag_d * 4 + e.flag_g * 8

-- A descriptor gives back its base and the low 20 bits of its limit; the bits 0 to 7 of the flags
-- are its access byte, the bits 12 to 15 its size flags, and the others are lost. For the task
-- state segment the two entries give back all 64 bits of the base, as a present system segment of
-- ring 0.
pub gdt_gate_lem :
    (base limit flags tss_base tss_limit : ℕ)
    → base < 2 ^ 32
    → tss_base < 2 ^ 64
    → let e = set_gdt_gate base limit flags in
      let tss = set_gdt_tss_gate tss_base tss_limit in
      (base_of e ≡ base)
      × (limit_of e ≡ limit % 2 ^ 20)
      × (access_of e ≡ flags % 2 ^ 8)
      × (size_flags_of e ≡ flags / 2 ^ 12 % 2 ^ 4)
      × (base_of tss.0 + tss.1 * 2 ^ 32 ≡ tss_base)
      × (limit_of tss.0 ≡ tss_limit % 2 ^ 20)
      × (access_of tss.0 ≡ 0x89)
unfolding set_gdt_gate set_gdt_tss_gate
gdt_gate_lem base limit flags tss_base tss_limit small wide =
    (omega arith, omega arith, omega arith, omega arith, omega arith, omega arith, refl)
