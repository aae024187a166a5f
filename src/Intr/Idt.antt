-- ===== src/Intr/Idt.antt =====
-- src/kernel/intr/idt.c, and the vectors that `intr_init` of intr.c sets. The handlers, which are
-- assembly, are addresses given as arguments.
pub mod Vectors
mod Examples
use hvos.Common.{
  ℕ, zero, suc, ◌+◌, ◌-◌, ◌*◌, ◌/◌, ◌%◌, ◌^◌, ◌≤◌, ◌<◌, bit_and, bit_or, ◌≡◌, refl, sym, ap, subst,
  ◌∙◌, ◌≢◌, ◌↔◌, ◌⊎◌, inl, inr, Bool, true, false, not, ◌&&◌, ◌||◌, Option, none, some, List, [],
  ◌∷◌, ◌++◌, map, arith, ltb, leb, ◌==◌, if◌then◌else◌, Bool-cases, Option-cases, every, every-lem,
  ltb→lt, lt→ltb, le→ltb, ==→eq, ==-ne, ==_refl, u8, u16, u32, u64, sub64, ◌<<<◌, ◌>>>◌, length,
  replicate, take, drop, listed, get_elem?, get_or, set, All, length-set, get_or-set_self,
  get_or-set_ne, length-append, length-replicate, All-replicate, get_or-replicate, All-set,
  All-get_or,
}
use hvos.Common.Loops.{each_from, each_from-keeps}

-- `idt_entry_t`
pub record IdtEntry : Type 0 where
  pub offset_1 : ℕ
  pub selector : ℕ
  pub ist : ℕ
  pub type_attributes : ℕ
  pub offset_2 : ℕ
  pub offset_3 : ℕ
  pub last : ℕ

abbrev pub Idt : Type 0
Idt = ℕ → IdtEntry

abbrev write_entry : Idt → ℕ → (IdtEntry → IdtEntry) → Idt
write_entry idt index f j = if j == index then f (idt j) else idt j

-- `ist` stays as it was.
pub idt_set_entry : Idt → ℕ → ℕ → ℕ → ℕ → Idt
idt_set_entry idt index base selector kind = write_entry idt index (λ e. record e {
  offset_1 = u16 base;
  selector = selector;
  type_attributes = u8 kind;
  offset_2 = u16 (base >>> 16);
  offset_3 = u32 (base >>> 32);
  last = 0;
})

pub idt_set_entry_with_ist : Idt → ℕ → ℕ → ℕ → ℕ → ℕ → Idt
idt_set_entry_with_ist idt index base selector kind ist = write_entry idt index (λ e. record {
  offset_1 = u16 base;
  selector = selector;
  ist = ist % 8;
  type_attributes = u8 kind;
  offset_2 = u16 (base >>> 16);
  offset_3 = u32 (base >>> 32);
  last = 0;
})

pub idt_set_handler : Idt → ℕ → ℕ → ℕ → Idt
unfolding idt_set_entry idt_set_entry_with_ist
idt_set_handler idt index kind handler =
    if handler == 0
    then idt_set_entry idt index 0 0 0
    else idt_set_entry_with_ist idt index handler 8 kind (if index == 0x30 then 1 else 0)

abbrev pub interrupt_gate : ℕ
interrupt_gate = 0x8E

abbrev pub trap_gate : ℕ
trap_gate = 0x8F

-- The addresses of the assembly entry points.
pub record Handlers : Type 0 where
  pub exceptions : ℕ → ℕ
  pub default_exception : ℕ
  pub default_interrupt : ℕ
  pub pit : ℕ
  pub keyboard : ℕ
  pub spurious : ℕ
  pub scheduler : ℕ
  pub generic : ℕ
  pub page_fault : ℕ
  pub gpf : ℕ

pub idt_init : Idt → Handlers → Idt
idt_init idt hs =
    let a = each_from 20 0 (λ i t. idt_set_handler t i interrupt_gate (hs.exceptions i)) idt in
    let b = each_from 12 20 (λ i t. idt_set_handler t i interrupt_gate hs.default_exception) a in
    each_from 224 32 (λ i t. idt_set_handler t i trap_gate hs.default_interrupt) b

-- The part of `intr_init` that fills the table.
pub intr_init : Idt → Handlers → Idt
intr_init idt hs =
    let a = idt_init idt hs in
    let b = idt_set_handler a 0x20 interrupt_gate hs.pit in
    let c = idt_set_handler b 0x21 interrupt_gate hs.keyboard in
    let d = idt_set_handler c 0xFF interrupt_gate hs.spurious in
    let e = idt_set_handler d 0x30 interrupt_gate hs.scheduler in
    let f = each_from 13 0 (λ i t. idt_set_handler t i interrupt_gate hs.generic) e in
    let g = idt_set_handler f 0xE interrupt_gate hs.page_fault in
    idt_set_handler g 0xD interrupt_gate hs.gpf

-- Where the processor goes on for a vector, and by what gate.
abbrev pub handler_of : IdtEntry → ℕ
handler_of e = e.offset_1 + e.offset_2 * 2 ^ 16 + e.offset_3 * 2 ^ 32

abbrev pub Leads : IdtEntry → ℕ → ℕ → ℕ → Type 0
Leads e index kind handler =
    (handler_of e ≡ handler)
    × (e.type_attributes ≡ kind)
    × (e.selector ≡ 8)
    × (e.ist ≡ (if index == 0x30 then 1 else 0))

-- A handler that is not NULL.
abbrev pub IsHandler : ℕ → Type 0
IsHandler h = (h ≢ 0) × (h < 2 ^ 64)
