-- ===== src/Intr/Idt/Examples.antt =====
-- A table of handlers.
use hvos.Common.{arith}
use hvos.Intr.Idt.{Idt, Handlers, intr_init, Leads}
use hvos.Intr.Idt.Vectors.{AllGiven, gate_for, handler_for, intr_init_lem}

abbrev no_entries : Idt
no_entries i = record {
  offset_1 = 0;
  selector = 0;
  ist = 0;
  type_attributes = 0;
  offset_2 = 0;
  offset_3 = 0;
  last = 0;
}

abbrev some_handlers : Handlers
some_handlers = record {
  exceptions = λ i. 0xffffffff80001000;
  default_exception = 0xffffffff80002000;
  default_interrupt = 0xffffffff80002010;
  pit = 0xffffffff80002020;
  keyboard = 0xffffffff80002030;
  spurious = 0xffffffff80002040;
  scheduler = 0xffffffff80002050;
  generic = 0xffffffff80002060;
  page_fault = 0xffffffff80002070;
  gpf = 0xffffffff80002080;
}

some_handlers-AllGiven : AllGiven some_handlers
some_handlers-AllGiven = record {
  exceptions = λ i. (omega arith, omega arith);
  defaults = omega arith;
  devices = omega arith;
  faults = omega arith;
}

intr_init_lem_example :
    Leads
      (intr_init no_entries some_handlers 0x30)
      0x30
      (gate_for 0x30)
      (handler_for some_handlers 0x30)
intr_init_lem_example =
    intr_init_lem no_entries some_handlers some_handlers-AllGiven 0x30 (omega arith)
