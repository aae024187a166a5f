-- ===== src/Intr/Idt/Vectors.antt =====
-- Where each vector leads after `intr_init`.
use hvos.Common.{
  ℕ, ◌+◌, ◌≤◌, ◌<◌, ◌≡◌, refl, sym, subst, ◌∙◌, ◌≢◌, ◌⊎◌, inl, inr, Bool, ◌&&◌, ◌||◌, arith, ltb,
  leb, ◌==◌, if◌then◌else◌, Bool-cases, ==→eq,
}
use hvos.Common.Loops.{each_from, each_from-keeps}
use hvos.Intr.Idt.{
  IdtEntry, Idt, idt_set_handler, interrupt_gate, trap_gate, Handlers, idt_init, intr_init, Leads,
  IsHandler,
}

set_handler_self :
    (idt : Idt) (i kind h : ℕ)
    → IsHandler h
    → kind < 256
    → Leads (idt_set_handler idt i kind h i) i kind h
unfolding idt_set_handler
set_handler_self idt i kind h ok small = ground arith

set_handler_at :
    (idt : Idt) (i j kind : ℕ) (h : ℕ → ℕ)
    → ((i : ℕ) → IsHandler (h i))
    → kind < 256
    → j ≡ i
    → Leads (idt_set_handler idt i kind (h i) j) j kind (h j)
set_handler_at idt i j kind h ok small e = rw e (set_handler_self idt i kind (h i) (ok i) small)

set_handler_other : (idt : Idt) (i j kind h : ℕ) → j ≢ i → idt_set_handler idt i kind h j ≡ idt j
unfolding idt_set_handler
set_handler_other idt i j kind h ne = ground arith

-- A loop over vectors leads each of them to its handler, and leaves the others.
range_in :
    (n lo kind : ℕ) (h : ℕ → ℕ) (idt : Idt) (j : ℕ)
    → ((i : ℕ) → IsHandler (h i))
    → kind < 256
    → lo ≤ j
    → j < lo + n
    → Leads (each_from n lo (λ i t. idt_set_handler t i kind (h i)) idt j) j kind (h j)
range_in n lo kind h idt j ok small a b =
    each_from-keeps (λ k t. j < k → Leads (t j) j kind (h j))
      (λ i t. idt_set_handler t i kind (h i)) n lo (lo + n) idt refl
      (λ k t p q keep less. elim (Bool-cases (j == k)) [
        | inl here ↦ set_handler_at t k j kind h ok small (==→eq j k here)
        | inr before ↦
            subst (λ e. Leads e j kind (h j))
              (sym (set_handler_other t k j kind (h k) (λ e. ground arith))) (keep (ground arith))
      ])
      (λ less. absurd (omega arith)) b

range_out :
    (n lo kind : ℕ) (h : ℕ → ℕ) (idt : Idt) (j : ℕ)
    → (j < lo) ⊎ (lo + n ≤ j)
    → each_from n lo (λ i t. idt_set_handler t i kind (h i)) idt j ≡ idt j
range_out n lo kind h idt j out =
    each_from-keeps (λ k t. t j ≡ idt j) (λ i t. idt_set_handler t i kind (h i)) n lo (lo + n) idt
      refl (λ k t p q keep. set_handler_other t k j kind (h k) (λ e. ground arith) ∙ keep) refl

abbrev within : ℕ → ℕ → ℕ → Bool
within lo n j = leb lo j && ltb j (lo + n)

-- What a later write makes of a vector that leads somewhere.
module _ (idt : Idt) (j k₀ h₀ : ℕ) (before : Leads (idt j) j k₀ h₀) where
  then_set :
      (i kind h : ℕ)
      → IsHandler h
      → kind < 256
      → Leads
          (idt_set_handler idt i kind h j)
          j
          (if j == i then kind else k₀)
          (if j == i then h else h₀)
  then_set i kind h ok small = elim (Bool-cases (j == i)) [
    | inl here ↦ rw here (set_handler_at idt i j kind (λ x. h) (λ x. ok) small (==→eq j i here))
    | inr other ↦ rw other (
        subst (λ e. Leads e j k₀ h₀) (sym (set_handler_other idt i j kind h (λ e. ground arith)))
          before)
  ]

  then_range :
      (n lo kind : ℕ) (h : ℕ → ℕ)
      → ((i : ℕ) → IsHandler (h i))
      → kind < 256
      → Leads
          (each_from n lo (λ i t. idt_set_handler t i kind (h i)) idt j)
          j
          (if within lo n j then kind else k₀)
          (if within lo n j then h j else h₀)
  then_range n lo kind h ok small = elim (Bool-cases (within lo n j)) [
    | inl inn ↦ rw inn (range_in n lo kind h idt j ok small (ground arith) (ground arith))
    | inr out ↦
        rw out
          (subst (λ e. Leads e j k₀ h₀) (sym (range_out n lo kind h idt j (ground arith))) before)
  ]

-- Every handler is given.
pub record AllGiven (hs : Handlers) : Type 0 where
  pub exceptions : (i : ℕ) → IsHandler (hs.exceptions i)
  pub defaults : IsHandler hs.default_exception × IsHandler hs.default_interrupt
  pub devices :
      IsHandler hs.pit × IsHandler hs.keyboard × IsHandler hs.spurious × IsHandler hs.scheduler
  pub faults : IsHandler hs.generic × IsHandler hs.page_fault × IsHandler hs.gpf

-- The handler that a vector is meant for.
abbrev pub handler_for : Handlers → ℕ → ℕ
handler_for hs j =
    if j == 0xD
    then hs.gpf
    else if j == 0xE
    then hs.page_fault
    else if within 0 13 j
    then hs.generic
    else if j == 0x30
    then hs.scheduler
    else if j == 0xFF
    then hs.spurious
    else if j == 0x21
    then hs.keyboard
    else if j == 0x20
    then hs.pit
    else if within 32 224 j
    then hs.default_interrupt
    else if within 20 12 j
    then hs.default_exception
    else hs.exceptions j

-- The gate closes interrupts for exceptions and the four devices, and leaves them open for the
-- rest.
abbrev pub gate_for : ℕ → ℕ
gate_for j =
    if ltb j 32 || j == 0x20 || j == 0x21 || j == 0x30 || j == 0xFF
    then interrupt_gate
    else trap_gate

Leads-same : (e : IdtEntry) (j k k' h h' : ℕ) → k ≡ k' → h ≡ h' → Leads e j k h → Leads e j k' h'
Leads-same e j k k' h h' p q l = rw (← p, ← q) l

module _ (idt : Idt) (hs : Handlers) (g : AllGiven hs) (j : ℕ) (vector : j < 256) where
  abbrev first : Idt
  first = each_from 20 0 (λ i t. idt_set_handler t i interrupt_gate (hs.exceptions i)) idt

  abbrev second : Idt
  second = each_from 12 20 (λ i t. idt_set_handler t i interrupt_gate hs.default_exception) first

  idt_init-Leads :
      Leads (idt_init idt hs j) j (if within 32 224 j then trap_gate else interrupt_gate) (
        if within 32 224 j
        then hs.default_interrupt
        else if within 20 12 j
        then hs.default_exception
        else hs.exceptions j)
  unfolding idt_init
  idt_init-Leads = elim (Bool-cases (ltb j 20)) [
    | inl low ↦ Leads-same (idt_init idt hs j) j _ _ _ _ (ground arith) (ground arith) (
        then_range second j _ _
          (then_range first j _ _
            (range_in 20 0 interrupt_gate hs.exceptions idt j g.exceptions (omega arith)
              (omega arith) (ground arith))
            12 20 interrupt_gate (λ i. hs.default_exception) (λ i. g.defaults.0) (omega arith))
          224 32 trap_gate (λ i. hs.default_interrupt) (λ i. g.defaults.1) (omega arith))
    | inr more ↦ elim (Bool-cases (ltb j 32)) [
      | inl middle ↦ Leads-same (idt_init idt hs j) j _ _ _ _ (ground arith) (ground arith) (
          then_range second j _ _
            (range_in 12 20 interrupt_gate (λ i. hs.default_exception) first j (λ i. g.defaults.0)
              (omega arith) (ground arith) (ground arith))
            224 32 trap_gate (λ i. hs.default_interrupt) (λ i. g.defaults.1) (omega arith))
      | inr high ↦ Leads-same (idt_init idt hs j) j _ _ _ _ (ground arith) (ground arith) (
          range_in 224 32 trap_gate (λ i. hs.default_interrupt) second j (λ i. g.defaults.1)
            (omega arith) (ground arith) (ground arith))
    ]
  ]

  -- With every handler given, after `intr_init` each of the 256 vectors leads to the handler that
  -- it is meant for, in the kernel's code segment, by a gate that closes interrupts for the
  -- exceptions and the four devices and by one that leaves them open for the rest, and only the
  -- scheduler's vector names an interrupt stack.
  pub intr_init_lem : Leads (intr_init idt hs j) j (gate_for j) (handler_for hs j)
  unfolding intr_init
  intr_init_lem = Leads-same (intr_init idt hs j) j _ _ _ _ (ground arith) refl (
      then_set _ j _ _
        (then_set _ j _ _
          (then_range _ j _ _
            (then_set _ j _ _
              (then_set _ j _ _
                (then_set _ j _ _
                  (then_set _ j _ _ idt_init-Leads 0x20 interrupt_gate hs.pit g.devices.0
                    (omega arith))
                  0x21 interrupt_gate hs.keyboard (g.devices.1) (omega arith))
                0xFF interrupt_gate hs.spurious (g.devices.2) (omega arith))
              0x30 interrupt_gate hs.scheduler (g.devices.3) (omega arith))
            13 0 interrupt_gate (λ i. hs.generic) (λ i. g.faults.0) (omega arith))
          0xE interrupt_gate hs.page_fault (g.faults.1) (omega arith))
        0xD interrupt_gate hs.gpf (g.faults.2) (omega arith))
