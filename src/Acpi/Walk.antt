-- ===== src/Acpi/Walk.antt =====
-- Which walks over the MADT end.
use hvos.Common.{
  ℕ, zero, suc, ◌+◌, ◌≤◌, ◌<◌, ◌≡◌, refl, ap, ◌∙◌, ◌⊎◌, inl, inr, Bool, false, ◌&&◌, ◌||◌, Option,
  none, some, arith, leb, ◌==◌, Bool-cases, ==→eq,
}
use hvos.Mem.Paging.{◌>>=◌}
use hvos.Acpi.{
  Acpi, u32_at, apic_type_interrupt_override, parse_entry, parse_entries, remap_from,
  acpi_remap_irq,
}

bind_same :
    (o : Option Acpi) (f g : Acpi → Option Acpi) → ((s : Acpi) → f s ≡ g s) → (o >>= f) ≡ (o >>= g)
bind_same none f g h = refl
bind_same (some s) f g h = h s

-- One round more changes nothing, once there is a round for each byte that is left.
parse_enough :
    (n root hhdm : ℕ) (mem : ℕ → ℕ) (len off : ℕ) (s : Acpi)
    → len ≤ off + n
    → parse_entries (suc n) root hhdm mem len off s ≡ parse_entries n root hhdm mem len off s
unfolding parse_entries
parse_enough zero root hhdm mem len off s h = ground arith
parse_enough (suc n) root hhdm mem len off s h =
    elim (Bool-cases (leb len off || mem (off + 1) == 0)) [
      | inl ends ↦ rw ends refl
      | inr goes ↦ rw goes (
          bind_same (parse_entry root hhdm mem off s) _ _
            (λ t. parse_enough n root hhdm mem len (off + mem (off + 1)) t (ground arith)))
    ]

-- An override of the interrupt.
abbrev pub is_override : (ℕ → ℕ) → ℕ → ℕ → Bool
is_override mem irq off = mem off == apic_type_interrupt_override && mem (off + 3) == irq

stuck :
    (n : ℕ) (mem : ℕ → ℕ) (len irq off : ℕ)
    → off < len
    → is_override mem irq off ≡ false
    → mem (off + 1) ≡ 0
    → remap_from n mem len irq off ≡ none
unfolding remap_from
stuck zero mem len irq off h k z = refl
stuck (suc n) mem len irq off h k z =
    let rest = stuck n mem len irq off h k z in
    let here : off + mem (off + 1) ≡ off = omega (arith, z) in
    rw (tests, k) (ap (remap_from n mem len irq) here ∙ rest)
  where
    tests : leb len off ≡ false
    tests = ground arith

-- The search from an offset on ends, or it comes to an entry of length 0, where it stays.
remap_cases :
    (n : ℕ) (mem : ℕ → ℕ) (len irq off : ℕ)
    → len ≤ off + n
    → ((r : ℕ) × (remap_from (suc n) mem len irq off ≡ some r))
      ⊎ ((o : ℕ) × (o < len) × (mem (o + 1) ≡ 0) × ((m : ℕ) → remap_from m mem len irq off ≡ none))
unfolding remap_from
remap_cases zero mem len irq off h = inl (irq, ground arith)
remap_cases (suc n) mem len irq off h = elim (Bool-cases (leb len off)) [
  | inl past ↦ inl (irq, rw past refl)
  | inr within ↦ elim (Bool-cases (is_override mem irq off)) [
    | inl found ↦ inl (u32_at mem (off + 4), rw (within, found) refl)
    | inr other ↦ elim (Bool-cases (mem (off + 1) == 0)) [
      | inl zero_ ↦
          let z = ==→eq _ _ zero_ in
          inr (off, ground arith, z, λ m. stuck m mem len irq off (ground arith) other z)
      | inr goes ↦ elim (remap_cases n mem len irq (off + mem (off + 1)) (ground arith)) [
        | inl (r, e) ↦ inl (r, rw (within, other) e)
        | inr (o, lt, z, never) ↦ inr (o, lt, z, λ m. from_next m within other never)
      ]
    ]
  ]
]
  where
    from_next :
        (m : ℕ)
        → leb len off ≡ false
        → is_override mem irq off ≡ false
        → ((k : ℕ) → remap_from k mem len irq (off + mem (off + 1)) ≡ none)
        → remap_from m mem len irq off ≡ none
    from_next zero a b never = refl
    from_next (suc m) a b never = rw (a, b) (never m)

parse_more :
    (more root hhdm : ℕ) (mem : ℕ → ℕ) (len : ℕ) (s : Acpi)
    → parse_entries (len + more) root hhdm mem len 44 s ≡ parse_entries len root hhdm mem len 44 s
parse_more zero root hhdm mem len s =
    ap (λ n. parse_entries n root hhdm mem len 44 s) {x = len + 0} {y = len} (omega arith)
parse_more (suc k) root hhdm mem len s =
    ap (λ n. parse_entries n root hhdm mem len 44 s) {x = len + suc k} {y = suc (len + k)}
      (omega arith)
    ∙ parse_enough (len + k) root hhdm mem len 44 s (omega arith)
    ∙ parse_more k root hhdm mem len s

-- The walk of `acpi_parse_apic` ends whatever the table holds: as many rounds as it has bytes
-- are enough. The walk of `acpi_remap_irq` over the same bytes either returns within one round
-- more than that, or comes to an entry of length 0 within the table, and then it never returns.
pub acpi_walks :
    (root hhdm more irq : ℕ) (mem : ℕ → ℕ) (s : Acpi)
    → (parse_entries (u32_at mem 4 + more) root hhdm mem (u32_at mem 4) 44 s
        ≡ parse_entries (u32_at mem 4) root hhdm mem (u32_at mem 4) 44 s)
      × (((r : ℕ) × (acpi_remap_irq (suc (u32_at mem 4)) mem irq ≡ some r))
          ⊎ ((o : ℕ) × (o < u32_at mem 4)
              × (mem (o + 1) ≡ 0)
              × ((rounds : ℕ) → acpi_remap_irq rounds mem irq ≡ none)))
unfolding acpi_remap_irq
acpi_walks root hhdm more irq mem s = (
  parse_more more root hhdm mem (u32_at mem 4) s,
  remap_cases (u32_at mem 4) mem (u32_at mem 4) irq 44 (omega arith),
)
