-- ===== src/Elf/Start/Process.antt =====
-- The address space of a process that is created.
use hvos.Common.{
  ℕ, zero, suc, ◌+◌, ◌-◌, ◌*◌, ◌≤◌, ◌<◌, ◌≡◌, refl, sym, ap, subst, ◌∙◌, inl, inr, Bool, true,
  false, Option, none, some, List, arith, ◌==◌, Bool-cases, ==_refl,
}
use hvos.Mem.Pmm.{Pmm, pmm_alloc}
use hvos.Mem.Pmm.Alloc.{IsValid, AllUsed}
use hvos.Mem.Paging.{Tables}
use hvos.Mem.Paging.Walk.{translate, IsTree}
use hvos.Mem.Paging.Map.{IsMapped}
use hvos.Mem.Pages.{page_size, user_flags}
use hvos.Mem.Pages.Granted.{Granted}
use hvos.Mem.Pages.Grant.{indices_page}
use hvos.Mem.Pages.Frames.{Later, Later-refl, Later-trans, pmm_alloc-Later}
use hvos.Proc.{System, adopt_process, new_elf_thread, new_process, enlist, usr_stack_base}
use hvos.Proc.Steps.Starts.{born, adopt_process-some}
use hvos.Sched.{update}
use hvos.Elf.{Machine, pheader_at, e_phnum, Loading, bad_magic, loaded}
use hvos.Elf.Page.{Shows}
use hvos.Elf.Segment.{image_byte}
use hvos.Elf.Image.{IsLoad, IsLaidOut}
use hvos.Elf.Load.{load_elf_binary_lem}
use hvos.Elf.Start.{
  num_stack_pages, user_stack, kernel_stack, Creation, created, Given, with_tables, adopted,
  with_stacks, with_program, create_elf_process,
}
use hvos.Elf.Start.Stack.{stack_page, user_stack_lem}

kernel_stack-Later :
    (n hhdm i top : ℕ) (s : Pmm) → IsValid s → Later s (kernel_stack n hhdm i top s).2
unfolding kernel_stack
kernel_stack-Later zero hhdm i top s v = Later-refl v
kernel_stack-Later (suc n) hhdm i top s v =
    let first = pmm_alloc-Later s v in
    elim (Bool-cases ((pmm_alloc s).0 == 0)) [
      | inl null ↦ rw null first
      | inr page ↦
          rw page
            (Later-trans first (kernel_stack-Later n hhdm (suc i) _ (pmm_alloc s).1 first.valid))
    ]

adopt_process-space :
    (s s' : System) (p t : ℕ) (console : List ℕ) (entry top pml4 proc : ℕ)
    → adopt_process s p t console entry top pml4 ≡ some (proc, s')
    → (s'.cpu.tables ≡ s.cpu.tables) × (s'.cpu.cr3_of proc ≡ pml4)
unfolding born enlist new_elf_thread new_process update
adopt_process-space s s' p t console entry top pml4 proc h =
    let (_, _, is_p, same) = adopt_process-some s s' p t console entry top pml4 proc h in
    (
      ap (λ (u : System). u.cpu.tables) (sym same),
      ap (λ (u : System). u.cpu.cr3_of proc) (sym same) ∙ rw (is_p, ==_refl p) refl,
    )

Shows-stack :
    {s t : Tables} {root : ℕ} (bytes : ℕ → ℕ) (pmm : Pmm) (va b : ℕ)
    → Granted s t root (stack_page 0) num_stack_pages
    → Later t.pmm pmm
    → va < usr_stack_base - 5 * page_size
    → Shows (record { tables = s; bytes = bytes }) root va b
    → Shows (record { tables = record t { pmm = pmm }; bytes = bytes }) root va b
Shows-stack {s} {t} {root} bytes pmm va b g later low shows = record {
  frame = shows.frame;
  in_range = omega (arith, shows.in_range, g.later.same_total, later.same_total);
  held =
      later.still shows.frame (omega (arith, shows.in_range, g.later.same_total))
        (g.later.still shows.frame shows.in_range shows.held);
  maps =
      subst (IsMapped (shows.frame * page_size) user_flags)
        (sym (
          g.others va (λ k lt e.
            absurd
              (omega (arith, indices_page va (stack_page 0 k) (omega arith) (omega arith) e)))))
        shows.maps;
  byte = shows.byte;
}

adopted-created :
    (bytes bytes' : ℕ → ℕ) (o : Option (ℕ × System)) {proc : ℕ} {s : System}
    → adopted bytes o ≡ created proc s bytes'
    → (o ≡ some (proc, s)) × (bytes ≡ bytes')
unfolding adopted
adopted-created bytes bytes' none h = absurd (ground arith)
adopted-created bytes bytes' (some (p, t)) h = (ground arith, ground arith)

with_stacks-created :
    (s s' : System) (given : Given) (hhdm entry root proc : ℕ) (bytes bytes' : ℕ → ℕ)
    (r : Option (Bool × Tables))
    → with_stacks s given hhdm entry root bytes r ≡ created proc s' bytes'
    → (t : Tables) × (r ≡ some (true, t))
      × (bytes ≡ bytes')
      × (s'.cpu.tables ≡ record t { pmm = (kernel_stack num_stack_pages hhdm 0 0 t.pmm).2 })
      × (s'.cpu.cr3_of proc ≡ root * page_size)
unfolding with_stacks adopted
with_stacks-created s s' given hhdm entry root proc bytes bytes' none h = absurd (ground arith)
with_stacks-created s s' given hhdm entry root proc bytes bytes' (some (false, t)) h =
    absurd (ground arith)
with_stacks-created s s' given hhdm entry root proc bytes bytes' (some (true, t)) h =
    let all = kernel_stack num_stack_pages hhdm 0 0 t.pmm in
    let s1 = with_tables s (record t { pmm = all.2 }) in
    let adopts =
      adopt_process s1 given.process given.thread given.console entry all.1 (root * page_size) in
    elim (Bool-cases all.0) [
      | inr short ↦ absurd (
          let failed : Creation.fails s1 bytes ≡ created proc s' bytes' = rw short at h in
          ground arith)
      | inl got ↦
          let bound : adopted bytes adopts ≡ created proc s' bytes' = rw got at h in
          let (adopts_s, same) = adopted-created bytes bytes' adopts bound in
          let (tables, cr3) =
            adopt_process-space s1 s' given.process given.thread given.console entry all.1
              (root * page_size) proc adopts_s in
          (t, refl, same, tables, cr3)
    ]

with_program-created :
    (s s' : System) (given : Given) (hhdm proc : ℕ) (bytes bytes' : ℕ → ℕ) (l : Loading)
    → with_program s given hhdm bytes l ≡ created proc s' bytes'
    → (entry : ℕ) × (root : ℕ) × (m : Machine) × (l ≡ loaded entry root m)
      × (with_stacks s given hhdm entry root m.bytes (user_stack num_stack_pages root 0 m.tables)
          ≡ created proc s' bytes')
unfolding with_program
with_program-created s s' given hhdm proc bytes bytes' bad_magic h = absurd (ground arith)
with_program-created s s' given hhdm proc bytes bytes' Loading.halted h = absurd (ground arith)
with_program-created s s' given hhdm proc bytes bytes' (Loading.out_of_memory m) h =
    absurd (ground arith)
with_program-created s s' given hhdm proc bytes bytes' (loaded entry root m) h =
    elim (Bool-cases (entry == 0)) [
      | inl null ↦ absurd (
          let failed : Creation.fails (with_tables s m.tables) m.bytes ≡ created proc s' bytes' =
            rw null at h in
          ground arith)
      | inr there ↦ (entry, root, m, refl, (rw there at h))
    ]

-- What user code of the process finds in its address space.
pub record HasProgram (elf : ℕ → ℕ) (s : System) (proc : ℕ) (bytes : ℕ → ℕ) : Type 0 where
  pub root : ℕ
  pub cr3 : s.cpu.cr3_of proc ≡ root * page_size
  pub shows :
      (i k : ℕ)
      → i < e_phnum elf
      → IsLoad (pheader_at elf i)
      → k < (pheader_at elf i).p_memsz
      → Shows
          (record { tables = s.cpu.tables; bytes = bytes })
          root
          ((pheader_at elf i).p_vaddr + k)
          (image_byte elf (pheader_at elf i) k)
  pub stack :
      (k : ℕ)
      → k < num_stack_pages
      → (frame : ℕ) × IsMapped
          (frame * page_size)
          user_flags
          (translate s.cpu.tables root (stack_page 0 k))

-- Let the kernel's tables form a tree, a frame be free, and the program's segments to load lie
-- below the six pages of the stack with no page in common. If `create_elf_process` returns a
-- process, then in the address space of its `cr3` user code finds every byte of every segment at
-- its address, the file's bytes first and zeros behind them, and each of the six pages from the one
-- at USR_STACK_BASE downwards is mapped for user code to write.
pub create_elf_process_lem :
    (s s' : System) (given : Given) (hhdm kernel proc : ℕ) (elf bytes bytes' : ℕ → ℕ)
    {place : ℕ → Option (List ℕ)}
    → IsTree s.cpu.tables kernel place
    → ¬ AllUsed s.cpu.tables.pmm
    → IsLaidOut elf
    → ((i : ℕ)
        → i < e_phnum elf
        → IsLoad (pheader_at elf i)
        → (pheader_at elf i).p_vaddr + (pheader_at elf i).p_memsz ≤ usr_stack_base - 5 * page_size)
    → create_elf_process s given hhdm kernel elf bytes ≡ created proc s' bytes'
    → HasProgram elf s' proc bytes'
unfolding create_elf_process
create_elf_process_lem s s' given hhdm kernel proc elf bytes bytes' tree free laid below h =
    let (entry, root, m, loads, starts) =
      with_program-created s s' given hhdm proc bytes bytes' _ h in
    let (_, _, program) = load_elf_binary_lem _ m kernel entry root tree free laid loads in
    let (t, stacks, same, tables, cr3) =
      with_stacks-created s s' given hhdm entry root proc m.bytes bytes' _ starts in
    let g =
      user_stack_lem num_stack_pages 0 program.tree (omega arith)
        (λ k lt. program.opens (stack_page 0 k) (omega arith)) stacks in
    let later = kernel_stack-Later num_stack_pages hhdm 0 0 t.pmm g.later.valid in
    record {
      root = root;
      cr3 = cr3;
      shows = λ i k lt load small.
          rw (tables, ← same)
            (Shows-stack m.bytes _ _ _ g later (omega (arith, below i lt load, small))
              (program.shows i k lt load small));
      stack = λ k lt. (g.frame k, rw tables (g.translates k lt));
    }
