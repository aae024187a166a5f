-- ===== src/Elf/Start/Examples.antt =====
-- A process for the program of two segments.
use hvos.Common.{ℕ, zero, suc, ◌+◌, ◌-◌, ◌*◌, ◌≤◌, ◌<◌, ◌≡◌, refl, false, [], ◌∷◌, arith}
use hvos.Common.Loops.{each_from}
use hvos.Mem.Bitmap.{bitmap_set, bitmap_test}
use hvos.Mem.Pmm.{pmm_alloc, first_clear}
use hvos.Mem.Paging.{
  map_page, next_table, alloc_page_table, zero_table, set_entry, set_leaf, copy_kernel_half,
}
use hvos.Mem.Pages.{page_size, map_fresh, map_frame}
use hvos.Sched.{state_running, update}
use hvos.Proc.{
  System, new_elf_thread, new_process, enlist, new_elf_process, adopt_process, usr_stack_base,
}
use hvos.Elf.{
  pheader_at, e_phnum, read_le, total_size, load_page, place_page, fill_page, load_pages,
  load_segment, load_segments, load_into, load_elf_binary, new_space,
}
use hvos.Elf.Image.{IsLoad}
use hvos.Elf.Examples.{program, machine, kernel-IsTree, some_free, program-IsLaidOut}
use hvos.Elf.Start.{
  Given, Creation, created, adopted, with_stacks, with_program, user_stack, kernel_stack,
  create_elf_process,
}
use hvos.Elf.Start.Process.{HasProgram, create_elf_process_lem}

abbrev parent : System
parent = record {
  cpu = record {
    thread = λ t. record {
      tid = t;
      name = [];
      state = state_running;
      k_rsp = 0;
      kernel_stack_base = 0;
      vruntime = 0;
      sleep_ticks = 0;
      block_channel = 0;
      process = 1000;
    };
    thread_list = 3 ∷ [];
    current_thread = 3;
    sleeping_queue = [];
    rsp0 = 0x3000;
    stack_top = 0x3000;
    cr3_of = λ p. 0x1000;
    cr3 = 0x1000;
    tables = machine.tables;
  };
  process = λ p. record {
    pid = 0;
    heap_end = 0;
    parent = 0;
    exit_code = 0;
    is_waiting = false;
    wait_target_pid = 0;
    file_table = [];
    primary = 3;
  };
  process_list = 1000 ∷ [];
  next_pid = 1;
  next_tid = 4;
  stack = λ a. record { rip = 0; cs = 0; rflags = 0; usermode_rsp = 0; usermode_ss = 0 };
}

abbrev given : Given
given = record { process = 2000; thread = 5; console = 10 ∷ 11 ∷ 12 ∷ [] }

program_below :
    (i : ℕ)
    → i < e_phnum program
    → IsLoad (pheader_at program i)
    → (pheader_at program i).p_vaddr + (pheader_at program i).p_memsz
      ≤ usr_stack_base - 5 * page_size
unfolding pheader_at read_le
program_below zero lt load = omega arith
program_below (suc zero) lt load = omega arith
program_below (suc (suc i)) lt load = absurd (omega arith)

abbrev system_of : Creation → System
system_of (created p s bytes) = s
system_of other = parent

abbrev bytes_of : Creation → ℕ → ℕ
bytes_of (created p s bytes) = bytes
bytes_of other = λ a. 0

abbrev creation : Creation
creation = create_elf_process parent given 0 1 program machine.bytes

creates : creation ≡ created 2000 (system_of creation) (bytes_of creation)
unfolding create_elf_process with_program with_stacks adopted user_stack kernel_stack adopt_process
    new_elf_process enlist new_elf_thread new_process update map_fresh map_frame load_elf_binary
    load_into load_segments load_segment load_pages load_page place_page fill_page total_size
    pheader_at read_le new_space copy_kernel_half map_page next_table alloc_page_table set_leaf
    set_entry zero_table pmm_alloc first_clear bitmap_set bitmap_test each_from
creates = refl

create_elf_process_lem_example : HasProgram program (system_of creation) 2000 (bytes_of creation)
create_elf_process_lem_example =
    create_elf_process_lem parent (system_of creation) given 0 1 2000 program machine.bytes
      (bytes_of creation) kernel-IsTree some_free program-IsLaidOut program_below creates
