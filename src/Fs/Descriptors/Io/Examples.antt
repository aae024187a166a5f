-- ===== src/Fs/Descriptors/Io/Examples.antt =====
-- A file that is open twice.
use hvos.Common.{
  ℕ, ◌<◌, ◌≡◌, refl, ◌≢◌, false, none, some, List, [], ◌∷◌, arith, ◌==◌, if◌then◌else◌, length,
  replicate, get_or, length-replicate,
}
use hvos.Drivers.Video.{Screen}
use hvos.Drivers.Console.{Console}
use hvos.Fs.Ramfs.Content.{IsValid}
use hvos.Fs.Ramfs.Sequence.{SameFile}
use hvos.Fs.Vfs.{s_ifreg, s_ifdir}
use hvos.Fs.Descriptors.{OpenFile}
use hvos.Fs.Descriptors.Io.{IoState, IoResult, Modes, f_ops_write, sys_write, sys_read}
use hvos.Fs.Descriptors.Io.Files.{IsFile, data_of, sys_write-sys_write, sys_read-sys_write}
use hvos.Mem.Paging.{zero_entry}
use hvos.Sched.{Thread}

abbrev modes : Modes
modes = record { o_rdonly = 0; o_wronly = 1 }

abbrev no_thread : Thread
no_thread = record {
  tid = 0;
  name = [];
  state = 0;
  k_rsp = 0;
  kernel_stack_base = 0;
  vruntime = 0;
  sleep_ticks = 0;
  block_channel = 0;
  process = 0;
}

abbrev no_console : Console
no_console = record {
  keyboard = record {
    queue = replicate 256 0;
    head = 0;
    tail = 0;
    occupancy = 0;
    key_pressed = λ i. false;
  };
  owner = 0;
  cpu = record {
    thread = λ t. no_thread;
    thread_list = [];
    current_thread = 2;
    sleeping_queue = [];
    rsp0 = 0;
    stack_top = 0;
    cr3_of = λ p. 0;
    cr3 = 0;
    tables = record {
      entry = λ t i. zero_entry;
      pmm = record { bitmap = []; total_pages = 0; used_pages = 0 };
    };
  };
}

abbrev no_screen : Screen
no_screen = record {
  width = 0;
  height = 0;
  pitch = 0;
  vram = λ a. 0;
  line = 0;
  col = 0;
  max_line = 0;
  max_col = 0;
  fgc = 0;
  bgc = 0;
  cursor_visible = false;
}

-- The console for reading, the file for both, for reading, and its directory.
abbrev machine : IoState
machine = record {
  files = record {
    root_dentry = 1;
    dentry = λ d. record { d_name = []; d_inode = d; d_parent = 1 };
    inode = λ i. record {
      i_ino = i;
      i_mode = if i == 1 then s_ifdir else s_ifreg;
      children = [];
      file = record { buffer = []; capacity = 0; i_size = 0 };
    };
    next_ino_num = 102;
    next = 3;
    next_inode = 3;
    freed = λ d. false;
  };
  table =
      some (record { file = record { f_dentry = 0; f_pos = 0 }; f_flags = 0 })
      ∷ some (record { file = record { f_dentry = 2; f_pos = 0 }; f_flags = 2 })
      ∷ some (record { file = record { f_dentry = 2; f_pos = 0 }; f_flags = 0 })
      ∷ some (record { file = record { f_dentry = 1; f_pos = 0 }; f_flags = 2 })
      ∷ none
      ∷ [];
  screen = no_screen;
  console = no_console;
}

abbrev writer : OpenFile
writer = record { file = record { f_dentry = 2; f_pos = 0 }; f_flags = 2 }

abbrev reader : OpenFile
reader = record { file = record { f_dentry = 2; f_pos = 0 }; f_flags = 0 }

abbrev font : ℕ → List ℕ
font c = []

abbrev fresh : ℕ → List ℕ
fresh n = replicate n 0

given : (n : ℕ) → length (fresh n) ≡ n
given n = length-replicate n 0

empty-IsValid : IsValid (record { buffer = []; capacity = 0; i_size = 0 })
empty-IsValid = record { sized = refl; fits = omega arith }

writer-IsFile : IsFile machine 1 writer
writer-IsFile = record { in_table = refl; on_tree = refl; regular = refl; valid = empty-IsValid }

reader-IsFile : IsFile machine 2 reader
reader-IsFile = record { in_table = refl; on_tree = refl; regular = refl; valid = empty-IsValid }

-- A descriptor that is not open is read through, and the console cannot be written through its
-- reading end.
reads_null : (sys_read modes machine 0x77 4 10).0 ≡ IoResult.faults
unfolding sys_read
reads_null = refl

writes_reader : (sys_write modes font fresh machine 0 (1 ∷ [])).0 ≡ IoResult.ebadf
unfolding sys_write
writes_reader = refl

writes_directory : (sys_write modes font fresh machine 3 (1 ∷ [])).0 ≡ IoResult.faults
unfolding sys_write f_ops_write
writes_directory = refl

sys_write-sys_write_example :
    let one = sys_write modes font fresh machine 1 (7 ∷ 8 ∷ []) in
    let two = sys_write modes font fresh one.1 1 (9 ∷ []) in
    let once = sys_write modes font fresh machine 1 (7 ∷ 8 ∷ 9 ∷ []) in
    (one.0 ≡ IoResult.count 2 [])
    × (two.0 ≡ IoResult.count 1 [])
    × (once.0 ≡ IoResult.count 3 [])
    × (two.1.table ≡ once.1.table)
    × SameFile (data_of two.1 writer) (data_of once.1 writer)
    × ((j : ℕ) → j ≢ 2 → two.1.files.inode j ≡ machine.files.inode j)
sys_write-sys_write_example =
    sys_write-sys_write modes font fresh given machine 1 writer writer-IsFile (omega arith) refl
      (7 ∷ 8 ∷ []) (9 ∷ []) (omega arith)

sys_read-sys_write_example :
    let done = sys_write modes font fresh machine 1 (7 ∷ 8 ∷ []) in
    (got : List ℕ) × ((sys_read modes done.1 0x77 2 2).0 ≡ IoResult.count 2 got)
    × ((k : ℕ) → k < 2 → get_or got k 0 ≡ get_or (7 ∷ 8 ∷ []) k 0)
sys_read-sys_write_example =
    sys_read-sys_write modes font fresh given machine 1 writer writer-IsFile (omega arith) refl
      (7 ∷ 8 ∷ []) 2 reader 0x77 (λ e. omega arith) reader-IsFile refl refl refl (omega arith) refl
      (omega arith)
