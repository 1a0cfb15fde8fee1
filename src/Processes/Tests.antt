-- ===== src/Processes/Tests.antt =====
-- kernel/tasks/process.cpp and kernel/syscalls.cpp: runs of system calls, and the theorems about
-- processes at a concrete system.
use nekosys.Base.{
  ℕ, ◌+◌, ◌*◌, ◌≤◌, ◌<◌, ◌≡◌, refl, true, false, none, some, [], ◌∷◌, ◌==◌, if◌then◌else◌, arith,
  Bool-cases, inl, inr,
}
use nekosys.Base.Words.{word}
use nekosys.Tasks.Outcome.{ok}
use nekosys.Tasks.Thread.{Kernel, Thread, ring3, runnable}
use nekosys.Files.Vfs.{FileSystem, root, invalid_entry}
use nekosys.Memory.PageManager.Continuous.{Continuous}
use nekosys.Memory.PageManager.{PageManager, IsValid, page_size, alloc_continuous}
use nekosys.Memory.Paging.{PageDirectory, page_dir_virtual_loc}
use nekosys.Pipes.{success, failure, enoent, eperm, eacces}
use nekosys.Processes.{
  System, Process, SharedBuffer, create_process, on_process_started, get_process, find_shbuf,
  exit_state,
}
use nekosys.Tasks.Blockers.{contains}
use nekosys.Processes.Exit.{Distinct, Ended, exit_state_ends}
use nekosys.Processes.Calls.{
  sys_fb_acquire, sys_fb_flush, sys_fb_release, sys_getcwd, sys_shbuf_create, sys_shbuf_map,
}
use nekosys.Processes.Calls.Framebuffer.{none_yet, then_one, ends, Steps-video}
use nekosys.Processes.Calls.Shared.{shbuf_create_finds, shbuf_create-exit}

abbrev frames : PageManager
frames = record {
  memory_base = 0xF0000;
  memory_size = 0x10000;
  frame_map = 0xF0000;
  num_pages = 16;
  last_page_idx = 0;
  pageframes_base = 0x100000;
  paging_enabled = true;
  frames = λ i. if i == 0 then 1 else 0;
}

abbrev directory : PageDirectory
directory = record { phys_directory_ptr = 0x100000; virt_directory_ptr = page_dir_virtual_loc }

abbrev disk : FileSystem
disk = record {
  exists_path = λ p. false;
  file_meta = λ p. invalid_entry;
  read_entry = λ e offset size dst. dst;
  entries = λ p. [];
}

-- The process 1 with the thread 4, and the process 2 with the thread 5.
abbrev process : ℕ → Process
process pid = record {
  pid = pid;
  name = [];
  open_files = [];
  shbufs = [];
  cwd = root;
  heap_base = 0x800000;
  exit_code = 0;
  page_dir = directory;
  pages = [];
}

abbrev thread : ℕ → ℕ → Thread
thread id pid = record {
  id = id;
  ring = ring3;
  thread_state = runnable;
  process = pid;
  blocker = none;
  current_slice_start = 0;
}

abbrev kernel : Kernel
kernel = record {
  store = λ t. if t == 4 then some (thread 4 1) else if t == 5 then some (thread 5 2) else none;
  id_counter = 6;
  current = 4;
  current_process = 1;
  queue = 4 ∷ 5 ∷ [];
  ctr = 0;
  uptime = 0;
  key_buffer = [];
  process_threads = λ p. if p == 1 then 4 ∷ [] else if p == 2 then 5 ∷ [] else [];
  pipes = λ p. record { broken = false; receivers = [] };
}

abbrev sample : System
sample = record {
  kernel = kernel;
  vfs = record { mounts = []; file_handles = []; id_counter = 0 };
  machine = record { words = λ a. 0; manager = frames; loaded = 0x100000 };
  current_dir = directory;
  objects = process;
  processes = 1 ∷ 2 ∷ [];
  pid_counter = 2;
  shbuf_counter = 0;
  video = record {
    xres = 4;
    yres = 3;
    pitch = 16;
    pixel_stride = 4;
    fb_size = 48;
    secondary_physical = 0x200000;
    framebuffer_controller_proc = 2;
    front = λ i. 0;
    back = λ i. i;
  };
  tty = record { width = 1; height = 1; cursor_x = 0; cursor_y = 0; current_color = 0xAAAAAA };
}

process_runs :
    ((create_process sample [] directory [] []).0 ≡ 3)
    × ((on_process_started sample 7).processes ≡ 1 ∷ 2 ∷ 7 ∷ [])
    × (sys_getcwd sample 10 ≡ b'/' ∷ 0 ∷ [])
    × (sys_getcwd sample 1 ≡ b'/' ∷ [])
    × (sys_fb_acquire sample ≡ ok (failure eperm))
    × (sys_fb_release sample ≡ failure eacces)
    × (sys_fb_flush sample true 0 0 0 0 ≡ failure eacces)
unfolding create_process on_process_started sys_getcwd sys_fb_acquire sys_fb_release sys_fb_flush
process_runs = (refl, refl, refl, refl, refl, refl, refl)

pids-Distinct : Distinct sample.processes
unfolding contains
pids-Distinct = (refl, (refl, tt))

unused_run : find_shbuf sample.objects sample.processes 0 ≡ none
unfolding find_shbuf
unused_run = refl

listed_run : get_process sample.processes 1 ≡ some 1
unfolding get_process
listed_run = refl

exit_state_ends_example : (s' : System) × (exit_state sample 1 3 ≡ ok s') × Ended sample 1 3 s'
exit_state_ends_example = exit_state_ends sample 1 3 ((thread 4 1, refl), tt) pids-Distinct tt

-- The process 1 ends while the process 2 has the screen.
abbrev ended : System
ended = (exit_state_ends sample 1 3 ((thread 4 1, refl), tt) pids-Distinct tt).0

Steps-video_example : ended.video ≡ sample.video
Steps-video_example = Steps-video 2 sample ended (omega arith) refl (
    then_one none_yet (
      ends 1 3 ended (omega arith)
        (exit_state_ends sample 1 3 ((thread 4 1, refl), tt) pids-Distinct tt).1))

-- The process 1 asks for 5000 bytes: two pages from the second frame on.
abbrev created : ℕ × System
created = (
  0,
  record sample {
    objects = λ j.
        if j == 1
        then record (process 1) {
          shbufs = record { bufid = 0; base_frame = 0x101000; num_pages = 2 } ∷ [];
        }
        else process j;
    machine = record sample.machine { manager = (alloc_continuous frames 2).1 };
    shbuf_counter = 1;
  },
)

created_run : sys_shbuf_create sample 5000 ≡ success created
unfolding sys_shbuf_create alloc_continuous
created_run = refl

frames-IsValid : IsValid frames
frames-IsValid = record {
  hint = λ i h. absurd (omega (arith, h));
  hint_in = omega arith;
  flags = λ i h. elim (Bool-cases (i == 0)) [
    | inl first ↦ inr (rw first refl)
    | inr other ↦ inl (rw other refl)
  ];
  fits = omega arith;
  placed = omega arith;
}

shbuf_create_finds_example :
    (b : SharedBuffer) × (find_shbuf created.1.objects created.1.processes 0 ≡ some b)
    × ((i : ℕ) × Continuous frames b.num_pages i b.base_frame created.1.machine.manager)
    × (5000 + page_size < word → 5000 ≤ b.num_pages * page_size)
shbuf_create_finds_example =
    shbuf_create_finds sample 5000 created created_run unused_run listed_run frames-IsValid
      (omega arith)

-- The process 1 ends while it has the buffer.
abbrev left : System
left = (exit_state_ends created.1 1 3 ((thread 4 1, refl), tt) pids-Distinct tt).0

shbuf_create-exit_example : sys_shbuf_map left 0 ≡ ok (failure enoent)
shbuf_create-exit_example =
    shbuf_create-exit sample 5000 created created_run unused_run 3 left pids-Distinct
      (exit_state_ends created.1 1 3 ((thread 4 1, refl), tt) pids-Distinct tt).1
