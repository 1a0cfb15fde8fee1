-- ===== src/Processes.antt =====
-- kernel/tasks/process.cpp and kernel/tasks/processdir.cpp; the system calls on processes, files and
-- the screen are in Processes.Calls.
pub mod Exit
pub mod Calls
mod Tests
use nekosys.Base.{
  ℕ, zero, suc, ◌+◌, ◌*◌, ◌/◌, Bool, true, false, Option, none, some, List, [], ◌∷◌, ◌++◌, ltb,
  ◌==◌, if◌then◌else◌, length,
}
use nekosys.Base.Words.{word, add32}
use nekosys.Neko.Text.{Text, append}
use nekosys.Neko.FilePath.{FilePath, parse, resolve, to_string}
use nekosys.Tasks.Outcome.{Outcome, ok, panic, ◌>>=◌}
use nekosys.Tasks.Thread.{Kernel, dead, set_state, process_wait}
use nekosys.Tasks.Scheduler.{handle_interrupt}
use nekosys.Files.Vfs.{
  VirtualFileSystem, DirEntryType, folder, is_invalid, get_file_meta, open_file, read, close, root,
}
use nekosys.Memory.PageManager.{page_size}
use nekosys.Memory.Paging.{Machine, PageDirectory, new_page, map_page}
use nekosys.Video.Framebuffer.{VideoManager, acquire_framebuffer}
use nekosys.Video.GraphicsTty.{GraphicsTty}
use nekosys.Pipes.{Reply, success, failure, Errno, enoent, einval}

pub record SharedBuffer : Type 0 where
  pub bufid : ℕ
  pub base_frame : ℕ
  pub num_pages : ℕ

-- The threads of a process are in the kernel's state, by its pid.
pub record Process : Type 0 where
  pub pid : ℕ
  pub name : Text
  pub open_files : List ℕ
  pub shbufs : List SharedBuffer
  pub cwd : Text
  pub heap_base : ℕ
  pub exit_code : ℕ
  pub page_dir : PageDirectory
  pub pages : List ℕ

-- The process objects by their pid, which are never deleted, the process table with the pids of the
-- processes that run, and the parts of the kernel that processes use. `shbuf_counter` is
-- SharedBuffer::idCounter; the terminal is the
-- graphics one.
pub record System : Type 0 where
  pub kernel : Kernel
  pub vfs : VirtualFileSystem
  pub machine : Machine
  pub current_dir : PageDirectory
  pub objects : ℕ → Process
  pub processes : List ℕ
  pub pid_counter : ℕ
  pub shbuf_counter : ℕ
  pub video : VideoManager
  pub tty : GraphicsTty

abbrev pub current_process : System → Process
current_process s = s.objects s.kernel.current_process

-- A write to a process object.
abbrev pub put_process : System → ℕ → Process → System
put_process s pid p = record s { objects = λ j. if j == pid then p else s.objects j }

-- The constructor: a fresh pid.
unfoldable pub create_process : System → Text → PageDirectory → List ℕ → List ℕ → ℕ × System
create_process s name page_dir threads pages =
    let pid = add32 s.pid_counter 1 in
    let p : Process = record {
      pid = pid;
      name = name;
      open_files = [];
      shbufs = [];
      cwd = root;
      heap_base = 0;
      exit_code = 0;
      page_dir = page_dir;
      pages = pages;
    } in
    (
      pid,
      record (put_process s pid p) {
        pid_counter = pid;
        kernel = record s.kernel {
          process_threads = λ j. if j == pid then threads else s.kernel.process_threads j;
        };
      },
    )

unfoldable pub on_process_started : System → ℕ → System
on_process_started s pid = record s { processes = s.processes ++ (pid ∷ []) }

unfoldable pub remove_pid : List ℕ → ℕ → List ℕ
remove_pid [] pid = []
remove_pid (p ∷ ps) pid = let rest = remove_pid ps pid in if p == pid then ps else p ∷ rest

unfoldable pub on_process_died : System → ℕ → System
unfolding remove_pid
on_process_died s pid = record s { processes = remove_pid s.processes pid }

-- GetProcess; process pointers are their pids.
unfoldable pub get_process : List ℕ → ℕ → Option ℕ
get_process [] pid = none
get_process (p ∷ ps) pid = let rest = get_process ps pid in if p == pid then some p else rest

unfoldable pub find_buffer : List SharedBuffer → ℕ → Option SharedBuffer
find_buffer [] bufid = none
find_buffer (b ∷ bs) bufid =
    let rest = find_buffer bs bufid in if b.bufid == bufid then some b else rest

-- FindShBuf, over the processes of the table.
unfoldable pub find_shbuf : (ℕ → Process) → List ℕ → ℕ → Option SharedBuffer
unfolding find_buffer
find_shbuf objects [] bufid = none
find_shbuf objects (p ∷ ps) bufid =
    let rest = find_shbuf objects ps bufid in
    elim (find_buffer (objects p).shbufs bufid) [ none ↦ rest | some b ↦ some b ]

unfoldable pub close_files : VirtualFileSystem → List ℕ → VirtualFileSystem
close_files v [] = v
close_files v (fd ∷ fds) = close_files (close v fd) fds

unfoldable pub kill_threads : Kernel → List ℕ → Outcome Kernel
kill_threads k [] = ok k
kill_threads k (t ∷ ts) = set_state k t dead >>= λ k'. kill_threads k' ts

-- Exit, up to the last step.
unfoldable pub exit_state : System → ℕ → ℕ → Outcome System
unfolding on_process_died close_files kill_threads
exit_state s pid code =
    let died = on_process_died s pid in
    let p = record (s.objects pid) { exit_code = code } in
    kill_threads s.kernel (s.kernel.process_threads pid) >>= λ k.
    ok (record (put_process died pid p) {
      vfs = close_files s.vfs p.open_files;
      kernel = k;
      video =
          if s.video.framebuffer_controller_proc == pid
          then acquire_framebuffer s.video 0
          else s.video;
    })

-- Exit: the current process gives up the processor.
unfoldable pub exit : System → ℕ → ℕ → Outcome System
unfolding exit_state
exit s pid code = exit_state s pid code >>= λ s'.
    if s.kernel.current_process == pid
    then handle_interrupt s'.kernel >>= (λ k. ok (record s' { kernel = k }))
    else ok s'

-- The loop of MapNewPages over the `num` pages left; `panic` also where a page cannot be mapped.
unfoldable pub map_pages_loop : System → ℕ → ℕ → Outcome System
map_pages_loop s pid zero = ok s
map_pages_loop s pid (suc num) = elim (new_page s.machine) [
  | none ↦ panic
  | some (frame, machine) ↦
      let p = s.objects pid in
      elim (map_page p.page_dir machine frame p.heap_base 6) [
        | none ↦ panic
        | some (_, machine') ↦
            map_pages_loop
              (record (put_process s pid (record p {
                pages = p.pages ++ (frame ∷ []);
                heap_base = add32 p.heap_base page_size;
              })) { machine = machine' })
              pid num
      ]
]

-- MapNewPages: the address of the first page.
unfoldable pub map_new_pages : System → ℕ → ℕ → Outcome (ℕ × System)
unfolding map_pages_loop
map_new_pages s pid num = map_pages_loop s pid num >>= λ s'. ok ((s.objects pid).heap_base, s')
