-- ===== src/Processes/Calls.antt =====
-- kernel/syscalls.cpp: the system calls on processes, threads, files, shared buffers and the screen.
-- What a call writes through the pointers in its parameters is part of its result. Where a call
-- blocks the current thread, what it does after the wait is a function of its own, named `…_result`.
pub mod Framebuffer
pub mod Lookup
pub mod Shared
use nekosys.Base.{
  ℕ, ◌+◌, ◌*◌, ◌/◌, Bool, true, false, Option, none, some, List, [], ◌∷◌, ◌++◌, ltb, ◌==◌,
  if◌then◌else◌, length, take,
}
use nekosys.Base.Words.{add32}
use nekosys.Neko.Text.{Text, c_string}
use nekosys.Neko.IniFile.{IniProperty, get_property}
use nekosys.Neko.FilePath.{parse, resolve, to_string}
use nekosys.Tasks.Outcome.{Outcome, ok, panic, ◌>>=◌}
use nekosys.Tasks.Thread.{Kernel, ring3, process_wait, keyboard, thread_join, create_thread}
use nekosys.Tasks.Scheduler.{block, sleep_thread, kill, start, find_thread}
use nekosys.Files.Vfs.{
  DirEntryType, DirEntry, file, folder, hidden, volume_label, system, invalid, is_invalid,
  get_file_meta, open_file, read, close, list_directory,
}
use nekosys.Devices.Keyboard.{read_until}
use nekosys.Memory.PageManager.{page_size, alloc_continuous}
use nekosys.Memory.Paging.{map_range}
use nekosys.Video.Framebuffer.{
  VideoManager, kernel_controls_framebuffer, acquire_framebuffer, flush_block, flush_buffer,
}
use nekosys.Video.GraphicsTty.{write_graphics}
use nekosys.Pipes.{Reply, success, failure, enoent, einval, eperm, enomem, esrch, enotdir, eacces}
use nekosys.Processes.{
  System, Process, SharedBuffer, current_process, put_process, get_process, find_shbuf, exit,
  map_new_pages,
}

-- A write to the object of the current process.
abbrev pub put_current : System → Process → System
put_current s p = put_process s s.kernel.current_process p

-- resolve_file, for the section of the environment.
unfoldable pub resolve_file : System → List IniProperty → Text → Text
resolve_file s env path =
    let path_env = get_property env (b'P' ∷ b'a' ∷ b't' ∷ b'h' ∷ []) in
    let resolved_in_path = to_string (resolve (parse path_env) (parse path)) in
    let resolved = to_string (resolve (parse (current_process s).cwd) (parse path)) in
    if (parse path).is_absolute
    then resolved
    else if is_invalid (get_file_meta s.vfs resolved_in_path).entry_type
    then resolved
    else resolved_in_path

unfoldable pub sys_texit : System → Outcome System
sys_texit s = kill s.kernel s.kernel.current >>= λ k. ok (record s { kernel = k })

unfoldable pub sys_exit : System → ℕ → Outcome System
sys_exit s code = exit s s.kernel.current_process code

-- The file's size and its handle.
unfoldable pub sys_fopen : System → List IniProperty → Text → Reply ((ℕ × ℕ) × System)
unfolding resolve_file
sys_fopen s env path =
    let resolved = resolve_file s env path in
    let entry = get_file_meta s.vfs resolved in
    let opened = open_file s.vfs resolved in
    let p = current_process s in
    if is_invalid entry.entry_type
    then failure enoent
    else success (
      (entry.size, opened.0),
      record (put_current s (record p { open_files = p.open_files ++ (opened.0 ∷ []) })) {
        vfs = opened.1;
      },
    )

-- The buffer after the call.
unfoldable pub sys_fread : System → ℕ → ℕ → ℕ → List ℕ → List ℕ
sys_fread s fd offset size dst = read s.vfs fd offset size dst

-- The list of the process's open files keeps the handle.
unfoldable pub sys_fclose : System → ℕ → System
sys_fclose s fd = record s { vfs = close s.vfs fd }

unfoldable pub sys_pagealloc : System → ℕ → Outcome (ℕ × System)
sys_pagealloc s num = map_new_pages s s.kernel.current_process num

unfoldable pub sys_sleep : System → ℕ → Outcome System
sys_sleep s timeout =
    sleep_thread s.kernel s.kernel.current timeout >>= λ k. ok (record s { kernel = k })

unfoldable pub sys_waitp : System → ℕ → Reply (Outcome System)
sys_waitp s pid = elim (get_process s.processes pid) [
  | none ↦ failure esrch
  | some p ↦
      success
        (block s.kernel s.kernel.current (process_wait p) >>= λ k. ok (record s { kernel = k }))
]

unfoldable pub waitp_result : System → ℕ → ℕ
waitp_result s pid = (s.objects pid).exit_code

unfoldable pub sys_readln : System → Outcome System
sys_readln s = block s.kernel s.kernel.current (keyboard 10) >>= λ k. ok (record s { kernel = k })

-- The characters that are read.
unfoldable pub readln_result : System → ℕ → List ℕ × System
readln_result s max_size =
    let (chars, rest) = read_until s.kernel.key_buffer max_size 10 in
    (chars, record s { kernel = record s.kernel { key_buffer = rest } })

-- FRAMEBUF
pub record FrameBuf : Type 0 where
  pub buffer : ℕ
  pub width : ℕ
  pub height : ℕ
  pub pitch : ℕ
  pub pixel_stride : ℕ

abbrev pub secondary_framebuffer_loc : ℕ
secondary_framebuffer_loc = 0xD4000000

-- print and putchar, on the graphics terminal with its font; printf gives the string's bytes to the
-- terminal one by one.
unfoldable pub sys_print : (ℕ → ℕ → ℕ) → System → List ℕ → Reply System
unfolding write_graphics c_string
sys_print font s text =
    let (tty, video) = write_graphics font s.tty s.video (c_string text) in
    success (record s { tty = tty; video = video })

unfoldable pub sys_putchar : (ℕ → ℕ → ℕ) → System → ℕ → Reply System
unfolding write_graphics
sys_putchar font s c =
    let (tty, video) = write_graphics font s.tty s.video (c ∷ []) in
    success (record s { tty = tty; video = video })

unfoldable pub sys_fb_acquire : System → Outcome (Reply (FrameBuf × System))
sys_fb_acquire s =
    let vm = acquire_framebuffer s.video s.kernel.current_process in
    if kernel_controls_framebuffer s.video
    then elim (map_range s.current_dir s.machine vm.secondary_physical secondary_framebuffer_loc
        vm.fb_size 6) [
          | none ↦ panic
          | some (_, machine) ↦ ok (
              success (
                record {
                  buffer = secondary_framebuffer_loc;
                  width = vm.xres;
                  height = vm.yres;
                  pitch = vm.pitch;
                  pixel_stride = vm.pixel_stride;
                },
                record s { video = vm; machine = machine },
              ))
        ]
    else ok (failure eperm)

unfoldable pub sys_fb_flush : System → Bool → ℕ → ℕ → ℕ → ℕ → Reply System
sys_fb_flush s full x y w h =
    if s.video.framebuffer_controller_proc == s.kernel.current_process
    then success
        (record s { video = if full then flush_buffer s.video else flush_block s.video x y w h })
    else failure eacces

unfoldable pub sys_fb_release : System → Reply System
sys_fb_release s =
    if s.video.framebuffer_controller_proc == s.kernel.current_process
    then success (record s { video = acquire_framebuffer s.video 0 })
    else failure eacces

abbrev pub is_folder : DirEntryType → Bool
is_folder folder = true
is_folder _ = false

unfoldable pub sys_chdir : System → Text → Reply System
sys_chdir s path =
    let p = current_process s in
    let new_cwd = to_string (resolve (parse p.cwd) (parse path)) in
    if is_folder (get_file_meta s.vfs new_cwd).entry_type
    then success (put_current s (record p { cwd = new_cwd }))
    else failure enotdir

-- The bytes that are written to the buffer.
unfoldable pub sys_getcwd : System → ℕ → List ℕ
sys_getcwd s size =
    let cwd = (current_process s).cwd in
    take (if ltb (length cwd) size then length cwd + 1 else size) (cwd ++ (0 ∷ []))

-- The bytes that are written to the buffer, without a NUL behind them.
unfoldable pub sys_getenv : List IniProperty → Text → Reply (List ℕ)
sys_getenv env key =
    let val = get_property env key in if length val == 0 then failure einval else success val

abbrev pub type_number : DirEntryType → ℕ
type_number file = 0
type_number folder = 1
type_number hidden = 2
type_number volume_label = 3
type_number system = 4
type_number invalid = 5

pub record Dirent : Type 0 where
  pub name : Text
  pub size : ℕ
  pub type : ℕ

unfoldable pub copy_dirents : List DirEntry → List Dirent
copy_dirents [] = []
copy_dirents (e ∷ es) =
    record { name = e.name; size = e.size; type = type_number e.entry_type } ∷ copy_dirents es

-- The entries that are written to `dst`; the call returns their number.
unfoldable pub sys_readdir : System → Text → ℕ → Reply (List Dirent)
unfolding copy_dirents
sys_readdir s dir dst_size =
    let dirent = get_file_meta s.vfs dir in
    if is_invalid dirent.entry_type
    then failure enoent
    else if is_folder dirent.entry_type
    then success (copy_dirents (take dst_size (list_directory s.vfs dir)))
    else failure enotdir

unfoldable pub sys_shbuf_create : System → ℕ → Reply (ℕ × System)
sys_shbuf_create s size =
    let pages = add32 size page_size / page_size in
    let (frames, manager) = alloc_continuous s.machine.manager pages in
    let p = current_process s in
    let buffer : SharedBuffer = record {
      bufid = s.shbuf_counter;
      base_frame = frames;
      num_pages = pages;
    } in
    if frames == 0
    then failure enomem
    else success (
      s.shbuf_counter,
      record (put_current s (record p { shbufs = p.shbufs ++ (buffer ∷ []) })) {
        machine = record s.machine { manager = manager };
        shbuf_counter = add32 s.shbuf_counter 1;
      },
    )

-- The address that the buffer is mapped at.
unfoldable pub sys_shbuf_map : System → ℕ → Outcome (Reply (ℕ × System))
sys_shbuf_map s bufid = elim (find_shbuf s.objects s.processes bufid) [
  | none ↦ ok (failure enoent)
  | some b ↦
      let p = current_process s in
      let size = b.num_pages * page_size in
      elim (map_range s.current_dir s.machine b.base_frame p.heap_base size 6) [
        | none ↦ panic
        | some (_, machine) ↦ ok (
            success (
              p.heap_base,
              record (put_current s (record p { heap_base = add32 p.heap_base size })) {
                machine = machine;
              },
            ))
      ]
]

-- The id of the thread; its stack is the page that is mapped.
unfoldable pub sys_thread_create : System → Outcome (ℕ × System)
sys_thread_create s =
    let pid = s.kernel.current_process in
    map_new_pages s pid 1 >>= λ r.
    let (tid, k) = create_thread r.1.kernel ring3 pid in
    ok (
      tid,
      record r.1 {
        kernel =
            start
              (record k {
                process_threads = λ j.
                    if j == pid then k.process_threads pid ++ (tid ∷ []) else k.process_threads j;
              })
              tid;
      },
    )

unfoldable pub sys_thread_join : System → ℕ → Reply (Outcome System)
sys_thread_join s tid = elim (find_thread s.kernel.queue tid) [
  | none ↦ failure einval
  | some t ↦
      if t == s.kernel.current
      then failure einval
      else success
          (block s.kernel s.kernel.current (thread_join t) >>= λ k. ok (record s { kernel = k }))
]
