-- ===== src/Processes/Calls/Framebuffer.antt =====
-- kernel/syscalls.cpp: who controls the screen, over any sequence of calls.
use nekosys.Base.{
  ℕ, ◌≡◌, ◌≢◌, refl, sym, ap, ◌∙◌, Bool, false, List, [], ◌∷◌, ◌==◌, if◌then◌else◌, arith,
}
use nekosys.Tasks.Outcome.{ok, first_ok, ok-injective}
use nekosys.Tasks.Thread.{Kernel}
use nekosys.Neko.Text.{c_string}
use nekosys.Video.GraphicsTty.{GraphicsTty, put_char_graphics, write_graphics}
use nekosys.Video.Framebuffer.{VideoManager, kernel_controls_framebuffer, acquire_framebuffer}
use nekosys.Pipes.{success, failure, eperm, eacces}
use nekosys.Processes.{System, exit_state, kill_threads, on_process_died}
use nekosys.Processes.Calls.{
  FrameBuf, sys_print, sys_putchar, sys_fb_acquire, sys_fb_flush, sys_fb_release,
}

-- What may happen while it is not the turn of process `p`: another process makes a call that is
-- answered with success, or ends; the scheduler changes the kernel's state; or any process, `p` too,
-- prints, with whatever font.
pub data Step (p : ℕ) (s : System) : System → Type 0 where
  acquires :
      (r : FrameBuf × System)
      → s.kernel.current_process ≢ p
      → sys_fb_acquire s ≡ ok (success r)
      → Step p s r.1
  flushes :
      (full : Bool) (x y w h : ℕ) (s' : System)
      → s.kernel.current_process ≢ p
      → sys_fb_flush s full x y w h ≡ success s'
      → Step p s s'
  releases :
      (s' : System) → s.kernel.current_process ≢ p → sys_fb_release s ≡ success s' → Step p s s'
  ends : (q code : ℕ) (s' : System) → q ≢ p → exit_state s q code ≡ ok s' → Step p s s'
  prints :
      (font : ℕ → ℕ → ℕ) (text : List ℕ) (s' : System)
      → sys_print font s text ≡ success s'
      → Step p s s'
  puts : (font : ℕ → ℕ → ℕ) (c : ℕ) (s' : System) → sys_putchar font s c ≡ success s' → Step p s s'
  switches : (k : Kernel) → Step p s (record s { kernel = k })

pub data Steps (p : ℕ) (s : System) : System → Type 0 where
  none_yet : Steps p s s
  then_one : {t u : System} → Steps p s t → Step p t u → Steps p s u

-- While a process controls the screen, what the kernel writes to its terminal is dropped.
write_graphics-kept :
    (font : ℕ → ℕ → ℕ) (g : GraphicsTty) (vm : VideoManager) (cs : List ℕ)
    → kernel_controls_framebuffer vm ≡ false
    → write_graphics font g vm cs ≡ (g, vm)
unfolding write_graphics
write_graphics-kept font g vm [] others = refl
write_graphics-kept font g vm (c ∷ cs) others =
    let dropped : put_char_graphics font g vm c ≡ (g, vm) = rw (others, put_char_graphics) refl in
    ap (λ (z : GraphicsTty × VideoManager). write_graphics font z.0 z.1 cs) dropped
    ∙ write_graphics-kept font g vm cs others

module _ (p : ℕ) (s : System) (owned : s.video.framebuffer_controller_proc ≡ p) where
  -- Acquiring fails where a process has the screen.
  acquire_refused : (r : FrameBuf × System) → p ≢ 0 → sys_fb_acquire s ≡ ok (success r) → ⊥
  unfolding sys_fb_acquire
  acquire_refused r some_process e =
      let taken : kernel_controls_framebuffer s.video ≡ false =
        ground (arith, owned, some_process) in
      let refused : sys_fb_acquire s ≡ ok (failure eperm) = rw (taken, sys_fb_acquire) refl in cc

  flush_refused :
      (full : Bool) (x y w h : ℕ) (s' : System)
      → s.kernel.current_process ≢ p
      → sys_fb_flush s full x y w h ≡ success s'
      → ⊥
  unfolding sys_fb_flush
  flush_refused full x y w h s' other e =
      let differ : (s.video.framebuffer_controller_proc == s.kernel.current_process) ≡ false =
        ground (arith, owned, other) in
      let refused : sys_fb_flush s full x y w h ≡ failure eacces = rw (differ, sys_fb_flush) refl in
      cc

  release_refused : (s' : System) → s.kernel.current_process ≢ p → sys_fb_release s ≡ success s' → ⊥
  unfolding sys_fb_release
  release_refused s' other e =
      let differ : (s.video.framebuffer_controller_proc == s.kernel.current_process) ≡ false =
        ground (arith, owned, other) in
      let refused : sys_fb_release s ≡ failure eacces = rw (differ, sys_fb_release) refl in cc

  print_keeps :
      (font : ℕ → ℕ → ℕ) (cs : List ℕ) → p ≢ 0 → (write_graphics font s.tty s.video cs).1 ≡ s.video
  print_keeps font cs some_process =
      let taken : kernel_controls_framebuffer s.video ≡ false =
        ground (arith, owned, some_process) in
      ap (λ (z : GraphicsTty × VideoManager). z.1) (write_graphics-kept font s.tty s.video cs taken)

  exit_keeps : (q code : ℕ) (s' : System) → q ≢ p → exit_state s q code ≡ ok s' → s'.video ≡ s.video
  unfolding exit_state on_process_died
  exit_keeps q code s' other e =
      let differ : (s.video.framebuffer_controller_proc == q) ≡ false =
        ground (arith, owned, other) in
      let (k, made, _) = first_ok _ (kill_threads s.kernel (s.kernel.process_threads q)) e in
      let kept : s'.video ≡ (
          if s.video.framebuffer_controller_proc == q
          then acquire_framebuffer s.video 0
          else s.video) =
        sym (ap (λ (z : System). z.video) (ok-injective made)) in
      kept ∙ rw differ refl

success-injective {ℓ} : {A : Type ℓ} {a b : A} → success a ≡ success b → a ≡ b
success-injective e = cc

Step-video :
    (p : ℕ) (s s' : System)
    → p ≢ 0
    → s.video.framebuffer_controller_proc ≡ p
    → Step p s s'
    → s'.video ≡ s.video
unfolding sys_print sys_putchar
Step-video p s s' some_process owned (acquires r other e) =
    absurd (acquire_refused p s owned r some_process e)
Step-video p s s' some_process owned (flushes full x y w h _ other e) =
    absurd (flush_refused p s owned full x y w h s' other e)
Step-video p s s' some_process owned (releases _ other e) =
    absurd (release_refused p s owned s' other e)
Step-video p s s' some_process owned (ends q code _ other e) =
    exit_keeps p s owned q code s' other e
Step-video p s s' some_process owned (prints font text _ e) =
    sym (ap (λ (z : System). z.video) (success-injective e))
    ∙ print_keeps p s owned font (c_string text) some_process
Step-video p s s' some_process owned (puts font c _ e) =
    sym (ap (λ (z : System). z.video) (success-injective e))
    ∙ print_keeps p s owned font (c ∷ []) some_process
Step-video p s s' some_process owned (switches k) = refl

-- While a process other than 0 controls the screen, the state of the screen, its two buffers and its
-- controller, stays as it is over any sequence of these steps: successful calls of other processes that
-- acquire, flush or release the screen, the ends of other processes, what anyone prints on the kernel's
-- graphics terminal, and switches between threads. (What a process writes into the back buffer through
-- a mapping of its own, which it also keeps after it has released the screen, is not among the steps.)
pub Steps-video :
    (p : ℕ) (s s' : System)
    → p ≢ 0
    → s.video.framebuffer_controller_proc ≡ p
    → Steps p s s'
    → s'.video ≡ s.video
Steps-video p s s' some_process owned none_yet = refl
Steps-video p s s' some_process owned (then_one {t} steps step) =
    let before = Steps-video p s t some_process owned steps in
    Step-video p t s' some_process
      (ap (λ (z : VideoManager). z.framebuffer_controller_proc) before ∙ owned) step
    ∙ before
