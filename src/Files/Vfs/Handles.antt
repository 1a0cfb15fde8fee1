-- ===== src/Files/Vfs/Handles.antt =====
-- kernel/fs/vfs.cpp: opening, reading and closing files.
use nekosys.Base.{
  ℕ, ◌+◌, ◌≤◌, ◌<◌, ◌≡◌, ◌≢◌, refl, sym, ap, subst, true, false, some, List, [], ◌∷◌, ◌++◌, ◌==◌,
  if◌then◌else◌, All, arith, Bool-cases, inl, inr,
}
use nekosys.Base.Words.{word, add32}
use nekosys.Neko.Text.{Text}
use nekosys.Files.Vfs.{
  FileSystem, MountPoint, FileHandle, VirtualFileSystem, DirEntry, is_invalid, find_mount_point,
  get_relative_path, open_entry, open_file, read_loop, read, close_loop, close,
}

-- The ids of the open handles are not 0 and have been given out.
abbrev pub Issued : ℕ → List FileHandle → Type 0
Issued counter hs = All (λ h. (0 < h.id) × (h.id ≤ counter)) hs

abbrev pub IsValid : VirtualFileSystem → Type 0
IsValid v = Issued v.id_counter v.file_handles

Issued-append :
    (c : ℕ) (hs : List FileHandle) (h : FileHandle)
    → Issued c hs
    → h.id ≡ c + 1
    → Issued (c + 1) (hs ++ (h ∷ []))
Issued-append c [] h i e = ((omega (arith, e), omega (arith, e)), tt)
Issued-append c (g ∷ hs) h i e = ((i.0.0, omega (arith, i.0.1)), Issued-append c hs h i.1 e)

close_loop-Issued :
    (c : ℕ) (hs : List FileHandle) (handle : ℕ) → Issued c hs → Issued c (close_loop hs handle)
unfolding close_loop
close_loop-Issued c [] handle i = tt
close_loop-Issued c (h ∷ hs) handle i = elim (Bool-cases (h.id == handle)) [
  | inl here ↦ rw here i.1
  | inr there ↦ rw there (i.0, close_loop-Issued c hs handle i.1)
]

module _ (c : ℕ) (h : FileHandle) (above : c < h.id) where
  read_loop-last :
      (hs : List FileHandle) (offset size : ℕ) (dst : List ℕ)
      → Issued c hs
      → read_loop (hs ++ (h ∷ [])) h.id offset size dst ≡ h.fs.read_entry h.entry offset size dst
  unfolding read_loop
  read_loop-last [] offset size dst i =
      let same : (h.id == h.id) ≡ true = ground arith in rw same refl
  read_loop-last (g ∷ hs) offset size dst i =
      let no : (g.id == h.id) ≡ false = ground (arith, i.0, above) in
      rw no (read_loop-last hs offset size dst i.1)

  close_loop-last : (hs : List FileHandle) → Issued c hs → close_loop (hs ++ (h ∷ [])) h.id ≡ hs
  unfolding close_loop
  close_loop-last [] i = let same : (h.id == h.id) ≡ true = ground arith in rw same refl
  close_loop-last (g ∷ hs) i =
      let no : (g.id == h.id) ≡ false = ground (arith, i.0, above) in
      rw no (ap (◌∷◌ g) (close_loop-last hs i.1))

  read_loop-others :
      (hs : List FileHandle) (other offset size : ℕ) (dst : List ℕ)
      → other ≢ h.id
      → read_loop (hs ++ (h ∷ [])) other offset size dst ≡ read_loop hs other offset size dst
  unfolding read_loop
  read_loop-others [] other offset size dst ne =
      let no : (h.id == other) ≡ false = ground (arith, ne) in rw no refl
  read_loop-others (g ∷ hs) other offset size dst ne =
      ap (λ z. if g.id == other then g.fs.read_entry g.entry offset size dst else z)
        (read_loop-others hs other offset size dst ne)

-- What opening an entry of a file system gives: a fresh handle that reads from the entry and leaves
-- what the other handles read, and that closing takes back.
pub record Opened (v : VirtualFileSystem) (fs : FileSystem) (entry : DirEntry)
    (r : ℕ × VirtualFileSystem) : Type 0 where
  pub fresh : r.0 ≡ v.id_counter + 1
  pub valid : IsValid r.1
  pub reads :
      (offset size : ℕ) (dst : List ℕ)
      → read r.1 r.0 offset size dst ≡ fs.read_entry entry offset size dst
  pub others :
      (other offset size : ℕ) (dst : List ℕ)
      → other ≢ r.0
      → read r.1 other offset size dst ≡ read v other offset size dst
  pub closes : (close r.1 r.0).file_handles ≡ v.file_handles

open_entry-Opened :
    (v : VirtualFileSystem) (fs : FileSystem) (entry : DirEntry)
    → IsValid v
    → v.id_counter + 1 < word
    → is_invalid entry.entry_type ≡ false
    → Opened v fs entry (open_entry v fs entry)
unfolding open_entry read close
open_entry-Opened v fs entry valid room real =
    let id = add32 v.id_counter 1 in
    let next : id ≡ v.id_counter + 1 = omega (arith, room) in
    let h : FileHandle = record { id = id; fs = fs; entry = entry; offset = 0 } in
    let r : ℕ × VirtualFileSystem =
      (id, record v { file_handles = v.file_handles ++ (h ∷ []); id_counter = id }) in
    let made : r ≡ open_entry v fs entry = rw (real, open_entry) refl in
    let above : v.id_counter < h.id = omega (arith, next) in
    let nonzero : (id == 0) ≡ false = ground (arith, next) in
    subst (Opened v fs entry) made (record {
      fresh = next;
      valid =
          subst (λ z. Issued z (v.file_handles ++ (h ∷ []))) (sym next)
            (Issued-append v.id_counter v.file_handles h valid next);
      reads = λ offset size dst.
          rw nonzero (read_loop-last v.id_counter h above v.file_handles offset size dst valid);
      others = λ other offset size dst ne.
          ap (λ z. if other == 0 then dst else z)
            (read_loop-others v.id_counter h above v.file_handles other offset size dst ne);
      closes = rw nonzero (close_loop-last v.id_counter h above v.file_handles valid);
    })

-- Opening a path whose mount point's file system has an entry for the relative path gives a fresh
-- handle, which reads from that entry, leaves what the other handles read, and is taken back by
-- closing it, which restores the handles.
pub open_file_opens :
    (v : VirtualFileSystem) (path : Text) (m : MountPoint)
    → IsValid v
    → v.id_counter + 1 < word
    → find_mount_point v path ≡ some m
    → is_invalid (m.fs.file_meta (get_relative_path m path)).entry_type ≡ false
    → Opened v m.fs (m.fs.file_meta (get_relative_path m path)) (open_file v path)
unfolding open_file
open_file_opens v path m valid room found real =
    rw (found, open_file)
      (open_entry-Opened v m.fs (m.fs.file_meta (get_relative_path m path)) valid room real)

read_loop-close_loop :
    (hs : List FileHandle) (handle other offset size : ℕ) (dst : List ℕ)
    → other ≢ handle
    → read_loop (close_loop hs handle) other offset size dst ≡ read_loop hs other offset size dst
unfolding read_loop close_loop
read_loop-close_loop [] handle other offset size dst ne = refl
read_loop-close_loop (h ∷ hs) handle other offset size dst ne = elim (Bool-cases (h.id == handle)) [
  | inl here ↦ let skip : (h.id == other) ≡ false = ground (arith, here, ne) in rw (here, skip) refl
  | inr there ↦ rw there (
      ap (λ z. if h.id == other then h.fs.read_entry h.entry offset size dst else z)
        (read_loop-close_loop hs handle other offset size dst ne))
]

-- Closing a handle, an open one or not, keeps the ids of the handles valid, and reading from any
-- other handle gives what it gave before.
pub close_leaves_others :
    (v : VirtualFileSystem) (handle : ℕ)
    → IsValid v
    → IsValid (close v handle)
      × ((other offset size : ℕ) (dst : List ℕ)
          → other ≢ handle
          → read (close v handle) other offset size dst ≡ read v other offset size dst)
unfolding close read
close_leaves_others v handle valid = elim (Bool-cases (handle == 0)) [
  | inl zero ↦ rw zero (valid, λ other offset size dst ne. refl)
  | inr real ↦ rw real (
    close_loop-Issued v.id_counter v.file_handles handle valid,
    λ other offset size dst ne.
        ap (λ z. if other == 0 then dst else z)
          (read_loop-close_loop v.file_handles handle other offset size dst ne),
  )
]
