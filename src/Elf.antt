-- ===== src/Elf.antt =====
-- libelf/elf.cpp and libelf/include/elf/elf.h: the images of executables, which are read from their
-- bytes.
pub mod Loader
pub mod Coverage
pub mod Pages
mod Tests
use nekosys.Base.{
  ℕ, zero, suc, ◌+◌, ◌*◌, Bool, true, false, not, ◌&&◌, List, [], ◌∷◌, ◌==◌, if◌then◌else◌,
}

-- The two sizes of numbers in a file.
abbrev pub half_at : (ℕ → ℕ) → ℕ → ℕ
half_at bytes i = bytes i + 256 * bytes (i + 1)

abbrev pub word_at : (ℕ → ℕ) → ℕ → ℕ
word_at bytes i = half_at bytes i + 65536 * half_at bytes (i + 2)

-- The fields of Elf32_Ehdr that are used.
pub record ElfHeader : Type 0 where
  pub e_ident : ℕ → ℕ
  pub e_type : ℕ
  pub e_machine : ℕ
  pub e_version : ℕ
  pub e_entry : ℕ
  pub e_phoff : ℕ
  pub e_phentsize : ℕ
  pub e_phnum : ℕ

unfoldable pub elf_header : (ℕ → ℕ) → ElfHeader
elf_header bytes = record {
  e_ident = bytes;
  e_type = half_at bytes 16;
  e_machine = half_at bytes 18;
  e_version = word_at bytes 20;
  e_entry = word_at bytes 24;
  e_phoff = word_at bytes 28;
  e_phentsize = half_at bytes 42;
  e_phnum = half_at bytes 44;
}

-- The fields of Elf32_Phdr that are used.
pub record ProgramHeader : Type 0 where
  pub p_type : ℕ
  pub p_offset : ℕ
  pub p_vaddr : ℕ
  pub p_filesz : ℕ

abbrev pub sizeof_program_header : ℕ
sizeof_program_header = 32

unfoldable pub program_header : (ℕ → ℕ) → ℕ → ProgramHeader
program_header bytes i = record {
  p_type = word_at bytes i;
  p_offset = word_at bytes (i + 4);
  p_vaddr = word_at bytes (i + 8);
  p_filesz = word_at bytes (i + 16);
}

-- The `n` program headers from an offset on; nothing tests that they are inside the file.
unfoldable pub program_headers : (ℕ → ℕ) → ℕ → ℕ → List ProgramHeader
unfolding program_header
program_headers bytes zero i = []
program_headers bytes (suc n) i =
    program_header bytes i ∷ program_headers bytes n (i + sizeof_program_header)

unfoldable pub check_magic : ElfHeader → Bool
check_magic h =
    (h.e_ident 0 == 0x7f) && (h.e_ident 1 == 69) && (h.e_ident 2 == 76) && (h.e_ident 3 == 70)

-- The tests of the constructor in their order. Of another byte order it only prints a line, and goes
-- on.
unfoldable pub is_valid_header : ElfHeader → Bool
unfolding check_magic
is_valid_header h =
    if not (check_magic h)
    then false
    else if not (h.e_ident 4 == 1)
    then false
    else if not (h.e_machine == 3)
    then false
    else if not (h.e_version == 1)
    then false
    else if not (h.e_type == 2)
    then false
    else if h.e_entry == 0
    then false
    else h.e_phentsize == sizeof_program_header

pub record Image : Type 0 where
  pub bytes : ℕ → ℕ
  pub header : ElfHeader
  pub is_valid : Bool

unfoldable pub image : (ℕ → ℕ) → Image
unfolding elf_header is_valid_header
image bytes =
    let header = elf_header bytes in
    record { bytes = bytes; header = header; is_valid = is_valid_header header }
