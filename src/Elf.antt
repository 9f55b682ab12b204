-- ===== src/Elf.antt =====
-- lib/elf.c: programs, read from a file into a process's memory.
pub mod Checks
mod Tests
use flan.Base.{
  ℕ, zero, suc, ◌+◌, ◌*◌, ◌/◌, ◌%◌, ◌-◌, ◌^◌, bit_and, bit_or, Bool, true, false, not, ◌&&◌,
  Outcome, ok, halt, fault, ◌>>=◌, ◌==◌, if◌then◌else◌,
}
use flan.Base.Words.{add64, mul64, align_up}
use flan.Mem.{Memory}
use flan.Mem.Word.{load_bytes}
use flan.Pmm.{frame_size, pmm_calloc}
use flan.Spawn.{Auxval}
use flan.Vfs.{Vfs, calloc}
use flan.Vfs.Calls.{vfs_read}
use flan.Vmm.{Vmm, pte_present, pte_writable, pte_user, vmm_map_pages}

-- The fields of `Elf64_Ehdr` and `Elf64_Phdr` that are read, at the places that the ELF format
-- gives them. `e_ident` has the first six bytes as one number: the four of `ELFMAG`, the class and the
-- byte order.
pub record Ehdr : Type 0 where
  pub e_ident : ℕ
  pub e_machine : ℕ
  pub e_version : ℕ
  pub e_entry : ℕ
  pub e_phoff : ℕ
  pub e_phentsize : ℕ
  pub e_phnum : ℕ

abbrev pub sizeof_ehdr : ℕ
sizeof_ehdr = 64

abbrev pub read_ehdr : ℕ → Memory → Ehdr
read_ehdr a m = record {
  e_ident = load_bytes 6 a m;
  e_machine = load_bytes 2 (a + 18) m;
  e_version = load_bytes 4 (a + 20) m;
  e_entry = load_bytes 8 (a + 24) m;
  e_phoff = load_bytes 8 (a + 32) m;
  e_phentsize = load_bytes 2 (a + 54) m;
  e_phnum = load_bytes 2 (a + 56) m;
}

pub record Phdr : Type 0 where
  pub p_type : ℕ
  pub p_offset : ℕ
  pub p_vaddr : ℕ
  pub p_filesz : ℕ
  pub p_memsz : ℕ

abbrev pub sizeof_phdr : ℕ
sizeof_phdr = 56

abbrev pub read_phdr : ℕ → Memory → Phdr
read_phdr a m = record {
  p_type = load_bytes 4 a m;
  p_offset = load_bytes 8 (a + 8) m;
  p_vaddr = load_bytes 8 (a + 16) m;
  p_filesz = load_bytes 8 (a + 32) m;
  p_memsz = load_bytes 8 (a + 40) m;
}

abbrev pub pt_load : ℕ
pt_load = 1

abbrev pub pt_interp : ℕ
pt_interp = 3

abbrev pub pt_phdr : ℕ
pt_phdr = 6

-- "\x7fELF", ELFCLASS64 and ELFDATA2LSB, the lowest byte first; EM_X86_64 and EV_CURRENT.
abbrev pub elf_ident : ℕ
elf_ident = 0x0102464c457f

unfoldable pub check_headers : Ehdr → Bool
check_headers header =
    header.e_ident == elf_ident && header.e_machine == 62 && header.e_version == 1

-- What the loader changes. `memory` of `vmm` is the one memory, also for the file system's calls.
-- A null `ld_path` is not written, and is read as 0 here.
pub record Loader : Type 0 where
  pub vfs : Vfs
  pub vmm : Vmm
  pub aux : Auxval
  pub ld_path : ℕ

-- `vfs_read` on the common memory.
unfoldable pub read : ℕ → ℕ → ℕ → ℕ → Loader → Outcome (ℕ × Loader)
read node buff count offset l = do
  (n, vfs) ← vfs_read node buff count offset (record l.vfs { memory = l.vmm.memory })
  ok (n, record l { vfs = vfs; vmm = record l.vmm { memory = vfs.memory } })

-- `aux` after the loop.
abbrev pub set_aux : Ehdr → Bool × Loader → Outcome (Bool × Loader)
set_aux header (false, l) = ok (false, l)
set_aux header (true, l) = ok (
  true,
  record l {
    aux = record l.aux {
      at_entry = header.e_entry;
      at_phent = header.e_phentsize;
      at_phnum = header.e_phnum;
    };
  },
)

module _ (hhdm_offset : ℕ) (pagemap node : ℕ) (wants_path : Bool) where
  -- `case PT_LOAD`
  unfoldable pub load_pages : Phdr → Loader → Outcome (Bool × Loader)
  load_pages program_header l = do
    let unaligned = bit_and program_header.p_vaddr (frame_size - 1)
    let pages = align_up (add64 program_header.p_memsz unaligned) frame_size / frame_size
    (phys, pmm, memory) ← pmm_calloc hhdm_offset pages l.vmm.pmm l.vmm.memory
    let l1 = record l { vmm = record l.vmm { pmm = pmm; memory = memory } }
    if phys == 0 then ok (false, l1) else do
      vmm ←
          vmm_map_pages hhdm_offset pagemap phys program_header.p_vaddr
            (bit_or (bit_or pte_present pte_writable) pte_user) pages l1.vmm
      (n, l2) ←
          read node (add64 (add64 phys unaligned) hhdm_offset) program_header.p_filesz
            program_header.p_offset (record l1 { vmm = vmm })
      if n == 0 then halt else ok (true, l2)

  -- `case PT_INTERP`
  unfoldable pub load_path : Phdr → Loader → Outcome (Bool × Loader)
  load_path program_header l = do
    (path, vfs) ← calloc (add64 program_header.p_filesz 1) (record l.vfs { memory = l.vmm.memory })
    if path == 0 then halt else do
      (n, l1) ←
          read node path program_header.p_filesz program_header.p_offset
            (record l { vfs = vfs; vmm = record l.vmm { memory = vfs.memory } })
      if n == 0
          then halt
          else ok (true, record l1 { ld_path = if wants_path then path else l1.ld_path })

  -- The `switch`; an entry of another type is passed over.
  unfoldable pub load_entry : Phdr → Loader → Outcome (Bool × Loader)
  load_entry program_header l =
      if program_header.p_type == pt_load
      then load_pages program_header l
      else if program_header.p_type == pt_interp
      then load_path program_header l
      else if program_header.p_type == pt_phdr
      then ok (true, record l { aux = record l.aux { at_phdr = program_header.p_vaddr } })
      else ok (true, l)

  -- The loop, with the entries that are left. `program_header` is the address of the local
  -- variable.
  unfoldable pub load_entries : ℕ → ℕ → Ehdr → ℕ → Loader → Outcome (Bool × Loader)
  load_entries zero i elf_header program_header l = ok (true, l)
  load_entries (suc left) i elf_header program_header l =
      read node program_header sizeof_phdr
        (add64 elf_header.e_phoff (mul64 i elf_header.e_phentsize)) l
      >>= (λ (n, l1). elim (n == 0) [
        | true ↦ ok (false, l1)
        | false ↦ load_entry (read_phdr program_header l1.vmm.memory) l1 >>= (λ (more, l2).
            elim more [
              | false ↦ ok (false, l2)
              | true ↦ load_entries left (i + 1) elf_header program_header l2
            ])
      ])

  -- `elf_header` is the address of the local variable, which only the first read changes.
  unfoldable pub elf_load : ℕ → ℕ → Loader → Outcome (Bool × Loader)
  elf_load elf_header program_header l = read node elf_header sizeof_ehdr 0 l >>= (λ (n, l1).
      let header = read_ehdr elf_header l1.vmm.memory in
      elim (n == 0) [
        | true ↦ ok (false, l1)
        | false ↦ elim (check_headers header) [
          | false ↦ ok (false, l1)
          | true ↦ load_entries header.e_phnum 0 header program_header l1 >>= set_aux header
        ]
      ])
