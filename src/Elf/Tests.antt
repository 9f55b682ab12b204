-- ===== src/Elf/Tests.antt =====
-- The loader at a concrete file.
use flan.Base.{
  ℕ, ◌==◌, ◌+◌, ◌-◌, ◌≡◌, inr, refl, Returns, [], none, some, true, false, ok, if◌then◌else◌, ltb,
  arith,
}
use flan.Tmpfs.{File}
use flan.Vfs.{Vfs, tmpfs, blank_node, put}
use flan.Elf.{check_headers, Loader, read, load_entry, load_entries, elf_load}
use flan.Elf.Checks.{HasHeader, SameBut, IsProgram, elf_load-refused, elf_load-loaded}
use flan.Mem.{memcpy, memcpy_from}
use flan.Mem.Word.{load_bytes}
use flan.Lock.{spinlock_acquire, spinlock_release, acquire_among, spin, spinlock_test_and_acq}
use flan.Vfs.Calls.{vfs_read}
use flan.Tmpfs.{tmpfs_read}

abbrev program : File
program = record { data' = 8192; st_size = 4096; st_blocks = 1; offset = 0; lock = 0 }

-- The file at 16 has no valid header; the loader's variables are from 256 on.
abbrev disk : Vfs
disk = record {
  nodes = put (λ _. blank_node) 16 (record blank_node { fs = some tmpfs; file = program });
  heap = [];
  memory = λ _. 0;
  root = 0;
  filesystems = λ _. none;
  vfs_lock = 0;
  inode_number = 0;
}

abbrev loader : Loader
loader = record {
  vfs = disk;
  vmm = record {
    pmm = record { bitmap = []; limit = 0; pmm_lock = 0 };
    memory = λ a. if ltb a 8192 then 0 else 1;
    vmm_lock = 0;
  };
  aux = record { at_entry = 0; at_phdr = 0; at_phent = 0; at_phnum = 0 };
  ld_path = 0;
}

program-HasHeader : HasHeader disk 16 256
program-HasHeader = record {
  on_tmpfs = refl;
  is_file = record { free = refl; some_data = omega arith; small = omega arith };
  long = omega arith;
  some_buff = omega arith;
  apart = inr (omega arith);
}

zeros-refused : ¬ IsProgram 8192 loader.vmm.memory
unfolding load_bytes
zeros-refused (ident, machine, version) = absurd (omega (arith, machine))

elf_load-refused_example :
    Returns
      (elf_load 0 4096 16 true 256 512 loader)
      λ (loaded, l1). (loaded ≡ false) × SameBut 16 256 loader l1
elf_load-refused_example =
    elf_load-refused 0 4096 16 true 256 512 loader program-HasHeader zeros-refused

-- A program of one entry, PT_PHDR with the address 48, that starts at 1024.
abbrev image : ℕ → ℕ
image a =
    if a == 0
    then 0x7f
    else if a == 1
    then b'E'
    else if a == 2
    then b'L'
    else if a == 3
    then b'F'
    else if a == 4
    then 2
    else if a == 5
    then 1
    else if a == 18
    then 62
    else if a == 20
    then 1
    else if a == 25
    then 4
    else if a == 32
    then 64
    else if a == 54
    then 56
    else if a == 56
    then 1
    else if a == 64
    then 6
    else if a == 80
    then 48
    else 0

abbrev good_loader : Loader
good_loader = record loader {
  vmm = record loader.vmm { memory = λ a. if ltb a 8192 then 0 else image (a - 8192) };
}

good-loads : (l' : Loader) × (elf_load 0 4096 16 true 256 512 good_loader ≡ ok (true, l'))
unfolding elf_load check_headers read load_entries load_entry load_bytes vfs_read tmpfs_read memcpy
    memcpy_from spinlock_acquire spinlock_release acquire_among spin spinlock_test_and_acq
good-loads = (_, refl)

elf_load-loaded_example :
    IsProgram 8192 good_loader.vmm.memory
    × (good-loads.0.aux.at_entry ≡ load_bytes 8 (8192 + 24) good_loader.vmm.memory)
    × (good-loads.0.aux.at_phent ≡ load_bytes 2 (8192 + 54) good_loader.vmm.memory)
    × (good-loads.0.aux.at_phnum ≡ load_bytes 2 (8192 + 56) good_loader.vmm.memory)
elf_load-loaded_example =
    elf_load-loaded 0 4096 16 true 256 512 good_loader good-loads.0 program-HasHeader good-loads.1
