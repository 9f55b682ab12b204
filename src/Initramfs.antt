-- ===== src/Initramfs.antt =====
-- fs/initramfs.c: the archive of files that the boot loader passes on.
pub mod Octal
mod Tests
use flan.Base.{
  ℕ, zero, suc, ◌+◌, ◌*◌, ◌/◌, ◌%◌, ◌-◌, ◌^◌, Bool, true, false, not, ◌&&◌, List, [], ◌∷◌, Outcome,
  ok, halt, fault, ◌>>=◌, ◌==◌, ltb, if◌then◌else◌,
}
use flan.Base.Words.{u32, u64, add64, sub64, align_up}
use flan.Mem.{Memory}
use flan.Pmm.{Pmm, frame_size, pmm_free}
use flan.Str.{strlen}
use flan.Str.Names.{Name}
use flan.Vfs.{Vfs}
use flan.Vfs.Calls.{s_ifdir, s_ifreg, vfs_create, vfs_write}

-- The places of the fields in `struct tar_header`.
abbrev pub size_field : ℕ
size_field = 124

abbrev pub size_width : ℕ
size_width = 12

abbrev pub typeflag_field : ℕ
typeflag_field = 156

abbrev pub magic_field : ℕ
magic_field = 257

-- `*str++ - '0'`, where `char` is signed, as it is added to a `uint64_t`.
abbrev pub digit : ℕ → ℕ
digit c = if ltb c 128 then sub64 c b'0' else sub64 c (256 + b'0')

unfoldable pub oct2int_from : ℕ → ℕ → ℕ → Memory → ℕ
oct2int_from zero str value m = value
oct2int_from (suc len) str value m = elim (m str == 0) [
  | true ↦ value
  | false ↦ oct2int_from len (str + 1) (u64 (value * 8 + digit (m str))) m
]

unfoldable pub oct2int : ℕ → ℕ → Memory → ℕ
oct2int str len m = oct2int_from len str 0 m

-- `memcmp(current_file->magic, "ustar", 5) == 0`
abbrev pub has_magic : ℕ → Memory → Bool
has_magic a m =
    m a == b'u' && m (a + 1) == b's' && m (a + 2) == b't' && m (a + 3) == b'a' && m (a + 4) == b'r'

-- The bytes of the string at an address.
abbrev pub bytes : ℕ → ℕ → Memory → Name
bytes zero a m = []
bytes (suc n) a m = m a ∷ bytes n (a + 1) m

-- The file system, with the memory, and the page frames.
pub record Ramdisk : Type 0 where
  pub vfs : Vfs
  pub pmm : Pmm

-- The heap and the fuel of paths are as in the parts that are called.
module _ (fuel : ℕ) (kheap_realloc : ℕ → ℕ → Memory → Outcome (ℕ × Memory)) where
  -- The two cases of the `switch`.
  unfoldable pub unpack_file : ℕ → ℕ → Name → Vfs → Outcome Vfs
  unpack_file current_file size name v = do
    (node, v1) ← vfs_create fuel v.root name s_ifreg v
    if node == 0 then halt else do
      (n, v2) ← vfs_write kheap_realloc node (current_file + 512) size 0 v1
      if n == u32 size then ok v2 else halt

  unfoldable pub unpack_directory : Name → Vfs → Outcome Vfs
  unpack_directory name v = do
    (node, v1) ← vfs_create fuel v.root name s_ifdir v
    if node == 0 then halt else ok v1

  -- The `switch`; an entry of another type is passed over.
  unfoldable pub unpack : ℕ → ℕ → Vfs → Outcome Vfs
  unpack current_file size v = do
    length ← strlen current_file v.memory
    let name = bytes length current_file v.memory
    let typeflag = v.memory (current_file + typeflag_field)
    if typeflag == b'0'
        then unpack_file current_file size name v
        else if typeflag == b'5'
        then unpack_directory name v
        else ok v

module _ (hhdm_offset fuel : ℕ) (kheap_realloc : ℕ → ℕ → Memory → Outcome (ℕ × Memory)) where
  -- The loop, on the headers that are left at most; an archive without an end is `fault`.
  unfoldable pub initramfs_from : ℕ → ℕ → Ramdisk → Outcome Ramdisk
  initramfs_from zero current_file r = fault
  initramfs_from (suc left) current_file r =
      elim (has_magic (current_file + magic_field) r.vfs.memory) [
        | false ↦ ok r
        | true ↦
            let size = oct2int (current_file + size_field) size_width r.vfs.memory in
            let whole = add64 512 (align_up size 512) in
            unpack fuel kheap_realloc current_file size r.vfs >>= (λ vfs.
              pmm_free (sub64 current_file hhdm_offset) (whole / frame_size) r.pmm >>= (λ pmm.
                initramfs_from left (add64 current_file whole) (record { vfs = vfs; pmm = pmm })))
      ]

  -- `modules` has the addresses of the boot loader's modules.
  unfoldable pub initramfs_init : ℕ → List ℕ → Ramdisk → Outcome Ramdisk
  initramfs_init left [] r = halt
  initramfs_init left (address ∷ modules) r = initramfs_from left address r
