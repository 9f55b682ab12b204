-- ===== src/Elf/Checks.antt =====
-- What `elf_load` of lib/elf.c does with a file's header.
use flan.Base.{
  ℕ, zero, suc, ◌+◌, ◌≤◌, ◌<◌, ◌≡◌, ◌≢◌, ◌⊎◌, inl, inr, ◌∙◌, refl, sym, ap, Bool, true, false, some,
  ok, halt, fault, Outcome, ◌%◌, ◌^◌, ==_self, ◌>>=◌, Returns, arith, Bool-cases, ◌==◌,
}
use native.Mathlib.Nat.{add-zero, add_assoc}
use flan.Mem.{Memory}
use flan.Mem.Copy.{copied-inside, copied-outside}
use flan.Mem.Word.{load_bytes}
use flan.Tmpfs.Contents.{IsFile, tmpfs_read-memory}
use flan.Spawn.{Auxval}
use flan.Vfs.{Vfs, tmpfs}
use flan.Vfs.Calls.{vfs_read}
use flan.Elf.{Ehdr, sizeof_ehdr, read_ehdr, check_headers, Loader, read, set_aux, elf_load}

-- Equal bytes at two places are equal numbers.
load_bytes-moved :
    (n a b : ℕ) (m m' : Memory)
    → ((i : ℕ) → i < n → m' (a + i) ≡ m (b + i))
    → load_bytes n a m' ≡ load_bytes n b m
unfolding load_bytes
load_bytes-moved zero a b m m' same = refl
load_bytes-moved (suc n) a b m m' same =
    let first : m' a ≡ m b = rw (add-zero a, add-zero b) at (same 0 (omega arith)) in
    let later =
      load_bytes-moved n (a + 1) (b + 1) m m'
        (λ i h. rw (add_assoc a 1 i, add_assoc b 1 i) (same (1 + i) (omega arith))) in
    rw (first, later) refl

-- The same of a field `k` bytes behind the start.
field-moved :
    (k n a b : ℕ) (m m' : Memory)
    → k + n ≤ sizeof_ehdr
    → ((i : ℕ) → i < sizeof_ehdr → m' (a + i) ≡ m (b + i))
    → load_bytes n (a + k) m' ≡ load_bytes n (b + k) m
field-moved k n a b m m' inside same =
    load_bytes-moved n (a + k) (b + k) m m'
      (λ i h. rw (add_assoc a k i, add_assoc b k i) (same (k + i) (omega arith)))

read_ehdr-moved :
    (a b : ℕ) (m m' : Memory)
    → ((i : ℕ) → i < sizeof_ehdr → m' (a + i) ≡ m (b + i))
    → read_ehdr a m' ≡ read_ehdr b m
read_ehdr-moved a b m m' same =
    let ident = load_bytes-moved 6 a b m m' (λ i h. same i (omega arith)) in
    rw
      (
        ident,
        field-moved 18 2 a b m m' (omega arith) same,
        field-moved 20 4 a b m m' (omega arith) same,
        field-moved 24 8 a b m m' (omega arith) same,
        field-moved 32 8 a b m m' (omega arith) same,
        field-moved 54 2 a b m m' (omega arith) same,
        field-moved 56 2 a b m m' (omega arith) same,
      )
      refl

-- A file of tmpfs with a header, outside of the variable at `buff`.
pub record HasHeader (v : Vfs) (node buff : ℕ) : Type 0 where
  pub on_tmpfs : (v.nodes node).fs ≡ some tmpfs
  pub is_file : IsFile (v.nodes node).file
  pub long : sizeof_ehdr ≤ (v.nodes node).file.st_size
  pub some_buff : buff ≢ 0
  pub apart :
      ((v.nodes node).file.data' + (v.nodes node).file.st_size ≤ buff)
      ⊎ (buff + sizeof_ehdr ≤ (v.nodes node).file.data')

-- Only the variable at `buff` and the offset of the node have changed.
abbrev pub SameBut : ℕ → ℕ → Loader → Loader → Type 0
SameBut node buff l l1 =
    ((b : ℕ) → (b < buff) ⊎ (buff + sizeof_ehdr ≤ b) → l1.vmm.memory b ≡ l.vmm.memory b)
    × (l1.vmm.pmm ≡ l.vmm.pmm)
    × (l1.vmm.vmm_lock ≡ l.vmm.vmm_lock)
    × (l1.aux ≡ l.aux)
    × (l1.ld_path ≡ l.ld_path)
    × (l1.vfs.heap ≡ l.vfs.heap)
    × (l1.vfs.root ≡ l.vfs.root)
    × (l1.vfs.filesystems ≡ l.vfs.filesystems)
    × (l1.vfs.vfs_lock ≡ l.vfs.vfs_lock)
    × (l1.vfs.inode_number ≡ l.vfs.inode_number)
    × ((x : ℕ) → x ≢ node → l1.vfs.nodes x ≡ l.vfs.nodes x)
    × (l1.vfs.nodes node ≡ record (l.vfs.nodes node) {
      file = record (l.vfs.nodes node).file {
        offset = ((l.vfs.nodes node).file.offset + sizeof_ehdr) % 2 ^ 32;
      };
    })

-- The bytes of a header at `a` that the loader asks for: "\x7fELF" and 64 bits with the low byte
-- first, a program of x86-64, and the version 1.
abbrev pub IsProgram : ℕ → Memory → Type 0
IsProgram a m =
    (load_bytes 6 a m ≡ 0x0102464c457f)
    × (load_bytes 2 (a + 18) m ≡ 62)
    × (load_bytes 4 (a + 20) m ≡ 1)

check_headers_iff :
    (a : ℕ) (m : Memory)
    → ((check_headers (read_ehdr a m) ≡ true) × IsProgram a m)
      ⊎ ((check_headers (read_ehdr a m) ≡ false) × ¬ IsProgram a m)
unfolding check_headers
check_headers_iff a m = elim (Bool-cases (check_headers (read_ehdr a m))) [
  | inl good ↦ inl (good, (ground (arith, good), ground (arith, good), ground (arith, good)))
  | inr bad ↦ inr (bad, λ (e, f, g). ground (arith, bad, e, f, g))
]

read_header :
    (l : Loader) (node buff : ℕ)
    → HasHeader l.vfs node buff
    → Returns (read node buff sizeof_ehdr 0 l) λ (n, l1).
      (n ≡ sizeof_ehdr)
      × (read_ehdr buff l1.vmm.memory ≡ read_ehdr (l.vfs.nodes node).file.data' l.vmm.memory)
      × SameBut node buff l l1
unfolding read vfs_read
read_header l node buff h =
    let start : ℕ = (l.vfs.nodes node).file.data' in
    let (r, run, (all, file_same, c)) =
      tmpfs_read-memory (l.vfs.nodes node).file buff sizeof_ehdr 0 l.vmm.memory h.is_file
        (omega (arith, h.long)) h.some_buff h.apart in
    let moved = read_ehdr-moved buff start l.vmm.memory r.2 (λ i low.
      c (buff + i)
      ∙ copied-inside l.vmm.memory buff (start + 0) sizeof_ehdr i low
      ∙ ap (λ (t : ℕ). l.vmm.memory (t + i)) (add-zero start)) in
    rw (h.on_tmpfs, run, ◌>>=◌)
      (
        _,
        refl,
        (
          all,
          moved,
          (
            (λ b out. c b ∙ copied-outside l.vmm.memory buff (start + 0) sizeof_ehdr b out),
            refl,
            refl,
            refl,
            refl,
            refl,
            refl,
            refl,
            refl,
            refl,
            (λ x other. let e : (node == x) ≡ false = ground arith in rw e refl),
            rw (==_self node, file_same, h.on_tmpfs) refl,
          ),
        ),
      )

aux_of : Auxval → Outcome (Bool × Loader) → Auxval
aux_of aux (ok (loaded, l)) = l.aux
aux_of aux halt = aux
aux_of aux fault = aux

refused_loaded :
    (l l' : Loader) → ¬ (◌≡◌ {A = Outcome (Bool × Loader)} (ok (false, l)) (ok (true, l')))
refused_loaded l l' e = absurd cc

module _ (hhdm_offset pagemap node : ℕ) (wants_path : Bool) where
  -- Let the node be a file of tmpfs with a free lock and at least 64 bytes, below 2 ^ 63, that has a
  -- block, and the loader's variable for the header be outside of it. Where the file does not begin
  -- with the identification, the machine and the version of a 64-bit program for x86-64 with the
  -- low byte first, `elf_load` answers false. No frame is taken, no map is changed, and nothing is
  -- written but the variable and the node's offset, which goes on by 64.
  pub elf_load-refused :
      (elf_header program_header : ℕ) (l : Loader)
      → HasHeader l.vfs node elf_header
      → ¬ IsProgram (l.vfs.nodes node).file.data' l.vmm.memory
      → Returns
          (elf_load hhdm_offset pagemap node wants_path elf_header program_header l)
          λ (loaded, l1). (loaded ≡ false) × SameBut node elf_header l l1
  unfolding elf_load
  elf_load-refused elf_header program_header l h other =
      let ((n, l1), run, (all, same, rest)) = read_header l node elf_header h in
      let some_bytes : (n == 0) ≡ false = rw all refl in
      elim (check_headers_iff (l.vfs.nodes node).file.data' l.vmm.memory) [
        | inl (good, program) ↦ absurd (other program)
        | inr (bad, other') ↦
            rw (run, ◌>>=◌, some_bytes, same, bad) ((false, l1), refl, (refl, rest))
      ]

  set_aux-fields :
      (header : Ehdr) (r : Outcome (Bool × Loader)) (l' : Loader)
      → (r >>= set_aux header) ≡ ok (true, l')
      → (l'.aux.at_entry ≡ header.e_entry)
        × (l'.aux.at_phent ≡ header.e_phentsize)
        × (l'.aux.at_phnum ≡ header.e_phnum)
  unfolding aux_of
  set_aux-fields header (ok (true, l)) l' run =
      let set : _ ≡ l'.aux = ap (aux_of l'.aux) run in
      (
        sym (ap (λ (x : Auxval). x.at_entry) set),
        sym (ap (λ (x : Auxval). x.at_phent) set),
        sym (ap (λ (x : Auxval). x.at_phnum) set),
      )
  set_aux-fields header (ok (false, l)) l' run = absurd cc
  set_aux-fields header halt l' run = absurd cc
  set_aux-fields header fault l' run = absurd cc

  -- Let the node be a file of tmpfs as long as a header, with a free lock, below 2 ^ 63, that has a
  -- block, and the loader's variable for the header be outside of it. Where `elf_load` answers true,
  -- the file begins with the identification, the machine and the version of a 64-bit program for
  -- x86-64 with the low byte first, and `aux` has the entry point, the size of a program header and
  -- their number from the places 24, 54 and 56 of the file.
  pub elf_load-loaded :
      (elf_header program_header : ℕ) (l l' : Loader)
      → HasHeader l.vfs node elf_header
      → elf_load hhdm_offset pagemap node wants_path elf_header program_header l ≡ ok (true, l')
      → IsProgram (l.vfs.nodes node).file.data' l.vmm.memory
        × (l'.aux.at_entry ≡ load_bytes 8 ((l.vfs.nodes node).file.data' + 24) l.vmm.memory)
        × (l'.aux.at_phent ≡ load_bytes 2 ((l.vfs.nodes node).file.data' + 54) l.vmm.memory)
        × (l'.aux.at_phnum ≡ load_bytes 2 ((l.vfs.nodes node).file.data' + 56) l.vmm.memory)
  unfolding elf_load
  elf_load-loaded elf_header program_header l l' h loaded =
      let ((n, l1), run, (all, same, rest)) = read_header l node elf_header h in
      let some_bytes : (n == 0) ≡ false = rw all refl in
      let start : ℕ = (l.vfs.nodes node).file.data' in
      elim (check_headers_iff start l.vmm.memory) [
        | inl (good, program) ↦
            let good' : check_headers (read_ehdr elf_header l1.vmm.memory) ≡ true =
              ap check_headers same ∙ good in
            let (entry, size, number) =
              set_aux-fields (read_ehdr elf_header l1.vmm.memory) _ l'
                (rw (run, ◌>>=◌, some_bytes, good') at loaded) in
            (
              program,
              entry ∙ ap (λ (x : Ehdr). x.e_entry) same,
              size ∙ ap (λ (x : Ehdr). x.e_phentsize) same,
              number ∙ ap (λ (x : Ehdr). x.e_phnum) same,
            )
        | inr (bad, other) ↦
            absurd (refused_loaded l1 l' (rw (run, ◌>>=◌, some_bytes, same, bad) at loaded))
      ]
