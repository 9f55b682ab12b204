-- ===== src/Spawn.antt =====
-- proc/sched.c: how processes and threads are made, and the stack that a program starts with.
pub mod Words
pub mod Strings
pub mod Layout
mod Tests
use flan.Base.{
  ℕ, zero, suc, ◌+◌, ◌-◌, ◌*◌, ◌/◌, ◌%◌, ◌^◌, bit_or, Bool, true, false, List, [], ◌∷◌, ◌++◌,
  Outcome, ok, halt, fault, ◌>>=◌, ◌==◌, ltb, leb, if◌then◌else◌, length,
}
use flan.Base.Words.{add64, sub64, align_up, align_down}
use flan.Lock.{lock_init}
use flan.Mem.{Memory, memcpy}
use flan.Mem.Word.{store64}
use flan.Pmm.{frame_size, pmm_alloc}
use flan.Sched.{Thread, Threads, Sched, put, sched_enqueue_thread}
use flan.Str.{strlen}
use flan.Vmm.{Vmm, pte_present, pte_writable, pte_user, vmm_map_pages}

-- `STACK_SIZE` of sys/cpu.h, `TIME_QUANTUM` of proc/sched.h
abbrev pub stack_size : ℕ
stack_size = 0x10000

abbrev pub time_quantum : ℕ
time_quantum = 3

-- `struct auxval` of lib/elf.h, and the tags of its entries, which come from a C header.
pub record Auxval : Type 0 where
  pub at_entry : ℕ
  pub at_phdr : ℕ
  pub at_phent : ℕ
  pub at_phnum : ℕ

abbrev pub tag_phdr : ℕ
tag_phdr = 3

abbrev pub tag_phent : ℕ
tag_phent = 4

abbrev pub tag_phnum : ℕ
tag_phnum = 5

abbrev pub tag_entry : ℕ
tag_entry = 9

-- The stack pointer and the memory, in the loops that copy the strings down from the top. The zero
-- byte behind a string is not copied.
unfoldable pub copy_strings : List ℕ → ℕ → Memory → Outcome (ℕ × Memory)
copy_strings [] stack m = ok (stack, m)
copy_strings (s ∷ ss) stack m = do
  length ← strlen s m
  let stack' = sub64 (sub64 stack length) 1
  m' ← memcpy stack' s length m
  copy_strings ss stack' m'

-- `*(--stack) = value`
abbrev pub push : ℕ → ℕ × Memory → ℕ × Memory
push value (stack, m) = (sub64 stack 8, store64 (sub64 stack 8) value m)

-- `stack -= 2; stack[0] = tag, stack[1] = value`
abbrev pub push_pair : ℕ → ℕ → ℕ × Memory → ℕ × Memory
push_pair tag value (stack, m) =
    (sub64 stack 16, store64 (sub64 stack 16 + 8) value (store64 (sub64 stack 16) tag m))

-- The loops that write the strings' addresses from `stack` on.
unfoldable pub write_pointers : List ℕ → ℕ → ℕ → Memory → Outcome (ℕ × Memory)
write_pointers [] old_rsp stack m = ok (old_rsp, m)
write_pointers (s ∷ ss) old_rsp stack m = do
  length ← strlen s m
  let rsp = sub64 old_rsp (add64 length 1)
  write_pointers ss rsp (stack + 8) (store64 stack rsp m)

-- `*(--stack) = 0`, room for the addresses, and the loop.
unfoldable pub push_strings : List ℕ → ℕ → ℕ × Memory → Outcome (ℕ × ℕ × Memory)
push_strings strings old_rsp (stack, m) = do
  let stack' = sub64 (sub64 stack 8) (8 * length strings)
  (rsp, m') ← write_pointers strings old_rsp stack' (store64 (sub64 stack 8) 0 m)
  ok (rsp, stack', m')

-- The auxiliary vector, from its end down.
unfoldable pub push_auxiliary : Auxval → ℕ × Memory → ℕ × Memory
push_auxiliary aux stack = push_pair tag_phnum aux.at_phnum (
    push_pair tag_phent aux.at_phent
      (push_pair tag_phdr aux.at_phdr (push_pair tag_entry aux.at_entry (push 0 (push 0 stack)))))

-- The stack of a process's first thread, from its top down, with the arguments and the environment
-- as lists of their strings' addresses. `top` is where the kernel sees the stack's end, and `rsp`
-- where the program does. The results are the stack pointer and the memory.
unfoldable pub first_stack : ℕ → ℕ → List ℕ → List ℕ → Auxval → Memory → Outcome (ℕ × Memory)
first_stack top rsp argv envp aux m = do
  (stack1, m1) ← copy_strings envp top m
  (stack2, m2) ← copy_strings argv stack1 m1
  let stack3 = align_down stack2 16
  let odd = (length argv + length envp + 1) % 2 == 1
  let stack4 = if odd then sub64 stack3 8 else stack3
  (rsp1, stack5, m5) ← push_strings envp rsp (push_auxiliary aux (stack4, m2))
  (rsp2, stack6, m6) ← push_strings argv rsp1 (stack5, m5)
  ok (push (length argv) (stack6, m6))

-- The registers of a saved frame that are set here; the others are cleared.
pub record Frame : Type 0 where
  pub es : ℕ
  pub ds : ℕ
  pub rdi : ℕ
  pub rip : ℕ
  pub cs : ℕ
  pub rflags : ℕ
  pub rsp : ℕ
  pub ss : ℕ

-- `process_t`; `threads` has the threads that were pushed to its vector, and `top` is
-- `pagemap->top`.
pub record UserProcess : Type 0 where
  pub top : ℕ
  pub threads : List ℕ
  pub thread_stack_top : ℕ
  pub anon_base : ℕ
  pub cwd : ℕ

-- `sched_process`, without the calls of the heap and of the vectors. The working directory is
-- `root`.
unfoldable pub sched_process : ℕ → ℕ → UserProcess
sched_process top root = record {
  top = top;
  threads = [];
  thread_stack_top = 0x70000000000;
  anon_base = 0x80000000000;
  cwd = root;
}

-- What the making of a thread changes; `frames` has the saved frames by their addresses.
pub record Spawn : Type 0 where
  pub sched : Sched
  pub vmm : Vmm
  pub frames : ℕ → Frame
  pub process : UserProcess

abbrev pub put_frame : (ℕ → Frame) → ℕ → Frame → ℕ → Frame
put_frame frames a frame b = if a == b then frame else frames b

-- The thread as `kheap_calloc` clears it and the function fills it; `state` is its frame.
abbrev pub new_thread : ℕ → ℕ → ℕ → Thread
new_thread state process cr3 = record {
  prev = 0;
  next = 0;
  cr3 = cr3;
  running = false;
  process = process;
  lock = lock_init;
  state = state;
  timeslice = time_quantum;
  enqueued = false;
  blocked = false;
  gs_base = 0;
}

module _ (hhdm_offset : ℕ) where
  -- The last three lines of both functions. The numbers are the addresses of the thread, of its
  -- frame and of the process.
  unfoldable pub start_thread : ℕ → ℕ → ℕ → Frame → Spawn → Outcome (ℕ × Spawn)
  start_thread thread state process frame k = do
    let threads =
        put k.sched.threads thread (new_thread state process (sub64 k.process.top hhdm_offset))
    (started, sched) ← sched_enqueue_thread thread (record k.sched { threads = threads })
    ok (
      thread,
      record k {
        sched = sched;
        frames = put_frame k.frames state frame;
        process = record k.process { threads = k.process.threads ++ thread ∷ [] };
      },
    )

  -- `thread` and `state` are what `kheap_calloc` answers; a null pointer is an undefined access.
  unfoldable pub sched_kernel_thread : ℕ → ℕ → ℕ → ℕ → ℕ → Spawn → Outcome (ℕ × Spawn)
  sched_kernel_thread thread state process start args k =
      if thread == 0 then fault else if state == 0 then fault else do
        (stack, pmm, memory) ← pmm_alloc hhdm_offset stack_size k.vmm.pmm k.vmm.memory
        start_thread thread state process
            (record {
              es = 0x30;
              ds = 0x30;
              rdi = args;
              rip = start;
              cs = 0x28;
              rflags = 0x202;
              rsp = add64 (add64 stack stack_size) hhdm_offset;
              ss = 0x30;
            })
            (record k { vmm = record k.vmm { pmm = pmm; memory = memory } })

  unfoldable pub sched_user_thread :
      ℕ → ℕ → ℕ → ℕ → ℕ → List ℕ → List ℕ → Auxval → Spawn → Outcome (ℕ × Spawn)
  sched_user_thread thread state process start arg argv envp aux k =
      if thread == 0 then fault else if state == 0 then fault else do
        (stack_phys, pmm, memory) ← pmm_alloc hhdm_offset stack_size k.vmm.pmm k.vmm.memory
        let pages = align_up stack_size frame_size / frame_size + 1
        vmm ←
            vmm_map_pages hhdm_offset k.process.top stack_phys
              (sub64 k.process.thread_stack_top stack_size)
              (bit_or (bit_or pte_present pte_writable) pte_user) pages
              (record k.vmm { pmm = pmm; memory = memory })
        let rsp = k.process.thread_stack_top
        let top = add64 (add64 stack_phys stack_size) hhdm_offset
        (stack, m) ←
            if length k.process.threads == 0
            then first_stack top rsp argv envp aux vmm.memory
            else ok (top, vmm.memory)
        start_thread thread state process
            (record {
              es = 0x3b;
              ds = 0x3b;
              rdi = arg;
              rip = start;
              cs = 0x43;
              rflags = 0x202;
              rsp = sub64 rsp (sub64 top stack);
              ss = 0x3b;
            })
            (record k {
              vmm = record vmm { memory = m };
              process = record k.process { thread_stack_top = sub64 rsp (stack_size - frame_size) };
            })
