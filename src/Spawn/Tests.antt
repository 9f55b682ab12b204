-- ===== src/Spawn/Tests.antt =====
-- A program's first stack at concrete strings.
use flan.Base.{◌-◌, ◌%◌, ◌≤◌, ◌≡◌, List, [], ◌∷◌, inl, refl, ◌==◌, if◌then◌else◌, Returns, arith}
use flan.Mem.{Memory}
use flan.Str.Chars.{IsString}
use flan.Spawn.{Auxval, first_stack}
use flan.Spawn.Words.{Words, Within}
use flan.Spawn.Strings.{Text, room, addresses, Stand, Outside}
use flan.Spawn.Layout.{words, first_stack_lem}

-- "a" at 16, and zero bytes elsewhere; the stack is from 4096 to 8192.
abbrev text : Memory
text a = if a == 16 then b'a' else 0

abbrev strings : List Text
strings = (16, 1) ∷ []

abbrev auxval : Auxval
auxval = record { at_entry = 0x401000; at_phdr = 0x400040; at_phent = 56; at_phnum = 4 }

text-IsString : IsString text 16 1
text-IsString = record { short = omega arith; end = refl; nonzero = λ i h. ground arith }

text-Outside : Outside text 4096 8192 (omega arith) (omega arith) (16, 1)
text-Outside = record { some = omega arith; is_string = text-IsString; apart = inl (omega arith) }

first_stack_lem_example :
    Returns
      (first_stack 8192 0x70000000000 (addresses strings) (addresses strings) auxval text)
      λ (stack, m).
        (4096 ≤ stack)
        × (stack % 16 ≡ 0)
        × Within 4096 8192 text m
        × Stand 8192 strings text m
        × Stand (8192 - room strings) strings text m
        × Words stack (words 0x70000000000 strings strings auxval) m
first_stack_lem_example =
    first_stack_lem 4096 8192 text (omega arith) (omega arith) strings strings auxval 0x70000000000
      (text-Outside, tt) (text-Outside, tt)
      (record { entry = omega arith; phdr = omega arith; phent = omega arith; phnum = omega arith })
      (λ b low high. ground arith) (omega arith) (omega arith) (omega arith)
