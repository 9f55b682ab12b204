-- ===== src/Initramfs/Tests.antt =====
-- The fields of an archive's headers at concrete bytes.
use flan.Base.{◌≡◌, inr, refl, ◌==◌, if◌then◌else◌, arith}
use flan.Mem.{Memory}
use flan.Initramfs.{oct2int}
use flan.Initramfs.Octal.{oct2int-Digits}

-- "17" at 124, and zero bytes elsewhere.
abbrev text : Memory
text a = if a == 124 then b'1' else if a == 125 then b'7' else 0

oct2int-Digits_example : oct2int 124 12 text ≡ 15
oct2int-Digits_example =
    oct2int-Digits 2 15 12 124 text (omega arith) (omega arith) (omega arith) (refl, (refl, tt))
      (inr refl)
