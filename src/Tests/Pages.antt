-- ===== src/Tests/Pages.antt =====
-- Physical memory in which a byte's value is its address.
use uberos.Prelude.{ℕ, ◌-◌, ◌≡◌, some, ◌&&◌, leb, ltb, if◌then◌else◌, arith}
use uberos.Stdlib.Memory.{Bytes}
use uberos.Physical.{read_physical, write_physical}
use uberos.Physical.Read.{ReadAll, read_physical-ReadAll}
use uberos.Physical.Write.{write_physical-page}

abbrev numbered : Bytes
numbered a = a

abbrev blank : Bytes
blank a = 0

read_physical-ReadAll_example :
    ReadAll numbered 8000 5000 blank (read_physical 4 numbered 8000 5000 blank)
read_physical-ReadAll_example =
    read_physical-ReadAll 4 numbered 8000 5000 blank (ground arith) (ground arith)

write_physical-page_example :
    (after : Bytes) × (write_physical 1 numbered 8000 10 blank ≡ some after)
    × ((a : ℕ) → after a ≡ (if leb 8000 a && ltb a 8192 then numbered (a - 8000) else blank a))
write_physical-page_example =
    write_physical-page 0 numbered 8000 10 blank (ground arith) (ground arith)
