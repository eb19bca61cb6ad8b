-- ===== src/Boot/Tests.antt =====
-- Sections of a few bytes.
use multicore_rtos.Base.{◌+◌, refl, inl, arith}
use multicore_rtos.Boot.{Bytes, copy_data, Copied, copy_data-Copied}

abbrev flash : Bytes
flash a = a + 3

copy_data-Copied_example : Copied 3 100 200 flash (copy_data 9 100 200 203 flash)
copy_data-Copied_example =
    copy_data-Copied 3 9 100 200 203 flash (omega arith) (inl (omega arith)) refl
