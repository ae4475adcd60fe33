-- ===== src/Joypad/Examples.antt =====
-- A pad with A, Y and Start held.
use reference_workload.Base.{◌≡◌, refl, get_or}
use reference_workload.Joypad.{Joypad, new, write_strobe, read_serial}
use reference_workload.Joypad.Layout.{console_order}
use reference_workload.Joypad.Serial.{reads, read_serial-latch}

unfoldable held : Joypad
unfolding new
held = record new { pad = 0x409; joy1 = 0xFFFF; shift = 5 }

-- Start is the fourth button out.
start_read : get_or (console_order held.pad) 3 1 ≡ 1
unfolding held console_order
start_read = refl

read_serial-latch_example :
    (read_serial (reads 3 (write_strobe 0 (write_strobe 1 held)))).0
    ≡ get_or (console_order held.pad) 3 1
read_serial-latch_example = read_serial-latch 1 0 3 held refl refl
