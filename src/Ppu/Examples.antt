-- ===== src/Ppu/Examples.antt =====
-- Half addition of two colours, and a remapped tile row.
use reference_workload.Base.{◌≡◌, true, arith}
use reference_workload.Ppu.{cgram_color_components_fixed, color_math_op, apply_vram_remap}
use reference_workload.Ppu.Colour.{IsMath, components-color_math_op}
use reference_workload.Ppu.Remap.{restore, restore-apply_vram_remap}

components-color_math_op_example :
    (let (r, g, b) = cgram_color_components_fixed (color_math_op 31 10 0 31 20 7 true true) in
      IsMath true true 31 31 r × IsMath true true 10 20 g × IsMath true true 0 7 b)
components-color_math_op_example =
    components-color_math_op 31 10 0 31 20 7 true true (omega arith) (omega arith) (omega arith)
      (omega arith) (omega arith) (omega arith)

restore-apply_vram_remap_example : restore (apply_vram_remap 0x1234 2) 2 ≡ 0x1234
restore-apply_vram_remap_example = restore-apply_vram_remap 0x1234 2 (omega arith) (omega arith)
