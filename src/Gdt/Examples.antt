-- ===== src/Gdt/Examples.antt =====
-- The theorem on descriptors at one of a code segment.
use fantom_os.Base.{arith}
use fantom_os.Gdt.{segment}
use fantom_os.Gdt.Laws.{Describes, segment-Describes}

segment-Describes_example :
    Describes (segment 0x12345678 0xFFFFF 0x9A 0xCF) 0x12345678 0xFFFFF 0x9A 0xCF
segment-Describes_example = segment-Describes 0x12345678 0xFFFFF 0x9A 0xCF (omega arith)
