-- ===== src/Disk/Drive.antt =====
-- drivers/ata.c, for the one sector that every caller asks for. The registers take 28 bits of
-- the block address. The drive itself is a function from a block to its bytes.
use yoz_os.Base.{ℕ, ◌%◌, ◌^◌, ◌==◌, if◌then◌else◌}
use yoz_os.Disk.Memory.{Buffer}

abbrev pub Disk : Type 0
Disk = ℕ → Buffer

-- What LBA_LO, LBA_MID, LBA_HI and the low half of DRIVE hold of a block address.
abbrev pub lba_mod : ℕ
lba_mod = 2 ^ 28

unfoldable pub ata_read : Disk → ℕ → Buffer
ata_read d lba = d (lba % lba_mod)

unfoldable pub ata_write : Disk → ℕ → Buffer → Disk
ata_write d lba buff block = if block == lba % lba_mod then buff else d block
