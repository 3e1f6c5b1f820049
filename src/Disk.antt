-- ===== src/Disk.antt =====
-- drivers/ata.c and kernel/mem.c: sectors in memory and on the disk. `Memory` has the memory
-- blocks, `Drive` the driver, and `Laws` what a read sees of a write.
mod Memory
mod Drive
mod Laws
unfoldable pub use Memory.{
  Buffer, get8, get16, get32, put8, put16, put32, memory_copy, memory_set, add32,
}
unfoldable pub use Drive.{Disk, lba_mod, ata_read, ata_write}
pub use Laws.*
