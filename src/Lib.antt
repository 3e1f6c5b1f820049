-- ===== src/Lib.antt =====
-- YozOs is an operating system for the i686: a FAT16 file system on an ATA drive, a layer of open
-- files over it, and the memory and processes below the user programs. This library models parts
-- of it, as functions that pass the state on, and proves what makes them correct.
--
-- The parts and their files:
--   Base         names that the other modules share: tests, lists with native numbers, options.
--   Disk         kernel/mem.c and drivers/ata.c. A buffer is a function from offsets to bytes, a
--                disk a function from blocks to buffers. `ata_read` and `ata_write` move one
--                sector, as all callers ask, and take 28 bits of the block address.
--   Fat          fs/fat.c. Volume: the static variables and `fs_init`, and in Bpb the structure
--                `bpb_t` of the boot sector byte by byte. Name: 8.3 names. Entry:
--                `dir_entry_t` and the tests on it. Table: `fat_entry`, `fat_set_entry`,
--                `fat_find_free`, `count_free_clusters`, `free_chain`. Dir: the searches in
--                directories and `dir_write_entry`. Path: `path_next_component` and
--                `resolve_parent_dir`. Read: `fat_stat_file`, `fat_read_file_at`,
--                `fat_read_file`. Create: `fat_create_file`, `fat_mkdir`, `fat_delete_file`,
--                `fat_rename_file`, `fat_rmdir`. Write: `fat_write_file`. Patch:
--                `fat_write_file_at`. Append: `fat_append_file`. Outcome: how a call ends, with
--                the disk that it leaves.
--   Vfs          fs/vfs.c. Files: `open_files` and the disk. Calls: `vfs_open_at`, `vfs_read`,
--                `vfs_write`, `vfs_lseek`, `vfs_close`, `vfs_stat_at`, which call those of Fat.
--   Memory       Frames is memory/frame_alloc.c: the bitmap, `init_frames`, `alloc_frame`,
--                `free_frame`. Paging is memory/paging.c: the memory as one buffer, in which the
--                page directories and the page tables lie as words, with the frames and the spaces;
--                `address_space_map_page`, `address_space_user_pages_ok`,
--                `address_space_mark_user_range`, `init_paging`, and in Spaces
--                `address_space_create_user`, `address_space_destroy`, `address_space_switch`.
--   Elf          elf/elf.c: the fields of an image, `elf32_header_ok` and
--                `elf32_program_headers_ok`.
--   Task         task/task.c. Store: the tasks with their `next` pointers and the other variables.
--                Calls: `schedule`, `add_task`, `create_task`, `task_remove`, `task_reap_exited`,
--                `task_alloc`, `spawn_task`, `task_kill`. The stack of a new task and the switch
--                of contexts and address spaces are left out; the result of
--                `kernel_address_space()` is an argument.
--   User         cpu/user_mode.c. Store: `Machine`, the process table with the state of the parts
--                below, which the calls of this part share. Access: `user_memory_ok`, and the memory
--                behind a user pointer, through the tables of the space that is loaded. Table: the
--                calls on the process table, `user_process_kill_pid`, `user_process_reap`,
--                `user_waitpid_status`. Fds: the descriptors, which call those of Vfs. Stack: the
--                arguments and the first stack. Image: the pages of a flat binary. Page and
--                Segments: those of an ELF image. Run: `run_user_process` in two steps, since
--                `user_context_save` returns twice, `user_exit_current`, `user_fault_current`.
--                Both go back by `user_context_restore` of cpu/user_return.asm to the one context
--                that is saved, that of the current process.
--                Start: `run_user_file`, `run_user_elf_file`, `user_check_elf_file`. Builtin: the
--                test programs that are linked into the kernel.
--   Syscall      cpu/syscall.c: `syscall_handler` with each of its calls.
--   Screen       drivers/screen.c: the registers of the cursor and the video memory; `print_char`,
--                `print_at`, `clear_screen`, `print_backspace`, `handle_scrolling`. The display
--                keeps the byte that a register got last. The messages of the other parts are not
--                printed on it.
--   Keyboard     drivers/keyboard.c: `keyboard_callback`, which shows the keys on Screen, with
--                `append` and `backspace` of kernel/string.c. The scan code is an argument.
--   Shell        shell/shell.c: `shell_resolve_path`, `cmd_cd`, which calls Vfs, and `parse_u32`.
--   Tests        a small volume with one file, a machine with two processes, and the theorems at
--                them.
-- The modules below a part hold its proofs, and are named for what they prove.
--
-- Numbers. A u32, u16 or u8 is a native number; the wrap of an addition is written out where the
-- code relies on it or does not rule it out. A `char *` is the list of its bytes in front of the
-- zero, and a null pointer to a string is the empty one, which takes the same branches. The calls
-- of fs/vfs.c return an int: `int_reply` makes a u32 one, which is negative from 2 ^ 31 on.
--
-- Loops. Those with a bound are structural recursion on the number of rounds left. `free_chain`
-- has fuel for one round per u16 cluster and one more, which is enough on every disk, since each
-- round clears an entry that was not 0. `resolve_parent_dir` has fuel for each byte of the path,
-- which is enough too. The read loop has fuel for one round per byte up to the end of what is
-- asked for: a round on a volume with a sector in a cluster moves the position. A walk along a
-- cyclic chain, which the code does not leave, and a division by zero are `stuck`. The walks along
-- the ring of tasks have fuel for its 18 tasks. The loops over the pages of a range have a round
-- for each page of the space, and the loop over the pages of a segment one for each frame that a
-- process can have, and one more.
--
-- Well-formed volume (Fat.Volume.Bounds.IsVolume): the widths of the boot sector's fields, a copy
-- of the FAT, a sector in a cluster, at most 255 sectors in a FAT copy, and the regions in order.
--
-- User pointers. The kernel follows a user pointer through the tables of the space that is loaded;
-- frames it reaches at their own addresses. An address that is not mapped would fault; the code
-- follows only pointers that `user_memory_ok` has accepted.
--
-- Not modelled: what prints (`fs_ls_path`, `fs_cat` and the other commands of fs/fat.c,
-- `user_process_dump` and the messages of cpu/user_mode.c), `run_user_test` and
-- `run_user_fault_test`, whose process is not in the table, the ports of the drive, the other
-- commands of shell/shell.c, the other functions of kernel/string.c, the owner of the keyboard, and
-- the hardware and assembly parts. The address to which `enter_user_mode` jumps and the kernel stack in the TSS are
-- not in the state. A program is a value of its process, where the code has a pointer to one: the
-- two linked programs are not shared, and each run sets its stack before it uses it.
pub mod Base
pub mod Disk
pub mod Elf
pub mod Fat
pub mod Vfs
pub mod Memory
pub mod Task
pub mod User
pub mod Screen
pub mod Keyboard
pub mod Shell
pub mod Syscall
mod Tests
