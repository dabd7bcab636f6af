-- ===== src/Lib.antt =====
-- A model of the core of the FastSystem kernel, with the theorems that make it correct.
--
-- The program is a 32-bit kernel in C. The parts that are modelled:
--
-- - Fat: the FAT16 and FAT32 file system, kernel/fat.c. Fat.Volume is the boot record with the
--   functions from `hasactive` to `neededcluster` that place sectors, clusters and table
--   entries. Fat.Entries is `getnextcluster`, `readcluster` and `writecluster` on a disk,
--   Fat.Chain the chains of clusters: `freechain`, `allocchain`, `chain_length`,
--   `get_nth_cluster` and `resizechain`. Between them stands the record Fat.Table.FatTable: the
--   chains use the table by its operations and laws alone, and Fat.Entries.Implements is
--   about the disk as such a table.
--   Fat.File is the open file: `fat_seek`, `fat_tell`, `fat_rewind`, `fat_eof` and `fat_read`
--   over the chains and the disk. Fat.Write is `fat_write` with `fat_file_zero_range` and
--   `fat_file_update_directory_entry`, which asks the calendar for the date.
--   Fat.LongName is the entries of a file with its long name in a directory:
--   `write_file_directory_entries` and `get_lfn_name`. Fat.Xattr is the extended attributes:
--   `fat_setxattr`, `fat_getxattr` and `fat_removexattr` on the table that they share.
--   Fat.Descriptors is the table of descriptors over open files: `fat_open`, `fat_close` and the
--   handlers from `sys_open_handler` to `sys_write_handler`, with the searches in directories as
--   parameters.
-- - Sched: the scheduler, kernel/fskrnl.c: the task functions, `scheduler_tick`,
--   `find_next_ready` and `schedule` on the table of tasks. Sched.Steps is the machine whose
--   steps these are.
-- - Time: the calendar, kernel/time.c: `gmtime_r`, `mktime`, `localtime` and `time`.
-- - Memory: the bitmap of page frames and the early allocator, kernel/memory.c.
-- - Names: the 8.3 names of files, kernel/fat.c, and the case of letters, kernel/string.c.
--   Names.Utf is `utf8_to_utf16` and `utf16_to_utf8`, which long names go through.
-- - Strings: `strcmp` of kernel/string.c, which finds the attributes.
--
-- The parts meet where the source has them meet: chains call table entries, table entries call
-- the places of the volume, open files call chains, places, the disk and the calendar, and the
-- entries of a long name are made of converted names, checksums and bytes of the disk. The
-- scheduler, the memory and the names keep no state in common.
--
-- Numbers are natural numbers, with `u8`, `u16` and `u32` where the source's type wraps. A disk
-- is a state with the two operations of `Fat.Entries.Device`, which is a parameter: the drivers
-- of the disk are not modelled. Every loop of the source is a recursion: on a list, on the steps
-- that its bound leaves, or on fuel. The chains' loops have the source's own bounds: `freechain`
-- and `chain_length` stop after `fat_max_cluster` rounds, which is enough because a chain has no
-- cluster twice. The loop over years in `gmtime_r` runs for as many rounds as there are days,
-- and one more: every round takes away 365 of them at least. The loops of `fat_read` and
-- `fat_write` run for as many rounds as there are bytes to go, because every round moves one byte
-- at least, and the conversions of names run along the list of bytes or units.
--
-- A long name has the 255 units and the 20 entries of the source at most, and its entries lie in
-- one sector, as the source asks. The table of attributes may have any number of entries, of which
-- the source has 64; the search for a descriptor runs from 8 to 1023.
--
-- `fat_write` and `fat_file_zero_range` call each other. The function is built in two steps, of
-- which the inner one has no gap to fill; Fat.Write.Gap is about that.
--
-- Where C leaves an overflow undefined, in `mktime`, the result is `none`.
--
-- Not modelled: the drivers (ata, ahci, nvme, ehci, pcidev), the boot code and the loaders, the
-- console, the keyboard and the mouse, the entry of the system calls, the paging hardware, the heap, the
-- search in directories. They are input and output, code for one machine, or
-- parts that use those above.
mod Prelude
pub mod Fat
pub mod Sched
pub mod Time
pub mod Memory
pub mod Names
pub mod Strings
