-- ===== src/Lib.antt =====
-- Models of AgentOS, a bare-metal x86-64 kernel written in Rust, and of what makes its parts
-- correct.
--
-- The kernel boots into a shell on one machine. A table of agent processes
-- (agentos-kernel/src/scheduler/) and a table of cache blocks
-- (agentos-kernel/src/memory/kv_allocator.rs) are changed by the shell and by system calls
-- (agentos-kernel/src/syscall.rs), which check every pointer of a caller against the page
-- tables (agentos-kernel/src/memory/paging.rs) before a layer of a network is evaluated
-- (agentos-kernel/src/tensor_engine.rs). Files are on FAT volumes (agentos-kernel/src/fat12.rs,
-- fat32.rs, fat_common.rs, partition.rs), with time stamps from the clock
-- (agentos-kernel/src/rtc.rs). Packets are built and parsed in agentos-kernel/src/net/. Keys
-- arrive at agentos-kernel/src/keyboard.rs.
--
-- Prelude: shared names. The numbers are natural numbers; a machine integer keeps its
-- wrap-around (u8, u16, u32), a saturating operation its bound, and a subtraction stands where
-- the source cannot underflow. A byte is a number below 256. Prelude.Bits relates the bit
-- operations to arithmetic.
--
-- Scheduler: Scheduler.Process is scheduler/process.rs, Scheduler.Agent is
-- scheduler/agent_scheduler.rs with its 32 slots (`spawn`, `schedule_next`, `update_process`,
-- `set_kv_block_id`, `clear_kv_block_id_if_matches`, `add_tokens_used`), Scheduler.Tier the
-- choice between task slots in scheduler/tier_select.rs, and Scheduler.Multitask the parking
-- and resuming of ring-3 contexts in scheduler/ring3_mt.rs (`tick`, `task_done`,
-- `run_multitasking`), over memory that is bytes at addresses (Scheduler.RawMemory), where
-- contexts are 160 bytes. Scheduler.Intercept is the one interception of
-- scheduler/ring3_preempt.rs, over the same memory. Scheduler.Preempt is the timer tick of
-- scheduler/preemptive.rs, where the assembly that swaps stack pointers stores one and returns
-- the other. The pid counter of the source wraps at 2 ^ 32; it is at most 33 here, since a
-- process is never removed.
--
-- Memory: Memory.Kv is memory/kv_allocator.rs with its 128 blocks; Memory.Paging holds the
-- range checks of memory/paging.rs, over page tables that are a parameter; Memory.Frames is
-- memory/frame_allocator.rs over the bootloader's memory map, a list of regions.
--
-- Tensor: tensor_engine.rs, over an arbitrary type of numbers in place of `f32`, with no law of
-- arithmetic assumed. An index out of range is the value `none`. Tensor.Gguf is the parser of
-- the header and the tensor entries in gguf_loader.rs, where the check for UTF-8 is a
-- parameter.
--
-- Syscall: `dispatch_syscall` of syscall.rs over the two tables and the memory that raw
-- pointers reach, a parameter. A panic is the value `none`.
--
-- Net: Net.Checksum and Net.Icmp are net/icmp.rs, Net.Tcp net/tcp.rs, Net.Udp net/udp.rs and
-- Net.Dns net/dns.rs. The carry loop of the checksum has two rounds of fuel, which a 32-bit sum
-- never exceeds; the loop over the labels of a name has one round for each byte of the message,
-- and each round moves on by at least one.
--
-- Fat: Fat.Common is fat_common.rs, Fat.Entries the entries that fat12.rs writes for a name,
-- Fat.Table its table of 12-bit entries, cached and on disk, Fat.Chain the loops over a chain
-- of clusters (following, laying data, reading, freeing), Fat.Directory the sectors and slots
-- of a directory, Fat.Files the operations that create, write, read and delete, Fat.Fat32 the
-- reader of fat32.rs, Fat.Volume the boot sectors of partition.rs, fat12.rs and fat32.rs, and
-- Fat.Datetime the clock of rtc.rs with the time stamps. A name is the list of its bytes where
-- entries are built, and of the characters' codes where they are read; the two are the same for
-- ASCII, which is all that the keyboard can produce, and the results on names that are written
-- and read ask for it. The disk driver is a parameter: what a sector number reads as, and what
-- a write makes of the disk; Fat.Table.Reliable states what a disk does that does not fail. A
-- loop over a chain has fuel, one for each cluster: the source has no bound, and walks a chain
-- that runs in a circle for ever. `still_running` is the result when the fuel is used up; the
-- results on chains ask for as much fuel as the chain has clusters.
--
-- Keyboard: `handle_scancode` of keyboard.rs; the screen and the shell are a list of effects.
--
-- Not modelled: boot code and self-tests (main.rs), the assembly, page tables and entry paths
-- of ring 3 (ring3.rs, gdt.rs, memory/user_page.rs, scheduler/context_switch.rs), the set-up of
-- the preemption demonstration, device drivers (ata.rs, pci.rs, serial.rs, vga_buffer.rs,
-- interrupts.rs, net/e1000.rs, net/virtio.rs), the heap, the shell, the rest of the GGUF
-- loader, and the TypeScript simulator in src/. Of what a disk error in the middle of an
-- operation leaves behind, nothing is said.
pub mod Prelude
pub mod Scheduler
pub mod Memory
pub mod Tensor
pub mod Syscall
pub mod Net
pub mod Fat
pub mod Keyboard
