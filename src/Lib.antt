-- ===== src/Lib.antt =====
-- uhyve is a minimal hypervisor for the unikernel Hermit. It sets up the memory of a guest,
-- loads the kernel, runs it on KVM (or xhypervisor on macOS), and serves its hypercalls, a
-- virtio network card, a pair of shared network rings and a GDB stub. The parts are modelled as
-- functions on explicit states; a panic or a failed index is `none`.
--
-- Prelude: the names that all modules share, Boolean tests, lists, words of 64 and 16 bits, and
--   the bitwise operations (Prelude/Bits).
-- Memory: the memory of the host, a function from addresses to bytes. Words are little-endian. A
--   pointer is an address; a slice is its bytes and its length. Memory/Laws and Memory/Bytes
--   have the laws of loads and stores that do not overlap.
-- Consts: src/consts.rs, the constants that the other parts use.
-- Paging: src/paging.rs, the page table entry. Paging/Masks and Paging/Entry prove its laws.
-- Vm: src/vm.rs. Vm/Gdt is `create_gdt_entry`; Vm/GuestMem is `init_guest_mem`, and
--   Vm/GuestMem/Tables what it leaves in memory. Vm/Hypercalls has the calls on files and
--   `exit`, Vm/Arguments `cmdsize` and `cmdval`. Vm/BootInfo and Vm/Loader are `load_kernel`,
--   and Vm/Frequency the frequency that it hands over.
-- Linux/Vcpu: src/linux/vcpu.rs. Translate has `host_address` and `virt_to_phys`; Translate/Maps
--   states the processor's four-level translation and compares the two; Translate/Identity joins
--   it with the tables of Vm. Port, Machine and Exits are `continue` and `run`: the dispatch of
--   each exit to the hypercalls and to the card. Setup is `setup_long_mode`, and Cpuid the
--   tables of `setup_cpuid`, `setup_msrs` and `init`.
-- Linux/Virtqueue: src/linux/virtqueue.rs, the split queue in memory. Layout, Avail and Used are
--   about `Virtqueue::new`, the iterator and `add_used`.
-- Linux/Virtio: src/linux/virtio.rs. Device has the registers and the reads, Negotiate the
--   writes of the driver, Transmit the notification and the packets. Handshake is about the
--   steps of the status, Valid has the invariant of the card, Serving keeps it through a
--   notification, Invariant through any writes to its ports, and Notify is what a notification
--   sends and gives back. Linux/Vcpu/Exits/Card carries the invariant to the loop of exits.
-- Linux/Network: src/shared_queue.rs and the two threads of `UhyveNetwork::new` in
--   src/linux/uhyve.rs. `send_next` is one turn of the writer, `receive` one of the reader. Ring
--   has the queue that a ring stands for, Fifo the behaviour of the two rings under any interleaving
--   of the threads with a guest that keeps to the protocol of its ends.
-- Linux/KvmVm: src/linux/uhyve.rs, the creation of the machine and its memory around the gap
--   below 4 GiB. Regions is about the memory, Creation about `Uhyve::new` as a whole.
-- Linux/Threads: src/linux/mod.rs, `run_no_gdb`, as a step relation between the states of the
--   threads, of the barrier and of the main thread. Barrier and Halts are about its runs.
-- Arch/Debug: src/arch/x86_64/registers/debug.rs, the four hardware breakpoints.
--   Arch/Debug/Control is `registers`, the debug registers that KVM is given.
-- Linux/Gdb: src/linux/gdb/mod.rs and src/linux/gdb/breakpoints.rs, the debugger's access to
--   memory and its breakpoints, over Linux/Vcpu and Arch/Debug. Gdb/Regs is
--   src/linux/gdb/regs.rs, the registers that the debugger reads and writes. Gdb/Run is how the
--   guest runs under the debugger, and `wait_for_stop_reason`.
-- Macos/IoApic: src/macos/ioapic.rs, the interrupt controller of the macOS side.
-- Macos/Vcpu: src/macos/vcpu.rs, the virtual CPU of the macOS side. Controls has the
--   capabilities of VMX, Boot the start in long mode, Cpuid, Msr and Mmio the emulation of
--   instructions, Output the ports, and Exits `continue` and `run`. Machine has the state and
--   the outcomes, Translate is `virt_to_phys`.
-- Macos/XhyveVm: src/macos/uhyve.rs, the machine of the macOS side and its creation.
-- Macos/Threads: src/macos/mod.rs, `run`, as a step relation between the states of the threads,
--   of the channel and of the main thread.
-- Cli: src/utils.rs and src/bin/uhyve.rs, the parameters that the command line gives. Texts
--   reads numbers and ranges, Numbers and Ranges are about them, Sound about the parameters.
-- Each Tests module runs definitions and theorems on concrete inputs.
--
-- How they interact: Vm writes the tables that Linux/Vcpu walks and Linux/Gdb reads memory
-- through; Linux/Virtio owns the queues of Linux/Virtqueue and reaches guest memory by
-- `host_address`; Linux/Vcpu hands each exit to the hypercalls and the card; Linux/Gdb puts
-- breakpoints into that memory and into the slots of Arch/Debug, and runs the guest by the exits
-- of Linux/Vcpu. Linux/KvmVm writes the boot tables of Vm into its memory, and its `cpu_online`
-- starts the threads of Linux/Threads one by one. Macos/Vcpu uses the hypercalls of Vm and
-- Macos/IoApic.
--
-- Bounds: arithmetic of `usize`, `u64` and `u16` wraps, as in a release build. The iterator over
-- the available ring is run on fuel 2 ^ 16, more than the at most 2 ^ 16 - 1 entries that a
-- 16-bit index can be ahead. The walk of the page tables has its four steps.
--
-- The loop of `write` runs on fuel: the length of the buffer and one more are enough for a host
-- whose every write makes progress. Each `continue` runs over the exits that KVM or xhypervisor
-- reports, a list: a list that ends before the guest stops is an outcome of its own. On Linux the
-- list has no account of what the guest writes to its memory between two exits; on macOS each turn
-- brings the memory that the guest leaves.
--
-- Parameters: a kernel file comes parsed (package goblin), as the record Elf; libc is the record
-- Libc; standard output, the command line, the environment and the channel to the network writer
-- are in the record Surroundings; the tap device and its address (packages tun_tap and
-- mac_address) are the record Host; the encodings of addresses and sizes in the debug registers
-- (package x86_64) are the record Encoding. The locks around the card make its operations
-- atomic. xhypervisor and the stores of its virtual CPU are the records Vcpu and IsStore, the
-- disassembled instruction of an access to the IO-APIC (package burst) is an argument, and so is
-- what CPUID answers (package raw_cpuid). KVM is the record Kvm, the debug control register the
-- record Dr7 with the laws IsFields.
--
-- Not modelled: the argument parser of src/bin/uhyve.rs (package clap), whose result is the record
-- Matches; `run_gdb`, which joins the stub of package gdbstub to a connection; the signals of
-- src/linux/mod.rs beyond the kick that a CPU reports, and what only prints. The guest's ends of
-- the rings are not in this repository: what they may do is the hypothesis of Linux/Network/Fifo.
pub mod Prelude
pub mod Memory
pub mod Consts
pub mod Paging
pub mod Vm
pub mod Linux
pub mod Arch
pub mod Macos
pub mod Cli
