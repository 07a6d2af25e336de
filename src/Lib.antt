-- ===== src/Lib.antt =====
-- Verification of the aijak kernel: its linked lists, memory management, processes, locks,
-- interrupts, drivers, text display, strings, formatting, file system and network stack.
--
-- The parts and how they interact. The kernel keeps its lists as rings of links inside other
-- structures (include/link.h); the heap (src/memory/malloc.c) serves the network buffers, the
-- routes and most other objects. A frame comes from the Ethernet driver to `eth_recv`, which
-- hands it to `arp_recv` or `ipv4_recv`; the latter hands echo requests to `icmp_recv`, whose
-- reply goes through `ipv4_send`, the routing table and `eth_send_intf`, which asks the ARP cache
-- for the Ethernet address and lets a packet wait there while an ARP request is open.
--
-- The timer's interrupt switches to the next process of the ring that src/tasking.c keeps; the
-- same file creates processes on the heap and ends them. Drivers reach their devices through the
-- ports of src/system.c, and stop the switches during a transfer.
--
-- Common            conditionals and tests on numbers, lists, machine words, bit operations
-- Link              include/link.h: the links of all nodes are two functions from addresses, one for
--                   `next` and one for `prev`; Link.Ring says what list of nodes a ring stands for
-- Memory.Bytes      byte memory, the accesses of the compiler, `memset` of src/memory/memutils.c
-- Memory.Copy       `memcpy` and `memset16` of src/memory/memutils.c
-- Memory.Heap       `malloc` and `free` of src/memory/malloc.c: the globals are a record with the
--                   memory; a panic is the outcome `fatal`
-- Memory.Heap.*     the blocks that a heap stands for, and what the two functions do to them
-- Memory.Pages      `mm_init`, `pmalloc` and `pfree` of src/memory/malloc.c
-- Memory.Paging     src/memory/paging.c; Memory.Paging.Identity has the translation of an address
-- Mutex             src/mutex.c: a round of the lock, for what `eax` holds at the exchange
-- Keyboard          src/drivers/keyboard.c: the cache of waiting keys; Keyboard.Board is the driver
--                   with its port, its interrupt and its initialisation
-- Display           src/display/textmode/dispi_textmode.c: the console and the screen in memory
-- Display.Print     `kprintf` of src/display/display.c, Display.Table the table of displays
-- Str               src/string.c, `strtok` in Str.Tokens; a pointer is the list of the bytes from its
--                   address on, and an access behind the end of the object is `none`
-- Str.Number        `itoa` and `uitoa` of src/util.c
-- Net.Swap          include/net/swap.h
-- Net.Checksum      src/net/checksum.c
-- Net.Route         src/net/route.c, over Link
-- Net.Packet        the structures of include/net/buf.h and include/net/intf.h
-- Net.Buffers       src/net/buf.c, the list of free buffers over Link and the heap
-- Net.Interfaces    src/net/intf.c
-- Net.Addr          equality of addresses, src/net/addr.c
-- Net.Addr.Text     the same file, addresses as text
-- Net.Eth           frames of src/net/eth.c
-- Net.Arp           the ARP cache of src/net/arp.c, and the state of the network stack
-- Net.Arp.Send      src/net/arp.c and `eth_send_intf` of src/net/eth.c, which call each other
-- Net.Ipv4          headers of src/net/ipv4.c
-- Net.Icmp          src/net/icmp.c, with `ipv4_send`, `ipv4_recv` and `eth_recv`
-- Format            `vsnprintf` of src/stdlib/format.c; Format.Render is the text without a buffer
-- Format.Scan       `vsscanf` of the same file
-- Timer             src/pit.c
-- Tasking           src/tasking.c, the ring of processes over the links of Link
-- Tasking.Create    the creation of processes, Tasking.Reaper the process that frees zombies
-- Tasking.Switch    the registers that a switch pushes and pops
-- Ports             the port instructions of src/system.c, with the hardware as a parameter
-- Mmio              src/memory/mmioutils.c, with the registers as a parameter
-- Pci               src/drivers/pci.c
-- Ata               src/drivers/ata.c, Ata.Probe the search for the drives
-- E1000             src/drivers/intel_e1000.c: the receive ring and the poll; E1000.Send the transmit
--                   ring, E1000.Address the Ethernet address, E1000.Init the start. What the protocols
--                   do with a packet, and what the device does meanwhile, are parameters
-- Interrupt         src/interrupt/: idt.c, irq.c and isr.c
-- Vfs               src/fs/vfs.c, with `vfs_ls` in Vfs.Listing, and src/device.c in Vfs.Devices
-- Vga               src/vga.c: the registers of the graphics mode and its screen
-- Shell             src/kshell.c: a round of the shell, from the keys to the actions of a command
-- Tests             concrete inputs
--
-- Numbers are natural numbers, with the wrap-around of the machine's words written out where the
-- source can meet it. The word size is 32 bits and the byte order little-endian, as on the i386
-- that the Makefile names.
--
-- Bounds and fuel. `malloc` takes a bound on the rounds of its loop, and its outcome `diverged`
-- says that the bound was met; more rounds than the heap has blocks are enough. The loops over
-- the routing table take a bound on the nodes in the same way. `uitoa` has 33 rounds for the 32
-- bits of its argument. The loop of `str_reverse` has as many rounds as the string has
-- characters. The loops over a format have its length, as each round reads a character. The
-- digits of `_outdec` and `_outhex` have the 31 bytes of their buffer, which 32 bits do not fill.
-- The loops over the ring of processes take a bound, for which the number of processes is enough.
-- A poll of the Ethernet driver takes a bound on its looks at a descriptor, for which 33 are
-- enough once the device is quiet. The loops that wait for a drive, for the EEPROM or for a
-- packet to be sent, and the search for a mount have no bound in the source; `endless` says that
-- the rounds given did not finish them. All other loops are recursions on a list or on a count.
--
-- What is not modelled. Functions that only print (`mm_print_out`, `arp_print`,
-- `arp_dump_entries`, `eth_print`, `ipv4_print`, `icmp_print`, `tasking_print_all`, `list_mount`,
-- `device_print_out`) and the messages of the others. In the protocols `net_alloc_buf` returns a
-- new buffer whose old bytes are arbitrary; the list of free buffers is that of the driver, and
-- no protocol of the model runs as its receiver. The processes that run while `mprint` waits for
-- its mutex are an argument of `_kill`. The mutexes in `memcpy`, `kprintf` and
-- `keyboard_get_key`. The links of a packet buffer and its fields for TCP, which the modelled
-- code does not read. `_sleep`, which computes with floats, the start sequence of src/kernel.c,
-- and the 64-bit accesses of src/memory/mmioutils.c, which nothing calls. The bytes of a process
-- structure, whose fields stand beside the memory. Assembly, but for the registers that a switch
-- of processes moves.
pub mod Common
pub mod Interrupt
pub mod Keyboard
pub mod Link
pub mod Ata
pub mod Display
pub mod E1000
pub mod Format
pub mod Memory
pub mod Mmio
pub mod Mutex
pub mod Net
pub mod Pci
pub mod Ports
pub mod Shell
pub mod Str
pub mod Tasking
pub mod Timer
pub mod Vfs
pub mod Vga
pub mod Tests
