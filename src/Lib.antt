-- ===== src/Lib.antt =====
-- Verification of wasabi, the kernel under HelloWorld/wasabi/src.
--
-- The kernel leaves the UEFI firmware with the memory map (uefi.rs), builds its heap on it
-- (allocator.rs), finds the configuration space in the ACPI tables (acpi.rs) and the USB host
-- controller on PCI (pci.rs), and drives it (xhci.rs) through registers (volatile.rs, bits.rs) and
-- rings of transfer request blocks in memory; on it stand the USB drivers (usb.rs, keyboard.rs,
-- tablet.rs). The drivers are tasks of an executor (executor.rs), which reads the time from the HPET
-- (hpet.rs). Shared state is behind a mutex (mutex.rs), the page tables and the descriptors of
-- interrupts are those of x86.rs, and the screen is drawn in the firmware's frame buffer (graphics.rs).
--
-- - Prelude: the library's names that all modules use, tests on numbers, lists under native
--   indices, and `Result` with one constructor for each error text.
-- - Words: the operators of a machine word, and lemmas on powers of two and masks.
-- - Volatile: `write_bits`, `read_bits` and `extract_bits` on words of `w` bits.
-- - Uefi: the memory map and its iterator. The bytes of the map are a function from an offset to the
--   descriptor there; the fuel of the loop is the map's size, and one step reads a descriptor.
--   Vram has the frame buffer, and Config the configuration table and the last calls of the boot
--   services, whose fuel is the number of rounds.
-- - Allocator: the first-fit heap. The linked list of headers is a list in the order of the
--   links; `alloc_with_options`, `dealloc` and `init_with_mmap` are functions on it. Its
--   specification is a bag of live blocks.
-- - Xhci: the driver. Trb has the transfer request blocks, Ring the command and transfer rings, Event
--   the event ring with its waiters, Context the contexts, Port the port registers and the doorbells,
--   Regs the capability and operational registers, Scratchpad the allocation of the scratchpad buffers
--   with the heap as a function from an allocation's number and its layout to an address, Controller the
--   control requests and Commands the commands, which push on a ring, ring a doorbell and register a waiter. A ring has the address it
--   stands at as a field.
-- - Pci: identifiers of functions, configuration registers and BAR0. The accesses to the
--   configuration space are the parameter `ConfigSpace`, since the devices answer them. The fuel
--   of the loop over the identifiers is above 65536, their number. Attach has how the driver of the USB
--   host controller takes its device over, with the page table as an argument.
-- - Acpi: the search for a table in the XSDT, whose fuel is one more than the number of its entries,
--   the entries of MCFG, and the tables that the root pointer leads to. The tables in memory are
--   functions of the index or of the address.
-- - Usb: the descriptors of a device, their iterator, on fuel, the choice of an interface, and the
--   test of a tablet. No fuel is enough for an iterator that meets a descriptor of length 0.
-- - Keyboard: the characters of the keys (`KeyEvent`). Keyboard.Driver has the sets of pressed keys, a
--   `BTreeSet` as an ascending list, and the changes that the driver logs for a sequence of reports.
-- - Enumeration: the tasks that find a device and drive it (`run`, `init_port`, `address_device` in
--   xhci.rs, the requests in usb.rs, `start_usb_keyboard`, `start_usb_tablet`) as trees of calls to the
--   registers, the controller and the device. A `Device` answers the calls, and its answers may depend
--   on all that has happened; a call without an answer is the end of a prefix of the run. Order has
--   the state machine that the calls keep to. A loop that may go on for ever is followed for a number
--   of rounds, and the program is then `running`. Start and Started have `Controller::new` on the same
--   calls, and Machine the programs that keep to a state machine.
-- - Boot: the page tables that the kernel makes from the memory map (init.rs), the amount of memory, and
--   the start of the timer and of PCI from the ACPI tables.
-- - Mutex: the flag and the data of a `Mutex<T>`, for one thread, and threads that take their steps in
--   any order. A thread may panic while it has the guard, and then keeps it, since nothing unwinds.
-- - Paging: an entry of a page table, the index of an address at a level, and `create_mapping`, whose
--   four nested loops are one function on tables nested by level. The fuel of a loop is 512, the
--   number of indices in a table.
-- - Segments: the descriptors of interrupts, of segments and of the task state (x86.rs).
-- - Graphics: points, rectangles and lines in a bitmap whose buffer is a function of the byte offset; the
--   numbers of steps of the loops are the lengths of the source's ranges. Font has the reader of
--   font.txt, whose lines are an argument, and the text that is drawn with its glyphs; Cached has
--   the same drawing once the font has been read, and Pattern the test pattern and `init_display`.
-- - Output: the hexdump (print.rs), as a list of the pieces that it prints.
-- - Executor: the tasks, the queue behind its mutex, and the loop, of which `run n` makes the first `n`
--   iterations. The poll of a future is a parameter, with the tasks that it spawns.
-- - Hpet: the registers of the timer, its start, and the time in nanoseconds that the counter tells,
--   which the futures of the executor read.
--
-- Words are natural numbers below a power of two, with the wrap-around written out; a failed
-- assertion, `unwrap` or index is the error `panic`.
--
-- Not modelled: inline assembly, the waiting loops on hardware, firmware calls, formatting and logs,
-- and the registers of the processor.
pub mod Prelude
pub mod Acpi
pub mod Allocator
pub mod Boot
pub mod Enumeration
pub mod Executor
pub mod Graphics
pub mod Hpet
pub mod Keyboard
pub mod Mutex
pub mod Output
pub mod Paging
pub mod Pci
pub mod Segments
pub mod Uefi
pub mod Usb
pub mod Volatile
pub mod Words
pub mod Xhci
