-- ===== src/Lib.antt =====
-- The network drivers of kernel/comps: three PCI Ethernet drivers, r8169 (RTL8168G), e1000 (82540EM)
-- and e1000e (82574L). Each keeps descriptor rings in DMA memory that it shares with the device. A
-- bit in a descriptor says which side owns it: the driver fills transmit descriptors and hands them
-- over, the device gives them back when it is done, and the other way round for received frames.
-- kernel/src/net makes a network interface of each device that a driver has registered, polls it when
-- the driver raises its softirq, and chooses the interface that a socket is bound to.
--
-- The parts and their files:
--
-- Dma.antt, Mmio.antt: what the drivers use of ostd and aster_pci, which are not in the repository:
--   allocation, mapping, synced copies of bytes, and register accesses. They are parameters, with
--   laws for memory and none for the device. Sample.antt has an instance of each.
-- Prelude.antt, Bits.antt, Bytes.antt: lists, Boolean tests, bits of words, little-endian words.
-- R8169/Regs.antt: the constants of kernel/comps/r8169/src/regs.rs, device.rs and phy.rs that the
--   models use.
-- R8169/Desc.antt: kernel/comps/r8169/src/desc.rs. The ring is memory, and write_desc, read_desc,
--   write_opts1, read_opts1, mark_to_asic and set_ring_end move its bytes. R8169/Desc/Entries.antt and
--   its children give the view of it as an array of descriptors.
-- R8169/Tx.antt: kernel/comps/r8169/src/tx.rs. TxRing has the ring, the slots and the two u32 indices;
--   start_xmit, rtl_tx, tx_clear and their steps carry the functions' names. A call that changes the
--   device passes its state along. The children: Inv is the invariant, Frame and Xmit the send path,
--   Reap the completion path, Clear the empty rings, Safety the whole life of a ring.
-- R8169/Rx.antt: kernel/comps/r8169/src/rx.rs. RxRing, fill, clear and rtl_rx carry the functions'
--   names; alloc is RxDmaBuf::alloc and new_rx_ring is RxRing::new. The children: Inv is the invariant
--   and one round of the poll, Slots and Fill the filling of a ring, Receive the whole poll.
-- R8169.Tx.Tests and R8169.Rx.Tests run the models on concrete inputs.
-- E1000/Regs.antt, E1000/Desc.antt: kernel/comps/e1000/src/regs.rs and desc.rs. rx_done and tx_done are
--   the two `done` methods; the byte conversions are those of tx.rs and rx.rs. E1000/Desc/Index.antt
--   is about the two ring indices, E1000/Desc/Stored.antt about descriptors in memory.
-- E1000/Tx.antt: kernel/comps/e1000/src/tx.rs, with xmit_frame and clean_tx_irq under their names and
--   new_ring for TxRing::new. Inv is the invariant, Xmit and Clean the two paths.
-- E1000/Rx.antt: kernel/comps/e1000/src/rx.rs, with clean_rx_irq, recycle_buffer and the allocation of
--   buffers under their names. Inv is the invariant, Alloc the filling of a new ring, Clean is about
--   clean_rx_irq and Stall about an exhausted pool. Pool.antt is the interface to the DMA pool
--   of aster_network, which is not in the repository.
-- E1000/Eeprom.antt: kernel/comps/e1000/src/eeprom.rs. The 1000 polls of read_eeprom are its own bound;
--   Served states what the data sheet promises of the EERD register, as a hypothesis.
-- E1000/Intr.antt: kernel/comps/e1000/src/intr.rs; causes is the status that process_interrupt makes of
--   a value of ICR. E1000/Setup.antt: configure_tx of tx.rs and configure_rx of rx.rs.
-- The e1000 tests stand in E1000/Tx/Tests.antt, E1000/Rx/Tests.antt, E1000/Eeprom/Tests.antt,
--   E1000/Intr/Tests.antt and E1000/Setup/Tests.antt.
-- E1000e/Desc.antt: kernel/comps/e1000e/src/desc.rs; read_desc reads an RxDescExt by its repr(C) layout,
--   refill_desc writes an RxDescRead. E1000e/Desc/Ring.antt is about the ring's indices and one slot.
-- E1000e/Rx.antt: kernel/comps/e1000e/src/rx.rs under its names; the loop of clean_rx_irq counts down
--   its budget, a Pass is its variables. Alloc, Held, Round and Clean follow the refilling, one round
--   and the loop, Deliver a whole call, Fresh a new ring. E1000e/Setup.antt: setup_rctl and configure_rx.
-- E1000e/Tx.antt: kernel/comps/e1000e/src/tx.rs. Legacy maps its ring to that of e1000, whose
--   descriptors have the same bytes, and Correct carries the theorems over.
-- E1000e/Driver.antt: kernel/comps/e1000e/src/driver.rs: init on the registers, and the operations of a
--   network device on a Device, the adapter with the registers, the pool and the allocator. Receive is
--   about init and receive, Eerd about the EEPROM reads, Address about rar_set.
-- The e1000e tests stand in E1000e/Rx/Tests.antt, E1000e/Tx/Tests.antt and E1000e/Driver/Tests.antt.
-- R8169/Device.antt: kernel/comps/r8169/src/device.rs: R8169Device, with the pool and the allocator that
--   it uses, init on the registers, receive and the other operations of a network device. Armed is
--   about a slot and its descriptor, Receive about receive, Start about init and an exhausted pool.
-- R8169/Phy.antt: kernel/comps/r8169/src/phy.rs: the accesses through the OCP window and the
--   configuration. Base is about the window's base, Config about where accesses go. A poll runs its
--   10 or 100 rounds by recursion on their number.
-- Their tests stand in R8169/Device/Tests.antt and R8169/Phy/Tests.antt.
-- E1000/LinkRegs.antt, E1000/Hw.antt, E1000/Init.antt, E1000/Phy.antt: the other constants of
--   kernel/comps/e1000/src/regs.rs, hw.rs without and with the operations that go through the PHY, and
--   phy.rs. Hw/Adaptive is about the spacing of frames. A poll of MDIC runs its 64 rounds by
--   recursion. E1000/Driver.antt: kernel/comps/e1000/src/driver.rs: init on the registers, and the
--   operations of a network device. Their tests stand in E1000/Hw/Tests.antt, E1000/Phy/Tests.antt and
--   E1000/Driver/Tests.antt.
-- E1000/Driver/Start.antt: what init of e1000 establishes; E1000/Driver/Life.antt: the whole life of an
--   e1000 device; E1000/Driver/UpTests.antt: an instance.
-- Net/Stack.antt: what kernel/src/net uses of aster_bigtcp and aster_network, as a parameter with the
--   addresses and names that an interface keeps as laws; Net/Sample.antt has an instance.
-- Net/Iface.antt: kernel/src/net/iface/init.rs: the vector of interfaces, one for each driver that
--   found a device, and the callbacks that poll them. Net/Iface/Order.antt is about its order.
-- Net/Socket.antt: kernel/src/net/socket/ip/common.rs: the interface that a socket is bound to.
--   Net/Socket/Bind.antt is about the addresses.
-- Frames.antt: receives in a row on a ring of 256 slots, for any call that takes one slot after the
--   other. E1000/Driver/Burst.antt and R8169/Device/Burst.antt are about the two receive paths.
-- R8169/Device/Life.antt: the whole life of an r8169 device; R8169/Device/TxKept.antt is about what
--   leaves its transmit ring alone.
-- E1000/Eeprom/Wire.antt: the bit-banged access of eeprom.rs through EECD. Wire/Pins is about the bits
--   of the register, Wire/Serial states what a serial device does at the pins, as a hypothesis, and
--   what it is sent, and Wire/Reply what is read from it. The loop over a 16-bit mask has fuel 17.
--
-- Conventions. Numbers are natural numbers with the wrap-around of u32 and u16 written out. A Result
-- is an Option, a sum, or a flag (true for Ok) next to the memory that was written. The statistics,
-- u64 counters of one call, are not wrapped.
--
-- Bounds. A ring has 256 descriptors. The loop of rtl_tx runs on fuel 257: a valid ring has fewer than
-- 256 frames in flight, and each round takes one. rtl_rx has its budget as a bound of its own.
--
-- Not modelled: memory barriers and the device's own steps inside a call, since a call is one step and
-- the device writes descriptors between calls; logging; PCI resources, interrupt lines and
-- registration, which are calls of other crates; the offload descriptors of e1000e, which nothing
-- uses; and the broadcast and poll modules of kernel/src/net/iface, which are not in the repository.
-- The return of dropped buffers to the pool is not tracked.
pub mod Bits
pub mod Bytes
pub mod Dma
pub mod E1000
pub mod E1000e
pub mod Frames
pub mod Mmio
pub mod Net
pub mod Pool
pub mod Prelude
pub mod R8169
pub mod Sample
