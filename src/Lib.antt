-- ===== src/Lib.antt =====
-- Device-Driver-On-SoC: a board for QEMU, devices for it, and the Linux drivers of the devices, week
-- by week in the directory "SoC 위에 리눅스 디바이스 드라이버", with the log device of qemu/ and linux/.
--
-- How the parts work together: QEMU runs a device's read and write handlers when the driver calls
-- readl and writel, and its property handlers when the host asks through QMP; a device raises its
-- interrupt line, the kernel calls the driver's handler, and this wakes writers or schedules the
-- work that empties the device. A user's process sees the driver's read, write and ioctl.
--
-- The directories of the library follow the two sides. Qemu holds devices, Linux drivers, and
-- System theorems about a driver over its device; Copies holds files with the same text as another
-- one; Prelude holds numbers, lists, bits and widths, and Registers the offsets and masks that
-- device and driver share.
--   Qemu.Fifo, Qemu.Mmio   week03/mmio.c: struct fifo and comento_fifo_*; comento_mmio_read,
--                          comento_mmio_write, comento_get_data, comento_set_data
--   Qemu.Mmio.Early        week02/mmio.c, an earlier stage of that block
--   Qemu.Pipe              what that block promises: two queues of at most 31 bytes
--   Qemu.Fifo.Views,       struct fifo with the places of its bytes forgotten, a quotient
--   Qemu.Mmio.Views
--   Qemu.Log               qemu/mmio.c, with the C library's files in Qemu.Log.Posix; that they never
--                          fail is a hypothesis of the theorems that need it, since the results of
--                          fprintf, fflush and remove are not looked at
--   Qemu.Log.Lines         week03/과제03/mmio.c, that block with two busy lines
--   Qemu.Scale             week05/qemu-ssi.c: ssi_comento_transfer and the property scale
--   Qemu.Board             week05/comento.c: machcomento_init and the create_* functions
--   Qemu.Board.Early       the comento.c of week01 to week04: machcomento_init, and the create_*
--                          functions of each week in Qemu.Board.Early.Week01 to Week04
--   Qemu.Board.Class       comento_machine_class_init of all weeks
--   Qemu.Kdy               qemu/kdy.c: machkdy_init and kdy_machine_class_init
--   Qemu.Gpio              week04/gpio.c: the lamps and the button
--   Linux.Pio              week02/mmio-driver.c: write, interrupt and receive work
--   Linux.Writing          the loops of write, which week02/mmio-driver.c and linux/mmio.c share
--   Linux.Reading          comento_mmio_read of week02/mmio-driver.c
--   Linux.Table            the look-up of a device by its minor number; the kernel's hash table is a
--                          parameter, with its laws
--   Linux.Probe            probe and remove of week02/mmio-driver.c and linux/mmio.c
--   Linux.Log              linux/mmio.c: write, ioctl and interrupt
--   Linux.Dma              week04/mmio.c: write, read, interrupt, works, callbacks,
--                          button, and the channels of probe and remove in Linux.Dma.Channels
--   Linux.Dma.Race         several processes in the write of week04/mmio.c, which takes no lock
--   Linux.Dma.Life         probe and remove of the drivers with DMA
--   Linux.Dma.Bare         week03/mmio-driver.c, the driver of week04 without lamps
--   Linux.Dma.Memcpy       week04/mmio-memcpy.c, where it differs from week04/mmio.c
--   Linux.Dma.Logging      week03/과제03/mmio-driver.c, DMA for the block that logs
--   System.Transfer        a DMA controller that obeys the busy lines of week03/mmio.c, between
--                          that block and the drivers of week03 and week04
--   System.Transfer.Restart  a second message of the host in the middle of a transfer
--   System.Removal         the program of qemu/ioctl.c on the driver of linux/mmio.c and its block
--   System.DmaToLog        writes by DMA to the block of week03/과제03, through its controller
--   System.Between         calls of the driver of week02/mmio-driver.c with other acts in their middle
--   System.Steps           the driver of week02/mmio-driver.c and its block in steps of any order
--   Linux.Lock             the lock of every driver on one processor: its calls and interrupt
--                          handlers as lists of lock operations and waits, in steps of any order;
--                          with a processor for each of them in Linux.Lock.Many
--   Linux.Spi              week05/spi.c: the file that shows and resets the weight, probe and remove
--   Linux.User             qemu/ioctl.c and week04/user-gpio.c
--   Copies                 the kdy.c of week01/과제1, the comento.c, mmio.c and mmio-drivers.c of
--                          week02/과제02, the comento.c of week03/과제03, and qemu/comento.c
--   Linux.Kernel           the ends of a call, and the registers behind cmdev->base
--
-- State is passed on explicitly: a handler returns the device after it. Numbers are natural
-- numbers, cut to the width of the C type where they are stored. A loop without a bound of its own
-- has fuel, and a result says how much is enough: 32 rounds for the loops over a buffer of the
-- block, which holds 31 bytes, and one round more than the bytes to write for write. `running`
-- means that the fuel ended, and `oops` that the C code left an array or followed a null pointer.
--
-- In most theorems a call is one step; what other parties do while a writer sleeps is a parameter,
-- with the condition that the writer wakes only when there is room. System.Steps has the orders in
-- which calls, interrupts, works and the host can follow each other, and System.Between what the
-- host and the interrupt handler do in the middle of a call of week02/mmio-driver.c, before each of
-- its register accesses. Linux.Dma.Race cuts a round of the write of week04/mmio.c after its wait,
-- after its copy and after its job, where other writers can come between; the theorems on a whole
-- write by DMA are for a single writer. Linux.Lock looks into the calls of every driver: it keeps only
-- their lock operations and waits, a sleep in a copy or in dmaengine_terminate_sync among them, on one
-- processor, where a process that spins is not preempted, and in Linux.Lock.Many with a processor for
-- each call; the kernel's rwlock_t is a parameter with its laws.
--
-- comento_get_data returns a C string: get_data of Qemu.Mmio gives the host what stands before the
-- first 0 of the bytes that take_data takes out of the buffer. System counts the latter.
--
-- Not modelled: the branches of week04/mmio-memcpy.c for a kernel without a DMA engine, which do
-- not compile; registration with QEMU and the kernel; what happens in the middle of a receive
-- work of a driver with DMA; QEMU's own devices beyond the properties set of them, the kernel's wait
-- queues, work queues and hash table, and the C library, which are parameters where they matter;
-- device trees and configurations, which are data.
pub mod Prelude
pub mod Registers
pub mod Qemu
pub mod Linux
pub mod System
pub mod Copies
