-- ===== src/Lib.antt =====
-- chdkptp: the PTP library of the camera control program, modelled and verified.
--
-- chdkptp talks to Canon cameras that run CHDK, by PTP (the Picture Transfer Protocol) over USB or
-- TCP. Its C code has a protocol library (ptp.c with ptp-pack.c, ptp.h and libptp-endian.h) below Lua
-- bindings (chdkptp.c) that reach libusb or a socket. Beside it stand the byte buffers that Lua scripts
-- use (lbuf.c) and raw sensor images in such buffers (rawimg.c). This development is about the protocol
-- library, the buffers and the raw images.
--
-- How the program works. An operation fills a request container and calls `ptp_transaction`, which
-- numbers it and calls, through function pointers of `PTPParams`, the sender of the request, the data
-- phase and the reader of the response. Readers take bytes from a packet buffer of 512 bytes and then
-- from the device, because a USB device delivers whole packets that may hold the end of one container
-- and the start of the next. Datasets in a data phase are packed and unpacked by ptp-pack.c.
--
-- Which file models what, by its path in this library:
--   * Ptp/State.antt: `PTPParams` and `PTPPacketBuffer` of ptp.h, and `M`, functions that end in
--     PTP_RC_OK with a result, in another code, in an access beyond an object (`overrun`) or without
--     fuel (`diverged`). `Port` is the raw I/O, `read_func` and `write_func`, a parameter of all.
--   * Ptp/Transport.antt, Ptp/Transport/: `ptp_transport_read_from_buffer`,
--     `ptp_transport_read_to_buffer`, `ptp_control_read_buffered`, `ptp_tcp_read_data` and
--     `ptp_usb_read_data` (ptp.c). Buffer has the buffer alone, Fill the loop that fills it, Stream and
--     Delivery the abstract view, a stream of bytes, DataPhase the data readers, and Packets the USB one
--     on a pipe of whole packets.
--   * Ptp/Endian.antt: the conversions at the top of ptp-pack.c, on a little-endian host.
--   * Ptp/Container.antt, Ptp/Usb.antt, Ptp/Usb/: `PTPContainer` and the `ptp_usb_` functions of ptp.c.
--   * Ptp/Transaction.antt: `ptp_transaction` and `ptp_getdata_transaction` over the interface `Link`;
--     Ptp/Transaction/OverUsb.antt puts the USB functions into it.
--   * Ptp/Pack.antt, Ptp/Pack/: ptp-pack.c. Text has the strings, Arrays the arrays, DeviceInfo the
--     dataset of that name, StorageInfo, ObjectInfo and Property the others; Located is the interface
--     between fields and datasets.
--   * Ptp/Tcp.antt, Ptp/Tcp/: the `ptp_tcp_` functions of ptp.c; Packet reads one packet, GetData and
--     SendData are the two directions of the data phase.
--   * Ptp/Operations.antt, Ptp/Operations/: the operations of the PTP standard in ptp.c, from
--     `ptp_getdeviceinfo` on.
--   * Ptp/Chdk.antt, Ptp/Chdk/: the `ptp_chdk_` functions at the end of ptp.c.
--   * Ptp/Tests.antt, Ptp/Tests/: runs on concrete inputs, with a cable that delivers three bytes a read.
--   * Rawimg.antt, Rawimg/: rawimg.c. Packed10, Packed12, Packed14 and Whole have the routines of the
--     nine formats, Format the table of them, Image the images, and its children `bind_lbuf`,
--     `patch_pixels` and `convert`. Block says what packed pixels are, digits of a number, and proves
--     once for all formats what a write does; Raster places blocks in an image.
--   * Lbuf.antt, Lbuf/: lbuf.c and lbuf.h. Cells has the integers, Sub the index rules, and Reverse
--     `reverse_bytes`.
--   * Base.antt, Base/: lists, bits, loops, Boolean tests and `Option` over the native natural numbers.
--
-- Raw I/O is assumed to behave as `Delivers` (Ptp/Transport/Fill.antt) says where a theorem needs it: a
-- read that asks for at least one byte while bytes are pending stores at least one of them and at most
-- as many as asked for, the first ones, and leaves the others pending. `DeliversPackets`
-- (Ptp/Transport/Packets.antt) says less: only of reads for whole packets, of which it gives whole ones
-- or all that is left of the transfer.
--
-- Loops that read until enough has come run on fuel, one unit a round. A device that keeps returning 0
-- bytes keeps the C code in its loop for good: that is `diverged`. Under `Delivers` each round brings a
-- byte, so as much fuel as bytes wanted is enough, and the theorems say that the run returns.
--
-- Numbers are natural numbers with the wrap-around of `uint8_t`, `uint16_t` and `uint32_t` written out.
-- An `int` is one where it is not negative; what becomes of a size from 2^31 on, which is negative as
-- an `int`, is written out, and so is an `int` that overflows.
-- Allocation is taken to succeed, and messages that are printed are left out. A read beyond the data of
-- a dataset, which the C code does not check, is `none` in a dataset and `overrun` in an operation. What
-- a failing operation leaves in its output parameters is not modelled.
--
-- In the images and buffers an access outside the memory is `none`, and the arguments of a function are
-- the numbers that the Lua library returns for them. The lbuf that an image is converted to is not the
-- one that it is in.
--
-- A sender's theorem assumes that every write is taken and kept in order (`Records`,
-- Ptp/Usb/SendData.antt); a camera that replies is `Answers` (Ptp/Transaction/OverUsb.antt) and, with
-- data, `Replies` (Ptp/Operations/OverUsb.antt).
--
-- Not modelled: the events, name tables and printing of ptp.c and its operations inside `#if 0`; the
-- Canon and Nikon datasets of ptp-pack.c, which nothing else uses; the Lua scripts; the Lua bindings and USB
-- calls of chdkptp.c and myusb.c, glue around the library; ptpip.c, a test program; properties.c, a table of texts; sockutil.c, luautil.c, wrappers
-- of system and Lua calls; lfs and lua-signal, copies of other projects; `make_rgb_thumb` of rawimg.c;
-- `fill` and the file access of lbuf.c; liveimg.c, the conversion of live views.
pub mod Base
pub mod Ptp
pub mod Lbuf
pub mod Rawimg
