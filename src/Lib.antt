-- ===== src/Lib.antt =====
-- Verification of the Sharak vibration node: its wire protocol, its accelerometer driver and the
-- simulated chip that the driver is tested on, its start and its main loop, and the fleet node
-- that sends the same frames over TCP.
--
-- The program. A node reads an ADXL345 accelerometer over an I2C bus (firmware/adxl345.c over the
-- interface firmware/i2c.h). The bus is either the microcontroller's controller or a simulated
-- chip (firmware/i2c_sim.c). Readings are packed into little-endian payloads, protected by a
-- CRC-16 and framed with HDLC byte stuffing (protocol/src/protocol.c); a receiver takes the
-- frames apart one byte at a time. The fleet node (sim/fleet_node.c) builds frames of a synthetic
-- signal through the same functions, and the fleet server (sim/fleet_main.c) streams them to TCP
-- clients. The microcontroller starts in firmware/startup.c, which prepares the memory for main.
--
-- The files.
-- - Prelude and its children: the names that all modules share; Boolean tests, lists over the
--   native numbers, the casts of C's integers, the laws of bit operations by their digits, and
--   memory: a pointer that may be NULL is `Ptr`, a computation that may access an array out of
--   range or read a local that was never written is `Run`, in which `none` is the fault.
--   Prelude/Outcomes has the rules by which what holds of every result of a run is read off its
--   text.
-- - Protocol/Wire: the constants of protocol/include/sharak/protocol.h.
-- - Protocol/Crc: crc16_ccitt_false with its two loops. Crc/Register and Crc/Fold turn it into a
--   fold of a linear step over the bytes; Crc/Residue, Crc/Errors and Crc/Parity are about what
--   it detects; Crc/TwoBits, Crc/Distance and Crc/Linear are about two wrong bits.
-- - Protocol/Payload: sk_payload_pack, sk_payload_unpack, and the packers and unpackers of the
--   other two message types. An out-pointer is a `Ptr` to what it points to, and comes back
--   assigned. Payload/Pack, Payload/RoundTrip and Payload/Short go from values to bytes and back,
--   Payload/Canonical and Payload/Unique from bytes to values and back; Payload/Values is a
--   receiver that unpacks all that it is handed.
-- - Protocol/Frame: sk_frame_encode, its local array with cells that are not yet written.
--   Frame/Stuff is the wire format on lists; Frame/Inner, Frame/Loops and Frame/Encode prove the
--   one to write the other, Frame/Whole is the case that the callers use.
-- - Protocol/Decoder: sk_decoder_t, sk_decoder_init, decoder_finish and sk_decoder_feed.
--   Decoder/Machine is a machine without buffer and counters; Decoder/Accumulate relates the
--   fields to it, Decoder/Refine is the simulation, for every output (Decoder/Answer), and
--   Decoder/Client is about any sequence of calls. Decoder/Verdict is the machine's end of a
--   frame, Decoder/Finish the decoder's. Decoder/Stream, Decoder/Resync and Decoder/Accept are
--   what the machine does with frames; Decoder/Feed and Decoder/Received carry this over to
--   sequences of calls, Decoder/Unstuff is about the bytes between two flags with their escapes
--   taken off, and Decoder/Damaged, Decoder/Neighbours and Decoder/BitErrors are about frames
--   that arrive with wrong bytes or bits on the wire. The machine takes a bad escape (an ESC
--   before a flag, before another ESC, or before a byte that no sender escapes) as the code does,
--   without an error, where REQ-PR-006 of docs/01_requirements_SWE1/node.md wants one.
-- - Firmware/Bus: i2c_bus_t as a record of two methods, which take what ctx points to and return
--   it.
-- - Firmware/Sim: i2c_sim_t and all functions of firmware/i2c_sim.c. Sim/Access is about the
--   register file's bounds, Sim/Sample and Sim/Single about samples and single registers,
--   Sim/Burst about the read that the driver makes, and Sim/Refused about calls that fail.
-- - Firmware/Adxl345: all functions of firmware/adxl345.c over any bus; Adxl345/Errors on every
--   answer of the bus, Adxl345/Selftest on the self test and on a bus that is missing,
--   Adxl345/Chip on any chip that answers, an interface that the next two fill, Adxl345/OnSim on
--   the simulated chip, Adxl345/OnStellaris on the hardware bus.
-- - Firmware/Device and Firmware/Uart: the registers of the hardware as a parameter, and all
--   functions of firmware/uart.c over them; Uart/Transmit states what the driver relies on, as
--   IsTransmitter; Uart/Text is about texts and about the configuration; Uart/Receive is about
--   bytes that arrive, and states what it relies on as IsReceiver, a FIFO of 16 bytes that does
--   not overrun.
-- - Firmware/Stellaris: i2c_stellaris_init and the bus methods of firmware/i2c_stellaris.c over
--   the same kind of device. Stellaris/Master states what the backend relies on, as IsAnswering:
--   the status of the master is a function of the register writes so far. Stellaris/Bytes is
--   about the loops that send bytes, Stellaris/Wire about a write that succeeds, Stellaris/Errors
--   about one that fails, Stellaris/Combined about the transfer with a repeated START,
--   Stellaris/Phases about its commands in numbers, and Stellaris/Refused about one whose read
--   fails; Stellaris/Source is a chip for the tests, and Stellaris/Registers has the register
--   writes in numbers, for Adxl345/OnStellaris.
-- - Firmware/Node: main of firmware/main.c, in front of its loop and in a round of it.
--   Node/Sending is about a round, Node/Start about the start; Node/Runs is the life of the node
--   as a relation, with its invariant, Node/Stream what a decoder makes of it, and Node/Station
--   what a station reads in the end.
-- - Firmware/Startup: the vector table and Reset_Handler of firmware/startup.c over the words of
--   the memory; Startup/Sections is about the memory that main finds.
-- - Fleet: fleet_sample and fleet_build_frame; Fleet/Sent follows a reading to the receiver.
-- - Fleet/Server: main and make_server of sim/fleet_main.c over the calls of the operating
--   system. A round is one accept or one frame; serve makes as many as there are stacks, the
--   contents of the uninitialised locals of each round. Server/Messages is about a frame and the
--   loop that writes it, Server/Serving about all rounds, Server/Client about the receiver and
--   Server/Readings about what it reads; Server/Decimal and Server/Arguments are about the
--   command line. strcmp, strtoul and strtol are written out, for a 64-bit long.
-- - Gateway: the types of gateway/include/sharak/decode.hpp and the stub of
--   gateway/src/decode.cpp.
-- - Tests under each component: concrete runs.
--
-- Integers. A value of an unsigned C type is a natural number, and each place where C reduces it
-- modulo 2^8, 2^16 or 2^32 is written out; signed values are `ℤ`, with the casts between the two.
-- Lengths (size_t) are natural numbers without a bound. Division of signed numbers cuts towards
-- zero.
--
-- Loops are structural recursion on the number of rounds that are left, so that no fuel is
-- needed, and a fault is a value. The exceptions are the busy-waits of uart_putc and i2c_wait,
-- which poll at most `fuel` times and give `none` where they would poll on, one poll more than
-- the hardware is busy for being enough; the loops of Reset_Handler, for which one round more
-- than the sections have words is enough; and the loop of the fleet server around write, with one
-- round more than the frame has bytes, since each write that goes on takes a byte at least.
--
-- Not modelled: the pacing delay of the main loop, the handlers that only spin, the addresses
-- that the linker script (firmware/lm3s6965.ld) chooses, which are a parameter, and what the
-- fleet server prints. The buffers that a call is given do not overlap.
pub mod Prelude
pub mod Protocol
pub mod Firmware
pub mod Fleet
pub mod Gateway
