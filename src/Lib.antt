-- ===== src/Lib.antt =====
-- The OpenSkyhawk cockpit firmware: models of its core logic and theorems on them.
--
-- The program. A cockpit is a set of STM32 boards on one CAN bus: panel nodes, power distribution nodes
-- (PDU) and a bridge, whose USB side is the Gateway. Every board starts in a bootloader that takes new
-- firmware over CAN (or over serial, on the bridge) and starts the app. The Gateway's uploader stages an
-- image that a client sends over USB and flashes it into a board: its CAN frames go down the UART as
-- DCS-BIOS export records that the bridge relays onto CAN, and the answers come up as lines of text. PDU
-- nodes measure two supply rails and the board's temperature, report faults in their health frames and
-- send telemetry pages. The Gateway keeps its USB link to the host alive by a recovery ladder.
--
-- The parts here.
--   Base            names shared by all: Boolean tests, lists with `length`, `get_or` and `set` over the
--                   native numbers, integers, tables
--   Boot            Firmware/Bootloader/src/main.cpp with the constants of
--                   Firmware/Libraries/BootProtocol/BootProtocol.h. `Boot.Flash` has the flash and its
--                   operations, `Boot.Image` the header and checksums of app_valid, `Boot.Options` the
--                   option bytes, `Boot.Session` begin, block and end, `Boot.Handle` handle() and the loop,
--                   `Boot.Serial` the bridge build's USART frames and the ring of received frames,
--                   `Boot.Startup` the decision of main(); `Boot.Erase`, `Blank`, `Stream`, `Commit`,
--                   `Data`, `Queue` and `Rules` are theorems.
--   Upload          Firmware/Libraries/SimGateway/Uploader.cpp with UploadProtocol.h: `Wire` is how frames
--                   become UART bytes, `Session` the globals and how a flash ends or is retried, `Client`
--                   onFrame(), `Reply` onBootReply(), `Tick` tick(), `Lines` onBridgeLine() and
--                   onUartByte(), `Image` the checksums, `Kind`, `Nack` and `Protocol` the constants.
--                   `Events` runs any sequence of these. `Records`, `Keeps`, `Staging`, `Flash`, `Window`,
--                   `Outcome`, `Crc`, `Serial` and `Poll` are theorems; `Crc`, `Serial` and `Poll` are about
--                   the uploader together with the bootloader.
--   Bridge          Firmware/Libraries/PanelBridge/PanelBridge.cpp: `State` the globals, `Rows` the lines to
--                   the host, `Nodes` the life of a node, `Sync` serviceSync() and serviceRoster(),
--                   `Dispatch` the slots of event frames, `Receive` onCanRx(), `Export` the export
--                   dispatcher, `Loop` what runs these, `Relay` BootRelay; `Dead`, `Unchanged`, `Handlers`,
--                   `Heat` and `Warning`, `First` and `Lookup` are theorems about it, `RoundTrip`, `Stream`, `Payload`, `Delivery`,
--                   `Heard`, `Hex`, `BootLine` and `Roster` about it and the uploader, `Reports` about it
--                   and a node
--   Can             Firmware/Libraries/CANProtocol: `Batch` is sendBatched(), flushBatched() and the
--                   deadlines of drain(), `Transmit` send(), the ring and the mailboxes; `Node` the other
--                   globals, `Ring` the ring of received frames, `Receive` drain() and start(), `Payloads`
--                   the frames that a node reports itself with and Firmware/Libraries/NodeStatus's
--                   aggregateFaults(), `Service` serviceNodeStatus(), `Run` any sequence of calls;
--                   `Conserve`, `Order`, `Mailboxes`, `Drain`, `Attempts`, `Overtake`, `Fifo`, `Queue`,
--                   `Latch`, `Heat` and `Watch` are theorems
--   Gateway         Firmware/Libraries/SimGateway: `AxisCal` and `Frame` are AxisCal.cpp with the types of
--                   AxisCal.h in `CalType`, `Inbound` is _calInboundByte() of SimGateway.cpp with the bytes
--                   that loop() gives it, `Uplink` _relayByte() and _processByte() with what they
--                   call; `AxisLaws`, `Owner`, `Lossless`, `FrameTrip`, `LineTrip` and `HidTrip` are theorems
--   Link            Firmware/Libraries/SimGateway/LinkRecovery.h and .cpp
--   Pdu             Firmware/Libraries/PowerMonitor: `Latch` and `Rail` are RailMonitor, `Thermal` is
--                   BoardThermal, `Schedule` is TelemSchedule, `Cal` is PduCalStore with crc32 of
--                   PduMath; `RailLaws` and `CalLog` are theorems
--
-- How state and operations correspond. A C++ object, or a file's globals, is a record with its fields, a
-- function one of the same name in snake case that returns the new record beside its result. A buffer with
-- a length is the list of its bytes below that length. uint32_t times wrap: a difference is written
-- (now + 2 ^ 32 - since) % 2 ^ 32. The bootloader's flash is a function from addresses to bytes. The chip
-- is a record `Chip` of functions that read, program and erase, a parameter of the definitions that use
-- it; theorems that need more of it take `IsFlash`, which states what the chip's manual says: an erase
-- that reports success leaves its page erased and touches no other byte, and programming a halfword
-- touches no other one. `Boot.Examples` has a chip for which this holds. The calibration log takes the HAL
-- of the flash in the same way, as `Hal` with `IsHal`. What the uploader sends to its client is a list of
-- `ToClient`, and what it writes on the UART the list of its writes. The image that a build bundles is the
-- parameter `Bundle`, any bytes. The export-stream parser of the DCS-BIOS
-- library is the parameter `ExportParser`: after the sync bytes it hands on each record's words, at
-- ascending addresses. The CAN controller's status register is part of the transmit state, and the
-- controller ends a request by a step of its own, between any two reads. What the bridge and a node put
-- out, frames, lines, callbacks and calls of the board's LED, is a list in its state; the interrupt of the
-- receive FIFO comes before each turn of the loop that empties the ring. The generated table of controls
-- (A4EC_INPUT_MAP), the sim's address of the model time, the bridge's own row and the room that the UART
-- has at each test are parameters of the bridge, the build's settings (NODE_ID, the ring's size,
-- NODE_OVERHEAT_C, the version) the record `Build` of a node. In the bridge's run the frames that drain()
-- hands to onCanRx() are events, and each pass of its loop comes with the state that drain() has left
-- CANProtocol in, any state.
--
-- Bounds. Erasing is recursion on the number of pages the image needs and one more, which is
-- more than the loop of begin() takes. The loop of uart_poll() has as many turns as the DMA buffer has
-- bytes, and reads each byte once. The transmit loop has six turns: each of three mailboxes is settled and
-- loaded once at most while no request ends. The bisection has as many rounds as the table has entries.
-- The loops of the roster and of the receive ring have the turns that their lists of tests give. The other
-- loops are over lists or over a count.
--
-- Not modelled: clocks, CAN, USART and DMA registers apart from those named, pins and LEDs, which are
-- hardware; a power loss in the middle of programming one half-word; the text of faultDetail(); the
-- overflow of the signed sums of a rail, which C++ leaves undefined. Of
-- PanelBridge not setup(), the registration of callbacks and the log of TEST_SEQ, and of CANProtocol not
-- the filters, which only set registers; debug logs are left out. The other libraries of
-- Firmware/Libraries have no module.
pub mod Base
pub mod Boot
pub mod Bridge
pub mod Can
pub mod Gateway
pub mod Link
pub mod Pdu
pub mod Upload
