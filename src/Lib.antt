-- ===== src/Lib.antt =====
-- Models of the host tools of SWTOS: the multiplexed terminal frontend under tools/te-rs and the
-- debug adapter under tools/cor24-debug-adapter, both in Rust. The target, a COR24 board or an
-- emulator, sends one byte stream. The frontend first shows it as plain text, offers a handshake,
-- and from the acknowledgement on reads checksummed frames from it; a frame carries the output of
-- one channel, a resource record, a debugger response. Each channel has a pane on a desktop.
--
-- Where each part is:
-- - `Scanner`: the shape of a receive loop, a buffer that turns drain from the front until one of
--   them breaks, and the laws that make such a loop independent of how its input is cut.
-- - `Protocol` and the files under it: tools/te-rs/src/protocol.rs. `Protocol` has frames and
--   `Frame::encode`, `Protocol.Decoder` has `Decoder` (`at_sync` is the body of its loop from the
--   sync bytes on), `Protocol.Negotiator` has `Negotiator`, and `Protocol.Connection` has
--   `ConnectionDecoder`.
-- - `Adapter`, `Adapter.Decoder` and `Adapter.Output`: the wire of the debug adapter, its `Decoder`
--   and its `write_all_retrying` (tools/cor24-debug-adapter/src/main.rs). `Adapter.Emulator` has the
--   loop of `main` and `handle_frame`; the crate `cor24_emulator` is the record `Emulator` of the
--   functions that are called of it, and `Adapter.Emulator.Faithful` says what is relied on.
-- - `Resource`: tools/te-rs/src/resource.rs, the assembler that collects the records of a generation
--   and publishes them at its end. The `BTreeMap` is an association list in the order of its keys.
-- - `Ui.Pane`, `Ui.Desktop` and `Ui.Render`: tools/te-rs/src/ui.rs: the text of a pane; the panes,
--   the focus and the keys of the desktop; and what `render` draws, on the canvas of `Ui.Canvas`:
--   `Ui.Render` has the rules, the names and the text, `Ui.Render.Tiling` has `draw_grid`, and
--   `Ui.Render.Boxes` has `draw_box` and `render`. `none` is a panic.
-- - `Frontend`: tools/te-rs/src/main.rs. `Frontend.Options` has `parse_args`, `Frontend.Requests`
--   what is sent to the target, `Frontend.CopyMode` the keys of the copy mode. The loop of
--   `run_windows` is in three parts: `Frontend.Session` has its state and what it does with an item
--   of the stream, `Frontend.Keys` with a key, and `Frontend.Timers` with the time at the end of a
--   pass; `Frontend.Sending` is the way into the serial queue. The file of a saved session is a
--   parameter that is read and written. `Frontend.Terminal` has the loop of `run`, the terminal
--   without panes, `Frontend.Upload` the upload of a file and `Frontend.Monitor` the echo that it
--   waits for; what the system's calls find is a list of turns, which ends at the deadline.
-- - `Debugger` and the files under it: tools/te-rs/src/debug.rs. `Debugger` has the debug map,
--   `Debugger.Console` the console's state, `Debugger.Responses` what it shows of a response,
--   `Debugger.Steps` and `Debugger.Commands` its commands, `Debugger.Commands.Views` the `map`
--   command. A file beside the map is read by a function that is given.
-- - `Disasm`: tools/te-rs/src/disasm.rs. The crate `cor24_isa` is the record `Isa` of the functions
--   that are called of it.
-- - `Report`: tools/te-rs/src/bin/sr-report.rs, the decoder of a logic capture. The instants
--   at which it reads a bit are `uart_clock`, exact fractions where the program has `f64`, so that
--   rounding is not modelled; `Report.Timing` says for which rates they fall in the bits of a line.
-- - `Format`: numbers and strings in the notations that the source prints and reads.
-- - `Base`: tests on numbers, results, and the operations on slices, strings and integers that the
--   source calls.
-- - `Tests`: runs on concrete inputs.
--
-- How the code is written here. A method with `&mut self` is a function that returns the new state
-- with the result. A `u8`, a `char` and a `usize` are natural numbers; where the source's arithmetic
-- wraps (the checksum, the length of a frame as a `u16`) the remainder is written out, and where a
-- theorem needs that numbers are bytes it says so. A list of bytes is in memory, so the sizes of
-- buffers do not overflow a `usize`. An `Instant` is a number of
-- milliseconds that the caller gives.
--
-- Fuel: `Scanner.drain` takes some for the turns of a receive loop. Every turn that goes on drains
-- a byte or more, so `scan`, which gives one turn more than there are bytes, always reaches the turn
-- that breaks. `Adapter.Output.write_all_retrying` takes some for its calls of the writer; the bytes
-- to write and the calls that the writer may still refuse are together enough.
--
-- Not modelled: reading the debug map's file (the crate serde), the start of the programs, which opens
-- devices and files, the system calls around the loops and their delays (tools/te-rs/src/main.rs),
-- the options and the unpacking of the report tool (tools/te-rs/src/bin/sr-report.rs), and everything
-- on the target.
mod Base
pub mod Format
pub mod Scanner
pub mod Protocol
pub mod Resource
pub mod Adapter
pub mod Ui
pub mod Report
pub mod Frontend
pub mod Disasm
pub mod Debugger
pub mod Tests
