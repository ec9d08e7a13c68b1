-- ===== src/Lib.antt =====
-- vvmux is a terminal multiplexer: a session server owns panes, a client attaches to it over a
-- local socket, and terminal output and media of the panes are composed for the outer terminal.
-- This library models the parts of it that compute, over the native numbers, with the wrap-around
-- and the saturation of machine integers written out.
--
-- The parts and the files that model them:
--   * src/region.rs, the visible part of a media surface under other panes, in fixed-point
--     rectangles: Region.antt, one definition per function, and Region/Cells for `from_cells`.
--     `subtract_all` returns an option, and the loop of `order_and_coalesce` runs on as much fuel
--     as there are rectangles, which is enough since each round takes one away (Region/Merge).
--   * src/layout.rs: Layout/Rect is `Rect`; Layout/Floating is the arithmetic of floats
--     (`clamp_rect`, `default_rect`, `resize_edges`); Layout/Layer is `FloatingLayer`, each method
--     as a function from layer to layer, with `apply_op` for any of them; Layout/Tiled is
--     `TiledNode`, where a panic of the source is `none`; Layout/Focus is `directional_focus`.
--   * src/ipc.rs, the socket protocol: Ipc/Preface is the preface and `establish`, Ipc/Record the
--     framing of `RecordReader` and `RecordWriter`, Ipc/Media the binary media and render records.
--     A stream is a list of bytes; a reader takes from its front and a writer adds at its end.
--   * src/client_input.rs: Input/Float is `FloatEditScanner`, Input/Mouse the mouse reports and
--     Input/Prefix `PrefixParser`, whose `feed` is a loop of `step`, one function per branch.
--   * src/session.rs: Session/Tab is `Tab` with its focus and its visible projections,
--     Session/Display the normalised display with its content area, and Session/Paste the
--     sanitising of pasted text, on as much fuel as there are bytes, of which each round passes
--     six.
--   * vvmux-terminal/src/lib.rs, the terminal emulator of a pane: Terminal.antt is `Terminal` with
--     its cells, events, `new` and `resize`; Terminal/Vectors the vector operations, where a panic
--     of the source is `none`; Terminal/Scroll, Terminal/Erase, Terminal/Write, Terminal/Cursor
--     and Terminal/Modes the methods of the trait `Handler`, one definition each; Terminal/Run any
--     call of them, and sequences of calls; Terminal/Text the text of its lines; Terminal/Marker
--     is `VividMarkerScanner` as built on Unix. Its loop runs on more fuel than there are bytes,
--     which is enough since each round that goes on passes a prefix (Terminal/Marker/Scans).
--   * src/media_trace.rs, the journal of media events: Trace/Kind has the kinds of events,
--     Trace.antt the journal with `push` and `query`, and the loop of `run_trace_follow` of
--     src/automation.rs over it, as a number of turns on one journal.
--   * src/screen.rs, the composed screen of a client: Screen.antt is `ScreenBuffer`, each method
--     as a function where a panic is `none`, with `apply_op` for any of them; Screen/Diff is
--     `ansi_diff` with the styles (the comparisons in Screen/Same), as the characters of which the
--     source writes the UTF-8 bytes. Its two nested loops over a row are one, with a flag that the
--     column before was painted.
--   * src/media.rs, the credits of media sources: Media.antt has `consume_source_credit`,
--     `prepare_credit_return` and `take_deliveries` on the fields that they use, and Media/Credit
--     the account of a source over any sequence of them.
--
-- A tab (Session/Tab) holds a tiled tree and a floating layer (Layout), projects them in paint
-- order, and the projections feed the focus (Layout/Focus) and the occlusion of media (Region).
-- Panes and tabs are named by numbers, as in the source.
--
-- A `u16`, `u32` or `u64` sum that can wrap is taken modulo its width, `saturating_add` stops at
-- the type's bound, and an `i32` or `i64` is an integer with `wrap` or `checked`, as the source
-- asks for. Plain sums wrap, as in a release build, but for the
-- `usize` sums that sizes in memory and the `u16` counts of the parser keep below 2 ^ 64.
--
-- Not modelled: the JSON messages, which are the serde library's; threads, sockets, PTYs, files
-- and processes (src/server.rs, src/runtime.rs, src/platform, src/client.rs); the third-party
-- parser of escape sequences (vte), whose calls of the terminal are the model's steps, and the
-- widths of characters (unicode-width), which are an argument; `process_chunks` and the PTY of
-- vvmux-terminal; the web gateway (src/gateway); the rest of the media bookkeeping, and the bridge
-- (src/media.rs, src/bridge.rs); configuration, metrics, and the requests of src/automation.rs.
pub mod Prelude
pub mod Ipc
pub mod Layout
pub mod Region
pub mod Input
pub mod Session
pub mod Terminal
pub mod Trace
pub mod Screen
pub mod Media
pub mod Tests
