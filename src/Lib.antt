-- ===== src/Lib.antt =====
-- LBARD, the Low-Bandwidth Asynchronous Rhizome Demonstrator: a daemon that carries Rhizome
-- bundles between Serval nodes over slow radios. A bundle (a manifest and a body) is cut into
-- pieces that are sent in small packets; the receiver gathers the pieces in lists of segments, and
-- answers with bitmaps of what it has; the sender keeps for each peer a queue of bundles by
-- priority.
--
-- File by file:
--   Prelude: tests on numbers, lists, slices of a file, binary digits. No code of the program.
--   Xfer/Segments: `struct segment_list`, the search loop of `saw_piece`
--     (src/messages/bundle_piece.c) and `merge_segments` (src/xfer/partials.c).
--   Xfer/Missing: `partial_find_missing_byte` (src/xfer/partials.c).
--   Xfer/Bits, Xfer/Bitmap: `partial_update_request_bitmap` (src/xfer/progress_bitmaps.c).
--   Xfer/Send: `progress_bitmap_translate`, `peer_update_send_point` and
--     `peer_update_request_bitmaps_due_to_transmitted_piece` (src/xfer/progress_bitmaps.c).
--   Rhizome/TxQueue: `peer_queue_bundle_tx` (src/rhizome/peers.c) and `sync_dequeue_bundle`
--     (src/sync/bundle_tree.c).
--   Rhizome/Rank: src/rhizome/rank.c.
--   Messages/Piece: `sync_append_some_bundle_bytes` and `message_parser_50`
--     (src/messages/bundle_piece.c).
--   Messages/Ack: `sync_schedule_progress_report` (its slots in Slots) and `sync_parse_ack`
--     (src/messages/ack.c).
--   Messages/Length: src/messages/bundlelength.c.
--   Sync/Lookup: the look-ups by the first bytes of an ID (src/sync/bundle_tree.c).
--   Sync/Tree: the tree of sync keys (src/sync/sync.c): `add_key`; Remove: `remove_key`; Search:
--     `cmp_message`, `find_message`, `sync_key_exists`. Leaves lists the keys of a tree, Invariant
--     says what shape and which sums a tree keeps.
--   Sync/Receive: `remove_differences` and `recv_key` (src/sync/sync.c): the tests and loops find the
--     calls, and Sync/Receive/Calls makes them on the peer's tree, with their assertions.
--   Sync/Wire: `copy_message`, and the records that `sync_recv_message` reads (src/sync/sync.c).
--   Sync/State: `sync_add_key`, `sync_free_peer_state`, `peer_add_key` (src/sync/sync.c).
--   Util/Hex, Util/Ascii64: the text encodings of src/util.c.
--
-- How code and model correspond: a C struct is a record with the source's field names, an array is
-- a list, a function that changes a struct returns the new one. `random()`, the clock and the bytes
-- of a packet are arguments. Loops are structural recursions, over the list that is walked or over
-- the number of rounds that are left, so they end by their form and need no fuel. Output to logs
-- is left out, as are `malloc` failures, which `assert` turns into an abort. Offsets and lengths
-- are natural numbers: the values that the `int` fields hold and that are not negative; only the
-- length that Messages/Length notes is an `int` with its sign.
-- `length_bits` of Rhizome/Rank has 64 rounds, as many as a `long long` has bits. Sums with `|` of
-- parts that share no bit are sums. A `struct node *` of src/sync/sync.c is a tree, NULL the empty
-- one; its loops have a round for each of the 63 bits that `sync_get_bits` can read, whose assertion
-- ends the program after them: `none`, or `failed`, stands for a failed assertion.
--
-- Not modelled: the HTTP requests to the Serval daemon, the drivers of the radios and the status
-- pages, which are input and output; libfec, miniz and the hash functions, which are vendored; the
-- loop of sync nodes to transmit, the other messages, and the bookkeeping of `saw_piece` around its
-- search loop.
pub mod Messages
pub mod Prelude
pub mod Rhizome
pub mod Sync
pub mod Util
pub mod Xfer
