-- ===== src/Lib.antt =====
-- zedis: a single-threaded key-value server in C that keeps all of its data in one fixed mapping.
--
-- The program. At start an arena (src/arena.c) maps memory, and every table is cut from it: the hash table
-- of string keys (src/hash_table.c), the two key registries over such tables, the B+tree of sorted sets, the
-- ring of published messages (src/ring_buffer.c), the order book (src/order_book.c) and the slab of
-- connection buffers; lists live in an append log. The event loop reads bytes into the RESP parser of a
-- connection (src/resp_buf.c, src/resp_scan.c, src/resp_decode.c), the server dispatches each parsed array
-- as a command to one component, and writes a reply in RESP form (src/resp_format.c).
--
-- The files.
--   Base: what the others share: native numbers and lists, integers, wrap-around of `size_t`, runs with
--     undefined behaviour, byte arrays and `memcpy`.
--   Arena: `zedis_arena_init` is `init`, `zedis_arena_alloc` is `alloc`, `zedis_arena_calloc` is `calloc`.
--   Ring: `zedis_ring_init`, `zedis_ring_publish`, `zedis_ring_poll` are `init`, `publish`, `poll`; Ring/Queue
--     is the bounded queue it stands for.
--   OrderBook: `zedis_book_init`, `_bid`, `_ask`, `_level` are `init`, `bid`, `ask`, `level`.
--   HashTable: `zedis_ht_init`, `_set`, `_get`, `_del` are `init`, `set_key`, `get`, `del`; the loop of a set is
--     `set_loop` over a cursor, the loop shared by get and del is `probe`. HashTable/Dictionary holds the
--     dictionary it stands for.
--   Resp: Buffer holds `resp_parser_feed` (`feed`), `resp__compact` (`compact`) and the direct write into the
--     buffer (`write_in`, `commit`); Scan the line and number scanners; Decode `parse_value`, `parse_array`
--     and `resp_parser_next` (`next`); Resp/Decode/Grammar says which bytes encode which value; Format the replies.
--   Slab: `init_pool`, `zedis_slab_init` (`slab_init`), `zedis_slab_alloc` (`slab_alloc`) and `zedis_slab_free`
--     (`slab_free`), with the links that stand in the blocks.
--   AppendLog: `zedis_aol_init`, `_lpush`, `_lrange`, `_llen` are `init`, `lpush`, `lrange`, `llen`; the bytes of a
--     record are `header` and what follows it. AppendLog/Chain holds the sequences that the chains stand for.
--   BTree: the nodes and members, `find_member` and `zedis_btree_init` (`init`); BTree/Insert holds the splits,
--     `insert_nonfull`, `insert_entry`, `rebuild_btree` and `zedis_btree_add` (`add`), BTree/Read `zedis_btree_score`
--     (`score`), `count_entries`, `collect_inorder` and `zedis_btree_range` (`range`). BTree/Owned
--     says which nodes and entries belong to a subtree.
--   KeyRegistry: `zset_index_for_key` and `list_index_for_key` are `index_for_key`; `zedis_list_reg_*` are
--     `list_reg_*`, and in KeyRegistry/Zsets `zedis_zset_reg_*` are `zset_reg_*`. KeyRegistry/Lists holds the
--     map from keys to lists that registry, table and log stand for.
--   Conn: `write_buf_append`, `conn_flush` and `conn_queue_write`, with the answers of write(2) given.
--   Metrics: `zedis_metrics_init`, `_record_command`, `_maybe_write` are `init`, `record_command`, `maybe_write`,
--     with the clock's answer given.
-- Each component's Tests hold runs on concrete data and the theorems at concrete inputs.
--
-- How C is read. A function that returns -1 or NULL returns `failed` or `none`; out-parameters are results.
-- `size_t`, `uint64_t` and `uint32_t` wrap; a signed overflow, or a store outside the storage of a slab pool,
-- is the result `undefined` or `overflow`. A count that an `int` cannot hold is cut as the conversion to `int`
-- does it (`to_int`) in the reply formats; in the B+tree, where it would overflow, it is `none`.
-- A NULL argument, which no caller passes, has no counterpart. A destructor
-- (`destroy`) leaves a record of zeros.
--
-- Bounds and fuel. The loops of the hash table run on fuel: the capacity for a set, one round more for a
-- search; as a free slot lies ahead, they end before. A parsing call has fuel for three nested calls of the
-- model per received byte: each value of the input takes a byte at least, and stands at most three
-- calls below the one around it. The scanning loops count down the bytes that are left.
--
-- `find_member`, `count_entries`, `collect_inorder` and `insert_nonfull` of the B+tree go down one level per
-- unit of fuel, and get one more than the tree can have nodes. A flush consumes one answer of write(2) for
-- each call; as an answer is at least one byte, no more calls are needed than bytes wait.
--
-- Not modelled: the parser's node allocator (the model's nodes never run out), the read side of
-- connections, event loop, the text of the metrics snapshot, command dispatch and configuration;
-- src/resp.c, a copy of the resp_*.c files that is not built; CPU affinity, a single system call.
pub mod Base
pub mod Arena
pub mod Ring
pub mod OrderBook
pub mod HashTable
pub mod Resp
pub mod Slab
pub mod AppendLog
pub mod BTree
pub mod KeyRegistry
pub mod Conn
pub mod Metrics
