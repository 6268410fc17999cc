-- ===== src/Lib.antt =====
-- The order node of vorder, a permissioned block chain: what it keeps, how it packs and stores
-- blocks, and how the order nodes of a channel choose a leader. Paths below are from the repository's
-- root.
--
-- The parts, and the files that model them:
--   * Order.Raft: src/vbh_server/order/plugin/ord_cpas/order_channel_process_agent_service.{h,cpp}, the
--     leader election (CChannelProcessAgentService). Agent is its state; on_init, on_connected_nodify,
--     on_network_error, on_timer, raft_vote_time_out, receive_raft_heart_beat, get_raft_vote_rsp and
--     on_vote_rsp are the functions of these names (on_vote_rsp is OnHtsMsg(CRaftVoteCpsCpasRsp)). Each
--     returns the new state and the messages, timers and calls of the block service it makes, in order.
--     Order.Raft.Votes and Order.Raft.Leader hold the proofs.
--   * Order.Cps: src/vbh_server/order/plugin/ord_cps/order_channel_process_service.{h,cpp}, the block
--     service (CChannelProcessService). Cps is its state. Order.Cps.Pack has OnTimePackBlock,
--     DistributeBlock, OnTimeDistributeBlock and RollbackPartBlock; Order.Cps.Persist has
--     PersistentBlockQueueHeader, OnTimeRepersistence, the answers to a distributed block and OnInit's
--     recovery; Order.Cps.Submit and Order.Cps.Proposal have the two requests that add transactions;
--     Order.Cps.Sync has the synchronisation with a peer; Order.Cps.Regist has the registration of a
--     peer, the changes of state and OnNetworkError. Chain, Chained, Recovery, Crash, Submitted,
--     Requests, Proposals, Quorum and Recount below Order.Cps hold the proofs. The version table is an interface,
--     VersionTable, that Order.Cps.Versions fills from Storage.MultiUpdate.
--   * Block: src/vbh_server/vbh_server_comm/vbh_block_codec.{h,inl,cpp} and vbh_transaction_def.{h,inl},
--     the sequence numbers of transactions, CBlockEncoder and vbhDecodeMemBcBloc. Proofs in
--     Block.Sequence, Block.Encode and Block.Decode.
--   * Merkel: src/vbh_server/vbh_server_comm/merkel_tree/merkel_tree.{h,inl,cpp}, CMerkelTree in its
--     array. Proofs in Merkel.Root and Merkel.Leaves.
--   * Storage.Cache and Storage.Record: vbh_record_table.{h,inl,cpp} of
--     src/vbh_server/vbh_server_comm/vbh_const_length_storage, the page cache of CVbhRecordTable and a
--     record in its page. Storage.MultiUpdate: vbh_multi_update_table.{h,inl,cpp} there, the table of
--     write-set versions with its packages, its log and its recovery (CVbhMultiUpdateTable). Proofs in
--     the modules View, Pages, Edit, Pack, Persist and Log below them.
--   * Storage.Update: vbh_update_table.{h,inl,cpp} there, the table whose records a transaction changes
--     in place (CVbhUpdateTable), with the originals it keeps to undo them. Proofs in Undo, Pages,
--     Rollback and Run. Storage.Append: vbh_append_table.{h,inl,cpp} there, the table that gives each
--     record the next id (CVbhAppendTable). Proofs in Shows, Consecutive and Undone.
--   * Vbfs: the directory vbfs there. Vbfs.Device has a device as pread and pwrite show it, in bytes,
--     the entries of the file index in them, and the names of vbfs_comm.h; Vbfs.Raw is vbfs_raw.{h,cpp}, a device divided into files with an index of
--     them (CRawVbfs); Vbfs.File is vbfs_file.{h,cpp}, the same over files of the operating system
--     (CFileVbfs); Vbfs.Volumes is vbfs.cpp, the numbering of the files of a channel through its devices
--     (CVbfs). Vbfs.PageTable is vbh_page_table.{h,inl,cpp}, the pages of a table in these files
--     (CVbhPageTable); Vbfs.Store fills the tables' interface PageStore with them. Proofs in Vbfs.Entries,
--     Count, Index, Allocate, Reopen, Files and Grown below Vbfs.Raw, Handles and Full below
--     Vbfs.File, Locate and Opening below Vbfs.Volumes, and Reads, Writes, Held and Durable below
--     Vbfs.Store.
--   * Dqueue: src/vbh_server/vbh_server_comm/vbh_unite_dqueue.{h,inl}, the queue that links its clients'
--     nodes (CVbhUniteDqueue). Proofs in Links, Cut, Refines, Run and Walk.
--   * Base holds what the others share; Examples applies the theorems to concrete inputs.
--
-- How they interact: Order.Raft tells Order.Cps to become master or follower; Order.Cps encodes
-- transactions with Block, which adds each to a Merkel tree, changes the version table for each, packs
-- both into a block and a package, and stores the oldest package when enough peers have the block.
-- The tables keep their pages in a cache over a page table, which puts them into the files of a block
-- file system; the file volume keeps its open handles in a linked queue.
--
-- Parameters: the page store below the tables is the record PageStore, filled by Vbfs.Store.Held;
-- the codecs of the DSC library are HostCodec, LogCodec, ItemCodec and BlockCodec, each of one value,
-- with the laws that decoding undoes encoding (LogCodec has a number and a page, ItemCodec a queue of
-- the library); whether an open, pread, pwrite or ftruncate succeeds is a
-- Boolean, and what the database offers when a device is full is a list; vbhDigest is a function;
-- the order in which an unordered_map is iterated is a function, under IsOrder; the results of
-- SendHtsMsg are a list of Booleans.
--
-- Bounds: terms, counts of votes, counts of answers, serial numbers and the lengths of queues wrap
-- around as in the source; block ids, allocated ids and buffer sizes are counted up without a wrap,
-- where the source has 64 bits, or 32 for sizes. The loops over a level of a tree and over its levels
-- run on fuel, the number of nodes, which is enough, since a level at least halves (Merkel.Root).
-- Size of a queue runs on fuel, and one more than the number of nodes is enough (Dqueue.Walk). Ids of
-- files wrap around in 32 bits, addresses on a device and record ids in 64. A
-- well-formed raw device has an index whose size fits into 32 bits, as the source has it. An operation gives none
-- where the source reads through a null pointer or reads memory never written.
--
-- Not modelled: the opening and closing of files and of the tables on them, except Open of a raw
-- device and of CVbfs behind its queries, the memory allocation, the choice of the best peers after a
-- change of leader, the encryption library, and the start-up code and connections of the DSC framework.
pub mod Base
pub mod Block
pub mod Dqueue
pub mod Examples
pub mod Merkel
pub mod Order
pub mod Storage
pub mod Vbfs
