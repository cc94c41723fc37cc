-- ===== src/Lib.antt =====
-- nfs-mamont: an NFS version 3 server over TCP, with a port mapper and the mount protocol.
--
-- A connection (src/tcp.rs) reads bytes and hands them to a message handler, which puts records
-- together from fragments and submits each record as a command. One worker per connection runs
-- its commands in order: it decodes the RPC message, checks the version, the credentials and the
-- transaction tracker, and passes the call to a program. What the programs answer goes back to
-- the socket as records. All connections share the tracker, the port mapper's table and the file
-- system. The files:
--   Prelude: shared names; results, hash maps as association lists, words as bytes, bit masks.
--   Xdr: src/protocol/xdr. Reader has readers, writers and codecs (the traits Serialize and
--     Deserialize); Basic the types of XDR itself, Signed the signed words and the floats, as bit
--     patterns; Rpc, Portmap, Mount and Nfs3 the messages. A child RoundTrip has the proofs.
--     Xdr.Order is the crate byteorder, a parameter.
--   Vfs: src/vfs.rs. The trait NFSFileSystem is a record over a type of states; handles and paths.
--   Rpc: src/protocol/rpc. Fragment is read_fragment and write_fragment; Connection is
--     SocketMessageHandler::read and the loop of process_socket; Queue is command_queue.rs;
--     Tracker is transaction_tracker.rs; Context is context.rs; Dispatch is handle_rpc;
--     Service is process_rpc_command, with the worker that runs it.
--   Portmap: src/protocol/nfs/portmap. Table has the laws of the table, Procedures the answers,
--     Dispatch the handler, Dump what a client reads in the answer to DUMP.
--   Mount: src/protocol/nfs/mount. Text has the functions of `str` that mnt.rs calls.
--   Nfs: src/protocol/nfs/v3. Attributes, Data, Directory, System, Access and Listing have the
--     procedures, with the counter of src/write_counter.rs as a number in Listing; Handler is
--     handle_nfs. ReadOnly, Rights, Requests, Handles and Listing.Budget have proofs.
--   Tcp: src/tcp.rs. The listener, on a network that is a record of calls; Socket is the select
--     loop of process_socket, on a list of events in the order in which they come. Decimal,
--     Binding and Export are about addresses and the name of the export, Traffic about what
--     passes through a connection, Served about the answers that a client gets over it.
--   WriteCounter: src/write_counter.rs, over any writer.
--   Demo: examples/demo_fs. Names has LOOKUP, GETATTR, READLINK and READDIR, Contents READ, WRITE,
--     SETATTR and COMMIT, Tree CREATE, MKDIR, SYMLINK, MKNOD and LINK, Moves REMOVE and RENAME;
--     Session puts them in sequences of requests. Invariant is what entries keep to, with a child
--     per group of calls; Answers is that calls do not panic; Splice, Files, Resized, Directory,
--     Unlinked, Pages and Faults are about the bytes of files, names, removal, listing and panics.
--   FsUtil: src/fs_util.rs, with the operating system as a parameter: a record of its calls.
--   Mirror: examples/mirror_fs. Mirror has the state of a call, Map fs_map.rs, Calls and Changes
--     fs.rs; Consistent and Renaming are about the paths of the map leading to entries of their
--     names, Keeping has a rule for each step and each method, Session puts the methods in sequences
--     of requests, Symlinks is about entries that are symbolic links.
--   Tests: runs at concrete inputs, and an instance of each theorem that has hypotheses.
--
-- State and operations. A mutable object is a record, and an operation returns it anew. What is
-- shared between connections is Rpc.Context.World, and a call that holds a lock is one step on it;
-- so the tracker's behaviour under any interleaving is a statement on sequences of its calls. The
-- clock is an argument of what reads it. A write to an output buffer is the bytes it appends or an
-- error; a reader takes bytes off the front of its input. A hash map is an association list with
-- distinct keys, whose order stands for the order of iteration. A byte is a number below 256.
--
-- Fuel. The reading loop runs on the length of its input and one more, and every read takes a
-- header of four bytes; write_fragment runs on the length of the buffer and one more, and every
-- round sends a byte; a list of mappings is read with the length of the input and one more. Each
-- is enough, as Rpc.Connection.Loop, Rpc.Fragment.Write and Xdr.Portmap.RoundTrip show.
--
-- The pipe between the select loop and the reading task is the bytes that have gone into it; its
-- capacity only delays. handle_forever runs for a number of rounds, as it need not return.
--
-- A procedure is given the state of the file system and returns it, with all that it writes. The
-- count of READDIR is taken from a 64-bit number, with the wrap-around of a release build.
--
-- The demo file system has its entries in a list and the bytes of files in a list of blocks: an
-- `Arc` is a position in it, and the hard links of a file have the same one. A method is an action
-- on that state, and ends with a result, a status or a panic; what it has changed stays changed. A
-- panic under the mutex sets `poisoned`, and to lock a poisoned mutex panics. Clients are a sequence
-- of requests: each method holds the mutex until it returns, but for WRITE and CREATE, which release
-- it and take it again for the GETATTR that they end with; no other request is put in between.
-- `SystemTime::now` is a function of how often it has been called. A `usize` has 64 bits and wraps
-- round, as in a release build, and `Vec::resize` panics above `isize::MAX`, 2 ^ 63 - 1.
--
-- A call of the mirror file system is an action on the world of the operating system and the map;
-- a path is what the root begins with and the names that are pushed on it, and what they mean is
-- left to the operating system. intaglio's table of symbols is a record of its operations. The
-- recursion of collect_all_children is bounded by `depth`, the number of visits: the children
-- lists come from the operating system, so that no bound is known, and the results hold for every
-- `depth`, the one on symbolic links for every one above 0. READ and WRITE of the mirror release
-- the mutex before they use the file and do not come back to the map; no other call is put in
-- between. A number for a new entry has 64 bits; what is said of a sequence of requests holds
-- until these numbers run out.
--
-- Not modelled: main.rs of the examples; accessors that nothing calls; Debug and Display; the
-- conversion of times for the crate filetime; set_nodelay; logging. An allocation of at most
-- `isize::MAX` bytes is assumed not to fail.
pub mod Prelude
pub mod Xdr
pub mod Vfs
pub mod Rpc
pub mod Portmap
pub mod Mount
pub mod Nfs
pub mod Demo
pub mod Mirror
pub mod Tests
pub mod FsUtil
pub mod Tcp
pub mod WriteCounter
