-- ===== src/Lib.antt =====
-- naruto: a key-value server in C++ with master-slave replication over an append-only file.
--
-- A command comes in as a pack: a head with the length of the whole, a flag and a type, and behind it a
-- protobuf message. The worker that executes a command that writes puts the pack, behind a number from a
-- counter that all workers share, into a buffer of its own (Replication::backlogFeed). On a timer the
-- buffers are merged in the order of the numbers into one log (_merge_backlog_feed_slaves), and the log is
-- written to the append-only file (_backlog_flush), which is cut into numbered files (RotateFileStream). A
-- server that starts, and a master that synchronises a slave, reads the packs back from these files
-- (File::loadFile).
--
-- The files of this library:
--
-- Prelude   lists, slices, predicates, sorting and integers over the native numbers.
-- Codec     a number as its little-endian bytes: what the reads and writes of utils/bytes.h do on the
--           machines that the server is built for.
-- Bytes     utils/bytes.h and utils/bytes.cpp: Bytes with the read and write positions. Each operation
--           that moves a position returns the new buffer. uint32_t is ℕ with % 2 ^ 32.
--           Bytes/Write and Bytes/Ends are about one write and about writing at the end, Bytes/Fields
--           about sequences of fields, Bytes/PackLayout about putMessage, Bytes/Search about the
--           operations on whole contents.
-- Pack      utils/pack.cpp: the three ways of serialize and the two of deSerialize. A message stands as
--           the bytes that it serialises to, so parsing is the choice of these bytes; `none` is a read
--           behind the array.
-- Loader    utils/file.cpp, loadFile: the calls of the callback as a list of entries. The outer loop has
--           a round more of fuel than the file has bytes and each inner loop one more than its buffer.
--           `none` is the overflow of the stack at a length word of 4 to 7, or the loop that does not end
--           behind a seekg that fails.
--           Loader/Drain, Whole and Straddle are about files of packs, Loader/Ending and Total about any file.
-- Sink      sink/rotate_file_stream.cpp: the directory is a function from the index of a file to its
--           contents.
-- Backlog   replication/replication.cpp: the two sets of the workers' buffers, the counter, the log and the
--           merge. A call of backlogFeed is one step, so the order of the calls is the order of the
--           numbers: that the counter is loaded and incremented by two instructions is not modelled. The
--           positions of the merge are the 32 bits of an int, and `none` is one before or behind the array. The
--           loop of the merge has a round of fuel for each byte of the buffers and one more.
--           Backlog/Merge, Round, Order, Start and Fuel are about the merge, Backlog/Feed and Issue about the
--           calls, Backlog/Rounds and Whole about a whole round, Backlog/Runs about many.
-- Crc       utils/crc.cpp, crc16, with its table.
-- Buckets   database/buckets.cpp: the slots, and in them the rows and columns as lists of pairs without
--           the hash tables' order. Buckets/Lookup is about what get finds.
-- Objects   database/: the objects behind an element and the features they are sent as.
-- Hset      command/command_hset.cpp, execMsg, and the fields of command/command_hget.cpp. The elements
--           are in a store and shared pointers are addresses; `none` is a null pointer that is
--           dereferenced. Hset/Owned is about the store, Hset/Exec and Hset/ReadBack about the commands, and Hset/Answer tells
--           what HSET answers without the code's own tests.
-- Dump      database/buckets.cpp, the bodies of the loops of dump and parse: an element and its feature, with
--           times cut to milliseconds. Dump/RoundTrip is about both.
-- ReplState replication/replica_state.h: replState and the record that is kept in a file.
-- Bgsave    replication/replication.cpp, bgsave and onBgsaveFinish, in the parent process. Times are in
--           milliseconds, and a pid of -1 is `none`. Bgsave/Position is about the position that is kept.
-- Restore   database/buckets.cpp, parse and flush on the whole database. What protobuf makes of the bytes of
--           a message is the parameter `decode`.
-- Psync     command/command_psync.cpp: the master's side of a synchronisation. The files are their sizes. An
--           offset is its 64 bits. Psync/Agree sets it against the slave's side.
-- Replica   replication/replication.cpp: the slave. Each handler of the event loop is a function from the
--           state of the slave to the next, and `none` is the end of the process by an assertion, a null
--           pointer, a write behind an array, watchers that are started on the descriptor -1, or the exception
--           of a read or write of the link. What the handlers meet outside is an argument: whether the
--           connection is made, the socket's error, whether the PING is written, the type of the pack that is
--           read or its exception, the reply, whether a file opens or is renamed.
--           Replica/Transfer is onReadSyncBulkPayload, Replica/Cron the first half of onReplCron.
--           Replica/Safety and the modules Safety below it are about the state that the handlers keep,
--           Replica/Runs about the handlers one after another, Replica/Retry about the timeouts,
--           Replica/Handshake about the way to a connection.
-- AofName   utils/file.cpp: the names of the append-only files and the list of a directory. `none` is an
--           exception of std::stoi. Ten digits are enough for an int. AofName/Names and AofName/Directory are
--           about numbered names.
-- SlaveFeed replication/replica_link.cpp: the sending of a database and of the append-only files to a slave.
--           The directory is a function from names to contents. Five rounds are enough for the loop, as the
--           fourth has read all that is sent at once. SlaveFeed/Bulk and Closed are about the database,
--           SlaveFeed/Increment and SlaveFeed/Sent about the files.
-- Commands  command/commands.cpp and command/command_aof.cpp: the table, what a slave does with a message of its
--           master, and replication/replication.cpp's replay of the files at the start. `none` is the null
--           pointer of a number that the enumeration does not have, or of an HSET (Hset).
--           Commands/Replay sets the two against each other.
--           Commands/CatchUp goes from a master's file to a slave's database, Commands/Replicated from the
--           commands of its workers.
-- Connection connection/connection.cpp: the loops of send and read_. The results of the calls of the socket
--           library are a list, at whose end the call blocks. Connection/Framing is about send,
--           Connection/Whole about read_. Connection/Setup is connect and reconnect over the results of their
--           calls, with the descriptors that are open; the loop at retry runs over the answers of ::connect, of
--           which ten are enough. Connection/Setup/Result and Leak are about what they come to.
-- Link      link/client_link.cpp: a link with its two buffers, and exec of the commands of a client over it. What
--           protobuf makes of the messages is the parameter Messages. Link/Stream lets ::recv take as many bytes as
--           it is asked for; Link/Queue goes from sendMsg to the reads of the peer, Link/Serve from the bytes of a
--           request to the answer.
-- Workers   naruto.cpp and connect_worker.cpp: onAccept, onAcceptRc and onAsync over the queues of the workers,
--           and the end of a watched link by close of link/client_link.cpp.
--           Workers/Owned is about the numbers of the links, Workers/Shared about how many each worker has.
-- Pool      connection/connection_pool.cpp: fetch and release, one call at a time under the lock. What is
--           released while a fetch waits wakes it (`woken`). Pool/Bounds counts the connections.
-- Slaves    replication/replication.cpp: the list of a master's slaves, the second half of onReplCron but for
--           the merge, and replConfFlush. Slaves/Dropped is about who is kept.
-- Cluster   cluster/cluster_node.h, cluster/cluster_view.cpp and cluster/cluster.cpp: the flags of a node,
--           checkOffline, updateView and the timer, over nodes that are references into a heap.
--           Cluster/Offline is about the suspicion of nodes, Cluster/Quorum about the state.
--           Cluster/Gossip is randomNode, ping, gossip and checkReplica, and desc of cluster/cluster_node.cpp; what
--           the random engine draws for a seed is a parameter, and the rounds of the two loops that need not end
--           are bounded by fuel. Cluster/Asked is about the node that is asked, Cluster/SameSecond about the
--           seed, Cluster/Described about desc. Cluster/Meet is exec of command/command_meet.cpp and
--           command/command_nodes.cpp on the parsed message, Cluster/Meet/Listed about both.
-- Tests     runs on concrete inputs.
--
-- A slave's handlers share the state of Replica with the commands SLAVEOF and PSYNC; the packs that a master
-- sends are those that Backlog puts into the files of Sink, read by the loop of Loader, and the database
-- that it sends is what Restore reads from a dump.
--
-- Not modelled: the event loops, sockets and threads, the clock, protobuf and the configuration files in
-- JSON. std::sort leaves the order of equal keys open; the numbers sorted here are all different. There is no model
-- yet of checkLink and the links of the cluster, and the rest of the start and the stop of a server.
pub mod Prelude
pub mod Codec
pub mod Bytes
pub mod Pack
pub mod Loader
pub mod Sink
pub mod Backlog
pub mod Crc
pub mod Buckets
pub mod Objects
pub mod Hset
pub mod Dump
pub mod ReplState
pub mod Bgsave
pub mod Restore
pub mod Psync
pub mod Replica
pub mod AofName
pub mod SlaveFeed
pub mod Commands
pub mod Connection
pub mod Link
pub mod Workers
pub mod Pool
pub mod Cluster
pub mod Slaves
mod Tests
