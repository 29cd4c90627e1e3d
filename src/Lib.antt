-- ===== src/Lib.antt =====
-- Verification library of the corosync cluster engine.
--
-- The program. corosync keeps a group of nodes in agreement. Each node runs one event loop. At the
-- bottom, exec/totemsrp.c passes a token round a ring of nodes and orders the messages with it; a node
-- that does not hear the token gathers a new ring with the others. exec/totempg.c packs messages into
-- its packets, and exec/totemknet.c, totemudp.c and totemudpu.c carry them. On top, the services of
-- exec/ (votequorum.c, cpg.c, cmap.c, cfg.c and others) get the ordered messages, the steps of the
-- synchronisation that exec/sync.c runs after each new ring, and the requests of their clients, which
-- lib/ sends by IPC. The vote quorum service decides whether this node's partition may work.
--
-- What is modelled, one file or directory for each part:
--   CsQueue       exec/cs_queue.h, the queue of messages that wait for the token
--   SortQueue     include/corosync/sq.h, the messages received out of order, by sequence number
--   Totemsrp      exec/totemsrp.c: the set operations (Sets), and the consensus, the join message, the
--                 GATHER state, the commit token's contents (Membership), and these as one step function
--                 over what can happen (Membership/Events); the flow control of the token (Flow), the messages a
--                 node sends when it holds the token, over both queues (Multicast), those it gives up
--                 (Release), up to where all messages are received (Received), the retransmit list
--                 (Retransmit), the delivery (Deliver); and a whole node with message_handler_mcast and
--                 message_handler_orf_token, which are composed of these (Node, Node/Token, Node/Handler)
--   Sync          exec/sync.c: the two messages, the scheduled work, the start and the abort of a round
--   Totempg       exec/totempg.c: the packets (Packets), mcast_msg and the token callback (Send), the
--                 buffer of a receiver and totempg_deliver_fn (Assembly), a node that uses them (Runs)
--   Ykd           exec/vsf_ykd.c, the other choice of the primary component: its sessions, compute, decide,
--                 the delivery and the configuration change
--   Votequorum    exec/votequorum.c: the static variables (State), the node list (Nodes), the auto tie
--                 breaker (TieBreaker), the quorum calculation (Quorum), the messages between nodes
--                 (Messages), the synchronisation and the timers (Sync), the clients' requests
--                 (Requests, Requests/Device), and all of these as one step function (Service)
--   Prelude       lists, 32 bit words, arrays, ring slots and Boolean tests that these share
-- Functions keep their names, without the prefix of their file where the module has it: sq_item_add is
-- SortQueue.item_add, message_handler_req_exec_votequorum_nodeinfo is nodeinfo_handler.
--
-- How code becomes definitions. A struct or the static variables of a file are a record, and an operation
-- gives the new record. `none` is a failed assertion, or another end of the process, unless the
-- definition's comment says that it is an error value. What the environment does is an argument: whether
-- malloc answers, whether the totem layer takes a message. Calls into icmap, totem, IPC and the timers are
-- the list `outputs` of Votequorum.State. C arrays are functions of their index or lists of their entries,
-- pointers into the array of nodes are indices, so that two of them may be the same node. Numbers of 32
-- bits wrap at 2 ^ 32, signed ones are their bit patterns; the quorum is kept in 8 bits, as in the source.
-- Loops over lists are structural recursion, so none of them needs fuel; CsQueue.Iterate counts the
-- steps of a caller's loop, which are one more than the items, and the loop of mcast_msg, which may come
-- back to the same iovec, has one more than the bytes of the message, since each turn sends or copies one.
--
-- What is not modelled. Of exec/sync.c, the names, the bounds of its arrays and the header of a message; its
-- qsort is a sort that keeps the order of equal services. Of exec/totempg.c, the lists of assembly buffers, the groups and their names, the
-- configuration changes and the other byte order; its threaded mode's locks. Logging and statistics change nothing that is decided. The bytes of a quorum
-- device's extra_nodeinfo are only carried. Votequorum.Service has no event for a reload of the
-- configuration, for the start and the stop of tracking, or for votequorum_sync_abort, and no packet of
-- the other byte order. The arrays of Totemsrp have PROCESSOR_COUNT_MAX entries, which the source does
-- not test, and no more nodes than that are in a ring; its own node id is not 0, as its assertions want;
-- when its timers run, the tests of the state and the ring at the start of message_handler_memb_join
-- and the heartbeat are left out, and so are the recovery of the old ring's messages and
-- memb_state_operational_enter, an argument of Node/Handler. A message in Node has no header but what says where
-- it goes: its number and ring are those of its place, and bytes in the other order are a flag of it. The
-- sort queues of Node have QUEUE_RTR_ITEMS_SIZE_MAX places, the source's 16384. What the callbacks of the
-- token and the network do in a turn is the argument `arrivals`. In the theorems about Node, `ring` is the
-- sequence of the messages of a ring, message `d` having the number base + d in 32 bits.
-- A node's runs (Node/Runs) are those against one such sequence: the packets are messages of it, and what
-- the node sends in a turn is its next part, so that the turns of two nodes never number two messages alike;
-- a token that a node has seen before may come again at any time (Node/Seen).
-- The mutex of cs_queue.h is left out: each operation is one step. The other files of exec/, the
-- clients and the tools are not modelled.
pub mod Prelude
pub mod CsQueue
pub mod SortQueue
pub mod Sync
pub mod Totempg
pub mod Totemsrp
pub mod Votequorum
pub mod Ykd
