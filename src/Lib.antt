-- ===== src/Lib.antt =====
-- zql answers requests of clients for rows of a MySQL database, and keeps columns whose names end
-- in `_ope` in order without seeing their plain values: the client steers the insertion of an
-- encrypted value through a search tree of the server, one comparison a message, and the row is
-- stored under a number that is the place of the value in the tree.
--
-- The parts, and the files here that model them:
--
-- lib/Cbor.h, lib/Cbor.cpp: the binary format of the messages. Cbor/Output is CborOutput, a buffer
-- with a capacity and an offset (putByte is put_byte, putBytes is put_bytes, getData and getSize
-- together are sent). Cbor/Writer is CborWriter: a writer holds only its output, so each method is
-- a function from an output to an output; the overloads of writeTypeAndValue and writeInt carry
-- the width in their names (write_type_and_value_64, write_uint32). Cbor/Input is CborInput, and
-- CborReader with its loop Run is Cbor/Reader: a state of CborReaderState is a clause of step_in,
-- the tests on the first byte are in Cbor/Reader/Head, the other states in Cbor/Reader/Body, and
-- run in Cbor/Reader/Loop is the loop. The listener of the reader is a record of functions on a
-- state of its own.
--
-- lib/objects/Request.h, Request.cpp, Response.h, Response.cpp, Tags.h: the messages.
-- Objects/Request and Objects/Response have the classes as records and data types, and the
-- Serialize methods as serialize_get and so on. std::string is a list of bytes and map<string,
-- string> a list of pairs in the order of their keys (Objects/Row).
--
-- lib/objects/ObjectParser.h, ObjectParser.cpp: the parser, a listener of the reader that calls a
-- listener of its own for each whole message. Objects/Parser has its 28 states and its fields,
-- Objects/Parser/Machine its callbacks and Objects/Parser/Run its Run. currentObject is a value of
-- a sum of the classes that it is cast to; a cast to another class is the result none.
--
-- lib/BTree.h, lib/BTree.cpp: the trees (BTree), the walks of clients in them with goToLeft and
-- goToRight (BTree/Traverse), and the walks under the ids of requests (BTree/Holder). Nodes are an
-- append-only list and a pointer is an index.
--
-- plugin/Worker.h, Worker.cpp: the worker of the daemon, Worker. Worker/Answer has each handler up
-- to the response that it sends (OnRequestAddContinue is answer_continue, and its parts turn_walk,
-- after_turn and finish_walk), Worker/Fields hasEnding, formatPath and the loops over a row, and
-- Worker/Listener the worker as the listener of its parser, with the buffer that it serializes a
-- response into, and the loop of run (serve), in which a message is a step. BTreeForest and
-- BTreeTraverseHolder are single objects of the program, so they are in the state of the worker.
--
-- plugin/Database.h, Database.cpp: the database of a worker. Worker has it as an interface, the
-- record Database of Worker; Database/Access has the methods get, add and execute, and
-- Database/Handle fills the interface with them. The MySQL server is not in the repository: the
-- record Server of Database has its calls as functions on a state, and nothing is said of them but
-- what a theorem names as a hypothesis, such as KeepsFields of Database/Adding. Database/Threads
-- has initThread and deinitThread over the counters of the server, and the object thr_init of a
-- worker's thread, whose beginnings and ends are the steps of Ran.
--
-- plugin/ZqlDaemon.h, ZqlDaemon.cpp, zql.cpp, and the constructor and destructor of Worker:
-- Daemon. The calls of pthread and ZeroMQ are the record System, and KeepsThreads of
-- Daemon/Threads names what is relied on of them. ZqlDaemon::run is open_daemon up to zmq_proxy
-- and close_daemon from there.
--
-- plugin/test.cpp: the client, Client. An InsertExecutor sends a row, answers each question of the
-- worker with a comparison, and ends at the worker's last response; Client/Conversation puts
-- client and worker together. Client/Listener has the executor as the listener of responses, under
-- the ids of its requests in requestListeners (GlobalResponseListener is client), Client/Exchange
-- the messages of client and worker back and forth, and Client/Queue the queue of executors: a
-- step of Reachable is one of client_thread (tests, sends) or of main (takes, runs, and the
-- responses hears_ok and hears_traverse). An executor's address is its index in the list of those
-- that were made.
--
-- The parts meet where the worker runs the parser over a message, asks the trees, the walks and
-- the database, and writes its answer with the writer: Objects/Wire composes the serializers with
-- the reader and the parser, Worker/Wire the client's serializer with the loop of the worker, and
-- Client/Insertion the client with the handlers. Worker/Clients has any number of clients at one
-- worker, whose messages come in any order: a step is a message and its answer, or a change of the
-- bytes that the ciphertexts point to. Objects/Wire/Encoding has the bytes of each message as a
-- function of its own. BTree/Search has the abstract view of a tree: which value stands at which
-- place, and how the values compare with the order of the places; BTree/Memory has the trees
-- whatever the bytes of their ciphertexts are.
--
-- Bounds and fuel: the loop of the reader runs on fuel, a unit for each round. A round takes at
-- least one byte in or goes from the head of an item to its body, so two rounds a byte and one
-- more are enough for a message without the byte 0x3b, on which the loop may not end. Widths are
-- written out: unsigned char as % 2 ^ 8, int as to_int32, unsigned long long as % 2 ^ 64 in the
-- shifts of a walk. The capacity and the offset of a buffer and the length of a walk are numbers
-- without wrap-around, as they stay below 2 ^ 31 in the program's buffers of 9000 and 10000 bytes;
-- the sum that putBytes tests is an int that wraps.
--
-- At depth 64 the shift of a walk's code is undefined, so what is said of walks asks for a depth
-- below 63. A conversation of a client runs on a unit of fuel for each request, and the fuel is
-- chosen from the depth of the tree. The exchange of messages in Client/Exchange runs on a unit of
-- fuel for each request and one for the end. The loop of Database::get runs on a unit of fuel for
-- each row and one for the end.
--
-- Undefined behaviour is a result of its own: a read outside the input or an allocation of a
-- negative size is fault, a wrong cast is none, and so is the dereference of a missing node or a
-- shift by a negative number in a walk.
--
-- Not modelled: what sockets do, so that messages are lists of bytes that come once and in order,
-- without the frames of the identity and the delimiter that ZeroMQ takes off; handlers of several
-- workers at once, since a message is handled in one step, where the program has 30 workers on the
-- same trees without a lock; the tables in plugin/zql.cpp that declare the plugin,
-- plugin/RequestObject.h, an unused class, and libzql/zql.cpp, which sends its argument; the
-- sleeps of the client and the seed of rand; the listeners and macros that only print; the
-- allocation of the messages' objects and their deletion.
--
-- A Ciphertext stands for the bytes that its pointer leads to at the time. Those of a value that
-- comes with a request are the bytes of a local string of OnRequestAdd, which is gone after the
-- handler, so a later handler finds there what the memory holds by then. The functions of a
-- handler take the bytes as they are when it begins, and between two messages they may become any
-- others (the step fades of Worker/Clients, and memory in Client/Conversation). What is said of
-- one call of goToLeft, goToRight, createTree or OnRequestAddContinue speaks of the bytes as that
-- call finds them. removeTraverse deletes what the erased entry of the map held, which the program
-- reads after the erasure.
pub mod Prelude
pub mod Cbor
pub mod Objects
pub mod BTree
pub mod Worker
pub mod Client
pub mod Database
pub mod Daemon
mod Tests
