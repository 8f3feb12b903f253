-- ===== src/Lib.antt =====
-- A model of hector_core, the library of a server that passes resources through processors of modules.
--
-- The program. A processing engine (lib/processing_engine/ProcessingEngine.cc) owns processors
-- (lib/processing_engine/Processor.cc). A processor has an input queue (lib/SyncQueue.h), a list of
-- modules for each of its threads, and output filters that put resources into the queues of other
-- processors or into the output queue of the engine, from where they are collected. The engine counts
-- the resources that its processors hold, and in batch mode reports to the server when all processors
-- sleep and the count is 0. Resources are created and kept for another use by a registry
-- (lib/processing_engine/ResourceRegistry.cc), and written and read by streams.
--
-- The files. Each module stands for a part of the code, and each definition for the function or type
-- that its name spells in another style.
--   Prelude         shared names, tests on numbers, lists measured by native numbers, C integers
--   SyncQueue       lib/SyncQueue.h: a sub-queue in Simple, the blocking calls in the parent, PutItems
--                   and GetItems in Batch. A critical section is a function of the state of the queue;
--                   where the code waits it returns `waits`, and the function named `resume` is the
--                   section that follows. Threads has the threads that share a queue, with the
--                   broadcasts of lib/CondLock.h: a step is one section of one thread. A thread may
--                   wake without a signal. Order, Take, Valid, Restart and the children of Threads
--                   hold the lemmas.
--   Processor       lib/processing_engine/Processor.cc: Apply is ApplyModules and the check of the
--                   modules in Init, Route is QueueResource and the discarding of deleted resources,
--                   over lib/processing_engine/OutputFilter.h. The queues that filters put to are an
--                   interface (Route.Queues), which Route.Store implements with SyncQueues;
--                   Route.Connect is Connect. Read and Multi are the two halves of a round of
--                   RunThread: the reading up to the first multi module, and the calls of the multi
--                   modules. The calls of UpdateResourceCount are kept as a list, in their order.
--   Engine          lib/processing_engine/ProcessingEngine.cc and .h: Sleep has CheckSleeping and the
--                   counters, Control the run and pause state, Collect GetProcessedResourcesOrdered
--                   and, in Unordered, GetProcessedResources. Threads has UpdateSleeping and
--                   ThreadFinished of lib/processing_engine/Processor.cc; Delivery and Reports say how
--                   the calls of the server and the engine arrive, which both make behind their locks.
--                   A section under the lock of the object is a function, and a run is any sequence of
--                   sections, as threads interleave.
--   CallEngine      lib/processing_engine/CallProcessingEngine.cc: ReadWrite and Process over an
--                   engine that is an interface (Target) with a contract (Steady.IsEngine), which
--                   Served fills with the collecting operations of Engine. Rounds and Whole hold the
--                   lemmas.
--   Server          lib/processing_engine/Server.cc: the reports of the engines and the end of a batch
--                   run. A section of a thread needs the locks to be free that it takes; Finish and
--                   Deadlock hold the lemmas.
--   Resources       lib/processing_engine/ResourceRegistry.cc and .h
--   Objects         lib/MemoryPool.h, lib/ObjectRegistry.cc and lib/ObjectProperties.h, the maps from
--                   strings in Maps
--   Streams         WriteString and ReadString of lib/processing_engine/ResourceOutputStreamText.h and
--                   ResourceInputStreamText.h in Text, the frame of a resource of
--                   lib/processing_engine/Resource.cc in Frame
--   Storage         lib/processing_engine/module/Load.cc and Save.cc: Load and Save have the
--                   operations, over a stream and a log of what is written; RoundTrip puts the frames
--                   of Streams between.
--   IpAddr          lib/IpAddr.cc and lib/IpAddr.h
--   Http            lib/server/SimpleHTTPConn.cc: Header is ParseRequestHeader, Request the reading of
--                   a request and Clear, Response the response and its sending, Serve the loop of
--                   lib/server/SimpleHTTPServer.cc. The results of the system calls are lists; the
--                   children Line, Fields, Whole, Body, Ends and Fuel hold the lemmas.
--   Common          lib/common.cc and lib/common.h: Trim, Split, Replace, Values and Bytes
-- The modules named Tests evaluate the definitions and apply the theorems at concrete inputs.
--
-- Parameters. The modules of a processor are virtual methods, so `process_simple` and `process_output`
-- are any functions of the index, the resource and a state, and an input module is the list of what it
-- is going to return. `Clone`, `Clear` and `GetSize` of a resource, what a library file yields, and
-- the properties of objects are parameters too, as are the classes that write and read themselves to a
-- stream, `inet_pton`, and the results of system calls. Time is not modelled: a wait can end by a
-- signal, a timeout or for no reason at all.
--
-- Numbers. Sizes and counts that the code never makes negative are natural numbers, and priorities,
-- statuses and the engine's counters are integers; overflow of an `int` is not modelled. 0 stands for
-- no limit, as in the code. A failed assertion, a read out of bounds and the use of a NULL resource
-- are `none`.
--
-- Loops. All loops are recursions on a list or a number, but for a few that run on fuel. `replace_all`
-- has the length of the string and one more, since every round takes a byte off the rest. The loop on
-- the header fields of a request has the length of the header, since every line has a byte at least.
-- The reading in a round has the number of resources that it may read. The loops of Process have a
-- weight of the state: 3 for each input, 2 for the stored resource and 1 for each request that runs;
-- each round that changes something uses some of it up. The loop on the requests of a connection has
-- one more than the arrivals, since every request takes one.
--
-- Not modelled: the configuration of a processor, and its rounds one after the other; collecting with
-- several threads; Pass of CallProcessingEngine; the protocol buffer messages and the binary streams;
-- the files of Load and Save, which are opened, locked and closed, and their checkpoints; the servers
-- but for the reports of the engines, since they are sockets and threads around the connections; the
-- bindings to Perl, Python and Java; copied code (MD5, the heap); CyclicBuffer, which no code uses.
pub mod Prelude
pub mod SyncQueue
pub mod Common
pub mod Streams
pub mod Processor
pub mod Engine
pub mod CallEngine
pub mod Server
pub mod Objects
pub mod IpAddr
pub mod Http
pub mod Resources
pub mod Storage
