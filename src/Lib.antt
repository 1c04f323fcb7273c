-- ===== src/Lib.antt =====
-- bubblepprof answers how much heap the goroutines with given pprof labels hold. It parses a Go heap
-- dump (internal/heapdump) into a snapshot (internal/heapsnapshot), resolves the pointers of the
-- snapshot into an object graph with roots (internal/snapshotgraph), and measures what is reachable
-- from the goroutines whose labels match a request (internal/memusage). The modules follow that path.
--
-- Common: helpers that the parts share: lists over the native numbers, sets of numbers as lists,
-- uint64 arithmetic, association lists for maps, texts as lists of character codes, and Result.
--
-- Snapshot: internal/heapsnapshot/model.go, the records of a dump.
--
-- Dump: internal/heapdump. Dump.Reader is reader.go (readByte, Uvarint, Bytes, FieldList, readLine
-- and so on), Dump.Pointers is pointers.go, Dump.State has the parser's state and the calls of the
-- reader with their error labels, Dump.Records has one function for each parse* method of parser.go,
-- and Dump.Parser has parseRecords, parseHeader, parseInto and Parse. An action passes the reader or
-- the parser along (Dump.Monad). Proofs: Dump.Safe says what holds of every run of an action,
-- Dump.Moves and Dump.Payloads apply it to the reader, and Dump.Counts, Dump.Counted, Dump.Steps,
-- Dump.RecordSteps, Dump.SectionSteps, Dump.Loop and Dump.Laws to the parser.
--
-- Graph: internal/snapshotgraph. Graph is graph.go with FindObjectContaining, Graph.Search is the
-- sort.Search that it calls, Graph.Reach is reachability.go, Graph.Build is BuildContext of build.go
-- in the order of its loops: Graph.Build.Objects (objects, ranges, overlaps), Graph.Build.Edges
-- (edges with the epoch stamps), Graph.Build.Roots (goroutine, global and finalizer roots). Proofs:
-- Graph.Find, Graph.Offer, Graph.Correct, and Graph.Build.Sorted, Loaded, Strict, Resolve, Stamps,
-- Edged and Laws.
--
-- Usage: internal/memusage. Usage.Request is request.go and LabelsMatch, Usage.Sets has the object
-- sets of compute.go, Usage.Compute has the rest of computeFromAnalysis, the failure accounting and
-- the reach cache. Proofs: Usage.Totals, Overlap, Success, Response, Failures, Validation and Cache.
--
-- Session: internal/memusage/snapshot.go, multibubble.go and `inspect` of objects.go, the queries
-- that compare groups of goroutines. Session.State has the session, its checks, the selection,
-- the walk and the measure, Session.Sets the set operations, Session.Compare has Compare and
-- Shared, Session.Exclusive has Exclusive, Session.Top has Top, and Session.Query has newSnapshot
-- with its label index, GoroutineIDs and Query. Proofs: Ids is about GoroutineIDs, Indexed and
-- Answered about Query, Splits and Measured count sets of objects, Walked, SetOf and Others say
-- what the shared steps collect, Compared, Cut and Listed are about Compare and Shared, Parted
-- and Owned about Exclusive, and Grouped, Hits, Classes, Backdrop, Covered, RowOrder, Rows,
-- RowSets, Ranked and Accounted about Top.
--
-- Space: internal/addrspace, the Reader contract and Composite. Labels: internal/heaplabels and
-- internal/runtimelayout. Labels.Memory is memory.go, Labels.Layout is the layout table with
-- Lookup and Manual, Labels.Decode goes from a label map's address to its labels, and
-- Labels.Results is DecodeAll. Proofs: Labels.Ranges, Supported, Decoded, Bounded, Tallied and
-- Accounts. The labels by goroutine id that DecodeAll gives are the ones that Usage and Session
-- take.
--
-- Examples: a dump as bytes, its parse, its graph and a response, with the theorems applied to them.
--
-- Conventions. A nil pointer, map or slice whose nilness matters is none. A Go map is a list of
-- its entries in the order in which a loop visits them, and the theorems hold for every list. The
-- text of errors and warnings is a constructor with the values that it prints. The platform's int
-- has 64 bits; counters of type int do not wrap. uint64 sums wrap where the source lets them
-- (add_u64). There is no cancellation: a context is never done, also in the calls of a session,
-- which repeat `ctx.Err()`. A session's call holds its lock, so it is one function of the
-- session. A stream fails only at its end. A limit that the source takes as zero or negative is
-- 0.
--
-- Fuel. sort.Search is given the length of the interval, the breadth-first search the number of
-- objects (a round enqueues only what it adds), Uvarint its 10 rounds, readLine its 1024, readPayload
-- n / 65536 + 1 chunks, FieldList and parseRecords the bytes that are left and one more. Where the
-- fuel of the parser would end, its result is `stuck`, which is no Go value.
--
-- Not modelled: paths (internal/snapshotgraph/path.go), ComputeReachability, the loading of a
-- snapshot and the label lists of a session, the listings of objects.go, bubbles, summaries, the
-- offset probe of internal/heaplabels, bundles, capture, the offline diff; and, since they are
-- calls of the operating system or printing, process and executable readers and the command-line
-- and HTTP front ends.
pub mod Common
pub mod Snapshot
pub mod Graph
pub mod Space
pub mod Labels
pub mod Usage
pub mod Session
pub mod Dump
pub mod Examples
