-- ===== src/Lib.antt =====
-- kafka-cad: a CAD server of small services around one commit log in Kafka. A user's changes are
-- submitted to the log; each service consumes the log into its own cache in Redis and answers
-- requests from it. This library models the services as functions on the state of a Redis server.
--
-- Prelude: tests, lists, integers, keys, results and handlers with state. State: the messages of
-- proto/object_state.proto. Redis: the commands of the server and the codecs (bincode, prost),
-- which are interfaces with laws. Kafka: the consumer loop that objects, dependencies, undo and
-- rep_cache share (objects/src/kafka.rs), and Kafka/Producer the producer, a parameter.
-- Objects: objects/src/cache.rs, the versions of every object. Objects/Keys has the keys,
-- Objects/History the reads by offset, Objects/Requests get_objects, Objects/Listing the list of
-- objects and the latest offset, and Objects/Server the requests of objects/src/main.rs.
-- Undo: undo/src/cache.rs, the stacks of undo and redo events. Undo/Spec is the model without keys
-- and codecs, Undo/View when a database represents it, Undo/Refines and Undo/Requests compare the
-- handlers with it, and Undo/Rounds handles the changes of a whole event. Undo/Invert is
-- undo/src/invert.rs, with Restores and Replay on what its changes restore. Undo/Server is
-- undo/src/main.rs and undo/src/kafka.rs, and Takes puts undo, the object service and the log
-- together.
-- Dependencies: dependencies/src/cache.rs. Dependencies/Updates has the handlers of changes, with
-- Lookups on what is read after them by their edits, and Places, Edits and Members on who is
-- subscribed then, told by the references before and after. Dependencies/Search is
-- the breadth-first search and get_all_deps, over the sets of the package
-- indexmap (Dependencies/Sets), a parameter. Dependencies/Server is dependencies/src/main.rs and
-- dependencies/src/kafka.rs, with History on the service after a log and Searches on a search then.
-- RepCache: rep_cache/src, the representations.
-- Maps: the maps of the package indexmap, a parameter with laws; Submit and Operations use them.
-- Status: the codes of the errors that the services answer with.
-- Submit: submit/src/update.rs, with the clients of the other services as parameters; Submit/Sets
-- has its map and set, Submit/Fetched the objects that it fetches, Submit/Closed what it sends on.
-- Submit/Produce is submit/src/produce.rs over the Kafka producer, and Submit/Server the request of
-- submit/src/main.rs, with Newest on the last version in a log and Written on reading what was
-- submitted.
-- Representations: representations/src, with Added, Sent and Drawn on what it sends for a log and
-- what rep_cache then has.
-- Updates: updates/src, the channels of each file; Updates/Channels on messages, Updates/Rounds on
-- commands, and Updates/Connection is the loop of a client's connection.
-- Operations: the folders of operations. Geom, References and LineSeg are obj-traits/src (geom.rs,
-- references.rs), over floats and vectors that are a parameter. Wall, Door, Sheet, Viewport,
-- VisibilityGroup, SymbolDef and SymbolInstance are obj-defs/src, each class with its references
-- and its results; Wall/Edits changes the references of a wall, Wall/Slots says which places of
-- get_refs that touches, Door/Bounds is about where a door stands along its line. Data is the trait
-- Data of obj-traits/src/lib.rs as a record of operations, DataBox the sum of the classes that
-- fills it, and Errors its errors. Drawing has the 2D elements of geom.rs, and Views the drawings
-- of walls and doors, with Views/Depth on their order. Joins, UpdateAll and Ops are
-- operations-lib/src, over any Data: Joins/Nearest compares the searches with the least distance,
-- UpdateAll/Follows and Ops/Groups are about objects of DataBox. Convert is
-- operations-server/src/obj_convert.rs and Server operations-server/src/main.rs, with Server/Sent
-- on messages.
-- Api: api/src. Api has the other services as a record of calls, Api/Common is api/src/common.rs
-- and Api/Handlers api/src/main.rs. Api/Reads is about the objects that a request reads, Api/Own
-- about what it submits, with Api/Own/Same on every request.
-- Examples: a server in memory, and the theorems at concrete inputs.
--
-- Kafka delivers the messages of a topic in order, as a list of events. Offsets are i64, so one
-- less wraps at the least value. The search runs on fuel: one more than the number of references
-- that subscribe is enough. Redis answers every command, so its connection errors are not modelled.
-- The order in which a HashSet is walked is a parameter; a HashMap is written out in the order of
-- insertion, where the order does not matter because its keys differ. Logging and tracing are left
-- out, and so are the geometry kernel, the meshes of objects, the user interface and the start-up
-- of the services. Event names are UUIDs, which hold no colon.
-- A topic has one partition. A panic (an unwrap of what is not there) is none, and Vec::sort_by is
-- a stable insertion sort. The types f32 and f64 are parameters, and so is what cgmath computes;
-- a theorem that needs an order of f64 names what it uses of it.
pub mod Prelude
pub mod State
pub mod Redis
pub mod Status
pub mod Maps
pub mod Kafka
pub mod Objects
pub mod Undo
pub mod Dependencies
pub mod RepCache
pub mod Submit
pub mod Representations
pub mod Updates
pub mod Operations
pub mod Api
mod Examples
