-- ===== src/Lib.antt =====
-- rs-matter-server: a Matter controller that speaks the Python Matter Server's websocket protocol.
--
-- The program keeps two stores, the nodes it commissioned and its configuration, and talks to
-- devices through a Matter stack. Clients send commands and receive events. A monitor keeps each
-- node under a subscription; what a device reports is merged into the node store, and the
-- differences are published to the clients. Devices that sleep announce themselves with check-ins.
--
-- The modules, and the code that each is about:
--   Protocol.Error, Message, Paths, Events, Model: the files of those names in server/src/protocol.
--     A function keeps its name; `Args::u64` is `u64`, `ParsedPath::has_wildcard` is `has_wildcard`.
--     Protocol.Json has the values of serde_json that the code takes apart.
--   Storage.Nodes: the map in `NodeStore` of server/src/storage/nodes.rs, one function per method.
--     `get` is `get_node` and `remove` is `remove_node`; Storage.Nodes.Detect has what is read from a
--     node's attributes. Storage.Nodes.Persistence adds the file, the flags that `save`, `save_soon`,
--     `flush` and the writer thread share, and the events between loading and dropping a store.
--   Storage.Config: `ConfigData` of server/src/storage/config.rs and what each mutation does to it;
--     Storage.Config.Store the store around it with its file; Registrations and Summaries the views.
--   Storage.ThreadDataset: server/src/storage/thread_dataset.rs.
--   Matter.Subscriptions, Reports, Checkin, Mdns, OtaProvider: server/src/matter/subscriptions.rs with
--     the verdict of reports.rs, what reports.rs does with a report, checkin.rs, the packet reader of
--     mdns_browser.rs with the answers of a browse and its query, and the designators of
--     ota_provider.rs.
--   Api.Ota: `OtaUploadRegistry` of server/src/api/ota.rs. Api.Shared: the event bus, the owner of the
--     fabric label and the event history of server/src/api/mod.rs. Api.Network: `build_topology` of
--     server/src/api/network.rs, its nodes in Nodes and its two passes over the store in Links.
--     Api.Context: what the handlers share in server/src/api/mod.rs; Api.Icd: server/src/api/icd.rs.
--   Migrate: server/src/migrate, the take-over of a matterjs-server. Value is value.rs; Store has what
--     a commit of the log does to the contexts, Directory the log with its segments and snapshot, and
--     Namespaces the drivers and `MatterJsStorage`, all three of store.rs; Import and Commissioned are
--     model.rs; Takeover is `read` and `apply_state` of mod.rs, over the two stores.
--   Monitor: server/src/monitor.rs, what one pass does with one node, over the node store.
--   Prelude: what the code uses of the standard library, with its laws: `BTreeMap` as a list of
--     entries in the order of the keys, `str` as a list of scalars, `Result`, UTF-8, hexadecimal.
--
-- State is passed explicitly: an operation takes the state and returns it with its answer. A lock
-- that is held for a whole method makes the method one step. Where the order of steps matters, the
-- steps are a data type and a run is a list of them. Times are numbers of milliseconds and an
-- argument of the operations that read the clock.
--
-- Numbers are natural numbers; what is cut to a width in the code is cut here (`% 2 ^ 64` for the
-- node id counter and the interview version, as in a release build). Bytes are below 256.
--
-- Loops run on fuel where they are not structural. A name in a packet has at most 16 jumps, and
-- between two jumps the offset grows, so one round for each byte and one more are enough. The TXT
-- reader and the dataset decoder take at least one byte in each round, so the length is enough. The
-- records of a packet are counted by its header.
--
-- A document of the earlier server can hold documents in its texts; a text inside a document is
-- shorter than the document, so the longest text of a value bounds how deep they are nested.
--
-- Code of other crates is a parameter: what serde_json reads of a text and of a number, what a
-- float is, the files that stand in a directory of the earlier server, how a date is written, JSON
-- numbers (Protocol.Json.Numbers), Base64, the check-in cipher, what the stack decodes of a
-- report, fresh upload ids, the current time, what devices and the stack answer the handlers, the
-- score of an address, what serde makes of a node, and whether a write to disk succeeds.
--
-- Not modelled: the Matter stack and the code that drives it (server/src/matter/actor.rs,
-- controller.rs, commissioning.rs, interaction.rs), the websocket server (server/src/ws), HTTP clients
-- (otbr_rest.rs, dcl.rs), the remaining command handlers of server/src/api, the time at which a
-- topology was collected and the border routers in it, the summary that a dry run prints, and file
-- modes, because they are calls of other systems or are not covered yet.
pub mod Prelude
pub mod Protocol
pub mod Storage
pub mod Matter
pub mod Api
pub mod Monitor
pub mod Migrate
