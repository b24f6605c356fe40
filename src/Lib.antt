-- ===== src/Lib.antt =====
-- Swiftacular: object storage for OpenStack Swift on Ceph's BlueStore.
--
-- A BlueStore object server keeps each object of a name as one Object of the engine. The engine
-- (bluestore/src/injection) gives an Object a state and lets a newer one take a name from an older
-- one in a single transaction. The Device (bluestore/src/bluestore/device.py) maps names to Objects
-- and decides puts and deletes; the metadata rules (metadata.py) say what a blob holds; the writer,
-- the reader and the DiskFile (writer.py, reader.py, diskfile.py) are what Swift's object server
-- drives. Beside it the repository carries its own version of Swift's file backend
-- (swift_patches/obj/bs_diskfile.py), which chooses among the files of a hash directory, and of the
-- object server (bs_server.py) that drives either. A metrics agent (monitoring/pdmas) finds the
-- container databases of a node and serves their sizes.
--
-- Which module is about which code:
--   Base                 shared tests, exceptions, lists, texts of numbers, words and dictionaries
--   Swift                Swift's Timestamp and metadata key sets, as a parameter with its laws
--   Metadata             metadata.py: ctype_timestamp, merge, time_of and MetadataModel
--   Engine               object.cpp and backend.cpp: Object, create, write, write_metadata,
--                        tombstone, read and put
--   Device               device.py: open, put, delete and write_metadata; Device/Retry is `retry`
--   Device/Opening       the loops of `open` and `read_metadata`, against a list of turns
--   Device/Reader        device.py `read`, and reader.py
--   Device/Writer        writer.py
--   Device/DiskFile      diskfile.py
--   Device/Manager       manager.py: the Devices by device and policy
--   Ondisk               bs_diskfile.py: get_ondisk_files and _process_ondisk_files of replicated
--                        policies; Ondisk/Names makes and parses file names,
--                        Ondisk/Cleanup is cleanup_ondisk_files, and Ondisk/Xattrs is
--                        write_metadata and read_metadata through the BlueStore backend;
--                        Ondisk/Opens is BaseDiskFile.open with what it checks and quarantines,
--                        and Ondisk/Suffixes the hashes of a partition's suffixes: read_hashes,
--                        consolidate_hashes, invalidate_hash, _get_hashes and _hash_suffix
--   Agent                monitoring/pdmas/swiftdbinfo/pmdaswiftdbinfo.py: the discovery and numbering of
--                        databases; Agent/Metrics answers, and Agent/Buckets is the query of sizes
--   Server               swift_patches/obj/bs_server.py: the shared types, and DELETE with what it
--                        writes and sends; Server/Updates is container_update, async_update and
--                        delete_at_update, Server/Overrides is _check_container_override,
--                        Server/Handler the run of a handler, Server/Rules and Server/Content the
--                        checks and headers that handlers share, Server/Post, Server/Put (with
--                        Server/Body) and Server/Reads the handlers of POST, PUT, GET and HEAD
--   Inventory            bin/libvirt-inventory.py: the Ansible inventory of the machines that run
--   Tests                witnesses at concrete inputs
--
-- Modelling. A Timestamp is its place in the order of all timestamps. A blob is the JSON value that
-- its bytes hold. A Python dict is a list of pairs with distinct keys, in insertion order.
-- Exceptions are values of `Error`. The Device's decisions run without giving up the thread, so
-- each is one step, and concurrency is the order of the steps. The loops of `open` and
-- `read_metadata`, which wait, run over a list of turns: what each round finds. An Object carries
-- its own content, which in the store moves along with each rename; a transaction counts as done
-- when it is prepared, and reads that see an earlier state raise ChangedError, which `retry`
-- handles.
--
-- The loop of the reader runs on fuel: one round more than bytes are left is enough, as every round
-- but the last reads at least a byte. The digits of a number run on one round more than the number,
-- which is enough, as each round divides it by ten. The attempts of _get_hashes, which starts again
-- when the file of hashes has changed meanwhile, are a list of what each attempt meets.
--
-- A handler of the object server is a run that logs its steps: what it opens, writes, commits and
-- sends, in order. What the handlers take from Swift (the splitting of paths, the disk file's answers,
-- the rules of headers, the answers of container servers, the chunks and MIME documents of a body)
-- is given, in the records Remote, Rules, Views, Uploads and Opener, and so is `request.get_response`,
-- which a GET passes its response through. Headers are dictionaries whose
-- keys are spelled as HeaderKeyDict spells them; lower case and white space are those of ASCII.
--
-- Not modelled: the transaction queue and the mount of the engine; erasure-coded policies and
-- the writers of swift_patches/obj/bs_diskfile.py; the dispatch in
-- `__call__`, REPLICATE, SSYNC and the start of the object server; and the deployment files.
pub mod Base
pub mod Swift
pub mod Metadata
pub mod Engine
pub mod Device
pub mod Ondisk
pub mod Agent
pub mod Server
pub mod Inventory
mod Tests
