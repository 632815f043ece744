-- ===== src/Lib.antt =====
-- CheckPo keeps checkpoints of a Unity project. This library models its core, the crate
-- src/CheckPo.Core.
--
-- Prelude: numbers, lists, texts and results as the Rust code uses them. A text is the list of
-- its Unicode scalar values (Prelude/Text), its bytes are its UTF-8 (Prelude/Text/Utf8); a
-- machine integer is a natural number with its bound (Prelude/Bytes), an i64 an integer with the
-- word that holds it (Prelude/Int). `usize` has 64 bits.
--
-- Codec: src/CheckPo.Core/src/storage/merkle_codec.rs, the stored form of the three kinds of
-- chunks. Codec has the data, Codec/Checks the guards, Codec/Writer and Codec/Reader the two
-- cursors with the bodies of `encode_*` and `decode_*` on them, Codec/Chunk the envelope and the
-- six functions `encode_root`, `decode_root`, `encode_leaf`, `decode_leaf`, `encode_node`,
-- `decode_node`. Codec/Layout states the format by itself, as the bytes of each value; the proofs
-- go through it. Codec/Identity has the identifiers of chunks; the hash function blake3 is its
-- parameter. A loop over the items of a chunk is a recursion on the list, or on the count that
-- was read.
--
-- Path: src/CheckPo.Core/src/path.rs, the paths of tracked files (Path, Path/Tracked,
-- Path/Accepts, Path/Device, Path/Inside), identifiers (Path/Id) and the names of temporary files
-- (Path/Temporary). `Path::is_absolute` and `PathBuf::join` are those of a Unix target.
--
-- Diff: `compare_maps` of src/CheckPo.Core/src/diff.rs on two maps. A BTreeMap is an association
-- list that `insert` keeps in order (Prelude/Map).
--
-- The files of Plan model src/CheckPo.Core/src/transaction/plan.rs and
-- src/CheckPo.Core/src/models/transaction.rs: the operations of a restore and of a discard and
-- the `OperationPlan` made of them, of a run that is not cancelled. Plan/Effect says what
-- operations do to a file, Plan/Totals what `OperationPlan::new` counts and adds up; the
-- proofs are in Plan/Restore, Plan/Sorted, Plan/Totals/Made, Plan/Idle and Plan/Discard.
-- A snapshot's file and a current file are their path, hash, size and time; reading a current
-- file is a parameter of the discard. Plan/Scope has the companion of an asset and the
-- descendants of a path.
--
-- Manifest: src/CheckPo.Core/src/storage/snapshot_v2.rs, the keys of paths, the checks of their
-- order, the shared prefix and the summary of a range, and the length of a leaf; Manifest/Leaf
-- loads a chunk and validates a leaf, Manifest/Build builds the tree of a range, and Manifest/Tree
-- builds the whole tree from the entries and looks an entry up in it, with the proofs in the
-- modules below it. The recursion of both is on the depths that are left, so that it stops exactly
-- where the code finds the depth above MAX_MANIFEST_DEPTH; the binary searches of a leaf and of a
-- node are recursions on a bound of the places that are left, which the number of entries or
-- children is. Manifest/Subtree validates a whole tree with the cache of what was validated
-- before: a step returns its result, the visited references and the cache, and keeps what it put
-- there when it fails. Manifest/Iter has `ManifestIter`, whose loop is a recursion on the rounds
-- that are left: more rounds than there are references are enough. The Unicode normal form, the
-- lower case and the sizes that the cache estimates are parameters.
--
-- Inventory: src/CheckPo.Core/src/storage/snapshot_inventory.rs, the set of the checkpoints that
-- exist. Inventory has the three records and their codec, with the proofs in Inventory/State,
-- Inventory/Root and Inventory/Leaf. Inventory/Store loads and stores them: the files below the
-- repository are a map from paths to bytes, a step returns its result and the files, and what it
-- wrote stays when it fails. A record's name is the hash of its bytes; blake3 is a parameter, and
-- `store_content_addressed_bytes` replaces other bytes at the path. Inventory/Change has
-- `mutate_set` and `transition_inventory`, with what other processes do between the two last reads
-- of the head as the parameter `others`; Inventory/Listing has the start of an inventory and
-- `load_inventory_ids`, Inventory/Removal `project_snapshot_removal`, whose loop over the older
-- states is a recursion on the generation, Inventory/Access what other parts call, and
-- Inventory/Collect `inventory_gc_candidates`, which gets what the walks of the directories find.
-- Texts inside messages, errors of the system and the checks of directories
-- are left out; `unreachable!()` is an error.
--
-- Not modelled: the file system, SQLite, serde, the command line and the desktop application, and
-- the parts of the crate that the files above do not name.
pub mod Prelude
pub mod Codec
pub mod Path
pub mod Diff
pub mod Plan
pub mod Manifest
pub mod Inventory
