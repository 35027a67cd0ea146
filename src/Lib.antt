-- ===== src/Lib.antt =====
-- hashdex: given a content hash, what is known about it.
--
-- The program parses a hash into a coordinate, asks indexes and membership filters about it, walks
-- archives down to the bytes inside them, and plans recipes that rebuild an archive from its members.
-- The parts modelled here, each in a module with its children:
--
-- Base.antt: what the others share. Lists measured by native numbers, byte strings (lists of numbers
--   below 256), little-endian words, bit operations, f64 operations as a parameter, results, text as
--   code points, the laws of `take` and `drop`,
--   sorting.
-- Coord.antt (src/coord.rs): `Scheme`, `Coord`, `Coord::parse` with its spellings in the order of the
--   source (`trimmed`, `sri`, `prefixed`, `bare`), `Coord::hex` and the printed form. The decoders of
--   the crate `data_encoding` are the parameter `Decoders`.
-- Dcso.antt (src/dcso.rs): the header of a filter file, its codec, the fingerprints of a key, the
--   bits that they probe and the size of a filter. Multiplication and `fnv` wrap at 2^64 as in the
--   source.
-- Filter.antt (src/filter.rs, and `hex_upper` of src/scan_cmd.rs): opening and checking a filter,
--   building and writing one, folding one to half its size, the key of a digest and the names of
--   filter files. The memory map is the file's bytes; a read past the end and a division by 0 are
--   `none`, where the source panics. It calls Dcso for the header and the probes, and Coord for the
--   schemes.
-- View.antt (src/peek_source.rs): byte sources and windows over them. A read of an open file is a
--   parameter, which may return fewer bytes than asked; a source is taken to hold certain contents
--   when its reads return a prefix of what stands there. `read_full_at` runs on fuel, the room in the
--   buffer: a round that goes on has read a byte. The offsets in `i64` of a seek are two constructors
--   each, forward and back. `View::len` is a field, `View::pos` is the field `cursor`.
-- Recipe.antt (src/recipe_cmd.rs, and `PCluster` of src/erofs.rs): the ranges of the root file that
--   hold a range of a member, the segments of a build, the set of intervals that they take, the merge of new segments (`splice_in`, from the build that the plan
--   holds: `splice_build`), the gaps between segments, and the segments spliced from covered ranges,
--   straight or rotated. A failed assertion is `none`. The fields of a build and of a pcluster that
--   these do not read are left out.
-- Microcode.antt (src/microcode.rs): the archives of CPU microcode, Intel's and AMD's. Both loops run
--   on fuel, the length of the blob and one more; an entry and a section move on by a byte at least.
-- RangeStore.antt (src/range_store.rs): the fetched ranges of a remote file, the reads of a decoder
--   from them, and the range that a miss asks for. The halving loop runs on the length it starts from.
--   A `usize` has `w` bits, a parameter: 32 on the browser's target. Casts from `u64` keep the low ones,
--   and so do sums that overflow. An operation is `none` where a slice panics; a miss is a value.
-- Fat.antt (src/fat.rs): FAT filesystems. Fat/Names.antt has the names of entries, Fat/Directory.antt
--   the walk (`walk_dir`, `files`), Fat/Boot.antt the El Torito catalog. The steps of a chain are counted
--   down from the number of clusters and the depth of the walk from its limit, so that neither needs
--   fuel. It reads the image through View, and the runs of its files are ranges of that view. Decoding
--   of UTF-8 with replacement characters and lower-casing are the parameter `Strings`.
-- Walk.antt (src/finding.rs, src/walk.rs): findings, the walk from seeds over the coordinates that the
--   sources mention together (`walk`: `hops`, `visit_all`, `visit`, `take_all`), and in
--   Walk/Clusters.antt the clusters of its evidence (`cluster`: `coords_of`, `find`, `union`,
--   `groups_of`, `cluster_of`). A hop counts down from the source's MAX_HOPS. `find` runs on fuel, one
--   more than the number of coordinates of the evidence: a tree grows by one level at most with each.
--   It calls Coord to read the texts of a finding. The sources and the order of a hash map are
--   parameters.
-- Pool.antt (src/peek_pool.rs): a hash job of the pool (`JobState`, `flush`, `close`, `run_hash`) as a
--   state machine, one step for each section under the job's lock, with any number of workers; and the
--   buffer of `Feed::push`, whose loop runs on the number of bytes: a turn takes one at least. The
--   digest crates are the parameter `Digester`. Pool/Probe.antt is `probe`, which asks the filters of
--   Filter for the keys of a digest pair. Pool/Sealing.antt is the
--   assembly of a member (`finish_part`, `seal`, `MetaClose::close`): the ends of its parts are a list,
--   in any order.
-- GitTree.antt (src/git_tree.rs): the git hashes of files and directory trees (`insert`, `hash`,
--   `blob_hashes`). A hash map is a list of its entries, and the digests are the parameter `Hashes`.
--   `insert` works on the pieces of the path; GitTree/Paths.antt has the step of the source, which joins
--   the rest of the path for the call on the subtree.
-- PeekWalk.antt (src/peek_walk.rs): the kinds of containers (`sniff`, `ranged_kind`, `choice`) and, in
--   its children, what reads their formats: PeekWalk/Cpio.antt (`cpio_header`, `cpio_ranged`),
--   PeekWalk/Padding.antt (`first_nonzero`), PeekWalk/Rpm.antt (`skip_rpm_headers`), PeekWalk/Iso.antt
--   (`parse_iso_record`) and PeekWalk/CentralDir.antt (`reconcile_central_dir`). It reads through View
--   and calls Fat's `looks_like`. The loops run on fuel from the length of what they read, since each
--   turn takes a byte at least. `from_utf8_lossy` and what becomes of a child are parameters.
-- Cache.antt (src/cache.rs): the observation store (`put`, `get`, `findings_for`, `index_coords`,
--   `backfill_coords`). Its tables are lists of rows, and the statements do to them what their SQL says;
--   none is refused. Cache/Verdicts.antt is about `get`, Cache/Reaching.antt about `findings_for`, which
--   is the `cache` of Walk's sources. `serde_json` is the parameter `Json`.
--
-- The filters are probed with the keys that the coordinates give. The views carry the bytes of which
-- recipes are made: the runs of a build are the extents of its member's view. The modules are joined
-- by these types alone and share no state.
--
-- Numbers are natural numbers; where the source wraps or saturates, it is written out. Additions of
-- offsets and lengths that the source leaves unguarded are taken not to overflow.
--
-- Not modelled: file and network I/O, the command line, output, the byte budget and the reader cap of
-- the pool, parquet decoding, digests and compressors (outside code), the python tools and the browser
-- client. Of the recipe planner, the searches for compressors and the first splice of the children; of
-- the walk over containers, the tar, zip, squashfs and iso9660 walks and the retries; and the reader of
-- erofs images.
pub mod Base
pub mod Dcso
pub mod Filter
pub mod Coord
pub mod View
pub mod Recipe
pub mod Microcode
pub mod RangeStore
pub mod Fat
pub mod Walk
pub mod Pool
pub mod GitTree
pub mod PeekWalk
pub mod Cache
