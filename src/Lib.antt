-- ===== src/Lib.antt =====
-- dottorrent: a C++ library that reads, writes and hashes BitTorrent metafiles.
--
-- The parts and the files that model them (paths from the root of the repository):
--   Base        numbers, lists and outcomes that the other files share. `Run` is what a C++ call does:
--               `ok` returns, `throws` is an exception, `violation` a failed Expects or Ensures, and
--               `undefined` an access that C++ leaves undefined.
--   Hex         include/dottorrent/hex.hpp: bytes and hexadecimal text.
--   Percent     include/dottorrent/percent_encoding.hpp: percent encoding, used by magnet links.
--   Utils       include/dottorrent/utils.hpp: 64-bit integer helpers.
--   Merkle      include/dottorrent/merkle_tree.hpp: the v2 hash tree in one array. It uses Utils for the
--               height; `update` is the loop over the layers with one hasher and `update_batch` the one
--               with a multi buffer hasher. What a hasher returns for two digests is the parameter
--               `combine`.
--   Attributes  include/dottorrent/general.hpp: enumerations and the letters of file attributes.
--   Entry       include/dottorrent/file_entry.hpp, src/file_entry.cpp: one file of a torrent.
--   Storage     include/dottorrent/file_storage.hpp, src/file_storage.cpp: the list of the files, their
--               total size, the v1 piece hashes and the layout of files on pieces. It uses Entry and
--               Utils. A method that changes the object is a function from the old state to the new one.
--   Announce    include/dottorrent/announce_url.hpp, include/dottorrent/announce_url_list.hpp,
--               src/announce_url_list.cpp: the trackers, sorted by tier and url.
--   Metafile    include/dottorrent/metafile.hpp, src/metafile.cpp, include/dottorrent/dht_node.hpp: the
--               fields of a metafile; it holds a Storage and the list of Announce.
--   Magnet      include/dottorrent/magnet_uri.hpp, src/magnet_uri.cpp: magnet links, with the text of
--               Percent and the fields of Metafile.
--   InfoHash    include/dottorrent/info_hash.hpp, include/dottorrent/hash.hpp: the hashes that name a torrent,
--               with the hexadecimal text of Hex.
--   Queue       include/dottorrent/concurrent_queue.hpp: the bounded queue. A call under its mutex is one
--               function; where it would wait, it has no result. Queue/Fifo has the sequences of calls.
--   Pool        include/dottorrent/concurrent_queue_processor.hpp: the thread pool over a queue, where an item
--               without a value is a wake-up. A thread is a phase of `run`; `worker_step` is one step of one
--               thread, `wait_step` one of the thread in `wait`. Pool/Family has the interleavings of
--               thread steps, pushes, stop requests and cancellation as a relation, and Pool/Settles the
--               runs of the threads alone.
--   Reader      src/chunk_reader.cpp, src/v1_chunk_reader.cpp, src/v2_chunk_reader.cpp (in Reader/V2): the files
--               of a storage as chunks. What the disk holds for each entry, a file with its bytes or nothing,
--               is an argument; what a reader pushed is a list of chunks. Reader/Times has the write times that a run
--               stores in the storage.
--   Hasher      src/v1_chunk_hasher_sb.cpp, src/v2_chunk_hasher_sb.cpp: chunks to the digests of pieces and of
--               blocks of 16 KiB. What SHA-1 and SHA-256 return for some bytes are the parameters `sha1`
--               and `sha256`.
--   Processor   src/chunk_processor_base.cpp and the `run` of src/chunk_hasher_single_buffer.cpp: the threads
--               that take the chunks off the queue of a hasher, with the phases of Pool.
--   Verifier    src/v1_piece_writer.cpp, src/v1_piece_verifier.cpp; in Verifier/Trees and Verifier/Offsets also
--               src/v2_piece_writer.cpp, src/v2_piece_verifier.cpp: digests into the storage, or compared with
--               those of the storage, with the trees of Merkle. Verifier/Whole is the v1 pipeline of Reader,
--               Hasher and Verifier, each run on the whole output of the one before.
--   Session     src/storage_hasher.cpp, src/storage_verifier.cpp, and `choose_piece_size` of src/file_storage.cpp:
--               the sizes that a session chooses, its flags and the calls on its parts.
--   Bencode     what the program uses of the bencode library, as a parameter: functions that make a value, and
--               one that looks into it for each type, with their laws. A dictionary is the list of its
--               entries in the order of the keys.
--   Checksum    include/dottorrent/hash_function.hpp, include/dottorrent/checksum.hpp, and the sizes in
--               include/dottorrent/hash.hpp: the hash functions by name, and checksums.
--   Parsing     src/metafile_parsing.cpp: a function from a bencode value to a metafile for each field, on the
--               types of Metafile and Storage; Parsing/Files and Parsing/Tree have the files, Parsing/Paths the
--               operations of std::filesystem::path that they use, and Parsing/Torrent parse_metafile.
--   Serialization   src/metafile_serialization.cpp, include/dottorrent/serialization/, the strings of hashes of
--               src/file_storage.cpp, and write_metafile and the info hashes of src/metafile.cpp: a metafile
--               as a bencode value. The other fields of an info dictionary stand beside the metafile.
--
-- Numbers: `std::size_t` is 64 bits and wraps, written out as `% 2 ^ 64`; `1U << k` and the indices of a chunk
-- are 32 bits. A tree has a height of at most 30, where these shifts and sums are exact. The clock of the
-- system counts nanoseconds in 64 bits, as libstdc++ has it. Each loop is
-- recursion on a list or on the number of its rounds, but for three: the loop over the keywords of a magnet link
-- is given a number of rounds, since it does not move on, the loop over the reads of a file is given
-- one round more than the file has bytes, which is enough since a read takes a byte or is the last, and the
-- loop over a file tree, with a stack of its own, is given rounds, of which a file takes one, a directory two
-- and the end of the tree two.
--
-- Not modelled: the hash functions (OpenSSL, ISA-L and others) and the encoder and decoder of bencode, which are
-- other libraries; the classes of the hashes and checksums; streams and JSON; the multi buffer and checksum
-- hashers; the buffers and their pool; cancellation in the middle of a reader, read errors
-- behind the first read; the file system; memory orders weaker than sequential consistency; mutexes,
-- since a call under one is a single step; the directory index of a storage.
pub mod Base
pub mod Hex
pub mod Percent
pub mod Utils
pub mod Merkle
pub mod Attributes
pub mod Entry
pub mod Storage
pub mod Announce
pub mod Magnet
pub mod Metafile
pub mod InfoHash
pub mod Queue
pub mod Pool
pub mod Reader
pub mod Hasher
pub mod Processor
pub mod Verifier
pub mod Session
pub mod Bencode
pub mod Checksum
pub mod Parsing
pub mod Serialization
