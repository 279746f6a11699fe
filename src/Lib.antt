-- ===== src/Lib.antt =====
-- bclib: the Go library of the chain's nodes and clients.
--
-- Parts, and the files that model them:
--   algorithm/algorithm.go: Algorithm/Words (numbers as bytes), Algorithm/Cipher (the password
--     cipher of the account files), Algorithm/Address (contract addresses, their check, hashes).
--   bn/bignumber.go: Bn (numbers, constructors, comparisons), Bn/Arith, Bn/Sqrt, Bn/Codec (bytes) and
--     Bn/Text (decimal text and JSON).
--   bignumber_v1.0: BigNumber/Wrap (bigint_wrap.go), BigNumber/Ex and BigNumber/Text
--     (bignumber_ex.go).
--   utils/hexconvert.go: HexConvert.
--   tx/v2 and tx/v3: Tx (writing and signing) and Tx/Reading (parsing); tx/v1: Tx/First. Tx/Account
--     puts package wal behind package tx.
--   sig: Sig (signature files over a store of files); wal/wal.go: Wal (accounts in sealed files) and
--     Wal/Methods (what an account does with files).
--   mc/memcache.go: MemCache (one cache with its stack of transactions' values) and MemCache/Store
--     (the instance: the first level, the caches of each block transaction, and a heap that the
--     pointers of clients go to).
--     MemCache/Store/Spec is its abstract state, without heap and pointers.
--   types/bcerror.go: Types.
--   socket/connectionpool.go: Pool, with Pool/Waiting and Pool/Closing for Close.
--   socket/types.go: Socket/Wire (messages on a stream, over the varints of Socket/Varint);
--     socket/client.go: Socket/Client (the calls that wait); socket/server.go: Socket/Server (the
--     handling of requests, and the loops of both ends that read), Socket/Server/Connections (its
--     list of connections) and Socket/Server/Single (a client with its connection, also without
--     keep-alive).
--   bcdb/level_db.go: Bcdb, over goleveldb as a record of operations and laws; Bcdb/Memory is a map
--     that has them. hdwal/hdwal.go: HdWal, a wallet in such a database.
--   log/logger.go: Log (levels and texts) and Log/Output (files, screen and queue).
--   fs: Fs (directories, sums and the copy of a file), Fs/CopyDir (copy.go) and Fs/Archive (targz.go).
--   dockerlib/dockerlib_linux.go: Docker (finding, killing and resetting containers), Docker/Names,
--     Docker/Params (types.go) and Docker/Run (running them, and the images). utils/input.go: Input.
-- Functions keep their Go names in snake_case. A method is a function of its receiver, and one that
-- changes it returns the new one. Package tx signs with the keys of package go-crypto and writes with
-- rlp; the account files that it may sign with, and the wallet of package hdwal, are sealed by the
-- cipher of package algorithm.
--
-- How Go is modelled (Go, Base, Map):
--   Numbers are native; int32, int64 and uint64 keep their wrap-around (Go/Int). big.Int is ℤ. Strings
--   and byte slices are lists of numbers (Go/Text, Go/Bytes); a slice that may be nil is an Option.
--   A call is a Result: a value, a returned error or a panic (Go/Result). Maps are association lists.
--
-- Parameters: SHA3-256, RIPEMD-160, MD5, AES and base58 (Algorithm/Primitives); ed25519, rlp,
--   base58, base64 and the loading of an account (the record Services of Tx); go-crypto and JSON
--   (Signing of Sig, Platform of Wal), with unicode, filepath and the terminal; NewClient, as the list
--   of its outcomes (Pool); the JSON of messages (Json of Socket/Server), encoding/binary, modelled as
--   it is documented (Socket/Varint); goleveldb (LevelDb of Bcdb); bip39, the derivation of keys and
--   amino's JSON (Platform of HdWal); time, the opening of files and fmt (Outside of Log/Output); the
--   operating system and filepath (Os of Fs, Disk of Fs/Archive), regexp and the walk over a directory
--   (Fs/CopyDir); the docker daemon (Daemon of Docker, Engine of Docker/Run); the text of a big.Int
--   (BigText of Bn/Text). What a theorem needs of them is a record among its hypotheses: IsBlockCipher,
--   HasAddressCode, IsTransport, IsSigner, IsSigning, Carries, IsStore, HasText, IsOrderly,
--   IsFileSystem, HasPaths, IsDisk, IsDaemon, IsEngine, IsDecimal.
--
-- Fuel: Bn/Sqrt and BigNumber/Ex run Newton's loop on the fuel |x| + 1; the iterate falls in every
--   round, from at most half of the number and one more. Number formatting (Go/Format) and to_bytes
--   (Go/Bytes) have about the number itself as fuel, of which a division in each round leaves enough.
--   PathSplit of Fs has the length of the path as fuel; filepath.Dir shortens a path that it changes.
--   The loop that reads messages (Socket/Wire) has the length of the stream and one more as fuel; a
--   message takes at least one byte. The loop over the progress of a pull (Docker/Run) ends within the
--   number of its reads and one more, or never.
--
-- Concurrency: a method that locks is one step. The order of map iteration in package mc is that of the
--   list. Pool/Waiting runs the methods of the pool an instruction at a time under its mutex. The
--   goroutines of a socket client take the steps of Socket/Client/Indices, each whole; a call tests
--   that the client runs and enters the list in one step, and a channel keeps the first value that is
--   sent. In package log a flush is one step, as its mutex makes it, each line has the time of its
--   making and the goroutine that makes it, and the goroutine of the queue writes when it is stopped.
--   The goroutines of a server take the steps of Socket/Server/Connections.
--
-- Not modelled: dialing and listening themselves (socket);
--   extendedKey.go and parsePath.go of hdwal, rlp, rpc/lib and tendermint, which are copies of other
--   projects; opening and printing of bcdb; the docker files for macOS and Windows, which are variants
--   of the one for Linux; loggers, but for package log.
pub mod Base
pub mod Go
pub mod Map
pub mod Algorithm
pub mod Bn
pub mod BigNumber
pub mod HexConvert
pub mod Sig
pub mod Wal
pub mod Types
pub mod Tx
pub mod MemCache
pub mod Pool
pub mod Socket
pub mod Bcdb
pub mod HdWal
pub mod Log
pub mod Fs
pub mod Docker
pub mod Input
