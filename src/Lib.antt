-- ===== src/Lib.antt =====
-- FerroS3: an S3-compatible server that shows local directories as buckets.
--
-- A request passes the authentication middleware and reaches a handler for an object, a bucket or a
-- listing. The handlers share one state, built from the configuration: a map from bucket names to
-- storage directories and a bounded cache of file metadata. Objects are files; every handler turns
-- the key of a request into a path by `safe_join`.
--
-- The files, and the code that each models:
--   Base          lists, texts (lists of code points), numbers, and their lemmas
--   FilePath      std::path on Unix as lists of components; `safe_join` of src/handlers/object.rs;
--                 `prefix_search_root` and `rel_path_to_key` of src/handlers/list.rs
--   Range         `parse_range` of src/handlers/object.rs
--   Metadata      file metadata, and the ETag that the handlers derive from it
--   Api           the response documents, and src/error.rs
--   State         src/config.rs, src/state.rs, src/cache.rs and `build_state` of src/lib.rs
--   Stamp         `stamp_version` and `git_or_env` of build.rs
--   Headers       request headers and the `?acl` test of src/handlers/object.rs
--   Objects       the object handlers of src/handlers/object.rs: Read (GET, HEAD), Write (PUT and
--                 copies), Delete; Flow is the monad of a handler with early returns, Disk the file
--                 system, Ensures the rules by which handlers are proved; Refused, Served, Cached,
--                 Stored, Gone and History are about the handlers together; MemDisk and MemCache are a
--                 disk and a cache for the tests
--   Buckets       src/handlers/bucket.rs
--   Router        `timeout_middleware` of src/lib.rs
--   Server        `build_api_router` of src/lib.rs: the routes, the handlers behind them, and the
--                 layers around them; Guarded is about the whole router
--   Http          src/blocking_http.rs: bodies, and in Heads the request and response heads
--   Connection    the keep-alive loop of src/main.rs; Cap is its accept loop with the cap on threads
--   Listing       src/handlers/list.rs: Tree is the directory tree as it is read, Walk the loop of
--                 `collect_entries`, Page the handler; Reference is the listing that S3 defines,
--                 Refinement the comparison of the walk with it, and Order the order of the keys
--                 and the pages that follow each other; Client is a client that asks for all pages, and
--                 Objects compares the keys shown with the files that `safe_join` finds
--   Auth          src/auth/mod.rs and src/auth/sigv4.rs; Presign is src/handlers/admin.rs
--
-- A handler takes the world (disk, cache, counter of temporary names) and gives a response and the
-- next world. An early `return` is `reply`; `?` and `match` on an error are the binds of the monad.
-- A disk operation is an operation of the interface `DiskOps`: it changes the state and says
-- whether it succeeded, so every failure path of a handler is there. `DiskLaws`, `ReadLaws` and
-- `CopyLaws` say what POSIX and `fs::copy` say of these calls; they do not exclude any failure. The
-- cache is the interface `CacheOps`, which may evict at any insertion. Cryptography, encodings and
-- dates are the record `Crypto`, with no laws.
--
-- Bounds and fuel. Numbers of the source are 64 bits wide: a parsed number is below 2^64, the
-- counter of temporary names wraps, `max_keys + 1` saturates. The loop of a listing takes a fuel,
-- and more than the size of the tree is enough; the loop that prunes directories takes one round per
-- path component, and one more; the loop over chunks takes one round per line, so more than the
-- number of bytes is enough. A request head takes a fuel past its number of bytes, and a connection
-- one round per request, which takes a byte at least. All other loops are structural.
--
-- Not modelled: sockets and the runtime (src/main.rs), the OpenAPI page (src/openapi.rs),
-- `build_stamp` of src/lib.rs, which formats the stamp by chrono, XML serialisation (a body is the
-- document), and log output. Which route a path matches and how its captures are extracted is axum,
-- the parameter `Axum`. A listing sees one tree, which does not change while it is walked; a link in
-- it counts as a file, and only the way to the search root follows one. Each handler runs alone:
-- requests come one after the other on one disk, and those that interleave are not considered. Paths
-- are on Unix, with names that are valid text. Times are from 1970 on. Request heads are bytes below
-- 128, one code point each, and a header map has no largest size (the crate http's has one, at which
-- it panics).
pub mod Base
pub mod Range
pub mod FilePath
pub mod Metadata
pub mod Api
pub mod State
pub mod Stamp
pub mod Listing
pub mod Headers
pub mod Buckets
pub mod Router
pub mod Http
pub mod Connection
pub mod Objects
pub mod Auth
pub mod Server
