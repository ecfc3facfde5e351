-- ===== src/Lib.antt =====
-- Verification of programs of the Reticulum router: `rngit`, which serves git repositories to
-- identities of a Reticulum network, `rnguard`, which watches announces and blackholes the
-- destinations that announce too often, `rnsh`, a remote shell, `git-remote-rns`, the helper that
-- git runs to reach `rngit`, and `rnid`, which exports and imports keys.
--
-- The parts and how they interact:
--
-- `src/bin/rngit`. A request reaches the server with the identity of the link's peer. The handler
-- finds the repository that the request names (`repo_repository`, `parse_request_repository_path`),
-- asks for the peer's permission (`resolve_perm`, `resolve_group_perm`), which reads the `.allowed`
-- files and the configuration, and then runs `git` on the repository's directory.
--   Rngit/Perms    perms.rs: `Target`, `Perm`, `AccessLists`, `parse_permission`,
--                  `permissions_from_allowed_input`, `resolve_permission`,
--                  `resolve_group_permission`
--   Rngit/Gitutil  gitutil.rs: `san_ref`, `san_sha`, `is_plain_component`, `repo_dir`,
--                  `parse_request_repository_path`, `acl_path`
--   Rngit/Git      gitutil.rs: `object_exists`, `ref_exists`, `update_ref`, `delete_ref`,
--                  `apply_push_bundle`, `create_repository`
--   Rngit/Host     what the server stands on: the file system and the git executable (`Host`), the
--                  MessagePack values of the rmpv crate (`Wire`), the configuration and `Rngit`
--   Rngit/Access   server.rs: `group_access`, `repo_access`, `resolve_perm`, `resolve_group_perm`,
--                  `repo_missing`
--   Rngit/Request  server.rs: the error responses and the reading of a request's fields
--   Rngit/Server   server.rs: `create_repo_on_push`, `handle_push`, `handle_delete`,
--                  `handle_create`
--   Rngit/Listing  server.rs, gitutil.rs: `handle_list`, `handle_repos`, `list_refs`, `head_ref`
--   Rngit/Fetch    server.rs, gitutil.rs, transfer.rs: `handle_fetch`, `create_fetch_bundle`,
--                  `pack_metadata`
--   Rngit/Transfer transfer.rs: the packets of resource transfers, over the rns crate (`Net`)
--   Rngit/Links    server.rs: `LinkState`, `route_request` and the requests of a link
--   Rngit/Events   server.rs: `handle_resource_packet`, `handle_event`, `tick` and `run`
--   Rngit/Hidden   what the handlers together tell an identity without permissions
--
-- `src/bin/rnguard.rs`. Frames that arrive on the RPC stream hold announces; each is recorded in a
-- tracker, which says when a destination has exceeded its rate.
--   Rnguard/Tracker  `AnnounceRateTracker`: `record` (here `record_announce`, since `record` is a
--                    word of the language), `count`, `prune`, `tracked`
--   Rnguard/Frame    `write_frame` and `FrameReader`: `take_frame`, `fill`, `compact`, `next_frame`
--   Rnguard/Hex      `hex_encode`, `decode_hex`
--   Rnguard/Watch    `announce_destination`, `Control::blackhole`, `handle_frame`, `sweep`
--   Rnguard/Watch/Loop  `subscribe` and `run`, over what the reads of each stream give
--
-- `src/bin/rnsh.rs`. A listener lets a peer in by a handshake, which may require an identity of its
-- access list, and runs the peer's command or its own; the streams of the two ends travel in frames,
-- which the loop of the session hands to the command's terminal.
--   Rnsh/Stream     `stream_hdr`, `stream_unhdr`, `compress`, `stream_frames`, `decompress`
--   Rnsh/Escape     `EscapeHandler` and the loop over the bytes of one read of the terminal
--   Rnsh/Messages   the message types, `pack_ver`, `unpack_ver`, `pack_exec`, `unpack_exec`,
--                   `pack_err`, `unpack_err_msg`
--   Rnsh/Handshake  `allowed_set`, `auth_required`, `do_version_handshake` over the clock's readings and
--                   what each wait for an event gives, and the command that `handle_link` chooses
--   Rnsh/Session    the loop of `handle_link` over its rounds, and what follows it
--
-- `src/bin/git-remote-rns.rs`. git writes commands, and the helper asks the server of `rngit`; its
-- theorems are about both where they meet.
--   GitRemote/Parse     `parse_url`, `parse_server_refs`, `parse_push_spec`, `parse_fetch_line`,
--                       `split_bundle`; `parse_rns_url` of src/bin/rngit/client.rs
--   GitRemote/State     `Helper`, what it stands on (`Env`) and actions that may fail or panic
--   GitRemote/Commands  `do_list`, `do_fetch` and what they use
--   GitRemote/Push      `do_push`, `do_push_batch`; `create_push_bundle` of gitutil.rs
--   GitRemote/Loop      `handle_option` and `run`, whose inner loops are modes of one loop
--   GitRemote/Fetching, GitRemote/DryRun, GitRemote/Bundles  theorems
--
-- `src/bin/rnid.rs`. Keys are exported and imported as text.
--   Rnid/Base32   `base32_encode`, `base32_decode`, with their buffers of 16 and 32 bits
--   Rnid/Base256  `B256`, `base256_encode`, `base256_decode`
--   Rnid/Import   `encode_key`, `decode_identity_input` (its hexadecimal functions are Rnguard/Hex)
--
-- Prelude holds the shared names and lemmas, Text and Path the operations of Rust's standard library
-- on strings and paths, Assoc those on maps, Hex the interface of the hex crate, Tests the theorems at concrete inputs.
--
-- A handler is a function from the state of the world to a response and a new state. What it stands on
-- is a parameter: any file system, any `git` that answers or not. A theorem that needs the file system
-- to keep what was written says so by the record `KeepsFiles` (Rngit/Access/Creation), which the world
-- of Tests/World satisfies; the hex crate's encoding is the record `HexCodec` (Hex), which `own_codec`
-- (Rnguard/Hex/RoundTrip) satisfies.
--
-- Those of `rnsh` are the records `Rmpv` (Rnsh/Messages) for MessagePack values, `Bzip2` (Rnsh/Stream)
-- and `Link` (Rnsh/Handshake) for the sending of messages; Tests/Values has an instance of the first
-- two.
--
-- Bounds and fuel: `digits` writes the 20 decimal digits that a 64-bit number has at most, and
-- `frames_from` has a round for each byte of the data, since each round but the last uses a byte.
-- `next_frame` recurs on the list of what the socket's reads return, since each turn of its loop reads
-- once, `run` on the list of the streams and their events, and `handshake_loop` on the list of the
-- turns. Lengths of frames are read from 32
-- and 64 bits as written, a count of announces wraps at 2 ^ 32 as the cast to `u32` does, and instants
-- are natural numbers counted from the earliest instant of the platform.
--
-- Not modelled: log messages and the texts of internal errors, which reach no client; the order in
-- which a hash map is iterated (the model's is that of the list); links, packets and resources, which
-- are the rns crate's; the daemon (`src/main.rs`, `src/config.rs`) and the tools `rnpath`, `rnmcp`,
-- `rnsniff`, `rnperf` and `rnpage`; the signatures, the encryption and the arguments of `rnid`; the
-- arguments and the authenticated connection of `rnguard`; the arguments, the terminal, the fork of
-- the child and the initiator's loop of `rnsh`. Lower case is taken of ASCII letters, which suffices
-- for the words that are compared.
mod Prelude
pub mod Text
pub mod Path
pub mod Hex
pub mod Assoc
pub mod Rngit
pub mod Rnguard
pub mod Rnsh
pub mod GitRemote
pub mod Rnid
mod Tests
