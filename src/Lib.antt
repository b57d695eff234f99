-- ===== src/Lib.antt =====
-- The C and C++ parts of the ADC hub luadch and three modules of its Lua core, modelled and proved.
--
-- The program is a hub for the ADC protocol: a process written in C, hub/hub.c, that runs Lua, and
-- Lua scripts in core/ that do the hub's work through C libraries. The libraries of its own are
-- adclib/ (text, Base32, the Tiger hash, secrets) and zlib_stream/ (compressed connections). A
-- line from a client passes the UTF-8 gate and the escapes of adclib; a login is checked by
-- `hash_pid` and `hash_pas`, which decode Base32, hash with Tiger and encode Base32 again, and its
-- answer is compared with `constant_time_eq`; a compressed connection passes through a push of the
-- zlib binding.
--
-- Common.antt passes on the library's names and those of its children: Boolean tests, lists over
-- the native numbers, steps that may fail, and the bit operations as arithmetic.
-- Utf8.antt is `utf8ToWc`, `wcToUtf8`, `sanitizeUtf8` and `validateUtf8` of adclib/adclib.cpp.
-- Utf8/Masks, Decode, Encode and Forms say what one sequence is, Utf8/Sanitize and Validate what the
-- loops do.
-- Base32.antt is adclib/base32.cpp. Base32/Steps and Rounds follow the two loops side by side,
-- Base32/Alphabet is about the tables, and
-- Base32/RoundTrip, Decode and Letters hold the theorems.
-- Tiger.antt is adclib/tiger.h and adclib/tiger.cpp: Table1 to Table4 are the words of `table`,
-- Compress is `tigerCompress` with its macros, Hash the class `TigerHash`. Tiger/Spec defines the hash
-- of a whole message without a buffer, Stream what an object has taken in, and Bulk, Update, Finalize
-- and Pieces prove that the class computes it.
-- Escape.antt is `escape` and `unescape` of adclib/adclib.cpp.
-- Hashes.antt is `hash_pid`, `hash_pas`, `hash_pas_oldschool` and `constant_time_eq` of
-- adclib/adclib.cpp, on top of Base32 and Tiger.
-- Gcm.antt is `aes_gcm_seal` and `aes_gcm_open` of adclib/adclib.cpp, with OpenSSL as a record of calls.
-- Gcm/Contract holds what its manual says of AES-GCM, Runs what a successful return went through,
-- RoundTrip what is opened, and Contexts what is freed.
-- Derive.antt is `random_bytes` and `pbkdf2_sha256` of adclib/adclib.cpp, with their bounds in
-- Derive/Guards.
-- Cert.antt is `gen_self_signed_cert`, `cert_fingerprint_sha256` and `push_ossl_err` of
-- adclib/adclib.cpp. Cert/Ledger says what the calls of OpenSSL do to its objects, Frees what each path
-- leaves, and Days what the bound on the validity is for.
-- Zlib.antt is zlib_stream/zlib_stream.c: the two push loops, `close` and the collector, and the
-- constructors. zlib is a parameter; Zlib/Contract holds what its manual says of a call, Inflate and
-- Deflate are about a push, RoundTrip about a push on either side of a connection, and Close about
-- what is behind a close.
-- Hub.antt is `makedir` of hub/hub.c, with the system call `mkdir` as a parameter. Of its children,
-- Tables is `tablesize` and `cleantable`, Listing `listdir` on unix and on Windows, Limits
-- `raise_fd_limit` and `getfdlimit`, Life `run_lua` and `restart` as steps of a process with Ended on how such a process ends, Pid
-- `write_lock_pid`, Daemon `daemonize`, `chdir_to_binary_dir` and the uses of `do_exit`, and Restore
-- `run_restore`, which `main` of Start calls.
-- Start.antt is `handle_args`, `acquire_single_instance_lock` on unix and `main` of hub/hub.c, with the
-- calls of `main` as a list of events. Start/Arguments is about the command line, Start/Main about what
-- is started.
-- Iostream.antt is the stages of core/iostream.lua with `push`, on top of Zlib; Iostream/Pipeline is
-- `_newpipeline` and `newpipeline`, Outbound `newoutpipeline` with its stages. Lines defines the lines
-- of a text, Quiet and Feeds what the stages in front hand to the line framer and what a drain
-- gives, Reads does so for all chunks of a socket, Caps is about the cap on a line, Capture about
-- the capture stage, Splice about a stage that comes later, and Bomb about the inflate stage on the
-- zlib binding.
-- Http.antt is the framer of HTTP requests of core/iostream.lua, `newhttpstage`: Http/Head reads the
-- request line and the headers, Framer is the stage. Http/Find is about the first place of a string,
-- Chunks about a request in chunks, Names about the headers' names, and Accepts about a request
-- that is given.
-- Bloom.antt is core/bloom.lua; Bloom/Inserted compares it with the extension BLOM of ADC.
-- Ipmatch.antt is `match` of core/ipmatch.lua, Ipmatch/V4 and V6 are its parsers with the text
-- of IPv4, Text is `normalize` with the text of IPv6, Address is `parse_ip`, and Cidr `parse_cidr`,
-- with `tonumber` as a parameter. Bits and Prefix are about the bits that a prefix compares, Octets and
-- RoundTrip about the texts of IPv4, Sizes about the bytes that are read, and Network about what a
-- parsed network matches. Groups, Joined and Normal are about the text of groups, ZeroRuns about the
-- run of zeros that is left out, Compressed, Mapped and Canonical about what `normalize` gives.
-- The files whose names end in Tests run the definitions and apply the theorems at concrete inputs.
--
-- A string is the list of its bytes, natural numbers below 256; a word of w bits is a natural number
-- with its wrap-around written out; memory that was not written is an argument. A loop that is not
-- structural recursion runs on fuel and gives `none` without it: the UTF-8 loops have the length of
-- the string, since each round drops a byte; `TOBASE32` has two rounds for a byte; the loop of
-- `update` has the length of its data, 64 bytes of it a round; an inflate push has the length of its
-- input and 4 MiB, since each round that goes on consumes or writes a byte; a deflate push takes its
-- fuel, the number of calls of `deflate`, as an argument, since zlib's manual gives no bound on what a
-- flush writes; the loops over a directory and over the
-- keys of a table take theirs too, to be above the number of names or keys; the loops
-- of a pipeline have the bytes that the line framer gets, since each frame takes a byte; the digits of
-- a PID have 20, and a `long` has 19.
--
-- A write behind the end of a list changes nothing, so a run out of bounds is seen only with
-- something behind the buffer, as in Base32/Decode.
--
-- Not modelled: `log_error` and `print_help` of hub/hub.c, which only print, its `handle_signals`, which
-- only installs handlers and whose call in `main` is no event of the model, and its parts for Windows
-- but the one of `listdir`; a failure of Lua to allocate; the registration of functions with Lua; the
-- time that a function takes; `wchar_t` of 16 bits and big-endian machines; the copies of Lua,
-- LuaSocket and LuaSec; the Lua code in scripts/ and in core/ but for the parts named above.
pub mod Common
pub mod Utf8
pub mod Base32
pub mod Tiger
pub mod Escape
pub mod Hashes
pub mod Gcm
pub mod Derive
pub mod Cert
pub mod Bloom
pub mod Ipmatch
pub mod Zlib
pub mod Iostream
pub mod Http
pub mod Hub
pub mod Start
