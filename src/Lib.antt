-- ===== src/Lib.antt =====
-- Edysquelch listens to a radio receiver through a sound card, opens and closes a squelch on the
-- noise level, compares the sound at each opening with stored fingerprints of transmitters, and
-- reports overs and matches as JSON. This library models the parts of src/ that compute.
--
-- Prelude passes on the library names that the other modules share, and has the Boolean tests,
-- list lemmas, integers (Prelude/Int), C strings (Prelude/Text) and the results of code that may
-- stop the process (Prelude/Halting).
--
-- Fingerpori models src/fingerpori.c: sample_filter_avg, sample_amplitude_sum,
-- sample_amplitude_max, fingerprint_filematch, fingerprint_load and fingerprints_load keep their
-- names. The global list `fingerprints` is a list of values, its head first. What the file system
-- gives is an argument, a FileView for each file, and so is what uninitialised memory holds.
--
-- Filter models src/filter.c over any operations of a float type (FloatOps), of which nothing is
-- assumed: filter_init, filter_run and filter_run_buf on a record with the fields of struct
-- filter.
--
-- Receiver models src/receiver.c. Receiver/Match is match_single, Receiver/Search the search over
-- all fingerprints, Receiver/Squelch the function copy_buffer with its static variables as a
-- record, and Receiver/Run init_receiver and receiver_run. Notifications are values in the order
-- in which they are sent; Receiver/Notify has event_id, the objects that notify_out,
-- notify_out_sql and notify_out_over_end build, with how the JSON library prints them as a
-- parameter, and notify_queue. Arrays that the code indexes outside of their bounds are functions
-- on all indices, so that what lies there is an argument; a division by zero and abort() are
-- results. Unsigned sums are cut to 64 or 32 bits where the code's are. The int products of the
-- limit of a search and of parse_interval, whose overflow is undefined in C, are taken to wrap.
--
-- CfgFile models src/cfgfile.c on lists of bytes with no final 0; CfgFile/Values has the handlers
-- of simple values. parse_string runs on fuel, one more than the length of the text: each round
-- but the last one takes at least a byte. A handler of the command table is a function from the
-- state and the words to the new state and its return value.
--
-- OutJson models the queue of src/out_json.c as a heap of nodes with the tail pointer, and the
-- order in which the threads get the mutex as a list of steps. The walk over a list has the number
-- of nodes as fuel, which no list in the heap exceeds.
--
-- OutJson/Ending adds how the thread ends: its loop looks at jsonout_die, sleeps and then takes
-- the queue, each at a move of its own. OutJson also has jsonout_post_single, whose libcurl calls
-- are lists of statuses, and time_jsonais.
--
-- Memory models src/hmalloc.c: the blocks that are allocated, with an allocator that is a parameter
-- and may fail; a free of what is not allocated and a write behind the end of a block are results.
-- A predicate on such a call says that it is none of these and what holds where it goes on.
-- Memory/Objects has what main of src/edysquelch.c, src/receiver.c, src/filter.c and
-- src/fingerpori.c allocate and free, Fingerpori/Blocks the memory of a load, and Log/Appending
-- str_append of src/hlog.c. Everywhere else allocations are taken to succeed.
--
-- Cfg models src/cfg.c: the handlers parse_interval, do_interval, do_sound_ch and do_uplink. In
-- Cfg/Reading it has the command table and read_config on a record of the global variables, where
-- a handler that stops the process leaves a stopped state, and in Cfg/CommandLine parse_cmdline,
-- with the options that getopt gives as a list, and pick_loglevel of src/hlog.c. Cfg/Pointers is
-- the same file with its strings as pointers into the memory, up to free_config, and with what
-- main of src/edysquelch.c allocates and frees around its loop.
--
-- RwLock models src/rwlock.c: each function is what it does between taking and leaving its mutex,
-- and rwl_rdlock and rwl_wrlock are cut where they wait. RwLock/Schedules lets any number of
-- threads act in any order, each unlocking only what it holds.
--
-- Log models src/hlog.c: hlog, open_log and close_log on a record of the global variables with the
-- lock of RwLock, where a call that would wait for the lock stops as blocked. A message comes as
-- the text that printf makes of it; LogEnv is what the system answers. Log/Access is the access
-- log and Log/Pid writepid.
--
-- SplayTree is what the cache uses of the splay tree, as operations and what they promise of the
-- blocks in key order. Cache models src/cache.c over such a tree: Cache/Entry has the six calls
-- that write an entry, and Cache itself cache_get, cache_init, cache_rotate and cache_free.
-- cache_free runs on fuel, one for each block, since each round deletes one. Cache/Latest replays
-- the calls of one ship, Cache/Ships and Cache/Rotation are its contract.
--
-- OutMysql models src/out_mysql.c: the statements as texts, with the answers of the database and
-- the texts of floats as parameters.
--
-- Input models src/input.c over the answers of ALSA, and Start the part of main in
-- src/edysquelch.c before its loop, with what the system answers in a World. Start/Process is the
-- whole of main with the closing down behind the loop.
--
-- Main/Stereo and Start/Stereo are about two channels, for blocks of a length that fits the buffer
-- (Receiver/Run/Stereo), which 1020 and 4096 frames do. Serial models src/serial.c.
--
-- Crc32 models src/crc32.c, with the table as a function of its index.
--
-- Main models the receivers and the loop of main in src/edysquelch.c, over the list of reads up to
-- the end of the program.
--
-- How they interact: main calls receiver_run for each block and channel; receiver_run runs the
-- filter, then copy_buffer on its output; copy_buffer calls sample_filter_avg and
-- search_fingerprints, and the latter match_single; a notification is given to jsonout_push, whose
-- thread posts it. A command table of CfgFile calls the handlers of Cfg. Before its loop main runs
-- parse_cmdline, open_log, read_config and fingerprints_load in this order. The log holds the lock
-- of rwlock.c.
--
-- Not modelled: the recording of sound to a file in main, pulseaudio.c and savetofile.c; the memory
-- of the JSON queue; and the copies of other projects' code (cJSON, the splay tree and its symbol
-- table, the assembler filter).
pub mod Prelude
pub mod Fingerpori
pub mod Filter
pub mod Receiver
pub mod CfgFile
pub mod OutJson
pub mod RwLock
pub mod Cfg
pub mod Main
pub mod Memory
pub mod Crc32
pub mod Log
pub mod Input
pub mod Start
pub mod SplayTree
pub mod Serial
pub mod Cache
pub mod OutMysql
