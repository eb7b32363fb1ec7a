-- ===== src/Lib.antt =====
-- Magic Rescue: a program that finds files on a raw device by their first bytes, `dupemap`, which finds
-- duplicates among what was found, and tools that recipes call: `textextract`, which cuts text out of
-- other data, and `safecat`. The development models the core of them, written in C, as functions, and
-- proves what makes them correct.
--
-- How the parts work together. A recipe file says where a file of some type has which bytes, and which
-- external program extracts it. `parse_recipe` (src/magicrescue.c) reads recipes into a list of scanners,
-- each with its recipes, and keeps a global `overlap`, the number of bytes that any of them looks at.
-- `scan_disk` reads a device through a buffer of which `overlap` bytes are scanned again in the next
-- round, and gives each window to `scan_buf`. That runs every scanner (src/scanner.c) over the window,
-- tests the operations of its recipes (src/recipe.c) at each hit, calls the external program at a match,
-- and notes the range that the file found takes, in order to skip it. `dupemap` (src/dupemap.c) goes
-- through directories (src/recur.c), computes a checksum of every file and looks it up in a database.
-- `textextract` (tools/textextract.c) gives each byte a score and ends the text where the sum is too high;
-- `safecat` (tools/safecat.c) copies its input as long as the command behind it produces output.
--
-- Where the parts are:
--   Base       names of the library, lists, bit operations and integers that all share.
--   Util       src/util.c: `hex2num` and `hextoll` (Util/Hex), `string_init` (Util/Escape), `atol_calc`
--              (Util/Size), `rich_seek` (Util/Seek).
--   Array      src/array.c: `struct array` in its block of memory. The other parts have lists instead.
--   Recur      src/recur.c: `recur_next` with its stack of directories, Recur/Walk the list of files that
--              it stands for, `rm_rf` (Recur/Remove).
--   Sink       `write`, an interface with the laws of POSIX, and `write_all` of tools/textextract.c.
--   Memory     an address space as a function from addresses to bytes; a pointer is a number, and a
--              null pointer is `none`.
--   Recipe     src/recipe.c and src/recipe.h: the operations and `struct recipe`.
--   Scanner    src/scanner.c and src/scanner.h: the scanner functions. `scanner->func` and its union of
--              parameters are one data type, `ScanFunc`.
--   ScanBuf    src/magicrescue.c: `scan_buf`. The globals that it changes are in the record `Scan`, with
--              the reports made so far; a range whose `begin` is negative has `begin` none.
--   Device     `read` and `lseek` on the device, an interface with the laws of POSIX.
--   ScanDisk   src/magicrescue.c: `scan_disk`. Its variables are the record `Disk`; how it is left is an
--              `Exit`.
--   Extract    src/extract.c: `compose_name`, `run_shell`, `rename_output` and `extract`, over the interface
--              `System` of the calls of the system that they make.
--   Parse      src/magicrescue.c: `parse_recipe` and `scanner_add_or_reuse`; Parse/Scanf has what they
--              use of `sscanf`, Parse/Registry the list of scanners.
--   Dupemap    src/dupemap.c: `checksum_calc` (Dupemap/Checksum), `parse_mode` (Dupemap/Mode), `scan_file`
--              (Dupemap/ScanFile), `main` (Dupemap/Main), and the interface of ndbm (Dupemap/Dbm).
--   Program    the options of `main` of src/magicrescue.c (Program/Options), its loops over devices and
--              how a device is opened (Program/Devices), and recipes and a scan together.
--   Textextract  tools/textextract.c: `inspect_char`, the tables of scores (Textextract/Rules), and the
--              functions that read, `read_forward` (Textextract/Forward) and `read_backward`
--              (Textextract/Backward), with `main` (Textextract/Main). The buffer is the list of the
--              bytes that it holds, and `last_letter` an index of it.
--   Safecat    tools/safecat.c: the two loops of `main`.
--   Tests      runs on small inputs, and each theorem with hypotheses at one of them.
--
-- Numbers. Sizes, offsets and addresses are natural numbers without a bound, as for files within the range
-- of `off_t` and buffers within that of `size_t`; a subtraction in C that could go below zero is written
-- as what the code does there. `op_int32`, `hextoll`, `scanner_block`, the checksum and the rounding of
-- the overlap are at the width of their C types; `atol_calc` gives no result where a product does not fit
-- into a `long`. The counters of `textextract` and `safecat` are numbers without a bound.
--
-- Loops. The loops of `scan_buf` and of `scanner_string` go on fuel for each byte of the window, and that
-- of `scan_disk` on fuel for each byte of the device and one more. A round moves on by a byte at least, so
-- that is enough, and `disk_loop` that runs out has an exit of its own. The loop over the length in
-- `checksum_calc` has the length as its fuel. `compose_name` tries names until one is free or too long; its
-- fuel is the number of tries, and running out is a result of its own. `read_forward` and `safecat` go on
-- fuel for each byte of their input and one more, `write_all` on fuel for each byte that it is given. A
-- caller of `recur_next` needs a call for each file and one more; `rm_rf` has PATH_MAX levels, and a path
-- gets longer with each. A stack of directories has 100 entries, as in the source.
--
-- What is not modelled: the messages; limits of resources, signals and the environment of the programs;
-- what a child process does, which is the interface's; `calloc` and `free`; a failure of `malloc` or
-- `realloc`, for which the source has no test but in `textextract`. `scan_buf` and `scan_disk` take
-- `extract` as an argument that may do anything to the world, so what is shown of them holds for every
-- one. A `memcpy` of regions that overlap, which a short first read of `scan_disk` leads to, has
-- no result in C, and the model of `scan_disk` ends there with an exit of its own. A recipe with an offset
-- below 0 is accepted by the program, and its model ends at that line with a result of its own, since
-- offsets are natural numbers. A traversal sees one state of the file system; in `dupemap` each call sees
-- the state that the files removed before it leave. `getopt`, `atol` and their kin are those of C, and
-- arguments of the model. tools/inputseek.c is a call of `rich_seek` and one of `execvp`. The Perl tools,
-- the configuration scripts and the test data are left out.
pub mod Base
pub mod Util
pub mod Memory
pub mod Recipe
pub mod Scanner
pub mod ScanBuf
pub mod Extract
pub mod Device
pub mod ScanDisk
pub mod Parse
pub mod Dupemap
pub mod Tests
pub mod Sink
pub mod Textextract
pub mod Program
pub mod Recur
pub mod Array
pub mod Safecat
