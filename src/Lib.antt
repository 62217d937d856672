-- ===== src/Lib.antt =====
-- HydrogenOS, a desktop operating system in C: models of components of its kernel, and theorems
-- that they do what they promise.
--
-- The parts and their files:
-- - Prelude: names passed on from the libraries, Boolean tests, lists with native indices, and the
--   bits of a byte (Prelude/Bytes), which stand for `|= 1u << k`, `&= ~(1u << k)` and `& (1u << k)`.
-- - Pmm: kernel/mm/pmm.c, the physical page allocator. The static variables are the record `Pmm`;
--   `pmm_alloc_page`, `pmm_alloc_contiguous`, `pmm_free_page`, `pmm_first_free_frame`,
--   `pmm_free_page_count` and `pmm_init` are `alloc_page`, `alloc_contiguous`, `free_page`,
--   `first_free_frame`, `free_page_count` and `init`. `pmm_init` reads the boot information through
--   the fields of `BootInfo`.
-- - Waitq: kernel/core/waitq.c, intrusive wait queues over a store of queues and entries; the
--   functions keep their names, less the prefix `wait_`. `Holds s q es` says that queue `q` links
--   exactly the entries `es`, oldest first.
-- - Pipe: kernel/core/pipe.c, pipes over the wait queues of `Waitq`; `kernel_pipe_` is dropped from
--   the names. `contents` is the queue of bytes that a pipe's ring stands for.
-- - VmmUser: kernel/mm/vmm_user.c, the anonymous memory of a process; the functions keep their
--   names, less the prefix `vmm_user_`. The list of regions is a list, read as a map from addresses
--   to protections by `lookup` in VmmUser/View; `map_at`, `place`, `unmap_range_of` and `unmap_loop`
--   are parts of the two calls. The page tables, the page allocator and the heap are the interface
--   `Machine`. VmmUser/Split, Place, Map and Enough prove `vmm_user_map`, VmmUser/Unmap
--   `vmm_user_unmap`. VmmUser/Protect holds `vmm_user_protect` and `vmm_user_release`, with the
--   proofs for its check (Cover), its splits and the change (Change), `merge_around` (Merge) and
--   the call (Whole).
-- - Access: kernel/fs/vfs_access.c and kernel/core/credentials.c, permissions and who holds them. The
--   functions keep their names, less `vfs_` and `credentials_`; the file systems below are the
--   interface `Vfs`. Access/Search says who may search a directory, Access/Walk is about the
--   directories on the way to a file, Access/Owner about changes of mode, owner and credentials.
-- - Kheap: kernel/mm/kheap.c, the kernel's heap; the functions keep their names. Kheap/Chain says when
--   the chain of blocks is in order, Kheap/Alloc, Free and Summary are about `kalloc`, `kfree` and
--   `kheap_get_stats`, Kheap/Round about an allocation that is taken back, Kheap/Runs about any
--   sequence of calls. A `kfree` that would write outside the chain has no result.
-- - ExitRecord: kernel/core/exit_record.c, the exit statuses of children, whose records the heap of
--   `Kheap` grants; the functions keep their names.
-- - SpawnArgs: kernel/core/spawn_args.c, the arguments and the environment on the stack of a new
--   process; the functions keep their names. SpawnArgs/Vectors says where the packed strings start
--   and what is written, SpawnArgs/Place is about `spawn_args_place`.
-- - Cmdline: kernel/core/cmdline.c; the functions keep their names, less `cmdline_text`, which hands the
--   text out. Cmdline/Words describes the words of a text, Cmdline/Flag is about the search. Loops run
--   on the length of the text or of the name, which the theorem shows to be enough.
-- - Kmsg: kernel/core/kmsg.c, the ring of the kernel's log. Kmsg/Log ties the ring to the list of all
--   characters pushed, Kmsg/Tail is about `kmsg_copy_tail`.
-- - Sort: userspace/lib/sort.c; the functions keep their names. Sort/Move has rearrangements of an
--   array, Sort/Insertion, Heap and Partition the parts of the sort, Sort/Whole `qsort`, Sort/Search
--   `bsearch`. The recursion of `introsort` runs on the number of elements, which is enough.
-- - Shell: userspace/shell, its limits and tokens, with Shell/Lexer for lexer.c: `lexer_tokenize` is
--   `tokenize`. Lexer/Text describes the tokens of a line, and why a line is refused, apart from the
--   code. Loops run on the length of the line, which is enough. Shell/Parser is parser.c:
--   `parser_parse` is `parse`, and Parser/Grammar the grammar apart from the code; loops run on the
--   number of tokens.
--
-- Loops over an array are recursions on the number of rounds left. The walk over the memory map runs
-- on `mmap_length + 1` rounds, which its theorem shows to be enough; `wait_queue_wake_all` and what
-- calls it takes a bound on the number of waiters, and its theorems ask that it exceed their number.
-- Machine integers are natural numbers; where an operation of the source can wrap, the model wraps.
--
-- Not modelled: drivers, assembly, the desktop and the other programs in userspace, and vendored code
-- (kernel/video/stb_truetype.h); interrupts are taken to be masked where the code masks them.
pub mod Prelude
pub mod Access
pub mod Cmdline
pub mod ExitRecord
pub mod Kheap
pub mod Kmsg
pub mod Pipe
pub mod Pmm
pub mod Shell
pub mod Sort
pub mod SpawnArgs
pub mod VmmUser
pub mod Waitq
