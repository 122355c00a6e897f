-- ===== src/Lib.antt =====
-- A model of the kernel's core: its lists, its page and slab allocators, its formatted printing and
-- text console, its interrupt table and descriptors, its scheduler and clock, its first page map, and
-- the tool that builds its disk image.
--
-- Parts, and the files that model them (paths from the repository's root):
--
--   ListHead   include/list.h. A struct list_head stands at an address, a heap gives the `next` and
--              `prev` words of each address, and each inline function is a command that reads and
--              writes those words in the source's order and faults at an address without a list
--              head. ListHead.Ring says when a heap holds a list with given entries; the modules
--              under ListHead relate each function to that.
--   Hlist      include/list.h, the hlist functions: reads and writes of a memory of pointers.
--   Mm         kernel/mm.c and include/page.h. A struct page * is its index in mem_map. The page
--              and zone structures' list heads are in a ListHead heap at their addresses in the
--              i386 layout; counts, flags and the zones' counters are functions. rmqueue,
--              alloc_pages and __free_pages are written with the list commands, so that a fault in
--              list.h is a fault of the allocator; Mm.Init has page_init, mm_reserved_init and
--              zone_init, Mm.Areas free_area_init, Mm.Addr the conversions of addresses of
--              include/mm.h and page.h, and Mm.Setup the part of mm_init before the caches.
--              Mm.Listed says which free lists are initialised so far, and the modules under
--              Mm.Areas follow free_area_init's rounds. Mm.Free and Mm.Overlap are about
--              __free_pages without and with a free buddy, Mm.Setup.Null about the lists that
--              free_area_init leaves NULL.
--   Slab       kernel/slab.c. A struct slab is a record, its index array a function: cache_estimate,
--              alloc_slabmgmt, cache_init_objs and slab_get_obj.
--   Kmem       kernel/slab.c: cache_grow, cache_alloc_refill, kmem_cache_alloc, in Kmem.Init
--              kmem_list3_init and kmem_cache_init, and in Kmem.Start the whole of mm_init of
--              kernel/mm.c. The lists of slabs are in the ListHead heap of the Mm state, of which
--              kmem_getpages takes pages; a slab is known by the address of its list head.
--              Mm.Foreign says that the page allocator leaves these lists alone.
--   Console    kernel/printf.c, puts, putchar and scroll: the memory and the cursor, on the memcpy
--              and memset of Ram.
--   Printf     kernel/printf.c, do_div, number, skip_atoi, vsnprintf and printf. The output is a
--              Ram and a count whose low 32 bits are the pointer into it, the format the list of
--              its bytes, the arguments the words of the caller's stack; a directive's flags are a
--              record, an absent width is none.
--   Ctype      kernel/ctype.c and include/ctype.h: the table of classes and the tests on it.
--   Ram        kernel/string.c: memcpy, memset and strnlen over a function from addresses to bytes;
--              mem_dump, which prints, is in Printf.Dump.
--   Sched      kernel/sched.c: the two static variables, the gdt and a log of the switches.
--   Desc       kernel/i386.c and include/i386.h: init_desc, init_desc2 and _set_gate, each with the
--              words it writes; what the processor reads from them is written from their layout.
--   Irq        kernel/irq.c and kernel/traps.c: the interrupt table that irq_init and traps_init fill.
--   Tasks      kernel/task.c, creat_task0: the TSS of the first task and the descriptors in the gdt.
--   Time       kernel/time.c: ktime, msleep and sleep on the sequence of values that jiffies has.
--   Image      tools/mkimage.c: the bytes written to the image, with what a read gives as a parameter.
--   Boot       kernel/boot.c, default_page_map: the words of the page directory and the page tables;
--              in Boot.Start boot_main, on the memcpy of Ram.
--   Base       Boolean tests on numbers, list membership and distinctness, the pigeonhole bound, and
--              the bitwise operations field by field.
--
-- Fuel and bounds. The loops of rmqueue and __free_pages run over the orders up to MAX_ORDER = 11
-- and recurse on the orders that are left; the walk over the zonelist has ZONE_NR + 1 = 4 slots.
-- The inner loop of free_area_init advances by at least one page, so that as many rounds as there
-- are pages are enough. The byte loops of Ram and the loop of cache_init_objs recurse on their
-- counts. The loop over a format takes its length as fuel, since each round takes a byte of it,
-- puts in printf the size of printf_buf, and the digits of a number 64 rounds, since it is below
-- 2^64. A width or a precision written in a format is an int of 32 bits, which below 0 acts as 0.
-- The sums of addresses and sizes of slab.c and the pointer of vsnprintf are cut to 32 bits. The
-- refill loop of a cache takes the batch count and one more as fuel, and the retry after a growth
-- of the cache a fuel of its own. Each round of mkimage's loops takes a byte or more, so that the
-- size of the disk is enough. The waits of Time take fuel for the reads of jiffies, as many as it
-- takes until the time has passed. list_for_each and hlist_for_each take fuel, and one more than
-- the number of entries is enough. The counters nr_free wrap at 2^32, which fewer pages than 2^32
-- - 1 never reach. Of the machine that mm_init finds the memory for the page structures is taken
-- to be mapped and cleared, since page_init does not clear it.
--
-- Not modelled: the load of cr3 and the switches of tasks, which are assembly; kernel_start, which
-- calls the other parts in turn and then waits; the gfp mask, which alloc_pages ignores; and
-- concurrency, since the kernel takes no locks here.
pub mod Base
pub mod Boot
pub mod Console
pub mod Ctype
pub mod Desc
pub mod Hlist
pub mod Image
pub mod Irq
pub mod Kmem
pub mod ListHead
pub mod Mm
pub mod Printf
pub mod Ram
pub mod Sched
pub mod Slab
pub mod Tasks
pub mod Time
