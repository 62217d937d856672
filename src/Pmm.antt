-- ===== src/Pmm.antt =====
-- kernel/mm/pmm.c, the physical page allocator: a bitmap with one bit for each page (set = in use)
-- and a hint below which no page is free. `page_bitmap` is a function from the byte's index to the
-- byte; every access of the code lies below byte 4096 of its 32768. A `size_t` that indexes a page
-- stays below PMM_MAX_PAGES + 1, so its additions do not wrap; what is read from the boot
-- information is wrapped as the code's types say.
pub mod Bits
pub mod Alloc
pub mod Contiguous
pub mod Boot
pub mod Count
mod Tests
use hydrogen_os.Prelude.{
  ℕ, zero, suc, ◌+◌, ◌-◌, ◌*◌, ◌/◌, ◌%◌, ◌^◌, Bool, bit_and, ltb, ◌==◌, if◌then◌else◌, min, Option,
  none, some,
}
use hydrogen_os.Prelude.Bytes.{bit_at, bit_set, bit_clear}

abbrev pub page_size : ℕ
page_size = 4096

abbrev pub max_pages : ℕ
max_pages = 32768

pub record Pmm : Type 0 where
  pub page_bitmap : ℕ → ℕ
  pub first_free_hint : ℕ

-- One write to the bitmap array.
abbrev pub store : (ℕ → ℕ) → ℕ → ℕ → ℕ → ℕ
store m k v j = if k == j then v else m j

pub set_bit : ℕ → Pmm → Pmm
set_bit idx p = record p {
  page_bitmap = store p.page_bitmap (idx / 8) (bit_set (p.page_bitmap (idx / 8)) (idx % 8));
}

pub clear_bit : ℕ → Pmm → Pmm
clear_bit idx p = record p {
  page_bitmap = store p.page_bitmap (idx / 8) (bit_clear (p.page_bitmap (idx / 8)) (idx % 8));
}

pub test_bit : ℕ → Pmm → Bool
test_bit idx p = bit_at (p.page_bitmap (idx / 8)) (idx % 8)

-- `for (size_t i = first; i < first + n; ++i) set_bit(i);`
pub set_range : ℕ → ℕ → Pmm → Pmm
set_range zero first p = p
set_range (suc n) first p = set_range n (first + 1) (set_bit first p)

pub clear_range : ℕ → ℕ → Pmm → Pmm
clear_range zero first p = p
clear_range (suc n) first p = clear_range n (first + 1) (clear_bit first p)

-- The first page at or above an address and the one past its last byte; `uintptr_t` wraps.
abbrev pub page_up : ℕ → ℕ
page_up addr = (addr + page_size - 1) % 2 ^ 64 / page_size

pub reserve_region : ℕ → ℕ → Pmm → Pmm
reserve_region start end p =
    let first = start / page_size in
    let last = (if ltb max_pages (page_up end) then max_pages else page_up end) in
    set_range (last - first) first p

-- The loop of `pmm_alloc_page` over the `n` pages from `i` on.
pub alloc_scan : ℕ → ℕ → Pmm → ℕ × Pmm
alloc_scan zero i p = (0, record p { first_free_hint = max_pages })
alloc_scan (suc n) i p =
    let rest = alloc_scan n (i + 1) p in
    if test_bit i p then rest else (i * page_size, record (set_bit i p) { first_free_hint = i + 1 })

pub alloc_page : Pmm → ℕ × Pmm
alloc_page p = alloc_scan (max_pages - p.first_free_hint) p.first_free_hint p

-- The loop of `pmm_alloc_contiguous` over the `n` pages from `i` on.
pub contiguous_scan : ℕ → ℕ → ℕ → ℕ → ℕ → Pmm → ℕ × Pmm
contiguous_scan zero i pages run_start run_len p = (0, p)
contiguous_scan (suc n) i pages run_start run_len p =
    let start = (if run_len == 0 then i else run_start) in
    let restart = contiguous_scan n (i + 1) pages run_start 0 p in
    let go_on = contiguous_scan n (i + 1) pages start (run_len + 1) p in
    if test_bit i p
    then restart
    else if run_len + 1 == pages
    then (start * page_size, set_range pages start p)
    else go_on

pub alloc_contiguous : ℕ → Pmm → ℕ × Pmm
alloc_contiguous pages p =
    if pages == 0
    then (0, p)
    else if ltb max_pages pages
    then (0, p)
    else contiguous_scan max_pages 0 pages 0 0 p

pub free_page : ℕ → Pmm → Pmm
free_page addr p =
    let index = addr / page_size in
    let q = clear_bit index p in
    if ltb index max_pages
    then (if ltb index p.first_free_hint then record q { first_free_hint = index } else q)
    else p

pub first_free_scan : ℕ → ℕ → Pmm → ℕ
first_free_scan zero i p = 2 ^ 64 - 1
first_free_scan (suc n) i p =
    let rest = first_free_scan n (i + 1) p in if test_bit i p then rest else i

pub first_free_frame : Pmm → ℕ
first_free_frame p = first_free_scan (max_pages - p.first_free_hint) p.first_free_hint p

pub count_scan : ℕ → ℕ → Pmm → ℕ
count_scan zero i p = 0
count_scan (suc n) i p = (if test_bit i p then 0 else 1) + count_scan n (i + 1) p

pub free_page_count : Pmm → ℕ
free_page_count p = count_scan max_pages 0 p

-- What `pmm_init` reads of the boot information: the memory map's bytes through `read32` and
-- `read64`, and the table of boot modules.
pub record BootInfo : Type 0 where
  pub flags : ℕ
  pub mmap_addr : ℕ
  pub mmap_length : ℕ
  pub mods_count : ℕ
  pub mods_addr : ℕ
  pub read32 : ℕ → ℕ
  pub read64 : ℕ → ℕ

-- The body of the memory map's loop: `e` has its size at 0, its address at 4, its length at 12 and
-- its type at 20, packed.
pub clear_available : BootInfo → ℕ → Pmm → Pmm
clear_available mbi e p =
    let limit = max_pages * page_size in
    let start = mbi.read64 (e + 4) in
    let sum = (mbi.read64 (e + 4) + mbi.read64 (e + 12)) % 2 ^ 64 in
    let end = (if ltb limit sum then limit else sum) in
    let first = start / page_size in
    let last = page_up end in
    let cleared = clear_range (min last max_pages - first) first p in
    if mbi.read32 (e + 20) == 1 then (if ltb start limit then cleared else p) else p

-- `for (p = mmap_addr; p < mmap_end; p += e->size + 4)`, on fuel.
pub mmap_loop : ℕ → BootInfo → ℕ → ℕ → Pmm → Pmm
mmap_loop zero mbi e end p = p
mmap_loop (suc n) mbi e end p =
    let rest =
      mmap_loop n mbi ((e + (mbi.read32 e + 4) % 2 ^ 64) % 2 ^ 64) end (clear_available mbi e p) in
    if ltb e end then rest else p

-- `for (i = 0; i < mods_count; ++i)`; a module's record holds its start at 0 and its end at 4.
pub mods_loop : ℕ → BootInfo → ℕ → Pmm → Pmm
mods_loop zero mbi m p = p
mods_loop (suc n) mbi m p =
    let start = mbi.read32 m in
    let end = mbi.read32 (m + 4) in
    mods_loop n mbi (m + 16) (if ltb start end then reserve_region start end p else p)

-- `sizeof(page_bitmap)` bytes of 0xFF; the hint is the static zero.
abbrev pub all_reserved : Pmm
all_reserved = record { page_bitmap = λ k. 255; first_free_hint = 0 }

-- The memory map, when there is one. Every step of the walk advances by at least 4 bytes unless it
-- wraps, so `mmap_length + 1` rounds are enough.
pub init_mmap : Option BootInfo → Pmm
init_mmap none = all_reserved
init_mmap (some mbi) =
    if bit_and mbi.flags (2 ^ 6) == 0
    then all_reserved
    else mmap_loop (mbi.mmap_length + 1) mbi mbi.mmap_addr (mbi.mmap_addr + mbi.mmap_length)
        all_reserved

pub init_mods : Option BootInfo → Pmm → Pmm
init_mods none p = p
init_mods (some mbi) p =
    if bit_and mbi.flags (2 ^ 3) == 0 then p else mods_loop mbi.mods_count mbi mbi.mods_addr p

-- `kernel_start` and `kernel_end` are the linker's symbols; `none` is a null address.
pub init : ℕ → ℕ → Option BootInfo → Pmm
init kernel_start kernel_end mbi =
    let low = reserve_region 0 0x00100000 (init_mmap mbi) in
    init_mods mbi (reserve_region kernel_start kernel_end low)
