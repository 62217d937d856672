-- ===== src/Pmm/Boot/Map.antt =====
-- kernel/mm/pmm.c: the walk over the boot loader's memory map in `pmm_init`.
use hydrogen_os.Prelude.{
  ℕ, zero, suc, ◌+◌, ◌-◌, ◌*◌, ◌/◌, ◌%◌, ◌^◌, ◌≤◌, ◌<◌, ◌≡◌, refl, ◌⊎◌, false, arith, ltb,
  if◌then◌else◌, inl, inr, Bool-cases, ltb→lt, min, List, [], ◌∷◌,
}
use hydrogen_os.Pmm.{
  Pmm, max_pages, page_size, page_up, test_bit, clear_range, BootInfo, clear_available, mmap_loop,
}
use hydrogen_os.Pmm.Bits.{within, test_bit-clear_range}
use hydrogen_os.Pmm.Boot.{IsBooting, Meets, clear_available-IsBooting}

-- The end of a memory-map entry's range, cut at what the allocator manages.
abbrev pub entry_end : BootInfo → ℕ → ℕ
entry_end mbi e =
    if ltb (max_pages * page_size) ((mbi.read64 (e + 4) + mbi.read64 (e + 12)) % 2 ^ 64)
    then max_pages * page_size
    else (mbi.read64 (e + 4) + mbi.read64 (e + 12)) % 2 ^ 64

-- The entry at `e` is available memory, with a byte in page `j`; its end wraps as a 64-bit sum.
pub record Offers (mbi : BootInfo) (j e : ℕ) : Type 0 where
  pub available : mbi.read32 (e + 20) ≡ 1
  pub page : Meets (mbi.read64 (e + 4)) ((mbi.read64 (e + 4) + mbi.read64 (e + 12)) % 2 ^ 64) j

-- The walk from `e` reaches an entry that offers page `j`.
pub data Reached (mbi : BootInfo) (end j : ℕ) : ℕ → Type 0 where
  here : {e : ℕ} → e < end → Offers mbi j e → Reached mbi end j e
  there :
      {e : ℕ}
      → e < end
      → Reached mbi end j ((e + (mbi.read32 e + 4) % 2 ^ 64) % 2 ^ 64)
      → Reached mbi end j e

clear_available-free :
    (mbi : BootInfo) (e j : ℕ) (p : Pmm)
    → IsBooting p
    → test_bit j (clear_available mbi e p) ≡ false
    → (test_bit j p ≡ false) ⊎ Offers mbi j e
unfolding clear_available
clear_available-free mbi e j p b free = elim (Bool-cases (test_bit j p)) [
  | inr was ↦ inl was
  | inl used ↦ inr (record {
    available = ground (arith, bit);
    page = (ground (arith, bit), ground (arith, bit));
  })
]
  where
    bit :
        test_bit j (
          clear_range
            (min (page_up (entry_end mbi e)) max_pages - mbi.read64 (e + 4) / page_size)
            (mbi.read64 (e + 4) / page_size)
            p)
        ≡ (if within
              (mbi.read64 (e + 4) / page_size)
              (min (page_up (entry_end mbi e)) max_pages - mbi.read64 (e + 4) / page_size)
              j
            then false
            else test_bit j p)
    bit = test_bit-clear_range _ _ j p b.bytes

pub mmap_loop-free :
    (n : ℕ) (mbi : BootInfo) (e end j : ℕ) (p : Pmm)
    → IsBooting p
    → test_bit j (mmap_loop n mbi e end p) ≡ false
    → (test_bit j p ≡ false) ⊎ Reached mbi end j e
unfolding mmap_loop
mmap_loop-free zero mbi e end j p b free = inl free
mmap_loop-free (suc n) mbi e end j p b free = elim (Bool-cases (ltb e end)) [
  | inr done ↦ inl (rw done at free)
  | inl more ↦
      let lt : e < end = ltb→lt e end more in
      elim (mmap_loop-free n mbi _ end j _ (clear_available-IsBooting mbi e p b)
        (rw more at free)) [
          | inr later ↦ inr (there lt later)
          | inl now ↦ elim (clear_available-free mbi e j p b now) [
            | inl was ↦ inl was
            | inr offers ↦ inr (here lt offers)
          ]
        ]
]

-- The addresses of the entries from `e` on, each with its size in front, up to the end of the map.
pub data Entries (mbi : BootInfo) (end : ℕ) : ℕ → List ℕ → Type 0 where
  past : (e : ℕ) → end ≤ e → Entries mbi end e []
  entry :
      (e : ℕ) (es : List ℕ)
      → e < end
      → Entries mbi end (e + mbi.read32 e + 4) es
      → Entries mbi end e (e ∷ es)

abbrev pub clear_all : BootInfo → List ℕ → Pmm → Pmm
clear_all mbi [] p = p
clear_all mbi (e ∷ es) p = clear_all mbi es (clear_available mbi e p)

-- The walk over the memory map ends: for 32-bit sizes and a map that ends at 2^33 at most, there is a
-- finite list of all the entries from an address up to the end of the map, and with fuel for the bytes
-- that are left the loop handles exactly these, in order.
pub mmap_loop-Entries :
    (n : ℕ) (mbi : BootInfo) (e end : ℕ) (p : Pmm)
    → ((a : ℕ) → mbi.read32 a < 2 ^ 32)
    → end ≤ 2 ^ 33
    → end < e + n
    → (es : List ℕ) × Entries mbi end e es × (mmap_loop n mbi e end p ≡ clear_all mbi es p)
unfolding mmap_loop
mmap_loop-Entries zero mbi e end p r le h = ([], past e (omega (arith, h)), refl)
mmap_loop-Entries (suc n) mbi e end p r le h = elim (Bool-cases (ltb e end)) [
  | inr done ↦ rw done ([], past e (ground (arith, done)), refl)
  | inl more ↦
      let lt : e < end = ltb→lt e end more in
      let step : (e + (mbi.read32 e + 4) % 2 ^ 64) % 2 ^ 64 ≡ e + mbi.read32 e + 4 =
        omega (arith, r e, lt, le) in
      let (es, rest, same) =
        mmap_loop-Entries n mbi (e + mbi.read32 e + 4) end (clear_available mbi e p) r le
          (omega (arith, h)) in
      rw (more, step) (e ∷ es, entry e es lt rest, same)
]
