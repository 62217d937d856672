-- ===== src/Cmdline.antt =====
-- kernel/core/cmdline.c. A C string is the list of its bytes, none of them 0, and reads as 0 behind its
-- end.
pub mod Words
pub mod Flag
mod Tests
use hydrogen_os.Prelude.{
  ℕ, zero, suc, ◌+◌, ◌-◌, ◌%◌, ◌^◌, Bool, true, false, ◌&&◌, ◌||◌, not, ltb, leb, ◌==◌,
  if◌then◌else◌, List, [], ◌∷◌, get_or, length, bit_and,
}

abbrev pub cmdline_cap : ℕ
cmdline_cap = 256

abbrev pub address_limit : ℕ
address_limit = 1073741824

-- The fields of multiboot_info_t that are read.
pub record BootLine : Type 0 where
  pub flags : ℕ
  pub cmdline : ℕ

-- The copy of the text at an address, of so many bytes at most.
pub copy_text : ℕ → (ℕ → ℕ) → ℕ → List ℕ
copy_text zero memory addr = []
copy_text (suc n) memory addr =
    let rest = copy_text n memory (addr + 1) in if memory addr == 0 then [] else memory addr ∷ rest

-- `cmdline_init` with a null pointer, or with the address of the record at which it points.
pub cmdline_init : (ℕ → ℕ) → ℕ → BootLine → List ℕ
cmdline_init memory multiboot_info_addr mbi =
    if (multiboot_info_addr == 0)
      || ((bit_and mbi.flags 4 == 0) || ((mbi.cmdline == 0) || leb address_limit mbi.cmdline))
    then []
    else copy_text (cmdline_cap - 1) memory mbi.cmdline

-- `cmdline[i]`
abbrev pub cmdline_at : List ℕ → ℕ → ℕ
cmdline_at text i = get_or text i 0

pub skip_spaces : ℕ → List ℕ → ℕ → ℕ
skip_spaces zero text i = i
skip_spaces (suc fuel) text i =
    let rest = skip_spaces fuel text (i + 1) in if cmdline_at text i == b' ' then rest else i

pub find_word_end : ℕ → List ℕ → ℕ → ℕ
find_word_end zero text i = i
find_word_end (suc fuel) text i =
    let rest = find_word_end fuel text (i + 1) in
    if not (cmdline_at text i == 0) && not (cmdline_at text i == b' ') then rest else i

-- How many bytes of a name the word between two positions begins with.
pub match_name : ℕ → List ℕ → List ℕ → ℕ → ℕ → ℕ → ℕ
match_name zero text name start end j = j
match_name (suc fuel) text name start end j =
    let rest = match_name fuel text name start end (j + 1) in
    if ltb (start + j) end
      && (not (cmdline_at name j == 0) && (cmdline_at text (start + j) == cmdline_at name j))
    then rest
    else j

pub has_flag_loop : ℕ → List ℕ → List ℕ → ℕ → Bool
has_flag_loop zero text name i = false
has_flag_loop (suc fuel) text name i =
    let start = skip_spaces (length text) text i in
    let end = find_word_end (length text) text start in
    let j = match_name (length name) text name start end 0 in
    let rest = has_flag_loop fuel text name end in
    if cmdline_at text i == 0
    then false
    else if ltb 0 j && ((start + j == end) && (cmdline_at name j == 0))
    then true
    else rest

pub cmdline_has_flag : List ℕ → List ℕ → Bool
cmdline_has_flag text name = has_flag_loop (length text) text name 0
