-- ===== src/Pipe/Ring.antt =====
-- kernel/core/pipe.c: the ring buffer of a pipe as the queue of the bytes that it holds.
use hydrogen_os.Prelude.{
  ℕ, zero, suc, ◌+◌, ◌-◌, ◌%◌, ◌≤◌, ◌<◌, ◌≡◌, refl, ◌≢◌, ◌∙◌, ap, List, [], ◌∷◌, ◌++◌, arith,
  length, get_or, set, length-set, get_or-set_self, get_or-set_ne,
}
use hydrogen_os.Pipe.{Pipe, capacity, take_byte, put_byte}

-- The `n` bytes from position `i` on, going round at the capacity.
abbrev pub bytes_from : List ℕ → ℕ → ℕ → List ℕ
bytes_from buf i zero = []
bytes_from buf i (suc n) = get_or buf i 0 ∷ bytes_from buf ((i + 1) % capacity) n

-- What a pipe holds, oldest byte first.
abbrev pub contents : Pipe → List ℕ
contents p = bytes_from p.buffer p.read_pos p.size

-- The representation invariant.
pub record IsValid (p : Pipe) : Type 0 where
  pub storage : length p.buffer ≡ capacity
  pub read_in : p.read_pos < capacity
  pub size_le : p.size ≤ capacity
  pub write_at : p.write_pos ≡ (p.read_pos + p.size) % capacity

pub length-bytes_from : (buf : List ℕ) (i n : ℕ) → length (bytes_from buf i n) ≡ n
length-bytes_from buf i zero = refl
length-bytes_from buf i (suc n) = ap suc (length-bytes_from buf ((i + 1) % capacity) n)

bytes_from-set :
    (buf : List ℕ) (b n i j : ℕ)
    → length buf ≡ capacity
    → i < capacity
    → n < capacity
    → j ≡ (i + n) % capacity
    → bytes_from (set buf j b) i (suc n) ≡ bytes_from buf i n ++ (b ∷ [])
bytes_from-set buf b zero i j len hi hn e =
    let same : j ≡ i = omega arith in rw (same, get_or-set_self buf i b 0 (omega arith))
bytes_from-set buf b (suc n) i j len hi hn e =
    let apart : j ≢ i = omega arith in
    let rest =
      bytes_from-set buf b n ((i + 1) % capacity) j len (omega arith) (omega arith) (omega arith) in
    ap (λ x. x ∷ bytes_from (set buf j b) ((i + 1) % capacity) (suc n))
      (get_or-set_ne buf j i b 0 apart)
    ∙ ap (λ xs. get_or buf i 0 ∷ xs) rest

bytes_from_of_ne_zero :
    (buf : List ℕ) (i n : ℕ)
    → n ≢ 0
    → bytes_from buf i n ≡ get_or buf i 0 ∷ bytes_from buf ((i + 1) % capacity) (n - 1)
bytes_from_of_ne_zero buf i zero h = absurd (h refl)
bytes_from_of_ne_zero buf i (suc n) h =
    ap (λ k. get_or buf i 0 ∷ bytes_from buf ((i + 1) % capacity) k) (omega arith)

pub contents-take_byte :
    (p : Pipe) → p.size ≢ 0 → contents p ≡ get_or p.buffer p.read_pos 0 ∷ contents (take_byte p)
unfolding take_byte
contents-take_byte p h = bytes_from_of_ne_zero p.buffer p.read_pos p.size h

pub take_byte-IsValid : (p : Pipe) → IsValid p → p.size ≢ 0 → IsValid (take_byte p)
unfolding take_byte
take_byte-IsValid p v h = record {
  storage = v.storage;
  read_in = omega arith;
  size_le = omega (arith, v.size_le);
  write_at = omega (arith, v.write_at, v.read_in);
}

pub contents-put_byte :
    (b : ℕ) (p : Pipe)
    → IsValid p
    → p.size < capacity
    → contents (put_byte b p) ≡ contents p ++ (b ∷ [])
unfolding put_byte
contents-put_byte b p v h =
    let e : p.size + 1 ≡ suc p.size = omega arith in
    rw e (bytes_from-set p.buffer b p.size p.read_pos p.write_pos v.storage v.read_in h v.write_at)

pub put_byte-IsValid : (b : ℕ) (p : Pipe) → IsValid p → p.size < capacity → IsValid (put_byte b p)
unfolding put_byte
put_byte-IsValid b p v h = record {
  storage = length-set p.buffer p.write_pos b ∙ v.storage;
  read_in = v.read_in;
  size_le = omega arith;
  write_at = omega (arith, v.write_at);
}
