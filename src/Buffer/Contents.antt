-- ===== src/Buffer/Contents.antt =====
-- What a Buffer holds, the invariant of its fields, and the copies that the operations make.
use datatypes.Base.{
  true, ℕ, ◌+◌, ◌-◌, ◌≤◌, ◌<◌, ◌≡◌, refl, sym, ◌∙◌, ap, List, [], ◌++◌, arith, ok, word, ssize_max,
  length, take, drop, tabulate, overwrite, length-append, length-take, length-tabulate, take-append,
  take-append_of_le, take-take, append_assoc,
}
use datatypes.Buffer.{Buffer, memcpy, read_bytes, malloc, realloc, init, clear}

-- the bytes stored in the buffer
abbrev pub contents : Buffer → List ℕ
contents b = take b.len b.cells

pub record IsSound (b : Buffer) : Type 0 where
  pub allocated : length b.cells ≡ b.msize
  pub filled : b.len ≤ b.msize
  pub bounded : b.len ≤ b.max_size
  pub limited : b.max_size < ssize_max
  pub some_memory : 0 < b.msize
  pub fits : b.msize < word

pub memcpy-ok :
    (cells : List ℕ) (i : ℕ) (xs : List ℕ)
    → i + length xs ≤ length cells
    → memcpy cells i xs ≡ ok (overwrite cells i xs)
unfolding memcpy
memcpy-ok cells i xs h = ground arith

pub read_bytes-ok :
    (cells : List ℕ) (n : ℕ) → n ≤ length cells → read_bytes cells n ≡ ok (take n cells)
unfolding read_bytes
read_bytes-ok cells n h = ground arith

-- a write directly behind a prefix makes the prefix longer
pub take-overwrite :
    (cells : List ℕ) (i n : ℕ) (xs : List ℕ)
    → i ≤ length cells
    → n ≡ i + length xs
    → take n (overwrite cells i xs) ≡ take i cells ++ xs
take-overwrite cells i n xs h e =
    ap (take n) (sym (append_assoc (take i cells) xs (drop (i + length xs) cells)))
    ∙ take-append (take i cells ++ xs) (drop (i + length xs) cells) n
        (omega (arith, length-append (take i cells) xs, length-take i cells))

module _ (junk : ℕ → ℕ) where
  pub length-malloc : (n : ℕ) → length (malloc junk n) ≡ n
  unfolding malloc
  length-malloc n = length-tabulate junk 0 n

  pub length-realloc : (cells : List ℕ) (n : ℕ) → length (realloc junk cells n) ≡ n
  unfolding realloc
  length-realloc cells n = omega (
    arith,
    length-append (take n cells) (tabulate junk (length cells) (n - length cells)),
    length-take n cells,
    length-tabulate junk (length cells) (n - length cells),
  )

  -- realloc keeps what fits in the new size
  pub take-realloc :
      (cells : List ℕ) (m n : ℕ)
      → m ≤ n
      → m ≤ length cells
      → take m (realloc junk cells n) ≡ take m cells
  unfolding realloc
  take-realloc cells m n h k =
      take-append_of_le m (take n cells) (tabulate junk (length cells) (n - length cells))
        (omega (arith, length-take n cells))
      ∙ take-take m n cells h

  -- A new buffer is sound, valid and empty.
  pub init-IsSound :
      (max_size : ℕ)
      → 0 < max_size
      → max_size < ssize_max
      → IsSound (init junk max_size) × (contents (init junk max_size) ≡ [])
  unfolding init
  init-IsSound max_size pos small = (
    record {
      allocated = length-malloc 64;
      filled = omega arith;
      bounded = omega arith;
      limited = small;
      some_memory = omega arith;
      fits = omega arith;
    },
    refl,
  )

-- buffer_clear empties the buffer, makes it valid again, and keeps its memory.
pub clear-IsSound :
    (b : Buffer)
    → IsSound b
    → IsSound (clear b) × (contents (clear b) ≡ []) × ((clear b).valid ≡ true)
unfolding clear
clear-IsSound b s = (ground arith, refl, refl)
