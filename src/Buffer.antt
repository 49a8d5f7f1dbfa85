-- ===== src/Buffer.antt =====
-- The byte buffer: buffer.h and buffer.c. A function that updates its Buffer or its destination
-- string returns the new value. The cells of `data` are the allocated bytes, those from `len` on
-- with whatever the allocator left there. malloc and realloc succeed (a failure ends the process);
-- the bytes that they hand out are the parameter `junk`.
pub mod Growth
pub mod Contents
pub mod Fill
pub mod Lines
pub mod Stream
pub mod Examples
use datatypes.Base.{
  ℕ, zero, suc, ◌+◌, ◌-◌, ◌*◌, ◌%◌, Bool, true, false, not, Option, none, some, List, [], ◌∷◌, ◌++◌,
  Run, ok, fault, out_of_fuel, ◌>>=◌, ltb, leb, ◌==◌, if◌then◌else◌, word, sub64, length, take,
  drop, tabulate, overwrite,
}

pub record Buffer : Type 0 where
  pub cells : List ℕ
  pub max_size : ℕ
  pub len : ℕ
  pub msize : ℕ
  pub valid : Bool

-- `char **dst, size_t *len`: the allocated cells of the string and the length noted for it
pub record Dest : Type 0 where
  pub str : List ℕ
  pub cap : ℕ

abbrev pub newline : ℕ
newline = 10

-- memcpy(cells + i, xs, length xs), a fault past the end
unfoldable pub memcpy : List ℕ → ℕ → List ℕ → Run (List ℕ)
memcpy cells i xs = if leb (i + length xs) (length cells) then ok (overwrite cells i xs) else fault

-- the first n bytes at cells, a fault past the end
unfoldable pub read_bytes : List ℕ → ℕ → Run (List ℕ)
read_bytes cells n = if leb n (length cells) then ok (take n cells) else fault

-- memchr(bytes, byte, n) over n bytes: the index of the first match
unfoldable pub memchr : List ℕ → ℕ → Option ℕ
memchr [] byte = none
memchr (c ∷ bytes) byte =
    let later = memchr bytes byte in
    if c == byte then some 0 else elim later [ none ↦ none | some i ↦ some (suc i) ]

-- the loop of _buffer_new_realloc_size, on fuel
unfoldable pub size_loop : ℕ → ℕ → ℕ → ℕ → Run ℕ
size_loop zero from to size = out_of_fuel
size_loop (suc fuel) from to size =
    let twice = (size * 2) % word in
    let rest = size_loop fuel from to (if ltb twice from then to else twice) in
    if ltb size to then rest else ok size

-- 66 rounds are enough: after 64 doublings the product has wrapped to 0
unfoldable pub new_realloc_size : ℕ → ℕ → Run ℕ
new_realloc_size from to = size_loop 66 from to from

module _ (junk : ℕ → ℕ) where
  -- malloc(n)
  unfoldable pub malloc : ℕ → List ℕ
  malloc n = tabulate junk 0 n

  -- realloc(cells, n)
  unfoldable pub realloc : List ℕ → ℕ → List ℕ
  realloc cells n = take n cells ++ tabulate junk (length cells) (n - length cells)

  unfoldable pub init : ℕ → Buffer
  unfolding malloc
  init max_size = record {
    cells = malloc 64;
    max_size = max_size;
    len = 0;
    msize = 64;
    valid = true;
  }

  -- the resize inside buffer_fill
  unfoldable pub grow : Buffer → ℕ → Run Buffer
  grow b len =
      if ltb (sub64 b.msize b.len) len
      then (do
        new_size ← new_realloc_size b.msize ((b.msize + len) % word)
        ok (record b { msize = new_size; cells = realloc b.cells new_size }))
      else ok b

  unfoldable pub fill : Buffer → List ℕ → Run (Buffer × Bool)
  fill b src =
      if not b.valid
      then ok (b, false)
      else if ltb (sub64 b.max_size b.len) (length src)
      then ok (record b { valid = false }, false)
      else do
        grown ← grow b (length src)
        cells ← memcpy grown.cells grown.len src
        ok (record grown { cells = cells; len = (grown.len + length src) % word }, grown.valid)

  unfoldable pub copy_to_string : Buffer → ℕ → Dest → Run Dest
  copy_to_string b count dst = do
    let roomy =
        if ltb dst.cap ((count + 1) % word)
        then record { cap = count; str = realloc dst.str ((count + 1) % word) }
        else dst
    line ← read_bytes b.cells count
    str ← memcpy roomy.str 0 line
    closed ← memcpy str count (0 ∷ [])
    ok (record { str = closed; cap = roomy.cap })

  -- what buffer_read_line does with the answer of memchr
  unfoldable pub read_found : Buffer → Dest → Option ℕ → Run (Buffer × Dest × Bool)
  read_found b dst none = ok (b, dst, false)
  read_found b dst (some slen) = do
    dst' ← copy_to_string b slen dst
    let left = sub64 b.len (slen + 1)
    rest ← read_bytes (drop (slen + 1) b.cells) left
    moved ← memcpy b.cells 0 rest
    ok (record b { len = left; cells = moved }, dst', true)

  unfoldable pub read_line : Buffer → Dest → Run (Buffer × Dest × Bool)
  unfolding read_found
  read_line b dst =
      if not b.valid
      then ok (b, dst, false)
      else do bytes ← read_bytes b.cells b.len; read_found b dst (memchr bytes newline)

  unfoldable pub flush : Buffer → Dest → Run (Dest × Bool)
  flush b dst =
      if not b.valid
      then ok (dst, false)
      else if b.len == 0
      then ok (dst, false)
      else do dst' ← copy_to_string b b.len dst; ok (dst', true)

  -- `none` is NULL
  unfoldable pub to_string : Buffer → Run (Option (List ℕ))
  to_string b = if not b.valid then ok none else if b.len == 0 then ok none else do
    bytes ← read_bytes b.cells b.len
    str ← memcpy (malloc (b.len + 1)) 0 bytes
    closed ← memcpy str b.len (0 ∷ [])
    ok (some closed)

  -- What read(2) answered: `none` is -1. The result of buffer_fill_from_fd is `none` for -1, else
  -- the number of bytes.
  unfoldable pub fill_from_fd : Buffer → (ℕ → Option (List ℕ)) → ℕ → Run (Buffer × Option ℕ)
  fill_from_fd b read count = if not b.valid then ok (b, some 0) else elim (read count) [
    | none ↦ ok (b, none)
    | some [] ↦ ok (b, some 0)
    | some (c ∷ bytes) ↦ do
      (b', done) ← fill b (c ∷ bytes)
      ok (b', if done then some (length (c ∷ bytes)) else none)
  ]

unfoldable pub clear : Buffer → Buffer
clear b = record b { len = 0; valid = true }

unfoldable pub buffer_len : Buffer → ℕ
buffer_len b = if not b.valid then 0 else b.len

unfoldable pub is_empty : Buffer → Bool
is_empty b = if not b.valid then false else b.len == 0
