-- ===== src/Buffer/Examples.antt =====
-- Runs of the byte buffer, and its theorems at concrete buffers.
use datatypes.Base.{
  ℕ, ◌+◌, ◌^◌, ◌≤◌, ◌<◌, ◌≡◌, refl, Bool, true, false, Option, none, some, List, [], ◌∷◌, ◌++◌,
  arith, ◌==◌, if◌then◌else◌, word, Run, ok, ◌>>=◌, Returns, take,
}
use datatypes.Buffer.{
  Buffer, Dest, size_loop, new_realloc_size, newline, memchr, memcpy, read_bytes, malloc, realloc,
  init, grow, fill, copy_to_string, read_found, read_line, flush, to_string, fill_from_fd,
}
use datatypes.Buffer.Contents.{contents, IsSound, init-IsSound}
use datatypes.Buffer.Growth.{new_realloc_size-Large}
use datatypes.Buffer.Fill.{Fills, fill-Fills}
use datatypes.Buffer.Lines.{
  read_line-append, flush-contents, to_string-contents, IsRoomy, HoldsString,
}
use datatypes.Buffer.Stream.{Arrives, fill_from_fd-Arrives, read_line-fill}

-- what the runs compute with
program : Unit {0}
unfolding size_loop new_realloc_size memchr memcpy read_bytes malloc realloc init grow fill
    copy_to_string read_found read_line flush to_string fill_from_fd
program = tt

abbrev junk : ℕ → ℕ
junk i = 7

-- "ab\ncd", valid, in a buffer of at most 100 bytes
abbrev letters : List ℕ
letters = b'a' ∷ b'b' ∷ newline ∷ b'c' ∷ b'd' ∷ []

abbrev sample : Buffer
sample = record {
  cells = letters ++ 0 ∷ 0 ∷ 0 ∷ [];
  max_size = 100;
  len = 5;
  msize = 8;
  valid = true;
}

abbrev dest : Dest
dest = record { str = 1 ∷ 1 ∷ []; cap = 2 }

sample-IsSound : IsSound sample
sample-IsSound = omega arith

-- growth from 3 to 14 doubles, and from a size near 2 ^ 64 it takes the target itself
size_runs :
    (new_realloc_size 3 14 ≡ ok 24) × (new_realloc_size (2 ^ 63 + 1) (2 ^ 63 + 9) ≡ ok (2 ^ 63 + 9))
unfolding program
size_runs = (refl, refl)

-- the first line is read, then no other
abbrev read_twice : Run (Buffer × Dest × Bool)
read_twice = do (b, d, found) ← read_line junk sample dest; read_line junk b d

read_twice_runs : Returns read_twice λ (b, d, found).
    (take 3 d.str ≡ b'a' ∷ b'b' ∷ 0 ∷ []) × (contents b ≡ b'c' ∷ b'd' ∷ []) × (found ≡ false)
unfolding program
read_twice_runs = (_, refl, (refl, refl, refl))

new_realloc_size-Large_example : Returns (new_realloc_size 64 1000) (λ r. (1000 ≤ r) × (r < word))
new_realloc_size-Large_example =
    new_realloc_size-Large 64 1000 (omega arith) (omega arith) (omega arith)

fill-Fills_example : Returns (fill junk sample letters) (Fills sample letters)
fill-Fills_example = fill-Fills junk sample letters sample-IsSound (omega arith)

read_line-append_example : Returns (read_line junk sample dest) λ (b', d', found).
    (found ≡ true)
    × IsSound b'
    × (b'.valid ≡ true)
    × (contents b' ≡ b'c' ∷ b'd' ∷ [])
    × IsRoomy d'
    × HoldsString d' (b'a' ∷ b'b' ∷ [])
read_line-append_example =
    read_line-append junk sample sample-IsSound refl dest (b'a' ∷ b'b' ∷ []) (b'c' ∷ b'd' ∷ []) refl
      (refl, (refl, tt)) (omega arith)

flush-contents_example :
    Returns
      (flush junk sample dest)
      λ (d', flushed). (flushed ≡ true) × IsRoomy d' × HoldsString d' (contents sample)
flush-contents_example =
    flush-contents junk sample sample-IsSound refl dest (omega arith) (omega arith)

to_string-contents_example :
    to_string junk sample ≡ ok (if sample.len == 0 then none else some (contents sample ++ 0 ∷ []))
to_string-contents_example = to_string-contents junk sample sample-IsSound refl

abbrev answer : ℕ → Option (List ℕ)
answer n = some (take n letters)

fill_from_fd-Arrives_example :
    Returns (fill_from_fd junk sample answer 3) (Arrives sample (answer 3))
fill_from_fd-Arrives_example =
    fill_from_fd-Arrives junk sample sample-IsSound refl answer 3 (λ bytes e. ground arith)
      (omega arith)

abbrev empty : Buffer
empty = init junk 100

read_line-fill_example :
    Returns
      (fill junk empty (b'h' ∷ b'i' ∷ newline ∷ []) >>= λ (b', done). read_line junk b' dest)
      λ (b', d', found). (found ≡ true) × (contents b' ≡ []) × HoldsString d' (b'h' ∷ b'i' ∷ [])
unfolding program
read_line-fill_example =
    read_line-fill junk empty (init-IsSound junk 100 (omega arith) (omega arith)).0 refl dest
      (b'h' ∷ b'i' ∷ []) refl (refl, (refl, tt)) (omega arith) (omega arith)
