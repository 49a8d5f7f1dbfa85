-- ===== src/Buffer/Stream.antt =====
-- buffer_fill_from_fd, and a line that goes through a buffer.
use datatypes.Base.{
  ℕ, ◌+◌, ◌≤◌, ◌<◌, ◌≡◌, refl, ◌∙◌, true, Option, none, some, List, [], ◌∷◌, ◌++◌, append-nil,
  arith, leb, if◌then◌else◌, word, ◌>>=◌, Returns, length,
}
use datatypes.Buffer.{Buffer, Dest, newline, fill, fill_from_fd, read_line}
use datatypes.Buffer.Contents.{contents, IsSound}
use datatypes.Buffer.Fill.{fill-Fills}
use datatypes.Buffer.Lines.{IsLine, IsRoomy, HoldsString, read_line-append}

-- What buffer_fill_from_fd does with what read(2) answered.
abbrev pub Arrives : Buffer → Option (List ℕ) → Buffer × Option ℕ → Type 0
Arrives b none (b', n) = (b' ≡ b) × (n ≡ none)
Arrives b (some bytes) (b', n) =
    IsSound b'
    × (n ≡ (if leb (b.len + length bytes) b.max_size then some (length bytes) else none))
    × (contents b'
        ≡ (if leb (b.len + length bytes) b.max_size then contents b ++ bytes else contents b))

module _ (junk : ℕ → ℕ) (b : Buffer) (s : IsSound b) (valid : b.valid ≡ true) where
  filled_from :
      (read : ℕ → Option (List ℕ)) (count : ℕ) (answer : Option (List ℕ))
      → read count ≡ answer
      → ((bytes : List ℕ) → answer ≡ some bytes → length bytes < word)
      → Returns (fill_from_fd junk b read count) (Arrives b answer)
  unfolding fill_from_fd
  filled_from read count none e small = ((b, none), ground arith, (refl, refl))
  filled_from read count (some []) e small =
      ((b, some 0), ground arith, (s, ground arith, ground (arith, append-nil (contents b))))
  filled_from read count (some (c ∷ bytes)) e small =
      let ((b', done), run, f) = fill-Fills junk b (c ∷ bytes) s (small (c ∷ bytes) refl) in
      (
        (b', if done then some (length (c ∷ bytes)) else none),
        ground (arith, run),
        (f.sound, ground (arith, f.done), ground (arith, f.done, f.holds)),
      )

  -- buffer_fill_from_fd on a sound, valid buffer, asked for at most its maximum size, passes on a -1
  -- of read(2) with the buffer unchanged. It appends the bytes that read(2) gave, which are at most as
  -- many as it was asked for, and returns their number if they fit the maximum size, and otherwise
  -- keeps the stored bytes and returns -1.
  pub fill_from_fd-Arrives :
      (read : ℕ → Option (List ℕ)) (count : ℕ)
      → ((bytes : List ℕ) → read count ≡ some bytes → length bytes ≤ count)
      → count ≤ b.max_size
      → Returns (fill_from_fd junk b read count) (Arrives b (read count))
  fill_from_fd-Arrives read count bounded small =
      filled_from read count (read count) refl λ bytes e. omega (arith, bounded bytes e, s.limited)

  -- A line and its line feed written to an empty, sound and valid buffer that has room for them come
  -- back from buffer_read_line, and the buffer is empty again. The line has no line feed in it, and
  -- dst at least the cells noted for it.
  pub read_line-fill :
      (d : Dest) (line : List ℕ)
      → contents b ≡ []
      → IsLine line
      → IsRoomy d
      → b.len + length (line ++ newline ∷ []) ≤ b.max_size
      → Returns
          (fill junk b (line ++ newline ∷ []) >>= λ (b', done). read_line junk b' d)
          λ (b', d', found). (found ≡ true) × (contents b' ≡ []) × HoldsString d' line
  read_line-fill d line empty h roomy room =
      let ((b', done), run, f) =
        fill-Fills junk b (line ++ newline ∷ []) s (omega (arith, s.limited)) in
      let yes_done : done ≡ true = ground (arith, f.done) in
      let stored : contents b' ≡ line ++ newline ∷ [] = f.holds ∙ rw (yes_done, empty) in
      let (r, run', (found, sound, valid', rest, room', holds)) =
        read_line-append junk b' f.sound (f.valid ∙ yes_done) d line [] stored h roomy in
      (r, rw run run', (found, rest, holds))
