-- ===== src/Buffer/Lines.antt =====
-- buffer_read_line, buffer_flush and buffer_to_string.
use mathlib.Core.Path.{subst}
use datatypes.Base.{
  take_all, if◌then◌else◌, ◌<◌, length-drop, drop-append_cons, take-drop, drop, sub64, take-append,
  take-append, take-take, sym, length-append, ok, length-take, true, ℕ, ◌+◌, ◌%◌, ◌≤◌, ◌≡◌, refl,
  ap, ◌∙◌, inl, inr, false, none, some, List, [], ◌∷◌, ◌++◌, arith, ltb, ◌==◌, Bool-cases, word,
  Run, ◌>>=◌, Returns, length, take, overwrite, length-overwrite,
}
use datatypes.Buffer.{
  malloc, to_string, flush, read_line, read_bytes, Buffer, Dest, newline, memchr, memcpy, realloc,
  copy_to_string,
}
use datatypes.Buffer.Contents.{
  length-malloc, contents, IsSound, memcpy-ok, read_bytes-ok, take-overwrite, length-realloc,
}

-- the bytes contain no line feed
abbrev pub IsLine : List ℕ → Type 0
IsLine [] = Unit
IsLine (c ∷ cs) = ((c == newline) ≡ false) × IsLine cs

memchr-append :
    (line rest : List ℕ)
    → IsLine line
    → memchr (line ++ newline ∷ rest) newline ≡ some (length line)
unfolding memchr
memchr-append [] rest h = refl
memchr-append (c ∷ line) rest h = rw (h.0, memchr-append line rest h.1)

memchr-IsLine : (bytes : List ℕ) → IsLine bytes → memchr bytes newline ≡ none
unfolding memchr
memchr-IsLine [] h = refl
memchr-IsLine (c ∷ bytes) h = rw (h.0, memchr-IsLine bytes h.1)

-- the Dest holds the string, with its terminating zero
abbrev pub HoldsString : Dest → List ℕ → Type 0
HoldsString d line = take (length line + 1) d.str ≡ line ++ 0 ∷ []

-- the noted length is allocated
abbrev pub IsRoomy : Dest → Type 0
IsRoomy d = d.cap ≤ length d.str

-- one cell behind a prefix that was written at the front
overwrite_twice :
    (cells line : List ℕ)
    → length line + 1 ≤ length cells
    → take (length line + 1) (overwrite (overwrite cells 0 line) (length line) (0 ∷ []))
      ≡ line ++ 0 ∷ []
overwrite_twice cells line h =
    take-overwrite (overwrite cells 0 line) (length line) (length line + 1) (0 ∷ [])
      (omega (arith, length-overwrite cells 0 line)) refl
    ∙ ap (λ t. t ++ 0 ∷ []) (take-overwrite cells 0 (length line) line (omega arith) (omega arith))

length-overwrite_twice :
    (cells line : List ℕ)
    → length line + 1 ≤ length cells
    → length (overwrite (overwrite cells 0 line) (length line) (0 ∷ [])) ≡ length cells
length-overwrite_twice cells line h =
    let inner = length-overwrite cells 0 line (omega arith) in
    length-overwrite (overwrite cells 0 line) (length line) (0 ∷ []) (omega arith) ∙ inner

-- the two writes that end _buffer_copy_to_string and buffer_to_string
close_string :
    {A : Type 0} (cells line : List ℕ) (k : List ℕ → Run A)
    → length line + 1 ≤ length cells
    → (memcpy cells 0 line >>= λ str. memcpy str (length line) (0 ∷ []) >>= k)
      ≡ k (overwrite (overwrite cells 0 line) (length line) (0 ∷ []))
close_string cells line k h =
    let inner = length-overwrite cells 0 line (omega arith) in
    rw (
      memcpy-ok cells 0 line (omega arith),
      memcpy-ok (overwrite cells 0 line) (length line) (0 ∷ []) (omega arith),
    )

module _ (junk : ℕ → ℕ) where
  copy_to_string-HoldsString :
      (b : Buffer) (line : List ℕ) (d : Dest)
      → IsSound b
      → length line ≤ b.len
      → take (length line) b.cells ≡ line
      → IsRoomy d
      → Returns (copy_to_string junk b (length line) d) λ d'. IsRoomy d' × HoldsString d' line
  unfolding copy_to_string
  copy_to_string-HoldsString b line d s h same roomy =
      let wide : (length line + 1) % word ≡ length line + 1 = omega arith in
      let reads = read_bytes-ok b.cells (length line) (omega arith) in
      elim (Bool-cases (ltb d.cap (length line + 1))) [
        | inl short ↦
            let cells = realloc junk d.str (length line + 1) in
            let room : length line + 1 ≤ length cells =
              omega (arith, length-realloc junk d.str (length line + 1)) in
            let len = length-overwrite_twice cells line room in
            (
              record {
                str = overwrite (overwrite cells 0 line) (length line) (0 ∷ []);
                cap = length line;
              },
              rw (wide, short, reads, same) (close_string cells line _ room),
              (omega arith, overwrite_twice cells line room),
            )
        | inr enough ↦
            let room : length line + 1 ≤ length d.str = ground arith in
            let len = length-overwrite_twice d.str line room in
            (
              record {
                str = overwrite (overwrite d.str 0 line) (length line) (0 ∷ []);
                cap = d.cap;
              },
              rw (wide, enough, reads, same) (close_string d.str line _ room),
              (omega arith, overwrite_twice d.str line room),
            )
      ]

  module _ (b : Buffer) (s : IsSound b) (valid : b.valid ≡ true) where
    length-contents : length (contents b) ≡ b.len
    length-contents = omega (arith, length-take b.len b.cells, s.allocated, s.filled)

    bytes-ok : read_bytes b.cells b.len ≡ ok (contents b)
    bytes-ok = read_bytes-ok b.cells b.len (omega (arith, s.allocated, s.filled))

    -- buffer_read_line finds no line feed: it returns false and changes nothing.
    pub read_line-IsLine : (d : Dest) → IsLine (contents b) → read_line junk b d ≡ ok (b, d, false)
    unfolding read_line
    read_line-IsLine d h = rw (bytes-ok, ◌>>=◌, memchr-IsLine (contents b) h, valid)

    -- If the bytes of a sound, valid buffer are a line without a line feed, a line feed and a rest,
    -- and dst has at least the cells noted for it, buffer_read_line returns true, puts the line in dst
    -- with its terminating zero, and leaves the rest in a sound buffer.
    pub read_line-append :
        (d : Dest) (line rest : List ℕ)
        → contents b ≡ line ++ newline ∷ rest
        → IsLine line
        → IsRoomy d
        → Returns (read_line junk b d) λ (b', d', found).
          (found ≡ true)
          × IsSound b'
          × (b'.valid ≡ true)
          × (contents b' ≡ rest)
          × IsRoomy d'
          × HoldsString d' line
    unfolding read_line
    read_line-append d line rest e h roomy =
        let total : length line + (length rest + 1) ≡ b.len =
          omega (arith, length-contents, ap length e, length-append line (newline ∷ rest)) in
        let front : take (length line) b.cells ≡ line =
          sym (take-take (length line) b.len b.cells (omega arith))
          ∙ ap (take (length line)) e
          ∙ take-append line (newline ∷ rest) (length line) refl in
        let (d', run, (room, holds)) =
          copy_to_string-HoldsString b line d s (omega arith) front roomy in
        let left : sub64 b.len (length line + 1) ≡ length rest =
          omega (arith, s.bounded, s.limited) in
        let rest_cells : take (length rest) (drop (length line + 1) b.cells) ≡ rest =
          take-drop (length rest) (length line + 1) b.cells
          ∙ ap (λ n. drop (length line + 1) (take n b.cells)) (omega arith)
          ∙ ap (drop (length line + 1)) e
          ∙ drop-append_cons line newline rest (length line + 1) (omega arith) in
        let reads =
          read_bytes-ok (drop (length line + 1) b.cells) (length rest)
            (omega (arith, length-drop (length line + 1) b.cells, s.allocated, s.filled)) in
        let fits : 0 + length rest ≤ length b.cells = omega (arith, s.allocated, s.filled) in
        (
          (record b { len = length rest; cells = overwrite b.cells 0 rest }, d', true),
          rw (
            bytes-ok,
            ◌>>=◌,
            e,
            memchr-append line rest h,
            run,
            left,
            reads,
            rest_cells,
            memcpy-ok b.cells 0 rest fits,
            valid,
          ),
          (
            refl,
            record {
              allocated = length-overwrite b.cells 0 rest fits ∙ s.allocated;
              filled = omega arith;
              bounded = omega arith;
              limited = s.limited;
              some_memory = s.some_memory;
              fits = s.fits;
            },
            valid,
            take-overwrite b.cells 0 (length rest) rest (omega arith) (omega arith),
            room,
            holds,
          ),
        )

    -- buffer_flush of a sound, valid buffer that holds bytes puts all of them in dst, with a
    -- terminating zero, and returns true. dst has at least the cells noted for it, before and after.
    pub flush-contents :
        (d : Dest)
        → 0 < b.len
        → IsRoomy d
        → Returns
            (flush junk b d)
            λ (d', flushed). (flushed ≡ true) × IsRoomy d' × HoldsString d' (contents b)
    unfolding flush
    flush-contents d pos roomy =
        let same : take (length (contents b)) b.cells ≡ contents b = rw length-contents in
        let (d', run, p) =
          copy_to_string-HoldsString b (contents b) d s (omega (arith, length-contents)) same
            roomy in
        let run' : copy_to_string junk b b.len d ≡ ok d' =
          subst (λ n. copy_to_string junk b n d ≡ ok d') length-contents run in
        ((d', true), ground (arith, run'), (refl, p.0, p.1))

    -- buffer_to_string of a sound, valid buffer is NULL if the buffer is empty, and else a new string of the
    -- stored bytes and a terminating zero.
    pub to_string-contents :
        to_string junk b ≡ ok (if b.len == 0 then none else some (contents b ++ 0 ∷ []))
    unfolding to_string
    to_string-contents = elim (Bool-cases (b.len == 0)) [
      | inl empty ↦ rw (empty, valid)
      | inr filled ↦
          let cells = malloc junk (b.len + 1) in
          let room : length (contents b) + 1 ≤ length cells =
            omega (arith, length-contents, length-malloc junk (b.len + 1)) in
          let str = overwrite (overwrite cells 0 (contents b)) (length (contents b)) (0 ∷ []) in
          let ends =
            subst
              (λ n.
                (memcpy cells 0 (contents b) >>= λ t. memcpy t n (0 ∷ []) >>= λ t'. ok (some t'))
                ≡ ok (some str))
              length-contents (close_string cells (contents b) (λ t. ok (some t)) room) in
          let whole : str ≡ contents b ++ 0 ∷ [] =
            sym (
              take_all (length (contents b) + 1) str (
                omega (
                  arith,
                  length-overwrite_twice cells (contents b) room,
                  length-malloc junk (b.len + 1),
                  length-contents,
                )))
            ∙ overwrite_twice cells (contents b) room in
          rw (filled, bytes-ok) (ground (arith, ends, whole))
    ]
