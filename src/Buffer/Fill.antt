-- ===== src/Buffer/Fill.antt =====
-- buffer_fill.
use datatypes.Base.{
  overwrite, ℕ, ◌+◌, ◌%◌, ◌≤◌, ◌<◌, ◌≡◌, refl, ◌∙◌, inl, inr, Bool, true, false, ◌&&◌, List, ◌++◌,
  arith, Returns, Bool-cases, ltb, leb, if◌then◌else◌, word, sub64, length, length-overwrite,
}
use datatypes.Buffer.{Buffer, realloc, grow, fill}
use datatypes.Buffer.Growth.{new_realloc_size-Large}
use datatypes.Buffer.Contents.{
  contents, IsSound, memcpy-ok, take-overwrite, length-realloc, take-realloc,
}

-- the buffer `g` is `b` with room for `n` more bytes
record Grows (b : Buffer) (n : ℕ) (g : Buffer) : Type 0 where
  sound : IsSound g
  room : b.len + n ≤ g.msize
  same_len : g.len ≡ b.len
  same_max : g.max_size ≡ b.max_size
  same_valid : g.valid ≡ b.valid
  same_contents : contents g ≡ contents b

-- What buffer_fill did, on every branch.
pub record Fills (b : Buffer) (src : List ℕ) (result : Buffer × Bool) : Type 0 where
  pub sound : IsSound result.0
  pub done : result.1 ≡ (b.valid && leb (b.len + length src) b.max_size)
  pub valid : result.0.valid ≡ result.1
  pub holds : contents result.0 ≡ (if result.1 then contents b ++ src else contents b)
  pub same_max : result.0.max_size ≡ b.max_size

module _ (junk : ℕ → ℕ) where
  grow-Grows :
      (b : Buffer) (n : ℕ)
      → IsSound b
      → b.len + n ≤ b.max_size
      → Returns (grow junk b n) (Grows b n)
  unfolding grow
  grow-Grows b n s fits = elim (Bool-cases (ltb (sub64 b.msize b.len) n)) [
    | inr roomy ↦ (
      b,
      rw roomy,
      record {
        sound = s;
        room = ground arith;
        same_len = refl;
        same_max = refl;
        same_valid = refl;
        same_contents = refl;
      },
    )
    | inl short ↦
        let (size, run, (large, small)) =
          new_realloc_size-Large b.msize ((b.msize + n) % word) s.some_memory (ground arith)
            (omega arith) in
        let room : b.msize + n ≤ size = ground arith in
        (
          record b { msize = size; cells = realloc junk b.cells size },
          rw (short, run),
          record {
            sound = record {
              allocated = length-realloc junk b.cells size;
              filled = omega arith;
              bounded = omega arith;
              limited = s.limited;
              some_memory = omega arith;
              fits = small;
            };
            room = omega arith;
            same_len = refl;
            same_max = refl;
            same_valid = refl;
            same_contents = take-realloc junk b.cells b.len size (omega arith) (omega arith);
          },
        )
  ]

  -- the copy behind the stored bytes, once there is room
  fill_room :
      (b : Buffer) (src : List ℕ)
      → IsSound b
      → b.valid ≡ true
      → ltb (sub64 b.max_size b.len) (length src) ≡ false
      → Returns (grow junk b (length src)) (Grows b (length src))
      → Returns (fill junk b src) (Fills b src)
  unfolding fill
  fill_room b src s valid fits (g, run, w) =
      let cells = overwrite g.cells g.len src in
      let room : g.len + length src ≤ length g.cells =
        omega (arith, w.sound.allocated, w.room, w.same_len) in
      let wide : b.len + length src ≤ b.max_size = ground arith in
      let len : (g.len + length src) % word ≡ b.len + length src =
        omega (arith, w.same_len, s.limited) in
      (
        (record g { cells = cells; len = (g.len + length src) % word }, g.valid),
        rw (run, memcpy-ok g.cells g.len src room, fits, valid),
        record {
          sound = record {
            allocated = length-overwrite g.cells g.len src room ∙ w.sound.allocated;
            filled = omega (arith, w.room, w.same_len);
            bounded = omega (arith, w.same_max, w.same_len);
            limited = w.sound.limited;
            some_memory = w.sound.some_memory;
            fits = w.sound.fits;
          };
          done = ground (arith, w.same_valid);
          valid = refl;
          holds =
              take-overwrite g.cells g.len _ src (omega arith) (omega (arith, w.same_len))
              ∙ rw (w.same_contents, w.same_valid, valid) refl;
          same_max = w.same_max;
        },
      )

  -- buffer_fill of a sound buffer and less than 2^64 bytes never faults and leaves it sound: valid and with enough room up to
  -- the maximum size, it appends the bytes and returns true; else it returns false, keeps the
  -- stored bytes and leaves the buffer invalid.
  pub fill-Fills :
      (b : Buffer) (src : List ℕ)
      → IsSound b
      → length src < word
      → Returns (fill junk b src) (Fills b src)
  unfolding fill
  fill-Fills b src s small = elim (Bool-cases b.valid) [
    | inr invalid ↦ (
      (b, false),
      ground arith,
      record { sound = s; done = ground arith; valid = invalid; holds = refl; same_max = refl },
    )
    | inl valid ↦ elim (Bool-cases (ltb (sub64 b.max_size b.len) (length src))) [
      | inl exceeds ↦ (
        (record b { valid = false }, false),
        ground arith,
        record {
          sound = ground arith;
          done = ground arith;
          valid = refl;
          holds = refl;
          same_max = refl;
        },
      )
      | inr fits ↦ fill_room b src s valid fits (grow-Grows b (length src) s (ground arith))
    ]
  ]
