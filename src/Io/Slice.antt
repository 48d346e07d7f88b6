-- ===== src/Io/Slice.antt =====
-- The streams that the program hands to its readers and writers: `&[u8]`, `Vec<u8>`, `&mut [u8]`.
use ether_dream.Base.{
  ℕ, ◌≡◌, arith, leb, if◌then◌else◌, [], ◌++◌, append-nil, append_assoc, length, length-append,
  take, drop, drop-drop, length-drop,
}
use ether_dream.Io.{Io, ok, err, unexpected_eof, write_zero, ◌>>◌}
use ether_dream.Io.Bytes.{Bytes}
use ether_dream.Io.Reader.{Read}
use ether_dream.Io.Writer.{Write}

-- `impl Read for &[u8]`: the slice shrinks from the front.
unfoldable pub slice_read_exact : ℕ → Io Bytes Bytes
slice_read_exact n s = if leb n (length s) then ok (take n s, drop n s) else err unexpected_eof

abbrev pub slice_read : Read Bytes
slice_read = record { read_exact = slice_read_exact }

-- `impl Write for Vec<u8>`: the bytes are appended, and nothing fails.
abbrev pub vec_write_all : Bytes → Io Bytes (Unit {0})
vec_write_all xs s = ok (tt, s ++ xs)

pub vec_write_in_order :
    (xs ys : Bytes) (s : Bytes)
    → vec_write_all (xs ++ ys) s ≡ (vec_write_all xs >> vec_write_all ys) s
unfolding ◌>>◌
vec_write_in_order xs ys s = rw (append_assoc s xs ys)

pub vec_write_nothing : (s : Bytes) → vec_write_all [] s ≡ ok (tt, s)
vec_write_nothing s = rw append-nil

abbrev pub vec_write : Write Bytes
vec_write = record {
  write_all = vec_write_all;
  write_nothing = vec_write_nothing;
  write_in_order = vec_write_in_order;
}

-- `impl Write for &mut [u8]`: what was written so far, and the old bytes behind it. A write that
-- does not fit ends in an error.
pub record SliceMut : Type 0 where
  pub written : Bytes
  pub left : Bytes

-- The whole slice.
abbrev pub contents : SliceMut → Bytes
contents s = s.written ++ s.left

unfoldable pub slice_write_all : Bytes → Io SliceMut (Unit {0})
slice_write_all xs s =
    if leb (length xs) (length s.left)
    then ok (tt, record { written = s.written ++ xs; left = drop (length xs) s.left })
    else err write_zero

pub slice_write_nothing : (s : SliceMut) → slice_write_all [] s ≡ ok (tt, s)
unfolding slice_write_all
slice_write_nothing s = ground (arith, append-nil s.written)

pub slice_write_in_order :
    (xs ys : Bytes) (s : SliceMut)
    → slice_write_all (xs ++ ys) s ≡ (slice_write_all xs >> slice_write_all ys) s
unfolding slice_write_all ◌>>◌
slice_write_in_order xs ys s = ground (
  arith,
  length-append xs ys,
  append_assoc s.written xs ys,
  drop-drop (length xs) (length ys) s.left,
  length-drop (length xs) s.left,
)

abbrev pub slice_write : Write SliceMut
slice_write = record {
  write_all = slice_write_all;
  write_nothing = slice_write_nothing;
  write_in_order = slice_write_in_order;
}
