-- ===== src/Io/Fill.antt =====
-- A writer that fills a borrowed slice exactly.
use ether_dream.Base.{◌≡◌, ◌≤◌, ◌∙◌, refl, arith, [], length, drop, drop-all, le→leb}
use ether_dream.Io.{Io, ok}
use ether_dream.Io.Bytes.{Bytes}
use ether_dream.Io.Slice.{SliceMut, slice_write, slice_write_all}
use ether_dream.Io.Codec.{Writes}

pub Writes-fills :
    {m : Io SliceMut (Unit {0})} {bs : Bytes} (old : Bytes)
    → Writes slice_write m bs
    → length bs ≡ length old
    → m (record { written = []; left = old }) ≡ ok (tt, record { written = bs; left = [] })
unfolding slice_write_all
Writes-fills {m} {bs} old h size =
    let whole : drop (length bs) old ≡ [] = drop-all (length bs) old (omega (arith, size)) in
    let room : length bs ≤ length old = omega (arith, size) in
    h.at _ ∙ rw (le→leb _ _ room, whole) refl
