-- ===== src/HeadTail/Reads.antt =====
-- What IterBlock and HasBlockRange find after StoreBlock.
use emby_range_cache_proxy.Base.{
  ℕ, ◌-◌, ◌≤◌, ◌<◌, ◌≡◌, refl, false, ◌&&◌, Option, none, some, List, Result, ok, arith, leb, ◌==◌,
  length, take, drop, All, length-drop,
}
use emby_range_cache_proxy.Base.Texts.{Text, max_int64}
use emby_range_cache_proxy.Model.{ByteRange, range_length}
use emby_range_cache_proxy.Disk.{Disk}
use emby_range_cache_proxy.Disk.Chunks.{read_chunks, concat, IsChunk, read_chunks-concat}
use emby_range_cache_proxy.Disk.Sidecar.{read_range-print_range}
use emby_range_cache_proxy.HeadTail.{
  CacheError, Faults, store_block, read_entry, stream_block, iter_block, has_block_range,
}
use emby_range_cache_proxy.HeadTail.Stored.{Holds, store_block-Holds, store_block-valid}

read_entry-Holds :
    (key name : Text) (r : ByteRange) (bytes : Text) (d : Disk)
    → r.start ≤ r.end
    → r.end ≤ max_int64
    → length bytes ≡ range_length r
    → Holds key name r bytes d
    → read_entry key name d ≡ some (r, bytes)
unfolding read_entry
read_entry-Holds key name r bytes d h k m (a, b) =
    rw (b, read_entry, read_range-print_range r h k, a) (ground (arith, m))

abbrev pub Part : ByteRange → ByteRange → Text → Text
Part r requested bytes = take (range_length requested) (drop (requested.start - r.start) bytes)

-- The answer is a list of chunks, none empty or larger than the buffer, that together are these bytes.
abbrev pub Answers : ℕ → Text → Result CacheError (Option (List Text)) → Type 0
Answers chunk_bytes bytes answer =
    (chunks : List Text) × (answer ≡ ok (some chunks))
    × (concat chunks ≡ bytes)
    × All (IsChunk chunk_bytes) chunks

pub stream_block-Answers :
    (chunk_bytes now : ℕ) (key name : Text) (r requested : ByteRange) (bytes : Text) (d : Disk)
    → 0 < chunk_bytes
    → r.start ≤ requested.start
    → requested.start ≤ requested.end
    → requested.end ≤ r.end
    → length bytes ≡ range_length r
    → Answers chunk_bytes
        (Part r requested bytes)
        (stream_block false chunk_bytes key name requested now (r, bytes) d).1
unfolding stream_block
stream_block-Answers chunk_bytes now key name r requested bytes d h k l m n =
    let size = range_length requested in
    let rest = drop (requested.start - r.start) bytes in
    let (same, whole, chunks) =
      read_chunks-concat size size chunk_bytes rest h (omega arith)
        (omega (arith, length-drop (requested.start - r.start) bytes)) in
    ((read_chunks size size chunk_bytes rest).0, ground arith, same, chunks)

-- After a StoreBlock that succeeded, of a range that ends below 2^63, IterBlock on any part of the
-- stored range that is not empty, in chunks of any positive size, sends exactly the stored bytes of
-- that part, if the file can be opened; no chunk is empty or larger than that size.
pub iter_block-store_block :
    (f : Faults) (tmp now later : ℕ) (key name : Text) (r requested : ByteRange) (bytes : Text)
    (d : Disk) (chunk_bytes : ℕ)
    → r.end ≤ max_int64
    → (store_block f tmp now key name r bytes d).1 ≡ none
    → 0 < chunk_bytes
    → r.start ≤ requested.start
    → requested.start ≤ requested.end
    → requested.end ≤ r.end
    → Answers chunk_bytes
        (take (range_length requested) (drop (requested.start - r.start) bytes))
        (iter_block false chunk_bytes key name requested later
          (store_block f tmp now key name r bytes d).0).1
unfolding iter_block
iter_block-store_block f tmp now later key name r requested bytes d chunk_bytes h e pos k l m =
    let (key_ok, name_ok, ordered, size) = store_block-valid f tmp now key name r bytes d e in
    let d' = (store_block f tmp now key name r bytes d).0 in
    let entry =
      read_entry-Holds key name r bytes d' ordered h size
        (store_block-Holds f tmp now key name r bytes d e) in
    let positive : (chunk_bytes == 0) ≡ false = ground arith in
    rw (positive, key_ok, name_ok, entry)
      (stream_block-Answers chunk_bytes later key name r requested bytes d' pos k l m size)

-- After a StoreBlock that succeeded, of a range that ends below 2^63, HasBlockRange says yes to
-- exactly the ranges that lie in the stored one, and changes nothing.
pub has_block_range-store_block :
    (f : Faults) (tmp now : ℕ) (key name : Text) (r requested : ByteRange) (bytes : Text) (d : Disk)
    → r.end ≤ max_int64
    → (store_block f tmp now key name r bytes d).1 ≡ none
    → let d' = (store_block f tmp now key name r bytes d).0 in
      has_block_range key name requested d'
      ≡ (d', ok (leb r.start requested.start && leb requested.end r.end))
unfolding has_block_range
has_block_range-store_block f tmp now key name r requested bytes d h e =
    let (key_ok, name_ok, ordered, size) = store_block-valid f tmp now key name r bytes d e in
    let d' = (store_block f tmp now key name r bytes d).0 in
    let entry =
      read_entry-Holds key name r bytes d' ordered h size
        (store_block-Holds f tmp now key name r bytes d e) in
    rw (key_ok, name_ok, entry) refl
