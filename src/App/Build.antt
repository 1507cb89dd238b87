-- ===== src/App/Build.antt =====
-- buildHeadTailBlock of go/internal/app/server.go: a block is fetched from the origin, resumed where the
-- connection breaks, written to the cache, and on the way the part that the client asked for is sent to
-- the client. The pauses between the attempts are not modelled.
pub mod Ends
pub mod Chunks
pub mod Whole
pub mod Outcome
pub mod Examples
use emby_range_cache_proxy.Base.{
  ℕ, zero, suc, ◌+◌, ◌-◌, ◌*◌, Bool, true, false, not, ◌&&◌, ◌||◌, Option, none, some, List, [],
  ◌∷◌, ◌++◌, Result, ok, err, ltb, leb, ◌==◌, if◌then◌else◌, min, max, length, take, drop,
}
use emby_range_cache_proxy.Base.Texts.{Text}
use emby_range_cache_proxy.Base.Slices.{between}
use emby_range_cache_proxy.Model.{ByteRange, range_length}
use emby_range_cache_proxy.Ranges.{is_empty}
use emby_range_cache_proxy.Disk.{Disk}
use emby_range_cache_proxy.HeadTail.{
  CacheError, Faults, BlockWriter, stage_block, write_data, commit, abort, evict_if_needed,
}
use emby_range_cache_proxy.Origin.{
  ReadEnd, more, eof, unexpected_eof, broken, Response, OriginError, Reader, read, open_range,
}
use emby_range_cache_proxy.Origin.Bodies.{reader_reads}

-- What the world does during a build: the origin's answer to each GET, the calls that fail, by the
-- offset of the chunk, with the number of bytes that were still written, and the rest of the calls of
-- the operating system.
pub record Outside : Type 0 where
  pub answers : ℕ → Option Response
  pub write_fails : ℕ → Option ℕ
  pub response_fails : ℕ → Option ℕ
  pub faults : Faults
  pub free : Option ℕ
  pub now : ℕ

-- The sizes that the build reads of the configuration and of the file.
pub record Sizes : Type 0 where
  pub chunk_bytes : ℕ
  pub max_bytes : ℕ
  pub min_free_bytes : ℕ
  pub media_size : ℕ

pub data BuildError : Type 0 where
  insufficient_disk_space : BuildError
  cache_failed : CacheError → BuildError
  open_failed : OriginError → BuildError
  read_failed : ReadEnd → BuildError
  response_failed : BuildError

-- `offset`, the writer and what it wrote, what the client got, and whether responseWriter is still set.
pub record Progress : Type 0 where
  pub offset : ℕ
  pub writer : BlockWriter
  pub disk : Disk
  pub sent : Text
  pub is_open : Bool
  pub response_err : Bool

-- The part of the chunk that lies in the response's range goes to the client.
unfoldable pub respond : (ℕ → Option ℕ) → ByteRange → Text → Progress → Progress
respond fails response chunk p =
    let chunk_start = p.offset in
    let chunk_end = p.offset + length chunk - 1 in
    let overlap_start = max chunk_start response.start in
    let overlap_end = min chunk_end response.end in
    let part = between (overlap_start - chunk_start) (overlap_end + 1 - chunk_start) chunk in
    if not (p.is_open && leb response.start response.end)
    then p
    else if not (leb overlap_start overlap_end)
    then p
    else elim (fails p.offset) [
      | none ↦ record p { sent = p.sent ++ part }
      | some n ↦ record p { sent = p.sent ++ take n part; is_open = false; response_err = true }
    ]

-- One chunk: written to the block, sent to the client, counted.
unfoldable pub take_chunk : Outside → ByteRange → Text → Progress → Progress × Option CacheError
take_chunk o response chunk p =
    let (d, w, failure) =
      write_data (record o.faults { short_write = o.write_fails p.offset }) o.now chunk p.writer
        p.disk in
    let written = record p { writer = w; disk = d } in
    let responded = respond o.response_fails response chunk written in
    if is_empty chunk then (p, none) else elim failure [
      | some e ↦ (written, some e)
      | none ↦ (record responded { offset = p.offset + length chunk }, none)
    ]

abbrev pub next_read :
    Progress × Option CacheError
    → ReadEnd
    → (Progress → Option (Progress × Result CacheError ReadEnd))
    → Option (Progress × Result CacheError ReadEnd)
next_read (p, some e) end continue = some (p, err e)
next_read (p, none) more continue = continue p
next_read (p, none) eof continue = some (p, ok eof)
next_read (p, none) unexpected_eof continue = some (p, ok unexpected_eof)
next_read (p, none) broken continue = some (p, ok broken)

-- The loop on body.Read, up to the block's end, the body's end, or a write that fails; `more` stands
-- for the error nil. It is none when the fuel is used up.
unfoldable pub copy_body :
    ℕ
    → Outside
    → ℕ
    → ByteRange
    → ByteRange
    → Reader
    → Progress
    → Option (Progress × Result CacheError ReadEnd)
copy_body zero o chunk_bytes block response reader p = none
copy_body (suc f) o chunk_bytes block response reader p =
    let (reader', chunk, end) = read chunk_bytes reader in
    if ltb block.end p.offset
    then some (p, ok more)
    else next_read (take_chunk o response chunk p) end
        (λ p'. copy_body f o chunk_bytes block response reader' p')

abbrev pub unexpected : ReadEnd → ReadEnd
unexpected more = unexpected_eof
unexpected eof = unexpected_eof
unexpected unexpected_eof = unexpected_eof
unexpected broken = broken

-- What follows the copy of one answer: done, another GET, or, after four without progress, an error.
abbrev pub after_copy :
    ℕ
    → ℕ
    → ℕ
    → Option (Progress × Result CacheError ReadEnd)
    → (ℕ → Progress → Option (Progress × Option BuildError))
    → Option (Progress × Option BuildError)
after_copy end start_offset attempts none continue = none
after_copy end start_offset attempts (some (p, err e)) continue = some (p, some (cache_failed e))
after_copy end start_offset attempts (some (p, ok read_err)) continue =
    let resume_attempts = if ltb start_offset p.offset then 0 else attempts + 1 in
    if ltb end p.offset
    then some (p, none)
    else if ltb 3 resume_attempts
    then some (p, some (read_failed (unexpected read_err)))
    else continue resume_attempts p

abbrev pub after_open :
    ℕ
    → Result OriginError Reader
    → Progress
    → (ℕ → Progress → Option (Progress × Option BuildError))
    → (Reader → Option (Progress × Option BuildError))
    → Option (Progress × Option BuildError)
after_open attempts (err e) p continue copied =
    if ltb 3 (attempts + 1) then some (p, some (open_failed e)) else continue (attempts + 1) p
after_open attempts (ok reader) p continue copied = copied reader

-- The loop on OpenRange, on fuel; `calls` counts the GETs.
unfoldable pub fetch :
    ℕ
    → Outside
    → Sizes
    → ByteRange
    → ByteRange
    → ℕ
    → ℕ
    → Progress
    → Option (Progress × Option BuildError)
fetch zero o sizes block response calls attempts p = none
fetch (suc f) o sizes block response calls attempts p =
    let continue : ℕ → Progress → Option (Progress × Option BuildError) =
      λ k p'. fetch f o sizes block response (suc calls) k p' in
    if ltb block.end p.offset
    then some (p, none)
    else after_open attempts
        (open_range (o.answers calls) (record { start = p.offset; end = block.end })
          sizes.media_size)
        p continue
        (λ reader.
          after_copy block.end p.offset attempts
            (copy_body (reader_reads reader) o sizes.chunk_bytes block response reader p) continue)

-- Four GETs in a row without progress end the loop, and each one with progress brings a byte.
abbrev pub fetch_fuel : ByteRange → ℕ
fetch_fuel block = 4 * range_length block + 5

unfoldable pub has_space : Sizes → Option ℕ → ByteRange → Bool
has_space sizes free block =
    sizes.min_free_bytes == 0
    || (elim free [ none ↦ true | some n ↦ leb (sizes.min_free_bytes + range_length block) n ])

-- Commit and EvictIfNeeded after the loop, or the deferred Abort.
unfoldable pub finish_build :
    Outside → Sizes → Progress × Option BuildError → Disk × Text × Option BuildError
finish_build o sizes (p, some e) = ((abort p.writer p.disk).0, p.sent, some e)
finish_build o sizes (p, none) =
    let (d, w, failure) = commit o.faults o.now p.writer p.disk in
    let evicted = evict_if_needed sizes.max_bytes d in
    elim failure [
      | some e ↦ ((abort w d).0, p.sent, some (cache_failed e))
      | none ↦ (evicted, p.sent, if p.response_err then some response_failed else none)
    ]

-- The loops and what follows, once the block is staged. `has_writer` says that a response is passed.
abbrev pub run_build :
    Outside
    → Sizes
    → ByteRange
    → ByteRange
    → Bool
    → Disk × Result CacheError BlockWriter
    → Option (Disk × Text × Option BuildError)
run_build o sizes block response has_writer (d, err e) = some (d, [], some (cache_failed e))
run_build o sizes block response has_writer (d, ok w) =
    elim (fetch (fetch_fuel block) o sizes block response 0 0 (record {
      offset = block.start;
      writer = w;
      disk = d;
      sent = [];
      is_open = has_writer;
      response_err = false;
    })) [ none ↦ none | some end ↦ some (finish_build o sizes end) ]

-- The answer has the disk, the bytes that the response got, and the error; it is none only if the
-- loops need more fuel than they are given.
unfoldable pub build_head_tail_block :
    Outside
    → Sizes
    → ℕ
    → Text
    → Text
    → ByteRange
    → ByteRange
    → Bool
    → Disk
    → Option (Disk × Text × Option BuildError)
build_head_tail_block o sizes tmp key name block response has_writer d =
    if not (has_space sizes o.free block)
    then some (d, [], some insufficient_disk_space)
    else run_build o sizes block response has_writer
        (stage_block o.faults tmp o.now key name block d)
