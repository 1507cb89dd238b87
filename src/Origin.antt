-- ===== src/Origin.antt =====
-- go/internal/origin/origin.go: the client of the server that holds the files. The HTTP library is not
-- modelled: what it answers to a request is an argument.
pub mod Bodies
pub mod Ends
pub mod Answers
pub mod Examples
use emby_range_cache_proxy.Base.{
  ℕ, zero, suc, ◌+◌, ◌-◌, Bool, true, false, not, ◌&&◌, ◌||◌, Option, none, some, List, [], ◌∷◌,
  ◌++◌, Result, ok, err, ltb, leb, ◌==◌, if◌then◌else◌, min, length, take, drop,
}
use emby_range_cache_proxy.Base.Texts.{
  Text, codes, strip_prefix, span_digits, parse_unsigned, parse_nonnegative, format_int,
}
use emby_range_cache_proxy.Model.{ByteRange, range_length, SourceMetadata}
use emby_range_cache_proxy.Ranges.{is_empty}

-- What a Read answers beside its bytes: no error, io.EOF, io.ErrUnexpectedEOF, or another error.
pub data ReadEnd : Type 0 where
  more eof unexpected_eof broken : ReadEnd

-- A body on its way: `bytes` are still to come, then the end or, if it `breaks`, an error. `sizes`
-- bound the next calls of Read, which later calls only fill their buffer; the end comes with the last
-- bytes if it `ends_early`.
pub record Body : Type 0 where
  pub bytes : Text
  pub breaks : Bool
  pub sizes : List ℕ
  pub ends_early : Bool

-- The values of Header.Get are empty where the header is missing.
pub record Response : Type 0 where
  pub status : ℕ
  pub url : Text
  pub content_range : Text
  pub content_length : Text
  pub content_type : Text
  pub etag : Text
  pub last_modified : Text
  pub body : Body

pub data OriginError : Type 0 where
  request_failed head_failed range_probe_failed status_refused : OriginError
  invalid_content_range missing_content_length invalid_content_length : OriginError
  invalid_byte_range short_response : OriginError

abbrev pub next_size : List ℕ → ℕ → ℕ
next_size [] n = n
next_size (s ∷ sizes) n = min s n

abbrev pub later_sizes : List ℕ → List ℕ
later_sizes [] = []
later_sizes (s ∷ sizes) = sizes

-- Body.Read with a buffer of `p` bytes.
unfoldable pub read_body : ℕ → Body → Body × Text × ReadEnd
read_body p b =
    let n = min p (next_size b.sizes (length b.bytes)) in
    let rest = drop n b.bytes in
    let ended = is_empty rest && (is_empty b.bytes || b.ends_early) in
    (
      record b { bytes = rest; sizes = later_sizes b.sizes },
      take n b.bytes,
      if not ended then more else if b.breaks then broken else eof,
    )

-- The io.ReadCloser that OpenRange returns: the response's body, or a boundedReadCloser.
pub data Reader : Type 0 where
  whole_body : Body → Reader
  bounded : Body → ℕ → Reader

-- boundedReadCloser.Read
unfoldable pub bounded_end : ℕ → ReadEnd → ReadEnd
bounded_end remaining more = more
bounded_end remaining eof = if ltb 0 remaining then unexpected_eof else eof
bounded_end remaining unexpected_eof = unexpected_eof
bounded_end remaining broken = broken

unfoldable pub read : ℕ → Reader → Reader × Text × ReadEnd
read p (whole_body b) = let (b', bytes, end) = read_body p b in (whole_body b', bytes, end)
read p (bounded b remaining) =
    let (b', bytes, end) = read_body (min p remaining) b in
    let remaining' = remaining - length bytes in
    if remaining == 0
    then (bounded b remaining, [], eof)
    else (bounded b' remaining', bytes, bounded_end remaining' end)

abbrev pub match_total : Text → Text → Text × Text → Option (Text × Text × Text)
match_total first second (third, []) =
    if is_empty first || (is_empty second || is_empty third)
    then none
    else some (first, second, third)
match_total first second (third, c ∷ rest) = none

abbrev pub match_slash : Text → Text × Text → Option (Text × Text × Text)
match_slash first (second, []) = none
match_slash first (second, c ∷ rest) =
    if c == b'/' then match_total first second (span_digits rest) else none

abbrev pub match_dash : Text × Text → Option (Text × Text × Text)
match_dash (first, []) = none
match_dash (first, c ∷ rest) = if c == b'-' then match_slash first (span_digits rest) else none

-- `^bytes (\d+)-(\d+)/(\d+)$`, with its three groups.
unfoldable pub match_content_range : Text → Option (Text × Text × Text)
match_content_range value = elim (strip_prefix (codes "bytes ") value) [
  | none ↦ none
  | some rest ↦ match_dash (span_digits rest)
]

abbrev pub checked_content_range : Option ℕ → Option ℕ → Option ℕ → Option (ByteRange × ℕ)
checked_content_range (some start) (some end) (some total) =
    if total == 0 || (ltb end start || leb total end)
    then none
    else some (record { start = start; end = end }, total)
checked_content_range (some start) (some end) none = none
checked_content_range (some start) none total = none
checked_content_range none end total = none

unfoldable pub parse_content_range : Text → Option (ByteRange × ℕ)
parse_content_range value = elim (match_content_range value) [
  | none ↦ none
  | some (first, second, third) ↦
      checked_content_range (parse_unsigned first) (parse_unsigned second) (parse_unsigned third)
]

unfoldable pub content_range_matches : Text → ByteRange → ℕ → Bool
content_range_matches value r size = elim (parse_content_range value) [
  | none ↦ false
  | some (named, total) ↦ (named.start == r.start && named.end == r.end) && total == size
]

-- 403, 405 and 501
unfoldable pub should_probe_metadata_with_range : ℕ → Bool
should_probe_metadata_with_range status = status == 403 || (status == 405 || status == 501)

unfoldable pub parse_head_size : Response → Result OriginError ℕ
parse_head_size resp =
    if resp.status == 206
    then (elim (parse_content_range resp.content_range) [
      | none ↦ err invalid_content_range
      | some (named, total) ↦ ok total
    ])
    else if is_empty resp.content_length
    then err missing_content_length
    else elim (parse_nonnegative resp.content_length) [
      | none ↦ err invalid_content_length
      | some parsed ↦ ok parsed
    ]

abbrev pub response_metadata : Response → Result OriginError ℕ → Result OriginError SourceMetadata
response_metadata resp (err e) = err e
response_metadata resp (ok size) = ok (record {
  url = resp.url;
  size = size;
  content_type = resp.content_type;
  etag = resp.etag;
  last_modified = resp.last_modified;
})

-- `answer` is what the server says to a GET of `bytes=0-0`, none where the call fails.
unfoldable pub probe_metadata_with_range : Option Response → Result OriginError SourceMetadata
probe_metadata_with_range none = err request_failed
probe_metadata_with_range (some resp) =
    if resp.status == 206 || resp.status == 200
    then response_metadata resp (parse_head_size resp)
    else err status_refused

abbrev probed : Result OriginError SourceMetadata → Result OriginError SourceMetadata
probed (ok meta) = ok meta
probed (err e) = err range_probe_failed

-- Client.Head, on the answers to the HEAD and to the GET that may follow it.
unfoldable pub head : Option Response → Option Response → Result OriginError SourceMetadata
head none probe = err request_failed
head (some resp) probe =
    if leb 400 resp.status
    then (if should_probe_metadata_with_range resp.status
        then probed (probe_metadata_with_range probe)
        else err head_failed)
    else response_metadata resp (parse_head_size resp)

-- A Content-Length that is there must be this number.
unfoldable pub length_agrees : Text → ℕ → Bool
length_agrees header n =
    is_empty header
    || (elim (parse_nonnegative header) [ none ↦ false | some parsed ↦ parsed == n ])

-- io.CopyN to io.Discard; what it reads of the body is gone.
unfoldable pub skip_bytes : ℕ → Body → Option Body
skip_bytes n b = if ltb (length b.bytes) n then none else some (record b { bytes = drop n b.bytes })

unfoldable pub slice_status_ok_body : Response → ByteRange → ℕ → Result OriginError Reader
slice_status_ok_body resp r size =
    if size == 0 || (ltb r.end r.start || leb size r.end)
    then err invalid_byte_range
    else if not (length_agrees resp.content_length size)
    then err invalid_content_length
    else elim (skip_bytes r.start resp.body) [
      | none ↦ err short_response
      | some body ↦ ok (bounded body (range_length r))
    ]

-- Client.OpenRange, on the answer to a GET with `Range: bytes=start-end`.
unfoldable pub open_range : Option Response → ByteRange → ℕ → Result OriginError Reader
open_range none r size = err request_failed
open_range (some resp) r size =
    if resp.status == 206
    then (if not (content_range_matches resp.content_range r size)
        then err invalid_content_range
        else if not (length_agrees resp.content_length (range_length r))
        then err invalid_content_length
        else ok (whole_body resp.body))
    else if resp.status == 200
    then slice_status_ok_body resp r size
    else err status_refused

abbrev pub after_read : Text → ReadEnd → Text × ReadEnd → Text × ReadEnd
after_read bytes more (rest, last) = (bytes ++ rest, last)
after_read bytes eof rest = (bytes, eof)
after_read bytes unexpected_eof rest = (bytes, unexpected_eof)
after_read bytes broken rest = (bytes, broken)

-- io.CopyBuffer with a buffer of `p` bytes, to a writer that takes everything: what it writes, and
-- how the reader ended.
unfoldable pub copy_reader : ℕ → ℕ → Reader → Text × ReadEnd
copy_reader zero p reader = ([], more)
copy_reader (suc f) p reader =
    let (reader', bytes, end) = read p reader in after_read bytes end (copy_reader f p reader')
