-- ===== src/Origin/Examples.antt =====
-- Tests of the origin client, and its theorems at concrete answers.
use emby_range_cache_proxy.Base.{
  ℕ, ◌+◌, ◌≡◌, ◌≢◌, refl, subst, false, true, Option, none, some, [], ◌∷◌, ok, err, arith,
}
use emby_range_cache_proxy.Base.Texts.{
  Text, codes, strip_prefix, span_digits, parse_unsigned, parse_nonnegative, format_int,
}
use emby_range_cache_proxy.Base.Slices.{between, IsPrefix}
use emby_range_cache_proxy.Model.{ByteRange}
use emby_range_cache_proxy.Ranges.{content_range_header}
use emby_range_cache_proxy.Origin.{
  more, eof, unexpected_eof, Response, Reader, bounded, head_failed, range_probe_failed,
  invalid_content_range, match_content_range, parse_content_range, content_range_matches,
  should_probe_metadata_with_range, parse_head_size, probe_metadata_with_range, head, length_agrees,
  skip_bytes, slice_status_ok_body, open_range, read_body, bounded_end, read, copy_reader,
}
use emby_range_cache_proxy.Origin.Bodies.{IsHonest, reader_reads}
use emby_range_cache_proxy.Origin.Answers.{
  parse_content_range-content_range_header, copy_reader-open_range,
}

program : Unit {0}
unfolding parse_content_range match_content_range content_range_matches strip_prefix span_digits
    parse_unsigned parse_nonnegative format_int should_probe_metadata_with_range parse_head_size
    probe_metadata_with_range head length_agrees skip_bytes slice_status_ok_body open_range
    read_body bounded_end read copy_reader content_range_header
program = tt

abbrev pub file : Text
file = codes "0123456789"

abbrev pub answer : ℕ → Text → Text → Text → Response
answer status range size bytes = record {
  status = status;
  url = [];
  content_range = range;
  content_length = size;
  content_type = [];
  etag = [];
  last_modified = [];
  body = record { bytes = bytes; breaks = false; sizes = 2 ∷ 1 ∷ []; ends_early = false };
}

-- The connection ends after the first four bytes.
abbrev pub whole_answer : Response
whole_answer = answer 200 [] (codes "10") (codes "0123")

abbrev pub partial_answer : Response
partial_answer = answer 206 (codes "bytes 4-9/10") (codes "6") (codes "456789")

abbrev pub full_answer : Response
full_answer = answer 200 [] (codes "10") file

abbrev Names : Text → Text → Option (ByteRange × ℕ) → Type 0
Names content bytes none = Unit
Names content bytes (some (r, total)) = IsPrefix bytes (between r.start (r.end + 1) content)

named :
    (content : Text) (resp : Response) (r : ByteRange) (total : ℕ)
    → Names content resp.body.bytes (parse_content_range resp.content_range)
    → parse_content_range resp.content_range ≡ some (r, total)
    → IsPrefix resp.body.bytes (between r.start (r.end + 1) content)
named content resp r total h e = subst (Names content resp.body.bytes) e h

pub whole_answer-IsHonest : IsHonest file whole_answer
whole_answer-IsHonest = record {
  partial = λ r total h. absurd (other h);
  complete = λ r total h. absurd (other h);
  whole = λ h. refl;
}
  where
    other : ◌≢◌ {A = ℕ} 200 206
    other h = omega arith

pub full_answer-IsHonest : IsHonest file full_answer
full_answer-IsHonest = record {
  partial = λ r total h. absurd (other h);
  complete = λ r total h. absurd (other h);
  whole = λ h. refl;
}
  where
    other : ◌≢◌ {A = ℕ} 200 206
    other h = omega arith

pub partial_answer-IsHonest : IsHonest file partial_answer
unfolding program
partial_answer-IsHonest = record {
  partial = λ r total h e. named file partial_answer r total refl e;
  complete = λ r total h e fine. complete_named r total e;
  whole = λ h. absurd (other h);
}
  where
    Whole : Option (ByteRange × ℕ) → Type 0
    Whole none = Unit
    Whole (some (r, total)) = partial_answer.body.bytes ≡ between r.start (r.end + 1) file

    complete_named :
        (r : ByteRange) (total : ℕ)
        → parse_content_range partial_answer.content_range ≡ some (r, total)
        → partial_answer.body.bytes ≡ between r.start (r.end + 1) file
    complete_named r total e = subst Whole e refl

    other : ◌≢◌ {A = ℕ} 206 200
    other h = omega arith

abbrev range : ℕ → ℕ → ByteRange
range start end = record { start = start; end = end }

short_copy :
    (copy_reader 9 4
        (bounded (record { bytes = codes "23"; breaks = false; sizes = []; ends_early = true }) 5)
      ≡ (codes "23", unexpected_eof))
unfolding program
short_copy = refl

-- 403 to the HEAD, and the probe's 206 names the size.
probed :
    (head (some (answer 403 [] [] [])) none ≡ err range_probe_failed)
    × (head (some (answer 404 [] [] [])) (some partial_answer) ≡ err head_failed)
    × (parse_head_size partial_answer ≡ ok 10)
unfolding program
probed = (refl, refl, refl)

refused : open_range (some partial_answer) (range 3 9) 10 ≡ err invalid_content_range
unfolding program
refused = refl

parse_content_range-content_range_header_example :
    parse_content_range (content_range_header (range 4 9) 10) ≡ some (range 4 9, 10)
parse_content_range-content_range_header_example =
    parse_content_range-content_range_header (range 4 9) 10 (omega arith) (omega arith)
      (omega arith)

abbrev cut_reader : Reader
cut_reader =
    bounded
      (record { bytes = codes "456789"; breaks = false; sizes = 2 ∷ 1 ∷ []; ends_early = false }) 3

copy_reader-open_range_example :
    let (bytes, last) = copy_reader (reader_reads cut_reader) 4 cut_reader in
    IsPrefix bytes (between 4 7 file) × (last ≢ more) × (last ≡ eof → bytes ≡ between 4 7 file)
unfolding program
copy_reader-open_range_example =
    copy_reader-open_range file full_answer (range 4 6) 10 4 cut_reader full_answer-IsHonest refl
      (omega arith)
