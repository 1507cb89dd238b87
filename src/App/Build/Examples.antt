-- ===== src/App/Build/Examples.antt =====
-- A build that is resumed once, and its theorem there.
use emby_range_cache_proxy.Base.{ℕ, zero, suc, ◌≡◌, refl, true, Option, none, some, [], arith}
use emby_range_cache_proxy.Base.Texts.{
  Text, codes, strip_prefix, span_digits, parse_unsigned, parse_nonnegative, format_int, same_text,
}
use emby_range_cache_proxy.Base.Slices.{IsPrefix, between}
use emby_range_cache_proxy.Base.Tables.{insert_by, order_by}
use emby_range_cache_proxy.Model.{ByteRange}
use emby_range_cache_proxy.Disk.{
  Disk, same_path, remove_file, write_file, rename_file, touch_file, append_file,
}
use emby_range_cache_proxy.Disk.Sidecar.{print_range}
use emby_range_cache_proxy.HeadTail.{
  no_faults, is_hex, all_hex, valid_key, valid_block_name, stage_block, write_data, publish_files,
  commit, has_length, evict_files, evict_if_needed,
}
use emby_range_cache_proxy.Origin.{
  Response, match_content_range, parse_content_range, content_range_matches, length_agrees,
  skip_bytes, slice_status_ok_body, open_range, read_body, bounded_end, read,
}
use emby_range_cache_proxy.Origin.Bodies.{HonestAnswer}
use emby_range_cache_proxy.Origin.Examples.{
  file, whole_answer, partial_answer, whole_answer-IsHonest, partial_answer-IsHonest,
}
use emby_range_cache_proxy.App.Build.{
  Outside, Sizes, BuildError, has_space, respond, take_chunk, copy_body, fetch, finish_build,
  build_head_tail_block,
}
use emby_range_cache_proxy.App.Build.Outcome.{Complete, build_head_tail_block-Complete}

program : Unit {0}
unfolding build_head_tail_block has_space stage_block valid_key all_hex is_hex valid_block_name
    same_text fetch copy_body take_chunk respond write_data append_file same_path write_file
    remove_file finish_build commit has_length publish_files rename_file touch_file print_range
    evict_if_needed evict_files order_by insert_by open_range content_range_matches
    parse_content_range match_content_range strip_prefix span_digits parse_unsigned
    parse_nonnegative format_int length_agrees skip_bytes slice_status_ok_body read_body bounded_end
    read
program = tt

-- The first GET fails, the second one's body stops too soon, the third one's does not.
abbrev answers : ℕ → Option Response
answers zero = none
answers (suc zero) = some whole_answer
answers (suc (suc n)) = some partial_answer

pub answers-honest : (n : ℕ) → HonestAnswer file (answers n)
answers-honest zero = tt
answers-honest (suc zero) = whole_answer-IsHonest
answers-honest (suc (suc n)) = partial_answer-IsHonest

abbrev pub outside : Outside
outside = record {
  answers = answers;
  write_fails = λ n. none;
  response_fails = λ n. none;
  faults = no_faults;
  free = some 1000;
  now = 5;
}

abbrev sizes : Sizes
sizes = record { chunk_bytes = 4; max_bytes = 100; min_free_bytes = 50; media_size = 10 }

abbrev pub range : ℕ → ℕ → ByteRange
range start end = record { start = start; end = end }

abbrev pub key : Text
key = codes "0123456789abcdef0123456789abcdef0123456789abcdef0123456789abcdef"

abbrev sent_of : Option (Disk × Text × Option BuildError) → Option (Text × Option BuildError)
sent_of none = none
sent_of (some (d, sent, e)) = some (sent, e)

built :
    sent_of
      (build_head_tail_block outside sizes 7 key (codes "head") (range 0 9) (range 3 6) true [])
    ≡ some (codes "3456", none)
unfolding program
built = refl

build_head_tail_block-Complete_example :
    (d : Disk) × (sent : Text) × (e : Option BuildError) × (build_head_tail_block outside sizes 7
        key
        (codes "head")
        (range 0 9)
        (range 3 6)
        true
        []
      ≡ some (d, sent, e))
    × IsPrefix sent (between 3 7 file)
    × (e ≡ none → Complete file (range 0 9) (range 3 6) true key (codes "head") 100 d sent)
build_head_tail_block-Complete_example =
    build_head_tail_block-Complete file (range 0 9) (range 3 6) true key (codes "head") outside
      sizes 7 [] answers-honest (omega arith) (omega arith) (λ h. (omega arith, omega arith))
