-- ===== src/Identity/Examples.antt =====
-- Tests of session and cache names, and the theorem on keys at concrete files.
use emby_range_cache_proxy.Base.{◌≡◌, ◌≢◌, ◌⊎◌, refl, none, true, false, [], ◌∷◌}
use emby_range_cache_proxy.Base.Texts.{Text, codes, contains_byte, format_int}
use emby_range_cache_proxy.Model.{RequestContext, MediaSource, SourceMetadata}
use emby_range_cache_proxy.Identity.{
  join_lines, hash, origin_signature, key, build_update, is_tail_metadata_range,
}
use emby_range_cache_proxy.Identity.Distinct.{IsPlain, SameEntry, key-SameEntry}

program : Unit {0}
unfolding join_lines hash origin_signature key build_update is_tail_metadata_range contains_byte
    format_int
program = tt

abbrev same : Text → Text
same t = t

abbrev source : MediaSource
source = record {
  item_id = codes "7";
  media_source_id = codes "ms";
  path = codes "http://o/f";
  protocol = codes "Http";
  size = none;
  size_trusted = false;
  container = [];
  bitrate = none;
}

abbrev meta : SourceMetadata
meta = record {
  url = codes "http://o/f";
  size = 1000;
  content_type = [];
  etag = codes "e1";
  last_modified = [];
}

abbrev context : RequestContext
context = record {
  method = codes "GET";
  raw_path = [];
  item_id = codes "7";
  media_source_id = codes "ms";
  token = [];
  extension = [];
  play_session_id = [];
  device_id = [];
}

-- A request that names nothing belongs to the quarter of an hour.
anonymous :
    (build_update same context [] meta (record { start = 0; end = 9 }) 1801).session_hash
    ≡ codes "synthetic:7:ms:anonymous:2"
unfolding program
anonymous = refl

in_tail : is_tail_metadata_range 1000 (record { start = 900; end = 999 }) 100 100 ≡ true
unfolding program
in_tail = refl

source-IsPlain : IsPlain source meta
unfolding program
source-IsPlain = record { id_line = refl; url_line = refl; etag_line = refl }

-- A hash that tells the length alone, so that two ETags give one key.
abbrev short : Text → Text
short [] = []
short (c ∷ s) = 0 ∷ short s

key-SameEntry_example :
    SameEntry source source meta (record meta { etag = codes "e2" })
    ⊎ ((s t : Text) × (s ≢ t) × (short s ≡ short t))
unfolding program
key-SameEntry_example =
    key-SameEntry short source source meta (record meta { etag = codes "e2" }) source-IsPlain
      (record { id_line = refl; url_line = refl; etag_line = refl }) refl
