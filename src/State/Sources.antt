-- ===== src/State/Sources.antt =====
-- The tables source_metadata and runtime_settings.
pub mod Latest
use emby_range_cache_proxy.Base.{
  ℕ, Bool, ◌&&◌, Option, none, some, List, [], ◌∷◌, ◌++◌, ltb, length, if◌then◌else◌,
}
use emby_range_cache_proxy.Base.Tables.{
  select_where, update_where, delete_where, count_where, exists_where, first_where, order_by,
}
use emby_range_cache_proxy.Base.Texts.{Text, same_text}
use emby_range_cache_proxy.State.{SourceRow, Setting, Store}

abbrev pub is_media : Text → Text → SourceRow → Bool
is_media item_id media_source_id r =
    same_text r.item_id item_id && same_text r.media_source_id media_source_id

abbrev pub is_source : Text → Text → Text → SourceRow → Bool
is_source item_id media_source_id cache_key r =
    is_media item_id media_source_id r && same_text r.cache_key cache_key

-- The update replaces every column that is not in the key, so the row becomes the record.
unfoldable pub upsert_source_metadata_record : Store → SourceRow → Store
upsert_source_metadata_record s row =
    let same = is_source row.item_id row.media_source_id row.cache_key in
    record s {
      source_metadata =
          if exists_where same s.source_metadata
          then update_where same
              (λ r. record r {
                origin_url = row.origin_url;
                origin_signature = row.origin_signature;
                media_size = row.media_size;
                content_type = row.content_type;
                etag = row.etag;
                last_modified = row.last_modified;
                updated_at = row.updated_at;
              })
              s.source_metadata
          else s.source_metadata ++ row ∷ [];
    }

unfoldable pub get_source_metadata : Store → Text → Text → Text → Option SourceRow
get_source_metadata s item_id media_source_id cache_key =
    first_where (is_source item_id media_source_id cache_key) s.source_metadata

-- `ORDER BY updated_at DESC`
unfoldable pub newer_before : SourceRow → SourceRow → Bool
newer_before a b = ltb b.updated_at a.updated_at

abbrev pub head_source : List SourceRow → Option SourceRow
head_source [] = none
head_source (r ∷ rows) = some r

-- Rows with one time stamp come in the order of the table, which SQL leaves open.
unfoldable pub latest_source_metadata : Store → Text → Text → Option SourceRow
latest_source_metadata s item_id media_source_id =
    head_source
      (order_by newer_before (select_where (is_media item_id media_source_id) s.source_metadata))

unfoldable pub delete_source_metadata_older_than : Store → ℕ → Store × ℕ
delete_source_metadata_older_than s cutoff =
    let old = λ (r : SourceRow). ltb r.updated_at cutoff in
    (
      record s { source_metadata = delete_where old s.source_metadata },
      count_where old s.source_metadata,
    )

unfoldable pub runtime_setting : Store → Text → Option Text
runtime_setting s key =
    elim (first_where (λ (r : Setting). same_text r.key key) s.runtime_settings) [
      | none ↦ none
      | some r ↦ some r.value
    ]

unfoldable pub set_runtime_setting : Store → Text → Text → ℕ → Store
set_runtime_setting s key value updated_at =
    let same = λ (r : Setting). same_text r.key key in
    record s {
      runtime_settings =
          if exists_where same s.runtime_settings
          then update_where same (λ r. record r { value = value; updated_at = updated_at })
              s.runtime_settings
          else s.runtime_settings
            ++ record { key = key; value = value; updated_at = updated_at } ∷ [];
    }
