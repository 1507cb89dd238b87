-- ===== src/HeadTail/Cleanup.antt =====
-- What StoreBlock leaves alone, and what it leaves behind, on every path.
use emby_range_cache_proxy.Base.{
  ℕ, ◌+◌, ◌≡◌, refl, ◌∙◌, false, none, some, [], arith, Option-cases, inl, inr, length, take,
}
use emby_range_cache_proxy.Base.Texts.{Text}
use emby_range_cache_proxy.Model.{ByteRange}
use emby_range_cache_proxy.Disk.{
  FilePath, block_file, range_file, temp_file, temp_range, undeletable, same_path, Disk, content_at,
  remove_file, write_file, rename_file, append_file,
}
use emby_range_cache_proxy.Disk.Files.{same_path_refl}
use emby_range_cache_proxy.Disk.Contents.{
  content_at-remove_file, content_at-write_file, content_at-rename_file, content_at-touch_file,
  content_at-append_file, content_at-append_file_other,
}
use emby_range_cache_proxy.Disk.Sidecar.{print_range}
use emby_range_cache_proxy.HeadTail.{
  Faults, BlockWriter, stage_block, write_data, publish_files, commit, abort, write_and_commit,
  store_block,
}

-- Neither the entry's two files nor the two temporary files.
abbrev pub IsOther : Text → Text → ℕ → FilePath → Type 0
IsOther key name tmp p =
    (same_path p (block_file key name) ≡ false)
    × (same_path p (range_file key name) ≡ false)
    × (same_path p (temp_file tmp) ≡ false)
    × (same_path p (temp_range tmp) ≡ false)

publish_files-other :
    (f : Faults) (now : ℕ) (w : BlockWriter) (d : Disk) (bytes line : Text) (p : FilePath)
    → IsOther w.key w.block_name w.tmp p
    → content_at (temp_file w.tmp) d ≡ some bytes
    → content_at (temp_range w.tmp) d ≡ some line
    → content_at p (publish_files f now w d).0 ≡ content_at p d
unfolding publish_files same_path
publish_files-other f now w d bytes line p (o1, o2, o3, o4) h k =
    let path = block_file w.key w.block_name in
    let meta = range_file w.key w.block_name in
    let a = temp_file w.tmp in
    let b = temp_range w.tmp in
    let d1 = rename_file a path d in
    let d2 = rename_file b meta d1 in
    let b1 : content_at b d1 ≡ some line = content_at-rename_file b a path d bytes h ∙ k in
    let p1 : content_at p d1 ≡ content_at p d =
      content_at-rename_file p a path d bytes h ∙ (rw (o1, o3) refl) in
    let p2 : content_at p d2 ≡ content_at p d1 =
      content_at-rename_file p b meta d1 line b1 ∙ (rw (o2, o4) refl) in
    ground (
      arith,
      content_at-remove_file p b (remove_file a d),
      content_at-remove_file p a d,
      content_at-remove_file p b (remove_file path d1),
      content_at-remove_file p path d1,
      content_at-touch_file p path now d2,
    )

commit-other :
    (f : Faults) (now : ℕ) (w : BlockWriter) (d : Disk) (bytes : Text) (p : FilePath)
    → IsOther w.key w.block_name w.tmp p
    → content_at (temp_file w.tmp) d ≡ some bytes
    → content_at p (commit f now w d).0 ≡ content_at p d
unfolding commit same_path
commit-other f now w d bytes p o h =
    let line = print_range w.byte_range in
    let b = temp_range w.tmp in
    let d1 = write_file b line now d in
    let a1 : content_at (temp_file w.tmp) d1 ≡ some bytes =
      content_at-write_file (temp_file w.tmp) b line now d ∙ h in
    let b1 : content_at b d1 ≡ some line =
      content_at-write_file b b line now d ∙ (rw (same_path_refl b) refl) in
    let unchanged = publish_files-other f now w d1 bytes line p o a1 b1 in
    elim (Option-cases f.meta_short_write) [
      | inl e ↦ rw e (
          ground (
            arith,
            unchanged,
            content_at-write_file p b line now d,
            content_at-remove_file p (temp_file w.tmp) d,
            o,
          ))
      | inr (n, e) ↦ rw e (
          ground (
            arith,
            unchanged,
            content_at-remove_file p (temp_file w.tmp) (write_file b (take n line) now d),
            content_at-write_file p b (take n line) now d,
            content_at-remove_file p (temp_file w.tmp) d,
            content_at-write_file p b line now d,
            o,
          ))
    ]

write_and_commit-other :
    (f : Faults) (now : ℕ) (w : BlockWriter) (d : Disk) (bytes : Text) (p : FilePath)
    → IsOther w.key w.block_name w.tmp p
    → content_at (temp_file w.tmp) d ≡ some []
    → w.closed ≡ false
    → content_at p (write_and_commit f now bytes w d).0 ≡ content_at p d
unfolding write_data abort
write_and_commit-other f now w d bytes p o h is_open =
    let a = temp_file w.tmp in
    let part = λ (n : ℕ). append_file a (take n bytes) now d in
    elim (Option-cases f.short_write) [
      | inl e ↦ rw e (
          ground (
            arith,
            commit-other f now (record w { bytes_written = w.bytes_written + length bytes })
                (append_file a bytes now d) bytes p o (content_at-append_file a bytes now d [] h),
            content_at-append_file_other p a bytes now d o.2,
            is_open,
          ))
      | inr (n, e) ↦ rw e (
          ground (
            arith,
            content_at-remove_file p a (part n),
            content_at-append_file_other p a (take n bytes) now d o.2,
            o,
            is_open,
          ))
    ]

-- Whatever fails, StoreBlock changes no file but the entry's own two and its two temporary ones.
pub store_block-other :
    (f : Faults) (tmp now : ℕ) (key name : Text) (r : ByteRange) (bytes : Text) (d : Disk)
    (p : FilePath)
    → IsOther key name tmp p
    → content_at p (store_block f tmp now key name r bytes d).0 ≡ content_at p d
unfolding store_block stage_block
store_block-other f tmp now key name r bytes d p o =
    let w : BlockWriter = record {
      key = key;
      block_name = name;
      byte_range = r;
      tmp = tmp;
      bytes_written = 0;
      closed = false;
    } in
    let a = temp_file tmp in
    let d1 = write_file a [] now d in
    let a1 : content_at a d1 ≡ some [] =
      content_at-write_file a a [] now d ∙ (rw (same_path_refl a) refl) in
    ground (
      arith,
      write_and_commit-other f now w d1 bytes p o a1 refl,
      content_at-write_file p a [] now d,
      o,
    )

-- os.Remove works on the path.
abbrev pub IsRemovable : FilePath → Disk → Type 0
IsRemovable p d = content_at (undeletable p) d ≡ none

publish_files-no_temp :
    (f : Faults) (now : ℕ) (w : BlockWriter) (d : Disk) (bytes line : Text)
    → content_at (temp_file w.tmp) d ≡ some bytes
    → content_at (temp_range w.tmp) d ≡ some line
    → IsRemovable (temp_file w.tmp) d
    → content_at (temp_file w.tmp) (publish_files f now w d).0 ≡ none
unfolding publish_files same_path
publish_files-no_temp f now w d bytes line h k free =
    let path = block_file w.key w.block_name in
    let meta = range_file w.key w.block_name in
    let a = temp_file w.tmp in
    let b = temp_range w.tmp in
    let ra = same_path_refl a in
    let d1 = rename_file a path d in
    let d2 = rename_file b meta d1 in
    let a1 : content_at a d1 ≡ none = content_at-rename_file a a path d bytes h ∙ (rw ra refl) in
    let b1 : content_at b d1 ≡ some line = content_at-rename_file b a path d bytes h ∙ k in
    let a2 : content_at a d2 ≡ none = content_at-rename_file a b meta d1 line b1 ∙ a1 in
    ground (
      arith,
      ra,
      free,
      content_at-remove_file a b (remove_file a d),
      content_at-remove_file a a d,
      content_at-remove_file a b (remove_file path d1),
      content_at-remove_file a path d1,
      content_at-touch_file a path now d2,
    )

commit-no_temp :
    (f : Faults) (now : ℕ) (w : BlockWriter) (d : Disk) (bytes : Text)
    → content_at (temp_file w.tmp) d ≡ some bytes
    → IsRemovable (temp_file w.tmp) d
    → w.closed ≡ false
    → content_at (temp_file w.tmp) (commit f now w d).0 ≡ none
unfolding commit same_path
commit-no_temp f now w d bytes h free is_open =
    let line = print_range w.byte_range in
    let a = temp_file w.tmp in
    let b = temp_range w.tmp in
    let ra = same_path_refl a in
    let d1 = write_file b line now d in
    let a1 : content_at a d1 ≡ some bytes = content_at-write_file a b line now d ∙ h in
    let b1 : content_at b d1 ≡ some line =
      content_at-write_file b b line now d ∙ (rw (same_path_refl b) refl) in
    let free1 : IsRemovable a d1 = content_at-write_file (undeletable a) b line now d ∙ free in
    let gone = publish_files-no_temp f now w d1 bytes line a1 b1 free1 in
    elim (Option-cases f.meta_short_write) [
      | inl e ↦ rw e (ground (arith, gone, content_at-remove_file a a d, ra, free, is_open))
      | inr (n, e) ↦
          let d2 = write_file b (take n line) now d in
          let free2 : IsRemovable a d2 =
            content_at-write_file (undeletable a) b (take n line) now d ∙ free in
          rw e (
            ground (
              arith,
              gone,
              content_at-remove_file a a d,
              content_at-remove_file a a d2,
              ra,
              free,
              free2,
              is_open,
            ))
    ]

write_and_commit-no_temp :
    (f : Faults) (now : ℕ) (w : BlockWriter) (d : Disk) (bytes : Text)
    → content_at (temp_file w.tmp) d ≡ some []
    → IsRemovable (temp_file w.tmp) d
    → w.closed ≡ false
    → content_at (temp_file w.tmp) (write_and_commit f now bytes w d).0 ≡ none
unfolding write_data abort same_path
write_and_commit-no_temp f now w d bytes h free is_open =
    let a = temp_file w.tmp in
    let kept = λ (b : Text). content_at-append_file_other (undeletable a) a b now d refl ∙ free in
    elim (Option-cases f.short_write) [
      | inl e ↦ rw e (
          ground (
            arith,
            commit-no_temp f now (record w { bytes_written = w.bytes_written + length bytes })
                (append_file a bytes now d) bytes (content_at-append_file a bytes now d [] h)
                (kept bytes) is_open,
          ))
      | inr (n, e) ↦ rw e (
          ground (
            arith,
            content_at-remove_file a a (append_file a (take n bytes) now d),
            same_path_refl a,
            kept (take n bytes),
            is_open,
          ))
    ]

-- Whatever fails but os.Remove on this very file, the temporary file of the bytes is gone when
-- StoreBlock returns, if its name was free.
pub store_block-no_temp :
    (f : Faults) (tmp now : ℕ) (key name : Text) (r : ByteRange) (bytes : Text) (d : Disk)
    → content_at (temp_file tmp) d ≡ none
    → IsRemovable (temp_file tmp) d
    → content_at (temp_file tmp) (store_block f tmp now key name r bytes d).0 ≡ none
unfolding store_block stage_block same_path
store_block-no_temp f tmp now key name r bytes d no_file free =
    let w : BlockWriter = record {
      key = key;
      block_name = name;
      byte_range = r;
      tmp = tmp;
      bytes_written = 0;
      closed = false;
    } in
    let a = temp_file tmp in
    let d1 = write_file a [] now d in
    let a1 : content_at a d1 ≡ some [] =
      content_at-write_file a a [] now d ∙ (rw (same_path_refl a) refl) in
    let free1 : IsRemovable a d1 = content_at-write_file (undeletable a) a [] now d ∙ free in
    ground (arith, no_file, write_and_commit-no_temp f now w d1 bytes a1 free1 refl)
