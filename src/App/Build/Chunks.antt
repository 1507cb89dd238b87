-- ===== src/App/Build/Chunks.antt =====
-- One chunk of a build: what is stored and sent after it, if its bytes are those of the file.
use emby_range_cache_proxy.Base.{
  ℕ, ◌+◌, ◌-◌, ◌≤◌, ◌<◌, ◌≡◌, refl, sym, ap, subst, ◌∙◌, Bool, true, false, Option, none, some, [],
  ◌∷◌, ◌++◌, arith, leb, length, min, max, take, drop, take-append-drop, Bool-cases, Option-cases,
  inl, inr,
}
use mathlib.Core.List.{append_assoc}
use emby_range_cache_proxy.Base.Texts.{Text}
use emby_range_cache_proxy.Base.Slices.{
  between, IsPrefix, between-append, between-between, IsPrefix-front, IsPrefix-all,
}
use emby_range_cache_proxy.Model.{ByteRange}
use emby_range_cache_proxy.Ranges.{is_empty}
use emby_range_cache_proxy.Disk.{Disk, temp_file, content_at}
use emby_range_cache_proxy.Disk.Contents.{content_at-append_file}
use emby_range_cache_proxy.HeadTail.{CacheError, BlockWriter, write_data, Faults}
use emby_range_cache_proxy.App.Build.{Outside, Progress, respond, take_chunk}

module _ (content : Text) (block response : ByteRange) (has_writer : Bool) where
  -- How much of the response's range lies before an offset.
  abbrev pub answered : ℕ → ℕ
  answered offset = max response.start (min offset (response.end + 1))

  -- The client has the first bytes of its range, and all that were fetched while no call failed.
  pub record IsAnswered (offset : ℕ) (sent : Text) (is_open response_err : Bool) : Type 0 where
    pub right : IsPrefix sent (between response.start (response.end + 1) content)
    pub upto_here : is_open ≡ true → sent ≡ between response.start (answered offset) content
    pub is_open_unless : response_err ≡ false → is_open ≡ has_writer

  -- A part of the fetched bytes, up to an offset, is sent on.
  overlap_part :
      (offset : ℕ) (chunk : Text)
      → response.start ≤ response.end
      → 0 < length chunk
      → chunk ≡ between offset (offset + length chunk) content
      → max offset response.start ≤ min (offset + length chunk - 1) response.end
      → between response.start (answered offset) content
          ++ between
              (max offset response.start - offset)
              (min (offset + length chunk - 1) response.end + 1 - offset)
              chunk
        ≡ between response.start (answered (offset + length chunk)) content
  overlap_part offset chunk ordered pos same h =
      let lo = max offset response.start in
      let hi = min (offset + length chunk - 1) response.end + 1 in
      let part : between (lo - offset) (hi - offset) chunk ≡ between lo hi content =
        ap (between (lo - offset) (hi - offset)) same
        ∙ between-between (lo - offset) (hi - offset) offset (offset + length chunk) content
            (omega arith)
        ∙ ap (λ k. between k (offset + (hi - offset)) content) (omega arith)
        ∙ ap (λ k. between lo k content) (omega arith) in
      let lo_eq : answered offset ≡ lo = omega arith in
      let hi_eq : hi ≡ answered (offset + length chunk) = omega arith in
      ap (λ t. between response.start (answered offset) content ++ t) part
      ∙ ap (λ k. between response.start k content ++ between lo hi content) lo_eq
      ∙ between-append response.start lo hi content (omega arith) (omega arith)
      ∙ ap (λ k. between response.start k content) hi_eq

  -- The client's range is answered up to some offset.
  answered-IsPrefix :
      (offset : ℕ) (sent : Text)
      → response.start ≤ response.end
      → sent ≡ between response.start (answered offset) content
      → IsPrefix sent (between response.start (response.end + 1) content)
  answered-IsPrefix offset sent ordered same =
      let a = answered offset in
      IsPrefix-front sent (between a (response.end + 1) content)
        (between response.start (response.end + 1) content)
        (IsPrefix-all _ _ (
          ap (λ t. t ++ between a (response.end + 1) content) same
          ∙ between-append response.start a (response.end + 1) content (omega arith) (omega arith)))

  empty-length : (t : Text) → is_empty t ≡ true → length t ≡ 0
  empty-length [] h = refl
  empty-length (c ∷ t) h = cc

  nonempty-length : (t : Text) → is_empty t ≡ false → 0 < length t
  nonempty-length [] h = cc
  nonempty-length (c ∷ t) h = omega arith

  respond-kept :
      (fails : ℕ → Option ℕ) (chunk : Text) (p : Progress)
      → ((respond fails response chunk p).writer ≡ p.writer)
        × ((respond fails response chunk p).disk ≡ p.disk)
  unfolding respond
  respond-kept fails chunk p = (ground arith, ground arith)

  respond-IsAnswered :
      (fails : ℕ → Option ℕ) (chunk : Text) (p : Progress)
      → response.start ≤ response.end
      → 0 < length chunk
      → chunk ≡ between p.offset (p.offset + length chunk) content
      → IsAnswered p.offset p.sent p.is_open p.response_err
      → let p' = respond fails response chunk p in
        IsAnswered (p.offset + length chunk) p'.sent p'.is_open p'.response_err
  unfolding respond
  respond-IsAnswered fails chunk p ordered pos same a =
      let lo = max p.offset response.start in
      let hi = min (p.offset + length chunk - 1) response.end in
      let part = between (lo - p.offset) (hi + 1 - p.offset) chunk in
      let in_order : leb response.start response.end ≡ true = ground arith in
      elim (Bool-cases p.is_open) [
        | inr e ↦ rw e (record {
          right = a.right;
          upto_here = λ o. elim (differ o) [ ];
          is_open_unless = λ o. sym e ∙ a.is_open_unless o;
        })
        | inl e ↦ elim (Bool-cases (leb lo hi)) [
          | inr f ↦
              rw (e, in_order, f)
                (record {
                  right = a.right;
                  upto_here = λ o.
                      a.upto_here e ∙ ap (λ k. between response.start k content) (ground arith);
                  is_open_unless = λ o. sym e ∙ a.is_open_unless o;
                })
          | inl f ↦
              let longer : p.sent ++ part
                  ≡ between response.start (answered (p.offset + length chunk)) content =
                ap (λ t. t ++ part) (a.upto_here e)
                ∙ overlap_part p.offset chunk ordered pos same (ground arith) in
              elim (Option-cases (fails p.offset)) [
                | inl g ↦
                    rw (e, in_order, f, g)
                      (record {
                        right =
                            answered-IsPrefix (p.offset + length chunk) (p.sent ++ part) ordered
                              longer;
                        upto_here = λ o. longer;
                        is_open_unless = a.is_open_unless;
                      })
                | inr (n, g) ↦
                    rw (e, in_order, f, g)
                      (record {
                        right =
                            IsPrefix-front (p.sent ++ take n part) (drop n part)
                              (between response.start (response.end + 1) content)
                              (subst
                                (λ t.
                                  IsPrefix t (between response.start (response.end + 1) content))
                                (sym (
                                  append_assoc p.sent (take n part) (drop n part)
                                  ∙ ap (◌++◌ p.sent) (take-append-drop n part)))
                                (answered-IsPrefix (p.offset + length chunk) (p.sent ++ part)
                                  ordered longer));
                        upto_here = λ o. elim (differ o) [ ];
                        is_open_unless = λ o. elim (differ (sym o)) [ ];
                      })
              ]
        ]
      ]
    where
      differ : false ≡ true → ⊥
      differ e = cc

  module _ (key name : Text) (tmp : ℕ) where
    abbrev pub writer_with : ℕ → BlockWriter
    writer_with n = record {
      key = key;
      block_name = name;
      byte_range = block;
      tmp = tmp;
      bytes_written = n;
      closed = false;
    }

    abbrev pub writer_at : ℕ → BlockWriter
    writer_at offset = writer_with (offset - block.start)

    -- The temporary file has the block's bytes up to the offset.
    pub record IsSoFar (p : Progress) : Type 0 where
      pub from : block.start ≤ p.offset
      pub upto : p.offset ≤ block.end + 1
      pub same : p.writer ≡ writer_at p.offset
      pub written : content_at (temp_file tmp) p.disk ≡ some (between block.start p.offset content)
      pub answer : IsAnswered p.offset p.sent p.is_open p.response_err

    write_data-next :
        (f : Faults) (now offset : ℕ) (chunk c : Text) (d : Disk)
        → f.short_write ≡ none
        → block.start ≤ offset
        → content_at (temp_file tmp) d ≡ some c
        → let r = write_data f now chunk (writer_at offset) d in
          (r.1 ≡ writer_at (offset + length chunk))
          × (content_at (temp_file tmp) r.0 ≡ some (c ++ chunk))
    unfolding write_data
    write_data-next f now offset chunk c d h k m = rw h (
      ap writer_with (added offset (length chunk) k),
      content_at-append_file (temp_file tmp) chunk now d c m,
    )
      where
        added : (a n : ℕ) → block.start ≤ a → a - block.start + n ≡ a + n - block.start
        added a n h = omega arith

    -- After a chunk: the block has it too, or a write failed.
    abbrev pub Taken : ℕ → Progress × Option CacheError → Type 0
    Taken offset (p, none) = (p.offset ≡ offset) × IsSoFar p
    Taken offset (p, some e) = IsPrefix p.sent (between response.start (response.end + 1) content)

    pub take_chunk-Taken :
        (o : Outside) (chunk : Text) (p : Progress)
        → response.start ≤ response.end
        → chunk ≡ between p.offset (p.offset + length chunk) content
        → length chunk ≤ block.end + 1 - p.offset
        → IsSoFar p
        → Taken (p.offset + length chunk) (take_chunk o response chunk p)
    unfolding take_chunk write_data
    take_chunk-Taken o chunk p ordered same short s = elim (Bool-cases (is_empty chunk)) [
      | inl e ↦ rw e (omega (arith, empty-length chunk e), s)
      | inr e ↦
          let is_open : p.writer.closed ≡ false = ap (λ w. w.closed) s.same in
          elim (Option-cases (o.write_fails p.offset)) [
            | inr (n, f) ↦ rw (e, is_open, f) s.answer.right
            | inl f ↦
                let faults = record o.faults { short_write = o.write_fails p.offset } in
                let (d, w, failure) = write_data faults o.now chunk p.writer p.disk in
                let (writer_kept, disk_kept) =
                  respond-kept o.response_fails chunk (record p { writer = w; disk = d }) in
                let (next, grown) =
                  subst
                    (λ w.
                      let r = write_data faults o.now chunk w p.disk in
                      (r.1 ≡ writer_at (p.offset + length chunk))
                      × (content_at (temp_file tmp) r.0
                          ≡ some (between block.start p.offset content ++ chunk)))
                    (sym s.same)
                    (write_data-next faults o.now p.offset chunk
                      (between block.start p.offset content) p.disk f s.from s.written) in
                rw (e, is_open, f)
                  (
                    refl,
                    record {
                      from = omega (arith, s.from);
                      upto = omega (arith, s.upto);
                      same = writer_kept ∙ next;
                      written =
                          ap (content_at (temp_file tmp)) disk_kept
                          ∙ grown
                          ∙ ap some (
                              ap (◌++◌ (between block.start p.offset content)) same
                              ∙ between-append block.start p.offset (p.offset + length chunk)
                                  content s.from (omega arith));
                      answer =
                          respond-IsAnswered o.response_fails chunk
                            (record p { writer = w; disk = d }) ordered
                            (ground (arith, nonempty-length chunk e)) same s.answer;
                    },
                  )
          ]
    ]
