-- ===== src/App/Serve/Sent.antt =====
-- What a client is sent, from a cache or from the origin, in terms of the file.
use emby_range_cache_proxy.Base.{
  ℕ, ◌+◌, ◌-◌, ◌≤◌, ◌<◌, ◌≡◌, refl, sym, ap, subst, ◌∙◌, Bool, true, false, Option, none, some,
  List, [], ◌∷◌, ◌++◌, Result, ok, err, arith, ltb, length, take, drop, take-append-drop,
  append-cancel-nil, Bool-cases, inl, inr,
}
use mathlib.Core.List.{append_assoc}
use emby_range_cache_proxy.Base.Texts.{Text}
use emby_range_cache_proxy.Base.Slices.{between, IsPrefix, IsPrefix-front, IsPrefix-all}
use emby_range_cache_proxy.Config.{CacheConfig}
use emby_range_cache_proxy.Model.{ByteRange, SourceMetadata}
use emby_range_cache_proxy.Disk.Chunks.{concat}
use emby_range_cache_proxy.HeadTail.{block_for_request}
use emby_range_cache_proxy.Origin.{
  ReadEnd, more, eof, unexpected_eof, broken, Response, OriginError, Reader, open_range,
  copy_reader,
}
use emby_range_cache_proxy.Origin.Bodies.{HonestAnswer, reader_reads}
use emby_range_cache_proxy.Origin.Answers.{copy_reader-open_range}
use emby_range_cache_proxy.App.Serve.{
  ServeConfig, Outer, write_chunks, ends_badly, stream_opened, stream_origin_range,
  cache_block_for_request,
}

-- The first bytes of the range, and all of them unless an error ended the body.
abbrev pub IsRight : Text → ByteRange → Text → Bool → Type 0
IsRight content r sent failed =
    IsPrefix sent (between r.start (r.end + 1) content)
    × (failed ≡ false → sent ≡ between r.start (r.end + 1) content)

-- What was written, and what was not.
abbrev Written : Text → Text × Bool → Type 0
Written all (sent, failed) = (rest : Text) × (all ≡ sent ++ rest) × (failed ≡ false → rest ≡ [])

write_chunks-Written :
    (chunks : List Text) (takes : Option ℕ) → Written (concat chunks) (write_chunks chunks takes)
unfolding write_chunks
write_chunks-Written [] takes = ([], refl, λ e. refl)
write_chunks-Written (c ∷ chunks) none =
    let (rest, same, whole) = write_chunks-Written chunks none in
    let (sent, failed) = write_chunks chunks none in
    (rest, ap (◌++◌ c) same ∙ sym (append_assoc c sent rest), whole)
write_chunks-Written (c ∷ chunks) (some n) =
    let (rest, same, whole) = write_chunks-Written chunks (some (n - length c)) in
    let (sent, failed) = write_chunks chunks (some (n - length c)) in
    elim (Bool-cases (ltb n (length c))) [
      | inr e ↦ rw e (rest, ap (◌++◌ c) same ∙ sym (append_assoc c sent rest), whole)
      | inl e ↦ rw e (
        drop n c ++ concat chunks,
        ap (λ t. t ++ concat chunks) (sym (take-append-drop n c))
            ∙ append_assoc (take n c) (drop n c) (concat chunks),
        λ k. absurd (differ k),
      )
    ]
  where
    differ : true ≡ false → ⊥
    differ e = cc

pub write_chunks-IsRight :
    (content : Text) (r : ByteRange) (chunks : List Text) (takes : Option ℕ)
    → concat chunks ≡ between r.start (r.end + 1) content
    → IsRight content r (write_chunks chunks takes).0 (write_chunks chunks takes).1
write_chunks-IsRight content r chunks takes h =
    let (rest, same, whole) = write_chunks-Written chunks takes in
    let sent = (write_chunks chunks takes).0 in
    let slice = between r.start (r.end + 1) content in
    (
      IsPrefix-front sent rest slice (IsPrefix-all (sent ++ rest) slice (sym same ∙ h)),
      λ e. sym (append-cancel-nil sent) ∙ ap (◌++◌ sent) (sym (whole e)) ∙ sym same ∙ h,
    )

stream_opened-IsRight :
    (content : Text) (cfg : ServeConfig) (takes : Option ℕ) (size : ℕ) (r : ByteRange)
    (answer : Option Response) (opened : Result OriginError Reader)
    → HonestAnswer content answer
    → 0 < cfg.cache.chunk_bytes
    → open_range answer r size ≡ opened
    → IsRight content r (stream_opened cfg takes opened).0 (stream_opened cfg takes opened).1
unfolding open_range
stream_opened-IsRight content cfg takes size r answer (err e) h pos same =
    (refl, λ k. absurd (differ k))
  where
    differ : true ≡ false → ⊥
    differ k = cc
stream_opened-IsRight content cfg takes size r none (ok reader) h pos same = cc
stream_opened-IsRight content cfg takes size r (some resp) (ok reader) h pos same =
    let (front, _, all) =
      copy_reader-open_range content resp r size cfg.cache.chunk_bytes reader h same pos in
    let (bytes, last) = copy_reader (reader_reads reader) cfg.cache.chunk_bytes reader in
    let (rest, joined, whole) = write_chunks-Written (bytes ∷ []) takes in
    let sent = (write_chunks (bytes ∷ []) takes).0 in
    let slice = between r.start (r.end + 1) content in
    let here : sent ++ rest ≡ bytes = sym joined ∙ append-cancel-nil bytes in
    (
      IsPrefix-front sent rest slice (subst (λ t. IsPrefix t slice) (sym here) front),
      λ k.
          let complete = whole (ground (arith, k)) in
          sym (append-cancel-nil sent)
          ∙ ap (◌++◌ sent) (sym complete)
          ∙ here
          ∙ all (ended_well last (ground (arith, k))),
    )
  where
    ended_well : (last : ReadEnd) → ends_badly last ≡ false → last ≡ eof
    ended_well more h = cc
    ended_well eof h = refl
    ended_well unexpected_eof h = cc
    ended_well broken h = cc

pub stream_origin_range-IsRight :
    (content : Text) (cfg : ServeConfig) (o : Outer) (meta : SourceMetadata) (r : ByteRange)
    → HonestAnswer content (o.origin.answers 0)
    → 0 < cfg.cache.chunk_bytes
    → let (sent, failed) = stream_origin_range cfg o meta r in IsRight content r sent failed
unfolding stream_origin_range
stream_origin_range-IsRight content cfg o meta r honest pos =
    stream_opened-IsRight content cfg o.client_takes meta.size r (o.origin.answers 0)
      (open_range (o.origin.answers 0) r meta.size) honest pos refl

-- The block of a request for bytes that exist holds what is asked for.
pub cache_block_for_request-Holds :
    (cfg : CacheConfig) (r : ByteRange) (size head_size tail_size : ℕ) (name : Text)
    (block : ByteRange) (adaptive : Bool)
    → r.start ≤ r.end
    → cache_block_for_request cfg r size head_size tail_size ≡ some (name, block, adaptive)
    → (block.start ≤ r.start) × (r.end ≤ block.end)
unfolding cache_block_for_request block_for_request
cache_block_for_request-Holds cfg r size head_size tail_size name block adaptive ordered h =
    (ground (arith, h), ground (arith, h))
