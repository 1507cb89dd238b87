-- ===== src/App/Build/Whole.antt =====
-- What buildHeadTailBlock stores and sends, if the origin sends what its headers name.
use emby_range_cache_proxy.Base.{
  ℕ, zero, suc, ◌+◌, ◌≤◌, ◌<◌, ◌≡◌, sym, subst, Bool, Option, none, some, Result, ok, err, ◌++◌,
  arith, ltb, if◌then◌else◌, length, Bool-cases, inl, inr,
}
use emby_range_cache_proxy.Base.Texts.{Text}
use emby_range_cache_proxy.Base.Slices.{
  between, IsPrefix, IsPrefix-between, IsPrefix-rest, IsPrefix-front,
}
use emby_range_cache_proxy.Model.{ByteRange}
use emby_range_cache_proxy.HeadTail.{CacheError}
use emby_range_cache_proxy.Origin.{
  ReadEnd, more, eof, unexpected_eof, broken, OriginError, Response, Reader, read, open_range,
}
use emby_range_cache_proxy.Origin.Bodies.{HonestAnswer, bytes_left, read-Reads, reader_reads}
use emby_range_cache_proxy.Origin.Answers.{Opened, open_range-Opened}
use emby_range_cache_proxy.App.Build.{
  Outside, Sizes, BuildError, Progress, next_read, copy_body, after_copy, after_open, fetch,
}
use emby_range_cache_proxy.App.Build.Chunks.{IsSoFar, Taken, take_chunk-Taken}

module _ (content : Text) (block response : ByteRange) (has_writer : Bool) (key name : Text)
    (tmp : ℕ) (ordered : response.start ≤ response.end) where
  abbrev SoFar : Progress → Type 0
  SoFar p = IsSoFar content block response has_writer key name tmp p

  abbrev IsRight : Progress → Type 0
  IsRight p = IsPrefix p.sent (between response.start (response.end + 1) content)

  abbrev Kept : Option (Progress × Result CacheError ReadEnd) → Type 0
  Kept none = Unit
  Kept (some (p, err e)) = IsRight p
  Kept (some (p, ok end)) = SoFar p

  abbrev Comes : Progress → Reader → Type 0
  Comes p reader = IsPrefix (bytes_left reader) (between p.offset (block.end + 1) content)

  next_read-Kept :
      (offset : ℕ) (taken : Progress × Option CacheError) (end : ReadEnd)
      (continue : Progress → Option (Progress × Result CacheError ReadEnd))
      → Taken content block response has_writer key name tmp offset taken
      → ((p : Progress) → p.offset ≡ offset → SoFar p → Kept (continue p))
      → Kept (next_read taken end continue)
  next_read-Kept offset (p, some e) end continue t h = t
  next_read-Kept offset (p, none) more continue t h = h p t.0 t.1
  next_read-Kept offset (p, none) eof continue t h = t.1
  next_read-Kept offset (p, none) unexpected_eof continue t h = t.1
  next_read-Kept offset (p, none) broken continue t h = t.1

  copy_body-Kept :
      (f : ℕ) (o : Outside) (chunk_bytes : ℕ) (reader : Reader) (p : Progress)
      → 0 < chunk_bytes
      → SoFar p
      → Comes p reader
      → Kept (copy_body f o chunk_bytes block response reader p)
  unfolding copy_body
  copy_body-Kept zero o chunk_bytes reader p pos s c = tt
  copy_body-Kept (suc f) o chunk_bytes reader p pos s c =
      let (reader', chunk, end) = read chunk_bytes reader in
      let all = between p.offset (block.end + 1) content in
      let joined : IsPrefix (chunk ++ bytes_left reader') all =
        subst (λ t. IsPrefix t all) (read-Reads chunk_bytes reader pos).0 c in
      let (same, short) =
        IsPrefix-between chunk p.offset (block.end + 1) content
          (IsPrefix-front chunk (bytes_left reader') all joined) in
      elim (Bool-cases (ltb block.end p.offset)) [
        | inl e ↦ rw e s
        | inr e ↦ rw e (
            next_read-Kept (p.offset + length chunk) _ end _
              (take_chunk-Taken content block response has_writer key name tmp o chunk p ordered
                same short s)
              (λ p' here s'. copy_body-Kept f o chunk_bytes reader' p' pos s' (
                subst (λ k. IsPrefix (bytes_left reader') (between k (block.end + 1) content))
                  (sym here)
                  (IsPrefix-rest chunk (bytes_left reader') p.offset (block.end + 1) content
                    joined))))
      ]

  -- The loops' end: everything is there, or what was sent is right.
  abbrev pub Fetched : Option (Progress × Option BuildError) → Type 0
  Fetched none = Unit
  Fetched (some (p, some e)) = IsRight p
  Fetched (some (p, none)) = SoFar p × (block.end < p.offset)

  after_copy-Fetched :
      (start attempts : ℕ) (copied : Option (Progress × Result CacheError ReadEnd))
      (continue : ℕ → Progress → Option (Progress × Option BuildError))
      → Kept copied
      → ((k : ℕ) (p : Progress) → SoFar p → Fetched (continue k p))
      → Fetched (after_copy block.end start attempts copied continue)
  after_copy-Fetched start attempts none continue k h = tt
  after_copy-Fetched start attempts (some (p, err e)) continue k h = k
  after_copy-Fetched start attempts (some (p, ok end)) continue k h =
      let n : ℕ = if ltb start p.offset then 0 else attempts + 1 in
      elim (Bool-cases (ltb block.end p.offset)) [
        | inl e ↦ rw e (k, ground arith)
        | inr e ↦ elim (Bool-cases (ltb 3 n)) [
          | inl g ↦ rw (e, g) k.answer.right
          | inr g ↦ rw (e, g) (h n p k)
        ]
      ]

  after_open-Fetched :
      (attempts : ℕ) (opened : Result OriginError Reader) (p : Progress)
      (continue : ℕ → Progress → Option (Progress × Option BuildError))
      (copied : Reader → Option (Progress × Option BuildError))
      → SoFar p
      → Opened content (record { start = p.offset; end = block.end }) opened
      → ((k : ℕ) → Fetched (continue k p))
      → ((reader : Reader) → Comes p reader → Fetched (copied reader))
      → Fetched (after_open attempts opened p continue copied)
  after_open-Fetched attempts (ok reader) p continue copied s o h k = k reader o
  after_open-Fetched attempts (err e) p continue copied s o h k =
      elim (Bool-cases (ltb 3 (attempts + 1))) [
        | inl g ↦ rw g s.answer.right
        | inr g ↦ rw g (h (attempts + 1))
      ]

  answer-Opened :
      (answer : Option Response) (r : ByteRange) (size : ℕ)
      → HonestAnswer content answer
      → Opened content r (open_range answer r size)
  unfolding open_range
  answer-Opened none r size h = tt
  answer-Opened (some resp) r size h = open_range-Opened content resp r size h

  pub fetch-Fetched :
      (f : ℕ) (o : Outside) (sizes : Sizes) (calls attempts : ℕ) (p : Progress)
      → ((n : ℕ) → HonestAnswer content (o.answers n))
      → 0 < sizes.chunk_bytes
      → SoFar p
      → Fetched (fetch f o sizes block response calls attempts p)
  unfolding fetch
  fetch-Fetched zero o sizes calls attempts p honest pos s = tt
  fetch-Fetched (suc f) o sizes calls attempts p honest pos s =
      elim (Bool-cases (ltb block.end p.offset)) [
        | inl e ↦ rw e (s, ground arith)
        | inr e ↦ rw e (
            after_open-Fetched attempts _ p _ _ s
              (answer-Opened (o.answers calls) (record { start = p.offset; end = block.end })
                sizes.media_size (honest calls))
              (λ k. fetch-Fetched f o sizes (suc calls) k p honest pos s)
              (λ reader c.
                after_copy-Fetched p.offset attempts _ _
                  (copy_body-Kept (reader_reads reader) o sizes.chunk_bytes reader p pos s c)
                  (λ k p' s'. fetch-Fetched f o sizes (suc calls) k p' honest pos s')))
      ]
