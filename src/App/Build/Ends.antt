-- ===== src/App/Build/Ends.antt =====
-- The loops of buildHeadTailBlock end.
use emby_range_cache_proxy.Base.{
  ℕ, zero, suc, ◌+◌, ◌-◌, ◌*◌, ◌≤◌, ◌<◌, ◌≡◌, refl, Option, none, some, Result, ok, err, arith, ltb,
  if◌then◌else◌, Bool-cases, inl, inr,
}
use emby_range_cache_proxy.Base.Texts.{Text}
use emby_range_cache_proxy.Model.{ByteRange}
use emby_range_cache_proxy.HeadTail.{CacheError}
use emby_range_cache_proxy.Origin.{
  ReadEnd, more, eof, unexpected_eof, broken, OriginError, Reader, read,
}
use emby_range_cache_proxy.Origin.Bodies.{reader_reads, read-Reads, reader_reads-pos}
use emby_range_cache_proxy.App.Build.{
  Outside, Sizes, BuildError, cache_failed, open_failed, read_failed, Progress, take_chunk,
  next_read, copy_body, after_copy, after_open, fetch, unexpected,
}

take_chunk-offset :
    (o : Outside) (response : ByteRange) (chunk : Text) (p : Progress)
    → p.offset ≤ (take_chunk o response chunk p).0.offset
unfolding take_chunk
take_chunk-offset o response chunk p = ground arith

-- There is an answer, and it is no further back.
abbrev pub Copied : ℕ → Option (Progress × Result CacheError ReadEnd) → Type 0
Copied start none = ⊥
Copied start (some (p, r)) = start ≤ p.offset

pub copy_body-Copied :
    (f : ℕ) (o : Outside) (chunk_bytes : ℕ) (block response : ByteRange) (reader : Reader)
    (p : Progress)
    → 0 < chunk_bytes
    → reader_reads reader ≤ f
    → Copied p.offset (copy_body f o chunk_bytes block response reader p)
unfolding copy_body
copy_body-Copied zero o chunk_bytes block response reader p pos h =
    omega (arith, reader_reads-pos reader)
copy_body-Copied (suc f) o chunk_bytes block response reader p pos h =
    let (reader', chunk, end) = read chunk_bytes reader in
    elim (Bool-cases (ltb block.end p.offset)) [
      | inl e ↦ rw e (omega arith)
      | inr e ↦ rw e (
          next_Copied _ (take_chunk o response chunk p).0 (take_chunk o response chunk p).1 end
            (take_chunk-offset o response chunk p)
            (λ same p'.
              copy_body-Copied f o chunk_bytes block response reader' p' pos
                (omega (arith, (read-Reads chunk_bytes reader pos).1 same))))
    ]
  where
    next_Copied :
        (continue : Progress → Option (Progress × Result CacheError ReadEnd)) (p' : Progress)
        (failure : Option CacheError) (end : ReadEnd)
        → p.offset ≤ p'.offset
        → (end ≡ more → (p'' : Progress) → Copied p''.offset (continue p''))
        → Copied p.offset (next_read (p', failure) end continue)
    next_Copied continue p' (some e) end k rest = k
    next_Copied continue p' none more k rest = later (continue p') (rest refl p')
      where
        later :
            (r : Option (Progress × Result CacheError ReadEnd))
            → Copied p'.offset r
            → Copied p.offset r
        later none c = c
        later (some (p'', r)) c = omega arith
    next_Copied continue p' none eof k rest = k
    next_Copied continue p' none unexpected_eof k rest = k
    next_Copied continue p' none broken k rest = k

abbrev pub IsDone : Option (Progress × Option BuildError) → Type 0
IsDone r = (p : Progress) × (e : Option BuildError) × (r ≡ some (p, e))

after_copy-IsDone :
    (end start attempts : ℕ) (copied : Option (Progress × Result CacheError ReadEnd))
    (continue : ℕ → Progress → Option (Progress × Option BuildError))
    → Copied start copied
    → ((k : ℕ) (p : Progress)
        → k ≤ 3
        → p.offset ≤ end
        → 4 * (end + 1 - p.offset) + (4 - k) < 4 * (end + 1 - start) + (4 - attempts)
        → IsDone (continue k p))
    → start ≤ end
    → attempts ≤ 3
    → IsDone (after_copy end start attempts copied continue)
after_copy-IsDone end start attempts none continue c rest h k = elim c [ ]
after_copy-IsDone end start attempts (some (p, err e)) continue c rest h k =
    (p, some (cache_failed e), refl)
after_copy-IsDone end start attempts (some (p, ok read_err)) continue c rest h k =
    let n : ℕ = if ltb start p.offset then 0 else attempts + 1 in
    elim (Bool-cases (ltb end p.offset)) [
      | inl e ↦ rw e (p, none, refl)
      | inr e ↦ elim (Bool-cases (ltb 3 n)) [
        | inl g ↦ rw (e, g) (p, some (read_failed (unexpected read_err)), refl)
        | inr g ↦ rw (e, g) (rest n p (ground arith) (ground arith) (ground arith))
      ]
    ]

after_open-IsDone :
    (end start attempts : ℕ) (opened : Result OriginError Reader) (p : Progress)
    (continue : ℕ → Progress → Option (Progress × Option BuildError))
    (copied : Reader → Option (Progress × Option BuildError))
    → ((reader : Reader) → IsDone (copied reader))
    → (attempts + 1 ≤ 3 → IsDone (continue (attempts + 1) p))
    → IsDone (after_open attempts opened p continue copied)
after_open-IsDone end start attempts (ok reader) p continue copied h k = h reader
after_open-IsDone end start attempts (err e) p continue copied h k =
    elim (Bool-cases (ltb 3 (attempts + 1))) [
      | inl g ↦ rw g (p, some (open_failed e), refl)
      | inr g ↦ rw g (k (ground arith))
    ]

pub fetch-IsDone :
    (f : ℕ) (o : Outside) (sizes : Sizes) (block response : ByteRange) (calls attempts : ℕ)
    (p : Progress)
    → 0 < sizes.chunk_bytes
    → attempts ≤ 3
    → 4 * (block.end + 1 - p.offset) + (4 - attempts) < f
    → IsDone (fetch f o sizes block response calls attempts p)
unfolding fetch
fetch-IsDone zero o sizes block response calls attempts p pos h k = elim k [ ]
fetch-IsDone (suc f) o sizes block response calls attempts p pos h k =
    elim (Bool-cases (ltb block.end p.offset)) [
      | inl e ↦ rw e (p, none, refl)
      | inr e ↦ rw e (
          after_open-IsDone block.end p.offset attempts _ p _ _
            (λ reader.
              after_copy-IsDone block.end p.offset attempts _ _
                (copy_body-Copied (reader_reads reader) o sizes.chunk_bytes block response reader p
                  pos (omega arith))
                (λ n p' few before less.
                  fetch-IsDone f o sizes block response (suc calls) n p' pos few (omega arith))
                (ground arith) h)
            (λ few.
              fetch-IsDone f o sizes block response (suc calls) (attempts + 1) p pos few
                (ground arith)))
    ]
