-- ===== src/App/Build/Outcome.antt =====
-- The answer of buildHeadTailBlock, in terms of the file that the origin serves.
use emby_range_cache_proxy.Base.{
  ℕ, ◌+◌, ◌-◌, ◌≤◌, ◌<◌, ◌≡◌, ◌≢◌, refl, ap, subst, ◌∙◌, Bool, true, false, Option, none, some,
  Result, ok, err, [], arith, take, drop, min, max, Bool-cases, Option-cases, inl, inr, ltb,
}
use emby_range_cache_proxy.Base.Texts.{Text}
use emby_range_cache_proxy.Base.Slices.{between, IsPrefix}
use emby_range_cache_proxy.Model.{ByteRange}
use emby_range_cache_proxy.Disk.{Disk, temp_file, content_at, write_file}
use emby_range_cache_proxy.Disk.Files.{same_path_refl}
use emby_range_cache_proxy.Disk.Contents.{content_at-write_file}
use emby_range_cache_proxy.HeadTail.{
  CacheError, BlockWriter, Faults, valid_key, valid_block_name, stage_block, commit,
  evict_if_needed,
}
use emby_range_cache_proxy.HeadTail.Stored.{Holds, commit-Holds}
use emby_range_cache_proxy.Origin.Bodies.{HonestAnswer}
use emby_range_cache_proxy.App.Build.{
  Outside, Sizes, BuildError, insufficient_disk_space, cache_failed, Progress, fetch_fuel,
  has_space, finish_build, run_build, build_head_tail_block,
}
use emby_range_cache_proxy.App.Build.Ends.{fetch-IsDone}
use emby_range_cache_proxy.App.Build.Chunks.{IsSoFar, writer_with}
use emby_range_cache_proxy.App.Build.Whole.{Fetched, fetch-Fetched}

-- The writer of a block that was staged, and its temporary file, which is empty.
abbrev Staged :
    ℕ → ℕ → Text → Text → ByteRange → Disk → Disk × Result CacheError BlockWriter → Type 0
Staged tmp now key name r d (d', err e) = Unit
Staged tmp now key name r d (d', ok w) =
    (r.start ≤ r.end)
    × (w ≡ record {
      key = key;
      block_name = name;
      byte_range = r;
      tmp = tmp;
      bytes_written = 0;
      closed = false;
    })
    × (d' ≡ write_file (temp_file tmp) [] now d)

stage_block-Staged :
    (f : Faults) (tmp now : ℕ) (key name : Text) (r : ByteRange) (d : Disk)
    → Staged tmp now key name r d (stage_block f tmp now key name r d)
unfolding stage_block
stage_block-Staged f tmp now key name r d = elim (Bool-cases (valid_key key)) [
  | inr e ↦ rw e tt
  | inl e ↦ elim (Bool-cases (valid_block_name name)) [
    | inr g ↦ rw (e, g) tt
    | inl g ↦ elim (Bool-cases (ltb r.end r.start)) [
      | inl h ↦ rw (e, g, h) tt
      | inr h ↦ elim (Bool-cases f.create_fails) [
        | inl k ↦ rw (e, g, h, k) tt
        | inr k ↦ rw (e, g, h, k) (ground arith, refl, refl)
      ]
    ]
  ]
]

some_is_none : (e : BuildError) → some e ≢ none
some_is_none e k = cc

module _ (content : Text) (block response : ByteRange) (has_writer : Bool) (key name : Text) where
  -- After an answer without an error the block is stored, before the eviction, with the file's bytes,
  -- and the client has its whole range.
  abbrev pub Complete : ℕ → Disk → Text → Type 0
  Complete max_bytes d sent =
      (stored : Disk) × Holds key name block (between block.start (block.end + 1) content) stored
      × (d ≡ evict_if_needed max_bytes stored)
      × (has_writer ≡ true → sent ≡ between response.start (response.end + 1) content)

  abbrev Finished : ℕ → Disk × Text × Option BuildError → Type 0
  Finished max_bytes (d, sent, e) =
      IsPrefix sent (between response.start (response.end + 1) content)
      × (e ≡ none → Complete max_bytes d sent)

  module _ (tmp : ℕ) (ordered : response.start ≤ response.end)
      (inside : has_writer ≡ true
        → (block.start ≤ response.start) × (response.end ≤ block.end)) where
    started-IsSoFar :
        (now : ℕ) (w : BlockWriter) (d d' : Disk)
        → Staged tmp now key name block d (d', ok w)
        → IsSoFar content block response has_writer key name tmp (record {
          offset = block.start;
          writer = w;
          disk = d';
          sent = [];
          is_open = has_writer;
          response_err = false;
        })
    started-IsSoFar now w d d' (long, same, staged) = record {
      from = omega arith;
      upto = omega arith;
      same =
          same
          ∙ ap (writer_with content block response has_writer key name tmp)
              (nothing block.start block.start (omega arith));
      written =
          ap (content_at (temp_file tmp)) staged
          ∙ content_at-write_file (temp_file tmp) (temp_file tmp) [] now d
          ∙ (rw (same_path_refl (temp_file tmp)) (
              ap (λ k. some (take k (drop block.start content)))
                (nothing block.start block.start (omega arith))));
      answer = record {
        right = refl;
        upto_here = λ e.
            let (from, upto) = inside e in
            ap (λ k. take k (drop response.start content))
              (nothing (max response.start (min block.start (response.end + 1))) response.start
                (omega arith));
        is_open_unless = λ e. refl;
      };
    }
      where
        nothing : (a b : ℕ) → a ≤ b → 0 ≡ a - b
        nothing a b h = omega arith

    finish_build-Finished :
        (o : Outside) (sizes : Sizes) (p : Progress) (failure : Option BuildError)
        → Fetched content block response has_writer key name tmp ordered (some (p, failure))
        → Finished sizes.max_bytes (finish_build o sizes (p, failure))
    unfolding finish_build
    finish_build-Finished o sizes p (some e) h = (h, λ k. elim (some_is_none e k) [ ])
    finish_build-Finished o sizes p none (s, past) =
        elim (Option-cases (commit o.faults o.now p.writer p.disk).2) [
          | inr (e, f) ↦ rw (f, finish_build) (s.answer.right, λ k. elim (some_is_none _ k) [ ])
          | inl f ↦ elim (Bool-cases p.response_err) [
            | inl g ↦ rw (f, g, finish_build) (s.answer.right, λ k. elim (some_is_none _ k) [ ])
            | inr g ↦
                let here : p.offset ≡ block.end + 1 = omega (arith, s.upto) in
                let bytes : content_at (temp_file p.writer.tmp) p.disk
                    ≡ some (between block.start (block.end + 1) content) =
                  ap (λ w. content_at (temp_file w.tmp) p.disk) s.same
                  ∙ s.written
                  ∙ ap (λ k. some (between block.start k content)) here in
                let (d, w, e) = commit o.faults o.now p.writer p.disk in
                rw (f, g, finish_build)
                  (
                    s.answer.right,
                    λ k. (
                      d,
                      subst
                          (λ w.
                            Holds w.key w.block_name w.byte_range
                              (between block.start (block.end + 1) content) d)
                          s.same
                          (commit-Holds o.faults o.now p.writer p.disk
                            (between block.start (block.end + 1) content) bytes f),
                      refl,
                      λ given.
                          let (from, upto) = inside given in
                          s.answer.upto_here (s.answer.is_open_unless g ∙ given)
                          ∙ ap (λ k. between response.start k content) (omega arith),
                    ),
                  )
          ]
        ]

    run_build-Finished :
        (o : Outside) (sizes : Sizes) (d : Disk) (staged : Disk × Result CacheError BlockWriter)
        → ((n : ℕ) → HonestAnswer content (o.answers n))
        → 0 < sizes.chunk_bytes
        → Staged tmp o.now key name block d staged
        → (r : Disk × Text × Option BuildError) × (run_build o sizes block response has_writer
              staged
            ≡ some r)
          × Finished sizes.max_bytes r
    run_build-Finished o sizes d (d', err e) honest pos s =
        ((d', [], some (cache_failed e)), refl, (refl, λ k. elim (some_is_none _ k) [ ]))
    run_build-Finished o sizes d (d', ok w) honest pos s =
        let p : Progress = record {
          offset = block.start;
          writer = w;
          disk = d';
          sent = [];
          is_open = has_writer;
          response_err = false;
        } in
        let n = fetch_fuel block in
        let long = s.0 in
        let (p', e, done) =
          fetch-IsDone n o sizes block response 0 0 p pos (omega arith) (omega arith) in
        let fetched =
          fetch-Fetched content block response has_writer key name tmp ordered n o sizes 0 0 p
            honest pos (started-IsSoFar o.now w d d' s) in
        let end =
          finish_build-Finished o sizes p' e
            (subst (Fetched content block response has_writer key name tmp ordered) done fetched) in
        rw (done, run_build) (finish_build o sizes (p', e), refl, end)

  -- If the origin sends what its headers name, the buffer is not empty, and the response's range is not
  -- empty and, if there is a response, lies in the block: the build ends; whatever failed, the client
  -- was sent the first bytes of its range, or all of them; and if there was no error, the block is in
  -- the cache with the file's bytes when the eviction starts, and the client, if there is one, has its
  -- whole range.
  pub build_head_tail_block-Complete :
      (o : Outside) (sizes : Sizes) (tmp : ℕ) (d : Disk)
      → ((n : ℕ) → HonestAnswer content (o.answers n))
      → 0 < sizes.chunk_bytes
      → response.start ≤ response.end
      → (has_writer ≡ true → (block.start ≤ response.start) × (response.end ≤ block.end))
      → (d' : Disk) × (sent : Text) × (e : Option BuildError) × (build_head_tail_block o sizes tmp
            key name block response has_writer d
          ≡ some (d', sent, e))
        × IsPrefix sent (between response.start (response.end + 1) content)
        × (e ≡ none → Complete sizes.max_bytes d' sent)
  unfolding build_head_tail_block
  build_head_tail_block-Complete o sizes tmp d honest pos ordered inside =
      elim (Bool-cases (has_space sizes o.free block)) [
        | inr e ↦
            rw e (d, [], some insufficient_disk_space, refl, refl, λ k. elim (some_is_none _ k) [ ])
        | inl e ↦
            let ((d', sent, failure), same, finished) =
              run_build-Finished tmp ordered inside o sizes d
                (stage_block o.faults tmp o.now key name block d) honest pos
                (stage_block-Staged o.faults tmp o.now key name block d) in
            rw e (d', sent, failure, same, finished.0, finished.1)
      ]
