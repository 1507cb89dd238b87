-- ===== src/Origin/Ends.antt =====
-- What `io.EOF` says of a reader of OpenRange: nothing is missing.
use emby_range_cache_proxy.Base.{
  ℕ, zero, suc, ◌-◌, ◌≤◌, ◌<◌, ◌≡◌, ◌≢◌, refl, sym, ap, ◌∙◌, true, false, [], ◌∷◌, ◌++◌, arith,
  ◌==◌, min, length, drop, Bool-cases, inl, inr, append-cancel-nil, length-append,
  append-cancel-nil,
}
use emby_range_cache_proxy.Base.Texts.{Text}
use emby_range_cache_proxy.Ranges.{is_empty}
use emby_range_cache_proxy.Origin.{
  ReadEnd, more, eof, unexpected_eof, broken, Body, read_body, whole_body, bounded, bounded_end,
  read, next_size, after_read, copy_reader,
}
use emby_range_cache_proxy.Origin.Bodies.{read_body-bytes}

-- A reader of a bounded body says `io.EOF` only after the last of its bytes.
abbrev pub EndsFull : ℕ → Text × ReadEnd → Type 0
EndsFull remaining (bytes, last) = last ≡ eof → length bytes ≡ remaining

pub copy_reader-EndsFull :
    (f p : ℕ) (b : Body) (remaining : ℕ)
    → 0 < p
    → EndsFull remaining (copy_reader f p (bounded b remaining))
unfolding copy_reader read bounded_end
copy_reader-EndsFull zero p b remaining h = λ e. elim (not_eof e) [ ]
  where
    not_eof : more ≢ eof
    not_eof e = cc
copy_reader-EndsFull (suc f) p b remaining h = elim (Bool-cases (remaining == 0)) [
  | inl e ↦ rw e (λ k. ground arith)
  | inr e ↦
      let (b', bytes, end) = read_body (min p remaining) b in
      let (same, size) = read_body-bytes (min p remaining) b in
      rw e (
        full_read b' bytes end (omega (arith, size))
          (copy_reader-EndsFull f p b' (remaining - length bytes) h))
]
  where
    full_read :
        (b' : Body) (bytes : Text) (end : ReadEnd)
        → length bytes ≤ remaining
        → EndsFull
            (remaining - length bytes)
            (copy_reader f p (bounded b' (remaining - length bytes)))
        → EndsFull remaining (
            after_read bytes
              (bounded_end (remaining - length bytes) end)
              (copy_reader f p (bounded b' (remaining - length bytes))))
    full_read b' bytes more k rest = λ e. omega (
      arith,
      rest e,
      length-append bytes (copy_reader f p (bounded b' (remaining - length bytes))).0,
    )
    full_read b' bytes eof k rest = λ e. ground (arith, k, e)
    full_read b' bytes unexpected_eof k rest = λ e. ground (arith, e)
    full_read b' bytes broken k rest = λ e. ground (arith, e)

read_body-eof :
    (p : ℕ) (b : Body)
    → (read_body p b).2 ≡ eof
    → ((read_body p b).0.bytes ≡ []) × (b.breaks ≡ false)
unfolding read_body
read_body-eof p b e =
    let rest = drop (min p (next_size b.sizes (length b.bytes))) b.bytes in
    (nothing_left rest (ground (arith, e)), ground (arith, e))
  where
    nothing_left : (t : Text) → is_empty t ≡ true → t ≡ []
    nothing_left [] h = refl
    nothing_left (c ∷ t) h = cc

read_body-breaks : (p : ℕ) (b : Body) → (read_body p b).0.breaks ≡ b.breaks
unfolding read_body
read_body-breaks p b = refl

-- A body that is read to its end was read whole, and did not break.
abbrev EndsWhole : Body → Text × ReadEnd → Type 0
EndsWhole b (bytes, last) = last ≡ eof → (bytes ≡ b.bytes) × (b.breaks ≡ false)

pub copy_reader-EndsWhole : (f p : ℕ) (b : Body) → EndsWhole b (copy_reader f p (whole_body b))
unfolding copy_reader read
copy_reader-EndsWhole zero p b = λ e. absurd (not_eof e)
  where
    not_eof : more ≢ eof
    not_eof e = cc
copy_reader-EndsWhole (suc f) p b =
    whole_read (read_body p b).0 (read_body p b).1 (read_body p b).2 (read_body-bytes p b).0
      (read_body-eof p b) (copy_reader-EndsWhole f p (read_body p b).0) (read_body-breaks p b)
  where
    whole_read :
        (b' : Body) (bytes : Text) (end : ReadEnd)
        → b.bytes ≡ bytes ++ b'.bytes
        → (end ≡ eof → (b'.bytes ≡ []) × (b.breaks ≡ false))
        → EndsWhole b' (copy_reader f p (whole_body b'))
        → b'.breaks ≡ b.breaks
        → EndsWhole b (after_read bytes end (copy_reader f p (whole_body b')))
    whole_read b' bytes more same ended rest kept =
        λ e. let (all, fine) = rest e in (ap (◌++◌ bytes) all ∙ sym same, sym kept ∙ fine)
    whole_read b' bytes eof same ended rest kept = λ e.
        let (none_left, fine) = ended refl in
        (sym (append-cancel-nil bytes) ∙ ap (◌++◌ bytes) (sym none_left) ∙ sym same, fine)
    whole_read b' bytes unexpected_eof same ended rest kept = λ e. absurd (other_end e)
      where
        other_end : unexpected_eof ≢ eof
        other_end e = cc
    whole_read b' bytes broken same ended rest kept = λ e. absurd (other_end e)
      where
        other_end : broken ≢ eof
        other_end e = cc
