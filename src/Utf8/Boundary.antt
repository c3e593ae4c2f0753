-- ===== src/Utf8/Boundary.antt =====
-- Where the cuts of Utf8.antt fall.
use ft_irc.Base.{
  ℕ, zero, suc, ◌≤◌, ◌≡◌, ◌-◌, leb, false, inl, inr, ◌⊎◌, refl, if_both, Text, length, length-take,
  take, take_all, arith, ltb, not, ◌&&◌, ◌==◌, if◌then◌else◌, ==_iff, Bool-cases, ◌<◌, Bool, true,
}
use ft_irc.Utf8.{byte_at, is_continuation, back_off, cut_line, retreat, truncate_utf8}

back_off_le : (rounds : ℕ) (s : Text) (cut : ℕ) → back_off rounds s cut ≤ cut
unfolding back_off
back_off_le zero s cut = omega arith
back_off_le (suc rounds) s cut = ground (arith, back_off_le rounds s (cut - 1))

-- At most so many bytes are dropped, and fewer only where a character begins.
back_off-boundary :
    (rounds : ℕ) (s : Text) (cut : ℕ)
    → rounds ≤ cut
    → (cut - rounds ≤ back_off rounds s cut)
      × ((back_off rounds s cut ≡ cut - rounds)
          ⊎ (is_continuation (byte_at s (back_off rounds s cut)) ≡ false))
unfolding back_off
back_off-boundary zero s cut h = (omega arith, inl (omega arith))
back_off-boundary (suc rounds) s cut h =
    let (least, or) = back_off-boundary rounds s (cut - 1) (omega (arith, h)) in
    if_both
      (λ n.
        (cut - suc rounds ≤ n) × ((n ≡ cut - suc rounds) ⊎ (is_continuation (byte_at s n) ≡ false)))
      (is_continuation (byte_at s cut)) _ _
      (λ e.
        (omega (arith, least, h), elim or [ inl q ↦ inl (omega (arith, q, h)) | inr q ↦ inr q ]))
      (λ e. (omega arith, inr e))

-- What the loop passes over.
back_off-passes :
    (rounds : ℕ) (s : Text) (cut i : ℕ)
    → back_off rounds s cut < i
    → i ≤ cut
    → is_continuation (byte_at s i) ≡ true
unfolding back_off
back_off-passes zero s cut i above below = absurd (omega (arith, above, below))
back_off-passes (suc rounds) s cut i above below =
    elim (Bool-cases (is_continuation (byte_at s cut))) [
      | inl e ↦ elim (Bool-cases (i == cut)) [
        | inl q ↦ rw ((==_iff i cut).0 q) e
        | inr q ↦
            back_off-passes rounds s (cut - 1) i (ground (arith, above, e))
              (ground (arith, below, q))
      ]
      | inr e ↦ absurd (ground (arith, above, below, e))
    ]

-- Whether the byte i is one that a cut behind n bytes drops, of the first so many.
abbrev pub is_dropped : ℕ → ℕ → ℕ → Bool
is_dropped n max_bytes i = ltb n i && leb i max_bytes

-- Only continuation bytes are dropped, if the cut passes over no others.
none_dropped :
    (s : Text) (n max_bytes i : ℕ)
    → (n < i → i ≤ max_bytes → is_continuation (byte_at s i) ≡ true)
    → is_dropped n max_bytes i && not (is_continuation (byte_at s i)) ≡ false
none_dropped s n max_bytes i passes = elim (Bool-cases (is_dropped n max_bytes i)) [
  | inl e ↦ rw (passes (ground (arith, e)) (ground (arith, e))) (ground (arith, e))
  | inr e ↦ rw e refl
]

length-cut_line : (s : Text) → length (cut_line s) ≤ 510
unfolding cut_line
length-cut_line s =
    if_both (λ (t : Text). length t ≤ 510) (leb (length s) 510) _ _ (λ e. ground (arith, e))
      (λ e. cut_short)
  where
    cut_short : length (take (back_off 3 s 510) s) ≤ 510
    cut_short = rw (length-take (back_off 3 s 510) s) (ground (arith, back_off_le 3 s 510))

-- What is left of a line, before its length is bounded.
cut_line-prefix :
    (s : Text) (i : ℕ)
    → let n : ℕ = length (cut_line s) in
      (take n s ≡ cut_line s)
      × (if leb (length s) 510
          then cut_line s ≡ s
          else (507 ≤ n)
            × ((n ≡ 507) ⊎ (is_continuation (byte_at s n) ≡ false))
            × (is_dropped n 510 i && not (is_continuation (byte_at s i)) ≡ false))
unfolding cut_line
cut_line-prefix s i = elim (Bool-cases (leb (length s) 510)) [
  | inl e ↦ rw (e, cut_line) (take_all (length s) s (omega arith), refl)
  | inr e ↦
      rw (e, cut_line, cut_here e)
        (let (least, or) = back_off-boundary 3 s 510 (omega arith) in
          (refl, (least, or, none_dropped s _ 510 i (back_off-passes 3 s 510 i))))
]
  where
    cut_here : leb (length s) 510 ≡ false → length (take (back_off 3 s 510) s) ≡ back_off 3 s 510
    cut_here e = rw (length-take (back_off 3 s 510) s) (ground (arith, e, back_off_le 3 s 510))

-- A line that is cut has at most 510 bytes and is a prefix of the line: the whole line if that
-- has at most 510 bytes, and otherwise at least its first 507 bytes, and it ends after 507 bytes
-- or where the next byte is no continuation byte of UTF-8; and the bytes at the indices above
-- its length, up to 510, are continuation bytes.
pub cut_line-boundary :
    (s : Text) (i : ℕ)
    → let n : ℕ = length (cut_line s) in
      (n ≤ 510)
      × (take n s ≡ cut_line s)
      × (if leb (length s) 510
          then cut_line s ≡ s
          else (507 ≤ n)
            × ((n ≡ 507) ⊎ (is_continuation (byte_at s n) ≡ false))
            × (is_dropped n 510 i && not (is_continuation (byte_at s i)) ≡ false))
cut_line-boundary s i =
    let (prefix, kept) = cut_line-prefix s i in (length-cut_line s, prefix, kept)

retreat_le : (s : Text) (cut : ℕ) → retreat s cut ≤ cut
unfolding retreat
retreat_le s zero = omega arith
retreat_le s (suc cut) = ground (arith, retreat_le s cut)

retreat-boundary :
    (s : Text) (cut : ℕ)
    → (retreat s cut ≡ 0) ⊎ (is_continuation (byte_at s (retreat s cut)) ≡ false)
unfolding retreat
retreat-boundary s zero = inl refl
retreat-boundary s (suc cut) =
    if_both (λ n. (n ≡ 0) ⊎ (is_continuation (byte_at s n) ≡ false))
      (is_continuation (byte_at s (suc cut))) _ _ (λ e. retreat-boundary s cut) (λ e. inr e)

-- What `retreat` passes over.
retreat-passes :
    (s : Text) (cut i : ℕ) → retreat s cut < i → i ≤ cut → is_continuation (byte_at s i) ≡ true
unfolding retreat
retreat-passes s zero i above below = absurd (omega arith)
retreat-passes s (suc cut) i above below =
    elim (Bool-cases (is_continuation (byte_at s (suc cut)))) [
      | inl e ↦ elim (Bool-cases (i == suc cut)) [
        | inl q ↦ rw ((==_iff i (suc cut)).0 q) e
        | inr q ↦ retreat-passes s cut i (ground (arith, above, e)) (ground (arith, below, q))
      ]
      | inr e ↦ absurd (ground (arith, above, below, e))
    ]

-- A truncated text is a prefix of the text: the whole text if it has at most so many bytes; and
-- otherwise it has at most so many bytes and is empty or ends where the next byte is no
-- continuation byte of UTF-8, and no more is dropped than that takes: the bytes at the indices
-- above its length, up to the limit, are continuation bytes.
pub truncate_utf8-boundary :
    (s : Text) (max_bytes i : ℕ)
    → let n : ℕ = length (truncate_utf8 s max_bytes) in
      (take n s ≡ truncate_utf8 s max_bytes)
      × (if leb (length s) max_bytes
          then truncate_utf8 s max_bytes ≡ s
          else (n ≤ max_bytes)
            × ((n ≡ 0) ⊎ (is_continuation (byte_at s n) ≡ false))
            × (is_dropped n max_bytes i && not (is_continuation (byte_at s i)) ≡ false))
unfolding truncate_utf8
truncate_utf8-boundary s max_bytes i = elim (Bool-cases (leb (length s) max_bytes)) [
  | inl e ↦ rw (e, truncate_utf8) (take_all (length s) s (omega arith), refl)
  | inr e ↦
      rw (e, truncate_utf8, cut_here e)
        (
          refl,
          (
            retreat_le s max_bytes,
            retreat-boundary s max_bytes,
            none_dropped s _ max_bytes i (retreat-passes s max_bytes i),
          ),
        )
]
  where
    cut_here :
        leb (length s) max_bytes ≡ false
        → length (take (retreat s max_bytes) s) ≡ retreat s max_bytes
    cut_here e =
        rw (length-take (retreat s max_bytes) s) (ground (arith, e, retreat_le s max_bytes))
