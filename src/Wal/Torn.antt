-- ===== src/Wal/Torn.antt =====
-- A `.pyrowal` file that a crash cut short: lib/pyroduct/src/format/wal.rs, `WalFrameIter::next`.
use pyroduct.Base.{
  ℕ, zero, suc, ◌+◌, ◌-◌, ◌%◌, ◌<◌, ◌≡◌, ◌≢◌, refl, ap, ◌∙◌, inl, inr, arith, List, [], ◌∷◌, ◌++◌,
}
use pyroduct.Base.{
  length, take, drop, ltb, le→ltb_false, lt→ltb, Bool-cases, All, length-append, length-take,
}
use pyroduct.Header.{Slice, align}
use pyroduct.Wal.{
  align16, zeros, prefix, record_bytes, finished, panicked, next, framed, ended, panic, with_frame,
  frames_from, frames,
}
use pyroduct.Wal.Ref.{PyroRef, IsPacket, try_from_slice, header_len-append}
use pyroduct.Wal.Reading.{
  Records, records_bytes, layout, packet_frame, PacketRecord, file_at, next-packet, next-prefix,
  align16_lem, length-record_bytes, length_parts, length-zeros, length-prefix,
}
use pyroduct.Wal.Recovery.{with_frames, frames-records, length-records, with_frames-ended}

aligned_records : (rs : Records) → length (records_bytes rs) % 16 ≡ 0
unfolding records_bytes
aligned_records [] = refl
aligned_records ((i, r) ∷ rs) = omega (
  arith,
  aligned_records rs,
  length-append (record_bytes i r) (records_bytes rs),
  length-record_bytes i r,
  align16_lem (length r),
)

next_past : (s : Slice) (offset : ℕ) → length s.bytes < offset → next s offset ≡ panicked
unfolding next
next_past s offset past = rw (lt→ltb (length s.bytes) offset past) refl

past_end :
    (fuel : ℕ) (s : Slice) (offset : ℕ)
    → 0 < fuel
    → length s.bytes < offset
    → frames_from fuel s offset ≡ ([], panic)
unfolding frames_from
past_end zero s offset pos past = absurd (omega arith)
past_end (suc fuel) s offset pos past = rw (next_past s offset past, frames_from) refl

take-drop : (n : ℕ) (xs : List ℕ) → take n xs ++ drop n xs ≡ xs
take-drop zero xs = refl
take-drop (suc n) [] = refl
take-drop (suc n) (x ∷ xs) = rw (take-drop n xs) refl

-- Part of a packet is no packet.
part_refused :
    (addr : ℕ) (r : PyroRef) (m a b : ℕ)
    → IsPacket r
    → m < length r
    → framed a b (try_from_slice (record { addr = addr; bytes = take m r })) ≡ finished
unfolding framed try_from_slice
part_refused addr r m a b p short =
    ground (arith, length-take m r, header_len-append (take m r) (drop m r), take-drop m r)

take-past : (xs ys : List ℕ) (n m : ℕ) → n ≡ length xs + m → take n (xs ++ ys) ≡ xs ++ take m ys
take-past [] ys n m e = ap (λ k. take k ys) (omega arith)
take-past (x ∷ xs) ys zero m e = absurd (omega arith)
take-past (x ∷ xs) ys (suc n) m e = rw (take-past xs ys n m (omega arith)) refl

-- Less than a prefix is no frame.
short_finished :
    (addr : ℕ) (front rest : List ℕ)
    → length rest < 16
    → next (file_at addr front rest) (length front) ≡ finished
unfolding next
short_finished addr front rest short =
    rw
      (
        le→ltb_false (length (front ++ rest)) (length front)
            (omega (arith, length-append front rest)),
        lt→ltb (length (front ++ rest) - length front) 16 (omega (arith, length-append front rest)),
      )
      refl

module _ (addr : ℕ) (aligned : addr % align ≡ 0) (not_null : addr ≢ 0) (rs : Records)
    (packets : All PacketRecord rs) where
  torn_length :
      (i : ℕ) (r : PyroRef) (k : ℕ)
      → length (records_bytes rs ++ (prefix i ++ (r ++ zeros k)))
        ≡ length (records_bytes rs) + (16 + (length r + k))
  torn_length i r k = omega (
    arith,
    length_parts (records_bytes rs) i (r ++ zeros k),
    length-append r (zeros k),
    length-zeros k,
  )

  -- A file of packets that ends within the padding of its last record: every packet is read, but the loop
  -- ends in a panic, at the next call of `next`. The buffer lies on a 16-byte boundary, not at address 0.
  pub frames-torn_padding :
      (i : ℕ) (r : PyroRef) (k : ℕ)
      → IsPacket r
      → length r + k < align16 (length r)
      → frames (record { addr = addr; bytes = records_bytes rs ++ (prefix i ++ (r ++ zeros k)) })
        ≡ with_frames (layout 0 rs) (packet_frame (length (records_bytes rs)) i r ∷ [], panic)
  unfolding frames_from
  frames-torn_padding i r k p short =
      frames-records addr aligned not_null rs _ packets
      ∙ ap (with_frames (layout 0 rs)) (
          rw
            (
              next-packet addr aligned not_null (records_bytes rs) i r (zeros k)
                  (aligned_records rs) p,
              frames_from,
            )
            (ap (with_frame (packet_frame (length (records_bytes rs)) i r)) (
              past_end _ _ _ (omega (arith, torn_length i r k, length-records rs))
                (omega (arith, torn_length i r k)))))

  torn_packet_finished :
      (i : ℕ) (r : PyroRef) (n : ℕ)
      → IsPacket r
      → n < 16 + length r
      → next (file_at addr (records_bytes rs) (take n (prefix i ++ r))) (length (records_bytes rs))
        ≡ finished
  torn_packet_finished i r n p short = elim (Bool-cases (ltb n 16)) [
    | inl few ↦
        short_finished addr (records_bytes rs) (take n (prefix i ++ r))
          (ground (arith, few, length-take n (prefix i ++ r)))
    | inr many ↦ rw (take-past (prefix i) r n (n - 16) (ground (arith, many, length-prefix i))) (
        next-prefix addr (records_bytes rs) i (take (n - 16) r)
        ∙ part_refused _ r (n - 16) _ _ p (ground (arith, many)))
  ]

  -- A file of packets that ends within the prefix or the packet of its last record: the records before it
  -- are read, and the loop reaches its end. The buffer lies on a 16-byte boundary, not at address 0.
  pub frames-torn_packet :
      (i : ℕ) (r : PyroRef) (n : ℕ)
      → IsPacket r
      → n < 16 + length r
      → frames (record { addr = addr; bytes = records_bytes rs ++ take n (prefix i ++ r) })
        ≡ (layout 0 rs, ended)
  unfolding frames_from
  frames-torn_packet i r n p short =
      frames-records addr aligned not_null rs _ packets
      ∙ ap (with_frames (layout 0 rs)) (rw (torn_packet_finished i r n p short, frames_from) refl)
      ∙ with_frames-ended (layout 0 rs)
