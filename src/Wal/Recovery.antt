-- ===== src/Wal/Recovery.antt =====
-- What lib/pyroduct/src/format/wal.rs recovers from the files that its writer wrote.
use pyroduct.Base.{
  ℕ, suc, ◌+◌, ◌-◌, ◌%◌, ◌^◌, ◌≤◌, ◌≡◌, ◌≢◌, refl, sym, ap, ◌∙◌, arith, List, [], ◌∷◌, ◌++◌, map,
}
use pyroduct.Base.{length, le→ltb_false, lt→ltb, All, length-append, append_assoc, append-nil}
use pyroduct.Base.Outcome.{ok}
use pyroduct.Header.{Slice, align}
use pyroduct.Wal.{
  align16, record_bytes, WalWriter, new_writer, append, append_batch, write_batch, finished, frame,
  WalFrame, next, Ending, ended, with_frame, frames_from, frames, view_at, views, recover_all,
}
use pyroduct.Wal.Ref.{PyroRef}
use pyroduct.Wal.Reading.{
  Records, records_bytes, layout, packet_frame, PacketRecord, next-record, view_at-record,
  align16_lem, length-record_bytes,
}

-- Fuel for the records and some more.
abbrev pub rounds : Records → ℕ → ℕ
rounds [] n = n
rounds (r ∷ rs) n = suc (rounds rs n)

rounds_lem : (rs : Records) (n : ℕ) → rounds rs n ≡ length rs + n
rounds_lem [] n = omega arith
rounds_lem (r ∷ rs) n = omega (arith, rounds_lem rs n)

abbrev pub with_frames : List WalFrame → List WalFrame × Ending → List WalFrame × Ending
with_frames [] rest = rest
with_frames (f ∷ fs) rest = with_frame f (with_frames fs rest)

pub with_frames-ended : (fs : List WalFrame) → with_frames fs ([], ended) ≡ (fs, ended)
with_frames-ended [] = refl
with_frames-ended (f ∷ fs) = rw (with_frames-ended fs) refl

pub split_first :
    (front : List ℕ) (i : ℕ) (r : PyroRef) (rs : Records) (tail : List ℕ)
    → front ++ ((record_bytes i r ++ records_bytes rs) ++ tail)
      ≡ front ++ (record_bytes i r ++ (records_bytes rs ++ tail))
split_first front i r rs tail =
    ap (λ t. front ++ t) (append_assoc (record_bytes i r) (records_bytes rs) tail)

-- What a record comes back as: its index cut to 32 bits, and the packet.
abbrev pub stored_record : ℕ × PyroRef → ℕ × PyroRef
stored_record (i, r) = (i % 2 ^ 32, r)

pub length-records : (rs : Records) → length rs ≤ length (records_bytes rs)
unfolding records_bytes
length-records [] = omega arith
length-records ((i, r) ∷ rs) = omega (
  arith,
  length-records rs,
  length-append (record_bytes i r) (records_bytes rs),
  length-record_bytes i r,
)

write_batch_lem :
    (w : WalWriter) (rs : Records)
    → ((write_batch w rs).written ≡ w.written ++ records_bytes rs)
      × ((write_batch w rs).records_written ≡ w.records_written + length rs)
unfolding append write_batch records_bytes
write_batch_lem w [] = (sym (append-nil w.written), omega arith)
write_batch_lem w ((i, r) ∷ rs) =
    let (bytes, count) = write_batch_lem (append w i r) rs in
    (bytes ∙ append_assoc w.written (record_bytes i r) (records_bytes rs), omega (arith, count))

abbrev pub append_all : WalWriter → Records → WalWriter
append_all w [] = w
append_all w ((i, r) ∷ rs) = append_all (append w i r) rs

write_batch-appends : (w : WalWriter) (rs : Records) → write_batch w rs ≡ append_all w rs
unfolding write_batch append
write_batch-appends w [] = refl
write_batch-appends w ((i, r) ∷ rs) = write_batch-appends (append w i r) rs

-- A batch writes the bytes of its records, in their order, behind what was written, and counts them; it
-- writes what appends of its records one by one write.
pub append_batch_lem :
    (w : WalWriter) (rs : Records)
    → ((append_batch w rs).written ≡ w.written ++ records_bytes rs)
      × ((append_batch w rs).records_written ≡ w.records_written + length rs)
      × (append_batch w rs ≡ append_all w rs)
unfolding append_batch write_batch append
append_batch_lem w [] = let (bytes, count) = write_batch_lem w [] in (bytes, count, refl)
append_batch_lem w ((i, r) ∷ rs) =
    let (bytes, count) = write_batch_lem w ((i, r) ∷ rs) in
    (bytes, count, write_batch-appends (append w i r) rs)

module _ (addr : ℕ) (aligned : addr % align ≡ 0) (not_null : addr ≢ 0) where
  -- The loop reads whole records, and goes on behind them.
  pub frames_from-records :
      (rs : Records) (bytes front tail : List ℕ) (offset n : ℕ)
      → bytes ≡ front ++ (records_bytes rs ++ tail)
      → offset ≡ length front
      → offset % 16 ≡ 0
      → All PacketRecord rs
      → frames_from (rounds rs n) (record { addr = addr; bytes = bytes }) offset
        ≡ with_frames (layout offset rs) (
            frames_from n
              (record { addr = addr; bytes = bytes })
              (offset + length (records_bytes rs)))
  unfolding frames_from layout records_bytes
  frames_from-records [] bytes front tail offset n e o al ps =
      ap (λ k. frames_from n (record { addr = addr; bytes = bytes }) k) (omega arith)
  frames_from-records ((i, r) ∷ rs) bytes front tail offset n e o al ps =
      let first : next (record { addr = addr; bytes = bytes }) offset
          ≡ frame (packet_frame offset i r) (offset + 16 + align16 (length r)) =
        rw (o, e, split_first front i r rs tail)
          (next-record addr aligned not_null front i r (records_bytes rs ++ tail)
            (omega (arith, al)) ps.0) in
      let more =
        frames_from-records rs bytes (front ++ record_bytes i r) tail
          (offset + (16 + align16 (length r))) n
          (e
            ∙ split_first front i r rs tail
            ∙ sym (append_assoc front (record_bytes i r) (records_bytes rs ++ tail)))
          (omega (arith, length-append front (record_bytes i r), length-record_bytes i r))
          (omega (arith, align16_lem (length r))) ps.1 in
      let step : offset + 16 + align16 (length r) ≡ offset + (16 + align16 (length r)) =
        omega arith in
      let behind : offset + length (record_bytes i r ++ records_bytes rs)
          ≡ offset + (16 + align16 (length r)) + length (records_bytes rs) =
        omega
          (arith, length-append (record_bytes i r) (records_bytes rs), length-record_bytes i r) in
      rw (first, frames_from, step, more, behind) refl

  -- The view at each frame's offset is the record.
  views-layout :
      (rs : Records) (bytes front tail : List ℕ) (offset : ℕ)
      → bytes ≡ front ++ (records_bytes rs ++ tail)
      → offset ≡ length front
      → offset % 16 ≡ 0
      → All PacketRecord rs
      → views (record { addr = addr; bytes = bytes }) (layout offset rs) ≡ map stored_record rs
  unfolding views layout records_bytes
  views-layout [] bytes front tail offset e o al ps = refl
  views-layout ((i, r) ∷ rs) bytes front tail offset e o al ps =
      let here : view_at (record { addr = addr; bytes = bytes }) (offset + 16) ≡ ok r =
        rw (o, e, split_first front i r rs tail)
          (view_at-record addr aligned not_null front i r (records_bytes rs ++ tail)
            (omega (arith, al)) ps.0) in
      let more =
        views-layout rs bytes (front ++ record_bytes i r) tail (offset + (16 + align16 (length r)))
          (e
            ∙ split_first front i r rs tail
            ∙ sym (append_assoc front (record_bytes i r) (records_bytes rs ++ tail)))
          (omega (arith, length-append front (record_bytes i r), length-record_bytes i r))
          (omega (arith, align16_lem (length r))) ps.1 in
      rw (here, views, more) refl

  -- Fuel enough for a file of records and a tail.
  pub frames-records :
      (rs : Records) (tail : List ℕ)
      → All PacketRecord rs
      → frames (record { addr = addr; bytes = records_bytes rs ++ tail })
        ≡ with_frames (layout 0 rs) (
            frames_from
              (suc (length (records_bytes rs ++ tail) - length rs))
              (record { addr = addr; bytes = records_bytes rs ++ tail })
              (length (records_bytes rs)))
  unfolding frames
  frames-records rs tail ps =
      let s : Slice = record { addr = addr; bytes = records_bytes rs ++ tail } in
      let more = length (records_bytes rs ++ tail) - length rs in
      let enough : suc (length (records_bytes rs ++ tail)) ≡ rounds rs (suc more) = omega (
        arith,
        rounds_lem rs (suc more),
        length-records rs,
        length-append (records_bytes rs) tail,
      ) in
      ap (λ k. frames_from k s 0) enough
      ∙ frames_from-records rs (records_bytes rs ++ tail) [] tail 0 (suc more) refl refl refl ps
      ∙ ap (λ k. with_frames (layout 0 rs) (frames_from (suc more) s k)) (omega arith)

  next_at_end :
      (bytes : List ℕ) (offset : ℕ)
      → offset ≡ length bytes
      → next (record { addr = addr; bytes = bytes }) offset ≡ finished
  unfolding next
  next_at_end bytes offset e =
      rw
        (
          le→ltb_false (length bytes) offset (omega arith),
          lt→ltb (length bytes - offset) 16 (omega arith),
        )
        refl

  pub frames-written :
      (rs : Records)
      → All PacketRecord rs
      → frames (record { addr = addr; bytes = records_bytes rs ++ [] }) ≡ (layout 0 rs, ended)
  unfolding frames_from layout
  frames-written rs ps =
      frames-records rs [] ps
      ∙ rw
          (
            next_at_end (records_bytes rs ++ []) (length (records_bytes rs))
                (omega (arith, length-append (records_bytes rs) [])),
            frames_from,
          )
          (with_frames-ended (layout 0 rs))

  -- Everything that a writer wrote is recovered, packet by packet in the order written, each with its
  -- index cut to 32 bits, and the loop over the frames reaches its end. Each record is a packet, whose
  -- header gives the length of what follows it, and the buffer lies on a 16-byte boundary, not at address 0.
  pub recover_all-append_batch :
      (rs : Records)
      → All PacketRecord rs
      → recover_all (record { addr = addr; bytes = (append_batch new_writer rs).written })
        ≡ (map stored_record rs, ended)
  unfolding recover_all
  recover_all-append_batch rs ps = rw (append_batch_lem new_writer rs).0 (
      rw (sym (append-nil (records_bytes rs)), frames-written rs ps)
        (ap (λ v. (v, ended)) (views-layout rs (records_bytes rs ++ []) [] [] 0 refl refl refl ps)))
