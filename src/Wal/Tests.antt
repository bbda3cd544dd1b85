-- ===== src/Wal/Tests.antt =====
-- Small `.pyrowal` files.
use pyroduct.Base.{◌+◌, ◌≡◌, refl, arith, [], ◌∷◌, ◌++◌, take, length, map}
use pyroduct.Base.{some}
use pyroduct.Base.Outcome.{ok}
use pyroduct.Wal.Manager.{manager_get, first_with, manager_get-append_batch}
use pyroduct.Header.{header_len}
use pyroduct.Wal.{
  align16, prefix, zeros, new_writer, append_batch, recover_all, frames, ended, panic,
}
use pyroduct.Wal.Ref.{PyroRef, IsPacket}
use pyroduct.Wal.Reading.{Records, records_bytes, layout, packet_frame}
use pyroduct.Wal.Recovery.{
  stored_record, append_all, with_frames, append_batch_lem, recover_all-append_batch,
}
use pyroduct.Wal.Torn.{frames-torn_padding, frames-torn_packet}

abbrev packet : PyroRef
packet = 2 ∷ 0 ∷ 0 ∷ 0 ∷ 0 ∷ 0 ∷ 0 ∷ 0 ∷ 1 ∷ 0 ∷ 0 ∷ 0 ∷ 0 ∷ 0 ∷ 0 ∷ 0 ∷ 65 ∷ 66 ∷ []

packet-IsPacket : IsPacket packet
unfolding header_len
packet-IsPacket = refl

abbrev two : Records
two = (7, packet) ∷ (4294967297, packet) ∷ []

append_batch_lem_example :
    ((append_batch new_writer two).written ≡ new_writer.written ++ records_bytes two)
    × ((append_batch new_writer two).records_written ≡ new_writer.records_written + length two)
    × (append_batch new_writer two ≡ append_all new_writer two)
append_batch_lem_example = append_batch_lem new_writer two

recover_all-append_batch_example :
    recover_all (record { addr = 4096; bytes = (append_batch new_writer two).written })
    ≡ (map stored_record two, ended)
recover_all-append_batch_example =
    recover_all-append_batch 4096 refl (omega arith) two (packet-IsPacket, (packet-IsPacket, tt))

frames-torn_padding_example :
    frames (record { addr = 4096; bytes = records_bytes two ++ (prefix 9 ++ (packet ++ zeros 3)) })
    ≡ with_frames (layout 0 two) (packet_frame (length (records_bytes two)) 9 packet ∷ [], panic)
unfolding align16
frames-torn_padding_example =
    frames-torn_padding 4096 refl (omega arith) two (packet-IsPacket, (packet-IsPacket, tt)) 9
      packet 3 packet-IsPacket (omega arith)

frames-torn_packet_example :
    frames (record { addr = 4096; bytes = records_bytes two ++ take 20 (prefix 9 ++ packet) })
    ≡ (layout 0 two, ended)
frames-torn_packet_example =
    frames-torn_packet 4096 refl (omega arith) two (packet-IsPacket, (packet-IsPacket, tt)) 9 packet
      20 packet-IsPacket (omega arith)

manager_get-append_batch_example :
    manager_get (record { addr = 4096; bytes = (append_batch new_writer two).written }) 1
    ≡ some (ok (first_with 1 two))
manager_get-append_batch_example =
    manager_get-append_batch 4096 refl (omega arith) 1 two (packet-IsPacket, (packet-IsPacket, tt))
