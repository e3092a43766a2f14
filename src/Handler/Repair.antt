-- ===== src/Handler/Repair.antt =====
-- tn5250/client/protocol_handler.cpp: ProtocolHandler::repairGdsRecordLength.
pub mod Chain
pub mod Mend
use protocol_tn.Base.{
  ℕ, zero, suc, ◌+◌, ◌-◌, ◌/◌, ◌%◌, not, ◌||◌, Bytes, be16, length, drop, get_or, set, ltb, ◌==◌,
  if◌then◌else◌,
}
use protocol_tn.Protocol.{
  gds_min_record_len, gds_header_size, gds_max_record_len, gds_record_type_hi, gds_record_type_lo,
}

-- The walk over the chain of length fields: `pos` at its end, counted from the start of `bs`. Fuel:
-- each round takes six bytes at least.
unfoldable pub walk_chain : ℕ → Bytes → ℕ
walk_chain zero bs = 0
walk_chain (suc fuel) bs =
    let len = be16 (get_or bs 0 0) (get_or bs 1 0) in
    let later = len + walk_chain fuel (drop len bs) in
    if ltb (length bs) 2
    then 0
    else if ltb len gds_min_record_len || ltb (length bs) len
    then 0
    else later

unfoldable pub repair_gds_record_length : Bytes → Bytes
repair_gds_record_length rec =
    let size = length rec in
    let pos = walk_chain size rec in
    let remaining = size - pos in
    if pos == size
    then rec
    else if ltb remaining gds_header_size
        || ltb gds_max_record_len remaining
        || not (get_or rec (pos + 2) 0 == gds_record_type_hi)
        || not (get_or rec (pos + 3) 0 == gds_record_type_lo)
    then rec
    else set (set rec pos (remaining / 256 % 256)) (pos + 1) (remaining % 256)
