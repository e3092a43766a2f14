-- ===== src/Decoder/Orders.antt =====
-- tn5250/client/decoder.cpp, the inner loop of Write To Display. A position j in the payload is the
-- list of the bytes from j on, so payload[j + k] is its k-th element and payload.size() - j its
-- length.
pub mod Ends
use protocol_tn.Base.{
  ℕ, zero, suc, ◌+◌, ◌/◌, ◌%◌, Bool, true, false, not, ◌&&◌, ◌||◌, List, [], ◌∷◌, Bytes, be16,
  length, take, drop, get_or, ltb, leb, ◌==◌, if◌then◌else◌,
}
use protocol_tn.Protocol.{
  esc, soh, order_sba, order_ic, order_mc, order_ra, order_ea, order_td, order_wdsf, order_sf,
  strpccmd_trigger, strpccmd_signature, strpccmd_marker_len, strpccmd_max_command_len,
}
use protocol_tn.Decoder.Event.{
  Event, on_soh, on_strpccmd_requested, Output, silent, shows, calls, ◌then_also◌,
}

-- What a branch of the loop body adds, and the position at which it leaves j.
abbrev pub Parsed : Type 0
Parsed = Output × Bytes

-- display.insert of n bytes from j, as far as the payload goes, and j += n.
abbrev pub copy : ℕ → Bytes → Parsed
copy n bs = (shows (take n bs), drop n bs)

-- The bytes of the SOH order at `bs` whose length byte is `len`; 0 where the payload ends early.
abbrev pub soh_events : ℕ → Bytes → List Event
soh_events len bs =
    if leb 4 len
    then on_soh (get_or bs 5 0) (if leb 5 len then get_or bs 6 0 else 0)
        (if leb 6 len then get_or bs 7 0 else 0) (if leb 7 len then get_or bs 8 0 else 0)
      ∷ []
    else []

unfoldable pub soh_order : Bytes → Parsed
soh_order bs =
    if leb (length bs) 1
    then (silent, [])
    else (calls (soh_events (get_or bs 1 0) bs), drop (2 + get_or bs 1 0) bs)

unfoldable pub td_order : Bytes → Parsed
td_order bs = if ltb 1 (length bs) then copy (2 + get_or bs 1 0) bs else copy 1 bs

unfoldable pub wdsf_order : Bytes → Parsed
wdsf_order bs =
    if ltb 2 (length bs)
    then (let len = be16 (get_or bs 1 0) (get_or bs 2 0) in
        (silent, drop (1 + (if ltb len 2 then 2 else len)) bs))
    else (silent, [])

-- std::equal over the bytes of the signature.
unfoldable pub same_bytes : Bytes → Bytes → Bool
same_bytes [] bs = true
same_bytes (x ∷ xs) [] = false
same_bytes (x ∷ xs) (b ∷ bs) = (b == x) && same_bytes xs bs

unfoldable pub at_strpccmd : ℕ → Bytes → Bool
at_strpccmd ob bs =
    (ob == strpccmd_trigger)
    && leb strpccmd_marker_len (length bs)
    && same_bytes strpccmd_signature (drop 1 bs)

-- The command bytes: at most `limit` of them, up to the first below 0x40.
unfoldable pub command_span : ℕ → Bytes → ℕ
command_span zero bs = 0
command_span (suc limit) [] = 0
command_span (suc limit) (b ∷ bs) = if leb 0x40 b then suc (command_span limit bs) else 0

-- From behind the marker.
unfoldable pub strpccmd_payload : Bytes → Parsed
strpccmd_payload [] = (calls (on_strpccmd_requested false [] ∷ []), [])
strpccmd_payload (flag ∷ bs) =
    if flag == esc
    then (calls (on_strpccmd_requested false [] ∷ []), flag ∷ bs)
    else (let n = command_span strpccmd_max_command_len bs in
        (calls (on_strpccmd_requested (flag == 0x81) (take n bs) ∷ []), drop n bs))

-- The field control words in front of the attribute byte, in bytes.
unfoldable pub fcw_span : Bytes → ℕ
fcw_span [] = 0
fcw_span (a ∷ []) = 0
fcw_span (a ∷ b ∷ bs) = if not (a / 32 % 8 == 1) then suc (suc (fcw_span bs)) else 0

-- k - j at the end of the Start Field branch; each test is against payload.size() - j.
unfoldable pub sf_span : Bytes → ℕ
sf_span bs =
    let size = length bs in
    let words = if ltb 2 size then 3 else size in
    let attr = words + fcw_span (drop words bs) in
    let len = if ltb attr size then attr + 1 else attr in
    if ltb (len + 1) size then len + 2 else len

-- One round of the loop at the byte `ob`, which is no ESC, with `bs` the payload from j on.
unfoldable pub order_at : ℕ → Bytes → Parsed
order_at ob bs =
    if ob == soh
    then soh_order bs
    else if (ob == order_sba) || (ob == order_ic) || (ob == order_mc)
    then copy 3 bs
    else if (ob == order_ra) || (ob == order_ea)
    then copy 4 bs
    else if ob == order_td
    then td_order bs
    else if ob == order_wdsf
    then wdsf_order bs
    else if at_strpccmd ob bs
    then strpccmd_payload (drop strpccmd_marker_len bs)
    else if ob == order_sf
    then copy (sf_span bs) bs
    else copy 1 bs

-- The loop, which ends at an ESC or with the payload. Fuel: each round takes a byte at least.
unfoldable pub orders : ℕ → Bytes → Parsed
orders zero bs = (silent, bs)
orders (suc fuel) [] = (silent, [])
orders (suc fuel) (ob ∷ rest) = elim (ob == esc) [
  | true ↦ (silent, ob ∷ rest)
  | false ↦
      let round = order_at ob (ob ∷ rest) in
      let later = orders fuel round.1 in (round.0 then_also later.0, later.1)
]
