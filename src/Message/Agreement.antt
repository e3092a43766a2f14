-- ===== src/Message/Agreement.antt =====
-- The commands that tn5250/message builds, as the grammar that the decoder of tn5250/client
-- implements.
mod Orders
use protocol_tn.Base.{
  ℕ, zero, suc, ◌+◌, ◌-◌, ◌*◌, ◌/◌, ◌%◌, ◌^◌, ◌≤◌, ◌<◌, min, Bool, true, false, not, ◌&&◌, ◌||◌,
  Option, none, some, List, [], ◌∷◌, ◌++◌, map, Bytes, IsByte, IsBytes, All, All-drop, be16,
  is_empty, length, take, drop, get_or, set, replicate, ltb, leb, ◌==◌, if◌then◌else◌, ◌≡◌, refl,
  sym, ap, ap₂, ◌∙◌, ◌≢◌, inl, inr, ◌⊎◌, arith, Bool-cases, ==_iff, length-append, length-take,
  length-drop, length-replicate, take_append, drop_append, get_or_append, append-nil, append_assoc,
  take-length, drop-length, take_prefix, drop_prefix, subst, take-append-drop, tests, ltb→lt,
  ltb→ge, lt→ltb, ge→ltb,
}
use protocol_tn.Protocol.{gds_opcode_save_screen}
use protocol_tn.Decoder.Event.{Event, on_save_screen, on_raw_screen_data}
use protocol_tn.Decoder.Stream.{record_events, carries_payload}
use protocol_tn.Decoder.Grammar.{
  DisplayOrder, text, address, to_address, header, start_field, IsText, order_bytes, orders_bytes,
  AreOrders,
}
use protocol_tn.Decoder.Grammar
use protocol_tn.Decoder.Grammar.Commands
use protocol_tn.Decoder.Grammar.Commands.{
  HostCommand, clear_unit, read_mdt, display, commands_bytes, commands_meaning,
}
use protocol_tn.Decoder.Grammar.Stream.{payload_events_grammar, opcode_events_read}
use protocol_tn.Message.Result.{ok}
use protocol_tn.Message.Header.{general_data_stream}
use protocol_tn.Message.Order.{Order, soh, ic, ra, sba, sf, marshal_order, marshal_orders}
use protocol_tn.Message.Order.RepeatToAddress
use protocol_tn.Message.Order.SetBufferAddress
use protocol_tn.Message.Order.StartField
use protocol_tn.Message.Order.StartOfHeader
use protocol_tn.Message.Order.Reads.{IsOrder, IsControlWord}
use protocol_tn.Message.Command.{Command, cs, wtd, rmf, marshal_command}
use protocol_tn.Message.Command.WriteToDisplay
use protocol_tn.Message.Command.Reads.{IsCommand, Precedes}
use protocol_tn.Message.Record.{Message, marshal}
use protocol_tn.Message.Record.Loop.{command_bytes, AreCommands}
use protocol_tn.Message.Record.RoundTrip.{IsMessage}
use protocol_tn.Message.OnWire.{record_events-marshal}
use protocol_tn.Message.Agreement.Orders.{
  IsShared, to_displays, to_displays_bytes, to_displays-AreOrders,
}

abbrev pub to_host : Command → HostCommand
to_host (cs c) = clear_unit
to_host (rmf c) = read_mdt c.control1 c.control2
to_host (wtd c) = display c.control1 c.control2 (to_displays c.orders)

abbrev pub IsSharedCommand : Command → Type 0
IsSharedCommand (cs c) = Unit
IsSharedCommand (rmf c) = Unit
IsSharedCommand (wtd c) = All IsShared c.orders

to_host_bytes :
    (c : Command) (rest : Bytes)
    → IsCommand c
    → Precedes c rest
    → IsSharedCommand c
    → Commands.command_bytes (to_host c) rest ≡ marshal_command c ++ rest
unfolding WriteToDisplay.marshal
to_host_bytes (cs c) rest h p s = refl
to_host_bytes (rmf c) rest h p s = refl
to_host_bytes (wtd c) rest h p s =
    rw (p, to_displays_bytes c.orders h.1 s, append-nil (marshal_orders c.orders)) refl

to_host-IsCommand :
    (c : Command) (rest : Bytes)
    → IsCommand c
    → Precedes c rest
    → IsSharedCommand c
    → Commands.IsCommand (to_host c) rest
to_host-IsCommand (cs c) rest h p s = tt
to_host-IsCommand (rmf c) rest h p s = tt
to_host-IsCommand (wtd c) rest h p s =
    subst (λ r. Commands.IsCommand (to_host (wtd c)) r) (sym p)
      (to_displays-AreOrders c.orders h.1 s, tt)

to_hosts_bytes :
    (ds : List Command)
    → AreCommands ds
    → All IsSharedCommand ds
    → commands_bytes (map to_host ds) ≡ command_bytes ds
to_hosts_bytes [] h s = refl
to_hosts_bytes (d ∷ ds) (h, p, hs) (s, ss) =
    rw (to_hosts_bytes ds hs ss) (to_host_bytes d (command_bytes ds) h p s)

to_hosts-AreCommands :
    (ds : List Command)
    → AreCommands ds
    → All IsSharedCommand ds
    → Commands.AreCommands (map to_host ds)
to_hosts-AreCommands [] h s = tt
to_hosts-AreCommands (d ∷ ds) (h, p, hs) (s, ss) = (
  subst (Commands.IsCommand (to_host d)) (sym (to_hosts_bytes ds hs ss))
      (to_host-IsCommand d (command_bytes ds) h p s),
  to_hosts-AreCommands ds hs ss,
)

-- Save Screen is announced, the commands are carried out, and the display is handed over.
abbrev pub message_meaning : Message → List Event
message_meaning m =
    let out = commands_meaning (map to_host m.commands) in
    (if m.opcode == gds_opcode_save_screen then on_save_screen ∷ [] else [])
    ++ (out.events ++ (on_raw_screen_data out.display ∷ []))

-- The decoder makes of a well-formed general data stream message that was marshalled, with a command
-- and under an operation code of which the payload is read, the callbacks that the grammar gives to
-- the commands. No order may be an insert cursor, a start of header says seven bytes, and no
-- character begins an order or a command.
pub record_events-message :
    (m : Message) (bs : Bytes)
    → IsMessage m
    → m.header.record_type ≡ general_data_stream
    → is_empty m.commands ≡ false
    → carries_payload m.opcode ≡ true
    → All IsSharedCommand m.commands
    → marshal m ≡ ok bs
    → record_events bs ≡ message_meaning m
record_events-message m bs h g n c s e =
    record_events-marshal m bs h g e
    ∙ rw (n, sym (to_hosts_bytes m.commands h.are_commands s))
        (opcode_events_read m.opcode (commands_bytes (map to_host m.commands)) c
          ∙ ap (◌++◌ (if m.opcode == gds_opcode_save_screen then on_save_screen ∷ [] else [])) (
              payload_events_grammar (map to_host m.commands)
                (to_hosts-AreCommands m.commands h.are_commands s)))
