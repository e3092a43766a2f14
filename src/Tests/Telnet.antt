-- ===== src/Tests/Telnet.antt =====
-- Runs of the Telnet client.
use protocol_tn.Base.{[], ◌∷◌, ◌++◌, ◌≡◌, refl, inl}
use protocol_tn.Telnet.Command.{iac, eor, will, end_of_record}
use protocol_tn.Telnet.Client.{on_standalone_command, new, call, feed}
use protocol_tn.Telnet.Client.Hearing.{heard, hear_all, IsTidy, heard-feed, feed-append}
use protocol_tn.Telnet.Client.RoundTrip.{hears, feed-escape_iac}
use protocol_tn.Handler.Send.{escape_iac}

new-IsTidy : IsTidy new
unfolding IsTidy
new-IsTidy = inl refl

heard-feed_example :
    (heard (feed (0x41 ∷ iac ∷ will ∷ end_of_record ∷ 0x42 ∷ []) new)
      ≡ hear_all (0x41 ∷ iac ∷ will ∷ end_of_record ∷ 0x42 ∷ []) new)
    × IsTidy (feed (0x41 ∷ iac ∷ will ∷ end_of_record ∷ 0x42 ∷ []) new)
heard-feed_example = heard-feed (0x41 ∷ iac ∷ will ∷ end_of_record ∷ 0x42 ∷ []) new new-IsTidy

feed-append_example :
    heard (feed (will ∷ end_of_record ∷ []) (feed (0x41 ∷ iac ∷ []) new))
    ≡ heard (feed ((0x41 ∷ iac ∷ []) ++ (will ∷ end_of_record ∷ [])) new)
feed-append_example = feed-append (0x41 ∷ iac ∷ []) (will ∷ end_of_record ∷ []) new new-IsTidy

feed-escape_iac_example :
    heard (feed (escape_iac (0x41 ∷ 0xFF ∷ []) ++ (iac ∷ eor ∷ [])) new)
    ≡ call (on_standalone_command eor) (hears (0x41 ∷ 0xFF ∷ []) new)
feed-escape_iac_example = feed-escape_iac (0x41 ∷ 0xFF ∷ []) new refl
