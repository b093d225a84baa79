-- ===== src/Examples/Packets.antt =====
-- Two hosts are probed, and the second one answers.
use pulsitor_lan_agent.Base.{
  ℕ, ◌<◌, ◌≡◌, inl, refl, true, false, none, some, List, [], ◌∷◌, arith, nat_eq, list_beq, Text,
  text_eq, texts_eq, codes, int_eq, length, In,
}
use pulsitor_lan_agent.Discover.Net.{Ip}
use pulsitor_lan_agent.Discover.Icmp.{drop, byte_at, echo_payload, is_echo_reply}
use pulsitor_lan_agent.Discover.Icmp.Packet.{fold, checksum, probe_packet}
use pulsitor_lan_agent.Discover.Icmp.Checksum.{Folds, fold_ends, IsBytes, checksum-probe_packet}
use pulsitor_lan_agent.Discover.Icmp.Connection.{
  sent, is_absence, is_failure, Datagram, Connection, expects, counts, has_text, answered, parsed,
  parse_all, undelivered, probe_nonce, probe_with_connection, probe_error, probe, probe_context,
}
use pulsitor_lan_agent.Discover.Icmp.Answers.{IsAnswer, probe_with_connection_sound}
use pulsitor_lan_agent.Discover.Icmp.Asked.{IsAsked, probe_context-IsAsked}
use pulsitor_lan_agent.Examples.{net, old_address, new_address}

abbrev nonce : Text
nonce = 1 ∷ 2 ∷ 3 ∷ 4 ∷ 5 ∷ 6 ∷ 7 ∷ 8 ∷ 9 ∷ 10 ∷ 11 ∷ 12 ∷ 13 ∷ 14 ∷ 15 ∷ 16 ∷ []

abbrev reply : Datagram
reply = record { from = codes "10.0.0.6"; bytes = 0 ∷ 0 ∷ 0 ∷ 0 ∷ 9 ∷ 9 ∷ 0 ∷ 1 ∷ nonce }

abbrev connection : Connection
connection = record {
  in_time = true;
  sets_deadline = true;
  nonce = some nonce;
  late = λ index. false;
  write = λ index packet. sent;
  datagrams = reply ∷ [];
  breaks = false;
}

abbrev asked : List Ip
asked = old_address ∷ new_address ∷ []

fold_ends_example : (r : ℕ) × ((fold 3 70000 ≡ some r) × Folds 70000 r)
fold_ends_example = fold_ends 70000 (omega arith)

small_nonce : IsBytes nonce
small_nonce = (
  omega arith,
  (
    omega arith,
    (
      omega arith,
      (
        omega arith,
        (
          omega arith,
          (
            omega arith,
            (
              omega arith,
              (
                omega arith,
                (
                  omega arith,
                  (
                    omega arith,
                    (
                      omega arith,
                      (omega arith, (omega arith, (omega arith, (omega arith, (omega arith, tt))))),
                    ),
                  ),
                ),
              ),
            ),
          ),
        ),
      ),
    ),
  ),
)

checksum-probe_packet_example : checksum (probe_packet 1 nonce) ≡ 0
checksum-probe_packet_example = checksum-probe_packet 1 nonce small_nonce (omega arith)

found_new : In new_address (probe_with_connection net.parse_ip net.ip_text connection asked).0
unfolding probe_with_connection probe_nonce answered counts expects has_text parse_all parsed drop
    byte_at echo_payload is_echo_reply list_beq
found_new = inl refl

probe_with_connection_sound_example :
    (n : Text) × (d : Datagram) × ((some nonce ≡ some n)
      × (In d (reply ∷ [])
          × ((net.parse_ip d.from ≡ some new_address)
              × IsAnswer net.parse_ip net.ip_text asked n d)))
probe_with_connection_sound_example =
    probe_with_connection_sound net.parse_ip net.ip_text connection asked new_address found_new

no_error_here : (probe_context net.parse_ip net.ip_text true (some connection) asked).1 ≡ none
unfolding probe_context probe probe_with_connection probe_nonce probe_error undelivered is_failure
    is_absence
no_error_here = refl

probe_context-IsAsked_example :
    (n : Text) × ((some nonce ≡ some n)
      × ((j : ℕ) → j < length asked → IsAsked net.parse_ip net.ip_text connection n j))
probe_context-IsAsked_example =
    probe_context-IsAsked net.parse_ip net.ip_text true connection old_address (new_address ∷ [])
      no_error_here
