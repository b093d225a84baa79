-- ===== src/Discover/Icmp.antt =====
-- internal/discover/icmp.go: which datagrams are echo replies. A packet is the list of its bytes.
pub mod Packet
pub mod Checksum
pub mod Connection
pub mod Answers
pub mod Asked
use pulsitor_lan_agent.Base.{
  ℕ, zero, suc, ◌*◌, ◌/◌, ◌%◌, Bool, not, ◌&&◌, ◌||◌, [], ◌∷◌, ltb, leb, if◌then◌else◌, ◌==◌,
  nat_eq, Text, text_eq, texts_eq, int_eq, length,
}

unfoldable pub drop : ℕ → Text → Text
drop zero packet = packet
drop (suc n) [] = []
drop (suc n) (b ∷ packet) = drop n packet

-- A byte of a packet that is long enough to have it.
unfoldable pub byte_at : Text → ℕ → ℕ
byte_at [] n = 0
byte_at (b ∷ packet) zero = b
byte_at (b ∷ packet) (suc n) = byte_at packet n

abbrev pub protocol_icmp : ℕ
protocol_icmp = 1

-- What follows an IPv4 header, if there is one; a nil slice is empty.
unfoldable pub echo_payload : Text → Text
unfolding drop byte_at
echo_payload packet =
    let n = byte_at packet 0 % 16 * 4 in
    if leb 20 (length packet) && byte_at packet 0 / 16 == 4
    then (if ltb n 20 || ltb (length packet) n || not (byte_at packet 9 == protocol_icmp)
        then []
        else drop n packet)
    else packet

unfoldable pub is_echo_reply : Text → Bool
unfolding echo_payload byte_at
is_echo_reply packet =
    let payload = echo_payload packet in
    leb 8 (length payload) && (byte_at payload 0 == 0 && byte_at payload 1 == 0)
