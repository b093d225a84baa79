-- ===== src/Discover/Icmp/Packet.antt =====
-- internal/discover/icmp.go: the echo requests and their checksum. A packet is the list of its bytes.
use pulsitor_lan_agent.Base.{
  ℕ, zero, suc, ◌+◌, ◌-◌, ◌*◌, ◌/◌, ◌%◌, ◌^◌, Option, none, some, [], ◌∷◌, ◌++◌, ltb, if◌then◌else◌,
  nat_eq, Text, text_eq, texts_eq, int_eq,
}

-- The loop over the pairs of bytes, and the odd byte at the end; `uint32` wraps.
unfoldable pub sum_words : ℕ → Text → ℕ
sum_words sum [] = sum
sum_words sum (high ∷ []) = (sum + high * 256) % 2 ^ 32
sum_words sum (high ∷ low ∷ rest) = sum_words ((sum + (high * 256 + low)) % 2 ^ 32) rest

-- The loop that adds the upper half to the lower one, for as many rounds as there is fuel.
unfoldable pub fold : ℕ → ℕ → Option ℕ
fold zero sum = none
fold (suc fuel) sum =
    let rest = fold fuel (sum % 65536 + sum / 65536) in
    if ltb 0 (sum / 65536) then rest else some sum

unfoldable pub or_zero : Option ℕ → ℕ
or_zero none = 0
or_zero (some n) = n

-- `^uint16(sum)`; three rounds are always enough.
unfoldable pub checksum : Text → ℕ
unfolding sum_words fold or_zero
checksum bytes = 65535 - or_zero (fold 3 (sum_words 0 bytes))

abbrev pub icmp_echo_request : ℕ
icmp_echo_request = 8

-- `binary.BigEndian.PutUint16` at the bytes 2 and 3.
unfoldable pub put_checksum : ℕ → Text → Text
put_checksum n (a ∷ b ∷ c ∷ d ∷ rest) = a ∷ b ∷ n / 256 ∷ n % 256 ∷ rest
put_checksum n packet = packet

unfoldable pub echo_request : ℕ → Text
unfolding put_checksum checksum
echo_request sequence =
    let packet = icmp_echo_request ∷ 0 ∷ 0 ∷ 0 ∷ 0 ∷ 0 ∷ sequence / 256 ∷ sequence % 256 ∷ [] in
    put_checksum (checksum packet) packet

-- The packet for the host at `index`, as `probeWithConnection` sends it.
unfoldable pub probe_packet : ℕ → Text → Text
unfolding echo_request put_checksum checksum
probe_packet index nonce =
    let packet = put_checksum 0 (echo_request (index % 65536) ++ nonce) in
    put_checksum (checksum packet) packet
