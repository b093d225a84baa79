-- ===== src/Discover/Mac.antt =====
-- internal/discover/neighbors.go: the spelling of hardware addresses. A text is its bytes.
pub mod Laws
pub mod Case
use pulsitor_lan_agent.Base.{
  ℕ, ◌+◌, ◌-◌, ◌*◌, ◌%◌, Bool, true, false, ◌&&◌, ◌||◌, Option, none, some, List, [], ◌∷◌, ◌++◌,
  length, ltb, leb, if◌then◌else◌, Text, codes, ◌==◌, nat_eq, text_eq,
}

-- The two cases of the loop's `switch` over one character; other characters are `none`.
pub hex_digit : ℕ → Option ℕ
hex_digit c =
    if leb b'0' c && leb c b'9' || leb b'a' c && leb c b'f'
    then some c
    else if leb b'A' c && leb c b'F'
    then some (c + (b'a' - b'A'))
    else none

cons_digit : Option ℕ → Text → Text
cons_digit none rest = rest
cons_digit (some d) rest = d ∷ rest

-- The first loop of `NormaliseMAC`: the digits of a text, in lower case.
pub hex_digits : Text → Text
unfolding hex_digit cons_digit
hex_digits [] = []
hex_digits (c ∷ cs) = cons_digit (hex_digit c) (hex_digits cs)

cons_first : ℕ → List Text → List Text
cons_first c [] = (c ∷ []) ∷ []
cons_first c (part ∷ parts) = (c ∷ part) ∷ parts

-- `strings.Split` by one byte.
pub split : ℕ → Text → List Text
unfolding cons_first
split sep [] = [] ∷ []
split sep (c ∷ cs) = let rest = split sep cs in if c == sep then [] ∷ rest else cons_first c rest

append_digit : Option ℕ → Option Text → Option Text
append_digit none rest = none
append_digit (some d) none = none
append_digit (some d) (some ds) = some (d ∷ ds)

-- The inner loop of `padShortMAC`: any character that is no digit fails the whole address.
strict_digits : Text → Option Text
unfolding hex_digit append_digit
strict_digits [] = some []
strict_digits (c ∷ cs) = append_digit (hex_digit c) (strict_digits cs)

-- One octet: one or two characters, a lone one gets a leading zero.
pad_octet : Text → Option Text
unfolding strict_digits
pad_octet octet =
    if length octet == 0 || ltb 2 (length octet)
    then none
    else strict_digits (if length octet == 1 then b'0' ∷ octet else octet)

append_octet : Option Text → Option Text → Option Text
append_octet none rest = none
append_octet (some o) none = none
append_octet (some o) (some os) = some (o ++ os)

pad_octets : List Text → Option Text
unfolding pad_octet append_octet
pad_octets [] = some []
pad_octets (o ∷ os) = append_octet (pad_octet o) (pad_octets os)

pub pad_short_mac : Text → Option Text
unfolding split pad_octets
pad_short_mac value =
    let octets = split b':' value in if length octets == 6 then pad_octets octets else none

decode : ℕ → Option ℕ
decode c =
    if leb b'0' c && leb c b'9'
    then some (c - b'0')
    else if leb b'a' c && leb c b'f'
    then some (c - b'a' + 10)
    else none

join_nibbles : Option ℕ → Option ℕ → Option ℕ
join_nibbles none low = none
join_nibbles (some h) none = none
join_nibbles (some h) (some l) = some (h * 16 + l)

-- Two lower-case digits as a byte; `first<<4 | second`, whose bits do not overlap.
hex_byte : ℕ → ℕ → Option ℕ
unfolding decode join_nibbles
hex_byte high low = join_nibbles (decode high) (decode low)

is_odd : Option ℕ → Bool
is_odd none = false
is_odd (some n) = n % 2 == 1

pub is_multicast_mac : Text → Bool
unfolding hex_byte is_odd
is_multicast_mac [] = false
is_multicast_mac (h ∷ []) = false
is_multicast_mac (h ∷ l ∷ rest) = is_odd (hex_byte h l)

-- The last loop, with the colon before every pair but the first.
pub colon_pairs : Text → Text
colon_pairs [] = []
colon_pairs (h ∷ []) = h ∷ []
colon_pairs (h ∷ l ∷ []) = h ∷ l ∷ []
colon_pairs (h ∷ l ∷ rest) = h ∷ l ∷ b':' ∷ colon_pairs rest

-- What `NormaliseMAC` does once it has its twelve digits.
pub accept_digits : Text → Text
unfolding colon_pairs is_multicast_mac
accept_digits hex =
    if hex == codes "000000000000"
    then []
    else if hex == codes "ffffffffffff" || is_multicast_mac hex
    then []
    else colon_pairs hex

accept_padded : Option Text → Text
unfolding accept_digits
accept_padded none = []
accept_padded (some hex) = accept_digits hex

unfoldable pub normalise_mac : Text → Text
unfolding hex_digits pad_short_mac accept_digits accept_padded
normalise_mac value =
    let hex = hex_digits value in
    if length hex == 12 then accept_digits hex else accept_padded (pad_short_mac value)
