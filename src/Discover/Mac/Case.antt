-- ===== src/Discover/Mac/Case.antt =====
-- `NormaliseMAC` of internal/discover/neighbors.go reads both cases of a letter alike.
use pulsitor_lan_agent.Base.{
  ℕ, suc, ◌+◌, ◌≡◌, refl, ap, ◌&&◌, inl, inr, List, [], ◌∷◌, length, if◌then◌else◌, leb, Text,
  Bool-cases, arith, ◌==◌, nat_eq, text_eq, map,
}
use pulsitor_lan_agent.Discover.Mac.{
  hex_digit, hex_digits, cons_first, split, strict_digits, pad_octet, pad_octets, pad_short_mac,
  normalise_mac,
}

-- ASCII letters in lower case.
unfoldable pub to_lower : ℕ → ℕ
to_lower c = if leb b'A' c && leb c b'Z' then c + 32 else c

hex_digit-to_lower : (c : ℕ) → hex_digit (to_lower c) ≡ hex_digit c
unfolding hex_digit to_lower
hex_digit-to_lower c = ground arith

hex_digits-to_lower : (v : Text) → hex_digits (map to_lower v) ≡ hex_digits v
unfolding hex_digits
hex_digits-to_lower [] = refl
hex_digits-to_lower (c ∷ cs) = rw (hex_digit-to_lower c, hex_digits-to_lower cs)

strict_digits-to_lower : (v : Text) → strict_digits (map to_lower v) ≡ strict_digits v
unfolding strict_digits
strict_digits-to_lower [] = refl
strict_digits-to_lower (c ∷ cs) = rw (hex_digit-to_lower c, strict_digits-to_lower cs)

cons_first-map :
    (c : ℕ) (parts : List Text)
    → cons_first (to_lower c) (map (map to_lower) parts) ≡ map (map to_lower) (cons_first c parts)
unfolding cons_first
cons_first-map c [] = refl
cons_first-map c (part ∷ parts) = refl

to_lower-colon : (c : ℕ) → (to_lower c == b':') ≡ (c == b':')
unfolding to_lower
to_lower-colon c = ground arith

split-to_lower : (v : Text) → split b':' (map to_lower v) ≡ map (map to_lower) (split b':' v)
unfolding split
split-to_lower [] = refl
split-to_lower (c ∷ cs) = elim (Bool-cases (c == b':')) [
  | inl colon ↦ rw (to_lower-colon c, split-to_lower cs, colon)
  | inr other ↦ rw (to_lower-colon c, split-to_lower cs, other) (cons_first-map c (split b':' cs))
]

pad_octet-to_lower : (o : Text) → pad_octet (map to_lower o) ≡ pad_octet o
unfolding pad_octet
pad_octet-to_lower [] = refl
pad_octet-to_lower (a ∷ []) = rw (hex_digit-to_lower a, strict_digits)
pad_octet-to_lower (a ∷ b ∷ []) = strict_digits-to_lower (a ∷ b ∷ [])
pad_octet-to_lower (a ∷ b ∷ c ∷ o) = ground arith

pad_octets-to_lower : (os : List Text) → pad_octets (map (map to_lower) os) ≡ pad_octets os
unfolding pad_octets
pad_octets-to_lower [] = refl
pad_octets-to_lower (o ∷ os) = rw (pad_octet-to_lower o, pad_octets-to_lower os)

length-map : (os : List Text) → length (map (map to_lower) os) ≡ length os
length-map [] = refl
length-map (o ∷ os) = ap suc (length-map os)

pad_short_mac-to_lower : (v : Text) → pad_short_mac (map to_lower v) ≡ pad_short_mac v
unfolding pad_short_mac
pad_short_mac-to_lower v =
    rw (split-to_lower v, length-map (split b':' v), pad_octets-to_lower (split b':' v))

-- The case of its letters does not change what an address is normalised to.
pub normalise_mac-to_lower : (v : Text) → normalise_mac (map to_lower v) ≡ normalise_mac v
unfolding normalise_mac
normalise_mac-to_lower v = rw (hex_digits-to_lower v, pad_short_mac-to_lower v)
