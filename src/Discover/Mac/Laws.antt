-- ===== src/Discover/Mac/Laws.antt =====
-- The normal form of a hardware address (`NormaliseMAC` in internal/discover/neighbors.go).
use pulsitor_lan_agent.Base.{
  ℕ, zero, suc, ◌+◌, ◌*◌, ◌≡◌, ◌≢◌, refl, ap, ◌∙◌, false, ◌⊎◌, inl, inr, Option, none, some, List,
  [], ◌∷◌, ◌++◌, length, length-append, Text, Bool-cases, arith, ◌==◌, nat_eq, text_eq, All,
  Option-cases, nat_beq_iff,
}
use pulsitor_lan_agent.Discover.Mac.{
  hex_digit, cons_digit, hex_digits, split, append_digit, strict_digits, pad_octet, pad_octets,
  append_octet, pad_short_mac, is_multicast_mac, colon_pairs, accept_digits, accept_padded,
  normalise_mac,
}

-- A lower-case hexadecimal digit.
abbrev pub IsDigit : ℕ → Type 0
IsDigit c = hex_digit c ≡ some c

hex_digit-IsDigit : (c : ℕ) {d : ℕ} → hex_digit c ≡ some d → IsDigit d
unfolding hex_digit
hex_digit-IsDigit c h = ground arith

hex_digits-All : (v : Text) → All IsDigit (hex_digits v)
unfolding hex_digits hex_digit
hex_digits-All [] = tt
hex_digits-All (c ∷ cs) = elim (Option-cases (hex_digit c)) [
  | inl none_here ↦ rw (none_here, cons_digit) (hex_digits-All cs)
  | inr (d, digit) ↦ rw (digit, cons_digit) (hex_digit-IsDigit c digit, hex_digits-All cs)
]

append_digit-some :
    (o : Option ℕ) (r : Option Text) {ds : Text}
    → append_digit o r ≡ some ds
    → (d : ℕ) × (rest : Text) × (o ≡ some d) × (r ≡ some rest) × (ds ≡ d ∷ rest)
unfolding append_digit
append_digit-some none r h = cc
append_digit-some (some d) none h = cc
append_digit-some (some d) (some rest) h = (d, rest, refl, refl, cc)

append_octet-some :
    (o r : Option Text) {ds : Text}
    → append_octet o r ≡ some ds
    → (first rest : Text) × (o ≡ some first) × (r ≡ some rest) × (ds ≡ first ++ rest)
unfolding append_octet
append_octet-some none r h = cc
append_octet-some (some d) none h = cc
append_octet-some (some d) (some rest) h = (d, rest, refl, refl, cc)

-- `count` digits, all of them in lower case.
abbrev Digits : ℕ → Text → Type 0
Digits count ds = All IsDigit ds × (length ds ≡ count)

strict_digits-Digits : (v : Text) {ds : Text} → strict_digits v ≡ some ds → Digits (length v) ds
unfolding strict_digits
strict_digits-Digits [] {ds} h = let e : ds ≡ [] = cc in rw e (tt, refl)
strict_digits-Digits (c ∷ cs) h =
    let (d, rest, digit, tail, e) = append_digit-some (hex_digit c) (strict_digits cs) h in
    let (ds, len) = strict_digits-Digits cs tail in
    rw e ((hex_digit-IsDigit c digit, ds), omega arith)

pad_octet-Digits : (o : Text) {ds : Text} → pad_octet o ≡ some ds → Digits 2 ds
unfolding pad_octet
pad_octet-Digits [] h = cc
pad_octet-Digits (a ∷ []) h = strict_digits-Digits (b'0' ∷ a ∷ []) h
pad_octet-Digits (a ∷ b ∷ []) h = strict_digits-Digits (a ∷ b ∷ []) h
pad_octet-Digits (a ∷ b ∷ c ∷ o) h = absurd (ground arith)

All-append :
    {C : Type 0} (Q : C → Type 0) (front back : List C)
    → All Q front
    → All Q back
    → All Q (front ++ back)
All-append Q [] back f b = b
All-append Q (c ∷ front) back (first, f) b = (first, All-append Q front back f b)

pad_octets-Digits :
    (os : List Text) {ds : Text} → pad_octets os ≡ some ds → Digits (2 * length os) ds
unfolding pad_octets
pad_octets-Digits [] {ds} h = let e : ds ≡ [] = cc in rw e (tt, refl)
pad_octets-Digits (o ∷ os) h =
    let (first, rest, head, tail, e) = append_octet-some (pad_octet o) (pad_octets os) h in
    let (ds, len) = pad_octet-Digits o head in
    let (es, more) = pad_octets-Digits os tail in
    rw e (All-append IsDigit first rest ds es, omega (arith, length-append first rest))

pad_short_mac-Digits : (v : Text) {ds : Text} → pad_short_mac v ≡ some ds → Digits 12 ds
unfolding pad_short_mac
pad_short_mac-Digits v h = elim (Bool-cases (length (split b':' v) == 6)) [
  | inl six ↦
      let found = rw six at h in
      let (ds, len) = pad_octets-Digits (split b':' v) found in
      (ds, omega (arith, (nat_beq_iff (length (split b':' v)) 6).0 six))
  | inr other ↦ absurd (ground arith)
]

hex_digits-colon_pairs : (hex : Text) → All IsDigit hex → hex_digits (colon_pairs hex) ≡ hex
unfolding hex_digits colon_pairs
hex_digits-colon_pairs [] h = refl
hex_digits-colon_pairs (a ∷ []) h = rw (h.0)
hex_digits-colon_pairs (a ∷ b ∷ []) h = rw (h.0, h.1.0)
hex_digits-colon_pairs (a ∷ b ∷ c ∷ rest) h =
    rw (h.0, h.1.0) (ap (λ t. a ∷ b ∷ t) (hex_digits-colon_pairs (c ∷ rest) h.1.1))

accept_digits-cases :
    (hex : Text) → (accept_digits hex ≡ []) ⊎ (accept_digits hex ≡ colon_pairs hex)
unfolding accept_digits
accept_digits-cases hex = ground arith

-- A normal form is empty, or what the twelve digits of some address become.
normalise_mac-cases :
    (v : Text)
    → (normalise_mac v ≡ [])
      ⊎ ((hex : Text) × Digits 12 hex × (normalise_mac v ≡ accept_digits hex))
unfolding normalise_mac
normalise_mac-cases v = elim (Bool-cases (length (hex_digits v) == 12)) [
  | inl twelve ↦ inr (
    hex_digits v,
    (hex_digits-All v, (nat_beq_iff (length (hex_digits v)) 12).0 twelve),
    rw twelve,
  )
  | inr other ↦ rw other (elim (Option-cases (pad_short_mac v)) [
    | inl short ↦ inl (rw (short, accept_padded))
    | inr (ds, padded) ↦ inr (ds, pad_short_mac-Digits v padded, rw (padded, accept_padded))
  ])
]

normalise_mac-colon_pairs :
    (hex : Text) → Digits 12 hex → normalise_mac (colon_pairs hex) ≡ accept_digits hex
unfolding normalise_mac
normalise_mac-colon_pairs hex (ds, len) =
    rw (hex_digits-colon_pairs hex ds, (nat_beq_iff (length hex) 12).1 len)

normalise_mac-nil : normalise_mac [] ≡ []
unfolding normalise_mac split
normalise_mac-nil = refl

-- Normalising an address that is already normal changes nothing, so one device has one spelling.
pub normalise_mac_idem : (v : Text) → normalise_mac (normalise_mac v) ≡ normalise_mac v
normalise_mac_idem v = elim (normalise_mac-cases v) [
  | inl nothing ↦ rw nothing normalise_mac-nil
  | inr (hex, ds, e) ↦ elim (accept_digits-cases hex) [
    | inl rejected ↦ rw (e, rejected) normalise_mac-nil
    | inr kept ↦ rw e (ap normalise_mac kept ∙ normalise_mac-colon_pairs hex ds)
  ]
]

length-colon_pairs :
    (hex : Text) (k : ℕ) → length hex ≡ 2 * suc k → length (colon_pairs hex) ≡ 3 * k + 2
unfolding colon_pairs
length-colon_pairs [] k h = absurd (omega arith)
length-colon_pairs (a ∷ []) k h = absurd (omega arith)
length-colon_pairs (a ∷ b ∷ []) k h = omega arith
length-colon_pairs (a ∷ b ∷ c ∷ rest) zero h = absurd (omega arith)
length-colon_pairs (a ∷ b ∷ c ∷ rest) (suc k) h =
    omega (arith, length-colon_pairs (c ∷ rest) k (omega arith))

accept_digits-kept :
    (hex : Text)
    → accept_digits hex ≢ []
    → (accept_digits hex ≡ colon_pairs hex) × (is_multicast_mac hex ≡ false)
unfolding accept_digits
accept_digits-kept hex h = (ground arith, ground arith)

-- An address that is not rejected has seventeen characters, and its first octet is even: it is no
-- group address.
pub normalise_mac_shape :
    (v : Text)
    → normalise_mac v ≢ []
    → (length (normalise_mac v) ≡ 17) × (is_multicast_mac (hex_digits (normalise_mac v)) ≡ false)
normalise_mac_shape v h = elim (normalise_mac-cases v) [
  | inl nothing ↦ absurd (h nothing)
  | inr (hex, (ds, len), e) ↦
      let (kept, unicast) = accept_digits-kept hex (λ empty. h (e ∙ empty)) in
      rw (e, kept)
        (length-colon_pairs hex 5 (omega arith), rw (hex_digits-colon_pairs hex ds) unicast)
]
