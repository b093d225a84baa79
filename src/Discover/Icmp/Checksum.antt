-- ===== src/Discover/Icmp/Checksum.antt =====
-- internal/discover/icmp.go: the loop of `checksum` ends, and a packet that carries its checksum
-- adds up.
use pulsitor_lan_agent.Base.{
  ℕ, suc, ◌+◌, ◌-◌, ◌*◌, ◌/◌, ◌%◌, ◌^◌, ◌≤◌, ◌<◌, ◌≡◌, inl, inr, ap, subst, ◌∙◌, some, [], ◌∷◌,
  arith, ltb, Bool-cases, nat_eq, Text, text_eq, texts_eq, int_eq, length, All,
}
use pulsitor_lan_agent.Discover.Icmp.Packet.{
  sum_words, fold, or_zero, checksum, put_checksum, echo_request, probe_packet,
}

-- What the loop makes of a sum: a number of 16 bits that is the same modulo 65535, and 0 only for 0.
abbrev pub Folds : ℕ → ℕ → Type 0
Folds sum r = (r < 65536) × (((k : ℕ) × (sum ≡ r + k * 65535)) × (0 < sum → 0 < r))

fold_step :
    (fuel sum r : ℕ)
    → 0 < sum / 65536
    → fold fuel (sum % 65536 + sum / 65536) ≡ some r
    → fold (suc fuel) sum ≡ some r
unfolding fold
fold_step fuel sum r h e = ground (arith, e)

fold_stop : (fuel sum : ℕ) → sum < 65536 → fold (suc fuel) sum ≡ some sum
unfolding fold
fold_stop fuel sum h = ground arith

-- The loop of `checksum` ends on any sum of 32 bits, after two rounds at most, with a number of 16
-- bits that is the same modulo 65535 and is zero only for zero.
pub fold_ends : (sum : ℕ) → sum < 2 ^ 32 → (r : ℕ) × ((fold 3 sum ≡ some r) × Folds sum r)
fold_ends sum h = elim (Bool-cases (ltb 65535 sum)) [
  | inr small ↦ (sum, (fold_stop 2 sum (ground arith), (ground arith, ((0, omega arith), λ p. p))))
  | inl large ↦
      let one = sum % 65536 + sum / 65536 in
      let first : 0 < sum / 65536 = ground arith in
      let same : sum ≡ one + sum / 65536 * 65535 = omega arith in
      elim (Bool-cases (ltb 65535 one)) [
        | inr small ↦ (
          one,
          (
            fold_step 2 sum one first (fold_stop 1 one (ground arith)),
            (ground arith, ((sum / 65536, same), λ p. omega arith)),
          ),
        )
        | inl large ↦
            let two = one % 65536 + one / 65536 in
            let second : 0 < one / 65536 = ground arith in
            let below : two < 65536 = omega arith in
            (
              two,
              (
                fold_step 2 sum two first (fold_step 1 one two second (fold_stop 0 two below)),
                (below, ((sum / 65536 + one / 65536, omega arith), λ p. omega arith)),
              ),
            )
      ]
]

-- The sum of the words of a packet, without wrapping.
total : Text → ℕ
total [] = 0
total (high ∷ []) = high * 256
total (high ∷ low ∷ rest) = high * 256 + low + total rest

abbrev pub IsBytes : Text → Type 0
IsBytes = All (λ b. b < 256)

total_bound : (packet : Text) → IsBytes packet → total packet ≤ 65535 * length packet
unfolding total
total_bound [] h = omega arith
total_bound (high ∷ []) h = let top = h.0 in omega arith
total_bound (high ∷ low ∷ rest) h =
    let top = h.0 in let next = h.1.0 in let others = total_bound rest h.1.1 in omega arith

sum_words-total :
    (packet : Text) (sum : ℕ)
    → sum + total packet < 2 ^ 32
    → sum_words sum packet ≡ sum + total packet
unfolding total sum_words
sum_words-total [] sum h = omega arith
sum_words-total (high ∷ []) sum h = omega arith
sum_words-total (high ∷ low ∷ rest) sum h =
    let whole : (sum + (high * 256 + low)) % 2 ^ 32 ≡ sum + (high * 256 + low) = omega arith in
    let later = sum_words-total rest (sum + (high * 256 + low)) (omega arith) in
    ap (λ s. sum_words s rest) whole ∙ (later ∙ omega arith)

-- The checksum of bytes that are few enough not to wrap.
checksum-total :
    (packet : Text)
    → total packet < 2 ^ 32
    → (r : ℕ) × ((checksum packet ≡ 65535 - r) × Folds (total packet) r)
unfolding checksum or_zero
checksum-total packet h =
    let (r, (ends, folds)) = fold_ends (total packet) h in
    let sum : sum_words 0 packet ≡ total packet =
      sum_words-total packet 0 (omega arith) ∙ omega arith in
    (r, (rw (sum, ends), folds))

-- What folds to `r`, and to `t` with the complement of `r` added, gives the sum of all ones.
all_ones : (sum r t : ℕ) → Folds sum r → Folds (sum + (65535 - r)) t → 65535 - t ≡ 0
all_ones sum r t (low, ((k, e), more)) (low', ((k', e'), more')) =
    let some_bit : 0 < sum + (65535 - r) = omega arith in let bit = more' some_bit in omega arith

total-filled :
    (a b n : ℕ) (rest : Text)
    → total (a ∷ b ∷ n / 256 ∷ n % 256 ∷ rest) ≡ total (a ∷ b ∷ 0 ∷ 0 ∷ rest) + n
unfolding total
total-filled a b n rest = omega arith

checksum-filled :
    (a b : ℕ) (rest : Text)
    → IsBytes (a ∷ b ∷ 0 ∷ 0 ∷ rest)
    → length rest ≤ 1500
    → checksum (put_checksum (checksum (a ∷ b ∷ 0 ∷ 0 ∷ rest)) (a ∷ b ∷ 0 ∷ 0 ∷ rest)) ≡ 0
unfolding put_checksum
checksum-filled a b rest bytes short =
    let packet = a ∷ b ∷ 0 ∷ 0 ∷ rest in
    let bound = total_bound packet bytes in
    let (r, (computed, folds)) = checksum-total packet (omega arith) in
    let n = checksum packet in
    let sum = total-filled a b n rest in
    let (t, (again, folds')) = checksum-total (a ∷ b ∷ n / 256 ∷ n % 256 ∷ rest) (omega arith) in
    again
    ∙ all_ones (total packet) r t folds
        (subst (λ s. Folds s t) (sum ∙ ap (λ c. total packet + c) computed) folds')

-- A probe carries a valid checksum: the sum over the whole packet comes out as zero, which is what
-- the receiver checks, for a nonce of at most 1000 bytes.
pub checksum-probe_packet :
    (index : ℕ) (nonce : Text)
    → IsBytes nonce
    → length nonce ≤ 1000
    → checksum (probe_packet index nonce) ≡ 0
unfolding probe_packet echo_request put_checksum
checksum-probe_packet index nonce bytes short =
    let sequence = index % 65536 in
    checksum-filled 8 0 (0 ∷ 0 ∷ sequence / 256 ∷ sequence % 256 ∷ nonce)
      (
        omega arith,
        (
          omega arith,
          (
            omega arith,
            (omega arith, (omega arith, (omega arith, (omega arith, (omega arith, bytes))))),
          ),
        ),
      )
      (omega arith)
