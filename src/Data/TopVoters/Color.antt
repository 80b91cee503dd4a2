-- ===== src/Data/TopVoters/Color.antt =====
-- The colour of a voter (frontend/src/hooks/useProposalVotes.ts).
use solana_governance.Common.{ℕ, ◌+◌, ◌*◌, ◌%◌, ◌^◌, ◌<◌, ◌≡◌, refl, ap, ◌∙◌, [], ◌∷◌, arith}
use solana_governance.Common.Int.{
  ℤ, pos, negsuc, pos_part, neg_part, ◌+ℤ◌, ◌-ℤ◌, ◌*ℤ◌, +ℤ_parts, -ℤ_parts,
}
use solana_governance.Common.Text.{Text}
use solana_governance.Data.TopVoters.{
  bits_32, signed_32, to_int_32, next_hash, hash_from, accent_colors, get_color_from_string,
}

-- the polynomial in 31, as an unsigned 32-bit number
abbrev pub polynomial : ℕ → Text → ℕ
polynomial u [] = u
polynomial u (char ∷ str) = polynomial ((31 * u + char) % 2 ^ 32) str

bits_lt : (z : ℤ) → bits_32 z < 2 ^ 32
bits_lt (pos n) = omega arith
bits_lt (negsuc n) = omega arith

bits-signed : (u : ℕ) → u < 2 ^ 32 → bits_32 (signed_32 u) ≡ u
bits-signed u h = ground arith

bits-to_int : (z : ℤ) → bits_32 (to_int_32 z) ≡ bits_32 z
unfolding to_int_32
bits-to_int z = bits-signed (bits_32 z) (bits_lt z)

-- the bits of an integer, up to a multiple of the modulus
bits_parts : (z : ℤ) → (bits_32 z + neg_part z) % 2 ^ 32 ≡ pos_part z % 2 ^ 32
bits_parts (pos n) = omega arith
bits_parts (negsuc n) = omega arith

-- and no other number below the modulus has this property
bits_unique :
    (z : ℤ) (u : ℕ) → u < 2 ^ 32 → (u + neg_part z) % 2 ^ 32 ≡ pos_part z % 2 ^ 32 → bits_32 z ≡ u
bits_unique z u h e = omega (arith, bits_parts z, bits_lt z, h, e)

*ℤ_parts :
    (z : ℤ) → pos_part (z *ℤ pos 32) + 32 * neg_part z ≡ neg_part (z *ℤ pos 32) + 32 * pos_part z
unfolding ◌*ℤ◌
*ℤ_parts z = ground arith

-- modulo the modulus
combined :
    (u t c n p nt pt ns ps nd pd nr pr : ℕ)
    → (u + n) % 2 ^ 32 ≡ p % 2 ^ 32
    → (t + ns) % 2 ^ 32 ≡ ps % 2 ^ 32
    → ps + 32 * n ≡ ns + 32 * p
    → (t + nt) % 2 ^ 32 ≡ pt % 2 ^ 32
    → pd + nt + p ≡ nd + pt + n
    → pr + nd ≡ nr + pd + c
    → ((31 * u + c) % 2 ^ 32 + nr) % 2 ^ 32 ≡ pr % 2 ^ 32
combined u t c n p nt pt ns ps nd pd nr pr h1 h2 h3 h4 h5 h6 = omega (arith, h1, h2, h3, h4, h5, h6)

bits-next_hash :
    (hash : ℤ) (char : ℕ) → bits_32 (next_hash hash char) ≡ (31 * bits_32 hash + char) % 2 ^ 32
unfolding next_hash
bits-next_hash hash char =
    let shifted = to_int_32 (hash *ℤ pos 32) in
    let difference = shifted -ℤ hash in
    let sum = difference +ℤ pos char in
    let goal : ((31 * bits_32 hash + char) % 2 ^ 32 + neg_part sum) % 2 ^ 32
        ≡ pos_part sum % 2 ^ 32 =
      combined (bits_32 hash) (bits_32 shifted) char (neg_part hash) (pos_part hash)
        (neg_part shifted) (pos_part shifted) (neg_part (hash *ℤ pos 32))
        (pos_part (hash *ℤ pos 32)) (neg_part difference) (pos_part difference) (neg_part sum)
        (pos_part sum) (bits_parts hash)
        (ap (λ t. (t + neg_part (hash *ℤ pos 32)) % 2 ^ 32) (bits-to_int (hash *ℤ pos 32))
          ∙ bits_parts (hash *ℤ pos 32))
        (*ℤ_parts hash) (bits_parts shifted) (omega (arith, -ℤ_parts shifted hash))
        (omega (arith, +ℤ_parts difference (pos char))) in
    bits-to_int sum ∙ bits_unique sum ((31 * bits_32 hash + char) % 2 ^ 32) (omega arith) goal

bits-hash_from :
    (hash : ℤ) (str : Text) → bits_32 (hash_from hash str) ≡ polynomial (bits_32 hash) str
unfolding hash_from
bits-hash_from hash [] = refl
bits-hash_from hash (char ∷ str) =
    bits-hash_from (next_hash hash char) str ∙ ap (λ u. polynomial u str) (bits-next_hash hash char)

-- The hash of a name is the polynomial in 31 of its code units on 32 bits, as a signed number, and the
-- colour, its magnitude by the number of colours, is one of the colours.
pub get_color_from_string-bounds :
    (str : Text)
    → (bits_32 (hash_from (pos 0) str) ≡ polynomial 0 str)
      × (get_color_from_string str < accent_colors)
unfolding get_color_from_string
get_color_from_string-bounds str = (bits-hash_from (pos 0) str, omega arith)
