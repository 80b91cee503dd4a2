-- ===== src/Data/Memcmp/Layout.antt =====
-- The offsets of the filters of frontend/src/data/ are those of the fields in the accounts' data.
use Prim.Native.String.{String}
use solana_governance.Common.{
  ℕ, zero, suc, ◌+◌, ◌≡◌, refl, sym, ap, ◌∙◌, Bool, true, not, ◌&&◌, ◌||◌, List, [], ◌∷◌, ◌++◌,
  length, arith, Bool-cases, inl, inr, All, ◌==◌,
}
use solana_governance.Common.Text.{Text as Bytes, starts_with, text_eq, drop}
use solana_governance.Common.Sort.Laws.{keep}
use solana_governance.Data.Memcmp.{
  Memcmp, OverrideField, SupportField, VoteField, Filter, override_offset, support_offset,
  vote_offset, memcmp_of, has_value, filters_to_memcmp, VoteOverrideBytes, SupportBytes, VoteBytes,
  override_data, support_data, vote_data,
}

-- past a whole part
skip : (p s : Bytes) (n m : ℕ) → length p ≡ n → drop (n + m) (p ++ s) ≡ drop m s
skip [] s zero m h = ap (λ i. drop i s) (omega arith)
skip [] s (suc n) m h = absurd (omega (arith, h))
skip (c ∷ p) s zero m h = absurd (omega (arith, h))
skip (c ∷ p) s (suc n) m h =
    let moved : suc n + m ≡ suc (n + m) = omega arith in
    ap (λ i. drop i (c ∷ (p ++ s))) moved ∙ skip p s n m (omega (arith, h))

starts_with-key :
    (key rest k : Bytes) → length key ≡ length k → starts_with (key ++ rest) k ≡ text_eq key k
unfolding starts_with text_eq
starts_with-key [] [] [] h = refl
starts_with-key [] (c ∷ rest) [] h = refl
starts_with-key [] rest (d ∷ k) h = absurd (omega (arith, h))
starts_with-key (c ∷ key) rest [] h = absurd (omega (arith, h))
starts_with-key (c ∷ key) rest (d ∷ k) h =
    ap (λ b. (c == d) && b) (starts_with-key key rest k (omega (arith, h)))

abbrev pub IsKey : Bytes → Type 0
IsKey k = length k ≡ 32

abbrev pub IsOverride : VoteOverrideBytes → Type 0
IsOverride a =
    (length a.discriminator ≡ 8)
    × IsKey a.delegator_key
    × IsKey a.stake_account_key
    × IsKey a.validator_key
    × IsKey a.proposal_key

abbrev pub IsSupport : SupportBytes → Type 0
IsSupport a = (length a.discriminator ≡ 8) × IsKey a.proposal_key × IsKey a.validator_key

abbrev pub IsVote : VoteBytes → Type 0
IsVote a = (length a.discriminator ≡ 8) × IsKey a.validator_key × IsKey a.proposal_key

abbrev pub override_key : VoteOverrideBytes → OverrideField → Bytes
override_key a OverrideField.delegator = a.delegator_key
override_key a OverrideField.stake_account = a.stake_account_key
override_key a OverrideField.validator = a.validator_key
override_key a OverrideField.proposal = a.proposal_key

abbrev pub support_key : SupportBytes → SupportField → Bytes
support_key a SupportField.proposal = a.proposal_key
support_key a SupportField.validator = a.validator_key

abbrev pub vote_key : VoteBytes → VoteField → Bytes
vote_key a VoteField.validator = a.validator_key
vote_key a VoteField.proposal = a.proposal_key

-- a field stands at its offset
abbrev StandsAt : ℕ → Bytes → Bytes → Type 0
StandsAt n key content = (k : Bytes) → IsKey k → starts_with (drop n content) k ≡ text_eq key k

first_part :
    (p key rest : Bytes) (n : ℕ) → length p ≡ n → IsKey key → StandsAt n key (p ++ (key ++ rest))
first_part p key rest n h l k i =
    ap (λ s. starts_with s k)
      (ap (λ m. drop m (p ++ (key ++ rest))) (omega (arith, h)) ∙ skip p (key ++ rest) n 0 h)
    ∙ starts_with-key key rest k (l ∙ sym i)

behind_part :
    (p key s : Bytes) (n m : ℕ) → length p ≡ n → StandsAt m key s → StandsAt (n + m) key (p ++ s)
behind_part p key s n m h a k i = ap (λ t. starts_with t k) (skip p s n m h) ∙ a k i

override-StandsAt :
    (a : VoteOverrideBytes) (f : OverrideField)
    → IsOverride a
    → StandsAt (override_offset f) (override_key a f) (override_data a)
override-StandsAt a OverrideField.delegator w =
    first_part a.discriminator a.delegator_key _ 8 w.0 w.1
override-StandsAt a OverrideField.stake_account w =
    behind_part a.discriminator a.stake_account_key _ 8 32 w.0
      (first_part a.delegator_key a.stake_account_key _ 32 w.1 w.2)
override-StandsAt a OverrideField.validator w =
    behind_part a.discriminator a.validator_key _ 8 64 w.0 (
      behind_part a.delegator_key a.validator_key _ 32 32 w.1
        (first_part a.stake_account_key a.validator_key _ 32 w.2 w.3))
override-StandsAt a OverrideField.proposal w =
    behind_part a.discriminator a.proposal_key _ 8 96 w.0 (
      behind_part a.delegator_key a.proposal_key _ 32 64 w.1 (
        behind_part a.stake_account_key a.proposal_key _ 32 32 w.2
          (first_part a.validator_key a.proposal_key _ 32 w.3 w.4)))

support-StandsAt :
    (a : SupportBytes) (f : SupportField)
    → IsSupport a
    → StandsAt (support_offset f) (support_key a f) (support_data a)
support-StandsAt a SupportField.proposal w = first_part a.discriminator a.proposal_key _ 8 w.0 w.1
support-StandsAt a SupportField.validator w =
    behind_part a.discriminator a.validator_key _ 8 32 w.0
      (first_part a.proposal_key a.validator_key _ 32 w.1 w.2)

vote-StandsAt :
    (a : VoteBytes) (f : VoteField)
    → IsVote a
    → StandsAt (vote_offset f) (vote_key a f) (vote_data a)
vote-StandsAt a VoteField.validator w = first_part a.discriminator a.validator_key _ 8 w.0 w.1
vote-StandsAt a VoteField.proposal w =
    behind_part a.discriminator a.proposal_key _ 8 32 w.0
      (first_part a.validator_key a.proposal_key _ 32 w.1 w.2)

-- the service selects an account that passes every filter
abbrev pub passes : (Memcmp → Bytes → Bool) → List Memcmp → Bytes → Bool
passes compares [] content = true
passes compares (m ∷ ms) content = compares m content && passes compares ms content

-- the fields have the values of the filters, where these have one
abbrev pub matches :
    {F : Type 0} → (F → ℕ) → (String → Bytes) → (F → Bytes) → List (Filter F) → Bool
matches offset_of decode key [] = true
matches offset_of decode key (f ∷ fs) =
    (not (has_value offset_of f) || text_eq (key f.name) (decode f.value))
    && matches offset_of decode key fs

module _ {F : Type 0} (offset_of : F → ℕ) (compares : Memcmp → Bytes → Bool)
    (decode : String → Bytes) where
  -- what the service documents: the bytes at the offset are those of the text
  abbrev pub IsMemcmp : Type 0
  IsMemcmp =
      (m : Memcmp) (content : Bytes)
      → compares m content ≡ starts_with (drop m.offset content) (decode m.bytes)

  -- the texts of the filters are those of keys
  abbrev pub AreKeys : List (Filter F) → Type 0
  AreKeys filters = All (λ f. IsKey (decode f.value)) filters

  passes-matches :
      (content : Bytes) (key : F → Bytes) (filters : List (Filter F))
      → IsMemcmp
      → ((f : F) → StandsAt (offset_of f) (key f) content)
      → AreKeys filters
      → passes compares (filters_to_memcmp offset_of filters) content
        ≡ matches offset_of decode key filters
  unfolding filters_to_memcmp keep
  passes-matches content key [] d s k = refl
  passes-matches content key (f ∷ filters) d s k = elim (Bool-cases (has_value offset_of f)) [
    | inl h ↦ ground (
      arith,
      d (memcmp_of offset_of f) content,
      s f.name (decode f.value) k.0,
      passes-matches content key filters d s k.1,
    )
    | inr h ↦ ground (arith, passes-matches content key filters d s k.1)
  ]

-- The service selects just the accounts whose fields have the values of the filters, of overrides, of
-- supports and of votes, for filters whose texts are those of keys, and if the service compares the
-- bytes at the offset.
pub filters_to_memcmp-selects :
    (compares : Memcmp → Bytes → Bool) (decode : String → Bytes)
    (overrides : List (Filter OverrideField)) (supports : List (Filter SupportField))
    (votes : List (Filter VoteField)) (o : VoteOverrideBytes) (s : SupportBytes) (v : VoteBytes)
    → IsMemcmp override_offset compares decode
    → AreKeys override_offset compares decode overrides
    → AreKeys support_offset compares decode supports
    → AreKeys vote_offset compares decode votes
    → IsOverride o
    → IsSupport s
    → IsVote v
    → (passes compares (filters_to_memcmp override_offset overrides) (override_data o)
        ≡ matches override_offset decode (override_key o) overrides)
      × (passes compares (filters_to_memcmp support_offset supports) (support_data s)
          ≡ matches support_offset decode (support_key s) supports)
      × (passes compares (filters_to_memcmp vote_offset votes) (vote_data v)
          ≡ matches vote_offset decode (vote_key v) votes)
filters_to_memcmp-selects compares decode overrides supports votes o s v d ko ks kv io is iv = (
  passes-matches override_offset compares decode (override_data o) (override_key o) overrides d
      (λ f. override-StandsAt o f io) ko,
  passes-matches support_offset compares decode (support_data s) (support_key s) supports d
      (λ f. support-StandsAt s f is) ks,
  passes-matches vote_offset compares decode (vote_data v) (vote_key v) votes d
      (λ f. vote-StandsAt v f iv) kv,
)
