-- ===== src/Networks/Resolve.antt =====
-- The networks are told apart by their genesis hashes (frontend/src/lib/snapshotNetwork.ts).
use Prim.Native.String.{String}
use text.Mathlib.Text.{◌==◌ as str_eq}
use text.Mathlib.TextEquality.{eq_iff}
use solana_governance.Common.{
  inl, inr, sym, Bool-cases, List, [], ◌∷◌, ◌≡◌, refl, ◌↔◌, Bool, true, Option, some, find?, arith,
  if◌then◌else◌,
}
use solana_governance.Networks.{
  KnownSnapshotNetwork, mainnet, devnet, testnet, cluster_genesis_hashes, networks,
  network_from_genesis_hash,
}

read_back :
    (network : KnownSnapshotNetwork)
    → network_from_genesis_hash (cluster_genesis_hashes network) ≡ some network
unfolding network_from_genesis_hash
read_back mainnet = refl
read_back devnet = refl
read_back testnet = refl

found {ℓ} :
    {A : Type ℓ} (p : A → Bool) (x y : A) (rest : Option A)
    → (if p y then some y else rest) ≡ some x
    → p y ≡ true
    → p x ≡ true
found p x y rest h e = ground arith

-- what is found passes the test
find?-test {ℓ} :
    {A : Type ℓ} (p : A → Bool) (xs : List A) (x : A) → find? p xs ≡ some x → p x ≡ true
find?-test p [] x h = absurd (cc)
find?-test p (y ∷ xs) x h = elim (Bool-cases (p y)) [
  | inl e ↦ found p x y (find? p xs) h e
  | inr e ↦ find?-test p xs x (ground arith)
]

-- The hash of each known cluster is read back as this cluster, and no other text is.
pub network_from_genesis_hash_iff :
    (genesis_hash : String) (network : KnownSnapshotNetwork)
    → (network_from_genesis_hash genesis_hash ≡ some network)
      ↔ (genesis_hash ≡ cluster_genesis_hashes network)
unfolding network_from_genesis_hash
network_from_genesis_hash_iff genesis_hash network = (
  λ h. sym (
      (eq_iff (cluster_genesis_hashes network) genesis_hash).0
        (find?-test (λ n. str_eq (cluster_genesis_hashes n) genesis_hash) networks network h)),
  λ h. rw h (read_back network),
)
