-- ===== src/Prove/Noir.antt =====
-- `toNoirInputs` of sdk/src/prove/index.ts, which frontend/src/hooks/use-proof-generation.ts repeats:
-- the inputs under the names of the parameters of circuits/src/main.nr.
use zksettle.Base.Text.{Text, codes}
use zksettle.Base.{ℕ, List, Option, ◌∷◌, [], none, some, if◌then◌else◌, ◌≡◌, refl}
use zksettle.Base.Bytes.{bytes_eq}
use zksettle.Base.Maybe.{◌>>=◌}
use zksettle.ProveFlow.Inputs.{ProofInputs}

pub data NoirValue : Type 0 where
  field : Text → NoirValue
  fields : List Text → NoirValue
  bits : List ℕ → NoirValue

unfoldable pub to_noir_inputs : ProofInputs → List (Text × NoirValue)
to_noir_inputs inputs =
    (codes "merkle_root", field inputs.merkle_root)
    ∷ (codes "nullifier", field inputs.nullifier)
    ∷ (codes "mint_lo", field inputs.mint_lo)
    ∷ (codes "mint_hi", field inputs.mint_hi)
    ∷ (codes "epoch", field inputs.epoch)
    ∷ (codes "recipient_lo", field inputs.recipient_lo)
    ∷ (codes "recipient_hi", field inputs.recipient_hi)
    ∷ (codes "amount", field inputs.amount)
    ∷ (codes "sanctions_root", field inputs.sanctions_root)
    ∷ (codes "jurisdiction_root", field inputs.jurisdiction_root)
    ∷ (codes "timestamp", field inputs.timestamp)
    ∷ (codes "wallet", field inputs.wallet)
    ∷ (codes "path", fields inputs.path)
    ∷ (codes "path_indices", bits inputs.path_indices)
    ∷ (codes "private_key", field inputs.private_key)
    ∷ (codes "sanctions_path", fields inputs.sanctions_path)
    ∷ (codes "sanctions_path_indices", bits inputs.sanctions_path_indices)
    ∷ (codes "sanctions_leaf_value", field inputs.sanctions_leaf_value)
    ∷ (codes "jurisdiction", field inputs.jurisdiction)
    ∷ (codes "jurisdiction_path", fields inputs.jurisdiction_path)
    ∷ (codes "jurisdiction_path_indices", bits inputs.jurisdiction_path_indices)
    ∷ (codes "credential_expiry", field inputs.credential_expiry)
    ∷ []

abbrev lookup : Text → List (Text × NoirValue) → Option NoirValue
unfolding bytes_eq
lookup name [] = none
lookup name ((n, v) ∷ rest) = if bytes_eq n name then some v else lookup name rest

-- A parameter `name: Field`, `name: [Field; N]` or `name: [u1; N]`.
abbrev field_of : Text → List (Text × NoirValue) → Option Text
field_of name inputs = elim (lookup name inputs) [ some (field v) ↦ some v | _ ↦ none ]

abbrev fields_of : Text → List (Text × NoirValue) → Option (List Text)
fields_of name inputs = elim (lookup name inputs) [ some (fields v) ↦ some v | _ ↦ none ]

abbrev bits_of : Text → List (Text × NoirValue) → Option (List ℕ)
bits_of name inputs = elim (lookup name inputs) [ some (bits v) ↦ some v | _ ↦ none ]

-- The parameters of `main` in circuits/src/main.nr, each read by its name and with its type.
unfoldable pub circuit_arguments : List (Text × NoirValue) → Option ProofInputs
unfolding bytes_eq
circuit_arguments inputs = do
  merkle_root ← field_of (codes "merkle_root") inputs
  nullifier ← field_of (codes "nullifier") inputs
  mint_lo ← field_of (codes "mint_lo") inputs
  mint_hi ← field_of (codes "mint_hi") inputs
  epoch ← field_of (codes "epoch") inputs
  recipient_lo ← field_of (codes "recipient_lo") inputs
  recipient_hi ← field_of (codes "recipient_hi") inputs
  amount ← field_of (codes "amount") inputs
  sanctions_root ← field_of (codes "sanctions_root") inputs
  jurisdiction_root ← field_of (codes "jurisdiction_root") inputs
  timestamp ← field_of (codes "timestamp") inputs
  wallet ← field_of (codes "wallet") inputs
  path ← fields_of (codes "path") inputs
  path_indices ← bits_of (codes "path_indices") inputs
  private_key ← field_of (codes "private_key") inputs
  sanctions_path ← fields_of (codes "sanctions_path") inputs
  sanctions_path_indices ← bits_of (codes "sanctions_path_indices") inputs
  sanctions_leaf_value ← field_of (codes "sanctions_leaf_value") inputs
  jurisdiction ← field_of (codes "jurisdiction") inputs
  jurisdiction_path ← fields_of (codes "jurisdiction_path") inputs
  jurisdiction_path_indices ← bits_of (codes "jurisdiction_path_indices") inputs
  credential_expiry ← field_of (codes "credential_expiry") inputs
  some (record {
    merkle_root = merkle_root;
    nullifier = nullifier;
    mint_lo = mint_lo;
    mint_hi = mint_hi;
    epoch = epoch;
    recipient_lo = recipient_lo;
    recipient_hi = recipient_hi;
    amount = amount;
    sanctions_root = sanctions_root;
    jurisdiction_root = jurisdiction_root;
    timestamp = timestamp;
    wallet = wallet;
    path = path;
    path_indices = path_indices;
    private_key = private_key;
    sanctions_path = sanctions_path;
    sanctions_path_indices = sanctions_path_indices;
    sanctions_leaf_value = sanctions_leaf_value;
    jurisdiction = jurisdiction;
    jurisdiction_path = jurisdiction_path;
    jurisdiction_path_indices = jurisdiction_path_indices;
    credential_expiry = credential_expiry;
  })

-- Whatever the inputs, the circuit gets each of them in the parameter of its name and with the
-- parameter's type, and no parameter is missing.
pub circuit_arguments-to_noir_inputs :
    (inputs : ProofInputs) → circuit_arguments (to_noir_inputs inputs) ≡ some inputs
unfolding circuit_arguments to_noir_inputs bytes_eq
circuit_arguments-to_noir_inputs inputs = refl
