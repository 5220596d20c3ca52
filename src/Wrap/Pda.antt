-- ===== src/Wrap/Pda.antt =====
-- sdk/src/wrap/pda.ts and sdk/src/constants.ts: the addresses that the SDK derives for the zksettle
-- program.
use zksettle.Base.{ℕ, [], ◌∷◌}
use zksettle.Base.Text.{codes}
use zksettle.Base.Bytes.{Bytes}
use zksettle.Web3.{Web3}

abbrev pub issuer_seed : Bytes
issuer_seed = codes "issuer"

abbrev pub hook_payload_seed : Bytes
hook_payload_seed = codes "hook-payload"

abbrev pub bubblegum_registry_seed : Bytes
bubblegum_registry_seed = codes "bubblegum-registry"

abbrev pub bubblegum_tree_creator_seed : Bytes
bubblegum_tree_creator_seed = codes "bubblegum-tree-creator"

module _ (w : Web3) where
  open w use {PublicKey, from_base58, to_buffer, find_program_address}

  abbrev pub zksettle_program_id : PublicKey
  zksettle_program_id = from_base58 "2HexcvYg6zvQo6kf1ompmvG78GUKMTW292kp1wDdKzFk"

  abbrev pub mpl_bubblegum_id : PublicKey
  mpl_bubblegum_id = from_base58 "BGUMAp9Gq7iTEuizy4pqaxsTyUCBK68MDfK752saRPUY"

  abbrev pub spl_account_compression_id : PublicKey
  spl_account_compression_id = from_base58 "cmtDvXumGCrqC1Age74AVPhSRVXJMd8PJS91L8KbNCK"

  abbrev pub spl_noop_id : PublicKey
  spl_noop_id = from_base58 "noopb9bkMVfRPU8AsbpTUg8AQkHtKwMYZiFUjNRtMmV"

  abbrev pub find_issuer_pda : PublicKey → PublicKey → PublicKey × ℕ
  find_issuer_pda authority program_id =
      find_program_address (issuer_seed ∷ to_buffer authority ∷ []) program_id

  abbrev pub find_hook_payload_pda : PublicKey → PublicKey → PublicKey × ℕ
  find_hook_payload_pda authority program_id =
      find_program_address (hook_payload_seed ∷ to_buffer authority ∷ []) program_id

  abbrev pub find_registry_pda : PublicKey → PublicKey × ℕ
  find_registry_pda program_id = find_program_address (bubblegum_registry_seed ∷ []) program_id

  abbrev pub find_tree_creator_pda : PublicKey → PublicKey × ℕ
  find_tree_creator_pda program_id =
      find_program_address (bubblegum_tree_creator_seed ∷ []) program_id

  abbrev pub find_tree_config_pda : PublicKey → PublicKey × ℕ
  find_tree_config_pda merkle_tree =
      find_program_address (to_buffer merkle_tree ∷ []) mpl_bubblegum_id
