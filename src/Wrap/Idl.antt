-- ===== src/Wrap/Idl.antt =====
-- The entries of sdk/src/idl/zksettle.json for the instructions that the SDK builds. Anchor shows the
-- names of the file in camel case.
use zksettle.Base.{Bool, true, false, List, [], ◌∷◌, String}
use zksettle.Base.Text.{codes}
use zksettle.Base.Bytes.{Bytes}

pub data AccountName : Type 0 where
  authority issuer hook_payload registry merkle_tree tree_config tree_creator : AccountName
  mint destination_token leaf_owner : AccountName
  bubblegum_program compression_program log_wrapper system_program : AccountName

-- `{"kind": "const"}` and `{"kind": "account"}`
pub data Seed : Type 0 where
  const_seed : Bytes → Seed
  account_seed : AccountName → Seed

-- An account: any, one with its `"address"`, or one with the seeds of its `"pda"`.
pub data Address : Type 0 where
  any_address : Address
  fixed_address : String → Address
  pda_address : List Seed → Address

pub record IdlAccount : Type 0 where
  pub name : AccountName
  pub writable : Bool
  pub signer : Bool
  pub address : Address

pub data ArgType : Type 0 where
  u8_array_32 u32 u64 pubkey bytes staged_light_args : ArgType

pub record IdlInstruction : Type 0 where
  pub name : String
  pub discriminator : Bytes
  pub accounts : List IdlAccount
  pub args : List ArgType

abbrev account : AccountName → Bool → Bool → Address → IdlAccount
account n w s a = record { name = n; writable = w; signer = s; address = a }

abbrev pub idl_register_issuer : IdlInstruction
idl_register_issuer = record {
  name = "register_issuer";
  discriminator = 145 ∷ 117 ∷ 52 ∷ 59 ∷ 189 ∷ 27 ∷ 127 ∷ 18 ∷ [];
  accounts =
      account authority true true any_address
      ∷ account issuer true false
          (pda_address (const_seed (codes "issuer") ∷ account_seed authority ∷ []))
      ∷ account system_program false false (fixed_address "11111111111111111111111111111111")
      ∷ [];
  args = u8_array_32 ∷ u8_array_32 ∷ u8_array_32 ∷ [];
}

abbrev pub idl_update_issuer_root : IdlInstruction
idl_update_issuer_root = record {
  name = "update_issuer_root";
  discriminator = 145 ∷ 255 ∷ 165 ∷ 254 ∷ 96 ∷ 129 ∷ 245 ∷ 249 ∷ [];
  accounts =
      account authority false true any_address
      ∷ account issuer true false
          (pda_address (const_seed (codes "issuer") ∷ account_seed authority ∷ []))
      ∷ [];
  args = u8_array_32 ∷ u8_array_32 ∷ u8_array_32 ∷ [];
}

abbrev pub idl_close_hook_payload : IdlInstruction
idl_close_hook_payload = record {
  name = "close_hook_payload";
  discriminator = 53 ∷ 220 ∷ 226 ∷ 75 ∷ 158 ∷ 12 ∷ 231 ∷ 141 ∷ [];
  accounts =
      account authority true true any_address
      ∷ account hook_payload true false
          (pda_address (const_seed (codes "hook-payload") ∷ account_seed authority ∷ []))
      ∷ [];
  args = [];
}

abbrev pub idl_init_hook_payload : IdlInstruction
idl_init_hook_payload = record {
  name = "init_hook_payload";
  discriminator = 103 ∷ 68 ∷ 111 ∷ 17 ∷ 4 ∷ 137 ∷ 159 ∷ 172 ∷ [];
  accounts =
      account authority true true any_address
      ∷ account issuer false false
          (pda_address (const_seed (codes "issuer") ∷ account_seed authority ∷ []))
      ∷ account hook_payload true false
          (pda_address (const_seed (codes "hook-payload") ∷ account_seed authority ∷ []))
      ∷ account system_program false false (fixed_address "11111111111111111111111111111111")
      ∷ [];
  args = u32 ∷ [];
}

abbrev pub idl_resize_hook_payload : IdlInstruction
idl_resize_hook_payload = record {
  name = "resize_hook_payload";
  discriminator = 178 ∷ 222 ∷ 42 ∷ 251 ∷ 26 ∷ 170 ∷ 146 ∷ 236 ∷ [];
  accounts =
      account authority true true any_address
      ∷ account issuer false false
          (pda_address (const_seed (codes "issuer") ∷ account_seed authority ∷ []))
      ∷ account hook_payload true false
          (pda_address (const_seed (codes "hook-payload") ∷ account_seed authority ∷ []))
      ∷ account system_program false false (fixed_address "11111111111111111111111111111111")
      ∷ [];
  args = [];
}

abbrev pub idl_write_hook_proof : IdlInstruction
idl_write_hook_proof = record {
  name = "write_hook_proof";
  discriminator = 245 ∷ 58 ∷ 118 ∷ 142 ∷ 68 ∷ 183 ∷ 252 ∷ 182 ∷ [];
  accounts =
      account authority false true any_address
      ∷ account issuer false false
          (pda_address (const_seed (codes "issuer") ∷ account_seed authority ∷ []))
      ∷ account hook_payload true false
          (pda_address (const_seed (codes "hook-payload") ∷ account_seed authority ∷ []))
      ∷ [];
  args = u32 ∷ bytes ∷ [];
}

abbrev pub idl_finalize_hook_payload : IdlInstruction
idl_finalize_hook_payload = record {
  name = "finalize_hook_payload";
  discriminator = 49 ∷ 120 ∷ 116 ∷ 7 ∷ 20 ∷ 41 ∷ 239 ∷ 107 ∷ [];
  accounts =
      account authority false true any_address
      ∷ account issuer false false
          (pda_address (const_seed (codes "issuer") ∷ account_seed authority ∷ []))
      ∷ account hook_payload true false
          (pda_address (const_seed (codes "hook-payload") ∷ account_seed authority ∷ []))
      ∷ [];
  args = u8_array_32 ∷ pubkey ∷ u64 ∷ pubkey ∷ u64 ∷ staged_light_args ∷ [];
}

abbrev pub idl_settle_hook : IdlInstruction
idl_settle_hook = record {
  name = "settle_hook";
  discriminator = 188 ∷ 162 ∷ 182 ∷ 6 ∷ 30 ∷ 19 ∷ 21 ∷ 139 ∷ [];
  accounts =
      account authority true true any_address
      ∷ account mint false false any_address
      ∷ account destination_token false false any_address
      ∷ account hook_payload true false
          (pda_address (const_seed (codes "hook-payload") ∷ account_seed authority ∷ []))
      ∷ account leaf_owner false false any_address
      ∷ account issuer false false any_address
      ∷ account registry false false (pda_address (const_seed (codes "bubblegum-registry") ∷ []))
      ∷ account merkle_tree true false any_address
      ∷ account tree_config true false any_address
      ∷ account tree_creator false false
          (pda_address (const_seed (codes "bubblegum-tree-creator") ∷ []))
      ∷ account bubblegum_program false false
          (fixed_address "BGUMAp9Gq7iTEuizy4pqaxsTyUCBK68MDfK752saRPUY")
      ∷ account compression_program false false
          (fixed_address "cmtDvXumGCrqC1Age74AVPhSRVXJMd8PJS91L8KbNCK")
      ∷ account log_wrapper false false
          (fixed_address "noopb9bkMVfRPU8AsbpTUg8AQkHtKwMYZiFUjNRtMmV")
      ∷ account system_program false false (fixed_address "11111111111111111111111111111111")
      ∷ [];
  args = u64 ∷ [];
}
