-- ===== src/Wrap.antt =====
-- The instruction builders of sdk/src/wrap/index.ts and the calls of sdk/src/issuer/index.ts: what they
-- hand to Anchor's `methods`, which makes the instruction from the IDL. Numbers are in the range of
-- their JavaScript type; a rejected RPC call is left out.
pub mod Idl
pub mod Pda
pub mod Resolved
use zksettle.Base.{ℕ, Bool, true, false, List, [], ◌∷◌, Option, none, some, String}
use zksettle.Base.Maybe.{◌>>=◌}
use zksettle.Base.Bytes.{Bytes}
use zksettle.Upload.Program.{StagedLightArgs}
use zksettle.Upload.Client.{default_light_args, or_default}
use zksettle.Web3.{Web3}
use zksettle.Wrap.Idl.{
  AccountName, authority, issuer, hook_payload, registry, merkle_tree, tree_config, tree_creator,
  mint, destination_token, leaf_owner, bubblegum_program, compression_program, log_wrapper,
  system_program,
}
use zksettle.Wrap.Pda.{
  zksettle_program_id, mpl_bubblegum_id, spl_account_compression_id, spl_noop_id, find_issuer_pda,
  find_hook_payload_pda, find_registry_pda, find_tree_creator_pda, find_tree_config_pda,
}

-- An argument: a number, an array of bytes, a `BN`, a key, a `Buffer`, or the object of light args.
pub data Arg (Key : Type 0) : Type 0 where
  number : ℕ → Arg Key
  byte_array : Bytes → Arg Key
  big_number : ℕ → Arg Key
  key : Key → Arg Key
  buffer : Bytes → Arg Key
  light_args_object : StagedLightArgs → Arg Key

-- `methods.<method>(…args).accounts(accounts)`
pub record AnchorCall (Key : Type 0) : Type 0 where
  pub method : String
  pub args : List (Arg Key)
  pub accounts : List (AccountName × Key)

pub record IssuerRoots : Type 0 where
  pub merkle_root : Bytes
  pub sanctions_root : Bytes
  pub jurisdiction_root : Bytes

-- The `metadata` of `buildFinalizeHookPayloadIx`.
pub record FinalizeMetadata (Key : Type 0) : Type 0 where
  pub nullifier_hash : Bytes
  pub mint : Key
  pub epoch : ℕ
  pub recipient : Key
  pub amount : ℕ
  pub light_args : Option StagedLightArgs

-- What is read of a fetched `hookPayload` account.
pub record StagedTransfer (Key : Type 0) : Type 0 where
  pub recipient : Key
  pub mint : Key

abbrev pub roots_args : {Key : Type 0} → IssuerRoots → List (Arg Key)
roots_args roots =
    byte_array roots.merkle_root
    ∷ byte_array roots.sanctions_root
    ∷ byte_array roots.jurisdiction_root
    ∷ []

module _ (w : Web3) where
  unfoldable pub build_register_issuer_ix :
      w.PublicKey → IssuerRoots → w.PublicKey → AnchorCall w.PublicKey
  build_register_issuer_ix wallet roots program_id = record {
    method = "register_issuer";
    args = roots_args roots;
    accounts =
        (authority, wallet)
        ∷ (issuer, (find_issuer_pda w wallet program_id).0)
        ∷ (system_program, w.system_program)
        ∷ [];
  }

  -- `registerIssuer` and `updateIssuerRoot` of the issuer module.
  unfoldable pub register_issuer_call : w.PublicKey → IssuerRoots → AnchorCall w.PublicKey
  register_issuer_call wallet roots = record {
    method = "register_issuer";
    args = roots_args roots;
    accounts =
        (authority, wallet)
        ∷ (issuer, (find_issuer_pda w wallet (zksettle_program_id w)).0)
        ∷ (system_program, w.system_program)
        ∷ [];
  }

  unfoldable pub update_issuer_root_call : w.PublicKey → IssuerRoots → AnchorCall w.PublicKey
  update_issuer_root_call wallet roots = record {
    method = "update_issuer_root";
    args = roots_args roots;
    accounts =
        (authority, wallet) ∷ (issuer, (find_issuer_pda w wallet (zksettle_program_id w)).0) ∷ [];
  }

  unfoldable pub build_close_hook_payload_ix : w.PublicKey → w.PublicKey → AnchorCall w.PublicKey
  build_close_hook_payload_ix wallet program_id = record {
    method = "close_hook_payload";
    args = [];
    accounts =
        (authority, wallet) ∷ (hook_payload, (find_hook_payload_pda w wallet program_id).0) ∷ [];
  }

  unfoldable pub build_init_hook_payload_ix : w.PublicKey → ℕ → w.PublicKey → AnchorCall w.PublicKey
  build_init_hook_payload_ix wallet proof_len program_id = record {
    method = "init_hook_payload";
    args = number proof_len ∷ [];
    accounts =
        (authority, wallet)
        ∷ (issuer, (find_issuer_pda w wallet program_id).0)
        ∷ (hook_payload, (find_hook_payload_pda w wallet program_id).0)
        ∷ (system_program, w.system_program)
        ∷ [];
  }

  unfoldable pub build_resize_hook_payload_ix : w.PublicKey → w.PublicKey → AnchorCall w.PublicKey
  build_resize_hook_payload_ix wallet program_id = record {
    method = "resize_hook_payload";
    args = [];
    accounts =
        (authority, wallet)
        ∷ (issuer, (find_issuer_pda w wallet program_id).0)
        ∷ (hook_payload, (find_hook_payload_pda w wallet program_id).0)
        ∷ (system_program, w.system_program)
        ∷ [];
  }

  unfoldable pub build_write_chunk_ix :
      w.PublicKey → ℕ → Bytes → w.PublicKey → AnchorCall w.PublicKey
  build_write_chunk_ix wallet offset chunk program_id = record {
    method = "write_hook_proof";
    args = number offset ∷ buffer chunk ∷ [];
    accounts =
        (authority, wallet)
        ∷ (issuer, (find_issuer_pda w wallet program_id).0)
        ∷ (hook_payload, (find_hook_payload_pda w wallet program_id).0)
        ∷ [];
  }

  unfoldable pub build_finalize_hook_payload_ix :
      w.PublicKey → FinalizeMetadata w.PublicKey → w.PublicKey → AnchorCall w.PublicKey
  build_finalize_hook_payload_ix wallet metadata program_id = record {
    method = "finalize_hook_payload";
    args =
        byte_array metadata.nullifier_hash
        ∷ key metadata.mint
        ∷ big_number metadata.epoch
        ∷ key metadata.recipient
        ∷ big_number metadata.amount
        ∷ light_args_object (or_default metadata.light_args default_light_args)
        ∷ [];
    accounts =
        (authority, wallet)
        ∷ (issuer, (find_issuer_pda w wallet program_id).0)
        ∷ (hook_payload, (find_hook_payload_pda w wallet program_id).0)
        ∷ [];
  }

  unfoldable pub settle_accounts :
      w.PublicKey
      → w.PublicKey
      → StagedTransfer w.PublicKey
      → w.PublicKey
      → List (AccountName × w.PublicKey)
  settle_accounts wallet tree payload program_id =
      (authority, wallet)
      ∷ (mint, payload.mint)
      ∷ (destination_token, payload.recipient)
      ∷ (hook_payload, (find_hook_payload_pda w wallet program_id).0)
      ∷ (leaf_owner, payload.recipient)
      ∷ (issuer, (find_issuer_pda w wallet program_id).0)
      ∷ (registry, (find_registry_pda w program_id).0)
      ∷ (merkle_tree, tree)
      ∷ (tree_config, (find_tree_config_pda w tree).0)
      ∷ (tree_creator, (find_tree_creator_pda w program_id).0)
      ∷ (bubblegum_program, mpl_bubblegum_id w)
      ∷ (compression_program, spl_account_compression_id w)
      ∷ (log_wrapper, spl_noop_id w)
      ∷ (system_program, w.system_program)
      ∷ []

  -- `account.<name>.fetch` of the registry's tree and of the staged transfer: `none` when it rejects.
  module _ (fetch_registry : w.PublicKey → Option w.PublicKey)
      (fetch_payload : w.PublicKey → Option (StagedTransfer w.PublicKey)) where
    unfoldable pub build_settle_hook_ix :
        w.PublicKey → ℕ → w.PublicKey → Option (AnchorCall w.PublicKey)
    unfolding settle_accounts
    build_settle_hook_ix wallet amount program_id = do
      tree ← fetch_registry (find_registry_pda w program_id).0
      payload ← fetch_payload (find_hook_payload_pda w wallet program_id).0
      some (record {
        method = "settle_hook";
        args = big_number amount ∷ [];
        accounts = settle_accounts wallet tree payload program_id;
      })

  -- `getAccountInfo`
  module _ (get_account_info : w.PublicKey → Option Bytes) where
    abbrev account_exists : w.PublicKey → Bool
    account_exists k = elim (get_account_info k) [ none ↦ false | some info ↦ true ]

    unfoldable pub check_issuer_exists : w.PublicKey → w.PublicKey → Bool
    check_issuer_exists wallet program_id = account_exists (find_issuer_pda w wallet program_id).0

    unfoldable pub check_hook_payload_exists : w.PublicKey → w.PublicKey → Bool
    check_hook_payload_exists wallet program_id =
        account_exists (find_hook_payload_pda w wallet program_id).0
