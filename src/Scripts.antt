-- ===== src/Scripts.antt =====
-- scripts/lib/benchmark-utils.ts: the upload of a proof and the accounts of a settlement, as the
-- benchmarks do them. A transaction changes the state of the network or fails and leaves it.
pub mod Upload
use zksettle.Base.{
  ℕ, zero, suc, ◌+◌, Bool, true, false, List, [], ◌∷◌, Option, none, some, Result, ok, err, ltb,
  if◌then◌else◌, take, drop, length, replicate,
}
use zksettle.Base.Bytes.{Bytes}
use zksettle.Web3.{Web3}
use zksettle.Upload.Program.{
  HookIx, init_hook_payload, write_hook_proof, finalize_hook_payload, FinalizeArgs, StagedLightArgs,
}
use zksettle.Upload.Chunks.{batches, chunk_size_default}
use zksettle.Wrap.Idl.{
  AccountName, authority, issuer, hook_payload, registry, merkle_tree, tree_config, tree_creator,
  mint, destination_token, leaf_owner, bubblegum_program, compression_program, log_wrapper,
  system_program,
}
use zksettle.Wrap.Pda.{
  zksettle_program_id, mpl_bubblegum_id, spl_account_compression_id, spl_noop_id,
  bubblegum_tree_creator_seed,
}

-- The network: `exists(hookPayloadPda)`, and what runs a transaction.
pub record Network (Key S E : Type 0) : Type 0 where
  pub exists : S → Bool
  pub close_hook_payload : S → Result E S
  pub send : List (HookIx Key) → S → Result E S

-- Where a run of transactions stops, and whether it threw.
abbrev pub Run : Type 0 → Type 0 → Type 0
Run S E = S × Result E (Unit {0})

abbrev pub default_light_args : StagedLightArgs
default_light_args = record {
  bubblegum_tail = 0;
  proof_present = false;
  proof_bytes = replicate 128 0;
  address_mt_index = 0;
  address_queue_index = 0;
  address_root_index = 0;
  output_state_tree_index = 0;
}

-- `NULLIFIER`
abbrev pub fixture_nullifier : Bytes
fixture_nullifier =
    29 ∷ 106 ∷ 200 ∷ 206 ∷ 233 ∷ 247 ∷ 178 ∷ 216 ∷ 240 ∷ 146 ∷ 169 ∷ 22 ∷ 154 ∷ 159 ∷ 73 ∷ 216 ∷ 27
    ∷ 177 ∷ 239 ∷ 102 ∷ 94 ∷ 33 ∷ 115 ∷ 36 ∷ 20 ∷ 220 ∷ 190 ∷ 85 ∷ 158 ∷ 160 ∷ 213 ∷ 96 ∷ []

-- `for (let off = 0; off < proofAndWitness.length; off += CHUNK_SIZE)`, on fuel.
unfoldable pub proof_writes : {Key : Type 0} → ℕ → ℕ → Bytes → List (HookIx Key)
proof_writes zero off proof = []
proof_writes (suc fuel) off proof =
    let more =
      write_hook_proof off (take chunk_size_default (drop off proof))
      ∷ proof_writes fuel (off + chunk_size_default) proof in
    if ltb off (length proof) then more else []

module _ {Key S E : Type 0} (net : Network Key S E) where
  -- Sends, and goes on unless it threw.
  unfoldable pub then_send : List (HookIx Key) → (S → Run S E) → S → Run S E
  then_send tx next s = elim (net.send tx s) [ err e ↦ (s, err e) | ok s' ↦ next s' ]

  -- The loop over the batches, and what follows.
  unfoldable pub send_each : List (List (HookIx Key)) → (S → Run S E) → S → Run S E
  unfolding then_send
  send_each [] next s = next s
  send_each (tx ∷ rest) next s = then_send tx (send_each rest next) s

  -- A payload of an earlier run is closed; that this throws is only logged.
  unfoldable pub close_before_upload : S → S
  close_before_upload s =
      if net.exists s then elim (net.close_hook_payload s) [ err e ↦ s | ok s' ↦ s' ] else s

  unfoldable pub upload_proof : Bytes → Key → Key → S → Run S E
  unfolding then_send send_each proof_writes close_before_upload
  upload_proof proof mint_key recipient_key s =
      then_send (init_hook_payload (length proof) ∷ [])
        (send_each (batches (proof_writes (length proof) 0 proof)) (
          then_send
            (finalize_hook_payload (record {
              nullifier_hash = fixture_nullifier;
              mint = mint_key;
              epoch = 0;
              recipient = recipient_key;
              amount = 1_000;
              light_args = default_light_args;
            })
              ∷ [])
            (λ s'. (s', ok tt))))
        (close_before_upload s)

module _ (w : Web3) where
  -- `pda(seeds)`
  abbrev pub pda : List Bytes → w.PublicKey
  pda seeds = (w.find_program_address seeds (zksettle_program_id w)).0

  unfoldable pub build_settle_accounts :
      (wallet hook_payload_pda issuer_pda mint recipient registry_pda merkle_tree : w.PublicKey)
      → List (AccountName × w.PublicKey)
  build_settle_accounts wallet hook_payload_pda issuer_pda mint_key recipient registry_pda tree =
      (authority, wallet)
      ∷ (mint, mint_key)
      ∷ (destination_token, recipient)
      ∷ (hook_payload, hook_payload_pda)
      ∷ (leaf_owner, recipient)
      ∷ (issuer, issuer_pda)
      ∷ (registry, registry_pda)
      ∷ (merkle_tree, tree)
      ∷ (tree_config, (w.find_program_address (w.to_buffer tree ∷ []) (mpl_bubblegum_id w)).0)
      ∷ (tree_creator, pda (bubblegum_tree_creator_seed ∷ []))
      ∷ (bubblegum_program, mpl_bubblegum_id w)
      ∷ (compression_program, spl_account_compression_id w)
      ∷ (log_wrapper, spl_noop_id w)
      ∷ (system_program, w.system_program)
      ∷ []
