-- ===== src/Wrap/Resolved.antt =====
-- What the builders hand to Anchor is what the IDL asks for.
use zksettle.Base.Maybe.{some_inj}
use zksettle.Base.{
  ℕ, List, [], ◌∷◌, Option, none, some, ◌≡◌, refl, ◌<◌, ◌^◌, length, map, ◌==◌, if◌then◌else◌,
  subst, Option-cases, inl, inr, ap,
}
use zksettle.Base.Bytes.{Bytes}
use zksettle.Web3.{Web3}
use zksettle.Wrap.Idl.{
  AccountName, Seed, IdlAccount, IdlInstruction, ArgType, u32, u64, u8_array_32, pubkey, bytes,
  staged_light_args, const_seed, account_seed, any_address, fixed_address, pda_address, authority,
  issuer, hook_payload, registry, merkle_tree, tree_config, tree_creator, mint, destination_token,
  leaf_owner, bubblegum_program, compression_program, log_wrapper, system_program,
  idl_register_issuer, idl_update_issuer_root, idl_close_hook_payload, idl_init_hook_payload,
  idl_resize_hook_payload, idl_write_hook_proof, idl_finalize_hook_payload, idl_settle_hook,
}
use zksettle.Wrap.Pda.{zksettle_program_id, find_registry_pda, find_hook_payload_pda}
use zksettle.Wrap.{
  Arg, number, byte_array, big_number, key, buffer, light_args_object, AnchorCall, IssuerRoots,
  FinalizeMetadata, StagedTransfer, build_register_issuer_ix, register_issuer_call,
  update_issuer_root_call, build_close_hook_payload_ix, build_init_hook_payload_ix,
  build_resize_hook_payload_ix, build_write_chunk_ix, build_finalize_hook_payload_ix,
  build_settle_hook_ix, settle_accounts, find_registry_pda, find_hook_payload_pda,
}

abbrev index : AccountName → ℕ
index authority = 0
index issuer = 1
index hook_payload = 2
index registry = 3
index merkle_tree = 4
index tree_config = 5
index tree_creator = 6
index mint = 7
index destination_token = 8
index leaf_owner = 9
index bubblegum_program = 10
index compression_program = 11
index log_wrapper = 12
index system_program = 13

abbrev lookup : {Key : Type 0} → AccountName → List (AccountName × Key) → Option Key
lookup name [] = none
lookup name ((n, k) ∷ rest) = if index n == index name then some k else lookup name rest

-- The argument has the type of the IDL, and its value fits.
abbrev pub HasType : {Key : Type 0} → Arg Key → ArgType → Type 0
HasType (number n) u32 = n < 2 ^ 32
HasType (byte_array bs) u8_array_32 = length bs ≡ 32
HasType (big_number n) u64 = n < 2 ^ 64
HasType (key k) pubkey = Unit {0}
HasType (buffer b) bytes = Unit {0}
HasType (light_args_object a) staged_light_args = Unit {0}
HasType _ _ = ⊥

abbrev pub HaveTypes : {Key : Type 0} → List (Arg Key) → List ArgType → Type 0
HaveTypes [] [] = Unit {0}
HaveTypes (a ∷ args) (t ∷ types) = HasType a t × HaveTypes args types
HaveTypes _ _ = ⊥

module _ (w : Web3) where
  abbrev seed_bytes : List (AccountName × w.PublicKey) → Seed → Bytes
  seed_bytes accounts (const_seed bs) = bs
  seed_bytes accounts (account_seed name) = elim (lookup name accounts) [
    | none ↦ []
    | some k ↦ w.to_buffer k
  ]

  -- Each account that the IDL fixes stands at its address.
  abbrev AreAddressed : w.PublicKey → List (AccountName × w.PublicKey) → List IdlAccount → Type 0
  AreAddressed program_id accounts [] = Unit {0}
  AreAddressed program_id accounts (a ∷ idl) = elim a.address [
    | any_address ↦ AreAddressed program_id accounts idl
    | fixed_address text ↦
        (lookup a.name accounts ≡ some (w.from_base58 text)) × AreAddressed program_id accounts idl
    | pda_address seeds ↦
        (lookup a.name accounts
          ≡ some (w.find_program_address (map (seed_bytes accounts) seeds) program_id).0)
        × AreAddressed program_id accounts idl
  ]

  -- Only the wallet signs.
  abbrev AreSigners : w.PublicKey → List (AccountName × w.PublicKey) → List IdlAccount → Type 0
  AreSigners wallet accounts [] = Unit {0}
  AreSigners wallet accounts (a ∷ idl) =
      if a.signer
      then (lookup a.name accounts ≡ some wallet) × AreSigners wallet accounts idl
      else AreSigners wallet accounts idl

  -- The call names the instruction, gives its arguments, and gives each of its accounts.
  abbrev pub IsResolved :
      w.PublicKey → w.PublicKey → IdlInstruction → AnchorCall w.PublicKey → Type 0
  IsResolved wallet program_id idl call =
      (call.method ≡ idl.name)
      × HaveTypes call.args idl.args
      × (map (λ given. given.0) call.accounts ≡ map (λ a. a.name) idl.accounts)
      × AreAddressed program_id call.accounts idl.accounts
      × AreSigners wallet call.accounts idl.accounts

-- The calls that the SDK makes.
pub data SdkCall (Key : Type 0) : Type 0 where
  register issuer_register issuer_update : IssuerRoots → SdkCall Key
  close resize : SdkCall Key
  init : (proof_len : ℕ) → SdkCall Key
  write : (offset : ℕ) (chunk : Bytes) → SdkCall Key
  finalize : FinalizeMetadata Key → SdkCall Key
  settle : (amount : ℕ) → SdkCall Key

abbrev pub idl_of : {Key : Type 0} → SdkCall Key → IdlInstruction
idl_of (register roots) = idl_register_issuer
idl_of (issuer_register roots) = idl_register_issuer
idl_of (issuer_update roots) = idl_update_issuer_root
idl_of close = idl_close_hook_payload
idl_of resize = idl_resize_hook_payload
idl_of (init len) = idl_init_hook_payload
idl_of (write offset chunk) = idl_write_hook_proof
idl_of (finalize metadata) = idl_finalize_hook_payload
idl_of (settle amount) = idl_settle_hook

abbrev pub AreRoots : IssuerRoots → Type 0
AreRoots roots =
    (length roots.merkle_root ≡ 32)
    × (length roots.sanctions_root ≡ 32)
    × (length roots.jurisdiction_root ≡ 32)

-- The values that the caller gives fit the machine integers and hashes of the program.
abbrev pub Fits : {Key : Type 0} → SdkCall Key → Type 0
Fits (register roots) = AreRoots roots
Fits (issuer_register roots) = AreRoots roots
Fits (issuer_update roots) = AreRoots roots
Fits close = Unit {0}
Fits resize = Unit {0}
Fits (init len) = len < 2 ^ 32
Fits (write offset chunk) = offset < 2 ^ 32
Fits (finalize m) = (length m.nullifier_hash ≡ 32) × (m.epoch < 2 ^ 64) × (m.amount < 2 ^ 64)
Fits (settle amount) = amount < 2 ^ 64

-- What Anchor takes for the address of the system program.
abbrev pub IsSystem : Web3 → Type 0
IsSystem w = w.system_program ≡ w.from_base58 "11111111111111111111111111111111"

module _ (w : Web3) (fetch_registry : w.PublicKey → Option w.PublicKey)
    (fetch_payload : w.PublicKey → Option (StagedTransfer w.PublicKey)) where
  abbrev pub program_of : w.PublicKey → SdkCall w.PublicKey → w.PublicKey
  program_of program_id (issuer_register roots) = zksettle_program_id w
  program_of program_id (issuer_update roots) = zksettle_program_id w
  program_of program_id _ = program_id

  abbrev pub build :
      w.PublicKey → w.PublicKey → SdkCall w.PublicKey → Option (AnchorCall w.PublicKey)
  build wallet program_id (register roots) =
      some (build_register_issuer_ix w wallet roots program_id)
  build wallet program_id (issuer_register roots) = some (register_issuer_call w wallet roots)
  build wallet program_id (issuer_update roots) = some (update_issuer_root_call w wallet roots)
  build wallet program_id close = some (build_close_hook_payload_ix w wallet program_id)
  build wallet program_id resize = some (build_resize_hook_payload_ix w wallet program_id)
  build wallet program_id (init len) = some (build_init_hook_payload_ix w wallet len program_id)
  build wallet program_id (write offset chunk) =
      some (build_write_chunk_ix w wallet offset chunk program_id)
  build wallet program_id (finalize metadata) =
      some (build_finalize_hook_payload_ix w wallet metadata program_id)
  build wallet program_id (settle amount) =
      build_settle_hook_ix w fetch_registry fetch_payload wallet amount program_id

  abbrev Resolves : w.PublicKey → w.PublicKey → SdkCall w.PublicKey → Type 0
  Resolves wallet program_id c =
      (call : AnchorCall w.PublicKey)
      → build wallet program_id c ≡ some call
      → IsResolved w wallet (program_of program_id c) (idl_of c) call

  settle-IsResolved :
      (wallet program_id : w.PublicKey) (amount : ℕ)
      → IsSystem w
      → amount < 2 ^ 64
      → Resolves wallet program_id (settle amount)
  unfolding build_settle_hook_ix settle_accounts
  settle-IsResolved wallet program_id amount system h call e =
      elim (Option-cases (fetch_registry (find_registry_pda w program_id).0)) [
        | inl none_r ↦ cc (rw none_r at e)
        | inr (tree, there) ↦
            elim (Option-cases (fetch_payload (find_hook_payload_pda w wallet program_id).0)) [
              | inl none_p ↦ cc (rw (there, none_p) at e)
              | inr (payload, staged) ↦
                  subst (IsResolved w wallet program_id idl_settle_hook)
                    (some_inj (rw (there, staged) at e))
                    (
                      refl,
                      (h, tt),
                      refl,
                      (refl, (refl, (refl, (refl, (refl, (refl, (ap some system, tt))))))),
                      (refl, tt),
                    )
            ]
      ]

  -- Whatever the SDK asks of the program, with numbers and hashes that fit: the call it hands to Anchor
  -- names an instruction of the IDL, with arguments of its types, and gives each account of the
  -- instruction, in order, at the IDL's fixed address or at the address derived from the IDL's
  -- seeds; the accounts that have to sign are the wallet.
  pub build-IsResolved :
      (wallet program_id : w.PublicKey) (c : SdkCall w.PublicKey) (call : AnchorCall w.PublicKey)
      → IsSystem w
      → Fits c
      → build wallet program_id c ≡ some call
      → IsResolved w wallet (program_of program_id c) (idl_of c) call
  unfolding build_register_issuer_ix register_issuer_call update_issuer_root_call
      build_close_hook_payload_ix build_resize_hook_payload_ix build_init_hook_payload_ix
      build_write_chunk_ix build_finalize_hook_payload_ix
  build-IsResolved wallet program_id (settle amount) call system h e =
      settle-IsResolved wallet program_id amount system h call e
  build-IsResolved wallet program_id (register roots) call system h e =
      subst (IsResolved w wallet _ idl_register_issuer) (some_inj e)
        (refl, (h.0, (h.1, (h.2, tt))), refl, (refl, (ap some system, tt)), (refl, tt))
  build-IsResolved wallet program_id (issuer_register roots) call system h e =
      subst (IsResolved w wallet _ idl_register_issuer) (some_inj e)
        (refl, (h.0, (h.1, (h.2, tt))), refl, (refl, (ap some system, tt)), (refl, tt))
  build-IsResolved wallet program_id (issuer_update roots) call system h e =
      subst (IsResolved w wallet _ idl_update_issuer_root) (some_inj e)
        (refl, (h.0, (h.1, (h.2, tt))), refl, (refl, tt), (refl, tt))
  build-IsResolved wallet program_id close call system h e =
      subst (IsResolved w wallet _ idl_close_hook_payload) (some_inj e)
        (refl, tt, refl, (refl, tt), (refl, tt))
  build-IsResolved wallet program_id resize call system h e =
      subst (IsResolved w wallet _ idl_resize_hook_payload) (some_inj e)
        (refl, tt, refl, (refl, (refl, (ap some system, tt))), (refl, tt))
  build-IsResolved wallet program_id (init len) call system h e =
      subst (IsResolved w wallet _ idl_init_hook_payload) (some_inj e)
        (refl, (h, tt), refl, (refl, (refl, (ap some system, tt))), (refl, tt))
  build-IsResolved wallet program_id (write offset chunk) call system h e =
      subst (IsResolved w wallet _ idl_write_hook_proof) (some_inj e)
        (refl, (h, (tt, tt)), refl, (refl, (refl, tt)), (refl, tt))
  build-IsResolved wallet program_id (finalize m) call system h e =
      subst (IsResolved w wallet _ idl_finalize_hook_payload) (some_inj e)
        (refl, (h.0, (tt, (h.1, (tt, (h.2, (tt, tt)))))), refl, (refl, (refl, tt)), (refl, tt))
