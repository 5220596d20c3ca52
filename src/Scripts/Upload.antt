-- ===== src/Scripts/Upload.antt =====
-- The benchmark's upload against the program of handlers.rs and the SDK's upload.
use zksettle.Base.{
  ℕ, zero, suc, ◌+◌, ◌-◌, ◌<◌, ◌≤◌, ◌≡◌, refl, ap, sym, ◌∙◌, arith, true, false, List, [], ◌∷◌,
  Option, none, some, Result, ok, err, take, drop, length, min, ltb, Bool-cases, inl, inr,
  length-take, leb, le→leb, take_all, length-drop, lt→ltb, ltb→lt, ◌>>=◌,
}
use zksettle.Base.Bytes.{Bytes}
use zksettle.Web3.{Web3}
use zksettle.Upload.Program.{
  HookIx, HookPayload, ProgramError, exec, exec_all, write_hook_proof, max_hook_proof_bytes,
  write_handler, panicked,
}
use zksettle.Upload.Chunks.{batches, write_ixs_from, chunk_size_default}
use zksettle.Upload.Client.Writes.{writing}
use zksettle.Upload.Client.Upload.{exec-init}
use zksettle.Wrap.{settle_accounts, StagedTransfer}
use zksettle.Wrap.Pda.{
  find_issuer_pda, find_hook_payload_pda, find_registry_pda, zksettle_program_id,
}
use zksettle.Scripts.{
  Network, Run, then_send, send_each, proof_writes, close_before_upload, upload_proof,
  build_settle_accounts,
}

-- The network that runs the program on the sender's account. What closes an account is a parameter.
abbrev pub program_network :
    {Key : Type 0}
    → ℕ
    → (Option (HookPayload Key) → Result ProgramError (Option (HookPayload Key)))
    → Network Key (Option (HookPayload Key)) ProgramError
program_network base_space close = record {
  exists = λ s. elim s [ none ↦ false | some p ↦ true ];
  close_hook_payload = close;
  send = λ tx s. exec_all base_space tx s;
}

take-min :
    (off c : ℕ) (xs : Bytes)
    → off < length xs
    → take (min (off + c) (length xs) - off) (drop off xs) ≡ take c (drop off xs)
take-min off c xs h = elim (Bool-cases (leb (off + c) (length xs))) [
  | inl whole ↦
      let e : min (off + c) (length xs) - off ≡ c = ground arith in ap (λ n. take n (drop off xs)) e
  | inr short ↦
      let e : min (off + c) (length xs) - off ≡ length xs - off = ground arith in
      ap (λ n. take n (drop off xs)) e
      ∙ take_all (length xs - off) (drop off xs) (omega (arith, length-drop off xs))
      ∙ sym (take_all c (drop off xs) (ground (arith, length-drop off xs)))
]

proof_writes-sdk :
    {Key : Type 0} (fuel off : ℕ) (proof : Bytes)
    → proof_writes {Key = Key} fuel off proof ≡ write_ixs_from fuel chunk_size_default off proof
unfolding proof_writes write_ixs_from
proof_writes-sdk zero off proof = refl
proof_writes-sdk {Key} (suc fuel) off proof = elim (Bool-cases (ltb off (length proof))) [
  | inl more ↦ rw (
    more,
    take-min off chunk_size_default proof (ltb→lt off (length proof) more),
    proof_writes-sdk {Key = Key} fuel (off + chunk_size_default) proof,
  )
  | inr done ↦ rw done
]

-- The accounts that the benchmark settles with are the SDK's, for the addresses that the SDK derives.
pub build_settle_accounts-sdk :
    (w : Web3) (wallet tree : w.PublicKey) (payload : StagedTransfer w.PublicKey)
    → let program = zksettle_program_id w in
      build_settle_accounts w wallet
        (find_hook_payload_pda w wallet program).0
        (find_issuer_pda w wallet program).0
        payload.mint
        payload.recipient
        (find_registry_pda w program).0
        tree
      ≡ settle_accounts w wallet tree payload program
unfolding build_settle_accounts settle_accounts
build_settle_accounts-sdk w wallet tree payload = refl

module _ {Key S E : Type 0} (net : Network Key S E) where
  then_send-err :
      (tx : List (HookIx Key)) (next : S → Run S E) (s : S) (e : E)
      → net.send tx s ≡ err e
      → then_send net tx next s ≡ (s, err e)
  unfolding then_send
  then_send-err tx next s e h = ap (λ r. elim r [ err e ↦ (s, err e) | ok s' ↦ next s' ]) h

  then_send-ok :
      (tx : List (HookIx Key)) (next : S → Run S E) (s s' : S)
      → net.send tx s ≡ ok s'
      → then_send net tx next s ≡ next s'
  unfolding then_send
  then_send-ok tx next s s' h = ap (λ r. elim r [ err e ↦ (s, err e) | ok s' ↦ next s' ]) h

module _ {Key : Type 0} (base_space : ℕ)
    (close : Option (HookPayload Key) → Result ProgramError (Option (HookPayload Key))) where
  -- A write to an account that has not been resized.
  exec-unsized_write :
      (len : ℕ) (chunk : Bytes)
      → 0 < length chunk
      → length chunk ≤ len
      → exec {Key = Key} base_space (write_hook_proof 0 chunk) (some (writing base_space len 0 []))
        ≡ err panicked
  unfolding exec write_handler
  exec-unsized_write len chunk pos fits =
      let outside : leb (0 + length chunk) 0 ≡ false = ground arith in
      rw (le→leb (0 + length chunk) len (omega arith), outside) refl

  send_each-failing :
      (ix : HookIx Key) (rest : List (HookIx Key))
      (next : Option (HookPayload Key) → Run (Option (HookPayload Key)) ProgramError)
      (s : Option (HookPayload Key)) (e : ProgramError)
      → exec base_space ix s ≡ err e
      → send_each (program_network base_space close) (batches (ix ∷ rest)) next s ≡ (s, err e)
  unfolding send_each batches exec_all
  send_each-failing ix [] next s e h =
      let net = program_network base_space close in
      then_send-err net (ix ∷ []) (send_each net [] next) s e (ap (λ r. r >>= λ s'. ok s') h)
  send_each-failing ix (second ∷ rest) next s e h =
      let net = program_network base_space close in
      then_send-err net (ix ∷ second ∷ []) (send_each net (batches rest) next) s e
        (ap (λ r. r >>= λ s'. exec_all base_space (second ∷ []) s') h)

  proof_writes-first :
      (proof : Bytes)
      → 0 < length proof
      → (rest : List (HookIx Key)) × (proof_writes (length proof) 0 proof
          ≡ write_hook_proof 0 (take chunk_size_default proof) ∷ rest)
  unfolding proof_writes
  proof_writes-first [] h = absurd (omega arith)
  proof_writes-first (b ∷ proof) h =
      let more : ltb 0 (length (b ∷ proof)) ≡ true = lt→ltb 0 (length (b ∷ proof)) h in
      (proof_writes (length proof) chunk_size_default (b ∷ proof), rw more)

  send_writes-panics :
      (proof : Bytes)
      (next : Option (HookPayload Key) → Run (Option (HookPayload Key)) ProgramError)
      → 0 < length proof
      → send_each
          (program_network base_space close)
          (batches (proof_writes (length proof) 0 proof))
          next
          (some (writing base_space (length proof) 0 []))
        ≡ (some (writing base_space (length proof) 0 []), err panicked)
  send_writes-panics proof next pos =
      let (rest, cut) = proof_writes-first proof pos in
      let first : Bytes = take chunk_size_default proof in
      let s : Option (HookPayload Key) = some (writing base_space (length proof) 0 []) in
      ap (λ ixs. send_each (program_network base_space close) (batches ixs) next s) cut
      ∙ send_each-failing (write_hook_proof 0 first) rest next s panicked (
          exec-unsized_write (length proof) first
            (omega (arith, length-take chunk_size_default proof))
            (omega (arith, length-take chunk_size_default proof)))

  -- Whatever closes an account, on a network that runs the program: the benchmark's upload of a proof
  -- of 1 to 16,384 bytes, which sends no resize, panics at the first write. The account is left with
  -- the proof's length and no byte of the proof.
  pub upload_proof-panics :
      (proof : Bytes) (mint recipient : Key)
      → 0 < length proof
      → length proof ≤ max_hook_proof_bytes
      → upload_proof (program_network base_space close) proof mint recipient none
        ≡ (some (writing base_space (length proof) 0 []), err panicked)
  unfolding upload_proof close_before_upload
  upload_proof-panics proof mint recipient pos small =
      then_send-ok (program_network base_space close) _ _ none _
        (exec-init base_space (length proof) pos small)
      ∙ send_writes-panics proof _ pos
