-- ===== src/Upload/Client/Resizes.antt =====
-- The resize loop of `uploadProofChunked` against the program of handlers.rs, on a network that runs
-- what it is sent and confirms it.
use zksettle.Base.Bytes.{Bytes}
use zksettle.Base.{
  zero, refl, none, ℕ, Option, List, ◌<◌, suc, ◌≡◌, ◌+◌, ok, ltb-false, ◌≤◌, ◌-◌, ◌∷◌, err, arith,
  [], ◌*◌, some, replicate, leb, lt→ltb, false, Bool-cases, ltb, min, true, inl, ltb→lt, ◌∙◌, inr,
  ltb-ge,
}
use zksettle.Upload.Program.{
  HookPayload, HookIx, exec, exec_all, resize_handler, resize_hook_payload, realloc_cap,
}
use zksettle.Upload.Client.{Rpc, send_confirmed, resize_loop, rejected}
use zksettle.Upload.Client.Writes.{writing}

-- The account of the sender is the state of the network.
unfoldable pub program_rpc : {Key : Type 0} → ℕ → Rpc Key (Option (HookPayload Key))
program_rpc base_space = record {
  sign_and_send = λ tx s. elim (exec_all base_space tx.instructions s) [
    | ok s' ↦ ok ("signature", s')
    | err e ↦ err (rejected "program error")
  ];
  confirm_transaction = λ sig bh s. ok s;
  get_latest_blockhash = λ s. ok (record { blockhash = "blockhash"; last_valid_block_height = 0 });
  hook_payload_len = λ s. ok (elim s [ none ↦ none | some p ↦ some p.data_len ]);
}

module _ {Key : Type 0} (base_space : ℕ) where
  pub resize-partial :
      (len c : ℕ) (buf : Bytes)
      → c + realloc_cap < base_space + len
      → exec_all base_space (resize_hook_payload ∷ []) (some (writing {Key = Key} c len 0 buf))
        ≡ ok (some (writing {Key = Key} (c + realloc_cap) len 0 buf))
  unfolding exec_all exec resize_handler
  resize-partial len c buf h =
      let below : leb (base_space + len) c ≡ false = ground arith in
      let e : min (base_space + len) (c + realloc_cap) ≡ c + realloc_cap = omega arith in
      let short : leb (base_space + len) (c + realloc_cap) ≡ false = ground arith in
      rw (below, e, short) refl

  pub resize-last :
      (len c : ℕ) (buf : Bytes)
      → c < base_space + len
      → base_space + len ≤ c + realloc_cap
      → exec_all base_space (resize_hook_payload ∷ []) (some (writing {Key = Key} c len 0 buf))
        ≡ ok (some (writing {Key = Key} (base_space + len) len 0 (replicate len 0)))
  unfolding exec_all exec resize_handler
  resize-last len c buf more h =
      let below : leb (base_space + len) c ≡ false = ground arith in
      let e : min (base_space + len) (c + realloc_cap) ≡ base_space + len = omega arith in
      let full : leb (base_space + len) (base_space + len) ≡ true = ground arith in
      rw (below, e, full) refl

module _ {Key : Type 0} (base_space : ℕ) (wallet : Key) where
  pub send_confirmed-program :
      (ixs : List (HookIx Key)) (s s' : Option (HookPayload Key))
      → exec_all base_space ixs s ≡ ok s'
      → send_confirmed (program_rpc base_space) wallet ixs s ≡ ok ("signature", s')
  unfolding program_rpc send_confirmed
  send_confirmed-program ixs s s' h = rw (program_rpc, h) refl

  resize_loop_done :
      (fuel target : ℕ) (s : Option (HookPayload Key))
      → resize_loop (program_rpc base_space) wallet (suc fuel) target target s ≡ ok s
  unfolding resize_loop
  resize_loop_done fuel target s = rw (ltb-false target target (omega arith)) refl

  resize_loop-round :
      (fuel c target : ℕ) (s : Option (HookPayload Key)) (p : HookPayload Key)
      → c < target
      → exec_all base_space (resize_hook_payload ∷ []) s ≡ ok (some p)
      → resize_loop (program_rpc base_space) wallet (suc fuel) c target s
        ≡ resize_loop (program_rpc base_space) wallet fuel p.data_len target (some p)
  unfolding resize_loop program_rpc
  resize_loop-round fuel c target s p more h =
      rw (lt→ltb c target more, send_confirmed-program (resize_hook_payload ∷ []) s (some p) h) refl

  -- With a round of fuel for every started 10,240 bytes that are missing, and one to see the end, the
  -- resize loop returns, and the account has its full size and a zeroed buffer of the proof's length.
  pub resize_loop-program :
      (fuel len c : ℕ) (buf : Bytes)
      → c < base_space + len
      → base_space + len - c ≤ fuel * realloc_cap
      → resize_loop
          (program_rpc base_space)
          wallet
          (suc fuel)
          c
          (base_space + len)
          (some (writing c len 0 buf))
        ≡ ok (some (writing (base_space + len) len 0 (replicate len 0)))
  resize_loop-program zero len c buf more enough = absurd (omega arith)
  resize_loop-program (suc fuel) len c buf more enough =
      elim (Bool-cases (ltb (c + realloc_cap) (base_space + len))) [
        | inl far ↦
            let far' : c + realloc_cap < base_space + len = ltb→lt _ _ far in
            resize_loop-round (suc fuel) c (base_space + len) _
              (writing (c + realloc_cap) len 0 buf) more (resize-partial base_space len c buf far')
            ∙ resize_loop-program fuel len (c + realloc_cap) buf far' (omega arith)
        | inr near ↦
            resize_loop-round (suc fuel) c (base_space + len) _
              (writing (base_space + len) len 0 (replicate len 0)) more
              (resize-last base_space len c buf more (ltb-ge _ _ near))
            ∙ resize_loop_done fuel (base_space + len) _
      ]
