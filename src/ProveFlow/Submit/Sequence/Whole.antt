-- ===== src/ProveFlow/Submit/Sequence/Whole.antt =====
-- What a submission of frontend/src/hooks/use-prove-flow.ts has to send when nothing fails.

use zksettle.Base.Bytes.{Bytes}
use mathlib.Core.List.{append_assoc}
use zksettle.Base.{[], ◌∷◌, ok, err, refl, ◌++◌, ◌≡◌, List, ◌∙◌, map, replicate, if◌then◌else◌, ap}
use zksettle.Upload.Program.{HookIx, FinalizeArgs, finalize_hook_payload}
use zksettle.ProveFlow.Submit.Batches.{submit_txs}
use zksettle.ProveFlow.Submit.Sequence.{
  SubmitAnswers, SentTx, upload_tx, again, resends, register_issuer_tx, close_hook_payload_tx,
}

abbrev pub Txs : Type 0 → Type 0
Txs Key = List (SentTx Key)

-- The prerequisites that the account and the issuer need.
abbrev pub registrations : {Key : Type 0} → SubmitAnswers → Txs Key
registrations env = elim env.check_issuer_exists [
  | ok exists ↦ if exists then [] else register_issuer_tx ∷ []
  | err e ↦ []
]

abbrev pub closures : {Key : Type 0} → SubmitAnswers → Txs Key
closures env = elim env.check_hook_payload_exists [
  | ok exists ↦ if exists then close_hook_payload_tx ∷ [] else []
  | err e ↦ []
]

-- What a submission without a failure sends.
abbrev pub whole : {Key : Type 0} → SubmitAnswers → Bytes → FinalizeArgs Key → Txs Key
whole env proof args =
    registrations env
    ++ (closures env
        ++ (map upload_tx (submit_txs proof args)
            ++ replicate (resends env) (again (finalize_hook_payload args ∷ []))))

map-append : {A B : Type 0} (f : A → B) (xs ys : List A) → map f (xs ++ ys) ≡ map f xs ++ map f ys
map-append f [] ys = refl
map-append f (x ∷ xs) ys = ap (λ t. f x ∷ t) (map-append f xs ys)

-- The upload by its three batches, with what is sent again.
pub whole-parts :
    {Key : Type 0} (env : SubmitAnswers) (inits writes : List (List (HookIx Key)))
    (last : List (HookIx Key))
    → registrations env
        ++ (closures env
            ++ (map upload_tx (inits ++ (writes ++ last ∷ []))
                ++ replicate (resends env) (again last)))
      ≡ registrations env
        ++ (closures env
            ++ (map upload_tx inits
                ++ (map upload_tx writes ++ upload_tx last ∷ replicate (resends env) (again last))))
whole-parts {Key} env inits writes last =
    let more : Txs Key = replicate (resends env) (again last) in
    let uploads : map upload_tx (inits ++ (writes ++ last ∷ [])) ++ more
        ≡ map upload_tx inits ++ (map upload_tx writes ++ upload_tx last ∷ more) =
      ap (λ t. t ++ more) (map-append upload_tx inits (writes ++ last ∷ []))
      ∙ append_assoc (map upload_tx inits) (map upload_tx (writes ++ last ∷ [])) more
      ∙ ap (λ t. map upload_tx inits ++ t)
          (ap (λ t. t ++ more) (map-append upload_tx writes (last ∷ []))
            ∙ append_assoc (map upload_tx writes) (upload_tx last ∷ []) more) in
    ap (λ t. registrations env ++ (closures env ++ t)) uploads
