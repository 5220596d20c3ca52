-- ===== src/Prove/Limbs.antt =====
-- The limbs of a key on the three sides: sdk/src/prove/index.ts, frontend/src/hooks/use-prove-flow.ts,
-- and `pubkey_to_limbs` of backend/programs/zksettle, which the program compares the circuit's public
-- inputs with.
use zksettle.ProveFlow.Flow.{Answers, Paths, TransferParams}
use zksettle.ProveFlow.Inputs.{
  ProofInputs, assemble_proof_inputs, Credential, Roots, MembershipProof, SanctionsProof,
}
use native.Mathlib.Nat.{pow-suc}
use zksettle.Base.{
  ℕ, ok, ◌≡◌, ◌↔◌, sym, ap, ◌∙◌, ◌++◌, take, drop, length, All, arith, replicate, Option, ◌<◌, ◌+◌,
  ◌*◌, ◌^◌, ◌∷◌, [], length-take, ◌-◌, suc, lt→ltb, length-drop, zero, ok_inj,
}
use zksettle.Base.Text.{Text, codes}
use zksettle.Base.Bytes.{Bytes, IsByte, from_be, subarray}
use zksettle.Base.Decimal.{hex_of}
use zksettle.Base.Int.{ℤ}
use zksettle.Nullifier.{to_field, bn254_prime}
use zksettle.Nullifier.Fields.{Laws, to_field-hex}
use zksettle.ProveFlow.Steps.{to_hex, transfer_context}
use zksettle.Prove.{
  sdk_limb_lo, sdk_limb_hi, ProofInputs, Credential, sdk_inputs, ProveContext, Roots,
  MembershipProof, SanctionsProof,
}

-- `pubkey_to_limbs`: the low limb and the high limb, each in the last 16 of 32 bytes.
unfoldable pub pubkey_to_limbs : Bytes → Bytes × Bytes
pubkey_to_limbs bytes =
    (replicate 16 0 ++ subarray bytes 16 16, replicate 16 0 ++ subarray bytes 0 16)

from_be-lt : (acc : ℕ) (bs : Bytes) → All IsByte bs → from_be acc bs < (acc + 1) * 256 ^ length bs
from_be-lt acc [] h = omega arith
from_be-lt acc (b ∷ bs) (p, h) =
    let ih : from_be (acc * 256 + b) bs < (acc * 256 + b + 1) * 256 ^ length bs =
      from_be-lt (acc * 256 + b) bs h in
    rw pow-suc (grind arith)

All-take : (n : ℕ) (bs : Bytes) → All IsByte bs → All IsByte (take n bs)
All-take zero bs h = tt
All-take (suc n) [] h = tt
All-take (suc n) (b ∷ bs) (p, h) = (p, All-take n bs h)

All-drop : (n : ℕ) (bs : Bytes) → All IsByte bs → All IsByte (drop n bs)
All-drop zero bs h = h
All-drop (suc n) [] h = tt
All-drop (suc n) (b ∷ bs) (p, h) = All-drop n bs h

abbrev pub IsKey : Bytes → Type 0
IsKey key = (length key ≡ 32) × All IsByte key

module _ (big_int : Text → Option ℤ) where
  -- The public inputs of the circuit hold a key as the program expects it.
  abbrev pub IsBound : Text → Text → Bytes → Type 0
  IsBound lo hi key =
      (to_field big_int lo ≡ ok (pubkey_to_limbs key).0)
      × (to_field big_int hi ≡ ok (pubkey_to_limbs key).1)

  -- Neither `MintMismatch` nor `RecipientMismatch`.
  abbrev pub BindsKeys : ProofInputs → Bytes → Bytes → Type 0
  BindsKeys inputs mint recipient =
      IsBound inputs.mint_lo inputs.mint_hi mint
      × IsBound inputs.recipient_lo inputs.recipient_hi recipient

  module _ (laws : Laws big_int) where
    half_field :
        (bs : Bytes)
        → length bs ≡ 16
        → All IsByte bs
        → to_field big_int (codes "0x" ++ hex_of bs) ≡ ok (replicate 16 0 ++ bs)
    half_field bs e h =
        let small : from_be 0 bs < (0 + 1) * 256 ^ length bs = from_be-lt 0 bs h in
        let small' : from_be 0 bs < (0 + 1) * 256 ^ 16 = rw e at small in
        let room : 32 - length bs ≡ 16 = omega arith in
        to_field-hex big_int laws bs (omega arith) h
        ∙ rw (lt→ltb (from_be 0 bs) bn254_prime (omega arith), room)

    key_halves :
        (key : Bytes)
        → IsKey key
        → (to_field big_int (codes "0x" ++ hex_of (subarray key 0 16)) ≡ ok (pubkey_to_limbs key).1)
          × (to_field big_int (codes "0x" ++ hex_of (subarray key 16 16))
              ≡ ok (pubkey_to_limbs key).0)
    unfolding pubkey_to_limbs
    key_halves key (len, h) = (
      half_field (take 16 key) (omega (arith, length-take 16 key)) (All-take 16 key h),
      half_field (take 16 (drop 16 key))
          (omega (arith, length-take 16 (drop 16 key), length-drop 16 key))
          (All-take 16 (drop 16 key) (All-drop 16 key h)),
    )

    -- Whatever credential, paths and transfer the page has: the limbs that it hands to the prover are
    -- the ones that the program compares the proof with, for the mint and for the recipient.
    pub assemble_proof_inputs-BindsKeys :
        (env : Answers) (credential : Credential) (paths : Paths) (params : TransferParams)
        (mint recipient : Bytes) (nullifier : Text)
        → IsKey mint
        → IsKey recipient
        → BindsKeys
            (assemble_proof_inputs credential paths.membership paths.sanctions paths.roots
              (transfer_context env credential paths params mint recipient nullifier))
            mint
            recipient
    unfolding assemble_proof_inputs transfer_context to_hex
    assemble_proof_inputs-BindsKeys env credential paths params mint recipient nullifier m r =
        let (m_hi, m_lo) = key_halves mint m in
        let (r_hi, r_lo) = key_halves recipient r in ((m_lo, m_hi), (r_lo, r_hi))

    IsBound-swapped :
        (key : Bytes)
        → IsKey key
        → IsBound (sdk_limb_lo key) (sdk_limb_hi key) key ↔ (subarray key 0 16 ≡ subarray key 16 16)
    unfolding pubkey_to_limbs
    IsBound-swapped key k =
        let (hi, lo) = key_halves key k in
        (
          λ (bound, _). ap (drop 16) (ok_inj hi bound),
          λ e. (
            hi ∙ ap (λ half. ok (replicate 16 0 ++ half)) e,
            lo ∙ ap (λ half. ok (replicate 16 0 ++ half)) (sym e),
          ),
        )

    -- The SDK's `prove` takes the limbs the other way round: the program accepts the keys of its proof
    -- exactly when the two halves of the mint are equal and so are those of the recipient.
    pub sdk_inputs-BindsKeys :
        (wallet : Text) (ctx : ProveContext) (now_secs : ℕ) (roots : Roots)
        (membership : MembershipProof) (sanctions : SanctionsProof) (credential : Credential)
        (nullifier : Text)
        → IsKey ctx.mint
        → IsKey ctx.recipient
        → BindsKeys
            (sdk_inputs wallet ctx now_secs roots membership sanctions credential nullifier)
            ctx.mint
            ctx.recipient
          ↔ ((subarray ctx.mint 0 16 ≡ subarray ctx.mint 16 16)
              × (subarray ctx.recipient 0 16 ≡ subarray ctx.recipient 16 16))
    unfolding sdk_inputs
    sdk_inputs-BindsKeys wallet ctx now_secs roots membership sanctions credential nullifier m r =
        let mint_iff = IsBound-swapped ctx.mint m in
        let recipient_iff = IsBound-swapped ctx.recipient r in
        (λ (b, c). (mint_iff.0 b, recipient_iff.0 c), λ (e, f). (mint_iff.1 e, recipient_iff.1 f))
