-- ===== src/Api/Groth16/Split.antt =====
-- The bundle of `proveGroth16` against `split_proof_and_witness` of
-- backend/programs/zksettle/src/instructions/verify_proof/helpers.rs.
use zksettle.Base.{
  ℕ, List, Option, none, some, ok, true, false, [], ◌∷◌, ◌++◌, zero, suc, ◌+◌, ◌-◌, ◌≤◌, ◌<◌, ◌≡◌,
  refl, sym, ap, ◌∙◌, arith, take, drop, length, map, leb, ltb, if◌then◌else◌, All,
  take-append-drop, length-drop, length-take, take_all, drop-drop, Bool-cases, inl, inr, ltb-ge,
  ltb-false, ◌==◌, ◌*◌, Option-cases, subst, ==_iff, length-append, drop-append,
}
use zksettle.Base.Text.{Text, codes}
use zksettle.Base.Bytes.{Bytes, subarray}
use zksettle.Base.Decimal.{hex_of, decimal, digits_value}
use zksettle.Base.Decimal.Value.{IsDigit, digits_value-decimal, decimal-IsDigit, length-decimal_pos}
use zksettle.Base.Int.{ℤ, pos, negsuc}
use zksettle.Format.{drop_spaces, is_digit, is_space}
use zksettle.Api.Headers.{HeaderList, get}
use zksettle.Api.Groth16.{
  Groth16ProofBundle, read_groth16, check_lengths, fields_from, parse_int, leading_digits,
  length_header, parse_signed,
}

unfoldable pub split_proof_and_witness : Bytes → ℕ → Option (Bytes × Bytes)
split_proof_and_witness bytes witness_len =
    if leb (length bytes) witness_len
    then none
    else some (take (length bytes - witness_len) bytes, drop (length bytes - witness_len) bytes)

-- The first `k` pieces of 32 bytes.
abbrev pub pieces : ℕ → Bytes → List Bytes
pieces zero bs = []
pieces (suc k) bs = take 32 bs ∷ pieces k (drop 32 bs)

-- The entries of a gnark public witness: a header of 12 bytes, and 32 bytes for each of 11 inputs.
abbrev pub entries : Bytes → List Bytes
entries witness = pieces 11 (drop 12 witness)

abbrev pub field_text : Bytes → Text
field_text field = codes "0x" ++ hex_of field

fields_from-pieces :
    (k off : ℕ) (bs : Bytes) → fields_from k off bs ≡ map field_text (pieces k (drop off bs))
unfolding fields_from
fields_from-pieces zero off bs = refl
fields_from-pieces (suc k) off bs =
    ap (λ t. field_text (take 32 (drop off bs)) ∷ t)
      (fields_from-pieces k (off + 32) bs
        ∙ ap (λ t. map field_text (pieces k t)) (sym (drop-drop off 32 (off + 32) bs refl)))

-- The inputs that are read behind a proof of `n` bytes.
inputs-entries :
    (n : ℕ) (body : Bytes)
    → n + 364 ≡ length body
    → fields_from 11 0 (subarray body (n + 12) 352) ≡ map field_text (entries (drop n body))
inputs-entries n body e =
    let rest : take 352 (drop (n + 12) body) ≡ drop 12 (drop n body) =
      take_all 352 (drop (n + 12) body) (omega (arith, length-drop (n + 12) body))
      ∙ sym (drop-drop n 12 (n + 12) body refl) in
    fields_from-pieces 11 0 (subarray body (n + 12) 352)
    ∙ ap (λ t. map field_text (pieces 11 t)) rest

abbrev pub IsSplit : Bytes → Groth16ProofBundle → Type 0
IsSplit body r =
    (r.proof ≡ body)
    × ((proof witness : Bytes) × (body ≡ proof ++ witness)
        × (length proof ≤ 4096)
        × (length witness ≡ 364)
        × (r.public_inputs ≡ map field_text (entries witness))
        × (0 < length proof → split_proof_and_witness r.proof 364 ≡ some (proof, witness)))

abbrev bundle_of : ℕ → Bytes → Groth16ProofBundle
bundle_of n body = record {
  proof = body;
  public_inputs = fields_from 11 0 (subarray body (n + 12) 352);
}

-- The checks pass exactly for a proof of at most 4096 bytes with a witness of 364 behind it.
check_lengths_ok :
    (n w : ℕ) (body : Bytes) {r : Groth16ProofBundle}
    → check_lengths (pos n) (pos w) body ≡ ok r
    → (n ≤ 4096) × (n + 364 ≡ length body) × (bundle_of n body ≡ r)
unfolding check_lengths
check_lengths_ok n w body h = elim (Bool-cases (ltb 4096 n)) [
  | inl long ↦ cc (rw long at h)
  | inr short ↦ elim (Bool-cases (n + w == length body)) [
    | inr differs ↦ cc (rw (short, differs) at h)
    | inl sums ↦ elim (Bool-cases (w == 364)) [
      | inr other ↦ cc (rw (short, sums, other) at h)
      | inl right ↦
          let e : w ≡ 364 = (==_iff w 364).0 right in
          let total : n + w ≡ length body = (==_iff (n + w) (length body)).0 sums in
          (ltb-ge 4096 n short, omega arith, cc (rw (short, sums, right) at h))
    ]
  ]
]

bundle_of-IsSplit :
    (n : ℕ) (body : Bytes) → n ≤ 4096 → n + 364 ≡ length body → IsSplit body (bundle_of n body)
unfolding split_proof_and_witness
bundle_of-IsSplit n body short total =
    let before : length (take n body) ≡ n = omega (arith, length-take n body) in
    let at : length body - 364 ≡ n = omega arith in
    (
      refl,
      (
        take n body,
        drop n body,
        sym (take-append-drop n body),
        omega arith,
        omega (arith, length-drop n body),
        inputs-entries n body total,
        λ some_proof. let fits : leb (length body) 364 ≡ false = ground arith in rw (fits, at) refl,
      ),
    )

check_lengths-IsSplit :
    (p w : ℤ) (body : Bytes) {r : Groth16ProofBundle}
    → check_lengths p w body ≡ ok r
    → IsSplit body r
check_lengths-IsSplit (negsuc n) w body h = unfold check_lengths in cc
check_lengths-IsSplit (pos n) (negsuc w) body h = unfold check_lengths in absurd (ground arith)
check_lengths-IsSplit (pos n) (pos w) body h =
    let (short, total, e) = check_lengths_ok n w body h in
    subst (IsSplit body) e (bundle_of-IsSplit n body short total)

-- Whatever the server answers: what `proveGroth16` takes is the whole body, which is a proof of at most
-- 4096 bytes and a public witness of 364; the public inputs returned are the witness's eleven entries
-- in order; and unless the proof is empty, the program splits the bundle into this proof and witness.
pub read_groth16-IsSplit :
    (headers : HeaderList) (body : Bytes) {r : Groth16ProofBundle}
    → read_groth16 headers body ≡ ok r
    → IsSplit body r
unfolding read_groth16
read_groth16-IsSplit headers body h =
    elim (Option-cases (length_header (codes "x-proof-len") headers)) [
      | inl missing ↦ cc (rw missing at h)
      | inr (p, there) ↦ elim (Option-cases (length_header (codes "x-witness-len") headers)) [
        | inl missing ↦ cc (rw (there, missing) at h)
        | inr (w, both) ↦ check_lengths-IsSplit p w body (rw (there, both) at h)
      ]
    ]

leading_digits-value :
    (s : Text) (acc : ℕ) → All IsDigit s → leading_digits acc s ≡ digits_value acc s
leading_digits-value [] acc h = refl
leading_digits-value (c ∷ s) acc ((low, high), h) =
    let digit : is_digit c ≡ true = ground arith in
    ap (λ b. elim b [ true ↦ leading_digits (acc * 10 + (c - 48)) s | false ↦ acc ]) digit
    ∙ leading_digits-value s (acc * 10 + (c - 48)) h

parse_signed-digits :
    (s : Text) → 0 < length s → All IsDigit s → parse_signed s ≡ some (pos (digits_value 0 s))
parse_signed-digits [] n h = absurd (omega arith)
parse_signed-digits (c ∷ s) n ((low, high), h) =
    let digit : is_digit c ≡ true = ground arith in
    let minus : (c == b'-') ≡ false = ground arith in
    let plus : (c == b'+') ≡ false = ground arith in
    rw (minus, plus, digit)
      (ap (λ k. some (pos k)) (leading_digits-value (c ∷ s) 0 ((low, high), h)))

drop_spaces-digits : (s : Text) → All IsDigit s → drop_spaces s ≡ s
unfolding drop_spaces
drop_spaces-digits [] h = refl
drop_spaces-digits (c ∷ s) ((low, high), h) =
    let solid : is_space c ≡ false = ground arith in rw solid

parse_int-decimal : (n : ℕ) → parse_int (decimal n) ≡ some (pos n)
unfolding parse_int
parse_int-decimal n =
    ap parse_signed (drop_spaces-digits (decimal n) (decimal-IsDigit n))
    ∙ parse_signed-digits (decimal n) (length-decimal_pos n) (decimal-IsDigit n)
    ∙ ap (λ k. some (pos k)) (digits_value-decimal n)

length_header-decimal :
    (name : Text) (headers : HeaderList) (n : ℕ)
    → get name headers ≡ some (decimal n)
    → length_header name headers ≡ some (pos n)
unfolding length_header
length_header-decimal name headers n h = rw h (parse_int-decimal n)

check_lengths-append :
    (proof witness : Bytes)
    → length proof ≤ 4096
    → length witness ≡ 364
    → check_lengths (pos (length proof)) (pos 364) (proof ++ witness)
      ≡ ok (record { proof = proof ++ witness; public_inputs = map field_text (entries witness) })
unfolding check_lengths
check_lengths-append proof witness short len =
    let total : length proof + 364 ≡ length (proof ++ witness) =
      omega (arith, length-append proof witness) in
    let sums : (length proof + 364 == length (proof ++ witness)) ≡ true = (==_iff _ _).1 total in
    rw (ltb-false 4096 (length proof) short, sums)
      (ap (λ t. ok (record { proof = proof ++ witness; public_inputs = t }))
        (inputs-entries (length proof) (proof ++ witness) total
          ∙ ap (λ t. map field_text (entries t)) (drop-append (length proof) proof witness refl)))

-- The other way round: a body of a proof of at most 4096 bytes and 364 bytes of witness is taken when
-- the headers print the two lengths.
pub read_groth16_ok :
    (headers : HeaderList) (proof witness : Bytes)
    → get (codes "x-proof-len") headers ≡ some (decimal (length proof))
    → get (codes "x-witness-len") headers ≡ some (decimal 364)
    → length proof ≤ 4096
    → length witness ≡ 364
    → read_groth16 headers (proof ++ witness)
      ≡ ok (record { proof = proof ++ witness; public_inputs = map field_text (entries witness) })
unfolding read_groth16
read_groth16_ok headers proof witness p w short len =
    let proof_len : length_header (codes "x-proof-len") headers ≡ some (pos (length proof)) =
      length_header-decimal _ headers (length proof) p in
    let witness_len : length_header (codes "x-witness-len") headers ≡ some (pos 364) =
      length_header-decimal _ headers 364 w in
    rw (proof_len, witness_len) (check_lengths-append proof witness short len)
