-- ===== src/Upload/Client/Writes.antt =====
-- The write instructions of `uploadProofChunked`, run by the program of handlers.rs, fill the account
-- with the proof.
use mathlib.Core.List.{append_assoc}
use zksettle.Base.{
  inl, inr, ℕ, zero, suc, ◌+◌, ◌-◌, ◌≤◌, ◌<◌, ◌≡◌, refl, none, some, false, [], ok, arith, ltb,
  ltb-false, min, take, drop, length, ◌++◌, length-append, length-take, length-drop, take-append,
  sym, subst, Bool-cases, ==_refl, take_all, ltb-ge, ◌∙◌, ap, le→leb, take-add, ltb→lt, replicate,
  length-replicate,
}
use zksettle.Base.Bytes.{Bytes}
use zksettle.Upload.Program.{HookPayload, splice, exec, exec_all, write_hook_proof}
use zksettle.Upload.Chunks.{write_ixs_from, write_ixs}

-- An account that is being written.
abbrev pub writing : {Key : Type 0} → ℕ → ℕ → ℕ → Bytes → HookPayload Key
writing data_len len mark buf = record {
  data_len = data_len;
  expected_proof_len = len;
  high_water_mark = mark;
  finalized = false;
  proof_and_witness = buf;
  staged = none;
}

length-splice :
    (buf : Bytes) (o : ℕ) (chunk : Bytes)
    → o + length chunk ≤ length buf
    → length (splice buf o chunk) ≡ length buf
length-splice buf o chunk h = omega (
  arith,
  length-append (take o buf) (chunk ++ drop (o + length chunk) buf),
  length-take o buf,
  length-append chunk (drop (o + length chunk) buf),
  length-drop (o + length chunk) buf,
)

take-splice :
    (buf : Bytes) (o : ℕ) (chunk : Bytes)
    → o ≤ length buf
    → take (o + length chunk) (splice buf o chunk) ≡ take o buf ++ chunk
take-splice buf o chunk h = rw (← append_assoc (take o buf) chunk (drop (o + length chunk) buf)) (
    take-append (o + length chunk) (take o buf ++ chunk) (drop (o + length chunk) buf)
      (omega (arith, length-append (take o buf) chunk, length-take o buf)))

agree_next :
    (o e : ℕ) (data' buf : Bytes)
    → o ≤ e
    → e ≤ length data'
    → length buf ≡ length data'
    → take o buf ≡ take o data'
    → take e (splice buf o (take (e - o) (drop o data'))) ≡ take e data'
agree_next o e data' buf le_e fits same agree =
    let chunk : Bytes = take (e - o) (drop o data') in
    let reached : o + length chunk ≡ e =
      omega (arith, length-take (e - o) (drop o data'), length-drop o data') in
    let spliced : take (o + length chunk) (splice buf o chunk) ≡ take o buf ++ chunk =
      take-splice buf o chunk (omega arith) in
    subst (λ k. take k (splice buf o chunk) ≡ take e data') reached
      (spliced ∙ ap (λ t. t ++ chunk) agree ∙ take-add o (e - o) e data' (omega arith))

module _ {Key : Type 0} (base_space d : ℕ) where
  exec-write :
      (len o : ℕ) (buf chunk : Bytes)
      → o + length chunk ≤ len
      → length buf ≡ len
      → exec {Key = Key} base_space (write_hook_proof o chunk) (some (writing d len o buf))
        ≡ ok (some (writing d len (o + length chunk) (splice buf o chunk)))
  unfolding exec
  exec-write len o buf chunk h e = rw (
    ==_refl o,
    le→leb (o + length chunk) len h,
    le→leb (o + length chunk) (length buf) (omega arith),
  )

  write_ixs_from_done :
      (fuel cs o : ℕ) (data' : Bytes)
      → length data' ≤ o
      → write_ixs_from {Key = Key} fuel cs o data' ≡ []
  unfolding write_ixs_from
  write_ixs_from_done zero cs o data' h = refl
  write_ixs_from_done (suc fuel) cs o data' h = rw (ltb-false o (length data') h)

  finished :
      (fuel cs o : ℕ) (data' buf : Bytes)
      → length data' ≤ o
      → length buf ≡ length data'
      → take (min o (length data')) buf ≡ take (min o (length data')) data'
      → exec_all base_space
          (write_ixs_from {Key = Key} fuel cs o data')
          (some (writing d (length data') (min o (length data')) buf))
        ≡ ok (some (writing d (length data') (length data') data'))
  unfolding exec_all
  finished fuel cs o data' buf past same agree =
      let all : min o (length data') ≡ length data' = omega arith in
      let filled : buf ≡ data' =
        sym (take_all (length data') buf (omega arith))
        ∙ (rw all at agree)
        ∙ take_all (length data') data' (omega arith) in
      rw (write_ixs_from_done fuel cs o data' past, all, filled)

  -- From a buffer that agrees with the proof up to the high-water mark, the writes that are left
  -- complete it.
  exec_all-write_ixs_from :
      (fuel cs o : ℕ) (data' buf : Bytes)
      → 0 < cs
      → length data' - o ≤ fuel
      → length buf ≡ length data'
      → take (min o (length data')) buf ≡ take (min o (length data')) data'
      → exec_all base_space
          (write_ixs_from {Key = Key} fuel cs o data')
          (some (writing d (length data') (min o (length data')) buf))
        ≡ ok (some (writing d (length data') (length data') data'))
  unfolding write_ixs_from exec_all
  exec_all-write_ixs_from zero cs o data' buf pos_cs enough same agree =
      finished zero cs o data' buf (omega arith) same agree
  exec_all-write_ixs_from (suc fuel) cs o data' buf pos_cs enough same agree =
      elim (Bool-cases (ltb o (length data'))) [
        | inr reached ↦ finished (suc fuel) cs o data' buf (ltb-ge _ _ reached) same agree
        | inl more ↦
            let o_lt : o < length data' = ltb→lt _ _ more in
            let mo : min o (length data') ≡ o = omega arith in
            let e : ℕ = min (o + cs) (length data') in
            let chunk : Bytes = take (e - o) (drop o data') in
            let reach : o + length chunk ≡ e =
              omega (arith, length-take (e - o) (drop o data'), length-drop o data') in
            let ran : exec {Key = Key} base_space (write_hook_proof o chunk)
                  (some (writing d (length data') o buf))
                ≡ ok (some (writing d (length data') e (splice buf o chunk))) =
              subst
                (λ k.
                  exec {Key = Key} base_space (write_hook_proof o chunk)
                    (some (writing d (length data') o buf))
                  ≡ ok (some (writing d (length data') k (splice buf o chunk))))
                reach (exec-write (length data') o buf chunk (omega arith) same) in
            let ih =
              exec_all-write_ixs_from fuel cs (o + cs) data' (splice buf o chunk) pos_cs
                (omega arith) (length-splice buf o chunk (omega arith) ∙ same)
                (agree_next o e data' buf (omega arith) (omega arith) same (rw mo at agree)) in
            rw (mo, more, ran) ih
      ]

  -- The write instructions of any proof, for any chunk size of at least one byte, are all accepted by
  -- the program on an account whose buffer is zeroed and of the proof's length, and fill it with the
  -- proof.
  pub exec_all-write_ixs :
      (cs : ℕ) (data' : Bytes)
      → 0 < cs
      → exec_all base_space
          (write_ixs {Key = Key} cs data')
          (some (writing d (length data') 0 (replicate (length data') 0)))
        ≡ ok (some (writing d (length data') (length data') data'))
  unfolding write_ixs
  exec_all-write_ixs cs data' pos =
      let start : min 0 (length data') ≡ 0 = omega arith in
      rw start at (
        exec_all-write_ixs_from (length data') cs 0 data' (replicate (length data') 0) pos
          (omega arith) (length-replicate (length data') 0) (rw start refl))
