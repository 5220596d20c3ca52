-- ===== src/Explorer/Status.antt =====
-- When the explorer shows which status.
use zksettle.Base.{◌≡◌, refl, Bool, true, false, some, ◌↔◌, if◌then◌else◌, ◌||◌, ◌&&◌}
use zksettle.Base.Bytes.{bytes_eq_iff}
use zksettle.RecentWallets.Recency.{not_eq_false}
use zksettle.ProveFlow.Inputs.{MembershipProof, SanctionsProof}
use zksettle.Explorer.{
  Query, ComplianceStatus, loading, compliant, sanctioned, unknown, error, derive_status, has_leaf,
  empty_leaf,
}

-- The query is over, without an error or with one, and keeps its answer.
abbrev pub HasAnswered : {A : Type 0} → Query A → A → Type 0
HasAnswered q a = (q.is_loading ≡ false) × (q.is_error ≡ false) × (q.answer ≡ some a)

-- What React Query says of a query that is not paused.
abbrev pub IsUnpaused : {A : Type 0} → Query A → Type 0
IsUnpaused {A} q = q.is_loading ≡ false → q.is_error ≡ false → (a : A) × (q.answer ≡ some a)

abbrev status : Bool → Bool → Bool → Bool → Bool → ComplianceStatus
status ml sl me se leaf =
    if ml || sl
    then loading
    else if me && se
    then error
    else if me
    then unknown
    else if se
    then error
    else if leaf
    then sanctioned
    else compliant

abbrev AllClear : Bool → Bool → Bool → Bool → Bool → Type 0
AllClear ml sl me se leaf =
    (ml ≡ false) × (sl ≡ false) × (me ≡ false) × (se ≡ false) × (leaf ≡ false)

status-AllClear :
    (ml sl me se leaf : Bool) → status ml sl me se leaf ≡ compliant → AllClear ml sl me se leaf
status-AllClear false false false false false h = (refl, refl, refl, refl, refl)
status-AllClear true sl me se leaf h = cc
status-AllClear false true me se leaf h = cc
status-AllClear false false true true leaf h = cc
status-AllClear false false true false leaf h = cc
status-AllClear false false false true leaf h = cc
status-AllClear false false false false true h = cc

has_leaf-empty : (a : SanctionsProof) → has_leaf (some a) ≡ false → a.leaf_value ≡ empty_leaf
has_leaf-empty a h = (bytes_eq_iff a.leaf_value empty_leaf).0 (not_eq_false _ h)

-- Unless a query is paused, the explorer shows a wallet as compliant exactly when the membership query
-- has answered with a proof and the sanctions query with an empty leaf.
pub derive_status-compliant :
    (membership : Query MembershipProof) (sanctions : Query SanctionsProof)
    → IsUnpaused membership
    → IsUnpaused sanctions
    → (derive_status membership sanctions ≡ compliant) ↔ (
        ((m : MembershipProof) × HasAnswered membership m)
        × ((a : SanctionsProof) × HasAnswered sanctions a × (a.leaf_value ≡ empty_leaf)))
unfolding derive_status
derive_status-compliant membership sanctions running screened = (
  λ h.
      let (ml, sl, me, se, leaf) =
        status-AllClear membership.is_loading sanctions.is_loading membership.is_error
          sanctions.is_error (has_leaf sanctions.answer) h in
      let (m, given) = running ml me in
      let (a, there) = screened sl se in
      ((m, (ml, me, given)), (a, (sl, se, there), has_leaf-empty a (rw there at leaf))),
  λ ((m, (ml, me, given)), (a, (sl, se, there), empty)).
      rw (ml, sl, me, se, there, (bytes_eq_iff a.leaf_value empty_leaf).1 empty) refl,
)
