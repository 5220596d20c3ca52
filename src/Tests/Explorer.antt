-- ===== src/Tests/Explorer.antt =====
-- Runs of the theorems on the attestation explorer.
use zksettle.Base.{List, ◌≡◌, refl, false, some, none, [], ◌∷◌, ◌++◌, replicate, ◌↔◌}
use zksettle.Base.Text.{codes}
use zksettle.Tests.WalletInput.{zeros-IsByte}
use zksettle.RecentWallets.{absent, read}
use zksettle.ProveFlow.Inputs.{MembershipProof, SanctionsProof}
use zksettle.Explorer.{
  opened, Visit, types, searches, takes_own, picks, forgets, visits, Query, derive_status,
  compliant, empty_leaf,
}
use zksettle.Explorer.Wallets.{IsSound, visits-IsSound}
use zksettle.Explorer.Status.{HasAnswered, derive_status-compliant}

abbrev day : List Visit
day =
    types (codes " 0XAB" ++ replicate 62 b'0')
    ∷ searches 10
    ∷ takes_own (some (replicate 32 0)) 20
    ∷ picks 1 30
    ∷ forgets 0
    ∷ []

visits-IsSound_example : IsSound (visits (opened absent) day)
unfolding read
visits-IsSound_example =
    visits-IsSound absent day (tt, (tt, ((refl, zeros-IsByte 32), (tt, (tt, tt))))) tt

abbrev membership : Query MembershipProof
membership = record {
  is_loading = false;
  is_error = false;
  answer = some (record { path = []; path_indices = [] });
}

abbrev sanctions : Query SanctionsProof
sanctions = record {
  is_loading = false;
  is_error = false;
  answer = some (record { path = []; path_indices = []; leaf_value = empty_leaf });
}

derive_status-compliant_example : (derive_status membership sanctions ≡ compliant) ↔ (
    ((m : MembershipProof) × HasAnswered membership m)
    × ((a : SanctionsProof) × HasAnswered sanctions a × (a.leaf_value ≡ empty_leaf)))
derive_status-compliant_example =
    derive_status-compliant membership sanctions (λ _ _. (_, refl)) (λ _ _. (_, refl))

-- Without a network both queries are paused: nothing is known, and the wallet is shown as compliant.
derive_status_paused_test :
    derive_status
      (record { is_loading = false; is_error = false; answer = none })
      (record { is_loading = false; is_error = false; answer = none })
    ≡ compliant
unfolding derive_status
derive_status_paused_test = refl
