-- ===== src/Controls/Queued.antt =====
-- What a button of the admin's panels queues: the `queue` functions of admin-controls.tsx
-- (frontend/src/components/dashboard).
use zksettle.Base.{true, false, Option, some, ◌++◌, if◌then◌else◌}
use zksettle.Base.Maybe.{◌>>=◌}
use zksettle.Base.Text.{Text, codes}
use zksettle.Format.{trim}
use zksettle.Adapter.{LocalTreasury}
use zksettle.Controls.{
  PendingAction, Control, format_pubkey, cap_units, accept_admin_button, cancel_transfer_button,
  emergency_button, change_operator_button, propose_admin_button, update_cap_button, freeze_button,
  thaw_button, set_operator, propose_admin, accept_admin, cancel_pending_admin, pause, unpause,
  update_mint_cap, freeze_account, thaw_account,
}

module _ {Key : Type 0} (to_base58 : Key → Text) (new_public_key : Text → Option Key) where
  -- The `queue` functions of the panels. `none`: nothing is queued, or `new PublicKey` throws.
  abbrev pub queue_accept_admin : Option (PendingAction Key)
  queue_accept_admin = some (record {
    title = codes "Accept admin role?";
    destructive = false;
    summary = codes "Admin role accepted";
    confirm_label = codes "Accept admin";
    call = accept_admin;
  })

  abbrev pub queue_cancel_pending_admin : Option (PendingAction Key)
  queue_cancel_pending_admin = some (record {
    title = codes "Cancel admin transfer?";
    destructive = true;
    summary = codes "Pending admin transfer cancelled";
    confirm_label = codes "Cancel transfer";
    call = cancel_pending_admin;
  })

  abbrev pub queue_emergency : LocalTreasury Key → Option (PendingAction Key)
  queue_emergency treasury = some (
      if treasury.paused
      then record {
        title = codes "Unpause stablecoin?";
        destructive = false;
        summary = codes "Stablecoin unpaused";
        confirm_label = codes "Unpause";
        call = unpause;
      }
      else record {
        title = codes "Pause the stablecoin?";
        destructive = true;
        summary = codes "Stablecoin paused";
        confirm_label = codes "Pause";
        call = pause;
      })

  abbrev pub queue_set_operator : Text → Option (PendingAction Key)
  queue_set_operator input = new_public_key (trim input) >>= λ next. some (record {
    title = codes "Change operator?";
    destructive = false;
    summary = codes "Operator changed to " ++ format_pubkey to_base58 new_public_key next 4 4;
    confirm_label = codes "Change operator";
    call = set_operator next;
  })

  abbrev pub queue_propose_admin : Text → Option (PendingAction Key)
  queue_propose_admin input = new_public_key (trim input) >>= λ next. some (record {
    title = codes "Propose new admin?";
    destructive = false;
    summary =
        codes "Proposed "
        ++ (format_pubkey to_base58 new_public_key next 4 4 ++ codes " as new admin");
    confirm_label = codes "Propose admin";
    call = propose_admin next;
  })

  abbrev pub queue_mint_cap : LocalTreasury Key → Text → Option (PendingAction Key)
  queue_mint_cap treasury input = cap_units input treasury.decimals >>= λ units. some (record {
    title = codes "Update mint cap?";
    destructive = false;
    summary = codes "Mint cap updated to " ++ trim input;
    confirm_label = codes "Update cap";
    call = update_mint_cap units;
  })

  abbrev pub queue_freeze : Text → Option (PendingAction Key)
  queue_freeze target = new_public_key (trim target) >>= λ token_account. some (record {
    title = codes "Freeze account?";
    destructive = true;
    summary =
        codes "Account "
        ++ (format_pubkey to_base58 new_public_key token_account 4 4 ++ codes " frozen");
    confirm_label = codes "Freeze";
    call = freeze_account token_account;
  })

  abbrev pub queue_thaw : Text → Option (PendingAction Key)
  queue_thaw target = new_public_key (trim target) >>= λ token_account. some (record {
    title = codes "Thaw account?";
    destructive = false;
    summary =
        codes "Account "
        ++ (format_pubkey to_base58 new_public_key token_account 4 4 ++ codes " thawed");
    confirm_label = codes "Thaw";
    call = thaw_account token_account;
  })

  unfoldable pub queued : LocalTreasury Key → Control → Option (PendingAction Key)
  queued treasury accept_admin_button = queue_accept_admin
  queued treasury cancel_transfer_button = queue_cancel_pending_admin
  queued treasury emergency_button = queue_emergency treasury
  queued treasury (change_operator_button input) = queue_set_operator input
  queued treasury (propose_admin_button input) = queue_propose_admin input
  queued treasury (update_cap_button input) = queue_mint_cap treasury input
  queued treasury (freeze_button target) = queue_freeze target
  queued treasury (thaw_button target) = queue_thaw target
