-- ===== src/Stablecoin/Constants.antt =====
-- sdk/src/stablecoin/constants.ts and discriminators.ts
use zksettle.Base.{[], ◌∷◌, String}
use zksettle.Base.Bytes.{Bytes}

abbrev pub stablecoin_program_id : String
stablecoin_program_id = "8UCELgX3D64aWPJcJre7AtuoSre5eWjHdAFsRUkeqCMe"

abbrev pub disc_initialize_mint : Bytes
disc_initialize_mint = 0xd1 ∷ 0x2a ∷ 0xc3 ∷ 0x04 ∷ 0x81 ∷ 0x55 ∷ 0xd1 ∷ 0x2c ∷ []

abbrev pub disc_mint_tokens : Bytes
disc_mint_tokens = 0x3b ∷ 0x84 ∷ 0x18 ∷ 0xf6 ∷ 0x7a ∷ 0x27 ∷ 0x08 ∷ 0xf3 ∷ []

abbrev pub disc_request_redemption : Bytes
disc_request_redemption = 0x0e ∷ 0x3e ∷ 0xb6 ∷ 0xed ∷ 0x3b ∷ 0x4f ∷ 0x95 ∷ 0x16 ∷ []

abbrev pub disc_approve_redemption : Bytes
disc_approve_redemption = 0x5e ∷ 0x1b ∷ 0xa4 ∷ 0x7f ∷ 0x9c ∷ 0xd8 ∷ 0xa1 ∷ 0x27 ∷ []

abbrev pub disc_cancel_redemption : Bytes
disc_cancel_redemption = 0xc5 ∷ 0xf3 ∷ 0x65 ∷ 0x56 ∷ 0x02 ∷ 0x25 ∷ 0x69 ∷ 0x6a ∷ []

abbrev pub disc_freeze_account : Bytes
disc_freeze_account = 0xfd ∷ 0x4b ∷ 0x52 ∷ 0x85 ∷ 0xa7 ∷ 0xee ∷ 0x2b ∷ 0x82 ∷ []

abbrev pub disc_thaw_account : Bytes
disc_thaw_account = 0x73 ∷ 0x98 ∷ 0x4f ∷ 0xd5 ∷ 0xd5 ∷ 0xa9 ∷ 0xb8 ∷ 0x23 ∷ []

abbrev pub disc_propose_admin : Bytes
disc_propose_admin = 0x79 ∷ 0xd6 ∷ 0xc7 ∷ 0xd4 ∷ 0x57 ∷ 0x27 ∷ 0x75 ∷ 0xea ∷ []

abbrev pub disc_accept_admin : Bytes
disc_accept_admin = 0x70 ∷ 0x2a ∷ 0x2d ∷ 0x5a ∷ 0x74 ∷ 0xb5 ∷ 0x0d ∷ 0xaa ∷ []

abbrev pub disc_cancel_pending_admin : Bytes
disc_cancel_pending_admin = 0x60 ∷ 0xd5 ∷ 0x5c ∷ 0x66 ∷ 0x76 ∷ 0x36 ∷ 0x52 ∷ 0x5d ∷ []

abbrev pub disc_set_operator : Bytes
disc_set_operator = 0xee ∷ 0x99 ∷ 0x65 ∷ 0xa9 ∷ 0xf3 ∷ 0x83 ∷ 0x24 ∷ 0x01 ∷ []

abbrev pub disc_update_mint_cap : Bytes
disc_update_mint_cap = 0xdc ∷ 0xc9 ∷ 0x33 ∷ 0x18 ∷ 0x1e ∷ 0x01 ∷ 0xc8 ∷ 0x00 ∷ []

abbrev pub disc_pause : Bytes
disc_pause = 0xd3 ∷ 0x16 ∷ 0xdd ∷ 0xfb ∷ 0x4a ∷ 0x79 ∷ 0xc1 ∷ 0x2f ∷ []

abbrev pub disc_unpause : Bytes
disc_unpause = 0xa9 ∷ 0x90 ∷ 0x04 ∷ 0x26 ∷ 0x0a ∷ 0x8d ∷ 0xbc ∷ 0xff ∷ []

abbrev pub disc_treasury : Bytes
disc_treasury = 0xee ∷ 0xef ∷ 0x7b ∷ 0xee ∷ 0x59 ∷ 0x01 ∷ 0xa8 ∷ 0xfd ∷ []

abbrev pub disc_redemption_request : Bytes
disc_redemption_request = 0x75 ∷ 0x9d ∷ 0xd6 ∷ 0xd6 ∷ 0x40 ∷ 0xa0 ∷ 0x1f ∷ 0x3a ∷ []

-- the bytes of "treasury"
abbrev pub treasury_seed : Bytes
treasury_seed = 116 ∷ 114 ∷ 101 ∷ 97 ∷ 115 ∷ 117 ∷ 114 ∷ 121 ∷ []

-- the bytes of "mint-authority"
abbrev pub mint_authority_seed : Bytes
mint_authority_seed =
    109 ∷ 105 ∷ 110 ∷ 116 ∷ 45 ∷ 97 ∷ 117 ∷ 116 ∷ 104 ∷ 111 ∷ 114 ∷ 105 ∷ 116 ∷ 121 ∷ []

-- the bytes of "freeze-authority"
abbrev pub freeze_authority_seed : Bytes
freeze_authority_seed =
    102 ∷ 114 ∷ 101 ∷ 101 ∷ 122 ∷ 101 ∷ 45 ∷ 97 ∷ 117 ∷ 116 ∷ 104 ∷ 111 ∷ 114 ∷ 105 ∷ 116 ∷ 121 ∷ []

-- the bytes of "escrow-authority"
abbrev pub escrow_authority_seed : Bytes
escrow_authority_seed =
    101 ∷ 115 ∷ 99 ∷ 114 ∷ 111 ∷ 119 ∷ 45 ∷ 97 ∷ 117 ∷ 116 ∷ 104 ∷ 111 ∷ 114 ∷ 105 ∷ 116 ∷ 121 ∷ []

-- the bytes of "redemption"
abbrev pub redemption_seed : Bytes
redemption_seed = 114 ∷ 101 ∷ 100 ∷ 101 ∷ 109 ∷ 112 ∷ 116 ∷ 105 ∷ 111 ∷ 110 ∷ []
