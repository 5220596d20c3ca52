-- ===== src/Tests/Format.antt =====
-- Runs of the theorems on amounts and figures.
use zksettle.Base.{◌≡◌, ◌≤◌, some, ◌↔◌, refl, true, none, ◌<◌, arith}
use zksettle.Base.Text.{codes}
use zksettle.Format.{
  Supply, format_amount, parse_amount_to_units, mint_cap_progress, ratio_precision,
}
use zksettle.Format.RoundTrip.{parse_amount_to_units-format_amount}
use zksettle.Format.Figures.{mint_cap_progress_bounds}

parse_amount_to_units-format_amount_example :
    parse_amount_to_units (format_amount 1_500_000 6) 6 ≡ some 1_500_000
parse_amount_to_units-format_amount_example = parse_amount_to_units-format_amount 1_500_000 6

format_amount_test : format_amount 1_500_000 6 ≡ codes "1.5"
unfolding format_amount
format_amount_test = refl

parse_amount_to_units_test :
    (parse_amount_to_units (codes " 007.25 ") 6 ≡ some 7_250_000)
    × (parse_amount_to_units (codes "1.2345678") 6 ≡ none)
    × (parse_amount_to_units (codes "1.") 6 ≡ none)
unfolding parse_amount_to_units
parse_amount_to_units_test = (refl, refl, refl)

abbrev supply : Supply
supply = record { total_minted = 750; total_burned = 50; mint_cap = 1_000 }

mint_cap_progress_bounds_example :
    ((mint_cap_progress supply).ratio ≤ ratio_precision)
    × (((mint_cap_progress supply).ratio ≡ ratio_precision)
        ↔ (supply.mint_cap ≤ supply.total_minted))
    × (((mint_cap_progress supply).below_minted ≡ true) ↔ (supply.mint_cap < supply.total_minted))
mint_cap_progress_bounds_example = mint_cap_progress_bounds supply (omega arith)
