-- ===== src/Format.antt =====
-- frontend/src/lib/stablecoin/format.ts: amounts of token units as decimal text and back, and the
-- figures of the treasury page. Amounts, caps and supplies are naturals; `Date.now()` is an argument.
pub mod Trim
pub mod RoundTrip
pub mod Figures
use zksettle.Base.{
  zero, suc, none, some, [], ◌∷◌, true, false, reverse, Bool, if◌then◌else◌, take, Option, ℕ,
  get_elem?, ◌/◌, ◌*◌, ◌==◌, ◌^◌, not, ◌++◌, replicate, leb, ◌+◌, length, ◌&&◌, ltb, ◌||◌, all, ◌%◌,
  ◌-◌,
}
use zksettle.Base.Text.{Text, codes}
use zksettle.Base.Decimal.{decimal, digits_value}
use zksettle.Base.Int.{ℤ, pos, negsuc}

abbrev pub zero_char : ℕ
zero_char = 48

abbrev pub dot : ℕ
dot = 46

-- `s.padStart(n, "0")` and `s.padEnd(n, "0")`
abbrev pub pad_start : Text → ℕ → Text
pad_start s n = replicate (n - length s) zero_char ++ s

abbrev pub pad_end : Text → ℕ → Text
pad_end s n = s ++ replicate (n - length s) zero_char

-- `while (end > 0 && input[end - 1] === ZERO_CHAR) end--;`
unfoldable pub trimmed_end : Text → ℕ → ℕ
trimmed_end input zero = zero
trimmed_end input (suc e) =
    let earlier = trimmed_end input e in
    elim (get_elem? input e) [ none ↦ suc e | some c ↦ if c == zero_char then earlier else suc e ]

unfoldable pub trim_trailing_zeros : Text → Text
unfolding trimmed_end
trim_trailing_zeros input = take (trimmed_end input (length input)) input

unfoldable pub format_amount : ℕ → ℕ → Text
unfolding decimal trim_trailing_zeros
format_amount raw decimals =
    let divisor = 10 ^ decimals in
    let whole = raw / divisor in
    let fraction = raw % divisor in
    let fraction_str = trim_trailing_zeros (pad_start (decimal fraction) decimals) in
    if decimals == 0
    then decimal raw
    else if fraction == 0
    then decimal whole
    else if ltb 0 (length fraction_str)
    then decimal whole ++ dot ∷ fraction_str
    else decimal whole

-- White space of `String.prototype.trim`.
abbrev pub is_space : ℕ → Bool
is_space c =
    (leb 9 c && leb c 13)
    || (c == 32)
    || (c == 160)
    || (c == 0x1680)
    || (leb 0x2000 c && leb c 0x200a)
    || (c == 0x2028)
    || (c == 0x2029)
    || (c == 0x202f)
    || (c == 0x205f)
    || (c == 0x3000)
    || (c == 0xfeff)

unfoldable pub drop_spaces : Text → Text
drop_spaces [] = []
drop_spaces (c ∷ s) = let rest = drop_spaces s in if is_space c then rest else c ∷ s

-- `raw.trim()`
unfoldable pub trim : Text → Text
unfolding drop_spaces
trim s = reverse (drop_spaces (reverse (drop_spaces s)))

abbrev pub is_digit : ℕ → Bool
is_digit c = leb 48 c && leb c 57

-- `s.split(".")`, cut at the first dot.
unfoldable pub split_dot : Text → Text × Option Text
split_dot [] = ([], none)
split_dot (c ∷ s) =
    let rest = split_dot s in if c == dot then ([], some s) else (c ∷ rest.0, rest.1)

abbrev pub is_digits : Text → Bool
is_digits s = ltb 0 (length s) && all is_digit s

-- `/^\d+(\.\d+)?$/`
abbrev pub is_amount : Text × Option Text → Bool
is_amount (whole, none) = is_digits whole
is_amount (whole, some fraction) = is_digits whole && is_digits fraction

-- `s.replace(/^0+/, "") || "0"`
unfoldable pub strip_zeros : Text → Text
strip_zeros [] = zero_char ∷ []
strip_zeros (c ∷ s) = let rest = strip_zeros s in if c == zero_char then rest else c ∷ s

unfoldable pub parse_amount_to_units : Text → ℕ → Option ℕ
unfolding trim split_dot strip_zeros
parse_amount_to_units raw decimals =
    let parts = split_dot (trim raw) in
    let fraction_raw = elim parts.1 as (λ _. Text) [ none ↦ [] | some f ↦ f ] in
    if not (is_amount parts)
    then none
    else if ltb decimals (length fraction_raw)
    then none
    else some (digits_value 0 (strip_zeros (parts.0 ++ pad_end fraction_raw decimals)))

-- `Treasury` of frontend/src/lib/stablecoin/types.ts, as far as the figures read it.
pub record Supply : Type 0 where
  pub total_minted : ℕ
  pub total_burned : ℕ
  pub mint_cap : ℕ

-- The ratio in ten-thousandths.
pub record MintCapProgress : Type 0 where
  pub capped : Bool
  pub ratio : ℕ
  pub below_minted : Bool

abbrev pub ratio_precision : ℕ
ratio_precision = 10_000

unfoldable pub mint_cap_progress : Supply → MintCapProgress
mint_cap_progress t =
    if t.mint_cap == 0 then record { capped = false; ratio = 0; below_minted = false } else record {
      capped = true;
      ratio =
          if t.total_minted == 0
          then 0
          else if leb t.mint_cap t.total_minted
          then ratio_precision
          else t.total_minted * ratio_precision / t.mint_cap;
      below_minted = ltb t.mint_cap t.total_minted;
    }

unfoldable pub circulating_supply : Supply → ℕ
circulating_supply t =
    if leb t.total_burned t.total_minted then t.total_minted - t.total_burned else 0

pub record RedemptionExpiry : Type 0 where
  pub expires_at : ℕ
  pub expired : Bool
  pub seconds_remaining : ℕ

abbrev pub redemption_expiry_secs : ℕ
redemption_expiry_secs = 604_800

-- `Math.max(0, expiresAt - now)` is the subtraction that stops at 0.
unfoldable pub redemption_expiry : ℕ → ℕ → RedemptionExpiry
redemption_expiry requested_at now = record {
  expires_at = requested_at + redemption_expiry_secs;
  expired = leb (requested_at + redemption_expiry_secs) now;
  seconds_remaining = requested_at + redemption_expiry_secs - now;
}

unfoldable pub format_duration : ℕ → Text
unfolding decimal
format_duration secs =
    let days = secs / 86_400 in
    let hours = secs % 86_400 / 3_600 in
    let minutes = secs % 3_600 / 60 in
    if secs == 0
    then codes "expired"
    else if ltb 0 days
    then decimal days ++ (codes "d " ++ (decimal hours ++ codes "h"))
    else if ltb 0 hours
    then decimal hours ++ (codes "h " ++ (decimal minutes ++ codes "m"))
    else if ltb 0 minutes
    then decimal minutes ++ codes "m"
    else decimal secs ++ codes "s"
