-- ===== src/Base/Bytes.antt =====
-- Node's `Buffer` as a list of bytes: little-endian numbers, reads at an offset, hexadecimal digits.
use native.Mathlib.Nat.{pow-suc}
use zksettle.Base.Tests.{leb, ◌==◌, if◌then◌else◌, Bool-cases}
use zksettle.Base.Lists.{reverse_onto, length, take, drop, get_elem?, All, length-append}
use zksettle.Base.Slices.{take-append, drop-append, length-drop, drop-drop}
use Prim.Native.Nat.{ℕ, zero, suc, ◌+◌, ◌*◌, ◌/◌, ◌%◌, ◌^◌, ◌≤◌, ◌<◌}
use mathlib.Core.Path.{◌≡◌, refl, sym, ap, ◌∙◌}
use mathlib.Core.Bool.{Bool, true, false, ◌&&◌}
use mathlib.Core.Option.{Option, none, some}
use mathlib.Core.Logic.{◌↔◌, inl, inr, ◌≢◌}
use mathlib.Core.List.{List, [], ◌∷◌, ◌++◌}
use native.Mathlib.Omega.{arith}

abbrev pub Bytes : Type 0
Bytes = List ℕ

abbrev pub IsByte : ℕ → Type 0
IsByte b = b < 256

-- The low `k` bytes of `n`, the least significant first.
abbrev pub le_bytes : ℕ → ℕ → Bytes
le_bytes zero n = []
le_bytes (suc k) n = (n % 256) ∷ le_bytes k (n / 256)

abbrev pub from_le : Bytes → ℕ
from_le [] = 0
from_le (b ∷ bs) = b + 256 * from_le bs

-- The number of bytes, the most significant first, behind `acc`.
abbrev pub from_be : ℕ → Bytes → ℕ
from_be acc [] = acc
from_be acc (b ∷ bs) = from_be (acc * 256 + b) bs

pub from_le-reverse_onto : (s acc : Bytes) → from_le (reverse_onto s acc) ≡ from_be (from_le acc) s
from_le-reverse_onto [] acc = refl
from_le-reverse_onto (b ∷ s) acc =
    let e : b + 256 * from_le acc ≡ from_le acc * 256 + b = omega arith in
    from_le-reverse_onto s (b ∷ acc) ∙ ap (λ n. from_be n s) e

pub length-le_bytes : (k n : ℕ) → length (le_bytes k n) ≡ k
length-le_bytes zero n = refl
length-le_bytes (suc k) n = ap suc (length-le_bytes k (n / 256))

pub from_le-le_bytes : (k n : ℕ) → n < 256 ^ k → from_le (le_bytes k n) ≡ n
from_le-le_bytes zero n h = omega arith
from_le-le_bytes (suc k) n h =
    let h' : n < 256 ^ k * 256 = rw (← pow-suc) h in
    let ih : from_le (le_bytes k (n / 256)) ≡ n / 256 =
      from_le-le_bytes k (n / 256) (omega arith) in
    omega arith

pub le_bytes-from_le :
    (k : ℕ) (bs : Bytes) → length bs ≡ k → All IsByte bs → le_bytes k (from_le bs) ≡ bs
le_bytes-from_le zero [] h b = refl
le_bytes-from_le zero (x ∷ bs) h b = absurd (omega arith)
le_bytes-from_le (suc k) [] h b = absurd (omega arith)
le_bytes-from_le (suc k) (x ∷ bs) h (b, bs_ok) =
    let q : (x + 256 * from_le bs) / 256 ≡ from_le bs = omega arith in
    let r : (x + 256 * from_le bs) % 256 ≡ x = omega arith in
    rw (q, r) (ap (λ t. x ∷ t) (le_bytes-from_le k bs (omega arith) bs_ok))

-- `buf.subarray(start, start + len)`: clamped to the end of the buffer.
abbrev pub subarray : Bytes → ℕ → ℕ → Bytes
subarray buf start len = take len (drop start buf)

-- `buf.readUInt8(offset)`; a read past the end throws.
abbrev pub read_u8 : Bytes → ℕ → Option ℕ
read_u8 buf offset = get_elem? buf offset

-- `buf.readBigUInt64LE(offset)`; a read past the end throws.
pub read_u64_le : Bytes → ℕ → Option ℕ
read_u64_le buf offset =
    if leb (offset + 8) (length buf) then some (from_le (subarray buf offset 8)) else none

-- What stands at an offset: the rest of the buffer from there on.
pub read_u8-at : (buf : Bytes) (o b : ℕ) (xs : Bytes) → drop o buf ≡ b ∷ xs → read_u8 buf o ≡ some b
read_u8-at [] zero b xs h = cc
read_u8-at [] (suc o) b xs h = cc
read_u8-at (x ∷ buf) zero b xs h = cc
read_u8-at (x ∷ buf) (suc o) b xs h = read_u8-at buf o b xs h

pub subarray-at :
    (buf : Bytes) (o len : ℕ) (ys xs : Bytes)
    → drop o buf ≡ ys ++ xs
    → length ys ≡ len
    → subarray buf o len ≡ ys
subarray-at buf o len ys xs h e = rw h (take-append len ys xs e)

pub advance :
    (buf : Bytes) (o len o' : ℕ) (ys xs : Bytes)
    → drop o buf ≡ ys ++ xs
    → length ys ≡ len
    → o + len ≡ o'
    → drop o' buf ≡ xs
advance buf o len o' ys xs h e p =
    sym (drop-drop o len o' buf p) ∙ ap (drop len) h ∙ drop-append len ys xs e

pub length-at :
    (buf : Bytes) (o : ℕ) (ys xs : Bytes)
    → drop o buf ≡ ys ++ xs
    → 0 < length ys
    → length buf ≡ o + length ys + length xs
length-at buf o ys xs h e = omega (arith, length-drop o buf, ap length h, length-append ys xs)

pub read_u64_le-at :
    (buf : Bytes) (o n : ℕ) (xs : Bytes)
    → drop o buf ≡ le_bytes 8 n ++ xs
    → n < 2 ^ 64
    → read_u64_le buf o ≡ some n
unfolding read_u64_le
read_u64_le-at buf o n xs h small =
    let fits : leb (o + 8) (length buf) ≡ true =
      ground (arith, length-at buf o (le_bytes 8 n) xs h, length-le_bytes 8 n) in
    rw (fits, subarray-at buf o 8 (le_bytes 8 n) xs h (length-le_bytes 8 n))
      (ap some (from_le-le_bytes 8 n small))

-- A 64-bit read succeeds exactly when its eight bytes are in the buffer.
pub read_u64_le-in :
    (buf : Bytes) (o : ℕ)
    → o + 8 ≤ length buf
    → read_u64_le buf o ≡ some (from_le (subarray buf o 8))
unfolding read_u64_le
read_u64_le-in buf o h = ground arith

pub read_u64_le-past : (buf : Bytes) (o : ℕ) → length buf < o + 8 → read_u64_le buf o ≡ none
unfolding read_u64_le
read_u64_le-past buf o h = ground arith

pub read_u8-in : (buf : Bytes) (o : ℕ) → o < length buf → (b : ℕ) × (read_u8 buf o ≡ some b)
read_u8-in [] o h = absurd (omega arith)
read_u8-in (x ∷ buf) zero h = (x, refl)
read_u8-in (x ∷ buf) (suc o) h = read_u8-in buf o (omega arith)

pub read_u8-past : (buf : Bytes) (o : ℕ) → length buf ≤ o → read_u8 buf o ≡ none
read_u8-past [] o h = refl
read_u8-past (x ∷ buf) zero h = absurd (omega arith)
read_u8-past (x ∷ buf) (suc o) h = read_u8-past buf o (omega arith)

-- `a.equals(b)` on buffers.
unfoldable pub bytes_eq : Bytes → Bytes → Bool
bytes_eq [] [] = true
bytes_eq (x ∷ xs) (y ∷ ys) = (x == y) && bytes_eq xs ys
bytes_eq _ _ = false

pub bytes_eq_iff : (xs ys : Bytes) → (bytes_eq xs ys ≡ true) ↔ (xs ≡ ys)
unfolding bytes_eq
bytes_eq_iff [] [] = ground arith
bytes_eq_iff [] (y ∷ ys) = ground arith
bytes_eq_iff (x ∷ xs) [] = ground arith
bytes_eq_iff (x ∷ xs) (y ∷ ys) = ground (arith, bytes_eq_iff xs ys)

pub bytes_eq_refl : (xs : Bytes) → bytes_eq xs xs ≡ true
bytes_eq_refl xs = (bytes_eq_iff xs xs).1 refl

pub bytes_eq-false : (xs ys : Bytes) → xs ≢ ys → bytes_eq xs ys ≡ false
bytes_eq-false xs ys h = elim (Bool-cases (bytes_eq xs ys)) [
  | inl same ↦ absurd (h ((bytes_eq_iff xs ys).0 same))
  | inr other ↦ other
]

pub bytes_eq_comm : (xs ys : Bytes) → bytes_eq xs ys ≡ bytes_eq ys xs
unfolding bytes_eq
bytes_eq_comm [] [] = refl
bytes_eq_comm [] (y ∷ ys) = refl
bytes_eq_comm (x ∷ xs) [] = refl
bytes_eq_comm (x ∷ xs) (y ∷ ys) = ground (arith, bytes_eq_comm xs ys)
