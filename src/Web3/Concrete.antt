-- ===== src/Web3/Concrete.antt =====
-- Public keys as lists of exactly 32 bytes: an instance of the interface, for tests.
use mathlib.Core.HLevel.{Σ_prop_path}
use native.Mathlib.Nat.{ℕ_set}
use Prim.Native.Char.{code}
use zksettle.Base.{
  ℕ, ◌≡◌, ◌++◌, ◌∷◌, [], String, length, take, take-append, length-take, length-append,
  length-replicate, replicate, concat, arith,
}
use zksettle.Base.Bytes.{Bytes}
use zksettle.Web3.{Web3, Laws}

abbrev Key : Type 0
Key = (bs : Bytes) × (length bs ≡ 32)

pub length-pad : (bs : Bytes) → length (take 32 (bs ++ replicate 32 0)) ≡ 32
length-pad bs = omega (
  arith,
  length-take 32 (bs ++ replicate 32 0),
  length-append bs (replicate 32 0),
  length-replicate {A = ℕ} 32 0,
)

abbrev pub pad : Bytes → Key
pad bs = (take 32 (bs ++ replicate 32 0), length-pad bs)

abbrev codes : String → Bytes
codes String.[] = []
codes (String.◌∷◌ c s) = code c ∷ codes s

abbrev pub concrete : Web3
concrete = record {
  PublicKey = Key;
  public_key = pad;
  from_base58 = λ s. pad (codes s);
  to_buffer = λ k. k.0;
  find_program_address = λ seeds program. (pad (concat seeds ++ program.0), 255);
  system_program = pad (codes "11111111111111111111111111111111");
  token_2022_program = pad (6 ∷ []);
}

pad_self : (k : Key) → pad k.0 ≡ k
pad_self k = Σ_prop_path (λ bs. ℕ_set (length bs) 32) (take-append 32 k.0 (replicate 32 0) k.1)

pub concrete-Laws : Laws concrete
concrete-Laws = record { length-to_buffer = λ k. k.1; public_key-to_buffer = pad_self }
