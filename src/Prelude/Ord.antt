-- ===== src/Prelude/Ord.antt =====
-- Keys of ordered containers: an equality and an order test, with their laws.
use Prim.Native.Nat.{ℕ}
use mathlib.Core.Path.{◌≡◌}
use mathlib.Core.Logic.{◌↔◌}
use mathlib.Core.Bool.{Bool, true, false}
use native.Mathlib.Omega.{arith}
use artdaq.Prelude.Tests.{ltb, ◌==◌, ==_iff}
use artdaq.Prelude.Int.{ℤ, pos, negsuc, ltb_ℤ, eqb_ℤ, eqb_ℤ_iff}

pub record Ord {ℓ} (K : Type ℓ) : Type ℓ where
  pub beq : K → K → Bool
  pub lt : K → K → Bool
  pub beq_iff : (a b : K) → (beq a b ≡ true) ↔ (a ≡ b)
  pub lt_irrefl : (a : K) → lt a a ≡ false
  pub lt_trans : (a b c : K) → lt a b ≡ true → lt b c ≡ true → lt a c ≡ true
  pub lt_total : (a b : K) → lt a b ≡ false → beq a b ≡ false → lt b a ≡ true

pub nat_irrefl : (a : ℕ) → ltb a a ≡ false
nat_irrefl a = ground arith

pub nat_trans : (a b c : ℕ) → ltb a b ≡ true → ltb b c ≡ true → ltb a c ≡ true
nat_trans a b c p q = ground arith

pub nat_total : (a b : ℕ) → ltb a b ≡ false → (a == b) ≡ false → ltb b a ≡ true
nat_total a b p q = ground arith

instance abbrev pub nat_ord : Ord ℕ
nat_ord = record {
  beq = ◌==◌;
  lt = ltb;
  beq_iff = ==_iff;
  lt_irrefl = nat_irrefl;
  lt_trans = nat_trans;
  lt_total = nat_total;
}

pub int_irrefl : (a : ℤ) → ltb_ℤ a a ≡ false
int_irrefl a = ground arith

pub int_trans : (a b c : ℤ) → ltb_ℤ a b ≡ true → ltb_ℤ b c ≡ true → ltb_ℤ a c ≡ true
int_trans a b c p q = ground arith

pub int_total : (a b : ℤ) → ltb_ℤ a b ≡ false → eqb_ℤ a b ≡ false → ltb_ℤ b a ≡ true
int_total (pos a) (pos b) p q = ground arith
int_total (pos a) (negsuc b) p q = ground arith
int_total (negsuc a) (pos b) p q = ground arith
int_total (negsuc a) (negsuc b) p q = ground arith

instance abbrev pub int_ord : Ord ℤ
int_ord = record {
  beq = eqb_ℤ;
  lt = ltb_ℤ;
  beq_iff = eqb_ℤ_iff;
  lt_irrefl = int_irrefl;
  lt_trans = int_trans;
  lt_total = int_total;
}
