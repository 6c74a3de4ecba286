-- ===== src/Base/Keys.antt =====
-- Boolean equality of keys: of texts, and of pairs and triples of texts.
use Prim.Native.String.{String}
use mathlib.Core.Path.{◌≡◌}
use mathlib.Core.Logic.{◌↔◌}
use mathlib.Core.Bool.{Bool, true, ◌&&◌}
use native.Mathlib.Omega.{arith}
use text.Mathlib.TextEquality.{eq_iff}
use whatsapp_mcp_docker.Base.Tests.{str_eq}

pub record Eq {ℓ} (K : Type ℓ) : Type ℓ where
  pub beq : K → K → Bool
  pub beq_iff : (a b : K) → (beq a b ≡ true) ↔ (a ≡ b)

pub record Key2 : Type 0 where
  pub first : String
  pub second : String

pub record Key3 : Type 0 where
  pub first : String
  pub second : String
  pub third : String

abbrev pub beq2 : Key2 → Key2 → Bool
beq2 a b = str_eq a.first b.first && str_eq a.second b.second

abbrev pub beq3 : Key3 → Key3 → Bool
beq3 a b = str_eq a.first b.first && (str_eq a.second b.second && str_eq a.third b.third)

pub beq2_iff : (a b : Key2) → (beq2 a b ≡ true) ↔ (a ≡ b)
beq2_iff a b = (
  ground (arith, eq_iff a.first b.first, eq_iff a.second b.second),
  ground (arith, eq_iff a.first b.first, eq_iff a.second b.second),
)

pub beq3_iff : (a b : Key3) → (beq3 a b ≡ true) ↔ (a ≡ b)
beq3_iff a b = (
  ground (arith, eq_iff a.first b.first, eq_iff a.second b.second, eq_iff a.third b.third),
  ground (arith, eq_iff a.first b.first, eq_iff a.second b.second, eq_iff a.third b.third),
)

instance abbrev pub string_eq : Eq String
string_eq = record { beq = str_eq; beq_iff = eq_iff }

instance abbrev pub key2_eq : Eq Key2
key2_eq = record { beq = beq2; beq_iff = beq2_iff }

instance abbrev pub key3_eq : Eq Key3
key3_eq = record { beq = beq3; beq_iff = beq3_iff }
