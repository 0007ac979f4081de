-- ===== src/Prelude/Tests.antt =====
-- Boolean tests on numbers and texts, and the case splits that keep their equation.
use Prim.Native.Nat.{ℕ, compare, Ordering}
use Prim.Native.String.{String}
use mathlib.Core.Path.{◌≡◌, refl}
use mathlib.Core.Logic.{◌⊎◌, inl, inr, ◌↔◌}
use mathlib.Core.Bool.{Bool, true, false}
use mathlib.Core.Option.{Option, none, some}
use native.Mathlib.Omega.{arith}
use text.Mathlib.Text.{◌==◌ as str_eq}
use text.Mathlib.TextEquality.{eq_iff}

abbrev pub ltb : ℕ → ℕ → Bool
ltb a b = elim (compare a b) [ Ordering.lt ↦ true | _ ↦ false ]

abbrev pub leb : ℕ → ℕ → Bool
leb a b = elim (compare a b) [ Ordering.gt ↦ false | _ ↦ true ]

abbrev pub nat_beq : ℕ → ℕ → Bool
nat_beq a b = elim (compare a b) [ Ordering.eq ↦ true | _ ↦ false ]

pub nat_beq_iff : (a b : ℕ) → (nat_beq a b ≡ true) ↔ (a ≡ b)
nat_beq_iff a b = ground arith

-- JavaScript's `===` and SQL's `=` at the types that have it.
pub record Eq {κ} (K : Type κ) : Type κ where
  pub equals : K → K → Bool
  pub equals_iff : (j k : K) → (equals j k ≡ true) ↔ (j ≡ k)

infix 50 ◌==◌
abbrev pub ◌==◌ {κ} : {K : Type κ} ⦃e : Eq K⦄ → K → K → Bool
◌==◌ ⦃e⦄ = e.equals

pub ==-refl {ℓ} : {A : Type ℓ} ⦃e : Eq A⦄ (a : A) → (a == a) ≡ true
==-refl ⦃e⦄ a = (e.equals_iff a a).1 refl

instance abbrev pub nat_eq : Eq ℕ
nat_eq = record { equals = nat_beq; equals_iff = nat_beq_iff }

instance abbrev pub string_eq : Eq String
string_eq = record { equals = str_eq; equals_iff = eq_iff }

infix 1 if◌then◌else◌
abbrev pub if◌then◌else◌ {ℓ} : {A : Type ℓ} → Bool → A → A → A
if true then x else y = x
if false then x else y = y

pub Bool-cases : (b : Bool) → (b ≡ true) ⊎ (b ≡ false)
Bool-cases true = inl refl
Bool-cases false = inr refl

module _ {ℓ} {A : Type ℓ} where
  pub Option-cases : (o : Option A) → (o ≡ none) ⊎ ((a : A) × (o ≡ some a))
  Option-cases none = inl refl
  Option-cases (some a) = inr (a, refl)

  -- `a ?? b` on two nullable values
  abbrev pub or_else : Option A → Option A → Option A
  or_else none b = b
  or_else (some a) b = some a

  -- `a ?? b` where `b` is never null
  abbrev pub or_default : Option A → A → A
  or_default none b = b
  or_default (some a) b = a

  abbrev pub is_some : Option A → Bool
  is_some none = false
  is_some (some a) = true

-- `o?.f`, where `f` may be null too
abbrev pub and_then {ℓ κ} : {A : Type ℓ} {B : Type κ} → Option A → (A → Option B) → Option B
and_then none f = none
and_then (some a) f = f a

module _ {ℓ} {A : Type ℓ} ⦃e : Eq A⦄ where
  -- `x === y` where `x` may be null and `y` is not
  abbrev pub holds : Option A → A → Bool
  holds none b = false
  holds (some a) b = a == b

  abbrev pub option_beq : Option A → Option A → Bool
  option_beq none none = true
  option_beq (some a) (some b) = a == b
  option_beq _ _ = false
