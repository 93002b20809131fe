-- ===== src/Prelude.antt =====
-- The names that every module shares: those of the libraries, passed on, and the tests on numbers,
-- texts and decided equality that Python's operators become.
use Prim.Native.Nat.{compare, Ordering}
pub use Prim.Native.Nat.{ℕ, zero, suc, ◌+◌, ◌-◌, ◌*◌, ◌/◌, ◌≤◌, ◌<◌}
pub use Prim.Native.String.{String, ◌++◌}
pub use mathlib.Core.Path.{◌≡◌, refl, sym, ap, ◌∙◌}
pub use mathlib.Core.Logic.{◌≢◌, ◌⊎◌, inl, inr, ◌↔◌}
pub use mathlib.Core.Bool.{Bool, true, false, not, ◌&&◌, ◌||◌}
pub use mathlib.Core.Option.{Option, none, some}
pub use mathlib.Core.List.{List, [], ◌∷◌}
pub use native.Mathlib.Omega.{arith}
unfoldable pub use native.Mathlib.Decide.{ℕ_discrete}
use text.Mathlib.Text.{◌==◌ as text_eq}
use text.Mathlib.TextEquality.{eq_iff}

abbrev pub ltb : ℕ → ℕ → Bool
ltb a b = elim (compare a b) [ Ordering.lt ↦ true | _ ↦ false ]

abbrev pub leb : ℕ → ℕ → Bool
leb a b = elim (compare a b) [ Ordering.gt ↦ false | _ ↦ true ]

infix 1 if◌then◌else◌
abbrev pub if◌then◌else◌ {ℓ} : {A : Type ℓ} → Bool → A → A → A
if true then x else y = x
if false then x else y = y

abbrev pub length {ℓ} : {A : Type ℓ} → List A → ℕ
length [] = 0
length (x ∷ xs) = suc (length xs)

pub Bool-cases : (b : Bool) → (b ≡ true) ⊎ (b ≡ false)
Bool-cases true = inl refl
Bool-cases false = inr refl

pub not-true : {b : Bool} → not b ≡ true → b ≡ false
not-true {b} h = ground arith

dec_of_test : (b : Bool) (P : Type 0) → (b ≡ true → P) → (P → b ≡ true) → Dec P
dec_of_test true P sound complete = yes (sound refl)
dec_of_test false P sound complete = no (λ p. cc (complete p))

-- Equality of texts, decided by the native comparison.
unfoldable pub String-discrete : Discrete String
unfolding dec_of_test
String-discrete s t = dec_of_test (text_eq s t) (s ≡ t) (eq_iff s t).0 (eq_iff s t).1

-- `==` of Python at a type whose equality is decided.
module _ {ℓ} {A : Type ℓ} (d : Discrete A) where
  of_dec : {a b : A} → Dec (a ≡ b) → Bool
  of_dec (yes _) = true
  of_dec (no _) = false

  unfoldable pub same : A → A → Bool
  unfolding of_dec
  same a b = of_dec (d a b)

  pub same_self : (a : A) → same a a ≡ true
  unfolding same
  same_self a = go (d a a)
    where
      go : (e : Dec (a ≡ a)) → of_dec e ≡ true
      go (yes _) = refl
      go (no n) = absurd (n refl)

  pub eq_of_same : (a b : A) → same a b ≡ true → a ≡ b
  unfolding same
  eq_of_same a b = go (d a b)
    where
      go : (e : Dec (a ≡ b)) → of_dec e ≡ true → a ≡ b
      go (yes p) h = p
      go (no n) h = cc

  pub same_of_ne : (a b : A) → a ≢ b → same a b ≡ false
  unfolding same
  same_of_ne a b ne = go (d a b)
    where
      go : (e : Dec (a ≡ b)) → of_dec e ≡ false
      go (yes p) = absurd (ne p)
      go (no n) = refl

infix 50 ◌=ₜ◌
-- Equality of two texts, as a test.
unfoldable pub ◌=ₜ◌ : String → String → Bool
unfolding same String-discrete
s =ₜ t = same String-discrete s t

pub text_self : (s : String) → (s =ₜ s) ≡ true
unfolding ◌=ₜ◌
text_self s = same_self String-discrete s

pub eq_of_text : (s t : String) → (s =ₜ t) ≡ true → s ≡ t
unfolding ◌=ₜ◌
eq_of_text s t h = eq_of_same String-discrete s t h

pub text_of_ne : (s t : String) → s ≢ t → (s =ₜ t) ≡ false
unfolding ◌=ₜ◌
text_of_ne s t ne = same_of_ne String-discrete s t ne

-- `x IN (…)` and `x in {…}` on texts.
unfoldable pub one_of : String → List String → Bool
one_of s [] = false
one_of s (t ∷ ts) = (s =ₜ t) || one_of s ts

-- A nullable column against a text: SQL's `=`, which NULL never satisfies.
unfoldable pub is_text : Option String → String → Bool
is_text none t = false
is_text (some s) t = s =ₜ t

-- SQL's `column <> text`, which NULL does not satisfy either.
unfoldable pub is_other_text : Option String → String → Bool
is_other_text none t = false
is_other_text (some s) t = not (s =ₜ t)

abbrev pub is_some {ℓ} : {A : Type ℓ} → Option A → Bool
is_some none = false
is_some (some _) = true

module _ {ℓ} {A : Type ℓ} where
  unfoldable pub any : (A → Bool) → List A → Bool
  any p [] = false
  any p (x ∷ xs) = p x || any p xs

  unfoldable pub find : (A → Bool) → List A → Option A
  find p [] = none
  find p (x ∷ xs) = if p x then some x else find p xs

-- A table with a TEXT primary key: the row of each key.
abbrev pub Table {ℓ} : Type ℓ → Type ℓ
Table A = String → Option A

unfoldable pub put {ℓ} : {A : Type ℓ} → String → A → Table A → Table A
put k v t j = if k =ₜ j then some v else t j
