-- ===== src/Http/Checks.antt =====
-- What follows when checks are passed, and when one of them answers.
use mathlib.Core.Path.{subst}
use corncrake.Prelude.{◌≡◌, refl, ◌⊎◌, inl, inr, Bool, true, false}
use corncrake.Http.{Response, respond, Checked, deny, pass, ◌>>=◌, unless}

pub >>=-eq-pass {ℓ κ} :
    {A : Type ℓ} {B : Type κ} (m : Checked A) (f : A → Checked B) {b : B}
    → (m >>= f) ≡ pass b
    → (a : A) × (m ≡ pass a) × (f a ≡ pass b)
>>=-eq-pass (deny r) f h = cc
>>=-eq-pass (pass a) f h = (a, refl, h)

pub pass-injective : {A : Type 0} {a b : A} → pass a ≡ pass b → a ≡ b
pass-injective e = cc

pub unless-eq-pass : (b : Bool) (r : Response) {u : Unit {0}} → unless b r ≡ pass u → b ≡ true
unless-eq-pass true r h = refl
unless-eq-pass false r h = cc

pub deny-injective : {A : Type 0} {a b : Response} → ◌≡◌ {A = Checked A} (deny a) (deny b) → a ≡ b
deny-injective e = cc

-- What a check answers with, if it answers, is `P`.
pub record Answers (P : Response → Type 0) {A : Type 0} (m : Checked A) : Type 0 where
  pub answer : (r : Response) → m ≡ deny r → P r

module _ {P : Response → Type 0} where
  pub Answers-pass : {A : Type 0} (a : A) → Answers P (pass a)
  Answers-pass a = record { answer = λ r e. cc }

  pub Answers-deny : {A : Type 0} (r : Response) → P r → Answers P {A = A} (deny r)
  Answers-deny {A} r h = record { answer = λ q e. subst P (deny-injective {A = A} e) h }

  pub Answers-unless : (b : Bool) (r : Response) → P r → Answers P (unless b r)
  Answers-unless true r h = Answers-pass tt
  Answers-unless false r h = Answers-deny r h

  pub Answers-bind :
      {A B : Type 0} (m : Checked A) (f : A → Checked B)
      → Answers P m
      → ((a : A) → Answers P (f a))
      → Answers P (m >>= f)
  Answers-bind (deny r) f h k = Answers-deny r (h.answer r refl)
  Answers-bind (pass a) f h k = k a

pub Checked-cases :
    {A : Type 0} (m : Checked A) → ((r : Response) × (m ≡ deny r)) ⊎ ((a : A) × (m ≡ pass a))
Checked-cases (deny r) = inl (r, refl)
Checked-cases (pass a) = inr (a, refl)

pub respond-injective : {a b : Response} → respond a ≡ respond b → a ≡ b
respond-injective e = cc

pub deny-ne-pass : {A : Type 0} {r : Response} {a : A} → ◌≡◌ {A = Checked A} (deny r) (pass a) → ⊥
deny-ne-pass e = cc
