-- ===== src/State/Branches.antt =====
-- What the tables after a call satisfy, branch by branch.
use crowdshield.Prelude.{refl, if◌then◌else◌, none, false, some, true, ◌≡◌, Bool, Option}

module _ {T : Type 0} (P : T → Type 0) where
  pub either :
      {A : Type 0} (b : Bool) (x y : A × T)
      → (b ≡ true → P x.1)
      → (b ≡ false → P y.1)
      → P (if b then x else y).1
  either true x y f g = f refl
  either false x y f g = g refl

  pub optional :
      {A B : Type 0} (x : Option B) (y : A × T) (f : B → A × T)
      → P y.1
      → ((b : B) → x ≡ some b → P (f b).1)
      → P (elim x as (λ _. A × T) [ none ↦ y | some b ↦ f b ]).1
  optional none y f g h = g
  optional (some b) y f g h = h b refl

-- The same for any answer.
pub by_test :
    {B : Type 0} (Q : B → Type 0) (b : Bool) (x y : B)
    → (b ≡ true → Q x)
    → (b ≡ false → Q y)
    → Q (if b then x else y)
by_test Q true x y f g = f refl
by_test Q false x y f g = g refl

pub by_option :
    {B C : Type 0} (Q : C → Type 0) (x : Option B) (y : C) (f : B → C)
    → Q y
    → ((b : B) → x ≡ some b → Q (f b))
    → Q (elim x as (λ _. C) [ none ↦ y | some b ↦ f b ])
by_option Q none y f g h = g
by_option Q (some b) y f g h = h b refl
