-- ===== src/Reconcile/Batches.antt =====
-- The batches of a group.
use crowdshield.Prelude.{
  refl, ◌∙◌, zero, ap, [], All, arith, suc, ◌≡◌, ◌≤◌, drop, ◌++◌, length, take, ◌∷◌, ◌<◌, ℕ, List,
}
use crowdshield.Reconcile.Plan.{batches}

pub concat : {A : Type 0} → List (List A) → List A
concat [] = []
concat (b ∷ bs) = b ++ concat bs

take-drop : {A : Type 0} (n : ℕ) (xs : List A) → take n xs ++ drop n xs ≡ xs
take-drop zero xs = refl
take-drop (suc n) [] = refl
take-drop (suc n) (x ∷ xs) = ap (λ ys. x ∷ ys) (take-drop n xs)

length-take : {A : Type 0} (n : ℕ) (xs : List A) → length (take n xs) ≤ n
length-take zero xs = omega arith
length-take (suc n) [] = omega arith
length-take (suc n) (x ∷ xs) = omega (arith, length-take n xs)

length-drop : {A : Type 0} (n : ℕ) (xs : List A) → length (drop n xs) ≤ length xs
length-drop zero xs = omega arith
length-drop (suc n) [] = omega arith
length-drop (suc n) (x ∷ xs) = omega (arith, length-drop n xs)

-- Nonempty, and within the size.
abbrev pub Fits : {A : Type 0} → ℕ → List A → Type 0
Fits size b = (0 < length b) × (length b ≤ size)

batches_fit :
    {A : Type 0} (fuel size : ℕ) (xs : List A)
    → length xs ≤ fuel
    → (concat (batches fuel (suc size) xs) ≡ xs)
      × All (Fits (suc size)) (batches fuel (suc size) xs)
unfolding batches concat
batches_fit zero size [] h = (refl, tt)
batches_fit zero size (x ∷ xs) h = absurd (omega arith)
batches_fit (suc fuel) size [] h = (refl, tt)
batches_fit (suc fuel) size (x ∷ xs) h =
    let ih = batches_fit fuel size (drop size xs) (omega (arith, length-drop size xs)) in
    (
      ap (λ ys. x ∷ ys) (ap (λ ys. take size xs ++ ys) ih.0 ∙ take-drop size xs),
      ((omega arith, omega (arith, length-take size xs)), ih.1),
    )

-- With as many rounds as there are actions, and a batch size of at least 1, the batches put together
-- are the actions in their order, and each has at least one action and at most the batch size.
pub concat-batches :
    {A : Type 0} (size : ℕ) (xs : List A)
    → 0 < size
    → (concat (batches (length xs) size xs) ≡ xs) × All (Fits size) (batches (length xs) size xs)
concat-batches zero xs h = absurd (omega arith)
concat-batches (suc size) xs h = batches_fit (length xs) size xs (omega arith)
