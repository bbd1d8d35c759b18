-- ===== src/Network/Overlap.antt =====
-- What it means that two prefixes overlap.
use crowdshield.Prelude.{
  leb, Bool-cases, ℕ, zero, suc, ◌+◌, ◌-◌, ◌*◌, ◌/◌, ◌^◌, ◌≤◌, ◌<◌, ◌≡◌, ◌↔◌, inl, inr, refl, true,
  arith, ap, sym, ◌∙◌,
}
use Prim.Native.Nat.{min}
use mathlib.Core.Logic.{∥∥₁_elim}
use mathlib.Core.Path.{subst}
use mathlib.Core.Bool.{Bool-set}
use native.Mathlib.Nat.{div-div-eq-div-mul, pow-suc}
use crowdshield.Network.Address.{Addr, Prefix, bits, bit_len, value, top, contains, overlaps}

-- A prefix that is not longer than its address.
abbrev pub IsProper : Prefix → Type 0
IsProper p = (0 < p.bits_plus_one) × (0 < bit_len p.ip) × (bits p ≤ bit_len p.ip)

pow_add : (a b : ℕ) → 2 ^ (a + b) ≡ 2 ^ a * 2 ^ b
pow_add zero b = let e : 0 + b ≡ b = omega arith in rw e (omega arith)
pow_add (suc a) b =
    let e : suc a + b ≡ suc (a + b) = omega arith in
    rw (e, pow-suc, pow_add a b, pow-suc) (omega arith)

-- The first m of the first n bits.
top_shorter : (w m n x : ℕ) → m ≤ n → n ≤ w → top w m x ≡ top w n x / 2 ^ (n - m)
unfolding top
top_shorter w m n x h l =
    let e : w - m ≡ (w - n) + (n - m) = omega arith in
    rw (e, pow_add (w - n) (n - m)) (sym (div-div-eq-div-mul x (2 ^ (w - n)) (2 ^ (n - m))))

top_agree : (w m n x y : ℕ) → m ≤ n → n ≤ w → top w n x ≡ top w n y → top w m x ≡ top w m y
top_agree w m n x y h l e =
    top_shorter w m n x h l ∙ ap (λ t. t / 2 ^ (n - m)) e ∙ sym (top_shorter w m n y h l)

-- Containment by the bits.
contains_iff :
    (p : Prefix) (a : Addr)
    → IsProper p
    → (contains p a ≡ true) ↔ (
        (bit_len p.ip ≡ bit_len a)
        × (top (bit_len p.ip) (bits p) (value a) ≡ top (bit_len p.ip) (bits p) (value p.ip)))
unfolding contains
contains_iff p a h = ground arith

overlaps_iff_top :
    (p o : Prefix)
    → IsProper p
    → IsProper o
    → (overlaps p o ≡ true) ↔ (
        (bit_len p.ip ≡ bit_len o.ip)
        × (top (bit_len p.ip) (min (bits p) (bits o)) (value p.ip)
            ≡ top (bit_len p.ip) (min (bits p) (bits o)) (value o.ip)))
unfolding overlaps
overlaps_iff_top p o h k = ground arith

abbrev Tops : Prefix → Prefix → Type 0
Tops p o =
    (bit_len p.ip ≡ bit_len o.ip)
    × (top (bit_len p.ip) (min (bits p) (bits o)) (value p.ip)
        ≡ top (bit_len p.ip) (min (bits p) (bits o)) (value o.ip))

-- The address of the longer prefix lies in both.
common :
    (p o : Prefix)
    → IsProper p
    → IsProper o
    → Tops p o
    → (a : Addr) × (contains p a ≡ true) × (contains o a ≡ true)
common p o h k t = elim (Bool-cases (leb (bits o) (bits p))) [
  | inl y ↦
      let m : min (bits p) (bits o) ≡ bits o = ground arith in
      let e = t.1 in
      (
        p.ip,
        (contains_iff p p.ip h).1 (refl, refl),
        (contains_iff o p.ip k).1 (sym t.0, rw (← t.0, ← m) e),
      )
  | inr n ↦
      let m : min (bits p) (bits o) ≡ bits p = ground arith in
      (
        o.ip,
        (contains_iff p o.ip h).1 (t.0, sym (rw m at t.1)),
        (contains_iff o o.ip k).1 (refl, refl),
      )
]

agree :
    (p o : Prefix) (a : Addr)
    → IsProper p
    → IsProper o
    → (bit_len p.ip ≡ bit_len a)
      × (top (bit_len p.ip) (bits p) (value a) ≡ top (bit_len p.ip) (bits p) (value p.ip))
    → (bit_len o.ip ≡ bit_len a)
      × (top (bit_len o.ip) (bits o) (value a) ≡ top (bit_len o.ip) (bits o) (value o.ip))
    → Tops p o
agree p o a h k cp co =
    let w : bit_len p.ip ≡ bit_len o.ip = cp.0 ∙ sym co.0 in
    let m = min (bits p) (bits o) in
    let tp = top_agree (bit_len p.ip) m (bits p) (value a) (value p.ip) (omega arith) h.2 cp.1 in
    let to = top_agree (bit_len o.ip) m (bits o) (value a) (value o.ip) (omega arith) k.2 co.1 in
    (w, sym tp ∙ subst (λ v. top v m (value a) ≡ top v m (value o.ip)) (sym w) to)

-- Two proper prefixes overlap exactly when some address is contained in both.
pub overlaps_iff :
    (p o : Prefix)
    → IsProper p
    → IsProper o
    → (overlaps p o ≡ true) ↔ ∥ ((a : Addr) × (contains p a ≡ true) × (contains o a ≡ true)) ∥₁
overlaps_iff p o h k = (
  λ e. ∣ common p o h k ((overlaps_iff_top p o h k).0 e) ∣₁,
  λ t. ∥∥₁_elim t (Bool-set _ _) (λ c.
      let cp = (contains_iff p c.0 h).0 c.1 in
      let co = (contains_iff o c.0 k).0 c.2 in
      (overlaps_iff_top p o h k).1 (agree p o c.0 h k cp co)),
)
