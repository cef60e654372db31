-- ===== src/Base/Family.antt =====
-- Families indexed by a number, such as the places of several threads: the change of one member, and
-- sums over the first members.
use Prim.Native.Nat.{ℕ, zero, suc, ◌+◌, ◌≤◌, ◌<◌}
use mathlib.Core.Path.{◌≡◌, refl, subst, sym, ◌∙◌}
use mathlib.Core.Logic.{inl, inr}
use mathlib.Core.Option.{Option, some}
use mathlib.Core.Bool.{false}
use native.Mathlib.Omega.{arith}
use verse_entrance_server.Base.Tests.{
  if◌then◌else◌, ◌==◌, ==_iff, Bool-cases, leb, leb→le, leb-false,
}

module _ {ℓ} {A : Type ℓ} where
  abbrev pub set : (ℕ → A) → ℕ → A → ℕ → A
  set f i a j = if i == j then a else f j

  -- What holds of the changed member and of all others holds of every member.
  pub set_ind {ℓ'} :
      (P : ℕ → A → Type ℓ') (f : ℕ → A) (i : ℕ) (a : A)
      → P i a
      → ((j : ℕ) → (i == j) ≡ false → P j (f j))
      → (j : ℕ) → P j (set f i a j)
  set_ind P f i a here there j = elim (Bool-cases (i == j)) [
    | inl e ↦ rw e (subst (λ (k : ℕ). P k a) ((==_iff i j).0 e) here)
    | inr e ↦ rw e (there j e)
  ]

module _ {ℓ ℓ'} {A : Type ℓ} {K : Type ℓ'} (key : A → Option K) where
  -- Members with different keys still have different ones when a member changes to a key that no other
  -- has.
  pub set_apart :
      (f : ℕ → A) (i : ℕ) (a : A)
      → ((x y : ℕ) (k : K) → key (f x) ≡ some k → key (f y) ≡ some k → x ≡ y)
      → ((j : ℕ) (k : K) → (i == j) ≡ false → key a ≡ some k → key (f j) ≡ some k → ⊥)
      → (x y : ℕ) (k : K) → key (set f i a x) ≡ some k
      → key (set f i a y) ≡ some k
      → x ≡ y
  set_apart f i a apart alone x y k e h = elim (Bool-cases (i == x)) [
    | inl here ↦ elim (Bool-cases (i == y)) [
      | inl there ↦ sym ((==_iff i x).0 here) ∙ (==_iff i y).0 there
      | inr far ↦ absurd (alone y k far (rw here at e) (rw far at h))
    ]
    | inr far ↦ elim (Bool-cases (i == y)) [
      | inl there ↦ absurd (alone x k far (rw there at h) (rw far at e))
      | inr away ↦ apart x y k (rw far at e) (rw away at h)
    ]
  ]

module _ {ℓ} {A : Type ℓ} (w : A → ℕ) where
  unfoldable pub total : ℕ → (ℕ → A) → ℕ
  total zero pc = 0
  total (suc n) pc = total n pc + w (pc n)

  total-set_beyond :
      (n : ℕ) (pc : ℕ → A) (i : ℕ) (p : A) → n ≤ i → total n (set pc i p) ≡ total n pc
  unfolding total
  total-set_beyond zero pc i p h = refl
  total-set_beyond (suc n) pc i p h = ground (arith, total-set_beyond n pc i p)

  pub total-set :
      (n : ℕ) (pc : ℕ → A) (i : ℕ) (p : A)
      → i < n
      → total n (set pc i p) + w (pc i) ≡ total n pc + w p
  unfolding total
  total-set zero pc i p h = absurd (omega arith)
  total-set (suc n) pc i p h = elim (Bool-cases (i == n)) [
    | inl last ↦
        let same : i ≡ n = (==_iff i n).0 last in
        rw last (rw same (omega (arith, total-set_beyond n pc n p (omega arith))))
    | inr below ↦ rw below (omega (arith, total-set n pc i p (ground arith)))
  ]

  pub le-total : (n : ℕ) (pc : ℕ → A) (i : ℕ) → i < n → w (pc i) ≤ total n pc
  unfolding total
  le-total zero pc i h = absurd (omega arith)
  le-total (suc n) pc i h = elim (Bool-cases (i == n)) [
    | inl last ↦ rw ((==_iff i n).0 last) (omega arith)
    | inr below ↦ omega (arith, le-total n pc i (ground arith))
  ]

  pub total-zero : (n : ℕ) (pc : ℕ → A) → ((i : ℕ) → w (pc i) ≡ 0) → total n pc ≡ 0
  unfolding total
  total-zero zero pc h = refl
  total-zero (suc n) pc h = omega (arith, total-zero n pc h, h n)

  -- A sum that is not 0 has a summand that is not 0.
  pub total_positive : (n : ℕ) (f : ℕ → A) → 1 ≤ total n f → (i : ℕ) × (i < n) × (1 ≤ w (f i))
  unfolding total
  total_positive zero f h = absurd (omega arith)
  total_positive (suc n) f h = elim (Bool-cases (leb 1 (w (f n)))) [
    | inl here ↦ (n, omega arith, leb→le _ _ here)
    | inr zero_here ↦
        let low = leb-false _ _ zero_here in
        let (i, below, e) = total_positive n f (omega (arith, low)) in (i, omega (arith, below), e)
  ]
