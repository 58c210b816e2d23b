-- ===== src/Prost/TxManager/Commit/Division.antt =====
-- How CommitSubmissionBatches divides the batches among the accounts.
use mathlib.Core.List.{append-nil}
use native.Mathlib.Nat.{div-add-mod, mod-lt}
use submission_sequencer_bat.Prelude.{
  ℕ, zero, suc, ◌+◌, ◌-◌, ◌*◌, ◌/◌, ◌%◌, ◌≤◌, ◌<◌, ◌≡◌, refl, sym, ap, ◌∙◌, List, [], ◌∷◌, ◌++◌,
  take, drop, take-append-drop, length, length-take, length-drop, arith, ◌==◌, ==_iff, concat, true,
  false, Bool-cases, inl, inr,
}
use submission_sequencer_bat.Prost.TxManager.Commit.{required_accounts, slice, slices, divide_among}

module _ {ℓ} {A : Type ℓ} where
  drop-nil : (n : ℕ) → ◌≡◌ {A = List A} (drop n []) []
  drop-nil zero = refl
  drop-nil (suc n) = refl

  drop-drop : (m n : ℕ) (xs : List A) → drop n (drop m xs) ≡ drop (m + n) xs
  drop-drop zero n xs = let e : 0 + n ≡ n = omega arith in rw e
  drop-drop (suc m) n [] = drop-nil n ∙ sym (drop-nil (suc m + n))
  drop-drop (suc m) n (x ∷ xs) =
      let e : suc m + n ≡ suc (m + n) = omega arith in rw e (drop-drop m n xs)

  take-all : (n : ℕ) (xs : List A) → length xs ≤ n → take n xs ≡ xs
  take-all zero [] h = refl
  take-all zero (x ∷ xs) h = absurd (omega arith)
  take-all (suc n) [] h = refl
  take-all (suc n) (x ∷ xs) h = ap (λ t. x ∷ t) (take-all n xs (omega arith))

  take-drop : (b e : ℕ) (xs : List A) → b ≤ e → take (e - b) (drop b xs) ++ drop e xs ≡ drop b xs
  take-drop b e xs h =
      let same : b + (e - b) ≡ e = omega arith in
      ap (λ n. take (e - b) (drop b xs) ++ drop n xs) (sym same)
      ∙ ap (λ t. take (e - b) (drop b xs) ++ t) (sym (drop-drop b (e - b) xs))
      ∙ take-append-drop (e - b) (drop b xs)

  -- The shares but the last have the quotient, and the last has the quotient and the remainder.
  abbrev pub AreShares : ℕ → ℕ → List (List A) → Type 0
  AreShares q r [] = ⊥
  AreShares q r (x ∷ []) = length x ≡ q + r
  AreShares q r (x ∷ y ∷ ys) = (length x ≡ q) × AreShares q r (y ∷ ys)

  module _ (n : ℕ) (xs : List A) where
    last_slice : (i : ℕ) → i + 1 ≡ n → slice n i xs ≡ drop (i * (length xs / n)) xs
    unfolding slice
    last_slice i e =
        let last : (i + 1 == n) ≡ true = ground arith in
        rw last (
          take-all (length xs - i * (length xs / n)) (drop (i * (length xs / n)) xs)
            (omega (arith, length-drop (i * (length xs / n)) xs)))

    inner_slice :
        (i : ℕ)
        → i + 1 < n
        → slice n i xs
          ≡ take ((i + 1) * (length xs / n) - i * (length xs / n)) (drop (i * (length xs / n)) xs)
    unfolding slice
    inner_slice i h = let inner : (i + 1 == n) ≡ false = ground arith in rw inner

    slices-concat :
        (i rounds : ℕ)
        → i + suc rounds ≡ n
        → concat (slices n i (suc rounds) xs) ≡ drop (i * (length xs / n)) xs
    unfolding slices
    slices-concat i zero e = append-nil (slice n i xs) ∙ last_slice i (omega arith)
    slices-concat i (suc rounds) e =
        rw (inner_slice i (omega arith), slices-concat (i + 1) rounds (omega arith))
          (take-drop (i * (length xs / n)) ((i + 1) * (length xs / n)) xs (omega arith))

    share_fits : (i : ℕ) → i + 1 ≤ n → (i + 1) * (length xs / n) ≤ length xs
    share_fits i h = grind arith

    slices-AreShares :
        (i rounds : ℕ)
        → i + suc rounds ≡ n
        → AreShares (length xs / n) (length xs % n) (slices n i (suc rounds) xs)
    unfolding slices
    slices-AreShares i zero e = rw (last_slice i (omega arith)) (
        omega (
          arith,
          length-drop (i * (length xs / n)) xs,
          ap (λ (t : ℕ). t * (length xs / n)) (sym e),
          div-add-mod (length xs) n,
        ))
    slices-AreShares i (suc rounds) e = (
      rw (inner_slice i (omega arith)) (
          omega (
            arith,
            length-take ((i + 1) * (length xs / n) - i * (length xs / n))
                (drop (i * (length xs / n)) xs),
            length-drop (i * (length xs / n)) xs,
            share_fits i (omega arith),
          )),
      slices-AreShares (i + 1) rounds (omega arith),
    )

  -- With at least one account every batch goes to exactly one account, in order. Each account but
  -- the last gets the quotient of the batches by the accounts, and the last the remainder besides.
  pub divide_among_shares :
      (n : ℕ) (xs : List A)
      → 0 < n
      → (concat (divide_among n xs) ≡ xs)
        × AreShares (length xs / n) (length xs % n) (divide_among n xs)
  unfolding divide_among
  divide_among_shares zero xs h = absurd (omega arith)
  divide_among_shares (suc n) xs h =
      let first : 0 * (length xs / suc n) ≡ 0 = omega arith in
      (
        slices-concat (suc n) xs 0 n (omega arith) ∙ ap (λ k. drop k xs) first,
        slices-AreShares (suc n) xs 0 n (omega arith),
      )

-- The accounts that are asked for are just enough at the permitted number of batches for each: they
-- hold all batches, and leave less room than one account.
required_accounts_enough :
    (batches per_account : ℕ)
    → 0 < per_account
    → (batches ≤ required_accounts batches per_account * per_account)
      × (required_accounts batches per_account * per_account < batches + per_account)
unfolding required_accounts
required_accounts_enough b p h = elim (Bool-cases (b % p == 0)) [
  | inl e ↦
      let none_left : b % p ≡ 0 = (==_iff (b % p) 0).0 e in
      rw e (omega (arith, none_left, div-add-mod b p), omega (arith, none_left, div-add-mod b p))
  | inr e ↦
      let some_left : 0 < b % p = ground arith in
      rw e (omega (arith, div-add-mod b p, mod-lt b h), omega (arith, some_left, div-add-mod b p))
]
