-- ===== src/Merkle/Arrange/Packing.antt =====
-- What the second loop of arrangeKeysInBatches makes of the groups, in whatever order they come.
use mathlib.Core.List.{append_assoc, append-nil}
use submission_sequencer_bat.Prelude.{
  ℕ, ◌+◌, ◌≤◌, ◌<◌, ◌≡◌, sym, ap, ◌∙◌, inl, inr, List, [], ◌∷◌, ◌++◌, arith, leb, length,
  length-append, Bool-cases, All, All-append, concat,
}
use submission_sequencer_bat.Prelude.Text.{Text}
use submission_sequencer_bat.Prelude.Dict.{Dict}
use submission_sequencer_bat.Merkle.Arrange.{flush, place, close, pack}
use submission_sequencer_bat.Merkle.Arrange.Grouping.{flatten}

abbrev State : Type 0
State = List (List Text) × List Text

-- Every key placed so far, batch by batch.
abbrev placed : State → List Text
placed st = concat st.0 ++ st.1

concat-append : (bs : List (List Text)) (b : List Text) → concat (bs ++ (b ∷ [])) ≡ concat bs ++ b
concat-append [] b = append-nil b
concat-append (x ∷ bs) b = rw (concat-append bs b, append_assoc x (concat bs) b)

concat-flush : (bs : List (List Text)) (b : List Text) → concat (flush bs b) ≡ concat bs ++ b
concat-flush bs [] = sym (append-nil (concat bs))
concat-flush bs (k ∷ ks) = concat-append bs (k ∷ ks)

place-placed :
    (size : ℕ) (st : State) (ks : List Text) → placed (place size st ks) ≡ placed st ++ ks
unfolding place
place-placed size (bs, cur) ks = elim (Bool-cases (leb (length cur + length ks) size)) [
  | inl e ↦ rw e (sym (append_assoc (concat bs) cur ks))
  | inr e ↦ rw e (ap (λ t. t ++ ks) (concat-flush bs cur))
]

close-placed : (size : ℕ) (st : State) → placed (close size st) ≡ placed st
unfolding close
close-placed size (bs, cur) = elim (Bool-cases (leb size (length cur))) [
  | inl e ↦ rw e (append-nil _ ∙ concat-append bs cur)
  | inr e ↦ rw e
]

-- No key is lost or made up, and the keys keep their order.
pub pack-concat :
    (size : ℕ) (groups : Dict (List Text)) (st : State)
    → concat (pack size groups st) ≡ placed st ++ flatten groups
unfolding pack
pack-concat size [] st = concat-flush st.0 st.1 ∙ sym (append-nil (placed st))
pack-concat size ((p, ks) ∷ groups) st =
    pack-concat size groups (close size (place size st ks))
    ∙ ap (λ t. t ++ flatten groups) (close-placed size (place size st ks) ∙ place-placed size st ks)
    ∙ append_assoc (placed st) ks (flatten groups)

All-flush :
    (Q : List Text → Type 0) (bs : List (List Text)) (b : List Text)
    → All Q bs
    → (0 < length b → Q b)
    → All Q (flush bs b)
All-flush Q bs [] h k = h
All-flush Q bs (x ∷ b) h k = All-append Q bs ((x ∷ b) ∷ []) h (k (omega arith), tt)

-- A property of batches that a group alone has, and that the current batch keeps when a group is
-- added to it within the size, holds of every batch. `R` is what is known of the current batch.
module _ (size : ℕ) (Q R : List Text → Type 0) (G : Text × List Text → Type 0) (start : R [])
    (ready : (b : List Text) → R b → 0 < length b → Q b)
    (alone : (g : Text × List Text) → G g → (Q g.1) × (0 < length g.1))
    (opens : (g : Text × List Text) → G g → length g.1 < size → R g.1)
    (joins : (g : Text × List Text) (b : List Text)
      → G g
      → R b
      → length b + length g.1 ≤ size
      → R (b ++ g.1)) where
  -- What is known of a current batch that may have reached the size.
  abbrev Full : List Text → Type 0
  Full b = (0 < length b) × (Q b) × (length b < size → R b)

  place-All :
      (st : State) (g : Text × List Text)
      → All Q st.0
      → R st.1
      → G g
      → All Q (place size st g.1).0 × Full (place size st g.1).1
  unfolding place
  place-All (bs, cur) g h r k = elim (Bool-cases (leb (length cur + length g.1) size)) [
    | inl e ↦
        let fits = joins g cur k r (ground arith) in
        let long : 0 < length (cur ++ g.1) = omega (arith, length-append cur g.1, (alone g k).1) in
        rw e (h, (long, ready (cur ++ g.1) fits long, λ _. fits))
    | inr e ↦ rw e (All-flush Q bs cur h (ready cur r), ((alone g k).1, (alone g k).0, opens g k))
  ]

  close-All : (st : State) → All Q st.0 → Full st.1 → All Q (close size st).0 × R (close size st).1
  unfolding close
  close-All (bs, cur) h f = elim (Bool-cases (leb size (length cur))) [
    | inl e ↦ rw e (All-append Q bs (cur ∷ []) h (f.1, tt), start)
    | inr e ↦ rw e (h, f.2 (ground arith))
  ]

  pub pack-All :
      (groups : Dict (List Text)) (st : State)
      → All G groups
      → All Q st.0
      → R st.1
      → All Q (pack size groups st)
  unfolding pack
  pack-All [] st k h r = All-flush Q st.0 st.1 h (ready st.1 r)
  pack-All (g ∷ groups) st k h r =
      let p = place-All st g h r k.0 in
      let c = close-All (place size st g.1) p.0 p.1 in
      pack-All groups (close size (place size st g.1)) k.1 c.0 c.1
