-- ===== src/Merkle/Tally/Laws.antt =====
-- The CID that leads a project has at least as many submissions as any other.
use submission_sequencer_bat.Prelude.{
  ℕ, ◌+◌, ◌≤◌, ◌≡◌, inl, inr, arith, if◌then◌else◌, Bool, ◌&&◌, Bool-cases,
}
use submission_sequencer_bat.Prelude.Text.{Text, text_eq, text_eq_iff, text_eq_refl}
use submission_sequencer_bat.Prelude.Dict.{Dict, insert, lookup-insert}
use submission_sequencer_bat.Merkle.Tally.{Tally, frequency, leader, add_one, count_value}

abbrev pub one_if : Bool → ℕ
one_if b = if b then 1 else 0

pub frequency-add_one :
    (m : Dict (Dict ℕ)) (p v q u : Text)
    → frequency (add_one m p v) q u ≡ frequency m q u + one_if (text_eq p q && text_eq v u)
unfolding frequency add_one
frequency-add_one m p v q u = elim (Bool-cases (text_eq p q)) [
  | inl e ↦ elim (Bool-cases (text_eq v u)) [
    | inl f ↦ rw (
      lookup-insert p q _ m,
      e,
      lookup-insert v u _ _,
      f,
      (text_eq_iff p q).0 e,
      (text_eq_iff v u).0 f,
    )
    | inr f ↦
        rw (lookup-insert p q _ m, e, lookup-insert v u _ _, f, (text_eq_iff p q).0 e) (omega arith)
  ]
  | inr e ↦ rw (lookup-insert p q _ m, e) (omega arith)
]

-- The leader of each project is nowhere behind.
abbrev pub Leads : Tally → Type 0
Leads t =
    (p v : Text)
    → frequency t.frequencies p v ≤ frequency t.frequencies p (leader t.most_frequent p)

leader-insert :
    (m : Dict Text) (p v q : Text)
    → leader (insert p v m) q ≡ (if text_eq p q then v else leader m q)
unfolding leader
leader-insert m p v q = rw (lookup-insert p q v m) (ground arith)

pub count_value-Leads :
    (p v id body : Text) (t : Tally) → Leads t → Leads (count_value p v id body t)
unfolding count_value
count_value-Leads p v id body t h q u = ground (
  arith,
  frequency-add_one t.frequencies p v q u,
  frequency-add_one t.frequencies p v q v,
  frequency-add_one t.frequencies p v p v,
  frequency-add_one t.frequencies p v q (leader t.most_frequent q),
  frequency-add_one t.frequencies p v p (leader t.most_frequent p),
  leader-insert t.most_frequent p v q,
  text_eq_iff p q,
  text_eq_iff v u,
  text_eq_refl p,
  text_eq_refl v,
  text_eq_iff v (leader t.most_frequent p),
  text_eq_iff v (leader t.most_frequent q),
  h q u,
  h p v,
  h q v,
  h p u,
)
