-- ===== src/Service/Counts/Sums.antt =====
-- The total of the included submissions against the sum of the counts.
use mathlib.Core.List.{foldr}
use mathlib.Core.List.Perm
use submission_sequencer_bat.Prelude.{
  ℕ, zero, suc, Bool, true, false, leb, if◌then◌else◌, Bool-cases, inl, inr, ◌≡◌, refl, sym, ap,
  ◌∙◌, List, [], ◌∷◌, Perm, Option, none, some, arith,
}
use submission_sequencer_bat.Prelude.Text.{Text, text, text_eq_refl}
use submission_sequencer_bat.Prelude.Int.{ℤ, pos, negsuc, ◌+ℤ◌, +ℤ_comm, +ℤ_assoc, not_negative}
use submission_sequencer_bat.Prelude.Machine.{int64}
use submission_sequencer_bat.Prelude.Sort.{sort_texts, sort_texts-Perm}
use submission_sequencer_bat.Prelude.Effect.{Result, ok, err}
use submission_sequencer_bat.Json.{Log, get_field}
use submission_sequencer_bat.Constants.{build_batch_name}
use submission_sequencer_bat.Services.{Services}
use submission_sequencer_bat.Redis.Client.{get}
use submission_sequencer_bat.Service.Reply.{success, authorized}
use submission_sequencer_bat.Service.Logs.{process_pattern, keys_of, read_log}
use submission_sequencer_bat.Service.Counts.{
  included, is_recent, counted_if, epoch_field, count_field, add_count, included_total,
  handle_included_epoch_submissions_count,
}

int64-add : (a b : ℤ) → int64 (int64 a +ℤ b) ≡ int64 (a +ℤ b)
unfolding int64 ◌+ℤ◌
int64-add a b = ground arith

int64_idem : (a : ℤ) → int64 (int64 a) ≡ int64 a
unfolding int64
int64_idem a = ground arith

zero_add : (a : ℤ) → pos 0 +ℤ a ≡ a
unfolding ◌+ℤ◌
zero_add a = ground arith

abbrev pub or_zero : Option ℤ → ℤ
or_zero none = pos 0
or_zero (some n) = n

-- `past` is 0, or the epoch is `past` or a later one.
abbrev pub is_in : ℕ → ℤ → Bool
is_in zero epoch = true
is_in (suc past) (pos epoch) = leb (suc past) epoch
is_in (suc past) (negsuc epoch) = false

abbrev pub count_in : ℕ → Option ℤ → Option ℤ → ℤ
count_in past none count = pos 0
count_in past (some epoch) count = if is_in past epoch then or_zero count else pos 0

-- How many submissions the log of a built batch has, if its epoch counts.
abbrev pub log_count : ℕ → Result Log → ℤ
log_count past (err e) = pos 0
log_count past (ok entry) =
    count_in past (epoch_field (get_field (text "epoch_id") entry))
      (count_field (get_field (text "submissions_count") entry))

is_recent-pos : (past : ℕ) (epoch : ℤ) → is_recent (pos past) epoch ≡ is_in past epoch
is_recent-pos zero epoch = ground arith
is_recent-pos (suc past) (pos epoch) = ground arith
is_recent-pos (suc past) (negsuc epoch) = ground arith

counted_if-count_in :
    (past : ℕ) (epoch count : Option ℤ)
    → or_zero (counted_if (pos past) epoch count) ≡ count_in past epoch count
counted_if-count_in past none count = refl
counted_if-count_in past (some epoch) count = elim (Bool-cases (is_in past epoch)) [
  | inl e ↦ rw (is_recent-pos past epoch, e) refl
  | inr e ↦ rw (is_recent-pos past epoch, e) refl
]

included-log_count :
    (past : ℕ) (r : Result Log) → or_zero (included (pos past) r) ≡ log_count past r
unfolding included
included-log_count past (err e) = refl
included-log_count past (ok entry) = counted_if-count_in past _ _

-- What the numbers of some texts add up to.
abbrev pub sum_of : (Text → ℤ) → List Text → ℤ
sum_of f ks = foldr (λ k t. f k +ℤ t) (pos 0) ks

ℤ-set : IsSet ℤ
ℤ-set = hlevel

add_swap : (a b c : ℤ) → a +ℤ (b +ℤ c) ≡ b +ℤ (a +ℤ c)
add_swap a b c = sym (+ℤ_assoc a b c) ∙ ap (λ t. t +ℤ c) (+ℤ_comm a b) ∙ +ℤ_assoc b a c

sum_of-Perm : (f : Text → ℤ) {xs ys : List Text} → Perm xs ys → sum_of f xs ≡ sum_of f ys
sum_of-Perm f p = Perm.foldr-eq ℤ-set (λ k t. f k +ℤ t) (λ a b c. add_swap (f a) (f b) c) p (pos 0)

add_count-add :
    (o : Option ℤ) (total rest : ℤ)
    → int64 (add_count o total +ℤ rest) ≡ int64 (total +ℤ (or_zero o +ℤ rest))
unfolding add_count
add_count-add none total rest = rw (zero_add rest)
add_count-add (some n) total rest = int64-add (total +ℤ n) rest ∙ ap int64 (+ℤ_assoc total n rest)

add_count_idem :
    (o : Option ℤ) (total : ℤ) → int64 total ≡ total → int64 (add_count o total) ≡ add_count o total
unfolding add_count
add_count_idem none total h = h
add_count_idem (some n) total h = int64_idem (total +ℤ n)

module _ (s : Services) (past : ℕ) (w : s.World) where
  -- How many submissions the log under a key counts for.
  abbrev pub count_at : Text → ℤ
  count_at key = log_count past (read_log s (get s key w))

  total-sum :
      (keys : List Text) (total : ℤ)
      → int64 total ≡ total
      → included_total s (pos past) keys total w ≡ int64 (total +ℤ sum_of count_at keys)
  unfolding included_total
  total-sum [] total h = sym h ∙ ap int64 (sym (+ℤ_comm total (pos 0) ∙ zero_add total))
  total-sum (key ∷ keys) total h =
      let o = included (pos past) (read_log s (get s key w)) in
      total-sum keys (add_count o total) (add_count_idem o total h)
      ∙ add_count-add o total (sum_of count_at keys)
      ∙ ap (λ n. int64 (total +ℤ (n +ℤ sum_of count_at keys)))
          (included-log_count past (read_log s (get s key w)))

-- A request with the right token and a number `past` of at least 0 gets the sum of the counts in
-- the logs of the built batches whose epoch is at least `past` (of all for 0), as an int64, in
-- whatever order Redis lists the keys. Nothing is changed.
pub included_count_sum :
    (s : Services) (auth_read_token : Text) (past : ℕ) (w : s.World)
    → handle_included_epoch_submissions_count s auth_read_token
        (ok (record { token = auth_read_token; past_epochs = pos past }))
        w
      ≡ (
        success
            (int64 (sum_of (count_at s past w) (keys_of s (process_pattern build_batch_name) w))),
        w,
      )
unfolding handle_included_epoch_submissions_count authorized
included_count_sum s token past w =
    let keys = keys_of s (process_pattern build_batch_name) w in
    rw (
      text_eq_refl token,
      not_negative past,
      total-sum s past w (sort_texts keys) (pos 0) (unfold int64 in refl),
      zero_add (sum_of (count_at s past w) (sort_texts keys)),
      sum_of-Perm (count_at s past w) (sort_texts-Perm keys),
    )
