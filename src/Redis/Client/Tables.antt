-- ===== src/Redis/Client/Tables.antt =====
-- The lists that LockUpdateHashTable keeps in a hash.
use submission_sequencer_bat.Prelude.{
  ℕ, ◌≡◌, ◌≢◌, refl, ◌∙◌, inl, inr, List, [], ◌∷◌, ◌++◌, some, arith, ◌==◌, ==_iff, Bool-cases, All,
  All-append,
}
use submission_sequencer_bat.Prelude.Text.{Text, split, join, split-join, NoByte, cons_head}
use submission_sequencer_bat.Prelude.Effect.{ok}
use submission_sequencer_bat.Services.{Services}
use submission_sequencer_bat.Redis.Client.{text_or_empty, parts_of, lock_update_hash_table}

cons_head-NoByte :
    (c x : ℕ) (ps : List Text) → x ≢ c → All (NoByte c) ps → All (NoByte c) (cons_head x ps)
cons_head-NoByte c x [] n h = ((n, tt), tt)
cons_head-NoByte c x (p ∷ ps) n (h, hs) = ((n, h), hs)

split-NoByte : (c : ℕ) (s : Text) → All (NoByte c) (split c s)
unfolding split
split-NoByte c [] = (tt, tt)
split-NoByte c (x ∷ xs) = elim (Bool-cases (x == c)) [
  | inl e ↦ rw e (tt, split-NoByte c xs)
  | inr e ↦
      rw e (cons_head-NoByte c x (split c xs) (λ k. ground (arith, ==_iff x c)) (split-NoByte c xs))
]

parts_of-NoByte : (t : Text) → All (NoByte b',') (parts_of t)
parts_of-NoByte [] = tt
parts_of-NoByte (c ∷ t) = split-NoByte b',' (c ∷ t)

parts_of-split : (t : Text) → t ≢ [] → parts_of t ≡ split b',' t
parts_of-split [] h = absurd (h refl)
parts_of-split (c ∷ t) h = refl

append-ne-nil : (p t : Text) (c : ℕ) → p ++ (c ∷ t) ≢ []
append-ne-nil [] t c e = cc
append-ne-nil (x ∷ p) t c e = cc

join-ne-nil : (ps : List Text) (v : Text) → v ≢ [] → join b',' (ps ++ (v ∷ [])) ≢ []
unfolding join
join-ne-nil [] v h e = h e
join-ne-nil (p ∷ []) v h e = append-ne-nil p v b',' e
join-ne-nil (p ∷ q ∷ ps) v h e = append-ne-nil p _ b',' e

split-join_last :
    (ps : List Text) (v : Text)
    → All (NoByte b',') ps
    → NoByte b',' v
    → split b',' (join b',' (ps ++ (v ∷ []))) ≡ ps ++ (v ∷ [])
split-join_last [] v h k = split-join b',' v [] k tt
split-join_last (p ∷ ps) v (h, hs) k =
    split-join b',' p (ps ++ (v ∷ [])) h (All-append (NoByte b',') ps (v ∷ []) hs (k, tt))

-- Where setting a field of a hash stores its value, LockUpdateHashTable adds its value behind those
-- that the field lists already, if it is not empty and has no comma.
pub lock_update-parts :
    (s : Services)
    → ((table key value : Text) (w : s.World)
        → s.redis_hget table key (s.redis_hset table key value w).1 ≡ ok (some value))
    → (table key value : Text) (w : s.World) → value ≢ []
    → NoByte b',' value
    → parts_of
        (text_or_empty (s.redis_hget table key (lock_update_hash_table s table key value w).1))
      ≡ parts_of (text_or_empty (s.redis_hget table key w)) ++ (value ∷ [])
unfolding lock_update_hash_table
lock_update-parts s stores table key value w h k =
    let old = parts_of (text_or_empty (s.redis_hget table key w)) in
    rw (stores table key (join b',' (old ++ (value ∷ []))) w) (
      parts_of-split (join b',' (old ++ (value ∷ []))) (join-ne-nil old value h)
      ∙ split-join_last old value (parts_of-NoByte (text_or_empty (s.redis_hget table key w))) k)
