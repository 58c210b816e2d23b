-- ===== src/Utils/Extract/Laws.antt =====
-- What ExtractField finds, and when it panics.
use mathlib.Core.List.{append_assoc}
use submission_sequencer_bat.Prelude.{
  ℕ, zero, suc, ◌+◌, ◌<◌, ◌≤◌, ◌≡◌, ◌↔◌, refl, ap, subst, inl, inr, true, false, List, [], ◌∷◌,
  ◌++◌, none, some, arith, length, length-append, drop, take, Bool-cases, Option-cases, ltb,
}
use submission_sequencer_bat.Prelude.Text.{Text, starts_with, NoByte}
use submission_sequencer_bat.Utils.Extract.{index, slice_from, quoted, extract_field}

starts_with-append : (sub post : Text) → starts_with sub (sub ++ post) ≡ true
unfolding starts_with
starts_with-append [] post = refl
starts_with-append (c ∷ sub) post = ground (arith, starts_with-append sub post)

starts_with_split : (sub s : Text) → starts_with sub s ≡ true → (post : Text) × (s ≡ sub ++ post)
unfolding starts_with
starts_with_split [] s h = (s, refl)
starts_with_split (c ∷ sub) [] h = cc
starts_with_split (c ∷ sub) (d ∷ s) h =
    let (post, e) = starts_with_split sub s (ground arith) in (post, ground arith)

-- No occurrence starts before `n`.
abbrev pub NotBefore : Text → Text → ℕ → Type 0
NotBefore sub s n = (j : ℕ) → j < n → starts_with sub (drop j s) ≡ false

index_here : (s sub : Text) → starts_with sub s ≡ true → index s sub ≡ some 0
unfolding index
index_here [] sub h = rw h
index_here (x ∷ s) sub h = rw h

index_first :
    (pre post sub : Text)
    → NotBefore sub (pre ++ (sub ++ post)) (length pre)
    → index (pre ++ (sub ++ post)) sub ≡ some (length pre)
unfolding index
index_first [] post sub h = index_here (sub ++ post) sub (starts_with-append sub post)
index_first (x ∷ pre) post sub h =
    rw (h 0 (omega arith), index_first pre post sub (λ j k. h (suc j) (omega arith)))

NotBefore-cons :
    (sub s : Text) (x n i : ℕ)
    → starts_with sub (x ∷ s) ≡ false
    → NotBefore sub s n
    → i ≡ suc n
    → NotBefore sub (x ∷ s) i
NotBefore-cons sub s x n i h k e zero lt = h
NotBefore-cons sub s x n i h k e (suc j) lt = k j (omega arith)

-- The first occurrence in a text.
abbrev First : Text → Text → ℕ → Type 0
First sub s i =
    (pre : Text) × (post : Text) × (s ≡ pre ++ (sub ++ post)) × (length pre ≡ i) × NotBefore sub s i

index-First : (s sub : Text) (i : ℕ) → index s sub ≡ some i → First sub s i
unfolding index
index-First [] sub i e = elim (Bool-cases (starts_with sub [])) [
  | inl h ↦
      let (post, k) = starts_with_split sub [] h in
      ([], post, k, ground arith, λ j lt. absurd (ground arith))
  | inr h ↦ absurd (ground arith)
]
index-First (x ∷ s) sub i e = elim (Bool-cases (starts_with sub (x ∷ s))) [
  | inl h ↦
      let (post, k) = starts_with_split sub (x ∷ s) h in
      ([], post, k, ground arith, λ j lt. absurd (ground arith))
  | inr h ↦ elim (Option-cases (index s sub)) [
    | inl n ↦ absurd (ground arith)
    | inr (k, found) ↦
        let (pre, post, split, len, before) = index-First s sub k found in
        let next : i ≡ suc k = ground arith in
        (
          x ∷ pre,
          post,
          ap (λ t. x ∷ t) split,
          omega arith,
          NotBefore-cons sub s x k i h before next,
        )
  ]
]

drop-append : {A : Type 0} (xs ys : List A) (n : ℕ) → n ≡ length xs → drop n (xs ++ ys) ≡ ys
drop-append [] ys n e = rw e
drop-append (x ∷ xs) ys n e = rw (e, drop-append xs ys (length xs) refl)

take-append : {A : Type 0} (xs ys : List A) → take (length xs) (xs ++ ys) ≡ xs
take-append [] ys = refl
take-append (x ∷ xs) ys = ap (λ t. x ∷ t) (take-append xs ys)

index_byte :
    (c : ℕ) (v rest : Text) → NoByte c v → index (v ++ (c ∷ rest)) (c ∷ []) ≡ some (length v)
unfolding index starts_with
index_byte c [] rest h = ground arith
index_byte c (x ∷ v) rest h = ground (arith, index_byte c v rest h.1)

-- A field's name and its colon, as ExtractField looks for them.
abbrev pub label : Text → Text
label field_name = field_name ++ (b':' ∷ [])

slice_from-append : (xs ys : Text) (n : ℕ) → n ≡ length xs → slice_from n (xs ++ ys) ≡ some ys
unfolding slice_from
slice_from-append xs ys n e =
    let fits : ltb (length (xs ++ ys)) n ≡ false = ground (arith, length-append xs ys) in
    rw (fits, drop-append xs ys n e)

slice_from-fits : (n : ℕ) (str : Text) → n ≤ length str → slice_from n str ≡ some (drop n str)
unfolding slice_from
slice_from-fits n str h = ground arith

quoted-value : (v rest : Text) → NoByte b'"' v → quoted (some (v ++ (b'"' ∷ rest))) ≡ some v
quoted-value v rest h = rw (index_byte b'"' v rest h, take-append v (b'"' ∷ rest))

regroup : (xs ys zs : Text) (c : ℕ) → xs ++ (ys ++ (c ∷ zs)) ≡ (xs ++ (ys ++ (c ∷ []))) ++ zs
regroup xs ys zs c = simp (append_assoc)

-- A text that holds a field's name, a colon and a quoted value gives the value, if the name with its
-- colon does not occur further ahead and the value has no quote.
extract_field-quoted :
    (pre field_name value rest : Text)
    → NotBefore
        (label field_name)
        (pre ++ (label field_name ++ (b'"' ∷ (value ++ (b'"' ∷ rest)))))
        (length pre)
    → NoByte b'"' value
    → extract_field (pre ++ (label field_name ++ (b'"' ∷ (value ++ (b'"' ∷ rest))))) field_name
      ≡ some value
unfolding extract_field
extract_field-quoted pre field_name value rest h k =
    rw
      (
        index_first pre (b'"' ∷ (value ++ (b'"' ∷ rest))) (label field_name) h,
        regroup pre (label field_name) (value ++ (b'"' ∷ rest)) b'"',
        slice_from-append (pre ++ (label field_name ++ (b'"' ∷ []))) (value ++ (b'"' ∷ rest))
            (length pre + (length field_name + 2))
            (omega (
              arith,
              length-append pre (label field_name ++ (b'"' ∷ [])),
              length-append (label field_name) (b'"' ∷ []),
              length-append field_name (b':' ∷ []),
            )),
      )
      (quoted-value value rest k)

length-label :
    (pre field_name post : Text)
    → length (pre ++ (label field_name ++ post)) ≡ length pre + length field_name + 1 + length post
length-label pre field_name post = omega (
  arith,
  length-append pre (label field_name ++ post),
  length-append (label field_name) post,
  length-append field_name (b':' ∷ []),
)

-- The label of the field stands at the end of the text, and not ahead of it.
abbrev pub EndsAtLabel : Text → Text → Type 0
EndsAtLabel str field_name =
    (pre : Text) × (str ≡ pre ++ (label field_name ++ []))
    × NotBefore (label field_name) str (length pre)

EndsAtLabel-panics :
    (str field_name : Text) → EndsAtLabel str field_name → extract_field str field_name ≡ none
unfolding extract_field slice_from
EndsAtLabel-panics str field_name (pre, e, h) =
    let len = length-label pre field_name [] in
    let beyond : ltb (length (pre ++ (label field_name ++ [])))
          (length pre + (length field_name + 2))
        ≡ true =
      ground arith in
    let at_pre =
      index_first pre [] (label field_name)
        (subst (λ t. NotBefore (label field_name) t (length pre)) e h) in
    rw (e, at_pre, beyond)

panics-EndsAtLabel :
    (str field_name : Text) → extract_field str field_name ≡ none → EndsAtLabel str field_name
unfolding extract_field
panics-EndsAtLabel str field_name e = elim (Option-cases (index str (label field_name))) [
  | inl absent ↦ absurd (ground arith)
  | inr (i, found) ↦ go i found (index-First str (label field_name) i found)
]
  where
    go :
        (i : ℕ)
        → index str (label field_name) ≡ some i
        → First (label field_name) str i
        → EndsAtLabel str field_name
    go i found (pre, [], split, len, before) = (pre, split, λ j lt. before j (omega arith))
    go i found (pre, c ∷ post, split, len, before) =
        let fits =
          slice_from-fits (i + (length field_name + 2)) str
            (omega (arith, ap length split, length-label pre field_name (c ∷ post))) in
        let extracted : extract_field str field_name
            ≡ quoted (some (drop (i + (length field_name + 2)) str)) =
          rw (found, fits) in
        absurd (ground arith)

-- ExtractField panics just when the text ends with the field's name and a colon, and that is their
-- first occurrence.
pub extract_field-panics :
    (str field_name : Text) → (extract_field str field_name ≡ none) ↔ EndsAtLabel str field_name
extract_field-panics str field_name =
    (panics-EndsAtLabel str field_name, EndsAtLabel-panics str field_name)
