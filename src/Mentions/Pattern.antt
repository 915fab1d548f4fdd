-- ===== src/Mentions/Pattern.antt =====
-- What the pattern of a mention finds.
use collabflow.Common.{
  ◌==◌, ℕ, ◌≡◌, refl, ap, sym, ◌∙◌, Bool, true, false, not, ◌&&◌, Text, [], ◌∷◌, ◌++◌, arith,
  contains, length, some, any,
}
use collabflow.Runtime.{Runtime, WordLaws}
use collabflow.Mentions.{
  span, is_local, is_domain, is_tail, mention_at, find_mentions, match_length, cons_match,
  extract_mentioned_emails, first_seen,
}

-- Not empty, and every character is of the class.
abbrev pub all_of : (ℕ → Bool) → Text → Bool
all_of p [] = true
all_of p (c ∷ s) = p c && all_of p s

abbrev pub is_run : (ℕ → Bool) → Text → Bool
is_run p [] = false
is_run p (c ∷ s) = all_of p (c ∷ s)

-- The text does not begin with a character of the class.
abbrev pub ends : (ℕ → Bool) → Text → Bool
ends p [] = true
ends p (c ∷ s) = not (p c)

span-all_of :
    (p : ℕ → Bool) (s rest : Text)
    → all_of p s ≡ true
    → ends p rest ≡ true
    → span p (s ++ rest) ≡ (s, rest)
unfolding span
span-all_of p [] [] h k = refl
span-all_of p [] (c ∷ rest) h k = ground (arith, k)
span-all_of p (c ∷ s) rest h k =
    let tail = span-all_of p s rest (ground (arith, h)) k in
    let here : p c ≡ true = ground (arith, h) in rw here (rw tail refl)

module _ (rt : Runtime) (words : WordLaws rt) where
  pub mention_at-email :
      (a d t : ℕ) (ls ds ts rest : Text)
      → all_of (is_local rt) (a ∷ ls) ≡ true
      → all_of (is_domain rt) (d ∷ ds) ≡ true
      → all_of (is_tail rt) (t ∷ ts) ≡ true
      → ends (is_tail rt) rest ≡ true
      → mention_at rt ((a ∷ ls) ++ (b'@' ∷ ((d ∷ ds) ++ (b'.' ∷ ((t ∷ ts) ++ rest)))))
        ≡ some ((a ∷ ls) ++ b'@' ∷ (d ∷ ds) ++ b'.' ∷ t ∷ ts)
  unfolding mention_at
  mention_at-email a d t ls ds ts rest ha hd ht hr =
      let local =
        span-all_of (is_local rt) (a ∷ ls) (b'@' ∷ ((d ∷ ds) ++ (b'.' ∷ ((t ∷ ts) ++ rest)))) ha
          (unfold is_local in ground (arith, words.at_sign)) in
      let domain =
        span-all_of (is_domain rt) (d ∷ ds) (b'.' ∷ ((t ∷ ts) ++ rest)) hd
          (unfold is_domain in ground (arith, words.full_stop)) in
      let tail = span-all_of (is_tail rt) (t ∷ ts) rest ht hr in rw local (rw domain (rw tail refl))

skip-append :
    (rt : Runtime) (s rest : Text)
    → find_mentions rt (length s) (s ++ rest) ≡ find_mentions rt 0 rest
unfolding find_mentions
skip-append rt [] rest = refl
skip-append rt (c ∷ s) rest = skip-append rt s rest

find_mentions-none : (rt : Runtime) (s : Text) → contains s b'@' ≡ false → find_mentions rt 0 s ≡ []
unfolding find_mentions contains
find_mentions-none rt [] h = refl
find_mentions-none rt (c ∷ s) h =
    let other : (c == b'@') ≡ false = ground (arith, h) in
    rw other (find_mentions-none rt s (ground (arith, h)))

find_mentions-append :
    (rt : Runtime) (s rest : Text)
    → contains s b'@' ≡ false
    → find_mentions rt 0 (s ++ rest) ≡ find_mentions rt 0 rest
unfolding find_mentions contains
find_mentions-append rt [] rest h = refl
find_mentions-append rt (c ∷ s) rest h =
    let other : (c == b'@') ≡ false = ground (arith, h) in
    rw other (find_mentions-append rt s rest (ground (arith, h)))

append_assoc : (r s t : Text) → (r ++ s) ++ t ≡ r ++ (s ++ t)
append_assoc [] s t = refl
append_assoc (c ∷ r) s t = ap (λ u. c ∷ u) (append_assoc r s t)

module _ (rt : Runtime) (words : WordLaws rt) where
  found_at :
      (email text rest : Text)
      → mention_at rt text ≡ some email
      → email ++ rest ≡ text
      → contains rest b'@' ≡ false
      → find_mentions rt 0 (b'@' ∷ text) ≡ email ∷ []
  unfolding find_mentions
  found_at email text rest found split none_left =
      let tail : find_mentions rt (length email) text ≡ [] =
        ap (find_mentions rt (length email)) (sym split)
        ∙ skip-append rt email rest
        ∙ find_mentions-none rt rest none_left in
      ap (λ m. cons_match m (find_mentions rt (match_length m) text)) found
      ∙ ap (λ es. email ∷ es) tail

  -- A body whose only mention has one or more characters of `[\w.+-]`, an `@`, one or more of `[\w-]`, a
  -- full stop, and one or more of `[\w.-]`, where neither the text before it nor the text after it holds an
  -- `@` and the text after it does not go on with a character of `[\w.-]`, gives exactly the email of this
  -- mention, where `@` and the full stop are no word characters.
  pub extract_mentioned_emails-mention :
      (before : Text) (a d t : ℕ) (ls ds ts rest : Text)
      → contains before b'@' ≡ false
      → all_of (is_local rt) (a ∷ ls) ≡ true
      → all_of (is_domain rt) (d ∷ ds) ≡ true
      → all_of (is_tail rt) (t ∷ ts) ≡ true
      → ends (is_tail rt) rest ≡ true
      → contains rest b'@' ≡ false
      → extract_mentioned_emails rt
          (before ++ b'@' ∷ ((a ∷ ls) ++ (b'@' ∷ ((d ∷ ds) ++ (b'.' ∷ ((t ∷ ts) ++ rest))))))
        ≡ ((a ∷ ls) ++ b'@' ∷ (d ∷ ds) ++ b'.' ∷ t ∷ ts) ∷ []
  unfolding extract_mentioned_emails first_seen any
  extract_mentioned_emails-mention before a d t ls ds ts rest hb ha hd ht hr hn =
      let text = (a ∷ ls) ++ (b'@' ∷ ((d ∷ ds) ++ (b'.' ∷ ((t ∷ ts) ++ rest)))) in
      let split =
        append_assoc ((a ∷ ls) ++ (b'@' ∷ d ∷ ds)) (b'.' ∷ t ∷ ts) rest
        ∙ append_assoc (a ∷ ls) (b'@' ∷ d ∷ ds) (b'.' ∷ ((t ∷ ts) ++ rest)) in
      let found =
        found_at ((a ∷ ls) ++ b'@' ∷ (d ∷ ds) ++ b'.' ∷ t ∷ ts) text rest
          (mention_at-email rt words a d t ls ds ts rest ha hd ht hr) split hn in
      ap (first_seen []) (find_mentions-append rt before (b'@' ∷ text) hb ∙ found)
