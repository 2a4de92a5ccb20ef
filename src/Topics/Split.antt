-- ===== src/Topics/Split.antt =====
-- `s.split("/")`.
use Prim.Native.Char.{Char}
use text.Mathlib.TextLemmas.{nil-append, cons-append}
use text.Mathlib.TextEquality.{Char-path}
use ha_eisenberg.Common.{
  ◌≡◌, refl, sym, ap, ◌∙◌, [], ◌∷◌, List, String, true, false, Bool-cases, inl, inr, ◌+s◌, arith,
  All,
}
use ha_eisenberg.Topics.{is_slash, grow_first, split_slash}

-- A text with no slash in it: one level of a topic.
abbrev pub IsLevel : String → Type 0
IsLevel String.[] = Unit
IsLevel (String.◌∷◌ c s) = (is_slash c ≡ false) × IsLevel s

slash_first : (rest : String) → split_slash ("/" +s rest) ≡ "" ∷ split_slash rest
unfolding split_slash
slash_first rest = ap split_slash (cons-append "/" "" rest ∙ ap (String.◌∷◌ "/") (nil-append rest))

split_slash-grow :
    (c : Char) (s : String)
    → is_slash c ≡ false
    → split_slash (String.◌∷◌ c s) ≡ grow_first c (split_slash s)
unfolding split_slash
split_slash-grow c s e = rw e

-- A level, a slash and the rest are split there.
pub split_slash-level :
    (level rest : String)
    → IsLevel level
    → split_slash (level +s ("/" +s rest)) ≡ level ∷ split_slash rest
split_slash-level String.[] rest h = ap split_slash (nil-append ("/" +s rest)) ∙ slash_first rest
split_slash-level (String.◌∷◌ c s) rest (no_slash, h) =
    ap split_slash (cons-append c s ("/" +s rest))
    ∙ split_slash-grow c (s +s ("/" +s rest)) no_slash
    ∙ ap (grow_first c) (split_slash-level s rest h)

pub split_slash-last : (level : String) → IsLevel level → split_slash level ≡ level ∷ []
unfolding split_slash
split_slash-last String.[] h = refl
split_slash-last (String.◌∷◌ c s) (no_slash, h) = rw (no_slash, split_slash-last s h)

abbrev pub join_slash : List String → String
join_slash [] = ""
join_slash (part ∷ []) = part
join_slash (part ∷ next ∷ parts) = part +s ("/" +s join_slash (next ∷ parts))

split_slash-cons :
    (s : String) → (part : String) × (parts : List String) × (split_slash s ≡ part ∷ parts)
unfolding split_slash
split_slash-cons String.[] = ("", [], refl)
split_slash-cons (String.◌∷◌ c s) =
    let (part, parts, e) = split_slash-cons s in
    elim (Bool-cases (is_slash c)) [
      | inl slash ↦ ("", split_slash s, rw slash)
      | inr other ↦ (String.◌∷◌ c part, parts, rw (other, e))
    ]

join_slash-grow_first :
    (c : Char) (parts : List String)
    → join_slash (grow_first c parts) ≡ String.◌∷◌ c (join_slash parts)
join_slash-grow_first c [] = refl
join_slash-grow_first c (part ∷ []) = refl
join_slash-grow_first c (part ∷ next ∷ parts) =
    cons-append c part ("/" +s join_slash (next ∷ parts))

eq_of_is_slash : (c : Char) → is_slash c ≡ true → c ≡ "/"
eq_of_is_slash c e = Char-path c "/" (ground arith)

-- Joined again by slashes, the parts give the text.
pub join_slash-split_slash : (s : String) → join_slash (split_slash s) ≡ s
unfolding split_slash
join_slash-split_slash String.[] = refl
join_slash-split_slash (String.◌∷◌ c s) =
    let ih = join_slash-split_slash s in
    let (part, parts, shape) = split_slash-cons s in
    elim (Bool-cases (is_slash c)) [
      | inl slash ↦
          let rest : join_slash (part ∷ parts) ≡ s = rw (← shape) ih in
          rw (slash, shape, rest)
            (nil-append ("/" +s s)
              ∙ cons-append "/" "" s
              ∙ ap (String.◌∷◌ "/") (nil-append s)
              ∙ ap (λ d. String.◌∷◌ d s) (sym (eq_of_is_slash c slash)))
      | inr other ↦ rw (other, join_slash-grow_first c (split_slash s), ih)
    ]

All-IsLevel-grow_first :
    (c : Char) (parts : List String)
    → is_slash c ≡ false
    → All IsLevel parts
    → All IsLevel (grow_first c parts)
All-IsLevel-grow_first c [] e h = ((e, tt), tt)
All-IsLevel-grow_first c (part ∷ parts) e (h, hs) = ((e, h), hs)

-- No part has a slash in it.
pub split_slash-IsLevel : (s : String) → All IsLevel (split_slash s)
unfolding split_slash
split_slash-IsLevel String.[] = (tt, tt)
split_slash-IsLevel (String.◌∷◌ c s) =
    let ih = split_slash-IsLevel s in
    elim (Bool-cases (is_slash c)) [
      | inl slash ↦ rw slash (tt, ih)
      | inr other ↦ rw other (All-IsLevel-grow_first c (split_slash s) other ih)
    ]
