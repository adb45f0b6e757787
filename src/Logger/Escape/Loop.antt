-- ===== src/Logger/Escape/Loop.antt =====
-- The escaping loop against one pass over the characters, and what a reader gets back of the text.
use Prim.Native.Char.{Char}
use mathlib.Core.List.{append_assoc}
use computer_service_system.Common.{
  ℕ, zero, suc, ◌+◌, ◌<◌, List, [], ◌∷◌, ◌++◌, true, false, some, ◌&&◌, if◌then◌else◌, length, ◌≡◌,
  refl, sym, ap, ◌∙◌, arith, inl, inr, Bool-cases, length-append, All,
}
use computer_service_system.Logger.Escape.{
  backslash, is_backslash, is_replaced, get_elem?, set, insert_at, escape_loop, escape,
}

-- A quote, a line feed or a carriage return becomes a backslash; a backslash gets one in front.
unfoldable pub escaped : List Char → List Char
escaped [] = []
escaped (c ∷ cs) =
    let rest = escaped cs in
    if is_replaced c
    then backslash ∷ rest
    else if is_backslash c
    then backslash ∷ c ∷ rest
    else c ∷ rest

get_elem?-append :
    (done : List Char) (s : List Char) → get_elem? (done ++ s) (length done) ≡ get_elem? s 0
get_elem?-append [] s = refl
get_elem?-append (c ∷ done) s = get_elem?-append done s

set-append :
    (done : List Char) (c d : Char) (s : List Char)
    → set (done ++ c ∷ s) (length done) d ≡ done ++ d ∷ s
set-append [] c d s = refl
set-append (x ∷ done) c d s = ap (λ l. x ∷ l) (set-append done c d s)

insert_at-append :
    (done : List Char) (d : Char) (s : List Char)
    → insert_at (done ++ s) (length done) d ≡ done ++ d ∷ s
insert_at-append [] d s = refl
insert_at-append (x ∷ done) d s = ap (λ l. x ∷ l) (insert_at-append done d s)

-- The rest of the loop, after a round that has put `mid` behind the finished part.
after_round :
    (fuel : ℕ) (done mid s : List Char)
    → escape_loop fuel (length (done ++ mid)) ((done ++ mid) ++ s)
      ≡ some ((done ++ mid) ++ escaped s)
    → escape_loop fuel (length done + length mid) (done ++ (mid ++ s))
      ≡ some (done ++ (mid ++ escaped s))
after_round fuel done mid s h =
    rw (length-append done mid, append_assoc done mid s, append_assoc done mid (escaped s)) at h

-- The loop, with a finished part in front of its index.
escape_loop-escaped :
    (fuel : ℕ) (done s : List Char)
    → length s < fuel
    → escape_loop fuel (length done) (done ++ s) ≡ some (done ++ escaped s)
unfolding escape_loop escaped
escape_loop-escaped zero done s h = absurd (omega arith)
escape_loop-escaped (suc fuel) done [] h = rw (get_elem?-append done [], escape_loop)
escape_loop-escaped (suc fuel) done (c ∷ s) h =
    let fits : length s < fuel = omega arith in
    let by_one : (d : Char)
        → escape_loop fuel (length done + 1) (done ++ d ∷ s) ≡ some (done ++ d ∷ escaped s) =
      λ d. after_round fuel done (d ∷ []) s (escape_loop-escaped fuel (done ++ d ∷ []) s fits) in
    let by_two : escape_loop fuel (length done + 2) (done ++ backslash ∷ c ∷ s)
        ≡ some (done ++ backslash ∷ c ∷ escaped s) =
      after_round fuel done (backslash ∷ c ∷ []) s
        (escape_loop-escaped fuel (done ++ backslash ∷ c ∷ []) s fits) in
    rw (get_elem?-append done (c ∷ s), escape_loop)
      (elim (Bool-cases (is_replaced c)) [
        | inl quote ↦ rw (quote, set-append done c backslash s) (by_one backslash)
        | inr other ↦ elim (Bool-cases (is_backslash c)) [
          | inl slash ↦ rw (other, slash, insert_at-append done backslash (c ∷ s)) by_two
          | inr plain ↦ rw (other, plain) (by_one c)
        ]
      ])

-- The loop ends on every message, and its result is that of one pass over the characters.
pub escape-escaped : (s : List Char) → escape s ≡ some (escaped s)
unfolding escape
escape-escaped s = escape_loop-escaped (suc (length s)) [] s (omega arith)

escaped-append : (s t : List Char) → escaped (s ++ t) ≡ escaped s ++ escaped t
unfolding escaped
escaped-append [] t = refl
escaped-append (c ∷ s) t = ground (arith, escaped-append s t)

-- A quote, a line feed and a carriage return in one place give one result: the character is lost,
-- and one backslash stands there, unpaired.
pub escape_loses :
    (before after : List Char) (c d : Char)
    → is_replaced c ≡ true
    → is_replaced d ≡ true
    → (escape (before ++ c ∷ after) ≡ escape (before ++ d ∷ after))
      × (escape (before ++ c ∷ after) ≡ some (escaped before ++ backslash ∷ escaped after))
escape_loses before after c d hc hd = (one c hc ∙ sym (one d hd), one c hc)
  where
    one :
        (e : Char)
        → is_replaced e ≡ true
        → escape (before ++ e ∷ after) ≡ some (escaped before ++ backslash ∷ escaped after)
    one e h =
        escape-escaped (before ++ e ∷ after)
        ∙ ap some (escaped-append before (e ∷ after) ∙ ap (λ l. escaped before ++ l) (head e h))
      where
        head : (e : Char) → is_replaced e ≡ true → escaped (e ∷ after) ≡ backslash ∷ escaped after
        head e h = unfold escaped in rw h

-- How a reader of JSON takes a pair of backslashes back.
unfoldable pub unescaped : List Char → List Char
unescaped [] = []
unescaped (c ∷ []) = c ∷ []
unescaped (c ∷ d ∷ cs) =
    let pair = unescaped cs in
    let single = unescaped (d ∷ cs) in
    if is_backslash c && is_backslash d then d ∷ pair else c ∷ single

unescaped-plain :
    (c : Char) (l : List Char) → is_backslash c ≡ false → unescaped (c ∷ l) ≡ c ∷ unescaped l
unfolding unescaped
unescaped-plain c [] h = refl
unescaped-plain c (d ∷ l) h = rw h

unescaped-pair :
    (c : Char) (l : List Char)
    → is_backslash c ≡ true
    → unescaped (backslash ∷ c ∷ l) ≡ c ∷ unescaped l
unfolding unescaped
unescaped-pair c l h = rw h

-- No character of the text is a quote, a line feed or a carriage return.
abbrev pub IsPlain : List Char → Type 0
IsPlain s = All (λ c. is_replaced c ≡ false) s

unescaped-escaped : (s : List Char) → IsPlain s → unescaped (escaped s) ≡ s
unfolding escaped
unescaped-escaped [] h = unfold unescaped in refl
unescaped-escaped (c ∷ s) h = elim (Bool-cases (is_backslash c)) [
  | inl slash ↦
      rw (h.0, slash)
        (unescaped-pair c (escaped s) slash ∙ ap (λ l. c ∷ l) (unescaped-escaped s h.1))
  | inr plain ↦
      rw (h.0, plain)
        (unescaped-plain c (escaped s) plain ∙ ap (λ l. c ∷ l) (unescaped-escaped s h.1))
]

-- A message without quotes and line ends is not lost: a reader of the escaped text gets it back.
pub unescape-escape :
    (s : List Char) → IsPlain s → (e : List Char) × (escape s ≡ some e) × (unescaped e ≡ s)
unescape-escape s h = (escaped s, escape-escaped s, unescaped-escaped s h)
