-- ===== src/Bora/Rounds/Bounds.antt =====
-- The sizes of what the model reads and of what it asks back.
use Prim.Native.Char.{code}
use mathlib.Core.Path.{subst}
use text.Mathlib.Text.{◌==◌ as text_eq}
use text.Mathlib.TextLemmas.{nil-append, cons-append}
use boreas.Prelude.{
  ℕ, zero, suc, ◌+◌, ◌-◌, ◌≤◌, ◌≡◌, refl, ap, ◌∙◌, String, Bool, false, not, ◌&&◌, ◌||◌, Option,
  none, some, List, [], ◌∷◌, ◌++◌, any, length, arith, leb, ltb, Bool-cases, inl, inr,
}
use boreas.Prelude.Find.{any-append}
use boreas.Prelude.Text.{codes, is_empty, trim_space, ◌<>◌}
use boreas.Bora.Aid.{Aid}
use boreas.Bora.Redact.{redact}
use boreas.Bora.Diff.{rune_bytes, byte_len, cut_bytes}
use boreas.Bora.Rounds.{
  result_limit, truncated, clip, Asked, choice_runes, choice_of, add_choices, asked_back,
  max_choices, first_of,
}

pub byte_len-append : (s t : String) → byte_len (s <> t) ≡ byte_len s + byte_len t
unfolding byte_len
byte_len-append String.[] t = ap byte_len (nil-append t) ∙ omega arith
byte_len-append (String.◌∷◌ c s) t =
    ap byte_len (cons-append c s t) ∙ omega (arith, byte_len-append s t)

pub byte_len-cut_bytes : (n : ℕ) (s : String) → byte_len (cut_bytes n s) ≤ n
unfolding byte_len cut_bytes
byte_len-cut_bytes n String.[] = omega arith
byte_len-cut_bytes n (String.◌∷◌ c s) = elim (Bool-cases (leb (rune_bytes (code c)) n)) [
  | inl e ↦ rw e (ground (arith, e, byte_len-cut_bytes (n - rune_bytes (code c)) s))
  | inr e ↦ rw e (omega arith)
]

-- No text that the model reads takes more than the limit, 24 KiB, and the note that it was cut.
pub clip_bounds :
    (aid : Aid) (text : String) → byte_len (clip aid text) ≤ result_limit + byte_len truncated
unfolding clip
clip_bounds aid text =
    elim (Bool-cases (ltb result_limit (byte_len (redact aid.replace_all text)))) [
      | inl e ↦
          rw (e, byte_len-append (cut_bytes result_limit (redact aid.replace_all text)) truncated)
            (omega (arith, byte_len-cut_bytes result_limit (redact aid.replace_all text)))
      | inr e ↦ rw e (ground (arith, e))
    ]

-- A text for a choice, different from those before it.
abbrev pub AreShown : List String → Type 0
AreShown [] = Unit
AreShown (c ∷ cs) =
    (is_empty c ≡ false)
    × (length (codes c) ≤ choice_runes)
    × (any (λ later. text_eq later c) cs ≡ false)
    × AreShown cs

AreShown-snoc :
    (found : List String) (c : String)
    → is_empty c ≡ false
    → length (codes c) ≤ choice_runes
    → any (text_eq c) found ≡ false
    → AreShown found
    → AreShown (found ++ c ∷ [])
AreShown-snoc [] c filled short new h = (filled, short, refl, tt)
AreShown-snoc (x ∷ xs) c filled short new h = (
  h.0,
  h.1,
  any-append (λ later. text_eq later x) xs (c ∷ []) ∙ ground (arith, h.2, new),
  AreShown-snoc xs c filled short (ground (arith, new)) h.3,
)

add_choices-AreShown :
    (aid : Aid) (cs found : List String) → AreShown found → AreShown (add_choices aid found cs)
unfolding add_choices
add_choices-AreShown aid [] found h = h
add_choices-AreShown aid (c ∷ cs) found h =
    let choice = choice_of aid c in
    let fits =
      not (is_empty choice)
      && leb (length (codes choice)) choice_runes
      && not (any (text_eq choice) found) in
    elim (Bool-cases fits) [
      | inl e ↦ rw e (
          add_choices-AreShown aid cs (found ++ choice ∷ []) (
            AreShown-snoc found choice (ground (arith, e)) (ground (arith, e)) (ground (arith, e))
              h))
      | inr e ↦ rw e (add_choices-AreShown aid cs found h)
    ]

any-first_of :
    (p : String → Bool) (n : ℕ) (cs : List String)
    → any p cs ≡ false
    → any p (first_of n cs) ≡ false
any-first_of p zero cs h = refl
any-first_of p (suc n) [] h = refl
any-first_of p (suc n) (c ∷ cs) h = ground (arith, h, any-first_of p n cs)

first_of-AreShown : (n : ℕ) (cs : List String) → AreShown cs → AreShown (first_of n cs)
first_of-AreShown zero cs h = tt
first_of-AreShown (suc n) [] h = tt
first_of-AreShown (suc n) (c ∷ cs) h =
    (h.0, h.1, any-first_of (λ later. text_eq later c) n cs h.2, first_of-AreShown n cs h.3)

length-first_of_le : (n : ℕ) (cs : List String) → length (first_of n cs) ≤ n
length-first_of_le zero cs = omega arith
length-first_of_le (suc n) [] = omega arith
length-first_of_le (suc n) (c ∷ cs) = omega (arith, length-first_of_le n cs)

length-first_of_ge :
    (n k : ℕ) (cs : List String) → k ≤ n → k ≤ length cs → k ≤ length (first_of n cs)
length-first_of_ge zero k cs h g = h
length-first_of_ge (suc n) zero cs h g = omega arith
length-first_of_ge (suc n) (suc k) [] h g = g
length-first_of_ge (suc n) (suc k) (c ∷ cs) h g =
    omega (arith, length-first_of_ge n k cs (omega (arith, h)) (omega (arith, g)))

-- A question that is asked back has two to four choices, all different, of one to 200 characters each, and
-- its text is not empty.
pub asked_back_bounds :
    (aid : Aid) (a : Option Asked) (b : Asked)
    → asked_back aid a ≡ some b
    → (2 ≤ length b.choices)
      × (length b.choices ≤ max_choices)
      × AreShown b.choices
      × (is_empty b.question ≡ false)
unfolding asked_back
asked_back_bounds aid none b h = cc
asked_back_bounds aid (some a) b h =
    let found = add_choices aid [] a.choices in
    let shown = add_choices-AreShown aid a.choices [] tt in
    let few = length-first_of_le max_choices found in
    elim (Bool-cases (is_empty (trim_space a.question) || ltb (length found) 2)) [
      | inl e ↦ cc (rw e at h)
      | inr e ↦
          let same : record {
            question = trim_space a.question;
            choices = first_of max_choices found;
          }
              ≡ b =
            some_inj (rw e at h) in
          subst
            (λ (c : Asked).
              (2 ≤ length c.choices)
              × (length c.choices ≤ max_choices)
              × AreShown c.choices
              × (is_empty c.question ≡ false))
            same
            (
              length-first_of_ge max_choices 2 found (omega arith) (ground (arith, e)),
              few,
              first_of-AreShown max_choices found shown,
              ground (arith, e),
            )
    ]
  where
    some_inj : {x y : Asked} → some x ≡ some y → x ≡ y
    some_inj e = cc
