-- ===== src/Proxy/Rewrite/Laws.antt =====
-- Paths on their way to a target and back.
use boreas.Prelude.{
  String, ◌≡◌, refl, sym, ap, ◌∙◌, Bool, true, false, Option, none, some, List, [], ◌∷◌, ◌++◌,
  arith, Option-cases, Bool-cases, inl, inr,
}
use boreas.Prelude.Text.{codes}
use boreas.Proxy.Registry.{Hop, Url}
use boreas.Proxy.Registry.SiteMap.{key_eq_self}
use boreas.Proxy.Serve.{Codes, starts_with, under}
use boreas.Proxy.Rewrite.{
  Asked, Location, cut_prefix, without, slash, is_rest, is_absolute, is_own_host, rewrite,
  rewrite_location, base, own_href, moved, move,
}

pub cut_prefix-append : (p s : Codes) → cut_prefix p (p ++ s) ≡ some s
unfolding cut_prefix
cut_prefix-append [] s = refl
cut_prefix-append (c ∷ p) s = ground (arith, cut_prefix-append p s)

without-append : (p s : Codes) → without p (p ++ s) ≡ s
without-append p s = ground (arith, cut_prefix-append p s)

pub cut_prefix_sound : (p s rest : Codes) → cut_prefix p s ≡ some rest → s ≡ p ++ rest
unfolding cut_prefix
cut_prefix_sound [] s rest h = cc
cut_prefix_sound (c ∷ p) [] rest h = cc
cut_prefix_sound (c ∷ p) (d ∷ s) rest h = ground (arith, cut_prefix_sound p s rest)

starts_with-slash : (p s : Codes) → starts_with (p ++ slash) (p ++ b'/' ∷ s) ≡ true
unfolding starts_with
starts_with-slash [] s = refl
starts_with-slash (c ∷ p) s = ground (arith, starts_with-slash p s)

append_nil : (p : Codes) → p ++ [] ≡ p
append_nil [] = refl
append_nil (c ∷ p) = ap (λ q. c ∷ q) (append_nil p)

-- A path goes on behind the prefix that it is under.
pub under-append : (p rest : Codes) → is_rest rest ≡ true → under (p ++ rest) p ≡ true
unfolding under
under-append p [] h = ground (arith, append_nil p, key_eq_self p)
under-append p (c ∷ rest) h =
    let same : c ≡ b'/' = ground arith in
    let begins : starts_with (p ++ slash) (p ++ c ∷ rest) ≡ true =
      rw same (starts_with-slash p rest) in
    ground (arith, begins)

own_href_rest : (m : Option Codes) → is_rest (own_href m) ≡ true
unfolding starts_with
own_href_rest none = refl
own_href_rest (some []) = refl
own_href_rest (some (c ∷ m)) = ground arith

moved_sound :
    (h : Hop) (said location : Location) (rest : Codes)
    → moved h said (some rest) ≡ some location
    → (is_rest rest ≡ true) × (move said (codes h.public ++ rest) ≡ location)
moved_sound h said location rest e = ground arith

module _ (equal_fold : String → String → Bool) (h : Hop) where
  -- The Location that a hop writes lies under the public path of the hop, without a host, and gives
  -- the target's path back: it is what the target said, with the public path for the target's own.
  pub rewrite_location_sound :
      (said location : Location)
      → rewrite_location equal_fold h (some said) ≡ some location
      → (under location.path (codes h.public) ≡ true)
        × (location.host ≡ "")
        × (location.tail ≡ said.tail)
        × (said.path ≡ codes h.target.path ++ without (codes h.public) location.path)
  unfolding rewrite_location
  rewrite_location_sound said location e = elim (Bool-cases (is_own_host equal_fold h said.host)) [
    | inr f ↦ ground (arith, f, e)
    | inl t ↦ elim (Option-cases (cut_prefix (codes h.target.path) said.path)) [
      | inl n ↦ ground (arith, t, n, e)
      | inr (rest, cut) ↦
          let now : moved h said (some rest) ≡ some location = ground (arith, t, cut, e) in
          let (r, same) = moved_sound h said location rest now in
          let from = cut_prefix_sound (codes h.target.path) said.path rest cut in
          let back = without-append (codes h.public) rest in
          rw (← same) (
            under-append (codes h.public) rest r,
            refl,
            refl,
            from ∙ sym (ap (λ s. codes h.target.path ++ s) back),
          )
    ]
  ]

  -- The decoded path of a request below the public path of a hop comes back: a target that redirects to
  -- the path it was asked for, in full or with its own host, sends the browser to the path it asked
  -- for, unless that path is under the public path already. Only the decoded path does: whatever raw
  -- path the target wrote is dropped, so that an encoded slash comes back as a slash.
  pub rewrite_location-rewrite :
      (escaped : Url → Codes) (set_for : List String → List String) (set_proto : String)
      (asked : Asked) (rest : Codes) (said : Location)
      → asked.path ≡ codes h.public ++ rest
      → is_rest rest ≡ true
      → is_own_host equal_fold h said.host ≡ true
      → said.path ≡ (rewrite escaped set_for set_proto asked h).path
      → is_absolute said.path ≡ true
      → under said.path (codes h.public) ≡ false
      → rewrite_location equal_fold h (some said)
        ≡ some
            (record { scheme = ""; host = ""; path = asked.path; raw_path = []; tail = said.tail })
  unfolding rewrite rewrite_location
  rewrite_location-rewrite escaped set_for set_proto asked rest said below r own back absolute
        outside =
      let out : without (codes h.public) asked.path ≡ rest =
        ap (without (codes h.public)) below ∙ without-append (codes h.public) rest in
      let cut = cut_prefix-append (codes h.target.path) rest in
      let e : said.path ≡ codes h.target.path ++ rest =
        back ∙ ap (λ s. codes h.target.path ++ s) out in
      let found : cut_prefix (codes h.target.path) said.path ≡ some rest = rw e cut in
      ground (arith, found, below)

-- The href of a page's base is always under the public path of the task.
pub base-under : (h : Hop) (m : Option Codes) → under (base h m) (codes h.public) ≡ true
unfolding base
base-under h m =
    let below = under-append (codes h.public) (own_href m) (own_href_rest m) in
    ground (arith, below)
