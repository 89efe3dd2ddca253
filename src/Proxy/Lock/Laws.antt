-- ===== src/Proxy/Lock/Laws.antt =====
-- Which cookies open a lock.
use boreas.Prelude.{
  ℕ, ◌+◌, ◌≤◌, ◌<◌, ◌≡◌, refl, true, false, inl, inr, Option-cases, Bool-cases, Option, none, some,
  List, [], ◌∷◌, ◌++◌, arith, all, ltb,
}
use boreas.Prelude.Text.{is_digit}
use boreas.Prelude.Int.{ℤ, pos, negsuc}
use boreas.Proxy.Registry.{Lock}
use boreas.Proxy.Registry.SiteMap.{key_eq_self, key_eq_sound}
use boreas.Proxy.Seconds.{
  max_int64, format_seconds, parse_seconds, all-format_seconds, parse-format_seconds,
}
use boreas.Proxy.Lock.{
  Crypto, Visitor, LockAnswer, admitted, signed_in, page, admits, has_valid_cookie, sign,
  before_dot, valid, valid_until,
}

module _ (c : Crypto) (l : Lock) where
  before_dot_digits :
      (s rest : List ℕ) → all is_digit s ≡ true → before_dot c (s ++ b'.' ∷ rest) ≡ s
  unfolding before_dot
  before_dot_digits [] rest h = refl
  before_dot_digits (a ∷ s) rest h = ground (arith, before_dot_digits s rest)

  -- A cookie that a lock signed for a time that an int64 holds opens it exactly before that time.
  pub valid-sign :
      (expires now : ℕ) → expires ≤ max_int64 → valid c l (sign c l expires) now ≡ ltb now expires
  unfolding valid sign
  valid-sign expires now b =
      let at = format_seconds expires in
      let cut = before_dot_digits at (c.mac l.hash at) (all-format_seconds expires) in
      let read = parse-format_seconds expires b in
      ground (arith, cut, read, key_eq_self (sign c l expires))

  valid_sound :
      (value : List ℕ) (now : ℕ)
      → valid c l value now ≡ true
      → (expires : ℕ) × (now < expires) × (value ≡ sign c l expires)
  unfolding valid
  valid_sound value now h = until (parse_seconds (before_dot c value)) h
    where
      until :
          (at : Option ℤ)
          → valid_until c l value now at ≡ true
          → (expires : ℕ) × (now < expires) × (value ≡ sign c l expires)
      until none k = cc
      until (some (negsuc n)) k = cc
      until (some (pos expires)) k =
          (expires, ground arith, key_eq_sound value (sign c l expires) (ground arith))

  -- A text that holds the time and its mac under the lock's hash: nobody writes one who lacks the hash.
  abbrev pub IsSigned : List ℕ → ℕ → Type 0
  IsSigned value expires =
      value ≡ format_seconds expires ++ b'.' ∷ c.mac l.hash (format_seconds expires)

  -- What stands behind each answer of a lock.
  abbrev pub IsJustified : Visitor → LockAnswer → Type 0
  IsJustified v admitted =
      (value : List ℕ) × (expires : ℕ) × (v.cookie ≡ some value)
      × (v.now < expires)
      × IsSigned value expires
  IsJustified v (signed_in cookie path) =
      (v.is_post ≡ true)
      × (v.allowed ≡ true)
      × (c.password_matches l.hash v.password ≡ true)
      × (path ≡ l.path)
      × ((t : ℕ) → valid c l cookie t ≡ ltb t (v.now + 86400))
  IsJustified v (page status mood) =
      (value : List ℕ) → v.cookie ≡ some value → valid c l value v.now ≡ false

  has_cookie :
      (v : Visitor)
      → has_valid_cookie c l v ≡ true
      → (value : List ℕ) × (v.cookie ≡ some value) × (valid c l value v.now ≡ true)
  has_cookie v h = elim (Option-cases v.cookie) [
    | inl e ↦ ground (arith, e)
    | inr (value, e) ↦ (value, e, ground (arith, e))
  ]

  -- Whatever the visitor sends, at a time whose next day an int64 holds: a lock lets a visitor in only
  -- with a cookie that carries a time to come and the mac of that time under the lock's hash; it
  -- hands out a cookie only for a form posted with the right password within the tries, and that
  -- cookie, for the lock's own path, opens the lock until a day later and no longer; it shows the
  -- form only to a visitor whose cookie does not open it.
  pub admits_sound :
      (v : Visitor) (answer : LockAnswer)
      → v.now + 86400 ≤ max_int64
      → admits c l v ≡ answer
      → IsJustified v answer
  unfolding admits sign
  admits_sound v admitted b h = elim (Bool-cases (has_valid_cookie c l v)) [
    | inl e ↦
        let (value, sent, opens) = has_cookie v e in
        let (expires, still, same) = valid_sound value v.now opens in
        (value, expires, sent, still, same)
    | inr e ↦ absurd (ground (arith, e, h))
  ]
  admits_sound v (signed_in cookie path) b h =
      let same : sign c l (v.now + 86400) ≡ cookie = ground arith in
      (
        ground arith,
        ground arith,
        ground arith,
        ground arith,
        λ t. rw (← same) (valid-sign (v.now + 86400) t b),
      )
  admits_sound v (page status mood) b h = λ value e. elim (Bool-cases (valid c l value v.now)) [
    | inl q ↦ absurd (ground (arith, e, q, h))
    | inr q ↦ q
  ]
