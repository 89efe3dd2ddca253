-- ===== src/Proxy/Lock.antt =====
-- The lock of a site, of internal/infra/proxy/lock.go. Texts of the cookie are code points. The mac of
-- a text under the lock's hash, in base64, and the comparison of a password with its hash come from
-- other packages, as does the limiter on tries, of which a request sees whether it allows one more.
pub mod Laws
use text.Mathlib.Text.{◌==◌ as text_eq}
use boreas.Prelude.{
  ℕ, ◌+◌, ◌*◌, String, Bool, true, false, not, ◌&&◌, Option, none, some, List, [], ◌∷◌, ◌++◌, ltb,
  ◌==◌, if◌then◌else◌,
}
use boreas.Prelude.Text.{is_empty}
use boreas.Prelude.Int.{ℤ, pos, negsuc}
use boreas.Proxy.Registry.{Lock}
use boreas.Proxy.Registry.SiteMap.{key_eq}
use boreas.Proxy.Seconds.{format_seconds, parse_seconds}

abbrev pub lock_ttl : ℕ
lock_ttl = 24 * 3600

pub record Crypto : Type 0 where
  pub mac : String → List ℕ → List ℕ
  pub password_matches : String → String → Bool

-- What the lock sees of a request. A password is "" where the form has none.
pub record Visitor : Type 0 where
  pub cookie : Option (List ℕ)
  pub is_post : Bool
  pub password : String
  pub allowed : Bool
  pub now : ℕ

pub data Mood : Type 0 where
  calm wait wrong : Mood

-- `page` is the form, with its status; `signed_in` sets the cookie for the path of the lock, as long
-- as `lock_ttl`, and sends the browser to the same address.
pub data LockAnswer : Type 0 where
  admitted : LockAnswer
  page : ℕ → Mood → LockAnswer
  signed_in : List ℕ → String → LockAnswer

module _ (c : Crypto) where
  -- `at + "." + mac`
  unfoldable pub sign : Lock → ℕ → List ℕ
  unfolding format_seconds
  sign l expires = format_seconds expires ++ b'.' ∷ c.mac l.hash (format_seconds expires)

  -- `strings.Cut(value, ".")`, its first part
  unfoldable pub before_dot : List ℕ → List ℕ
  before_dot [] = []
  before_dot (a ∷ s) = let rest = before_dot s in if a == b'.' then [] else a ∷ rest

  abbrev valid_until : Lock → List ℕ → ℕ → Option ℤ → Bool
  valid_until l value now none = false
  valid_until l value now (some (negsuc n)) = false
  valid_until l value now (some (pos expires)) = ltb now expires && key_eq value (sign l expires)

  unfoldable pub valid : Lock → List ℕ → ℕ → Bool
  unfolding sign before_dot parse_seconds key_eq
  valid l value now = valid_until l value now (parse_seconds (before_dot value))

  abbrev pub has_valid_cookie : Lock → Visitor → Bool
  has_valid_cookie l v = elim v.cookie [ none ↦ false | some value ↦ valid l value v.now ]

  unfoldable pub admits : Lock → Visitor → LockAnswer
  unfolding valid sign
  admits l v =
      if has_valid_cookie l v
      then admitted
      else if v.is_post && not (is_empty v.password)
      then (if not v.allowed
          then page 429 wait
          else if c.password_matches l.hash v.password
          then signed_in (sign l (v.now + lock_ttl)) l.path
          else page 401 wrong)
      else page 401 calm
