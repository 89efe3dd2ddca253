-- ===== src/Bora/Aid.antt =====
-- What the assistant asks of code outside this development: Go's regexp and case folding, whether a
-- user store is wired, and the code search of `core.CodeIndex`, which may give any answer to any call.
use boreas.Prelude.{ℕ, String, Bool, Option, List}
use boreas.Prelude.Int.{ℤ}
use boreas.Core.Errors.{Err, Result}
use boreas.Core.Model.{Time}

pub record CodeMatch : Type 0 where
  pub repo : String
  pub path : String
  pub line : ℤ
  pub snippet : String

pub record CodeFile : Type 0 where
  pub repo : String
  pub path : String
  pub content : String
  pub url : String

pub record Commit : Type 0 where
  pub hash : String
  pub date : String
  pub author : String
  pub subject : String
  pub refs : String

pub record CodeChange : Type 0 where
  pub path : String
  pub status : String
  pub body : String
  pub added : ℤ
  pub removed : ℤ

pub record BlameRange : Type 0 where
  pub start : ℤ
  pub lines : ℤ
  pub commit : Commit

-- The arguments are a call's number, the project, and what the method takes after it.
pub record CodeIndex : Type 0 where
  pub has : ℕ → List String → List Bool
  pub search : ℕ → String → String → Result Err (List CodeMatch)
  pub read : ℕ → String → String → String → String → Result Err CodeFile
  pub commits : ℕ → String → String → String → String → String → Result Err (List Commit × ℤ)
  pub diff : ℕ → String → String → String → String → String → Result Err (List CodeChange)
  pub blame : ℕ → String → String → String → String → Result Err (List BlameRange)
  pub ask : ℕ → String → String → Result Err String

pub record Aid : Type 0 where
  -- `regexp.MustCompile(pattern).ReplaceAllString(text, with)`
  pub replace_all : String → String → String → String
  -- `strings.EqualFold`
  pub equal_fold : String → String → Bool
  -- `TaskService.Logs`, if it is wired: a call's number, the project, the task, the lines and since when.
  pub logs : Option (ℕ → String → String → ℤ → Option Time → Result Err String)
  -- `time.Parse(time.RFC3339, text)`, `none` where it fails.
  pub parse_time : String → Option Time
  -- `t.Format(time.RFC3339)`
  pub rfc3339 : Time → String
  -- `%q` of Go's fmt
  pub quote : String → String
  -- `%d` of Go's fmt
  pub decimal : ℤ → String
  -- Whether `ProjectService.Users` is wired.
  pub has_users : Bool
  -- `ProjectService.Code`, if it is wired.
  pub code : Option CodeIndex
