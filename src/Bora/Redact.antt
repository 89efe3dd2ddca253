-- ===== src/Bora/Redact.antt =====
-- `secrets` and `Redact` of internal/core/core.go. Each regular expression is its text; what matches it
-- is Go's regexp, a parameter.
use boreas.Prelude.{String, List, [], ◌∷◌}

abbrev pub secrets : List (String × String)
secrets =
    ("(?s)-----BEGIN [A-Z ]*PRIVATE KEY-----.*?-----END [A-Z ]*PRIVATE KEY-----", "[redacted]")
    ∷ (
      "(?m)(?:^(?:\\S+ )?[A-Za-z0-9+/=]+\\r?\\n)+(?:\\S+ )?-----END [A-Z ]*PRIVATE KEY-----",
      "[redacted]",
    )
    ∷ (
      "(?i)([\\w.-]*(?:password|passwd|pwd|secret|token|key|credential)[\\w.-]*[\"']?\\s*(?::=|=>|[:=])\\s*)(?:\"[^\"\\n]*\"|'[^'\\n]*')",
      "${1}\"[redacted]\"",
    )
    ∷ (
      "(?i)\\b([\\w.-]*(?:password|passwd|pwd|secret|token|key)[\\w.-]*(?:[ \\t]*=[ \\t]*|:[ \\t]*))[^\\s\"'=][^\\s,;]*",
      "${1}[redacted]",
    )
    ∷ (
      "(?i)(--?[\\w.-]*(?:password|passwd|pwd|secret|token|key)[\\w.-]*(?:[ \\t]+|[\"']\\s*,\\s*))(?:\"[^\"\\n]*\"|'[^'\\n]*'|[^\\s\"'-]\\S*)",
      "${1}[redacted]",
    )
    ∷ (
      "(?i)(authorization[\"']?\\s*[:=]\\s*[\"']?(?:(?:basic|bearer|digest|token)\\s+)?)[^\\s\"',;]+",
      "${1}[redacted]",
    )
    ∷ ("(?i)\\b(bearer\\s+)[\\w.~+/=-]{16,}", "${1}[redacted]")
    ∷ ("(?i)([;\"']\\s*(?:password|pwd)\\s*=\\s*)[^;\"'\\n]+", "${1}[redacted]")
    ∷ ("(://[^:/\\s\"'@]*:)[^@/\\s\"']+@", "${1}[redacted]@")
    ∷ (
      "\\b(?:AKIA[0-9A-Z]{16}|[sr]k_(?:live|test)_[0-9A-Za-z]{16,}|sk-[\\w-]{20,}|gh[pousr]_[A-Za-z0-9]{36,}|xox[abprs]-[\\w-]{10,}|AIza[\\w-]{35}|eyJ[\\w-]{10,}\\.eyJ[\\w-]{10,}\\.[\\w-]{10,})",
      "[redacted]",
    )
    ∷ []

-- `replace pattern with text` is `regexp.MustCompile(pattern).ReplaceAllString(text, with)`.
pub redact_with : List (String × String) → (String → String → String → String) → String → String
redact_with [] replace text = text
redact_with ((re, template) ∷ rest) replace text =
    redact_with rest replace (replace re template text)

unfoldable pub redact : (String → String → String → String) → String → String
unfolding redact_with
redact replace text = redact_with secrets replace text
