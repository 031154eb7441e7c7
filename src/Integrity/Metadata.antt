-- ===== src/Integrity/Metadata.antt =====
-- validateMetadata of interfaces/game-sessions/session-integrity.service.ts, with isValidIP and
-- isSuspiciousUserAgent. The two regular expressions are run over the codes of the characters.
pub mod Addresses
use Prim.Native.Char.{code}
use proof_stell_backend.Common.{
  ℕ, zero, suc, ◌+◌, ◌-◌, String, Bool, true, false, Option, none, some, List, [], ◌∷◌, ◌++◌,
  if◌then◌else◌, ltb, leb, ◌==◌, ◌===◌, ◌&&◌, ◌||◌, not, length, some_of,
}
use proof_stell_backend.Common.Int.{ℤ, pos, negsuc, ltb_ℤ}
use proof_stell_backend.Integrity.{
  SessionMetadata, GameSession, IntegrityCheckResult, result, passed, failed, low, medium,
  metadata_validation, or_else,
}

unfoldable pub codes : String → List ℕ
codes String.[] = []
codes (String.◌∷◌ c s) = code c ∷ codes s

-- \d
abbrev pub is_digit : ℕ → Bool
is_digit c = leb 48 c && leb c 57

-- The rest of (\d{1,3}\.){dots}\d{1,3}$ after `digits` digits of the current part.
unfoldable pub match_parts : ℕ → ℕ → List ℕ → Bool
match_parts dots digits [] = dots == 0 && ltb 0 digits
match_parts dots digits (c ∷ cs) =
    let more = match_parts dots (suc digits) cs in
    let next = match_parts (dots - 1) 0 cs in
    if is_digit c then ltb digits 3 && more else (c == 46 && (ltb 0 digits && ltb 0 dots)) && next

-- private isValidIP
unfoldable pub is_valid_ip : String → Bool
is_valid_ip ip = match_parts 3 0 (codes ip)

-- The letters A to Z as a to z, as the flag `i` compares them with ASCII letters
abbrev pub fold_case : ℕ → ℕ
fold_case c = if leb 65 c && leb c 90 then c + 32 else c

unfoldable pub begins_with : List ℕ → List ℕ → Bool
begins_with [] text = true
begins_with (p ∷ ps) [] = false
begins_with (p ∷ ps) (c ∷ cs) = fold_case c == p && begins_with ps cs

unfoldable pub occurs_in : List ℕ → List ℕ → Bool
occurs_in pattern [] = begins_with pattern []
occurs_in pattern (c ∷ cs) = begins_with pattern (c ∷ cs) || occurs_in pattern cs

abbrev pub suspicious_patterns : List String
suspicious_patterns =
    "bot" ∷ "crawler" ∷ "spider" ∷ "scraper" ∷ "automated" ∷ "headless" ∷ "phantom" ∷ "selenium"
    ∷ []

-- private isSuspiciousUserAgent
unfoldable pub is_suspicious_user_agent : String → Bool
is_suspicious_user_agent agent =
    some_of (λ p. occurs_in (codes p) (codes agent)) suspicious_patterns

pub data MetadataIssue : Type 0 where
  missing_user_agent missing_ip_address invalid_ip_address suspicious_user_agent : MetadataIssue
  negative_hints invalid_attempts : MetadataIssue

-- A text that is missing or empty is falsy.
abbrev pub text_of : Option String → String
text_of none = ""
text_of (some s) = s

abbrev pub metadata_of : GameSession → SessionMetadata
metadata_of s = elim s.metadata [
  | none ↦ record { user_agent = none; ip_address = none; hints = none; attempts = none }
  | some m ↦ m
]

-- if (condition) issues.push(issue)
abbrev pub issue_if : Bool → MetadataIssue → List MetadataIssue
issue_if b i = if b then i ∷ [] else []

-- The list `issues` of validateMetadata
unfoldable pub metadata_issues : SessionMetadata → List MetadataIssue
metadata_issues m =
    let agent = text_of m.user_agent in
    let ip = text_of m.ip_address in
    issue_if (agent === "") missing_user_agent
    ++ issue_if (ip === "") missing_ip_address
    ++ issue_if (not (ip === "") && not (is_valid_ip ip)) invalid_ip_address
    ++ issue_if (not (agent === "") && is_suspicious_user_agent agent) suspicious_user_agent
    ++ issue_if (ltb_ℤ (or_else m.hints (pos 0)) (pos 0)) negative_hints
    ++ issue_if (ltb_ℤ (or_else m.attempts (pos 1)) (pos 1)) invalid_attempts

-- private validateMetadata
unfoldable pub validate_metadata : GameSession → IntegrityCheckResult
validate_metadata session =
    if ltb 0 (length (metadata_issues (metadata_of session)))
    then result metadata_validation failed medium
    else result metadata_validation passed low
