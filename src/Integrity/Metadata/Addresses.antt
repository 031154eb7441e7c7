-- ===== src/Integrity/Metadata/Addresses.antt =====
-- The texts that the pattern of `isValidIP` matches.
use proof_stell_backend.Common.{
  ℕ, zero, suc, ◌+◌, ◌-◌, ◌≤◌, ◌<◌, ◌≡◌, ◌↔◌, refl, ap, sym, ◌∙◌, String, true, List, [], ◌∷◌, ◌++◌,
  length, arith, All, Bool-cases, inl, inr,
}
use proof_stell_backend.Integrity.Metadata.{codes, is_digit, match_parts, is_valid_ip}

-- One to three digits, or what is left of them after the first `seen`.
pub record IsPart (seen : ℕ) (p : List ℕ) : Type 0 where
  pub digits : All (λ c. is_digit c ≡ true) p
  pub least : 1 ≤ seen + length p
  pub most : seen + length p ≤ 3

-- `dots` more parts, each after a dot, follow a part of which `seen` digits are gone.
pub data Dotted : ℕ → ℕ → List ℕ → Type 0 where
  last : {seen : ℕ} {p : List ℕ} → IsPart seen p → Dotted 0 seen p
  part :
      {dots seen : ℕ} {p rest : List ℕ}
      → IsPart seen p
      → Dotted dots 0 rest
      → Dotted (suc dots) seen (p ++ 46 ∷ rest)

Dotted-digit :
    (dots seen c : ℕ) (cs : List ℕ)
    → is_digit c ≡ true
    → seen < 3
    → Dotted dots (suc seen) cs
    → Dotted dots seen (c ∷ cs)
Dotted-digit zero seen c cs d lt (last p) =
    last (record { digits = (d, p.digits); least = omega arith; most = omega (arith, p.most) })
Dotted-digit (suc dots) seen c cs d lt (part {p} p' rest) =
    part {p = c ∷ p}
      (record { digits = (d, p'.digits); least = omega arith; most = omega (arith, p'.most) }) rest

pred_suc : (n : ℕ) → n ≡ suc n - 1
pred_suc n = omega arith

Dotted-dot :
    (dots seen c : ℕ) (cs : List ℕ)
    → c ≡ 46
    → 1 ≤ seen
    → 1 ≤ dots
    → seen ≤ 3
    → Dotted (dots - 1) 0 cs
    → Dotted dots seen (c ∷ cs)
Dotted-dot zero seen c cs e s d h rest = absurd (omega arith)
Dotted-dot (suc dots) seen c cs e s d h rest = rw e (
    part {p = []} (record { digits = tt; least = omega arith; most = omega arith })
      (rw (pred_suc dots) rest))

match_parts-Dotted :
    (dots seen : ℕ) (cs : List ℕ) → match_parts dots seen cs ≡ true → seen ≤ 3 → Dotted dots seen cs
unfolding match_parts
match_parts-Dotted zero seen [] e h =
    last (record { digits = tt; least = ground (arith, e); most = ground (arith, h) })
match_parts-Dotted (suc dots) seen [] e h = absurd (ground (arith, e))
match_parts-Dotted dots seen (c ∷ cs) e h = elim (Bool-cases (is_digit c)) [
  | inl d ↦
      Dotted-digit dots seen c cs d (ground (arith, d, e))
        (match_parts-Dotted dots (suc seen) cs (ground (arith, d, e)) (ground (arith, d, e)))
  | inr n ↦
      Dotted-dot dots seen c cs (ground (arith, n, e)) (ground (arith, n, e)) (ground (arith, n, e))
        h (match_parts-Dotted (dots - 1) 0 cs (ground (arith, n, e)) (omega arith))
]

match_parts-append :
    (dots seen : ℕ) (p rest : List ℕ)
    → All (λ c. is_digit c ≡ true) p
    → seen + length p ≤ 3
    → match_parts dots seen (p ++ rest) ≡ match_parts dots (seen + length p) rest
unfolding match_parts
match_parts-append dots seen [] rest d h = ap (λ n. match_parts dots n rest) (omega arith)
match_parts-append dots seen (c ∷ p) rest (d, ds) h =
    let further : match_parts dots (suc seen) (p ++ rest)
        ≡ match_parts dots (suc seen + length p) rest =
      match_parts-append dots (suc seen) p rest ds (omega arith) in
    let same : suc seen + length p ≡ seen + suc (length p) = omega arith in
    ground (arith, d, h) ∙ further ∙ ap (λ n. match_parts dots n rest) same

append-nil : (xs : List ℕ) → xs ++ [] ≡ xs
append-nil [] = refl
append-nil (x ∷ xs) = ap (◌∷◌ x) (append-nil xs)

Dotted-match_parts :
    (dots seen : ℕ) (cs : List ℕ) → Dotted dots seen cs → match_parts dots seen cs ≡ true
unfolding match_parts
Dotted-match_parts zero seen cs (last p) =
    ap (match_parts 0 seen) (sym (append-nil cs))
    ∙ match_parts-append 0 seen cs [] p.digits p.most
    ∙ ground (arith, p.least)
Dotted-match_parts (suc dots) seen cs (part {p} {rest} p' d) =
    let more : match_parts (suc dots - 1) 0 rest ≡ true =
      ap (λ n. match_parts n 0 rest) (sym (pred_suc dots)) ∙ Dotted-match_parts dots 0 rest d in
    match_parts-append (suc dots) seen p (46 ∷ rest) p'.digits p'.most
    ∙ ground (arith, p'.least, more)

-- `isValidIP` accepts exactly the texts of four parts with a dot between two parts, each of one to
-- three digits; a part may be larger than 255.
pub is_valid_ip-Dotted_iff : (ip : String) → (is_valid_ip ip ≡ true) ↔ Dotted 3 0 (codes ip)
unfolding is_valid_ip
is_valid_ip-Dotted_iff ip = (
  λ e. match_parts-Dotted 3 0 (codes ip) e (omega arith),
  λ d. Dotted-match_parts 3 0 (codes ip) d,
)
