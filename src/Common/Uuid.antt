-- ===== src/Common/Uuid.antt =====
-- src/common/utils/uuid.util.ts: `isValidUuid`, the regular expression
-- /^[0-9a-f]{8}-[0-9a-f]{4}-[1-8][0-9a-f]{3}-[89ab][0-9a-f]{3}-[0-9a-f]{12}$/i
-- as a list of character classes, one for each position.
use Prim.Native.Char.{Char, code}
use collabai_backend.Prelude.{
  ℕ, zero, suc, String, Bool, true, false, ◌&&◌, ◌||◌, List, [], ◌∷◌, ◌++◌, leb, ◌==◌,
  if◌then◌else◌, ◌≡◌, refl, ◌⊎◌, inl, inr, ◌≤◌, ◌+◌, Bool-cases, arith,
}

abbrev codes : String → List ℕ
codes String.[] = []
codes (String.◌∷◌ c s) = code c ∷ codes s

-- Under the flag `i` a letter class takes both cases.
abbrev hex : ℕ → Bool
hex c = (leb b'0' c && leb c b'9') || (leb b'a' c && leb c b'f') || (leb b'A' c && leb c b'F')

abbrev dash : ℕ → Bool
dash c = c == b'-'

abbrev version : ℕ → Bool
version c = leb b'1' c && leb c b'8'

abbrev variant : ℕ → Bool
variant c = c == b'8' || c == b'9' || c == b'a' || c == b'b' || c == b'A' || c == b'B'

repeat : ℕ → (ℕ → Bool) → List (ℕ → Bool)
repeat zero p = []
repeat (suc n) p = p ∷ repeat n p

pattern_of_uuid : List (ℕ → Bool)
unfolding repeat
pattern_of_uuid =
    repeat 8 hex
    ++ (dash ∷ repeat 4 hex)
    ++ (dash ∷ version ∷ repeat 3 hex)
    ++ (dash ∷ variant ∷ repeat 3 hex)
    ++ (dash ∷ repeat 12 hex)

-- Anchored at both ends: as many characters as classes.
matches : List (ℕ → Bool) → List ℕ → Bool
matches [] [] = true
matches [] (c ∷ cs) = false
matches (p ∷ ps) [] = false
matches (p ∷ ps) (c ∷ cs) = p c && matches ps cs

-- What a column of the type uuid (`@db.Uuid` in prisma/schema.prisma) holds of such a text and gives
-- back. PostgreSQL documents that it takes digits of both cases, and prints them in lower case.
lower_digit : Char → Char
lower_digit c =
    if code c == b'A'
    then "a"
    else if code c == b'B'
    then "b"
    else if code c == b'C'
    then "c"
    else if code c == b'D'
    then "d"
    else if code c == b'E'
    then "e"
    else if code c == b'F'
    then "f"
    else c

unfoldable pub uuid : String → String
unfolding lower_digit
uuid String.[] = String.[]
uuid (String.◌∷◌ c s) = String.◌∷◌ (lower_digit c) (uuid s)

step :
    (c d : Char)
    → lower_digit d ≡ d
    → lower_digit c ≡ d
    → lower_digit (lower_digit c) ≡ lower_digit c
step c d fixed is = rw is fixed

lower_digit-lower_digit : (c : Char) → lower_digit (lower_digit c) ≡ lower_digit c
unfolding lower_digit
lower_digit-lower_digit c = elim (Bool-cases (code c == b'A')) [
  | inl h1 ↦ step c "a" refl (ground arith)
  | inr h1 ↦ elim (Bool-cases (code c == b'B')) [
    | inl h2 ↦ step c "b" refl (ground arith)
    | inr h2 ↦ elim (Bool-cases (code c == b'C')) [
      | inl h3 ↦ step c "c" refl (ground arith)
      | inr h3 ↦ elim (Bool-cases (code c == b'D')) [
        | inl h4 ↦ step c "d" refl (ground arith)
        | inr h4 ↦ elim (Bool-cases (code c == b'E')) [
          | inl h5 ↦ step c "e" refl (ground arith)
          | inr h5 ↦ elim (Bool-cases (code c == b'F')) [
            | inl h6 ↦ step c "f" refl (ground arith)
            | inr h6 ↦ step c c (ground arith) (ground arith)
          ]
        ]
      ]
    ]
  ]
]

-- The letters A to F are moved by 32, and nothing else is.
Lowered : Char → Char → Type 0
Lowered c d = (d ≡ c) ⊎ ((65 ≤ code c) × (code c ≤ 70) × (code d ≡ code c + 32))

shifted :
    (c d : Char)
    → 65 ≤ code c
    → code c ≤ 70
    → code d ≡ code c + 32
    → lower_digit c ≡ d
    → Lowered c (lower_digit c)
unfolding Lowered
shifted c d low high moved is = rw is (inr (low, high, moved))

lower_digit-cases : (c : Char) → Lowered c (lower_digit c)
unfolding lower_digit Lowered
lower_digit-cases c = elim (Bool-cases (code c == b'A')) [
  | inl h1 ↦ shifted c "a" (ground arith) (ground arith) (ground arith) (ground arith)
  | inr h1 ↦ elim (Bool-cases (code c == b'B')) [
    | inl h2 ↦ shifted c "b" (ground arith) (ground arith) (ground arith) (ground arith)
    | inr h2 ↦ elim (Bool-cases (code c == b'C')) [
      | inl h3 ↦ shifted c "c" (ground arith) (ground arith) (ground arith) (ground arith)
      | inr h3 ↦ elim (Bool-cases (code c == b'D')) [
        | inl h4 ↦ shifted c "d" (ground arith) (ground arith) (ground arith) (ground arith)
        | inr h4 ↦ elim (Bool-cases (code c == b'E')) [
          | inl h5 ↦ shifted c "e" (ground arith) (ground arith) (ground arith) (ground arith)
          | inr h5 ↦ elim (Bool-cases (code c == b'F')) [
            | inl h6 ↦ shifted c "f" (ground arith) (ground arith) (ground arith) (ground arith)
            | inr h6 ↦ inl (ground arith)
          ]
        ]
      ]
    ]
  ]
]

IsCaseless : (ℕ → Bool) → Type 0
IsCaseless p = (c : Char) → p (code (lower_digit c)) ≡ p (code c)

hex-IsCaseless : IsCaseless hex
unfolding IsCaseless Lowered
hex-IsCaseless c = ground (arith, lower_digit-cases c)

dash-IsCaseless : IsCaseless dash
unfolding IsCaseless Lowered
dash-IsCaseless c = ground (arith, lower_digit-cases c)

version-IsCaseless : IsCaseless version
unfolding IsCaseless Lowered
version-IsCaseless c = ground (arith, lower_digit-cases c)

variant-IsCaseless : IsCaseless variant
unfolding IsCaseless Lowered
variant-IsCaseless c = ground (arith, lower_digit-cases c)

AllCaseless : List (ℕ → Bool) → Type 0
AllCaseless [] = Unit
AllCaseless (p ∷ ps) = IsCaseless p × AllCaseless ps

pattern-AllCaseless : AllCaseless pattern_of_uuid
unfolding AllCaseless pattern_of_uuid repeat
pattern-AllCaseless =
    let h = hex-IsCaseless in
    let d = dash-IsCaseless in
    let v = version-IsCaseless in
    let w = variant-IsCaseless in
    (
      h,
      (
        h,
        (
          h,
          (
            h,
            (
              h,
              (
                h,
                (
                  h,
                  (
                    h,
                    (
                      d,
                      (
                        h,
                        (
                          h,
                          (
                            h,
                            (
                              h,
                              (
                                d,
                                (
                                  v,
                                  (
                                    h,
                                    (
                                      h,
                                      (
                                        h,
                                        (
                                          d,
                                          (
                                            w,
                                            (
                                              h,
                                              (
                                                h,
                                                (
                                                  h,
                                                  (
                                                    d,
                                                    (
                                                      h,
                                                      (
                                                        h,
                                                        (
                                                          h,
                                                          (
                                                            h,
                                                            (
                                                            h,
                                                            (h, (h, (h, (h, (h, (h, (h, tt))))))),
                                                            ),
                                                          ),
                                                        ),
                                                      ),
                                                    ),
                                                  ),
                                                ),
                                              ),
                                            ),
                                          ),
                                        ),
                                      ),
                                    ),
                                  ),
                                ),
                              ),
                            ),
                          ),
                        ),
                      ),
                    ),
                  ),
                ),
              ),
            ),
          ),
        ),
      ),
    )

matches-uuid :
    (ps : List (ℕ → Bool)) (s : String)
    → AllCaseless ps
    → matches ps (codes (uuid s)) ≡ matches ps (codes s)
unfolding matches uuid AllCaseless IsCaseless
matches-uuid [] String.[] h = refl
matches-uuid [] (String.◌∷◌ c s) h = refl
matches-uuid (p ∷ ps) String.[] h = refl
matches-uuid (p ∷ ps) (String.◌∷◌ c s) (same, h) = rw (same c, matches-uuid ps s h) refl

pub uuid-uuid : (s : String) → uuid (uuid s) ≡ uuid s
unfolding uuid
uuid-uuid String.[] = refl
uuid-uuid (String.◌∷◌ c s) = rw (lower_digit-lower_digit c, uuid-uuid s) refl

unfoldable pub is_valid_uuid : String → Bool
unfolding pattern_of_uuid matches
is_valid_uuid val = matches pattern_of_uuid (codes val)

-- The case of the letters is nothing to the pattern.
pub is_valid_uuid-uuid : (s : String) → is_valid_uuid (uuid s) ≡ is_valid_uuid s
unfolding is_valid_uuid
is_valid_uuid-uuid s = matches-uuid pattern_of_uuid s pattern-AllCaseless
