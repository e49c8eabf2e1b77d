-- ===== src/Tests/Phrase.antt =====
-- The verification phrase of two short keys.
use muse_agent_social.Prelude.{
  ℕ, zero, suc, String, Option, none, some, List, [], ◌∷◌, ◌≡◌, refl, arith, ◌==◌, if◌then◌else◌,
  length,
}
use muse_agent_social.Prelude.Action.{done}
use muse_agent_social.Words.{
  verification_phrase, phrase_len, verification_phrase_comm, verification_phrase-length,
}

-- Each identity that is named "a" or "b" is a key of one byte.
abbrev parse : String → Option (List ℕ)
parse id = if id == "a" then some (1 ∷ []) else if id == "b" then some (2 ∷ []) else none

-- A digest of eight bytes.
abbrev digest : List ℕ → List ℕ
digest m = 0 ∷ 255 ∷ 3 ∷ 4 ∷ 5 ∷ 6 ∷ 7 ∷ 8 ∷ []

abbrev many : ℕ → List String
many zero = []
many (suc n) = "word" ∷ many n

verification_phrase_comm_example :
    verification_phrase parse digest "a" "b" (many 256)
    ≡ verification_phrase parse digest "b" "a" (many 256)
verification_phrase_comm_example = verification_phrase_comm parse digest "a" "b" (many 256)

verification_phrase-length_example :
    (ws : List String) × (verification_phrase parse digest "a" "b" (many 256) ≡ done ws)
    × (length ws ≡ phrase_len)
verification_phrase-length_example =
    verification_phrase-length parse digest "a" "b" (1 ∷ []) (2 ∷ []) (many 256) refl refl refl
      (λ m. (
        omega arith,
        (
          omega arith,
          (
            omega arith,
            (omega arith, (omega arith, (omega arith, (omega arith, (omega arith, tt))))),
          ),
        ),
      ))
      (λ m. omega arith)
