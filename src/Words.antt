-- ===== src/Words.antt =====
-- The verification phrase of src/muse_agent_social/crypto/words.py. Parsing an identity and SHA-256
-- are parameters; bytes are numbers.
use muse_agent_social.Prelude.{
  ℕ, zero, suc, ◌≤◌, ◌<◌, String, Bool, true, false, not, ◌&&◌, ◌||◌, Option, none, some, List, [],
  ◌∷◌, ◌++◌, ◌≡◌, refl, ap, arith, Bool-cases, inl, inr, Option-cases, ltb, nat_eq, if◌then◌else◌,
  length, All,
}
use muse_agent_social.Prelude.Action.{Result, done, raised}

pub data WordsFault : Type 0 where
  value_error index_error : WordsFault

abbrev verify_domain : List ℕ
verify_domain =
    109 ∷ 117 ∷ 115 ∷ 101 ∷ 45 ∷ 97 ∷ 103 ∷ 101 ∷ 110 ∷ 116 ∷ 45 ∷ 115 ∷ 111 ∷ 99 ∷ 105 ∷ 97 ∷ 108
    ∷ 47 ∷ 118 ∷ 101 ∷ 114 ∷ 105 ∷ 102 ∷ 121 ∷ 45 ∷ 118 ∷ 49 ∷ []

abbrev pub wordlist_size : ℕ
wordlist_size = 256

abbrev pub phrase_len : ℕ
phrase_len = 8

-- `<=` of bytes: lexicographic and unsigned.
unfoldable pub bytes_le : List ℕ → List ℕ → Bool
bytes_le [] ys = true
bytes_le (x ∷ xs) [] = false
bytes_le (x ∷ xs) (y ∷ ys) = let rest = bytes_le xs ys in ltb x y || (nat_eq x y && rest)

-- `words[b]`
abbrev get_elem? : List String → ℕ → Option String
get_elem? [] n = none
get_elem? (w ∷ ws) zero = some w
get_elem? (w ∷ ws) (suc n) = get_elem? ws n

abbrev take : ℕ → List ℕ → List ℕ
take zero bs = []
take (suc n) [] = []
take (suc n) (b ∷ bs) = b ∷ take n bs

abbrev prepend : String → Result WordsFault (List String) → Result WordsFault (List String)
prepend w (done ws) = done (w ∷ ws)
prepend w (raised e) = raised e

abbrev put_first : Option String → Result WordsFault (List String) → Result WordsFault (List String)
put_first none rest = raised index_error
put_first (some w) rest = prepend w rest

-- `[words[b] for b in digest]`
unfoldable pub look_up : List String → List ℕ → Result WordsFault (List String)
look_up words [] = done []
look_up words (b ∷ bs) = let rest = look_up words bs in put_first (get_elem? words b) rest

module _ (parse_identity_id : String → Option (List ℕ)) (sha256 : List ℕ → List ℕ) where
  unfoldable pub phrase_of : List String → List ℕ → List ℕ → Result WordsFault (List String)
  unfolding bytes_le look_up
  phrase_of words key_a key_b =
      let ordered = if bytes_le key_a key_b then key_a ++ key_b else key_b ++ key_a in
      look_up words (take phrase_len (sha256 (verify_domain ++ ordered)))

  abbrev phrase_from :
      List String → Option (List ℕ) → Option (List ℕ) → Result WordsFault (List String)
  phrase_from words none b = raised value_error
  phrase_from words (some key_a) none = raised value_error
  phrase_from words (some key_a) (some key_b) = phrase_of words key_a key_b

  unfoldable pub verification_phrase :
      String → String → List String → Result WordsFault (List String)
  verification_phrase identity_id_a identity_id_b words =
      if not (nat_eq (length words) wordlist_size)
      then raised value_error
      else phrase_from words (parse_identity_id identity_id_a) (parse_identity_id identity_id_b)

bytes_le-antisym : (xs ys : List ℕ) → bytes_le xs ys ≡ true → bytes_le ys xs ≡ true → xs ≡ ys
unfolding bytes_le
bytes_le-antisym [] [] h k = refl
bytes_le-antisym [] (y ∷ ys) h k = ground (arith, k)
bytes_le-antisym (x ∷ xs) [] h k = ground (arith, h)
bytes_le-antisym (x ∷ xs) (y ∷ ys) h k =
    let head : x ≡ y = ground (arith, h, k) in
    let tail : xs ≡ ys =
      bytes_le-antisym xs ys (ground (arith, h, head)) (ground (arith, k, head)) in
    rw (head, tail) refl

bytes_le-total : (xs ys : List ℕ) → bytes_le xs ys ≡ false → bytes_le ys xs ≡ true
unfolding bytes_le
bytes_le-total [] ys h = ground (arith, h)
bytes_le-total (x ∷ xs) [] h = refl
bytes_le-total (x ∷ xs) (y ∷ ys) h = ground (arith, h, bytes_le-total xs ys)

get_elem?-found :
    (words : List String) (n : ℕ) → n < length words → (w : String) × (get_elem? words n ≡ some w)
get_elem?-found [] n h = ground (arith, h)
get_elem?-found (w ∷ ws) zero h = (w, refl)
get_elem?-found (w ∷ ws) (suc n) h = get_elem?-found ws n (omega (arith, h))

look_up-done :
    (words : List String) (bs : List ℕ)
    → All (λ b. b < length words) bs
    → (ws : List String) × (look_up words bs ≡ done ws) × (length ws ≡ length bs)
unfolding look_up
look_up-done words [] h = ([], refl, refl)
look_up-done words (b ∷ bs) h =
    let (w, found) = get_elem?-found words b h.0 in
    let (ws, rest, len) = look_up-done words bs h.1 in (w ∷ ws, rw (found, rest) refl, rw len refl)

take-All : (P : ℕ → Type 0) (n : ℕ) (bs : List ℕ) → All P bs → All P (take n bs)
take-All P zero bs h = tt
take-All P (suc n) [] h = tt
take-All P (suc n) (b ∷ bs) h = (h.0, take-All P n bs h.1)

length-take : (n : ℕ) (bs : List ℕ) → n ≤ length bs → length (take n bs) ≡ n
length-take zero bs h = refl
length-take (suc n) [] h = ground (arith, h)
length-take (suc n) (b ∷ bs) h = ap suc (length-take n bs (omega (arith, h)))

module _ (parse_identity_id : String → Option (List ℕ)) (sha256 : List ℕ → List ℕ) where
  phrase_of_comm :
      (words : List String) (x y : List ℕ)
      → phrase_of parse_identity_id sha256 words x y ≡ phrase_of parse_identity_id sha256 words y x
  unfolding phrase_of
  phrase_of_comm words x y = elim (Bool-cases (bytes_le x y)) [
    | inl e ↦ elim (Bool-cases (bytes_le y x)) [
      | inl f ↦ rw (bytes_le-antisym x y e f) refl
      | inr f ↦ rw (e, f) refl
    ]
    | inr e ↦ rw (e, bytes_le-total x y e) refl
  ]

  -- Both agents compute the same phrase, whichever of the two identities each of them names first,
  -- and for any wordlist: also the refusal of a bad wordlist or a malformed identity is the same.
  pub verification_phrase_comm :
      (a b : String) (words : List String)
      → verification_phrase parse_identity_id sha256 a b words
        ≡ verification_phrase parse_identity_id sha256 b a words
  unfolding verification_phrase
  verification_phrase_comm a b words = elim (Option-cases (parse_identity_id a)) [
    | inl e ↦ elim (Option-cases (parse_identity_id b)) [
      | inl f ↦ rw (e, f) refl
      | inr (y, f) ↦ rw (e, f) refl
    ]
    | inr (x, e) ↦ elim (Option-cases (parse_identity_id b)) [
      | inl f ↦ rw (e, f) refl
      | inr (y, f) ↦ rw (e, f, phrase_of_comm words x y) refl
    ]
  ]

  -- Two identities that parse have a phrase of eight words under a list of 256, given of the digest
  -- only that it is of bytes and has eight of them at least: no index is out of range.
  pub verification_phrase-length :
      (a b : String) (x y : List ℕ) (words : List String)
      → length words ≡ wordlist_size
      → parse_identity_id a ≡ some x
      → parse_identity_id b ≡ some y
      → ((m : List ℕ) → All (λ d. d < 256) (sha256 m))
      → ((m : List ℕ) → phrase_len ≤ length (sha256 m))
      → (ws : List String) × (verification_phrase parse_identity_id sha256 a b words ≡ done ws)
        × (length ws ≡ phrase_len)
  unfolding verification_phrase phrase_of
  verification_phrase-length a b x y words size pa pb digit long =
      let m = verify_domain ++ (if bytes_le x y then x ++ y else y ++ x) in
      let (ws, e, len) =
        look_up-done words (take phrase_len (sha256 m))
          (take-All (λ d. d < length words) phrase_len (sha256 m) (rw size (digit m))) in
      (ws, rw (pa, pb, size, e) refl, rw (len, length-take phrase_len (sha256 m) (long m)) refl)
