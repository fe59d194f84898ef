-- ===== src/Text/Token/Cutting.antt =====
-- Where `strtok` cuts a string, for a separator of one character.
use omb.Base.{
  ℕ, zero, suc, ◌+◌, ◌<◌, ◌≤◌, ◌≡◌, ◌≢◌, refl, ◌∙◌, sym, ap, subst, true, false, Option, none, some,
  List, [], ◌∷◌, arith, ◌==◌, has, length, if◌then◌else◌, Bool-cases, inl, inr, update,
}
use omb.Text.{Chars, from, strlen, strlen_loop, strncmp, strncmp_from}
use omb.Text.Write.{Spells}
use omb.Text.Token.{find_sep, skip_seps, Cut, cut_at, cut_from, strtok}

-- The word in front of the first separator, what is behind that separator, and what is left of a
-- text without the separators in front.
abbrev pub word_of : ℕ → List ℕ → List ℕ
word_of c [] = []
word_of c (x ∷ xs) = if x == c then [] else x ∷ word_of c xs

abbrev pub behind_word : ℕ → List ℕ → List ℕ
behind_word c [] = []
behind_word c (x ∷ xs) = if x == c then xs else behind_word c xs

abbrev pub strip : ℕ → List ℕ → List ℕ
strip c [] = []
strip c (x ∷ xs) = if x == c then strip c xs else x ∷ xs

strncmp_one :
    (str sep : Chars) (i c : ℕ) → sep 0 ≡ c → c ≢ 0 → strncmp (from str i) sep 1 ≡ (str i == c)
unfolding strncmp strncmp_from
strncmp_one str sep i c e nz =
    let here : str (i + 0) ≡ str i = ap str (omega arith) in ground (arith, here, e)

module _ (sep : Chars) (c : ℕ) (one : sep 0 ≡ c) (nz : c ≢ 0) where
  find_sep_lem :
      (xs : List ℕ) (f : ℕ) (str : Chars) (i : ℕ)
      → Spells str i xs
      → length xs < f
      → find_sep f str sep 1 i ≡ some (i + length (word_of c xs))
  unfolding find_sep
  find_sep_lem xs zero str i h lt = absurd (omega arith)
  find_sep_lem [] (suc f) str i h lt =
      let end : (str i == 0) ≡ true = ground (arith, h) in
      rw (find_sep, end) (ap some (omega arith))
  find_sep_lem (x ∷ xs) (suc f) str i h lt =
      let on : (str i == 0) ≡ false = ground (arith, h.0, h.1) in
      elim (Bool-cases (x == c)) [
        | inl e ↦
            let hit : strncmp (from str i) sep 1 ≡ true =
              strncmp_one str sep i c one nz ∙ ground (arith, h.0) in
            rw (find_sep, on, hit, e) (ap some (omega arith))
        | inr e ↦
            let miss : strncmp (from str i) sep 1 ≡ false =
              strncmp_one str sep i c one nz ∙ ground (arith, h.0) in
            rw (find_sep, on, miss, e)
              (find_sep_lem xs f str (i + 1) h.2 (omega arith) ∙ ap some (omega arith))
      ]

  skip_seps_lem :
      (xs : List ℕ) (f : ℕ) (str : Chars) (i : ℕ)
      → Spells str i xs
      → length xs < f
      → (j : ℕ) × (skip_seps f str sep 1 i ≡ some j) × Spells str j (strip c xs)
  unfolding skip_seps
  skip_seps_lem xs zero str i h lt = absurd (omega arith)
  skip_seps_lem [] (suc f) str i h lt =
      let end : (str i == 0) ≡ true = ground (arith, h) in (i, rw (skip_seps, end) refl, h)
  skip_seps_lem (x ∷ xs) (suc f) str i h lt =
      let on : (str i == 0) ≡ false = ground (arith, h.0, h.1) in
      elim (Bool-cases (x == c)) [
        | inl e ↦
            let hit : strncmp (from str i) sep 1 ≡ true =
              strncmp_one str sep i c one nz ∙ ground (arith, h.0) in
            let (j, r, t) = skip_seps_lem xs f str (i + 1) h.2 (omega arith) in
            (j, rw (skip_seps, on, hit) r, rw e t)
        | inr e ↦
            let miss : strncmp (from str i) sep 1 ≡ false =
              strncmp_one str sep i c one nz ∙ ground (arith, h.0) in
            (i, rw (skip_seps, on, miss) refl, rw e h)
      ]

Spells-update :
    (xs : List ℕ) (str : Chars) (p i : ℕ) → p < i → Spells str i xs → Spells (update str p 0) i xs
Spells-update [] str p i lt h = ground (arith, h)
Spells-update (x ∷ xs) str p i lt h =
    (ground (arith, h.0), h.1, Spells-update xs str p (i + 1) (omega arith) h.2)

-- With a 0 in place of the separator, the word is a string.
word-Spells :
    (c : ℕ) (xs : List ℕ) (str : Chars) (i : ℕ)
    → Spells str i xs
    → Spells (update str (i + length (word_of c xs)) 0) i (word_of c xs)
word-Spells c [] str i h = ground arith
word-Spells c (x ∷ xs) str i h = elim (Bool-cases (x == c)) [
  | inl e ↦ rw e (ground arith)
  | inr e ↦ rw e (
    ground (arith, h.0),
    h.1,
    subst (λ (p : ℕ). Spells (update str p 0) (i + 1) (word_of c xs)) (omega arith)
        (word-Spells c xs str (i + 1) h.2),
  )
]

behind-Spells :
    (c : ℕ) (xs : List ℕ) (str : Chars) (i : ℕ)
    → Spells str i xs
    → has c xs ≡ true
    → (str (i + length (word_of c xs)) ≡ c)
      × Spells str (i + length (word_of c xs) + 1) (behind_word c xs)
behind-Spells c [] str i h s = cc
behind-Spells c (x ∷ xs) str i h s = elim (Bool-cases (x == c)) [
  | inl e ↦ rw e (
    ap str (omega arith) ∙ h.0 ∙ ground arith,
    subst (λ (p : ℕ). Spells str p xs) (omega arith) h.2,
  )
  | inr e ↦
      let (a, b) = behind-Spells c xs str (i + 1) h.2 (ground arith) in
      rw e (
        ap str (omega arith) ∙ a,
        subst (λ (p : ℕ). Spells str p (behind_word c xs)) (omega arith) b,
      )
]

whole_word : (c : ℕ) (xs : List ℕ) → has c xs ≡ false → word_of c xs ≡ xs
whole_word c [] s = refl
whole_word c (x ∷ xs) s =
    let away : (x == c) ≡ false = ground arith in
    rw away (ap (λ (t : List ℕ). x ∷ t) (whole_word c xs (ground arith)))

Spells-end : (xs : List ℕ) (str : Chars) (i : ℕ) → Spells str i xs → str (i + length xs) ≡ 0
Spells-end [] str i h = ap str (omega arith) ∙ h
Spells-end (x ∷ xs) str i h = ap str (omega arith) ∙ Spells-end xs str (i + 1) h.2

-- What a call of `strtok` must give on the text `xs` at `start`, for the separator `c`.
pub record Token (str : Chars) (start c : ℕ) (xs : List ℕ) (r : Option Cut) : Type 0 where
  pub cut : Cut
  pub ends : r ≡ some cut
  pub result : cut.result ≡ some start
  pub word : Spells cut.chars start (word_of c xs)
  pub last : has c xs ≡ false → (cut.kept ≡ none) × (cut.chars ≡ str)
  pub more :
      has c xs ≡ true
      → (next : ℕ) × (cut.kept ≡ some next) × Spells cut.chars next (strip c (behind_word c xs))

behind_shorter : (c : ℕ) (xs : List ℕ) → length (behind_word c xs) ≤ length xs
behind_shorter c [] = omega arith
behind_shorter c (x ∷ xs) = ground (arith, behind_shorter c xs)

strlen_one : (f : ℕ) (sep : Chars) (c : ℕ) → Spells sep 0 (c ∷ []) → 1 < f → strlen f sep ≡ some 1
unfolding strlen strlen_loop
strlen_one zero sep c one lt = absurd (omega arith)
strlen_one (suc zero) sep c one lt = absurd (omega arith)
strlen_one (suc (suc f)) sep c one lt =
    let on : (sep 0 == 0) ≡ false = ground (arith, one.0, one.1) in
    let end : (sep (0 + 1) == 0) ≡ true = ground (arith, one.2) in rw (strlen_loop, on, end) refl

module _ (sep : Chars) (c : ℕ) (one : Spells sep 0 (c ∷ [])) (xs : List ℕ) (f : ℕ) (str : Chars)
    (start : ℕ) (h : Spells str start xs) (lt : length xs + 1 < f) where
  abbrev end : ℕ
  end = start + length (word_of c xs)

  found : find_sep f str sep 1 start ≡ some end
  found = find_sep_lem sep c one.0 one.1 xs f str start h (omega arith)

  cut-Token : Token str start c xs (cut_at f str sep 1 start (some end))
  cut-Token = elim (Bool-cases (has c xs)) [
    | inr e ↦
        let closed : (str end == 0) ≡ true = ground (
          arith,
          Spells-end xs str start h,
          ap (λ (t : List ℕ). str (start + length t)) (whole_word c xs e),
        ) in
        rw (cut_at, closed)
          (record {
            cut = record { chars = str; kept = none; result = some start };
            ends = refl;
            result = refl;
            word = subst (Spells str start) (sym (whole_word c xs e)) h;
            last = λ s. (refl, refl);
            more = λ s. cc;
          })
    | inl e ↦
        let (hit, rest) = behind-Spells c xs str start h e in
        let open_end : (str end == 0) ≡ false = ground (arith, hit, one.1) in
        let (j, r, t) =
          skip_seps_lem sep c one.0 one.1 (behind_word c xs) f (update str end 0) (end + 1)
            (Spells-update (behind_word c xs) str end (end + 1) (omega arith) rest)
            (omega (arith, behind_shorter c xs)) in
        rw (cut_at, open_end, r)
          (record {
            cut = record { chars = update str end 0; kept = some j; result = some start };
            ends = refl;
            result = refl;
            word = word-Spells c xs str start h;
            last = λ s. cc;
            more = λ s. (j, refl, t);
          })
  ]

  cuts : cut_from f str sep (strlen f sep) start ≡ cut_at f str sep 1 start (some end)
  cuts =
      ap (λ l. cut_from f str sep l start) (strlen_one f sep c one (omega arith))
      ∙ ap (cut_at f str sep 1 start) found

  starts :
      (kept : Option ℕ)
      → Token str start c xs (strtok f str kept (some start) sep)
        × Token str start c xs (strtok f str (some start) none sep)
  unfolding strtok
  starts kept = (
    subst (Token str start c xs) (sym cuts) cut-Token,
    subst (Token str start c xs) (sym cuts) cut-Token,
  )

strip_shorter : (c : ℕ) (xs : List ℕ) → length (strip c xs) ≤ length xs
strip_shorter c [] = omega arith
strip_shorter c (x ∷ xs) = ground (arith, strip_shorter c xs)

-- A call of `strtok` on the text `xs` at `start`, and the call of `strtok` of nil that follows it.
pub record Tokens (f : ℕ) (str : Chars) (start c : ℕ) (sep : Chars) (xs : List ℕ) (r : Option Cut)
    : Type 0 where
  pub token : Token str start c xs r
  pub nil_next :
      has c xs ≡ false
      → strtok f token.cut.chars token.cut.kept none sep
        ≡ some (record { chars = str; kept = none; result = none })
  pub next_token :
      has c xs ≡ true
      → (next : ℕ) × Token token.cut.chars next c
          (strip c (behind_word c xs))
          (strtok f token.cut.chars token.cut.kept none sep)

module _ (sep : Chars) (c : ℕ) (one : Spells sep 0 (c ∷ [])) (xs : List ℕ) (f : ℕ) (str : Chars)
    (start : ℕ) (h : Spells str start xs) (lt : length xs + 1 < f) where
  Tokens-of : (r : Option Cut) → Token str start c xs r → Tokens f str start c sep xs r
  unfolding strtok
  Tokens-of r t = record {
    token = t;
    nil_next = λ s. rw ((t.last s).0, (t.last s).1) refl;
    next_token = λ s.
        let (next, at, text) = t.more s in
        (
          next,
          rw at
              (starts sep c one (strip c (behind_word c xs)) f t.cut.chars next text
                (omega (arith, strip_shorter c (behind_word c xs), behind_shorter c xs)) none).1,
        );
  }

  -- On a string, for a separator of one character and with fuel beyond the length of the string
  -- and one, `strtok` of the string, and of nil where it stopped there before, returns the start
  -- of the string, which then ends before the first separator. If there is none, the characters
  -- stay, and the next call, of nil, returns nil and changes nothing. Otherwise the next call, of
  -- nil, returns the start of a string that is the text behind that separator without the
  -- separators in front of it, and cuts it in the same way.
  pub strtok_lem :
      (kept : Option ℕ)
      → Tokens f str start c sep xs (strtok f str kept (some start) sep)
        × Tokens f str start c sep xs (strtok f str (some start) none sep)
  strtok_lem kept =
      let t = starts sep c one xs f str start h lt kept in (Tokens-of _ t.0, Tokens-of _ t.1)
