-- ===== src/Software/Padding.antt =====
-- internal/provider/software/aescbc.go: the padding of PKCS#7.
use citius_server.Prelude.{
  ℕ, zero, suc, ◌+◌, ◌-◌, ◌%◌, ◌≤◌, ◌<◌, ◌≡◌, refl, sym, ap, ◌∙◌, subst, ◌↔◌, Bool, true, false,
  not, ◌&&◌, ◌||◌, [], ◌∷◌, ◌++◌, arith, ltb, eqb, if◌then◌else◌, length, take, drop, length-append,
  take-append, drop-append, take-append-drop, length-drop,
}
use native.Mathlib.Decide.{dec_lt}
use native.Mathlib.Nat.{mod-lt, mod-add-mod, mod-eq_of_lt, mod-eq-sub-mod, mod_self}
use citius_server.Errors.{invalid_argument}
use citius_server.Software.Outcome.{
  Outcome, ok, panic, NoPanic, ◌>>=◌, ◌>>◌, guard, >>=-NoPanic, from_ok, guard-eq-ok, guard-NoPanic,
  ok-injective,
}
use citius_server.Software.Types.{Bytes}

abbrev replicate : ℕ → ℕ → Bytes
replicate zero v = []
replicate (suc n) v = v ∷ replicate n v

abbrev pad_len : Bytes → ℕ → ℕ
pad_len text size = size - length text % size

unfoldable pub pkcs7_pad : Bytes → ℕ → Bytes
pkcs7_pad text size = text ++ replicate (pad_len text size) (pad_len text size % 256)

-- `text[len(text)-1]`, which panics on an empty slice.
abbrev last : Bytes → Outcome ℕ
last [] = panic
last (c ∷ []) = ok c
last (c ∷ d ∷ s) = last (d ∷ s)

-- `text[:len(text)-n]` and `text[len(text)-n:]`, which panic out of range.
abbrev cut : Bytes → ℕ → Outcome (Bytes × Bytes)
cut text n =
    if ltb (length text) n
    then panic
    else ok (take (length text - n) text, drop (length text - n) text)

abbrev every : ℕ → Bytes → Bool
every n [] = true
every n (b ∷ s) = eqb b n && every n s

abbrev whole_blocks : Bytes → ℕ → Outcome (Unit {0})
whole_blocks text size =
    guard (not (eqb (length text) 0 || not (eqb (length text % size) 0))) invalid_argument

abbrev in_range : ℕ → Bytes → ℕ → Outcome (Unit {0})
in_range n text size = guard (not (eqb n 0 || ltb size n || ltb (length text) n)) invalid_argument

unfoldable pub pkcs7_unpad : Bytes → ℕ → Outcome Bytes
pkcs7_unpad text size = do
  whole_blocks text size
  n ← last text
  in_range n text size
  parts ← cut text n
  guard (every n parts.1) invalid_argument
  ok parts.0

length-replicate : (n v : ℕ) → length (replicate n v) ≡ n
length-replicate zero v = omega arith
length-replicate (suc n) v = omega (arith, length-replicate n v)

every-replicate : (n v : ℕ) → every v (replicate n v) ≡ true
every-replicate zero v = refl
every-replicate (suc n) v = ground (arith, every-replicate n v)

replicate_of_every : (n : ℕ) (s : Bytes) → every n s ≡ true → s ≡ replicate (length s) n
replicate_of_every n [] h = refl
replicate_of_every n (b ∷ s) h = ground (arith, replicate_of_every n s)

last-replicate : (s : Bytes) (n v : ℕ) → last (s ++ replicate (suc n) v) ≡ ok v
last-replicate [] zero v = refl
last-replicate [] (suc n) v = last-replicate [] n v
last-replicate (c ∷ []) n v = last-replicate [] n v
last-replicate (c ∷ d ∷ s) n v = last-replicate (d ∷ s) n v

last-NoPanic : (s : Bytes) → 0 < length s → NoPanic (last s)
last-NoPanic [] h = omega arith
last-NoPanic (c ∷ []) h = tt
last-NoPanic (c ∷ d ∷ s) h = last-NoPanic (d ∷ s) (omega arith)

mod_of_sum : (r n size : ℕ) → r < size → 0 < n → n ≤ size → (r + n) % size ≡ 0 → size - r ≡ n
mod_of_sum r n size h0 h1 h2 h3 = elim (dec_lt (r + n) size) [
  | yes h ↦ absurd (omega (arith, mod-eq_of_lt h, h3))
  | no h ↦
      let below : r + n - size < size = omega arith in
      let e : r + n - size ≡ 0 =
        sym (mod-eq_of_lt below)
        ∙ sym (mod-eq-sub-mod (let k : size ≤ r + n = omega arith in k))
        ∙ h3 in
      omega arith
]

pad_len_of_padded :
    (m n size : ℕ) → 0 < n → n ≤ size → n ≤ m → m % size ≡ 0 → size - (m - n) % size ≡ n
pad_len_of_padded m n size h1 h2 h3 h4 =
    let whole : m - n + n ≡ m = omega arith in
    mod_of_sum ((m - n) % size) n size (mod-lt (m - n) (omega arith)) h1 h2
      (mod-add-mod (m - n) size n ∙ ap (λ (k : ℕ). k % size) whole ∙ h4)

padded_mod : (m size : ℕ) → 0 < size → (m + (size - m % size)) % size ≡ 0
padded_mod m size h =
    let whole : m % size + (size - m % size) ≡ size = omega (arith, mod-lt m h) in
    sym (mod-add-mod m size (size - m % size)) ∙ ap (λ (k : ℕ). k % size) whole ∙ mod_self size

cut-append : (s t : Bytes) → cut (s ++ t) (length t) ≡ ok (s, t)
cut-append s t =
    let e : length (s ++ t) - length t ≡ length s = omega (arith, length-append s t) in
    let long : ltb (length (s ++ t)) (length t) ≡ false = ground (arith, length-append s t) in
    rw (long, e, take-append, drop-append)

run_unpad :
    (text : Bytes) (n size : ℕ) (parts : Bytes × Bytes)
    → whole_blocks text size ≡ ok tt
    → last text ≡ ok n
    → in_range n text size ≡ ok tt
    → cut text n ≡ ok parts
    → every n parts.1 ≡ true
    → pkcs7_unpad text size ≡ ok parts.0
unfolding pkcs7_unpad
run_unpad text n size parts a b c d e = rw (a, b, c, d, e)

unpad_of_parts :
    (s : Bytes) (m size : ℕ)
    → suc m ≤ size
    → length (s ++ replicate (suc m) (suc m)) % size ≡ 0
    → pkcs7_unpad (s ++ replicate (suc m) (suc m)) size ≡ ok s
unfolding pkcs7_unpad
unpad_of_parts s m size h k =
    let whole : whole_blocks (s ++ replicate (suc m) (suc m)) size ≡ ok tt =
      ground (arith, length-append s (replicate (suc m) (suc m))) in
    let range : in_range (suc m) (s ++ replicate (suc m) (suc m)) size ≡ ok tt =
      ground (arith, length-append s (replicate (suc m) (suc m)), length-replicate m (suc m)) in
    let parts : cut (s ++ replicate (suc m) (suc m)) (suc m) ≡ ok (s, replicate (suc m) (suc m)) =
      subst (λ n. cut (s ++ replicate (suc m) (suc m)) n ≡ ok (s, replicate (suc m) (suc m)))
        (length-replicate (suc m) (suc m)) (cut-append s (replicate (suc m) (suc m))) in
    run_unpad _ _ _ _ whole (last-replicate s m (suc m)) range parts
      (every-replicate (suc m) (suc m))

cut-eq-ok :
    (text : Bytes) (n : ℕ) {parts : Bytes × Bytes}
    → cut text n ≡ ok parts
    → (parts.0 ++ parts.1 ≡ text) × (length parts.1 ≡ n)
cut-eq-ok text n {parts} h =
    let long : n ≤ length text = ground arith in
    let test : ltb (length text) n ≡ false = ground arith in
    let here : parts ≡ (take (length text - n) text, drop (length text - n) text) =
      ok-injective (sym h ∙ rw test) in
    rw here
      (take-append-drop (length text - n) text, omega (arith, length-drop (length text - n) text))

parts_of_unpad :
    (text : Bytes) (size : ℕ) {p : Bytes}
    → pkcs7_unpad text size ≡ ok p
    → (n : ℕ) × (0 < n) × (n ≤ size) × (length text % size ≡ 0) × (text ≡ p ++ replicate n n)
unfolding pkcs7_unpad
parts_of_unpad text size {p} h = from_ok (whole_blocks text size) h λ u whole h1.
    from_ok (last text) h1 λ n is_last h2. from_ok (in_range n text size) h2 λ u2 bounds h3.
      from_ok (cut text n) h3 λ parts is_cut h4.
        from_ok (guard (every n parts.1) invalid_argument) h4 λ u3 same h5.
          let (joined, size_of) = cut-eq-ok text n is_cut in
          let padding : parts.1 ≡ replicate n n =
            replicate_of_every n parts.1 (guard-eq-ok _ _ same)
            ∙ ap (λ (k : ℕ). replicate k n) size_of in
          let here : p ≡ parts.0 = cc in
          (n, ground arith, ground arith, ground arith, rw (here, ← padding) (sym joined))

-- `pkcs7Unpad`, with a block size from 1 to 255, accepts exactly what `pkcs7Pad` makes: it returns a
-- text without an error if and only if it was given that text padded.
pub pkcs7_unpad-pad_iff :
    (text p : Bytes) (size : ℕ)
    → 0 < size
    → size < 256
    → (pkcs7_unpad text size ≡ ok p) ↔ (text ≡ pkcs7_pad p size)
unfolding pkcs7_pad
pkcs7_unpad-pad_iff text p size h k = (
  λ e.
      let (n, pos, small, whole, split) = parts_of_unpad text size e in
      let long : length text ≡ length p + n =
        ap length split
        ∙ length-append p (replicate n n)
        ∙ ap (λ (k : ℕ). length p + k) (length-replicate n n) in
      let back : length text - n ≡ length p = omega arith in
      let here : pad_len p size ≡ n =
        ap (λ (k : ℕ). size - k % size) (sym back)
        ∙ pad_len_of_padded (length text) n size pos small (omega arith) whole in
      let byte : n % 256 ≡ n = omega arith in rw (here, byte) split,
  λ e.
      let below : length p % size < size = mod-lt (length p) h in
      let here : pad_len p size ≡ suc (pad_len p size - 1) = omega arith in
      let byte : pad_len p size % 256 ≡ pad_len p size = omega arith in
      let padded : text ≡ p ++ replicate (suc (pad_len p size - 1)) (suc (pad_len p size - 1)) =
        e
        ∙ ap (λ (k : ℕ). p ++ replicate (pad_len p size) k) byte
        ∙ ap (λ (k : ℕ). p ++ replicate k k) here in
      let long : length (p ++ replicate (suc (pad_len p size - 1)) (suc (pad_len p size - 1)))
          ≡ length p + (size - length p % size) =
        length-append p _
        ∙ ap (λ (k : ℕ). length p + k) (length-replicate (suc (pad_len p size - 1)) _ ∙ sym here) in
      rw padded (
        unpad_of_parts p (pad_len p size - 1) size (omega arith)
          (ap (λ (k : ℕ). k % size) long ∙ padded_mod (length p) size h)),
)

pub pkcs7_unpad-NoPanic : (text : Bytes) (size : ℕ) → NoPanic (pkcs7_unpad text size)
unfolding pkcs7_unpad
pkcs7_unpad-NoPanic text size =
    >>=-NoPanic (whole_blocks text size) _ (guard-NoPanic _ _) λ u whole.
      >>=-NoPanic (last text) _ (last-NoPanic text (ground arith)) λ n is_last.
        >>=-NoPanic (in_range n text size) _ (guard-NoPanic _ _) λ u2 bounds.
          >>=-NoPanic (cut text n) _ (ground arith) λ parts is_cut.
            >>=-NoPanic (guard (every n parts.1) invalid_argument) _ (guard-NoPanic _ _) λ u3 e. tt

pub length-pkcs7_pad : (p : Bytes) (size : ℕ) → 0 < size → length (pkcs7_pad p size) % size ≡ 0
unfolding pkcs7_pad
length-pkcs7_pad p size h =
    ap (λ (k : ℕ). k % size)
      (length-append p _ ∙ ap (λ (k : ℕ). length p + k) (length-replicate (pad_len p size) _))
    ∙ padded_mod (length p) size h

pub length-pkcs7_pad_pos : (p : Bytes) (size : ℕ) → 0 < size → 0 < length (pkcs7_pad p size)
unfolding pkcs7_pad
length-pkcs7_pad_pos p size h =
    let below : length p % size < size = mod-lt (length p) h in
    omega (
      arith,
      length-append p (replicate (pad_len p size) (pad_len p size % 256)),
      length-replicate (pad_len p size) (pad_len p size % 256),
    )
