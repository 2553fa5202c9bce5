-- ===== src/Companion/MediaStore/Names.antt =====
-- The names of the chunks: different numbers have different names.
use Prim.Native.String.{slice}
use mathlib.Core.Path.{ap₂}
use text.Mathlib.TextPositions.{starts_with-append}
use webadbcontrol.Base.{
  ℕ, zero, suc, ◌+◌, ◌*◌, ◌/◌, ◌%◌, ◌<◌, ◌≡◌, refl, ap, sym, ◌∙◌, String, ◌<>◌, true, [], ◌∷◌, ◌++◌,
  length, length-append, arith,
}
use webadbcontrol.Base.Text.{Text, codes, codes-append, dec_padded}
use webadbcontrol.Companion.MediaStore.{chunk_name, is_chunk}

abbrev digit : ℕ → String
digit d = slice "0123456789" d (d + 1)

codes-digit : (d : ℕ) → d < 10 → codes (digit d) ≡ (48 + d) ∷ []
codes-digit zero h = refl
codes-digit (suc zero) h = refl
codes-digit (suc (suc zero)) h = refl
codes-digit (suc (suc (suc zero))) h = refl
codes-digit (suc (suc (suc (suc zero)))) h = refl
codes-digit (suc (suc (suc (suc (suc zero))))) h = refl
codes-digit (suc (suc (suc (suc (suc (suc zero)))))) h = refl
codes-digit (suc (suc (suc (suc (suc (suc (suc zero))))))) h = refl
codes-digit (suc (suc (suc (suc (suc (suc (suc (suc zero)))))))) h = refl
codes-digit (suc (suc (suc (suc (suc (suc (suc (suc (suc zero))))))))) h = refl
codes-digit (suc (suc (suc (suc (suc (suc (suc (suc (suc (suc d)))))))))) h =
    absurd (omega (arith, h))

append_cancel : (s t u v : Text) → length s ≡ length t → s ++ u ≡ t ++ v → (s ≡ t) × (u ≡ v)
append_cancel [] [] u v l h = (refl, h)
append_cancel [] (c ∷ t) u v l h = absurd (omega (arith, l))
append_cancel (c ∷ s) [] u v l h = absurd (omega (arith, l))
append_cancel (c ∷ s) (d ∷ t) u v l h =
    let (same, rest) = append_cancel s t u v (omega (arith, l)) (ground (arith, h)) in
    (ap₂ ◌∷◌ (ground (arith, h)) same, rest)

abbrev pub limit : ℕ → ℕ
limit zero = 1
limit (suc k) = 10 * limit k

digit_below : (n : ℕ) → n % 10 < 10
digit_below n = omega arith

abbrev last : ℕ → ℕ
last n = 48 + n % 10

codes-dec_padded :
    (k n : ℕ) → codes (dec_padded (suc k) n) ≡ codes (dec_padded k (n / 10)) ++ last n ∷ []
unfolding dec_padded
codes-dec_padded k n =
    codes-append (dec_padded k (n / 10)) (digit (n % 10))
    ∙ ap (λ s. codes (dec_padded k (n / 10)) ++ s) (codes-digit (n % 10) (digit_below n))

length-dec_padded : (k n : ℕ) → length (codes (dec_padded k n)) ≡ k
unfolding dec_padded
length-dec_padded zero n = refl
length-dec_padded (suc k) n = omega (
  arith,
  ap length (codes-dec_padded k n),
  length-append (codes (dec_padded k (n / 10))) (last n ∷ []),
  length-dec_padded k (n / 10),
)

dec_padded-eq :
    (k n m : ℕ)
    → n < limit k
    → m < limit k
    → codes (dec_padded k n) ≡ codes (dec_padded k m)
    → n ≡ m
dec_padded-eq zero n m hn hm h = omega (arith, hn, hm)
dec_padded-eq (suc k) n m hn hm h =
    let (front, back) =
      append_cancel (codes (dec_padded k (n / 10))) (codes (dec_padded k (m / 10))) (last n ∷ [])
        (last m ∷ []) (length-dec_padded k (n / 10) ∙ sym (length-dec_padded k (m / 10)))
        (sym (codes-dec_padded k n) ∙ h ∙ codes-dec_padded k m) in
    let fronts = dec_padded-eq k (n / 10) (m / 10) (omega (arith, hn)) (omega (arith, hm)) front in
    let backs : last n ≡ last m = ground (arith, back) in omega (arith, fronts, backs)

codes-chunk_name :
    (n : ℕ) → codes (chunk_name n) ≡ codes "chunk-" ++ codes (dec_padded 20 n) ++ codes ".bin"
unfolding chunk_name
codes-chunk_name n =
    codes-append "chunk-" (dec_padded 20 n <> ".bin")
    ∙ ap (λ s. codes "chunk-" ++ s) (codes-append (dec_padded 20 n) ".bin")

pub is_chunk-chunk_name : (n : ℕ) → is_chunk (chunk_name n) ≡ true
unfolding chunk_name
is_chunk-chunk_name n = starts_with-append "chunk-" (dec_padded 20 n <> ".bin")

-- Two numbers of one name are equal, below the bound of the twenty digits.
pub chunk_name-eq : (n m : ℕ) → n < limit 20 → m < limit 20 → chunk_name n ≡ chunk_name m → n ≡ m
chunk_name-eq n m hn hm h =
    let whole = sym (codes-chunk_name n) ∙ ap codes h ∙ codes-chunk_name m in
    let (same, rest) = append_cancel (codes "chunk-") (codes "chunk-") _ _ refl whole in
    let (digits, end) =
      append_cancel (codes (dec_padded 20 n)) (codes (dec_padded 20 m)) (codes ".bin")
        (codes ".bin") (length-dec_padded 20 n ∙ sym (length-dec_padded 20 m)) rest in
    dec_padded-eq 20 n m hn hm digits
